-- ===== src/Endpoint/Dance/Phases.antt =====
-- The order of one side's signals in a dance of endpoint/src/webrtc.rs, as an automaton: a
-- description, candidates, the end of the candidates, the sentinel.
use polymorph_iroh.Base.{◌≡◌, refl, map, Option, none, some, List, [], ◌∷◌, ◌++◌, Bytes, ◌∙◌, ap}
use polymorph_iroh.Endpoint.Dance.{
  Signal, offer, answer, candidate, end_of_candidates, done, Candidate,
}

-- How far a side's signals have come.
pub data Phase : Type 0 where
  offering answering trickling gathered over : Phase

abbrev pub follows : Phase → Signal → Option Phase
follows offering (offer sdp) = some trickling
follows answering (answer sdp) = some trickling
follows trickling (candidate c) = some trickling
follows trickling end_of_candidates = some gathered
follows gathered done = some over
follows _ _ = none

abbrev on_phase : Option Phase → (Phase → Option Phase) → Option Phase
on_phase none go = none
on_phase (some p) go = go p

-- The phase after some signals, if the protocol allows them in this order.
abbrev pub phase_after : Phase → List Signal → Option Phase
phase_after p [] = some p
phase_after p (signal ∷ signals) = on_phase (follows p signal) (λ q. phase_after q signals)

on_phase-some :
    (p : Phase) (o : Option Phase) → o ≡ some p → (go : Phase → Option Phase) → on_phase o go ≡ go p
on_phase-some p o e go = ap (λ (r : Option Phase). on_phase r go) e

phase_after-append :
    (p : Phase) (signals more : List Signal)
    → phase_after p (signals ++ more) ≡ on_phase (phase_after p signals) (λ q. phase_after q more)
phase_after-append p [] more = refl
phase_after-append p (first ∷ signals) more =
    step (follows p first) (λ r. phase_after-append r signals more)
  where
    step :
        (o : Option Phase)
        → ((r : Phase)
            → phase_after r (signals ++ more)
              ≡ on_phase (phase_after r signals) (λ q. phase_after q more))
        → on_phase o (λ q. phase_after q (signals ++ more))
          ≡ on_phase (on_phase o (λ q. phase_after q signals)) (λ q. phase_after q more)
    step none ih = refl
    step (some r) ih = ih r

pub phase_after-snoc :
    (p q r : Phase) (signals : List Signal) (signal : Signal)
    → phase_after p signals ≡ some q
    → follows q signal ≡ some r
    → phase_after p (signals ++ (signal ∷ [])) ≡ some r
phase_after-snoc p q r signals signal e step =
    phase_after-append p signals (signal ∷ [])
    ∙ on_phase-some q _ e (λ x. phase_after x (signal ∷ []))
    ∙ on_phase-some r _ step some

-- The whole of a side's signals, behind its description.
abbrev pub whole : Signal → List Candidate → List Signal
whole description cs = description ∷ (map candidate cs ++ (end_of_candidates ∷ done ∷ []))

over-over : (signals : List Signal) → phase_after over signals ≡ some over → signals ≡ []
over-over [] e = refl
over-over (offer sdp ∷ signals) e = cc
over-over (answer sdp ∷ signals) e = cc
over-over (candidate c ∷ signals) e = cc
over-over (end_of_candidates ∷ signals) e = cc
over-over (done ∷ signals) e = cc

gathered-over :
    (signals : List Signal) → phase_after gathered signals ≡ some over → signals ≡ done ∷ []
gathered-over [] e = cc
gathered-over (offer sdp ∷ signals) e = cc
gathered-over (answer sdp ∷ signals) e = cc
gathered-over (candidate c ∷ signals) e = cc
gathered-over (end_of_candidates ∷ signals) e = cc
gathered-over (done ∷ signals) e = ap (◌∷◌ done) (over-over signals e)

trickling-over :
    (signals : List Signal)
    → phase_after trickling signals ≡ some over
    → (cs : List Candidate) × (signals ≡ map candidate cs ++ (end_of_candidates ∷ done ∷ []))
trickling-over [] e = absurd cc
trickling-over (offer sdp ∷ signals) e = absurd cc
trickling-over (answer sdp ∷ signals) e = absurd cc
trickling-over (candidate c ∷ signals) e =
    let (cs, shape) = trickling-over signals e in (c ∷ cs, ap (◌∷◌ (candidate c)) shape)
trickling-over (end_of_candidates ∷ signals) e =
    ([], ap (◌∷◌ end_of_candidates) (gathered-over signals e))
trickling-over (done ∷ signals) e = absurd cc

pub offering-over :
    (signals : List Signal)
    → phase_after offering signals ≡ some over
    → (sdp : Bytes) × (cs : List Candidate) × (signals ≡ whole (offer sdp) cs)
offering-over [] e = absurd cc
offering-over (offer sdp ∷ signals) e =
    let (cs, shape) = trickling-over signals e in (sdp, cs, ap (◌∷◌ (offer sdp)) shape)
offering-over (answer sdp ∷ signals) e = absurd cc
offering-over (candidate c ∷ signals) e = absurd cc
offering-over (end_of_candidates ∷ signals) e = absurd cc
offering-over (done ∷ signals) e = absurd cc

pub answering-over :
    (signals : List Signal)
    → phase_after answering signals ≡ some over
    → (sdp : Bytes) × (cs : List Candidate) × (signals ≡ whole (answer sdp) cs)
answering-over [] e = absurd cc
answering-over (offer sdp ∷ signals) e = absurd cc
answering-over (answer sdp ∷ signals) e =
    let (cs, shape) = trickling-over signals e in (sdp, cs, ap (◌∷◌ (answer sdp)) shape)
answering-over (candidate c ∷ signals) e = absurd cc
answering-over (end_of_candidates ∷ signals) e = absurd cc
answering-over (done ∷ signals) e = absurd cc
