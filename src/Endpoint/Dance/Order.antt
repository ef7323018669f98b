-- ===== src/Endpoint/Dance/Order.antt =====
-- What the pieces of the dances of endpoint/src/webrtc.rs send, by the phase that they lead to.
use polymorph_iroh.Base.{◌≡◌, refl, some, List, [], ◌∷◌, Bytes, ◌⊎◌, inl, inr, ◌∙◌, ap, ◌++◌}
use polymorph_iroh.Noq.{Noq}
use polymorph_iroh.Endpoint.Dance.{
  World, Scene, Result, ok, err, parked, Play, and_then, ◌>>=◌, ◌>>◌, publish, on_published,
  on_encoded, publish_each, publish_candidates, gather, Signal, candidate, end_of_candidates, done,
  Candidate,
}
use mathlib.Core.List.{append_assoc}
use polymorph_iroh.Endpoint.Dance.Outbox.{signals_to, publish-signals}
use polymorph_iroh.Endpoint.Dance.Quiet.{IsQuiet, IsDiscreet, gather-IsQuiet}
use polymorph_iroh.Endpoint.Dance.Sides.{announce}
use polymorph_iroh.Endpoint.Dance.Phases.{
  Phase, trickling, gathered, over, follows, phase_after, phase_after-snoc,
}

-- The texts are the encodings of the signals, one by one.
abbrev pub Encodes : {noq : Noq} → World noq → List Signal → List Bytes → Type 0
Encodes w [] [] = Unit {0}
Encodes w (signal ∷ signals) (text ∷ texts) = (w.encode signal ≡ inr text) × Encodes w signals texts
Encodes w _ _ = ⊥

Encodes-snoc :
    {noq : Noq} (w : World noq) (signals : List Signal) (texts : List Bytes) (signal : Signal)
    (text : Bytes)
    → Encodes w signals texts
    → w.encode signal ≡ inr text
    → Encodes w (signals ++ (signal ∷ [])) (texts ++ (text ∷ []))
Encodes-snoc w [] [] signal text h e = (e, tt)
Encodes-snoc w [] (first ∷ texts) signal text h e = absurd h
Encodes-snoc w (first ∷ signals) [] signal text h e = absurd h
Encodes-snoc w (first ∷ signals) (head ∷ texts) signal text h e =
    (h.0, Encodes-snoc w signals texts signal text h.1 e)

module _ {noq : Noq} {w : World noq} (peer : Bytes) (base : List Bytes) (start : Phase) where
  -- Behind `base`, the encodings of some signals to the peer have gone out, which lead to the phase.
  abbrev pub Told : Phase → Scene w → Type 0
  Told p s =
      (signals : List Signal) × (texts : List Bytes) × (signals_to peer s.st ≡ base ++ texts)
      × Encodes w signals texts
      × (phase_after start signals ≡ some p)

  -- How a piece leaves a side that was in phase `p`: in `q` if it ends well, and in some phase if not.
  abbrev pub Ends : {A : Type 0} → Phase → Scene w × Result A → Type 0
  Ends q (s, ok a) = Told q s
  Ends q (s, _) = (p : Phase) × Told p s

  abbrev pub Leads : {A : Type 0} → Phase → Phase → Play w A → Type 0
  Leads p q play = (s : Scene w) → Told p s → Ends q (play s)

  and_then-Ends :
      {A B : Type 0} (q r : Phase) (k : A → Play w B) (x : Scene w × Result A)
      → Ends q x
      → ((a : A) → Leads q r (k a))
      → Ends r (and_then k x.0 x.1)
  and_then-Ends q r k (s, ok a) h hk = hk a s h
  and_then-Ends q r k (s, err f) h hk = h
  and_then-Ends q r k (s, parked) h hk = h

  pub bind-Leads :
      {A B : Type 0} (p q r : Phase) (m : Play w A) (k : A → Play w B)
      → Leads p q m
      → ((a : A) → Leads q r (k a))
      → Leads p r (m >>= k)
  bind-Leads p q r m k hm hk s e = and_then-Ends q r k (m s) (hm s e) hk

  pub quiet-Ends : {A : Type 0} (p : Phase) (x : Scene w × Result A) → Told p x.0 → Ends p x
  quiet-Ends p (s, ok a) e = e
  quiet-Ends p (s, err f) e = (p, e)
  quiet-Ends p (s, parked) e = (p, e)

  -- A piece that publishes nothing stays in its phase.
  pub quiet-Leads : {A : Type 0} (p : Phase) (m : Play w A) → IsQuiet peer m → Leads p p m
  quiet-Leads p m quiet s (signals, texts, out, encodes, phase) =
      quiet-Ends p (m s) (signals, texts, quiet s ∙ out, encodes, phase)

  pub after_quiet :
      {A B : Type 0} (p r : Phase) (m : Play w A) (k : A → Play w B)
      → IsQuiet peer m
      → ((a : A) → Leads p r (k a))
      → Leads p r (m >>= k)
  after_quiet p r m k quiet hk = bind-Leads p p r m k (quiet-Leads p m quiet) hk

  on_encoded-Leads :
      (p q : Phase) (signal : Signal) (o : Bytes ⊎ Bytes)
      → w.encode signal ≡ o
      → follows p signal ≡ some q
      → Leads p q (on_encoded {w = w} peer signal o)
  unfolding on_encoded on_published
  on_encoded-Leads p q signal (inl text) same step s told = (p, told)
  on_encoded-Leads p q signal (inr text) same step s (signals, texts, out, encodes, phase) =
      elim (publish-signals s.st peer text) [
        | inl (next, goes, more) ↦ rw goes (
          signals ++ (signal ∷ []),
          texts ++ (text ∷ []),
          more ∙ ap (λ x. x ++ (text ∷ [])) out ∙ append_assoc base texts (text ∷ []),
          Encodes-snoc w signals texts signal text encodes same,
          phase_after-snoc start p q signals signal phase step,
        )
        | inr (e, fails) ↦ rw fails (p, (signals, texts, out, encodes, phase))
      ]

  publish-Leads :
      (p q : Phase) (signal : Signal)
      → follows p signal ≡ some q
      → Leads p q (publish {w = w} peer signal)
  unfolding publish
  publish-Leads p q signal step = on_encoded-Leads p q signal (w.encode signal) refl step

  publish_each-Leads :
      (cs : List Candidate) → Leads trickling trickling (publish_each {w = w} peer cs)
  unfolding publish_each
  publish_each-Leads [] = λ s e. e
  publish_each-Leads (c ∷ cs) =
      bind-Leads trickling trickling trickling (publish peer (candidate c))
        (λ u. publish_each peer cs) (publish-Leads trickling trickling (candidate c) refl)
        (λ u. publish_each-Leads cs)

  publish_candidates-Leads :
      IsDiscreet w peer → Leads trickling gathered (publish_candidates {w = w} peer)
  unfolding publish_candidates
  publish_candidates-Leads discreet s =
      after_quiet trickling gathered (gather (w.local_ice_candidates s.conn) [])
        (λ cs. do publish_each peer cs; publish peer end_of_candidates)
        (gather-IsQuiet peer discreet (w.local_ice_candidates s.conn) [])
        (λ cs.
          bind-Leads trickling trickling gathered (publish_each peer cs)
            (λ u. publish peer end_of_candidates) (publish_each-Leads cs)
            (λ u. publish-Leads trickling gathered end_of_candidates refl))
        s

  pub announce-Leads :
      (p : Phase) (description : Signal)
      → IsDiscreet w peer
      → follows p description ≡ some trickling
      → Leads p over (announce {w = w} peer description)
  unfolding announce
  announce-Leads p description discreet step =
      bind-Leads p trickling over (publish peer description)
        (λ u. do publish_candidates peer; publish peer done)
        (publish-Leads p trickling description step)
        (λ u.
          bind-Leads trickling gathered over (publish_candidates peer) (λ v. publish peer done)
            (publish_candidates-Leads discreet) (λ v. publish-Leads gathered over done refl))
