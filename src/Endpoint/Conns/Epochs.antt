-- ===== src/Endpoint/Conns/Epochs.antt =====
-- `accept` and the epochs that tell apart the connections of a handle that is used again.
use polymorph_iroh.Base.{
  ℕ, ◌≡◌, ◌≢◌, ◌↔◌, inl, inr, ap, sym, subst, refl, ◌∙◌, Bool, true, false, Option, none, some,
  List, [], ◌∷◌, nat_key, bytes_key, arith, Option-cases,
}
use polymorph_iroh.Base.Maps.{lookup}
use polymorph_iroh.Net.{addr_key}
use polymorph_iroh.Noq.{Noq}
use polymorph_iroh.Endpoint.{State, ConnEntry}
use polymorph_iroh.Endpoint.Conns.{next_claim, settle, entry_for, accept_check}
use polymorph_iroh.Endpoint.Conns.Gone.{slots, IsGone}
use polymorph_iroh.Endpoint.Conns.Slots.{entry_for_iff}

verdict : Bool → Option (ℕ × ℕ) → Option (Option (ℕ × ℕ))
verdict is_closed (some claim) = some (some claim)
verdict true none = some none
verdict false none = none

verdict-some :
    (is_closed : Bool) (next : Option (ℕ × ℕ)) (claim : ℕ × ℕ)
    → verdict is_closed next ≡ some (some claim)
    → next ≡ some claim
unfolding verdict
verdict-some is_closed (some c) claim h = cc h
verdict-some true none claim h = cc h
verdict-some false none claim h = cc h

module _ {noq : Noq} where
  -- `accept` takes from the queue the first connection that still holds its slot, and every entry
  -- before it; it takes all of the queue if there is none.
  pub data Claims (st : State noq) : List (ℕ × ℕ) → List (ℕ × ℕ) → Option (ℕ × ℕ) → Type 0 where
    empty : Claims st [] [] none
    takes :
        {h epoch : ℕ} {queue : List (ℕ × ℕ)} (e : ConnEntry noq)
        → lookup h st.conns ≡ some e
        → e.epoch ≡ epoch
        → Claims st ((h, epoch) ∷ queue) queue (some (h, epoch))
    skips :
        {h epoch : ℕ} {queue rest : List (ℕ × ℕ)} {claim : Option (ℕ × ℕ)}
        → ((e : ConnEntry noq) → lookup h st.conns ≡ some e → e.epoch ≢ epoch)
        → Claims st queue rest claim
        → Claims st ((h, epoch) ∷ queue) rest claim

  next_claim-Claims :
      (st : State noq) (queue : List (ℕ × ℕ))
      → Claims st queue (next_claim st queue).0 (next_claim st queue).1
  unfolding next_claim
  next_claim-Claims st [] = empty
  next_claim-Claims st ((h, epoch) ∷ queue) = elim (Option-cases (entry_for st h epoch)) [
    | inl e ↦
        rw (e, next_claim)
          (skips (λ entry found. λ same. cc (e, (entry_for_iff st h epoch entry).1 (found, same)))
            (next_claim-Claims st queue))
    | inr (entry, e) ↦
        let (at, same) = (entry_for_iff st h epoch entry).0 e in
        rw (e, next_claim) (takes entry at same)
  ]

  Claims-next_claim :
      (st : State noq) {queue rest : List (ℕ × ℕ)} {claim : Option (ℕ × ℕ)}
      → Claims st queue rest claim
      → next_claim st queue ≡ (rest, claim)
  unfolding next_claim
  Claims-next_claim st empty = refl
  Claims-next_claim st (takes {h} {epoch} e at same) =
      rw ((entry_for_iff st h epoch e).1 (at, same), next_claim) refl
  Claims-next_claim st (skips {h} {epoch} no_slot rest) =
      elim (Option-cases (entry_for st h epoch)) [
        | inl e ↦ rw (e, next_claim) (Claims-next_claim st rest)
        | inr (entry, e) ↦
            let (at, same) = (entry_for_iff st h epoch entry).0 e in absurd (no_slot entry at same)
      ]

  settle-shape :
      (st : State noq) (queue : List (ℕ × ℕ)) (claim : Option (ℕ × ℕ))
      → (slots (settle st queue claim).0 ≡ slots st)
        × ((settle st queue claim).0.accept_queue ≡ queue)
        × ((settle st queue claim).1 ≡ verdict st.is_closed claim)
  unfolding settle verdict
  settle-shape st queue (some c) = (refl, refl, refl)
  settle-shape st queue none = (refl, refl, ground arith)

  accept_check-shape :
      (st : State noq)
      → (slots (accept_check st).0 ≡ slots st)
        × ((accept_check st).0.accept_queue ≡ (next_claim st st.accept_queue).0)
        × ((accept_check st).1 ≡ verdict st.is_closed (next_claim st st.accept_queue).1)
  unfolding accept_check
  accept_check-shape st =
      settle-shape st (next_claim st st.accept_queue).0 (next_claim st st.accept_queue).1

  pub accept_check-IsGone :
      {handle epoch : ℕ} (st : State noq)
      → IsGone handle epoch (slots st)
      → IsGone handle epoch (slots (accept_check st).0)
  accept_check-IsGone {handle} {epoch} st g =
      subst (IsGone handle epoch) (sym (accept_check-shape st).0) g

  -- A check of `accept` hands out a connection exactly if it is the first of the queue that still
  -- holds its slot; that one and those before it, which lost theirs, leave the queue.
  pub accept-Claims_iff :
      (st : State noq) (claim : ℕ × ℕ)
      → ((accept_check st).1 ≡ some (some claim))
        ↔ Claims st st.accept_queue (accept_check st).0.accept_queue (some claim)
  unfolding verdict
  accept-Claims_iff st claim =
      let (_, queue, outcome) = accept_check-shape st in
      (
        λ h.
            let first =
              verdict-some st.is_closed (next_claim st st.accept_queue).1 claim (sym outcome ∙ h) in
            subst (Claims st st.accept_queue (accept_check st).0.accept_queue) first (
              subst (λ q. Claims st st.accept_queue q (next_claim st st.accept_queue).1) (sym queue)
                (next_claim-Claims st st.accept_queue)),
        λ c. outcome ∙ ap (verdict st.is_closed) (ap (λ r. r.1) (Claims-next_claim st c)),
      )
