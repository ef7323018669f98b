-- ===== src/Endpoint/Conns/Slots.antt =====
-- The entry of a handle and an epoch, and the operations that change every entry.
use polymorph_iroh.Base.{
  ℕ, ◌<◌, ◌≡◌, ◌↔◌, inl, inr, ap, sym, refl, ◌∙◌, true, not, ◌&&◌, is_none, Option, none, some, [],
  ◌∷◌, Bytes, eqb, eqb_iff, nat_key, bytes_key, Bool-cases, Option-cases, if_cases,
}
use polymorph_iroh.Base.Maps.{Map, lookup}
use polymorph_iroh.Net.{addr_key}
use polymorph_iroh.Noq.{Noq}
use polymorph_iroh.Endpoint.{State, ConnEntry, kick_pump, wake_waiters}
use polymorph_iroh.Endpoint.Conns.{
  is_due, entry_for, of_epoch, close_entries, close_endpoint, fire_timeouts, handle_timeouts,
}
use polymorph_iroh.Endpoint.Conns.Gone.{gone, slots, IsGone}

module _ {noq : Noq} where
  -- A change of every entry that leaves its epoch alone.
  SameEpochs : Map ℕ (ConnEntry noq) → Map ℕ (ConnEntry noq) → Type 0
  SameEpochs before after =
      (h : ℕ) (e : ConnEntry noq)
      → lookup h after ≡ some e
      → (old : ConnEntry noq) × (lookup h before ≡ some old) × (e.epoch ≡ old.epoch)

  SameEpochs-cons :
      (h : ℕ) (old new : ConnEntry noq) (before after : Map ℕ (ConnEntry noq))
      → new.epoch ≡ old.epoch
      → SameEpochs before after
      → SameEpochs ((h, old) ∷ before) ((h, new) ∷ after)
  unfolding SameEpochs lookup
  SameEpochs-cons h old new before after same rest k e found = elim (Bool-cases (eqb h k)) [
    | inl t ↦
        let is_new : some new ≡ some e = rw (t, lookup) at found in
        let q : new ≡ e = cc is_new in
        rw (t, lookup) (old, refl, ap (λ (x : ConnEntry noq). x.epoch) (sym q) ∙ same)
    | inr t ↦ rw (t, lookup) (rest k e (rw (t, lookup) at found))
  ]

  close_entries-epochs :
      (now : ℕ) (reason : Bytes) (m : Map ℕ (ConnEntry noq))
      → SameEpochs m (close_entries now reason m)
  unfolding SameEpochs close_entries lookup
  close_entries-epochs now reason [] = λ h e found. cc found
  close_entries-epochs now reason ((h, e) ∷ m) =
      SameEpochs-cons h e _ m (close_entries now reason m)
        (if_cases (λ (x : ConnEntry noq). x.epoch ≡ e.epoch) (is_none e.error && not e.drained) _ _
          (λ _. refl) (λ _. refl))
        (close_entries-epochs now reason m)

  fire_timeouts-epochs : (now : ℕ) (m : Map ℕ (ConnEntry noq)) → SameEpochs m (fire_timeouts now m)
  unfolding SameEpochs fire_timeouts lookup
  fire_timeouts-epochs now [] = λ h e found. cc found
  fire_timeouts-epochs now ((h, e) ∷ m) =
      SameEpochs-cons h e _ m (fire_timeouts now m)
        (if_cases (λ (x : ConnEntry noq). x.epoch ≡ e.epoch) (is_due now (noq.poll_timeout e.conn))
          _ _ (λ _. refl) (λ _. refl))
        (fire_timeouts-epochs now m)

  SameEpochs-IsGone :
      {handle epoch next : ℕ} (before after : Map ℕ (ConnEntry noq))
      → SameEpochs before after
      → IsGone handle epoch (before, next)
      → IsGone handle epoch (after, next)
  unfolding SameEpochs
  SameEpochs-IsGone {handle} {epoch} before after same (gone lt no_slot) =
      gone lt (λ e found. let (old, at, q) = same handle e found in λ r. no_slot old at (sym q ∙ r))

  pub timeouts-IsGone :
      {handle epoch : ℕ} (st : State noq) (now : ℕ)
      → IsGone handle epoch (slots st)
      → IsGone handle epoch (slots (handle_timeouts st now))
  unfolding handle_timeouts
  timeouts-IsGone st now g =
      SameEpochs-IsGone st.conns (fire_timeouts now st.conns) (fire_timeouts-epochs now st.conns) g

  pub close-IsGone :
      {handle epoch : ℕ} (st : State noq) (now : ℕ) (reason : Bytes)
      → IsGone handle epoch (slots st)
      → IsGone handle epoch (slots (close_endpoint st now reason))
  unfolding close_endpoint wake_waiters kick_pump
  close-IsGone {handle} {epoch} st now reason g =
      if_cases (λ (s : State noq). IsGone handle epoch (slots s)) st.is_closed _ _ (λ _. g)
        (λ _.
          SameEpochs-IsGone st.conns (close_entries now reason st.conns)
            (close_entries-epochs now reason st.conns) g)

  of_epoch_iff :
      (epoch : ℕ) (slot : Option (ConnEntry noq)) (e : ConnEntry noq)
      → (of_epoch epoch slot ≡ some e) ↔ ((slot ≡ some e) × (e.epoch ≡ epoch))
  of_epoch_iff epoch none e = (λ h. cc h, λ (h, _). cc h)
  of_epoch_iff epoch (some old) e = elim (Bool-cases (eqb old.epoch epoch)) [
    | inl t ↦
        let same : old.epoch ≡ epoch = (eqb_iff old.epoch epoch).0 t in
        rw t (
          λ h. let q : old ≡ e = cc h in (h, ap (λ (x : ConnEntry noq). x.epoch) (sym q) ∙ same),
          λ (h, _). h,
        )
    | inr t ↦ rw t (
      λ h. cc h,
      λ (h, same).
          let q : old ≡ e = cc h in
          let back : eqb old.epoch epoch ≡ true =
            (eqb_iff old.epoch epoch).1 (ap (λ (x : ConnEntry noq). x.epoch) q ∙ same) in
          cc (t, back),
    )
  ]

  -- A resource finds an entry exactly if the entry in its slot is the one that it was minted for.
  pub entry_for_iff :
      (st : State noq) (handle epoch : ℕ) (e : ConnEntry noq)
      → (entry_for st handle epoch ≡ some e)
        ↔ ((lookup handle st.conns ≡ some e) × (e.epoch ≡ epoch))
  unfolding entry_for
  entry_for_iff st handle epoch e = of_epoch_iff epoch (lookup handle st.conns) e

  pub IsGone-entry_for :
      {handle epoch : ℕ} (st : State noq)
      → IsGone handle epoch (slots st)
      → entry_for st handle epoch ≡ none
  IsGone-entry_for {handle} {epoch} st (gone lt no_slot) =
      elim (Option-cases (entry_for st handle epoch)) [
        | inl e ↦ e
        | inr (entry, e) ↦
            let (at, same) = (entry_for_iff st handle epoch entry).0 e in
            absurd (no_slot entry at same)
      ]

  pub entry_for-IsGone :
      (st : State noq) (handle epoch : ℕ)
      → epoch < st.next_conn_epoch
      → entry_for st handle epoch ≡ none
      → IsGone handle epoch (slots st)
  entry_for-IsGone st handle epoch lt e =
      gone lt (λ entry found. λ same. cc (e, (entry_for_iff st handle epoch entry).1 (found, same)))
