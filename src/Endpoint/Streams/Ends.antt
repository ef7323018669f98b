-- ===== src/Endpoint/Streams/Ends.antt =====
-- Which reads end a receive stream cleanly.
use polymorph_iroh.Base.{
  ℕ, ◌≡◌, ◌↔◌, refl, sym, ap, subst, ◌∙◌, ◌⊎◌, inl, inr, Option, none, some, Option-cases,
}
use polymorph_iroh.Noq.{Noq, ReadOutcome, chunk, fin, illegal_ordered_read, was_reset}
use polymorph_iroh.Endpoint.{State, ConnEntry, Error, closed}
use polymorph_iroh.Endpoint.Conns.{entry_for}
use polymorph_iroh.Endpoint.Streams.{put_conn}
use polymorph_iroh.Endpoint.Streams.Reads.{on_read, read_check}

on_read_clean :
    {noq : Noq} (st : State noq) (failure : Option Error) (outcome : ReadOutcome)
    → ((on_read st failure outcome).1 ≡ some (inr none))
      ↔ ((outcome ≡ fin) ⊎ (outcome ≡ ReadOutcome.closed_stream) × (failure ≡ none))
unfolding on_read
on_read_clean st failure (chunk bytes) =
    (λ h. cc h, λ h. elim h [ inl e ↦ cc e | inr (e, f) ↦ cc e ])
on_read_clean st failure fin = (λ h. inl refl, λ h. refl)
on_read_clean st (some x) ReadOutcome.blocked =
    (λ h. cc h, λ h. elim h [ inl e ↦ cc e | inr (e, f) ↦ cc f ])
on_read_clean st none ReadOutcome.blocked =
    (λ h. cc h, λ h. elim h [ inl e ↦ cc e | inr (e, f) ↦ cc e ])
on_read_clean st (some x) ReadOutcome.closed_stream =
    (λ h. cc h, λ h. elim h [ inl e ↦ cc e | inr (e, f) ↦ cc f ])
on_read_clean st none ReadOutcome.closed_stream = (λ h. inr (refl, refl), λ h. refl)
on_read_clean st failure illegal_ordered_read =
    (λ h. cc h, λ h. elim h [ inl e ↦ cc e | inr (e, f) ↦ cc e ])
on_read_clean st failure (was_reset code) =
    (λ h. cc h, λ h. elim h [ inl e ↦ cc e | inr (e, f) ↦ cc e ])

-- A read ends a stream cleanly exactly if its connection is there and the engine reports the peer's
-- FIN, or reports that the stream is gone while the connection has not failed. So a failed
-- connection never reads as a clean end, except behind a FIN.
pub clean_end_iff :
    {noq : Noq} (st : State noq) (handle epoch id max : ℕ)
    → ((read_check st handle epoch id max).1 ≡ some (inr none)) ↔ (
        (e : ConnEntry noq) × (entry_for st handle epoch ≡ some e)
        × (((noq.read e.conn id max).1 ≡ fin)
            ⊎ ((noq.read e.conn id max).1 ≡ ReadOutcome.closed_stream) × (e.error ≡ none)))
unfolding read_check
clean_end_iff {noq} st handle epoch id max = elim (Option-cases (entry_for st handle epoch)) [
  | inl n ↦
      let shut : read_check st handle epoch id max ≡ (st, some (inl closed)) =
        rw (read_check, n) refl in
      (λ h. cc (h, ap (λ r. r.1) shut), λ (e, found, how). cc (n, found))
  | inr (e, found) ↦
      let read = noq.read e.conn id max in
      let next = put_conn st handle e read.0 in
      let same : read_check st handle epoch id max ≡ on_read next e.error read.1 =
        rw (read_check, found) refl in
      let (to, from) = on_read_clean next e.error read.1 in
      (
        λ h. (e, found, to (sym (ap (λ r. r.1) same) ∙ h)),
        λ (other, found2, how).
            let eq : other ≡ e = cc (found, found2) in
            ap (λ r. r.1) same
            ∙ from (
                subst
                  (λ x.
                    ((noq.read x.conn id max).1 ≡ fin)
                    ⊎ ((noq.read x.conn id max).1 ≡ ReadOutcome.closed_stream) × (x.error ≡ none))
                  eq how),
      )
]
