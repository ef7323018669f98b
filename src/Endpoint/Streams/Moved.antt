-- ===== src/Endpoint/Streams/Moved.antt =====
-- The loop of one check of `write_all`, and the bytes that it moves.
use mathlib.Core.List.{append_assoc}
use polymorph_iroh.Base.{
  ℕ, zero, suc, ◌+◌, ◌≤◌, ◌<◌, ◌≡◌, refl, sym, ap, ◌∙◌, inl, inr, true, false, List, [], ◌∷◌, ◌++◌,
  Bytes, eqb, eqb_iff, length, take, drop, length-drop, take-append-drop, if_cases, Bool-cases,
  nat_key, arith,
}
use polymorph_iroh.Noq.{Noq, WriteOutcome, written}
use polymorph_iroh.Endpoint.Streams.{
  Pass, again, parked, over, on_written, write_once, is_again, write_pass,
}

drop_nil {ℓ} : {A : Type ℓ} (n : ℕ) → drop {A = A} n [] ≡ []
drop_nil zero = refl
drop_nil (suc n) = refl

suc_add : (n m : ℕ) → suc (n + m) ≡ suc n + m
suc_add n m = omega arith

drop-drop {ℓ} : {A : Type ℓ} (n m : ℕ) (xs : List A) → drop m (drop n xs) ≡ drop (n + m) xs
drop-drop zero m xs = ap (λ k. drop k xs) (omega arith)
drop-drop (suc n) m [] = drop_nil m ∙ sym (drop_nil (suc n + m))
drop-drop (suc n) m (x ∷ xs) = drop-drop n m xs ∙ ap (λ k. drop k (x ∷ xs)) (suc_add n m)

pub drop_all {ℓ} : {A : Type ℓ} (xs : List A) → drop (length xs) xs ≡ []
drop_all [] = refl
drop_all (x ∷ xs) = drop_all xs

-- What a stream has sent before and after one `write` of the engine.
abbrev pub Taken : Bytes → Bytes → Bytes → WriteOutcome → Type 0
Taken before after bytes (written n) = (n ≤ length bytes) × (after ≡ before ++ take n bytes)
Taken before after bytes WriteOutcome.blocked = after ≡ before
Taken before after bytes (WriteOutcome.stopped code) = after ≡ before
Taken before after bytes WriteOutcome.closed_stream = after ≡ before

-- The engine's promise: what it has buffered for a stream, in order, which a `write` extends by the
-- prefix that it reports.
pub record SendLaw (noq : Noq) : Type 0 where
  pub sent : noq.Conn → ℕ → Bytes
  pub write_sends :
      (conn : noq.Conn) (id : ℕ) (bytes : Bytes)
      → Taken (sent conn id) (sent (noq.write conn id bytes).0 id) bytes (noq.write conn id bytes).1

-- From one offset to another, what is sent and what is left to send keep being the same bytes.
pub record Moved (bytes before after : Bytes) (start reached : ℕ) : Type 0 where
  pub forward : start ≤ reached
  pub bounded : reached ≤ length bytes
  pub same_bytes : after ++ drop reached bytes ≡ before ++ drop start bytes

pub Moved-refl : (bytes s : Bytes) (n : ℕ) → n ≤ length bytes → Moved bytes s s n n
Moved-refl bytes s n h = record { forward = omega arith; bounded = h; same_bytes = refl }

pub Moved-trans :
    {bytes a b c : Bytes} {i j k : ℕ}
    → Moved bytes a b i j
    → Moved bytes b c j k
    → Moved bytes a c i k
Moved-trans p q = record {
  forward = omega (arith, p.forward, q.forward);
  bounded = q.bounded;
  same_bytes = q.same_bytes ∙ p.same_bytes;
}

-- One write moves the offset, and a pass that is over without failure is at the end.
on_written-Moved :
    (bytes before after : Bytes) (offset : ℕ) (outcome : WriteOutcome)
    → offset ≤ length bytes
    → Taken before after (drop offset bytes) outcome
    → Moved bytes before after offset (on_written (length bytes) offset outcome).0
unfolding on_written
on_written-Moved bytes before after offset (written n) h (fits, e) = record {
  forward = omega arith;
  bounded = omega (arith, length-drop offset bytes, fits, h);
  same_bytes =
      ap (λ s. s ++ drop (offset + n) bytes) e
      ∙ append_assoc before (take n (drop offset bytes)) (drop (offset + n) bytes)
      ∙ ap (◌++◌ before) (
          ap (◌++◌ (take n (drop offset bytes))) (sym (drop-drop offset n bytes))
          ∙ take-append-drop n (drop offset bytes));
}
on_written-Moved bytes before after offset WriteOutcome.blocked h e =
    rw e (Moved-refl bytes before offset h)
on_written-Moved bytes before after offset (WriteOutcome.stopped code) h e =
    rw e (Moved-refl bytes before offset h)
on_written-Moved bytes before after offset WriteOutcome.closed_stream h e =
    rw e (Moved-refl bytes before offset h)

-- A write that goes on has moved, and one that is over without failure is at the end.
abbrev Settles : ℕ → ℕ → ℕ → Pass → Type 0
Settles size start reached again = start < reached
Settles size start reached parked = Unit {0}
Settles size start reached (over (inl e)) = Unit {0}
Settles size start reached (over (inr u)) = reached ≡ size

-- How a check ends: it waits, fails, or has reached the end. It does not stop in its loop.
abbrev pub EndsAt : ℕ → ℕ → Pass → Type 0
EndsAt size reached again = ⊥
EndsAt size reached parked = Unit {0}
EndsAt size reached (over (inl e)) = Unit {0}
EndsAt size reached (over (inr u)) = reached ≡ size

on_written-Settles :
    (size offset : ℕ) (outcome : WriteOutcome)
    → Settles size offset (on_written size offset outcome).0 (on_written size offset outcome).1
unfolding on_written
on_written-Settles size offset (written n) = elim (Bool-cases (eqb (offset + n) size)) [
  | inl t ↦ rw t ((eqb_iff (offset + n) size).0 t)
  | inr t ↦ elim (Bool-cases (eqb n 0)) [ inl z ↦ rw (t, z) tt | inr z ↦ rw (t, z) (ground arith) ]
]
on_written-Settles size offset WriteOutcome.blocked = tt
on_written-Settles size offset (WriteOutcome.stopped code) = tt
on_written-Settles size offset WriteOutcome.closed_stream = tt

again_moves :
    (size start reached : ℕ) (p : Pass)
    → is_again p ≡ true
    → Settles size start reached p
    → start < reached
again_moves size start reached again h s = s
again_moves size start reached parked h s = cc h
again_moves size start reached (over r) h s = cc h

Settles-EndsAt :
    (size start reached : ℕ) (p : Pass)
    → is_again p ≡ false
    → Settles size start reached p
    → EndsAt size reached p
Settles-EndsAt size start reached again h s = cc h
Settles-EndsAt size start reached parked h s = tt
Settles-EndsAt size start reached (over (inl e)) h s = tt
Settles-EndsAt size start reached (over (inr u)) h s = s

module _ {noq : Noq} (law : SendLaw noq) where
  write_once-Moved :
      (conn : noq.Conn) (id : ℕ) (bytes : Bytes) (offset : ℕ)
      → offset ≤ length bytes
      → Moved bytes
          (law.sent conn id)
          (law.sent (write_once noq conn id bytes offset).0 id)
          offset
          (write_once noq conn id bytes offset).1
  unfolding write_once
  write_once-Moved conn id bytes offset h =
      let wrote = noq.write conn id (drop offset bytes) in
      on_written-Moved bytes (law.sent conn id) (law.sent wrote.0 id) offset wrote.1 h
        (law.write_sends conn id (drop offset bytes))

  write_once-Settles :
      (conn : noq.Conn) (id : ℕ) (bytes : Bytes) (offset : ℕ)
      → Settles
          (length bytes)
          offset
          (write_once noq conn id bytes offset).1
          (write_once noq conn id bytes offset).2
  unfolding write_once
  write_once-Settles conn id bytes offset =
      on_written-Settles (length bytes) offset (noq.write conn id (drop offset bytes)).1

  pub write_pass-Moved :
      (fuel : ℕ) (conn : noq.Conn) (id : ℕ) (bytes : Bytes) (offset : ℕ)
      → offset ≤ length bytes
      → Moved bytes
          (law.sent conn id)
          (law.sent (write_pass noq fuel conn id bytes offset).0 id)
          offset
          (write_pass noq fuel conn id bytes offset).1
  unfolding write_pass
  write_pass-Moved zero conn id bytes offset h = Moved-refl bytes (law.sent conn id) offset h
  write_pass-Moved (suc fuel) conn id bytes offset h =
      let w = write_once noq conn id bytes offset in
      let m = write_once-Moved conn id bytes offset h in
      if_cases (λ r. Moved bytes (law.sent conn id) (law.sent r.0 id) offset r.1) (is_again w.2)
        (write_pass noq fuel w.0 id bytes w.1) w
        (λ t. Moved-trans m (write_pass-Moved fuel w.0 id bytes w.1 m.bounded)) (λ t. m)

  -- As each turn of the loop moves, its fuel is enough.
  pub write_pass-EndsAt :
      (fuel : ℕ) (conn : noq.Conn) (id : ℕ) (bytes : Bytes) (offset : ℕ)
      → offset ≤ length bytes
      → length bytes < offset + fuel
      → EndsAt
          (length bytes)
          (write_pass noq fuel conn id bytes offset).1
          (write_pass noq fuel conn id bytes offset).2
  unfolding write_pass
  write_pass-EndsAt zero conn id bytes offset h enough = absurd (omega arith)
  write_pass-EndsAt (suc fuel) conn id bytes offset h enough =
      let w = write_once noq conn id bytes offset in
      let m = write_once-Moved conn id bytes offset h in
      let s = write_once-Settles conn id bytes offset in
      if_cases (λ r. EndsAt (length bytes) r.1 r.2) (is_again w.2)
        (write_pass noq fuel w.0 id bytes w.1) w
        (λ t.
          let ahead = again_moves (length bytes) offset w.1 w.2 t s in
          write_pass-EndsAt fuel w.0 id bytes w.1 m.bounded (omega arith))
        (λ t. Settles-EndsAt (length bytes) offset w.1 w.2 t s)
