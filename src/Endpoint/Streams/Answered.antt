-- ===== src/Endpoint/Streams/Answered.antt =====
-- What a `read_some` that waits gives, for an engine that hands out a stream in order.
use mathlib.Core.List.{append-nil}
use polymorph_iroh.Base.{
  ℕ, ◌≡◌, refl, sym, ap, subst, ◌∙◌, inl, inr, ◌⊎◌, false, Option, none, some, List, [], ◌∷◌, ◌++◌,
  Bytes, if_cases, Option-cases, All, is_some, nat_key,
}
use polymorph_iroh.Noq.{Noq, ReadOutcome, chunk, fin, illegal_ordered_read, was_reset}
use polymorph_iroh.Endpoint.{State, Error, closed, kick_pump}
use polymorph_iroh.Endpoint.Conns.{entry_for}
use polymorph_iroh.Endpoint.Streams.{put_conn}
use polymorph_iroh.Endpoint.Streams.Reads.{on_read, read_check, read_some}
use polymorph_iroh.Endpoint.Streams.Seen.{
  seen_by, Spares, entry-seen_by, put_conn-seen_by, kick_pump-seen_by,
}

-- What the engine has handed out of a stream before and after one `read`.
abbrev pub Handed : Bytes → Bytes → ReadOutcome → Type 0
Handed before after (chunk bytes) = after ≡ before ++ bytes
Handed before after fin = after ≡ before
Handed before after ReadOutcome.blocked = after ≡ before
Handed before after ReadOutcome.closed_stream = after ≡ before
Handed before after illegal_ordered_read = after ≡ before
Handed before after (was_reset code) = after ≡ before

-- The engine's promise for an ordered read: the prefix of the stream that it has handed out, which a
-- `read` extends by its chunk.
pub record RecvLaw (noq : Noq) : Type 0 where
  pub handed : noq.Conn → ℕ → Bytes
  pub read_hands :
      (conn : noq.Conn) (id max : ℕ)
      → Handed (handed conn id) (handed (noq.read conn id max).0 id) (noq.read conn id max).1

-- The bytes of an answer.
abbrev pub piece_of : Option (Error ⊎ Option Bytes) → Bytes
piece_of none = []
piece_of (some (inl e)) = []
piece_of (some (inr none)) = []
piece_of (some (inr (some bytes))) = bytes

module _ {noq : Noq} (law : RecvLaw noq) where
  -- What a stream has handed out, while its connection is the one under its handle.
  abbrev pub handed_by : State noq → ℕ → ℕ → ℕ → Option Bytes
  handed_by st handle epoch id = seen_by law.handed st handle epoch id

  -- A step after which the stream has handed out these bytes more.
  abbrev pub Gives : ℕ → ℕ → ℕ → State noq → State noq → Bytes → Type 0
  Gives handle epoch id st next bytes =
      (after : Bytes)
      → handed_by next handle epoch id ≡ some after
      → (before : Bytes) × (handed_by st handle epoch id ≡ some before) × (after ≡ before ++ bytes)

  same-Gives :
      (st kept next : State noq) (handle epoch id : ℕ) (before now bytes : Bytes)
      → handed_by st handle epoch id ≡ some before
      → handed_by kept handle epoch id ≡ some now
      → handed_by next handle epoch id ≡ handed_by kept handle epoch id
      → now ≡ before ++ bytes
      → Gives handle epoch id st next bytes
  same-Gives st kept next handle epoch id before now bytes had has same h after e =
      let eq : after ≡ now = cc (e, same, has) in (before, had, eq ∙ h)

  on_read-Gives :
      (st kept : State noq) (handle epoch id : ℕ) (before now : Bytes) (failure : Option Error)
      (outcome : ReadOutcome)
      → handed_by st handle epoch id ≡ some before
      → handed_by kept handle epoch id ≡ some now
      → Handed before now outcome
      → Gives handle epoch id st
          (on_read kept failure outcome).0
          (piece_of (on_read kept failure outcome).1)
  unfolding on_read
  on_read-Gives st kept handle epoch id before now failure (chunk bytes) had has h =
      same-Gives st kept (kick_pump kept) handle epoch id before now bytes had has
        (kick_pump-seen_by law.handed kept handle epoch id) h
  on_read-Gives st kept handle epoch id before now failure fin had has h =
      same-Gives st kept (kick_pump kept) handle epoch id before now [] had has
        (kick_pump-seen_by law.handed kept handle epoch id) (h ∙ sym (append-nil before))
  on_read-Gives st kept handle epoch id before now (some x) ReadOutcome.blocked had has h =
      same-Gives st kept kept handle epoch id before now [] had has refl
        (h ∙ sym (append-nil before))
  on_read-Gives st kept handle epoch id before now none ReadOutcome.blocked had has h =
      same-Gives st kept kept handle epoch id before now [] had has refl
        (h ∙ sym (append-nil before))
  on_read-Gives st kept handle epoch id before now (some x) ReadOutcome.closed_stream had has h =
      same-Gives st kept kept handle epoch id before now [] had has refl
        (h ∙ sym (append-nil before))
  on_read-Gives st kept handle epoch id before now none ReadOutcome.closed_stream had has h =
      same-Gives st kept kept handle epoch id before now [] had has refl
        (h ∙ sym (append-nil before))
  on_read-Gives st kept handle epoch id before now failure illegal_ordered_read had has h =
      same-Gives st kept kept handle epoch id before now [] had has refl
        (h ∙ sym (append-nil before))
  on_read-Gives st kept handle epoch id before now failure (was_reset code) had has h =
      same-Gives st kept kept handle epoch id before now [] had has refl
        (h ∙ sym (append-nil before))

  abbrev Answers : ℕ → ℕ → ℕ → State noq → State noq × Option (Error ⊎ Option Bytes) → Type 0
  Answers handle epoch id st (next, answer) = Gives handle epoch id st next (piece_of answer)

  read_check-Answers :
      (st : State noq) (handle epoch id max : ℕ)
      → Answers handle epoch id st (read_check st handle epoch id max)
  unfolding read_check
  read_check-Answers st handle epoch id max = elim (Option-cases (entry_for st handle epoch)) [
    | inl n ↦
        let shape : read_check st handle epoch id max ≡ (st, some (inl closed)) =
          rw (read_check, n) refl in
        subst (Answers handle epoch id st) (sym shape)
          (λ after e. (after, e, sym (append-nil after)))
    | inr (e, found) ↦
        let read = noq.read e.conn id max in
        let kept = put_conn st handle e read.0 in
        let shape : read_check st handle epoch id max ≡ on_read kept e.error read.1 =
          rw (read_check, found) refl in
        subst (Answers handle epoch id st) (sym shape) (
          on_read-Gives st kept handle epoch id (law.handed e.conn id) (law.handed read.0 id)
            e.error read.1 (entry-seen_by law.handed st handle epoch id e found)
            (put_conn-seen_by law.handed st handle epoch id e read.0 found)
            (law.read_hands e.conn id max))
  ]

  -- A check that waits hands out nothing.
  waiting-nothing :
      (answer : Option (Error ⊎ Option Bytes)) → is_some answer ≡ false → piece_of answer ≡ []
  waiting-nothing none h = refl
  waiting-nothing (some a) h = cc h

  Answers-after :
      (st next : State noq) (handle epoch id : ℕ) (r : State noq × Option (Error ⊎ Option Bytes))
      (first : Option (Error ⊎ Option Bytes)) (other : State noq → State noq)
      → Spares law.handed handle epoch id other
      → is_some first ≡ false
      → Gives handle epoch id st next (piece_of first)
      → Answers handle epoch id (other next) r
      → Answers handle epoch id st r
  Answers-after st next handle epoch id r first other spares waits now later after e =
      let (mid, at_mid, rest) = later after e in
      let (before, had, same) = now mid (spares next mid at_mid) in
      let still : mid ≡ before =
        same ∙ ap (◌++◌ before) (waiting-nothing first waits) ∙ append-nil before in
      (before, had, rest ∙ ap (λ (x : Bytes). x ++ piece_of r.1) still)

  pub read_some-Answers :
      (others : List (State noq → State noq)) (st : State noq) (handle epoch id max : ℕ)
      → All (Spares law.handed handle epoch id) others
      → Answers handle epoch id st (read_some others st handle epoch id max)
  unfolding read_some
  read_some-Answers [] st handle epoch id max spare = read_check-Answers st handle epoch id max
  read_some-Answers (other ∷ others) st handle epoch id max spare =
      let r = read_check st handle epoch id max in
      let now = read_check-Answers st handle epoch id max in
      let rest = read_some others (other r.0) handle epoch id max in
      if_cases (Answers handle epoch id st) (is_some r.1) r rest (λ t. now)
        (λ t.
          Answers-after st r.0 handle epoch id rest r.1 other spare.0 t now
            (read_some-Answers others (other r.0) handle epoch id max spare.1))
