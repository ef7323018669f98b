-- ===== src/Endpoint/Streams/Reads.antt =====
-- Receive streams: `read_some` and `RecvStreamRes` of endpoint/src/endpoint_impl.rs. A call that
-- waits is its checks, with what other tasks do to the state between two of them as a list of
-- functions.
use polymorph_iroh.Base.{
  ℕ, Bool, true, false, Option, none, some, List, [], ◌∷◌, Bytes, eqb, ltb, length, take, ◌*◌, ◌++◌,
  is_some, if◌then◌else◌, ◌⊎◌, inl, inr, codes, nat_key,
}
use polymorph_iroh.Noq.{Noq, ReadOutcome, chunk, fin, illegal_ordered_read, was_reset}
use polymorph_iroh.Endpoint.{State, Error, closed, reset, in_use, other_error, kick_pump}
use polymorph_iroh.Endpoint.Conns.{entry_for}
use polymorph_iroh.Endpoint.Streams.{app_code, put_conn}

pub record RecvStreamRes : Type 0 where
  pub handle : ℕ
  pub epoch : ℕ
  pub id : ℕ
  pub streaming : Bool
  pub terminal : Option (Error ⊎ Unit {0})
  pub reading : Bool

abbrev pub new_recv : ℕ → ℕ → ℕ → RecvStreamRes
new_recv handle epoch id = record {
  handle = handle;
  epoch = epoch;
  id = id;
  streaming = false;
  terminal = none;
  reading = false;
}

-- The answer of a call of `read` by the latch: a kept end is repeated.
unfoldable pub read_by :
    RecvStreamRes → ℕ → Option (Error ⊎ Unit {0}) → RecvStreamRes × Option (Error ⊎ Option Bytes)
read_by s max (some (inl e)) = (s, some (inl e))
read_by s max (some (inr u)) = (s, some (inr none))
read_by s max none =
    if eqb max 0
    then (s, some (inr (some [])))
    else if s.reading
    then (s, some (inl (in_use (codes "a read is already in flight on this stream"))))
    else (record s { reading = true }, none)

-- What a call of `read` answers before it waits.
unfoldable pub begin_read : RecvStreamRes → ℕ → RecvStreamRes × Option (Error ⊎ Option Bytes)
begin_read s max =
    if s.streaming
    then (s, some (inl (in_use (codes "the stream's bytes were taken by read-via-stream"))))
    else read_by s max s.terminal

-- The end of a `read` that waited: the claim goes, and an end of the stream is kept.
unfoldable pub end_read : RecvStreamRes → Error ⊎ Option Bytes → RecvStreamRes
end_read s (inl e) = record s { reading = false; terminal = some (inl e) }
end_read s (inr none) = record s { reading = false; terminal = some (inr tt) }
end_read s (inr (some bytes)) = record s { reading = false }

-- A `read` that is cancelled while it waits.
unfoldable pub cancel_read : RecvStreamRes → RecvStreamRes
cancel_read s = record s { reading = false }

unfoldable pub begin_read_stream : RecvStreamRes → RecvStreamRes × Option Error
begin_read_stream s =
    if s.streaming
    then (s, some (in_use (codes "read-via-stream may be called once")))
    else (record s { streaming = true }, none)

abbrev pub abandoned : Error
abandoned = other_error (codes "read-via-stream abandoned: the byte stream was dropped")

module _ {noq : Noq} where
  -- What `read_some` makes of the engine's outcome and of the connection's failure; no result: it
  -- goes on waiting.
  unfoldable pub on_read :
      State noq → Option Error → ReadOutcome → State noq × Option (Error ⊎ Option Bytes)
  on_read st failure (chunk bytes) = (kick_pump st, some (inr (some bytes)))
  on_read st failure fin = (kick_pump st, some (inr none))
  on_read st (some e) ReadOutcome.blocked = (st, some (inl e))
  on_read st none ReadOutcome.blocked = (st, none)
  on_read st (some e) ReadOutcome.closed_stream = (st, some (inl e))
  on_read st none ReadOutcome.closed_stream = (st, some (inr none))
  on_read st failure illegal_ordered_read =
      (st, some (inl (other_error (codes "illegal ordered read"))))
  on_read st failure (was_reset code) = (st, some (inl (reset code)))

  unfoldable pub read_check : State noq → ℕ → ℕ → ℕ → ℕ → State noq × Option (Error ⊎ Option Bytes)
  read_check st handle epoch id max = elim (entry_for st handle epoch) [
    | none ↦ (st, some (inl closed))
    | some e ↦
        let (conn, outcome) = noq.read e.conn id max in
        on_read (put_conn st handle e conn) e.error outcome
  ]

  -- `read_some`, with what others do at each wait; no result: it waits still.
  unfoldable pub read_some :
      List (State noq → State noq)
      → State noq
      → ℕ
      → ℕ
      → ℕ
      → ℕ
      → State noq × Option (Error ⊎ Option Bytes)
  read_some [] st handle epoch id max = read_check st handle epoch id max
  read_some (other ∷ others) st handle epoch id max =
      let r = read_check st handle epoch id max in
      if is_some r.1 then r else read_some others (other r.0) handle epoch id max

  -- What the loop behind `read-via-stream` does with the answer of a `read_some`, where the consumer
  -- takes at most so many bytes of a piece before it drops the byte stream. With the state come the
  -- bytes that it took in all and the outcome; no outcome: the loop waits still.
  unfoldable pub after_piece :
      State noq
      → (State noq → State noq)
      → ℕ
      → State noq × Bytes × Option (Error ⊎ Unit {0})
      → Option (Error ⊎ Option Bytes)
      → State noq × Bytes × Option (Error ⊎ Unit {0})
  after_piece next idle taken rest none = (next, [], none)
  after_piece next idle taken rest (some (inl e)) = (next, [], some (inl e))
  after_piece next idle taken rest (some (inr none)) = (next, [], some (inr tt))
  after_piece next idle taken (last, more, outcome) (some (inr (some bytes))) =
      if ltb taken (length bytes)
      then (idle next, take taken bytes, some (inl abandoned))
      else (last, bytes ++ more, outcome)

  -- The loop behind `read-via-stream`, by its turns: what others do while it waits for a piece, how
  -- much of the piece the consumer takes, and what others do meanwhile.
  unfoldable pub pump_read :
      List (List (State noq → State noq) × ℕ × (State noq → State noq))
      → State noq
      → RecvStreamRes
      → State noq × Bytes × Option (Error ⊎ Unit {0})
  unfolding after_piece
  pump_read [] st s = (st, [], none)
  pump_read ((others, taken, idle) ∷ turns) st s =
      let (next, answer) = read_some others st s.handle s.epoch s.id (16 * 1024) in
      let rest = pump_read turns (idle next) s in after_piece next idle taken rest answer

  unfoldable pub stop : State noq → RecvStreamRes → ℕ → State noq
  stop st s code = elim (entry_for st s.handle s.epoch) [
    | none ↦ st
    | some e ↦ kick_pump (put_conn st s.handle e (noq.stop e.conn s.id (app_code code)))
  ]

  unfoldable pub drop_recv : State noq → RecvStreamRes → State noq
  drop_recv st s = if s.streaming then st else elim s.terminal [ none ↦ stop st s 0 | some t ↦ st ]
