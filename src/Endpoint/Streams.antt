-- ===== src/Endpoint/Streams.antt =====
-- Send and receive streams: `write_all`, `read_some`, `SendStreamRes` and `RecvStreamRes` of
-- endpoint/src/endpoint_impl.rs. A call that waits is its checks, with what other tasks do to the
-- state between two of them as a list of functions.
pub mod Moved
pub mod Reads
pub mod Seen
pub mod Sent
pub mod Answered
pub mod Received
pub mod Delivered
pub mod Ends
pub mod Claims
pub mod Latch
use polymorph_iroh.Base.{
  ℕ, zero, suc, ◌+◌, ◌-◌, ◌^◌, min, Bool, true, false, Option, none, some, List, [], ◌∷◌, Bytes,
  eqb, ltb, length, drop, take, ◌*◌, ◌++◌, is_some, if◌then◌else◌, ◌⊎◌, inl, inr, codes, nat_key,
}
use polymorph_iroh.Base.Maps.{insert}
use polymorph_iroh.Noq.{
  Noq, WriteOutcome, written, finished, FinishOutcome, ReadOutcome, chunk, fin,
  illegal_ordered_read, was_reset,
}
use polymorph_iroh.Endpoint.{State, ConnEntry, Error, closed, reset, in_use, other_error, kick_pump}
use polymorph_iroh.Endpoint.Conns.{entry_for}

-- QUIC carries at most 2^62 - 1; larger codes saturate.
unfoldable pub app_code : ℕ → ℕ
app_code code = min code (2 ^ 62 - 1)

pub record SendStreamRes : Type 0 where
  pub handle : ℕ
  pub epoch : ℕ
  pub id : ℕ
  pub streaming : Bool
  pub writing : Bool
  pub ended : Bool

abbrev pub new_send : ℕ → ℕ → ℕ → SendStreamRes
new_send handle epoch id = record {
  handle = handle;
  epoch = epoch;
  id = id;
  streaming = false;
  writing = false;
  ended = false;
}

-- Where one engine write leaves a check of `write_all`: it loops again, waits, or is over.
pub data Pass : Type 0 where
  again parked : Pass
  over : Error ⊎ Unit {0} → Pass

abbrev as_unit : Unit {0}
as_unit = tt

-- What the loop of `write_all` makes of an outcome at an offset.
unfoldable pub on_written : ℕ → ℕ → WriteOutcome → ℕ × Pass
on_written size offset (written n) =
    (offset + n, if eqb (offset + n) size then over (inr tt) else if eqb n 0 then parked else again)
on_written size offset WriteOutcome.blocked = (offset, parked)
on_written size offset (WriteOutcome.stopped code) = (offset, over (inl (reset code)))
on_written size offset WriteOutcome.closed_stream = (offset, over (inl closed))

-- What the claim flag answers to a call of `write`.
pub begin_write : SendStreamRes → SendStreamRes × Option Error
begin_write s =
    if s.streaming
    then (s, some (in_use (codes "the stream's writes were taken by write-via-stream")))
    else if s.writing
    then (s, some (in_use (codes "a write is already in flight on this stream")))
    else (record s { writing = true }, none)

-- `Unclaim`: the write is over or cancelled.
pub unclaim : SendStreamRes → SendStreamRes
unclaim s = record s { writing = false }

pub begin_stream : SendStreamRes → SendStreamRes × Option Error
begin_stream s =
    if s.streaming
    then (s, some (in_use (codes "write-via-stream may be called once")))
    else if s.writing
    then (s, some (in_use (codes "a write is already in flight on this stream")))
    else (record s { writing = true; streaming = true }, none)

-- A turn of the reader behind `write-via-stream`: its bytes, and whether it ended with them.
pub record StreamTurn : Type 0 where
  pub buf : Bytes
  pub is_last : Bool

abbrev pub is_again : Pass → Bool
is_again again = true
is_again parked = false
is_again (over r) = false

abbrev pub is_parked : Pass → Bool
is_parked again = false
is_parked parked = true
is_parked (over r) = false

unfoldable pub write_once : (noq : Noq) → noq.Conn → ℕ → Bytes → ℕ → noq.Conn × ℕ × Pass
write_once noq conn id bytes offset =
    let (next, outcome) = noq.write conn id (drop offset bytes) in
    let (reached, pass) = on_written (length bytes) offset outcome in (next, reached, pass)

-- The loop of one check of `write_all`; `again` at its end: the fuel ran out.
unfoldable pub write_pass : (noq : Noq) → ℕ → noq.Conn → ℕ → Bytes → ℕ → noq.Conn × ℕ × Pass
write_pass noq zero conn id bytes offset = (conn, offset, again)
write_pass noq (suc fuel) conn id bytes offset =
    let w = write_once noq conn id bytes offset in
    if is_again w.2 then write_pass noq fuel w.0 id bytes w.1 else w

module _ {noq : Noq} where
  -- The state with the connection of an entry renewed.
  unfoldable pub put_conn : State noq → ℕ → ConnEntry noq → noq.Conn → State noq
  put_conn st handle e conn = record st {
    conns = insert handle (record e { conn = conn }) st.conns;
  }

  unfoldable pub write_entry :
      State noq → ℕ → ℕ → Bytes → ℕ → ConnEntry noq → Option Error → State noq × ℕ × Pass
  write_entry st handle id bytes offset e (some error) = (st, offset, over (inl error))
  write_entry st handle id bytes offset e none =
      let (conn, reached, pass) = write_pass noq (suc (length bytes)) e.conn id bytes offset in
      let kept = put_conn st handle e conn in
      (if ltb offset reached then kick_pump kept else kept, reached, pass)

  unfoldable pub write_check : State noq → ℕ → ℕ → ℕ → Bytes → ℕ → State noq × ℕ × Pass
  write_check st handle epoch id bytes offset = elim (entry_for st handle epoch) [
    | none ↦ (st, offset, over (inl closed))
    | some e ↦ write_entry st handle id bytes offset e e.error
  ]

  -- `write_all`, with what others do at each wait; `parked` at the end: it waits still.
  unfoldable pub write_all :
      List (State noq → State noq) → State noq → ℕ → ℕ → ℕ → Bytes → ℕ → State noq × ℕ × Pass
  write_all [] st handle epoch id bytes offset = write_check st handle epoch id bytes offset
  write_all (other ∷ others) st handle epoch id bytes offset =
      let w = write_check st handle epoch id bytes offset in
      if is_parked w.2 then write_all others (other w.0) handle epoch id bytes w.1 else w

  unfoldable pub on_finished : State noq → FinishOutcome → State noq × (Error ⊎ Unit {0})
  on_finished st finished = (kick_pump st, inr tt)
  on_finished st (FinishOutcome.stopped code) = (st, inl (reset code))
  on_finished st FinishOutcome.closed_stream = (st, inl closed)

  unfoldable pub finish_entry :
      State noq → SendStreamRes → ConnEntry noq → Option Error → State noq × (Error ⊎ Unit {0})
  finish_entry st s e (some error) = (st, inl error)
  finish_entry st s e none =
      let (conn, outcome) = noq.finish e.conn s.id in
      on_finished (put_conn st s.handle e conn) outcome

  unfoldable pub do_finish :
      State noq → SendStreamRes → State noq × SendStreamRes × (Error ⊎ Unit {0})
  do_finish st s = elim (entry_for st s.handle s.epoch) [
    | none ↦ (st, record s { ended = true }, inl closed)
    | some e ↦
        let (next, result) = finish_entry st s e e.error in
        (next, record s { ended = true }, result)
  ]

  pub finish : State noq → SendStreamRes → State noq × SendStreamRes × (Error ⊎ Unit {0})
  finish st s =
      if s.streaming
      then (st, s, inl (in_use (codes "the stream's writes were taken by write-via-stream")))
      else if s.writing
      then (st, s, inl (in_use (codes "a write is in flight on this stream")))
      else do_finish st s

  unfoldable pub reset_stream : State noq → SendStreamRes → ℕ → State noq × SendStreamRes
  reset_stream st s code = elim (entry_for st s.handle s.epoch) [
    | none ↦ (st, record s { ended = true })
    | some e ↦ (
      kick_pump (put_conn st s.handle e (noq.reset e.conn s.id (app_code code))),
      record s { ended = true },
    )
  ]

  unfoldable pub drop_send : State noq → SendStreamRes → State noq
  drop_send st s = if s.ended then st else (reset_stream st s 0).0

  -- The bytes of one turn; none to write is success at once.
  unfoldable pub write_turn :
      List (State noq → State noq) → State noq → SendStreamRes → Bytes → State noq × Pass
  write_turn others st s [] = (st, over (inr tt))
  write_turn others st s (b ∷ buf) =
      let (next, reached, pass) = write_all others st s.handle s.epoch s.id (b ∷ buf) 0 in
      (next, pass)

  -- The end of a turn of `write-via-stream`: of the whole with its last bytes or with a failure.
  -- No result: it waits still.
  unfoldable pub after_turn :
      State noq
      → SendStreamRes
      → (is_last : Bool) → State noq × SendStreamRes × Option (Error ⊎ Unit {0})
      → Pass
      → State noq × SendStreamRes × Option (Error ⊎ Unit {0})
  after_turn next s is_last rest again = (next, s, none)
  after_turn next s is_last rest parked = (next, s, none)
  after_turn next s is_last rest (over (inl e)) = (next, unclaim s, some (inl e))
  after_turn next s true rest (over (inr u)) =
      let (last, ended, result) = do_finish next s in (last, unclaim ended, some result)
  after_turn next s false rest (over (inr u)) = rest

  -- The loop of `write-via-stream` over the reader's turns, each with what others do while the
  -- reader is waited for and while its bytes are written.
  unfoldable pub pump_stream :
      List (StreamTurn × (State noq → State noq) × List (State noq → State noq))
      → State noq
      → SendStreamRes
      → State noq × SendStreamRes × Option (Error ⊎ Unit {0})
  unfolding after_turn
  pump_stream [] st s = (st, s, none)
  pump_stream ((turn, idle, others) ∷ turns) st s =
      let (next, pass) = write_turn others (idle st) s turn.buf in
      let rest = pump_stream turns next s in after_turn next s turn.is_last rest pass
