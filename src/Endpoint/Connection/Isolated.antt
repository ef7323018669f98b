-- ===== src/Endpoint/Connection/Isolated.antt =====
-- That the resources of one connection leave the others alone.
use polymorph_iroh.Base.{
  ℕ, suc, inl, inr, Bool, Option, none, some, Bytes, ltb, length, if_cases, Option-cases, nat_key,
}
use polymorph_iroh.Noq.{
  Noq, Dir, ReadOutcome, chunk, fin, illegal_ordered_read, was_reset, FinishOutcome, finished,
}
use polymorph_iroh.Endpoint.{State, ConnEntry, Error, kick_pump}
use polymorph_iroh.Endpoint.Conns.{entry_for}
use polymorph_iroh.Endpoint.Streams.{
  SendStreamRes, put_conn, write_pass, write_entry, write_check, on_finished, finish_entry,
  do_finish, reset_stream, app_code,
}
use polymorph_iroh.Endpoint.Streams.Reads.{RecvStreamRes, on_read, read_check, stop}
use polymorph_iroh.Endpoint.Connection.{
  ConnectionRes, open_check, accept_stream_check, send_datagram, recv_datagram_check, close,
}
use polymorph_iroh.Endpoint.Connection.Apart.{
  Touches, untouched, conn-Touches, open_check-Touches, accept_stream_check-Touches,
  send_datagram-Touches, recv_datagram_check-Touches, close-Touches,
}

module _ {noq : Noq} where
  write_entry-Touches :
      (st : State noq) (handle id : ℕ) (bytes : Bytes) (offset : ℕ) (e : ConnEntry noq)
      (failure : Option Error)
      → Touches handle st (write_entry st handle id bytes offset e failure).0
  unfolding write_entry
  write_entry-Touches st handle id bytes offset e (some error) = untouched handle st
  write_entry-Touches st handle id bytes offset e none =
      let pass = write_pass noq (suc (length bytes)) e.conn id bytes offset in
      let both = conn-Touches handle st e pass.0 in
      if_cases (Touches handle st) (ltb offset pass.1) (kick_pump (put_conn st handle e pass.0))
        (put_conn st handle e pass.0) (λ t. both.1) (λ t. both.0)

  write_check-Touches :
      (st : State noq) (handle epoch id : ℕ) (bytes : Bytes) (offset : ℕ)
      → Touches handle st (write_check st handle epoch id bytes offset).0
  unfolding write_check
  write_check-Touches st handle epoch id bytes offset =
      elim (Option-cases (entry_for st handle epoch)) [
        | inl n ↦ rw (write_check, n) (untouched handle st)
        | inr (e, h) ↦ rw (write_check, h) (write_entry-Touches st handle id bytes offset e e.error)
      ]

  on_finished-Touches :
      (handle : ℕ) (st kept : State noq) (outcome : FinishOutcome)
      → Touches handle st kept × Touches handle st (kick_pump kept)
      → Touches handle st (on_finished kept outcome).0
  unfolding on_finished
  on_finished-Touches handle st kept finished h = h.1
  on_finished-Touches handle st kept (FinishOutcome.stopped code) h = h.0
  on_finished-Touches handle st kept FinishOutcome.closed_stream h = h.0

  finish_entry-Touches :
      (st : State noq) (s : SendStreamRes) (e : ConnEntry noq) (failure : Option Error)
      → Touches s.handle st (finish_entry st s e failure).0
  unfolding finish_entry
  finish_entry-Touches st s e (some error) = untouched s.handle st
  finish_entry-Touches st s e none =
      let r = noq.finish e.conn s.id in
      on_finished-Touches s.handle st (put_conn st s.handle e r.0) r.1
        (conn-Touches s.handle st e r.0)

  do_finish-Touches : (st : State noq) (s : SendStreamRes) → Touches s.handle st (do_finish st s).0
  unfolding do_finish
  do_finish-Touches st s = elim (Option-cases (entry_for st s.handle s.epoch)) [
    | inl n ↦ rw (do_finish, n) (untouched s.handle st)
    | inr (e, h) ↦ rw (do_finish, h) (finish_entry-Touches st s e e.error)
  ]

  reset_stream-Touches :
      (st : State noq) (s : SendStreamRes) (code : ℕ)
      → Touches s.handle st (reset_stream st s code).0
  unfolding reset_stream
  reset_stream-Touches st s code = elim (Option-cases (entry_for st s.handle s.epoch)) [
    | inl n ↦ rw (reset_stream, n) (untouched s.handle st)
    | inr (e, h) ↦
        rw (reset_stream, h) (conn-Touches s.handle st e (noq.reset e.conn s.id (app_code code))).1
  ]

  on_read-Touches :
      (handle : ℕ) (st kept : State noq) (failure : Option Error) (outcome : ReadOutcome)
      → Touches handle st kept × Touches handle st (kick_pump kept)
      → Touches handle st (on_read kept failure outcome).0
  unfolding on_read
  on_read-Touches handle st kept failure (chunk bytes) h = h.1
  on_read-Touches handle st kept failure fin h = h.1
  on_read-Touches handle st kept (some x) ReadOutcome.blocked h = h.0
  on_read-Touches handle st kept none ReadOutcome.blocked h = h.0
  on_read-Touches handle st kept (some x) ReadOutcome.closed_stream h = h.0
  on_read-Touches handle st kept none ReadOutcome.closed_stream h = h.0
  on_read-Touches handle st kept failure illegal_ordered_read h = h.0
  on_read-Touches handle st kept failure (was_reset code) h = h.0

  read_check-Touches :
      (st : State noq) (handle epoch id max : ℕ)
      → Touches handle st (read_check st handle epoch id max).0
  unfolding read_check
  read_check-Touches st handle epoch id max = elim (Option-cases (entry_for st handle epoch)) [
    | inl n ↦ rw (read_check, n) (untouched handle st)
    | inr (e, h) ↦
        let r = noq.read e.conn id max in
        rw (read_check, h)
          (on_read-Touches handle st (put_conn st handle e r.0) e.error r.1
            (conn-Touches handle st e r.0))
  ]

  stop-Touches :
      (st : State noq) (s : RecvStreamRes) (code : ℕ) → Touches s.handle st (stop st s code)
  unfolding stop
  stop-Touches st s code = elim (Option-cases (entry_for st s.handle s.epoch)) [
    | inl n ↦ rw (stop, n) (untouched s.handle st)
    | inr (e, h) ↦
        rw (stop, h) (conn-Touches s.handle st e (noq.stop e.conn s.id (app_code code))).1
  ]

  -- The operations of a connection resource and of the two stream resources that change the state.
  abbrev pub Isolated :
      State noq
      → ConnectionRes
      → SendStreamRes
      → RecvStreamRes
      → Dir
      → Bool
      → Bytes
      → (now code offset max : ℕ) → Bytes
      → Type 0
  Isolated st c s r dir kicked bytes now code offset max reason =
      Touches c.handle st (open_check st c.handle c.epoch dir kicked).0
      × Touches c.handle st (accept_stream_check st c.handle c.epoch dir).0
      × Touches c.handle st (send_datagram st c bytes).0
      × Touches c.handle st (recv_datagram_check st c.handle c.epoch).0
      × Touches c.handle st (close st c now code reason)
      × Touches s.handle st (write_check st s.handle s.epoch s.id bytes offset).0
      × Touches s.handle st (do_finish st s).0
      × Touches s.handle st (reset_stream st s code).0
      × Touches r.handle st (read_check st r.handle r.epoch r.id max).0
      × Touches r.handle st (stop st r code)

  -- Connections are isolated. Whatever the engine does, and whether it succeeds, fails or waits, each
  -- operation through the resource of a connection or of one of its streams changes at most the
  -- connection under its own handle, and may kick the pump, which sets its flag and takes and wakes
  -- its waker, and nothing more: every other connection, the routes, the relays, the channels, the
  -- queues, the effects before and all else of the endpoint are as they were.
  pub handles-Isolated :
      (st : State noq) (c : ConnectionRes) (s : SendStreamRes) (r : RecvStreamRes) (dir : Dir)
      (kicked : Bool) (bytes : Bytes) (now code offset max : ℕ) (reason : Bytes)
      → Isolated st c s r dir kicked bytes now code offset max reason
  handles-Isolated st c s r dir kicked bytes now code offset max reason = (
    open_check-Touches st c.handle c.epoch dir kicked,
    accept_stream_check-Touches st c.handle c.epoch dir,
    send_datagram-Touches st c bytes,
    recv_datagram_check-Touches st c.handle c.epoch,
    close-Touches st c now code reason,
    write_check-Touches st s.handle s.epoch s.id bytes offset,
    do_finish-Touches st s,
    reset_stream-Touches st s code,
    read_check-Touches st r.handle r.epoch r.id max,
    stop-Touches st r code,
  )
