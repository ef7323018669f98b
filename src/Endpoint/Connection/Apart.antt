-- ===== src/Endpoint/Connection/Apart.antt =====
-- What the operations of `ConnectionRes` touch.
use polymorph_iroh.Base.{
  ℕ, ◌≡◌, ◌≢◌, refl, ap, inl, inr, Bool, true, false, not, ◌&&◌, is_none, ◌⊎◌, ◌++◌, Option, none,
  some, List, [], ◌∷◌, Bytes, if_cases, Option-cases, nat_key,
}
use polymorph_iroh.Base.Maps.{lookup, insert, lookup-insert_ne}
use polymorph_iroh.Noq.{
  Noq, Dir, bi, uni, SendOutcome, queued, too_large, unsupported_by_peer, other_send,
}
use polymorph_iroh.Endpoint.{State, ConnEntry, Error, Effect, wake_pump, woken_pump, kick_pump}
use polymorph_iroh.Endpoint.Conns.{entry_for}
use polymorph_iroh.Endpoint.Streams.{put_conn, app_code}
use polymorph_iroh.Endpoint.Connection.{
  ConnectionRes, on_opening, open_check, queue_of, from_queue, accept_stream_check, on_sent,
  send_datagram, on_datagram_read, recv_datagram_check, close,
}

-- The wake of the pump that sleeps with this waker, if any.
abbrev pub wakes : Option ℕ → List Effect
wakes none = []
wakes (some waker) = wake_pump waker ∷ []

woken : (waker : Option ℕ) → woken_pump waker ≡ wakes waker
woken none = refl
woken (some waker) = refl

module _ {noq : Noq} where
  -- Only the connection of one handle has changed; or, besides, the pump was told: its flag is set,
  -- its waker taken and woken.
  abbrev pub Touches : ℕ → State noq → State noq → Type 0
  Touches handle st next =
      ((other : ℕ) → handle ≢ other → lookup other next.conns ≡ lookup other st.conns)
      × ((next ≡ record st { conns = next.conns })
          ⊎ (next ≡ record st {
            conns = next.conns;
            pump_kicked = true;
            pump_waker = none;
            effects = st.effects ++ wakes st.pump_waker;
          }))

  pub untouched : (handle : ℕ) (st : State noq) → Touches handle st st
  untouched handle st = (λ other ne. refl, inl refl)

  entry-Touches :
      (handle : ℕ) (st : State noq) (e : ConnEntry noq)
      → Touches handle st (record st { conns = insert handle e st.conns })
  entry-Touches handle st e = (λ other ne. lookup-insert_ne handle other e st.conns ne, inl refl)

  kick-Touches :
      (handle : ℕ) (st : State noq) (e : ConnEntry noq)
      → Touches handle st (kick_pump (record st { conns = insert handle e st.conns }))
  unfolding kick_pump
  kick-Touches handle st e = (
    λ other ne. lookup-insert_ne handle other e st.conns ne,
    inr (
        ap
          (λ (told : List Effect). record st {
            conns = insert handle e st.conns;
            pump_kicked = true;
            pump_waker = none;
            effects = st.effects ++ told;
          })
          (woken st.pump_waker)),
  )

  pub conn-Touches :
      (handle : ℕ) (st : State noq) (e : ConnEntry noq) (conn : noq.Conn)
      → Touches handle st (put_conn st handle e conn)
        × Touches handle st (kick_pump (put_conn st handle e conn))
  unfolding put_conn
  conn-Touches handle st e conn = (
    entry-Touches handle st (record e { conn = conn }),
    kick-Touches handle st (record e { conn = conn }),
  )

  on_opening-Touches :
      (handle : ℕ) (st kept : State noq) (kicked : Bool) (opened : Option ℕ)
      → Touches handle st kept × Touches handle st (kick_pump kept)
      → Touches handle st (on_opening kept kicked opened).0
  unfolding on_opening
  on_opening-Touches handle st kept kicked (some id) h = h.0
  on_opening-Touches handle st kept true none h = h.0
  on_opening-Touches handle st kept false none h = h.1

  pub open_check-Touches :
      (st : State noq) (handle epoch : ℕ) (dir : Dir) (kicked : Bool)
      → Touches handle st (open_check st handle epoch dir kicked).0
  unfolding open_check
  open_check-Touches st handle epoch dir kicked = elim (Option-cases (entry_for st handle epoch)) [
    | inl n ↦ rw (open_check, n) (untouched handle st)
    | inr (e, h) ↦ elim (Option-cases e.error) [
      | inr (error, k) ↦ rw (open_check, h, k) (untouched handle st)
      | inl k ↦
          rw (open_check, h, k)
            (on_opening-Touches handle st (put_conn st handle e (noq.open_stream e.conn dir).0)
              kicked (noq.open_stream e.conn dir).1
              (conn-Touches handle st e (noq.open_stream e.conn dir).0))
    ]
  ]

  from_queue-Touches :
      (st : State noq) (handle : ℕ) (dir : Dir) (e : ConnEntry noq) (ids : List ℕ)
      → Touches handle st (from_queue st handle dir e ids).0
  unfolding from_queue
  from_queue-Touches st handle bi e (id ∷ ids) =
      entry-Touches handle st (record e { bi_queue = ids })
  from_queue-Touches st handle uni e (id ∷ ids) =
      entry-Touches handle st (record e { uni_queue = ids })
  from_queue-Touches st handle dir e [] = untouched handle st

  pub accept_stream_check-Touches :
      (st : State noq) (handle epoch : ℕ) (dir : Dir)
      → Touches handle st (accept_stream_check st handle epoch dir).0
  unfolding accept_stream_check
  accept_stream_check-Touches st handle epoch dir =
      elim (Option-cases (entry_for st handle epoch)) [
        | inl n ↦ rw (accept_stream_check, n) (untouched handle st)
        | inr (e, h) ↦
            rw (accept_stream_check, h) (from_queue-Touches st handle dir e (queue_of dir e))
      ]

  on_sent-Touches :
      (handle : ℕ) (st kept : State noq) (outcome : SendOutcome)
      → Touches handle st kept × Touches handle st (kick_pump kept)
      → Touches handle st (on_sent kept outcome).0
  unfolding on_sent
  on_sent-Touches handle st kept queued h = h.1
  on_sent-Touches handle st kept too_large h = h.0
  on_sent-Touches handle st kept unsupported_by_peer h = h.0
  on_sent-Touches handle st kept (other_send text) h = h.0

  pub send_datagram-Touches :
      (st : State noq) (c : ConnectionRes) (payload : Bytes)
      → Touches c.handle st (send_datagram st c payload).0
  unfolding send_datagram
  send_datagram-Touches st c payload = elim (Option-cases (entry_for st c.handle c.epoch)) [
    | inl n ↦ rw (send_datagram, n) (untouched c.handle st)
    | inr (e, h) ↦ elim (Option-cases e.error) [
      | inr (error, k) ↦ rw (send_datagram, h, k) (untouched c.handle st)
      | inl k ↦
          let sent = noq.send_datagram e.conn payload in
          rw (send_datagram, h, k)
            (on_sent-Touches c.handle st (put_conn st c.handle e sent.0) sent.1
              (conn-Touches c.handle st e sent.0))
    ]
  ]

  on_datagram_read-Touches :
      (handle : ℕ) (st kept : State noq) (error : Option Error) (payload : Option Bytes)
      → Touches handle st kept
      → Touches handle st (on_datagram_read kept error payload).0
  unfolding on_datagram_read
  on_datagram_read-Touches handle st kept error (some payload) h = h
  on_datagram_read-Touches handle st kept (some e) none h = h
  on_datagram_read-Touches handle st kept none none h = h

  pub recv_datagram_check-Touches :
      (st : State noq) (handle epoch : ℕ)
      → Touches handle st (recv_datagram_check st handle epoch).0
  unfolding recv_datagram_check
  recv_datagram_check-Touches st handle epoch = elim (Option-cases (entry_for st handle epoch)) [
    | inl n ↦ rw (recv_datagram_check, n) (untouched handle st)
    | inr (e, h) ↦
        let read = noq.recv_datagram e.conn in
        rw (recv_datagram_check, h)
          (on_datagram_read-Touches handle st (put_conn st handle e read.0) e.error read.1
            (conn-Touches handle st e read.0).0)
  ]

  pub close-Touches :
      (st : State noq) (c : ConnectionRes) (now code : ℕ) (reason : Bytes)
      → Touches c.handle st (close st c now code reason)
  unfolding close
  close-Touches st c now code reason = elim (Option-cases (entry_for st c.handle c.epoch)) [
    | inl n ↦ rw (close, n) (untouched c.handle st)
    | inr (e, h) ↦
        rw (close, h)
          (if_cases (Touches c.handle st) (is_none e.error && not e.drained) _ st
            (λ t. (conn-Touches c.handle st e (noq.close e.conn now (app_code code) reason)).1)
            (λ t. untouched c.handle st))
  ]
