-- ===== src/Endpoint/Conns/Backlog.antt =====
-- `accept_backlog` and its bound, under the handlers of endpoint/src/endpoint_impl.rs.
use polymorph_iroh.Base.{
  ℕ, ◌+◌, ◌≤◌, ◌≡◌, refl, ap, inl, inr, Bool, true, false, not, ◌&&◌, Option, none, some, List, [],
  ◌∷◌, Bytes, eqb, leb, leb-false, length, is_none, if◌then◌else◌, nat_key, arith, Bool-cases,
  Option-cases, if_cases,
}
use polymorph_iroh.Base.Maps.{Map, lookup, insert}
use polymorph_iroh.Net.{SocketAddr, addr_key}
use polymorph_iroh.Noq.{
  Noq, DatagramEvent, connection_event, new_connection, response, Acceptance, accepted, rejected,
  Event, connected, stream_opened, quiet, connection_lost, Reason, application_closed,
  locally_closed, timed_out, other_reason,
}
use polymorph_iroh.Endpoint.{State, ConnEntry, Error, new_entry}
use polymorph_iroh.Endpoint.Routes.{push_response}
use polymorph_iroh.Endpoint.Conns.{
  accept_backlog_max, accept_backlog, handshaking, is_handshaking, one_if, on_event, on_connected,
  by_key, on_lost, tls_peer, expects, on_conn_event, on_accepted, on_incoming, on_datagram_event,
  handle_datagram, new_alpn, mismatched, authenticated, on_opened,
}

one_if_le : (b : Bool) → one_if b ≤ 1
one_if_le true = omega arith
one_if_le false = omega arith

one_if_off : (a : Bool) → one_if (a && false) ≡ 0
one_if_off true = refl
one_if_off false = refl

one_if_dead : (a b : Bool) → one_if (a && (not b && false)) ≡ 0
one_if_dead true true = refl
one_if_dead true false = refl
one_if_dead false b = refl

one_if_and : (a : Bool) → one_if (a && true) ≡ one_if a
one_if_and true = refl
one_if_and false = refl

one_if_alive :
    (a c d : Bool) (err : Option Error)
    → c ≡ false
    → err ≡ none
    → d ≡ false
    → one_if (a && (not c && (is_none err && not d))) ≡ one_if a
one_if_alive a c d err hc he hd = rw (hc, he, hd) (one_if_and a)

claims_length : (b : Bool) (claim : ℕ × ℕ) → length (if b then claim ∷ [] else []) ≡ one_if b
claims_length true claim = refl
claims_length false claim = refl

module _ {noq : Noq} where
  -- A new entry counts once at most, whatever it replaces.
  handshaking-insert_le :
      (h : ℕ) (e : ConnEntry noq) (m : Map ℕ (ConnEntry noq))
      → handshaking (insert h e m) ≤ one_if (is_handshaking e) + handshaking m
  unfolding handshaking insert
  handshaking-insert_le h e [] = omega arith
  handshaking-insert_le h e ((j, w) ∷ m) = ground (arith, handshaking-insert_le h e m)

  -- An entry in the place of another moves the count by theirs.
  handshaking-replace :
      (h : ℕ) (old new : ConnEntry noq) (m : Map ℕ (ConnEntry noq))
      → lookup h m ≡ some old
      → handshaking (insert h new m) + one_if (is_handshaking old)
        ≡ handshaking m + one_if (is_handshaking new)
  unfolding handshaking insert lookup
  handshaking-replace h old new [] e = cc
  handshaking-replace h old new ((j, w) ∷ m) e = elim (Bool-cases (eqb j h)) [
    | inl t ↦
        let found : some w ≡ some old = rw (t, lookup) at e in
        let same : w ≡ old = cc found in
        rw (t, insert) (omega (arith, ap (λ (x : ConnEntry noq). one_if (is_handshaking x)) same))
    | inr t ↦ rw (t, insert) (omega (arith, handshaking-replace h old new m (rw (t, lookup) at e)))
  ]

  push_response-backlog :
      (st : State noq) (addr : SocketAddr) (source : Option Bytes) (reply : Bytes)
      → accept_backlog (push_response st addr source reply) ≡ accept_backlog st
  unfolding accept_backlog push_response
  push_response-backlog st addr source reply = ground arith

  conn_event-handshaking :
      (e : ConnEntry noq) (conn : noq.Conn)
      → is_handshaking (record e { conn = conn }) ≡ is_handshaking e
  unfolding is_handshaking
  conn_event-handshaking e conn = refl

  on_conn_event-backlog :
      (st : State noq) (handle : ℕ) (event : noq.ConnEvent)
      → accept_backlog (on_conn_event st handle event) ≡ accept_backlog st
  unfolding accept_backlog on_conn_event
  on_conn_event-backlog st handle event = elim (Option-cases (lookup handle st.conns)) [
    | inl e ↦ rw (e, on_conn_event) refl
    | inr (old, e) ↦
        let new : ConnEntry noq = record old { conn = noq.conn_event old.conn event } in
        rw (e, on_conn_event)
          (omega (
            arith,
            handshaking-replace handle old new st.conns e,
            ap one_if (conn_event-handshaking old (noq.conn_event old.conn event)),
          ))
  ]

  on_accepted-backlog :
      (st : State noq) (addr : SocketAddr) (source : Option Bytes) (result : Acceptance noq.Conn)
      → accept_backlog (on_accepted st addr source result) ≤ accept_backlog st + 1
  unfolding accept_backlog on_accepted
  on_accepted-backlog st addr source (accepted handle conn) =
      let new : ConnEntry noq = new_entry conn source true st.next_conn_epoch in
      omega (arith, handshaking-insert_le handle new st.conns, one_if_le (is_handshaking new))
  on_accepted-backlog st addr source (rejected none) = omega arith
  on_accepted-backlog st addr source (rejected (some reply)) =
      omega (arith, push_response-backlog st addr source reply)

  refuse-backlog :
      (st : State noq) (addr : SocketAddr) (source : Option Bytes) (incoming : noq.Incoming)
      → accept_backlog st ≤ accept_backlog_max
      → accept_backlog (
          push_response
            (record st { engine = (noq.refuse st.engine incoming).0 })
            addr
            source
            (noq.refuse st.engine incoming).1)
        ≤ accept_backlog_max
  unfolding accept_backlog
  refuse-backlog st addr source incoming h = omega (
    arith,
    push_response-backlog (record st { engine = (noq.refuse st.engine incoming).0 }) addr source
        (noq.refuse st.engine incoming).1,
  )

  accept-backlog :
      (st : State noq) (now : ℕ) (addr : SocketAddr) (source : Option Bytes)
      (incoming : noq.Incoming)
      → leb accept_backlog_max (accept_backlog st) ≡ false
      → accept_backlog (
          on_accepted
            (record st { engine = (noq.accept st.engine incoming now).0 })
            addr
            source
            (noq.accept st.engine incoming now).1)
        ≤ accept_backlog_max
  unfolding accept_backlog
  accept-backlog st now addr source incoming below = omega (
    arith,
    on_accepted-backlog (record st { engine = (noq.accept st.engine incoming now).0 }) addr source
        (noq.accept st.engine incoming now).1,
    leb-false 16 (accept_backlog st) below,
  )

  on_incoming-backlog :
      (st : State noq) (now : ℕ) (addr : SocketAddr) (source : Option Bytes)
      (incoming : noq.Incoming)
      → accept_backlog st ≤ accept_backlog_max
      → accept_backlog (on_incoming st now addr source incoming) ≤ accept_backlog_max
  unfolding on_incoming
  on_incoming-backlog st now addr source incoming h =
      if_cases (λ (s : State noq). accept_backlog s ≤ accept_backlog_max) st.is_closed _ _ (λ _. h)
        (λ _.
          if_cases (λ (s : State noq). accept_backlog s ≤ accept_backlog_max)
            (leb accept_backlog_max (accept_backlog st)) _ _
            (λ _. refuse-backlog st addr source incoming h)
            (λ below. accept-backlog st now addr source incoming below))

  on_datagram_event-backlog :
      (st : State noq) (now : ℕ) (addr : SocketAddr) (source : Option Bytes)
      (event : Option (DatagramEvent noq.ConnEvent noq.Incoming))
      → accept_backlog st ≤ accept_backlog_max
      → accept_backlog (on_datagram_event st now addr source event) ≤ accept_backlog_max
  unfolding on_datagram_event
  on_datagram_event-backlog st now addr source none h = h
  on_datagram_event-backlog st now addr source (some (connection_event handle event)) h =
      omega (arith, on_conn_event-backlog st handle event)
  on_datagram_event-backlog st now addr source (some (new_connection incoming)) h =
      on_incoming-backlog st now addr source incoming h
  on_datagram_event-backlog st now addr source (some (response reply)) h =
      omega (arith, push_response-backlog st addr source reply)

  -- Whatever the engine makes of a datagram, an endpoint whose backlog of unclaimed connections is
  -- within the bound keeps it within the bound.
  pub handle_datagram-backlog :
      (st : State noq) (now : ℕ) (addr : SocketAddr) (source : Option Bytes) (payload : Bytes)
      → accept_backlog st ≤ accept_backlog_max
      → accept_backlog (handle_datagram st now addr source payload) ≤ accept_backlog_max
  unfolding handle_datagram accept_backlog
  handle_datagram-backlog st now addr source payload h =
      on_datagram_event-backlog (record st { engine = (noq.handle st.engine now addr payload).0 })
        now addr source (noq.handle st.engine now addr payload).1 h

  -- What the engine promises of its events: a connection is reported connected while it is still
  -- handshaking, not twice and not after it was lost.
  abbrev pub IsTimely : ConnEntry noq → Event → Type 0
  IsTimely e connected = (e.is_connected ≡ false) × (e.error ≡ none) × (e.drained ≡ false)
  IsTimely e stream_opened = Unit {0}
  IsTimely e quiet = Unit {0}
  IsTimely e (connection_lost reason) = Unit {0}

  weight : ConnEntry noq × List (ℕ × ℕ) → ℕ
  weight (e, claims) = length claims + one_if (is_handshaking e)

  authenticated-weight :
      (e : ConnEntry noq) (handle : ℕ) (id : Bytes)
      → e.is_connected ≡ false
      → e.error ≡ none
      → e.drained ≡ false
      → weight (authenticated e id, if e.accepted_side then (handle, e.epoch) ∷ [] else [])
        ≤ one_if (is_handshaking e)
  unfolding weight authenticated is_handshaking
  authenticated-weight e handle id c err d = omega (
    arith,
    claims_length e.accepted_side (handle, e.epoch),
    one_if_off e.accepted_side,
    one_if_alive e.accepted_side e.is_connected e.drained e.error c err d,
  )

  by_key-weight :
      (e : ConnEntry noq) (handle now : ℕ) (key : Option Bytes)
      → e.is_connected ≡ false
      → e.error ≡ none
      → e.drained ≡ false
      → weight (by_key e handle now key) ≤ one_if (is_handshaking e)
  unfolding weight by_key is_handshaking mismatched authenticated
  by_key-weight e handle now none c err d =
      omega (arith, one_if_dead e.accepted_side e.is_connected)
  by_key-weight e handle now (some id) c err d =
      if_cases (λ (r : ConnEntry noq × List (ℕ × ℕ)). weight r ≤ one_if (is_handshaking e))
        (expects e.expected_peer id) _ _ (λ _. authenticated-weight e handle id c err d)
        (λ _. omega (arith, one_if_dead e.accepted_side e.is_connected))

  on_lost-weight :
      (e : ConnEntry noq) (reason : Reason)
      → weight (on_lost e reason, []) ≤ one_if (is_handshaking e)
  unfolding weight on_lost is_handshaking
  on_lost-weight e (application_closed code reason) =
      omega (arith, one_if_dead e.accepted_side e.is_connected)
  on_lost-weight e locally_closed = omega (arith, one_if_dead e.accepted_side e.is_connected)
  on_lost-weight e timed_out = omega (arith, one_if_dead e.accepted_side e.is_connected)
  on_lost-weight e (other_reason text) = omega (arith, one_if_dead e.accepted_side e.is_connected)

  on_event-weight :
      (e : ConnEntry noq) (handle now : ℕ) (event : Event)
      → IsTimely e event
      → weight (on_event e handle now event) ≤ one_if (is_handshaking e)
  unfolding on_event weight on_connected on_opened is_handshaking
  on_event-weight e handle now connected (c, err, d) =
      by_key-weight (record e { alpn = new_alpn (noq.handshake_data e.conn) e.alpn }) handle now
        (tls_peer noq e.conn) c err d
  on_event-weight e handle now stream_opened timely = omega arith
  on_event-weight e handle now quiet timely = omega arith
  on_event-weight e handle now (connection_lost reason) timely = on_lost-weight e reason
