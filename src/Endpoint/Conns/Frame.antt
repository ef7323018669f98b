-- ===== src/Endpoint/Conns/Frame.antt =====
-- The datagram handlers, on the wires.
use polymorph_iroh.Base.{
  ℕ, ◌≡◌, refl, ◌∙◌, inl, inr, Option, none, some, Bytes, leb, if_cases, Option-cases, nat_key,
  bytes_key,
}
use polymorph_iroh.Base.Maps.{lookup}
use polymorph_iroh.Net.{SocketAddr, addr_key}
use polymorph_iroh.Noq.{
  Noq, DatagramEvent, connection_event, new_connection, response, Acceptance, accepted, rejected,
}
use polymorph_iroh.Endpoint.Wires.{wires_of}
use polymorph_iroh.Endpoint.{State, RouteWire, relay, channel}
use polymorph_iroh.Endpoint.Routes.{
  fresh_standin, addr_for_peer, push_relay, push_channel, push_udp, push_by_route, push_response,
}
use polymorph_iroh.Endpoint.Conns.{
  accept_backlog, accept_backlog_max, on_conn_event, on_accepted, on_incoming, on_datagram_event,
  handle_datagram, handle_relay_datagram, handle_udp_datagram, handle_channel_datagram,
  handle_timeouts,
}

module _ {noq : Noq} where
  pub addr_for_peer-wires :
      (st : State noq) (peer : Bytes) (via : ℕ)
      → wires_of (addr_for_peer st peer via).0 ≡ wires_of st
  unfolding addr_for_peer fresh_standin
  addr_for_peer-wires st peer via = elim (Option-cases (lookup peer st.peer_to_addr)) [
    | inl n ↦ rw (addr_for_peer, n) refl
    | inr (a, h) ↦ rw (addr_for_peer, h) refl
  ]

  push_by_route-wires :
      (st : State noq) (addr : SocketAddr) (payload : Bytes) (route : Option RouteWire)
      (source : Option Bytes)
      → wires_of (push_by_route st addr payload route source) ≡ wires_of st
  unfolding push_by_route push_relay push_channel push_udp
  push_by_route-wires st addr payload (some (relay key)) (some peer) = refl
  push_by_route-wires st addr payload (some (relay key)) none = refl
  push_by_route-wires st addr payload (some (channel id)) source = refl
  push_by_route-wires st addr payload none source = refl

  push_response-wires :
      (st : State noq) (addr : SocketAddr) (source : Option Bytes) (payload : Bytes)
      → wires_of (push_response st addr source payload) ≡ wires_of st
  unfolding push_response
  push_response-wires st addr source payload =
      push_by_route-wires st addr payload (lookup addr st.routes) source

  on_accepted-wires :
      (st : State noq) (addr : SocketAddr) (source : Option Bytes) (result : Acceptance noq.Conn)
      → wires_of (on_accepted st addr source result) ≡ wires_of st
  unfolding on_accepted
  on_accepted-wires st addr source (accepted handle conn) = refl
  on_accepted-wires st addr source (rejected none) = refl
  on_accepted-wires st addr source (rejected (some reply)) =
      push_response-wires st addr source reply

  on_incoming-wires :
      (st : State noq) (now : ℕ) (addr : SocketAddr) (source : Option Bytes)
      (incoming : noq.Incoming)
      → wires_of (on_incoming st now addr source incoming) ≡ wires_of st
  unfolding on_incoming
  on_incoming-wires st now addr source incoming =
      let (refusing, reply) = noq.refuse st.engine incoming in
      let (accepting, result) = noq.accept st.engine incoming now in
      if_cases (λ (r : State noq). wires_of r ≡ wires_of st) st.is_closed _ _ (λ t. refl)
        (λ t.
          if_cases (λ (r : State noq). wires_of r ≡ wires_of st)
            (leb accept_backlog_max (accept_backlog st)) _ _
            (λ v. push_response-wires (record st { engine = refusing }) addr source reply)
            (λ v. on_accepted-wires (record st { engine = accepting }) addr source result))

  on_conn_event-wires :
      (st : State noq) (handle : ℕ) (event : noq.ConnEvent)
      → wires_of (on_conn_event st handle event) ≡ wires_of st
  unfolding on_conn_event
  on_conn_event-wires st handle event = elim (Option-cases (lookup handle st.conns)) [
    | inl n ↦ rw (on_conn_event, n) refl
    | inr (e, h) ↦ rw (on_conn_event, h) refl
  ]

  on_datagram_event-wires :
      (st : State noq) (now : ℕ) (addr : SocketAddr) (source : Option Bytes)
      (event : Option (DatagramEvent noq.ConnEvent noq.Incoming))
      → wires_of (on_datagram_event st now addr source event) ≡ wires_of st
  unfolding on_datagram_event
  on_datagram_event-wires st now addr source none = refl
  on_datagram_event-wires st now addr source (some (connection_event handle event)) =
      on_conn_event-wires st handle event
  on_datagram_event-wires st now addr source (some (new_connection incoming)) =
      on_incoming-wires st now addr source incoming
  on_datagram_event-wires st now addr source (some (response reply)) =
      push_response-wires st addr source reply

  handle_datagram-wires :
      (st : State noq) (now : ℕ) (addr : SocketAddr) (source : Option Bytes) (payload : Bytes)
      → wires_of (handle_datagram st now addr source payload) ≡ wires_of st
  unfolding handle_datagram
  handle_datagram-wires st now addr source payload =
      let (engine, event) = noq.handle st.engine now addr payload in
      on_datagram_event-wires (record st { engine = engine }) now addr source event

  pub handle_relay_datagram-wires :
      (st : State noq) (now via : ℕ) (source payload : Bytes)
      → wires_of (handle_relay_datagram st now via source payload) ≡ wires_of st
  unfolding handle_relay_datagram
  handle_relay_datagram-wires st now via source payload =
      let (seen, addr) = addr_for_peer st source via in
      handle_datagram-wires seen now addr (some source) payload ∙ addr_for_peer-wires st source via

  pub handle_udp_datagram-wires :
      (st : State noq) (now : ℕ) (remote : SocketAddr) (payload : Bytes)
      → wires_of (handle_udp_datagram st now remote payload) ≡ wires_of st
  unfolding handle_udp_datagram
  handle_udp_datagram-wires st now remote payload = handle_datagram-wires st now remote none payload

  pub handle_channel_datagram-wires :
      (st : State noq) (now id : ℕ) (payload : Bytes)
      → wires_of (handle_channel_datagram st now id payload) ≡ wires_of st
  unfolding handle_channel_datagram
  handle_channel_datagram-wires st now id payload = elim (Option-cases (lookup id st.channels)) [
    | inl n ↦ rw (handle_channel_datagram, n) refl
    | inr (entry, h) ↦
        let (seen, synthetic) = addr_for_peer st entry.peer entry.fallback_relay in
        rw (handle_channel_datagram, h)
          (handle_datagram-wires seen now synthetic (some entry.peer) payload
            ∙ addr_for_peer-wires st entry.peer entry.fallback_relay)
  ]

  pub handle_timeouts-wires :
      (st : State noq) (now : ℕ) → wires_of (handle_timeouts st now) ≡ wires_of st
  unfolding handle_timeouts
  handle_timeouts-wires st now = refl
