-- ===== src/Endpoint/Routes.antt =====
-- Standin addresses, their routes, and the channels that carry some of them: `addr_for_peer`,
-- `register_channel`, `retire_channel`, `push_response` and the routing of `drain`, from
-- endpoint/src/endpoint_impl.rs.
pub mod Invariant
pub mod Book
pub mod Steps
pub mod Reach
use polymorph_iroh.Base.{
  ℕ, ◌+◌, ◌%◌, ◌^◌, ◌≡◌, Bool, true, false, Option, none, some, List, [], ◌∷◌, ◌++◌, Bytes, eqb,
  if◌then◌else◌, nat_key, bytes_key,
}
use polymorph_iroh.Base.Maps.{Map, lookup, insert, remove}
use polymorph_iroh.Net.{SocketAddr, addr_key, doc_prefix_addr}
use polymorph_iroh.Noq.{Noq}
use polymorph_iroh.Endpoint.{
  State, RouteWire, relay, channel, ChannelEntry, Error, closed, home_relay, close_channel,
  kick_pump, ask,
}

abbrev pub or_home : Option ℕ → ℕ
or_home none = home_relay
or_home (some key) = key

-- `routes.get(addr) == Some(&RouteWire::Channel(id))`
pub is_channel : ℕ → Option RouteWire → Bool
is_channel id none = false
is_channel id (some (relay key)) = false
is_channel id (some (channel j)) = eqb j id

module _ {noq : Noq} where
  -- The next standin, with its route. `next_host` is a u32.
  unfoldable pub fresh_standin : State noq → Bytes → ℕ → State noq × SocketAddr
  fresh_standin st peer via =
      let host = (st.next_host + 1) % 2 ^ 32 in
      let addr = doc_prefix_addr 0x77 host in
      (
        record st {
          next_host = host;
          peer_to_addr = insert peer addr st.peer_to_addr;
          addr_to_peer = insert addr peer st.addr_to_peer;
          routes = insert addr (relay via) st.routes;
        },
        addr,
      )

  unfoldable pub addr_for_peer : State noq → Bytes → ℕ → State noq × SocketAddr
  unfolding fresh_standin
  addr_for_peer st peer via = elim (lookup peer st.peer_to_addr) [
    | some addr ↦ (st, addr)
    | none ↦ fresh_standin st peer via
  ]

  unfoldable pub signaling_relay : State noq → Bytes → Option ℕ
  signaling_relay st peer = lookup peer st.signaling

  abbrev pub with_channel : State noq → ℕ → ChannelEntry → State noq
  with_channel st id entry = record st {
    next_channel_id = id;
    channels = insert id entry st.channels;
    new_channels = st.new_channels ++ ((id, entry.wire) ∷ []);
  }

  -- Moves the peer's route onto a channel.
  unfoldable pub flip_route : State noq → Bytes → ℕ → ℕ → State noq
  flip_route st peer fallback_relay id =
      let (seen, synthetic) = addr_for_peer st peer fallback_relay in
      kick_pump (record seen { routes = insert synthetic (channel id) seen.routes })

  -- The open path of `register_channel`. `next_channel_id` is a u32.
  unfoldable pub add_channel : State noq → Bytes → ℕ → State noq
  unfolding signaling_relay
  add_channel st peer wire =
      let fallback_relay = or_home (signaling_relay st peer) in
      let id = (st.next_channel_id + 1) % 2 ^ 32 in
      let entry : ChannelEntry = record {
        wire = wire;
        peer = peer;
        fallback_relay = fallback_relay;
      } in
      flip_route (with_channel st id entry) peer fallback_relay id

  unfoldable pub register_channel : State noq → Bytes → ℕ → State noq × Option Error
  unfolding add_channel
  register_channel st peer wire =
      if st.is_closed
      then (ask (close_channel wire) st, some closed)
      else (add_channel st peer wire, none)

  unfoldable pub return_route : State noq → ℕ → ChannelEntry → State noq
  unfolding is_channel
  return_route st id entry = elim (lookup entry.peer st.peer_to_addr) [
    | none ↦ st
    | some synthetic ↦
        if is_channel id (lookup synthetic st.routes)
        then record st { routes = insert synthetic (relay entry.fallback_relay) st.routes }
        else st
  ]

  unfoldable pub retire_channel : State noq → ℕ → State noq
  unfolding return_route
  retire_channel st id = elim (lookup id st.channels) [
    | none ↦ st
    | some entry ↦ return_route (record st { channels = remove id st.channels }) id entry
  ]

  unfoldable pub push_relay : State noq → ℕ → Bytes → Bytes → State noq
  push_relay st key peer payload = record st {
    relay_outbound = st.relay_outbound ++ ((key, peer, payload) ∷ []);
  }

  unfoldable pub push_channel : State noq → ℕ → Bytes → State noq
  push_channel st id payload = record st {
    channel_outbound = st.channel_outbound ++ ((id, payload) ∷ []);
  }

  unfoldable pub push_udp : State noq → SocketAddr → Bytes → State noq
  push_udp st addr payload = record st { udp_outbound = st.udp_outbound ++ ((addr, payload) ∷ []) }

  unfoldable pub push_by_route :
      State noq → SocketAddr → Bytes → Option RouteWire → Option Bytes → State noq
  unfolding push_relay push_channel push_udp
  push_by_route st addr payload (some (relay key)) (some peer) = push_relay st key peer payload
  push_by_route st addr payload (some (channel id)) source = push_channel st id payload
  push_by_route st addr payload _ _ = push_udp st addr payload

  -- An endpoint-level response, on the route of the address that the datagram came from.
  unfoldable pub push_response : State noq → SocketAddr → Option Bytes → Bytes → State noq
  unfolding push_by_route
  push_response st addr source payload =
      push_by_route st addr payload (lookup addr st.routes) source

  -- One transmit of `drain`. `none` is the panic of `addr_to_peer[&transmit.destination]`.
  unfoldable pub route_transmit : State noq → SocketAddr → Bytes → Option (State noq)
  unfolding push_relay push_channel push_udp
  route_transmit st destination datagram = elim (lookup destination st.routes) [
    | none ↦ some (push_udp st destination datagram)
    | some (channel id) ↦ some (push_channel st id datagram)
    | some (relay key) ↦ elim (lookup destination st.addr_to_peer) [
      | none ↦ none
      | some peer ↦ some (push_relay st key peer datagram)
    ]
  ]
