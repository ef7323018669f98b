-- ===== src/Endpoint/Routes/Steps.antt =====
-- The operations on routes and channels, on a consistent address book.
use polymorph_iroh.Base.{
  ℕ, ◌+◌, ◌^◌, ◌<◌, ◌≡◌, refl, inl, inr, Option, none, some, [], ◌∷◌, Bytes, nat_key, bytes_key,
  arith, if_cases, Bool-cases, Option-cases, length, length-append,
}
use polymorph_iroh.Base.Maps.{lookup, lookup-insert_self}
use polymorph_iroh.Net.{SocketAddr, addr_key}
use polymorph_iroh.Noq.{Noq}
use polymorph_iroh.Endpoint.{
  State, relay, channel, ChannelEntry, Error, closed, kick_pump, close_channel, ask,
}
use polymorph_iroh.Endpoint.Routes.{
  fresh_standin, addr_for_peer, add_channel, register_channel, is_channel, return_route,
  retire_channel, route_transmit, push_relay, push_udp, push_channel, with_channel, flip_route,
  or_home, signaling_relay,
}
use polymorph_iroh.Endpoint.Routes.Invariant.{
  IsRouteTo, book, IsRouted, standin_addr, joined-IsRouted,
}
use polymorph_iroh.Endpoint.Routes.Book.{
  wrap, set_route-IsRouted, new_channel-IsRouted, drop_channel-IsRouted, route_of_channel, moved,
  unmoved,
}

module _ {noq : Noq} where
  fresh_standin-IsRouted :
      (st : State noq) (peer : Bytes) (via : ℕ)
      → IsRouted (book st)
      → st.next_host + 1 < 2 ^ 32
      → lookup peer st.peer_to_addr ≡ none
      → IsRouted (book (fresh_standin st peer via).0)
        × (lookup (fresh_standin st peer via).1 (fresh_standin st peer via).0.addr_to_peer
            ≡ some peer)
  unfolding fresh_standin
  fresh_standin-IsRouted st peer via v room new = simp (wrap st.next_host room) (
    joined-IsRouted peer via v room new,
    lookup-insert_self (standin_addr (st.next_host + 1)) peer st.addr_to_peer,
  )

  -- While the 32-bit counter of standins has room, `addr_for_peer` keeps the book consistent and
  -- gives the address that the book then has for the peer.
  pub addr_for_peer-IsRouted :
      (st : State noq) (peer : Bytes) (via : ℕ)
      → IsRouted (book st)
      → st.next_host + 1 < 2 ^ 32
      → IsRouted (book (addr_for_peer st peer via).0)
        × (lookup (addr_for_peer st peer via).1 (addr_for_peer st peer via).0.addr_to_peer
            ≡ some peer)
  unfolding addr_for_peer
  addr_for_peer-IsRouted st peer via v room = elim (Option-cases (lookup peer st.peer_to_addr)) [
    | inl e ↦
        let (good, at) = fresh_standin-IsRouted st peer via v room e in
        rw (e, addr_for_peer) (good, at)
    | inr (a, e) ↦ rw (e, addr_for_peer) (v, v.forward peer a e)
  ]

  pub addr_for_peer-channels :
      (st : State noq) (peer : Bytes) (via : ℕ)
      → ((addr_for_peer st peer via).0.channels ≡ st.channels)
        × ((addr_for_peer st peer via).0.next_channel_id ≡ st.next_channel_id)
  unfolding addr_for_peer fresh_standin
  addr_for_peer-channels st peer via = elim (Option-cases (lookup peer st.peer_to_addr)) [
    | inl e ↦ rw (e, addr_for_peer) (refl, refl)
    | inr (a, e) ↦ rw (e, addr_for_peer) (refl, refl)
  ]

  flip_route-IsRouted :
      (st : State noq) (peer : Bytes) (fallback id : ℕ)
      → IsRouted (book st)
      → st.next_host + 1 < 2 ^ 32
      → IsRouteTo st.channels peer (channel id)
      → IsRouted (book (flip_route st peer fallback id))
  unfolding flip_route kick_pump
  flip_route-IsRouted st peer fallback id v room good =
      let (w, at) = addr_for_peer-IsRouted st peer fallback v room in
      set_route-IsRouted (addr_for_peer st peer fallback).1 peer (channel id) w at
        (rw ((addr_for_peer-channels st peer fallback).0) good)

  add_channel-IsRouted :
      (st : State noq) (peer : Bytes) (wire : ℕ)
      → IsRouted (book st)
      → st.next_host + 1 < 2 ^ 32
      → st.next_channel_id + 1 < 2 ^ 32
      → IsRouted (book (add_channel st peer wire))
  unfolding add_channel
  add_channel-IsRouted st peer wire v room space =
      let fallback = or_home (signaling_relay st peer) in
      let entry : ChannelEntry = record { wire = wire; peer = peer; fallback_relay = fallback } in
      let id = st.next_channel_id + 1 in
      rw (wrap st.next_channel_id space) (
        flip_route-IsRouted (with_channel st id entry) peer fallback id
          (new_channel-IsRouted entry v space) room
          (entry, lookup-insert_self id entry st.channels, refl))

  -- While the 32-bit counters of standins and channels have room, `register_channel` keeps the book
  -- consistent, on an open endpoint and on a closed one.
  pub register_channel-IsRouted :
      (st : State noq) (peer : Bytes) (wire : ℕ)
      → IsRouted (book st)
      → st.next_host + 1 < 2 ^ 32
      → st.next_channel_id + 1 < 2 ^ 32
      → IsRouted (book (register_channel st peer wire).0)
  unfolding register_channel
  register_channel-IsRouted st peer wire v room space =
      if_cases (λ (r : State noq × Option Error). IsRouted (book r.0)) st.is_closed
        (ask (close_channel wire) st, some closed) (add_channel st peer wire, none) (λ e. v)
        (λ e. add_channel-IsRouted st peer wire v room space)

  -- `retire_channel` keeps the book consistent: whatever channel dies, open or unknown, no route
  -- names it afterwards.
  pub retire_channel-IsRouted :
      (st : State noq) (id : ℕ) → IsRouted (book st) → IsRouted (book (retire_channel st id))
  unfolding retire_channel
  retire_channel-IsRouted st id v = elim (Option-cases (lookup id st.channels)) [
    | inl e ↦ rw (e, retire_channel) v
    | inr (entry, e) ↦ elim (Option-cases (lookup entry.peer st.peer_to_addr)) [
      | inl f ↦
          rw (e, retire_channel, f, return_route)
            (drop_channel-IsRouted id v (λ a h. cc (f, route_of_channel id entry a v e h)))
      | inr (a, f) ↦ elim (Bool-cases (is_channel id (lookup a st.routes))) [
        | inl t ↦
            rw (e, retire_channel, f, return_route, t)
              (drop_channel-IsRouted id
                (set_route-IsRouted a entry.peer (relay entry.fallback_relay) v
                  (v.forward entry.peer a f) tt)
                (λ b h. moved id entry a v e f b h))
        | inr t ↦
            rw (e, retire_channel, f, return_route, t)
              (drop_channel-IsRouted id v (λ b h. unmoved id entry a v e f t b h))
      ]
    ]
  ]

  -- How many datagrams wait on the three wires.
  abbrev pub queued : State noq → ℕ
  queued st = length st.relay_outbound + length st.udp_outbound + length st.channel_outbound

  -- In a consistent book the routing of a transmit never indexes an address that has no peer, so
  -- `drain` does not panic; and it queues the datagram on exactly one wire.
  pub route_transmit_total :
      (st : State noq) (destination : SocketAddr) (datagram : Bytes)
      → IsRouted (book st)
      → (next : State noq) × (route_transmit st destination datagram ≡ some next)
        × (queued next ≡ queued st + 1)
  unfolding route_transmit
  route_transmit_total st destination datagram v =
      elim (Option-cases (lookup destination st.routes)) [
        | inl e ↦ (
          push_udp st destination datagram,
          rw (e, route_transmit) refl,
          omega (arith, length-append st.udp_outbound ((destination, datagram) ∷ [])),
        )
        | inr (channel id, e) ↦ (
          push_channel st id datagram,
          rw (e, route_transmit) refl,
          omega (arith, length-append st.channel_outbound ((id, datagram) ∷ [])),
        )
        | inr (relay key, e) ↦
            let (p, at, _) = v.known destination (relay key) e in
            (
              push_relay st key p datagram,
              rw (e, route_transmit, at) refl,
              omega (arith, length-append st.relay_outbound ((key, p, datagram) ∷ [])),
            )
      ]
