-- ===== src/Endpoint/Routes/Book.antt =====
-- The book of standins, routes and channels under each change of its maps.
use polymorph_iroh.Base.{
  ℕ, ◌+◌, ◌%◌, ◌^◌, ◌<◌, ◌≡◌, ap, ◌∙◌, subst, ◌≢◌, inl, inr, true, false, none, some, Bytes,
  nat_key, bytes_key, arith, Option-cases,
}
use polymorph_iroh.Base.Maps.{
  lookup, insert, remove, lookup-insert, lookup-insert_ne, lookup-insert_cases, lookup-remove-some,
  lookup-remove_ne,
}
use polymorph_iroh.Net.{SocketAddr, addr_key}
use polymorph_iroh.Endpoint.{RouteWire, relay, channel, ChannelEntry}
use polymorph_iroh.Endpoint.Routes.{is_channel}
use polymorph_iroh.Endpoint.Routes.Invariant.{IsRouteTo, Book, IsRouted}

pub wrap : (n : ℕ) → n + 1 < 2 ^ 32 → (n + 1) % 2 ^ 32 ≡ n + 1
wrap n h = omega arith

-- A route moved to another good wire.
pub set_route-IsRouted :
    {st : Book} (a : SocketAddr) (p : Bytes) (r : RouteWire)
    → IsRouted st
    → lookup a st.addr_to_peer ≡ some p
    → IsRouteTo st.channels p r
    → IsRouted (record st { routes = insert a r st.routes })
set_route-IsRouted {st} a p r v at good = record {
  hosts = v.hosts;
  ids = v.ids;
  standin = v.standin;
  backward = v.backward;
  forward = v.forward;
  routed = λ b q h. elim (Option-cases (lookup b (insert a r st.routes))) [
    | inr (w, e) ↦ (w, e)
    | inl e ↦ let (w, old) = v.routed b q h in absurd (lost b w e old)
  ];
  known = λ b w h. elim (lookup-insert_cases a b r w st.routes h) [
    | inl (here, same) ↦ (p, rw (← here) at, subst (IsRouteTo st.channels p) same good)
    | inr (_, old) ↦ v.known b w old
  ];
  numbered = v.numbered;
}
  where
    lost :
        (b : SocketAddr) (w : RouteWire)
        → lookup b (insert a r st.routes) ≡ none
        → lookup b st.routes ≡ some w
        → ⊥
    lost b w e old = ground (arith, lookup-insert a b r st.routes)

-- A new channel under a fresh number.
pub new_channel-IsRouted :
    {st : Book} (entry : ChannelEntry)
    → IsRouted st
    → st.next_channel_id + 1 < 2 ^ 32
    → IsRouted (record st {
      next_channel_id = st.next_channel_id + 1;
      channels = insert (st.next_channel_id + 1) entry st.channels;
    })
new_channel-IsRouted {st} entry v room = record {
  hosts = v.hosts;
  ids = room;
  standin = v.standin;
  backward = v.backward;
  forward = v.forward;
  routed = v.routed;
  known = λ a r h. let (p, e, good) = v.known a r h in (p, e, still r p good);
  numbered = λ id e h. elim (lookup-insert_cases (st.next_channel_id + 1) id entry e _ h) [
    | inl (here, _) ↦ omega arith
    | inr (_, old) ↦ omega (arith, v.numbered id e old)
  ];
}
  where
    still :
        (r : RouteWire) (p : Bytes)
        → IsRouteTo st.channels p r
        → IsRouteTo (insert (st.next_channel_id + 1) entry st.channels) p r
    still (relay key) p good = tt
    still (channel id) p (e, found, same) = (
      e,
      lookup-insert_ne (st.next_channel_id + 1) id entry st.channels
            (λ q. absurd (omega (arith, v.numbered id e found, q)))
          ∙ found,
      same,
    )

-- A channel that no route names leaves.
pub drop_channel-IsRouted :
    {st : Book} (id : ℕ)
    → IsRouted st
    → ((a : SocketAddr) → lookup a st.routes ≢ some (channel id))
    → IsRouted (record st { channels = remove id st.channels })
drop_channel-IsRouted {st} id v unused = record {
  hosts = v.hosts;
  ids = v.ids;
  standin = v.standin;
  backward = v.backward;
  forward = v.forward;
  routed = v.routed;
  known = λ a r h. let (p, e, good) = v.known a r h in (p, e, still a r p h good);
  numbered = λ j e h. v.numbered j e (lookup-remove-some id j e st.channels h).1;
}
  where
    still :
        (a : SocketAddr) (r : RouteWire) (p : Bytes)
        → lookup a st.routes ≡ some r
        → IsRouteTo st.channels p r
        → IsRouteTo (remove id st.channels) p r
    still a (relay key) p h good = tt
    still a (channel j) p h (e, found, same) = (
      e,
      lookup-remove_ne id j st.channels (λ (q : id ≡ j). absurd (unused a (rw q h))) ∙ found,
      same,
    )

-- The only route that can name a channel is that of its peer's standin.
pub route_of_channel :
    {st : Book} (id : ℕ) (entry : ChannelEntry) (a : SocketAddr)
    → IsRouted st
    → lookup id st.channels ≡ some entry
    → lookup a st.routes ≡ some (channel id)
    → lookup entry.peer st.peer_to_addr ≡ some a
route_of_channel {st} id entry a v found h =
    let (p, at, good) = v.known a (channel id) h in
    let (e, same, peer) = good in
    let whose : entry.peer ≡ p = ap_peer e same ∙ peer in rw whose (v.backward a p at)
  where
    ap_peer : (e : ChannelEntry) → lookup id st.channels ≡ some e → entry.peer ≡ e.peer
    ap_peer e same = cc

is_channel_self : (id : ℕ) → is_channel id (some (channel id)) ≡ true
unfolding is_channel
is_channel_self id = ground arith

module _ {st : Book} (id : ℕ) (entry : ChannelEntry) (a : SocketAddr) (v : IsRouted st)
    (found : lookup id st.channels ≡ some entry)
    (at : lookup entry.peer st.peer_to_addr ≡ some a) where
  here : (b : SocketAddr) → lookup b st.routes ≡ some (channel id) → a ≡ b
  here b h = cc (at, route_of_channel id entry b v found h)

  -- With the route of the peer's standin moved, no route names the channel.
  pub moved :
      (b : SocketAddr)
      → lookup b (insert a (relay entry.fallback_relay) st.routes) ≢ some (channel id)
  moved b h = elim (lookup-insert_cases a b (relay entry.fallback_relay) (channel id) st.routes h) [
    | inl (_, wrong) ↦ cc
    | inr (other, old) ↦ other (here b old)
  ]

  -- Nor with one that is not on the channel.
  pub unmoved :
      is_channel id (lookup a st.routes) ≡ false
      → (b : SocketAddr) → lookup b st.routes ≢ some (channel id)
  unmoved t b h = cc (t, is_channel_self id, on_channel)
    where
      on_channel : is_channel id (lookup a st.routes) ≡ is_channel id (some (channel id))
      on_channel = ap (is_channel id) (ap (λ (k : SocketAddr). lookup k st.routes) (here b h) ∙ h)
