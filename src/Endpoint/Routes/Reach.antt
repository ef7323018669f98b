-- ===== src/Endpoint/Routes/Reach.antt =====
-- The address book and the route table along sequences of dials, arrivals, channels and their ends,
-- in endpoint/src/endpoint_impl.rs.
use polymorph_iroh.Base.{
  ℕ, ◌+◌, ◌^◌, ◌<◌, ◌≡◌, refl, subst, sym, Bool, Option, none, some, ◌⊎◌, inl, inr, if_cases,
  Option-cases, Bytes, nat_key, bytes_key, arith,
}
use polymorph_iroh.Base.Maps.{lookup}
use polymorph_iroh.Net.{SocketAddr, addr_key}
use polymorph_iroh.Noq.{Noq}
use polymorph_iroh.Endpoint.{State, Error, relay, channel, kick_pump, new_state}
use polymorph_iroh.Endpoint.Dial.{follow_dial, remote_of, on_dialled, dial}
use polymorph_iroh.Endpoint.Routes.Book.{set_route-IsRouted}
use polymorph_iroh.Endpoint.Routes.{addr_for_peer, register_channel, retire_channel}
use polymorph_iroh.Endpoint.Routes.Invariant.{IsRouted, book}
use polymorph_iroh.Endpoint.Routes.Steps.{
  addr_for_peer-IsRouted, register_channel-IsRouted, retire_channel-IsRouted,
}

pub new_state-IsRouted :
    (noq : Noq) (engine : noq.Engine) (webrtc : Bool)
    → IsRouted (book (new_state noq engine webrtc))
unfolding lookup
new_state-IsRouted noq engine webrtc = record {
  hosts = omega arith;
  ids = omega arith;
  standin = λ a p h. absurd cc;
  backward = λ a p h. absurd cc;
  forward = λ p a h. absurd cc;
  routed = λ a p h. absurd cc;
  known = λ a r h. absurd cc;
  numbered = λ id e h. absurd cc;
}

module _ {noq : Noq} where
  follow_dial-IsRouted :
      (st : State noq) (standin : SocketAddr) (peer : Bytes) (key : ℕ)
      → IsRouted (book st)
      → lookup standin st.addr_to_peer ≡ some peer
      → IsRouted (book (follow_dial st standin key))
  unfolding follow_dial
  follow_dial-IsRouted st standin peer key v at = elim (Option-cases (lookup standin st.routes)) [
    | inl n ↦ rw (follow_dial, n) v
    | inr (channel id, e) ↦ rw (follow_dial, e) v
    | inr (relay old, e) ↦ rw (follow_dial, e) (set_route-IsRouted standin peer (relay key) v at tt)
  ]

  remote_of-IsRouted :
      (st : State noq) (peer : Bytes) (direct : Option SocketAddr) (key : ℕ)
      → IsRouted (book st)
      → st.next_host + 1 < 2 ^ 32
      → IsRouted (book (remote_of st peer direct key).0)
  unfolding remote_of
  remote_of-IsRouted st peer (some real) key v room = v
  remote_of-IsRouted st peer none key v room =
      let (w, at) = addr_for_peer-IsRouted st peer key v room in
      follow_dial-IsRouted (addr_for_peer st peer key).0 (addr_for_peer st peer key).1 peer key w at

  on_dialled-book :
      (st : State noq) (peer : Bytes) (upgrade_key : Option ℕ) (result : Bytes ⊎ (ℕ × noq.Conn))
      → book (on_dialled st peer upgrade_key result).0 ≡ book st
  unfolding on_dialled kick_pump
  on_dialled-book st peer upgrade_key (inl text) = refl
  on_dialled-book st peer upgrade_key (inr (handle, conn)) = refl

  dial-IsRouted :
      (st : State noq) (now : ℕ) (config : noq.Config) (peer : Bytes) (direct : Option SocketAddr)
      (dial_key : ℕ) (upgrade_key : Option ℕ)
      → IsRouted (book st)
      → st.next_host + 1 < 2 ^ 32
      → IsRouted (book (dial st now config peer direct dial_key upgrade_key).0)
  unfolding dial
  dial-IsRouted st now config peer direct dial_key upgrade_key v room =
      let (seen, remote) = remote_of st peer direct dial_key in
      let (engine, result) = noq.connect seen.engine now config remote in
      if_cases (λ (r : State noq × (Error ⊎ (ℕ × ℕ))). IsRouted (book r.0)) st.is_closed _ _
        (λ t. v)
        (λ t.
          subst IsRouted
            (sym (on_dialled-book (record seen { engine = engine }) peer upgrade_key result))
            (remote_of-IsRouted st peer direct dial_key v room))

  -- One operation on the book: an arriving peer gets its standin address, a dial finds or makes one
  -- and moves its route to the relay that it goes through, unless it is on a channel, or a channel
  -- is registered or retired; neither standins nor channel ids run out. Or something else that
  -- leaves the book as it is.
  pub data RouteStep (st : State noq) : State noq → Type 0 where
    sees :
        (peer : Bytes) (via : ℕ)
        → st.next_host + 1 < 2 ^ 32
        → RouteStep st (addr_for_peer st peer via).0
    dials :
        (now : ℕ) (config : noq.Config) (peer : Bytes) (direct : Option SocketAddr) (dial_key : ℕ)
        (upgrade_key : Option ℕ)
        → st.next_host + 1 < 2 ^ 32
        → RouteStep st (dial st now config peer direct dial_key upgrade_key).0
    registers :
        (peer : Bytes) (wire : ℕ)
        → st.next_host + 1 < 2 ^ 32
        → st.next_channel_id + 1 < 2 ^ 32
        → RouteStep st (register_channel st peer wire).0
    retires : (id : ℕ) → RouteStep st (retire_channel st id)
    elsewhere : (next : State noq) → book next ≡ book st → RouteStep st next

  -- A new endpoint's state and what becomes of it.
  pub data Routing : State noq → Type 0 where
    begun :
        (first : State noq) (engine : noq.Engine) (webrtc : Bool)
        → book first ≡ book (new_state noq engine webrtc)
        → Routing first
    step : (st next : State noq) → Routing st → RouteStep st next → Routing next

  RouteStep-IsRouted :
      (st next : State noq) → RouteStep st next → IsRouted (book st) → IsRouted (book next)
  RouteStep-IsRouted st _ (sees peer via room) v = (addr_for_peer-IsRouted st peer via v room).0
  RouteStep-IsRouted st _ (dials now config peer direct dial_key upgrade_key room) v =
      dial-IsRouted st now config peer direct dial_key upgrade_key v room
  RouteStep-IsRouted st _ (registers peer wire room space) v =
      register_channel-IsRouted st peer wire v room space
  RouteStep-IsRouted st _ (retires id) v = retire_channel-IsRouted st id v
  RouteStep-IsRouted st next (elsewhere _ same) v = subst IsRouted (sym same) v

  -- In every endpoint that dials peers, directly or through a relay, is met by peers, and opens and
  -- loses channels, in any order and among operations that leave the book as it is, while standin
  -- addresses and channel ids do not run out, the address book is a bijection between peers and
  -- numbered standins, every standin has a route, every route belongs to a known peer, and a route
  -- onto a channel leads to an open channel with that very peer.
  pub routes_sound : (st : State noq) → Routing st → IsRouted (book st)
  routes_sound st (begun _ engine webrtc same) =
      subst IsRouted (sym same) (new_state-IsRouted noq engine webrtc)
  routes_sound next (step st _ before s) = RouteStep-IsRouted st next s (routes_sound st before)
