-- ===== src/Endpoint/Bind/Opened.antt =====
-- What `bind` of endpoint/src/endpoint_impl.rs leaves behind, for the components that run from there.
use mathlib.Core.List.{Memᴰ}
use polymorph_iroh.Base.{
  ℕ, ◌≡◌, ◌↔◌, refl, ap, sym, subst, Bool, true, false, Option, none, some, [], Bytes, ◌⊎◌, inl,
  inr, ◌∙◌, ◌++◌, is_some, nat_key, bytes_key,
}
use polymorph_iroh.Base.Maps.{lookup, lookup-insert_self, lookup-insert_cases}
use polymorph_iroh.Noq.{Noq}
use polymorph_iroh.Identity.{Crypto}
use polymorph_iroh.Udp.{Sockets, UdpWire}
use polymorph_iroh.Endpoint.{State, Error, home_relay, new_state, kick_pump}
use polymorph_iroh.Endpoint.Routes.Reach.{Routing, begun}
use polymorph_iroh.Endpoint.Signaling.Inbox.{IsBounded}
use polymorph_iroh.Endpoint.Relays.{
  DialOutcome, opened, dial_timed_out, dial_failed, register_relay,
}
use polymorph_iroh.Endpoint.Relays.Reach.{Pooling, bound}
use polymorph_iroh.Endpoint.Pump.Losses.{Listened}
use polymorph_iroh.Endpoint.Pump.Loop.{Spot, at, draining}
use polymorph_iroh.Endpoint.Pump.Loop.Runs.{
  Looping, run-Guards, run-IsHeard, run-IsTuned, Guards-iff,
}
use polymorph_iroh.Endpoint.Pump.Channels.{IsTuned}
use polymorph_iroh.Endpoint.Bind.{
  Options, BindEnv, Endpoint, ◌>>=◌, require_url, require_alpn, of_dial, bind_udp, make_engine,
  bound_at, bind,
}

module _ (noq : Noq) where
  abbrev pub started : noq.Engine → Bool → Bytes → ℕ → State noq
  started engine webrtc url relay = (register_relay (new_state noq engine webrtc) url relay).0

  home_there :
      (engine : noq.Engine) (webrtc : Bool) (url : Bytes) (relay : ℕ)
      → lookup home_relay (started engine webrtc url relay).relay_pool ≡ some relay
  unfolding register_relay kick_pump
  home_there engine webrtc url relay = lookup-insert_self home_relay relay []

  -- The home relay waits to be armed.
  started-Listened :
      (engine : noq.Engine) (webrtc : Bool) (url : Bytes) (relay : ℕ)
      → Listened
          (started engine webrtc url relay).relay_pool
          (started engine webrtc url relay).new_relays
  unfolding register_relay kick_pump lookup
  started-Listened engine webrtc url relay key conn h =
      elim (lookup-insert_cases home_relay key relay conn [] h) [
        | inl (same, value) ↦
            Memᴰ.head (sym (ap (λ v. (home_relay, v)) value ∙ ap (λ k. (k, conn)) same))
        | inr (_, old) ↦ absurd cc
      ]

  started-Routing :
      (engine : noq.Engine) (webrtc : Bool) (url : Bytes) (relay : ℕ)
      → Routing (started engine webrtc url relay)
  unfolding register_relay kick_pump
  started-Routing engine webrtc url relay = begun _ engine webrtc refl

  started-IsBounded :
      (engine : noq.Engine) (webrtc : Bool) (url : Bytes) (relay : ℕ)
      → IsBounded (started engine webrtc url relay).signal_inboxes
  unfolding register_relay kick_pump lookup
  started-IsBounded engine webrtc url relay peer inbox e = absurd cc

module _ {noq : Noq} {c : Crypto} (env : BindEnv noq c) (u : Sockets) where
  bind-inr :
      {A B : Type 0} (m : Error ⊎ A) (f : A → Error ⊎ B) (b : B)
      → ◌>>=◌ env u m f ≡ inr b
      → (a : A) × (m ≡ inr a) × (f a ≡ inr b)
  bind-inr (inl e) f b h = absurd cc
  bind-inr (inr a) f b h = (a, refl, h)

  of_dial_opened :
      (outcome : DialOutcome) (relay : ℕ)
      → of_dial env u outcome ≡ inr relay
      → outcome ≡ opened relay
  unfolding of_dial
  of_dial_opened (opened conn) relay h = ap opened (cc h)
  of_dial_opened dial_timed_out relay h = absurd cc
  of_dial_opened (dial_failed e) relay h = absurd cc

  require_url_given :
      (given : Option Bytes) (url : Bytes) → require_url env u given ≡ inr url → given ≡ some url
  unfolding require_url
  require_url_given none url h = absurd cc
  require_url_given (some at) url h = ap some (cc h)

  -- Every way that `bind` succeeds.
  pub bind_inverts :
      (o : Options c) (e : Endpoint noq c u)
      → bind env u o ≡ inr e
      → (url : Bytes) × (relay : ℕ) × (engine : noq.Engine) × (udp : Option (UdpWire u))
        × (o.relay_url ≡ some url)
        × (env.dial_relay url o.identity ≡ opened relay)
        × (bound_at env u o url relay engine udp ≡ e)
  unfolding bind
  bind_inverts o e h =
      let (url, given, h1) = bind-inr (require_url env u o.relay_url) _ e h in
      let (_, _, h2) = bind-inr (require_alpn env u o.alpns) _ e h1 in
      let (relay, dialled, h3) = bind-inr (of_dial env u (env.dial_relay url o.identity)) _ e h2 in
      let (engine, _, h4) = bind-inr (make_engine env u o) _ e h3 in
      let (udp, _, h5) = bind-inr (bind_udp env u o.udp_bind_addr) _ e h4 in
      (
        url,
        relay,
        engine,
        udp,
        require_url_given o.relay_url url given,
        of_dial_opened (env.dial_relay url o.identity) relay dialled,
        cc h5,
      )

  -- A bound endpoint has the relay that its options name, dialed with its identity, as its home
  -- relay in the pool, and it is a starting point of the pool's and of the routes' runs, with no
  -- inbox above its bound.
  pub bind_starts :
      (o : Options c) (e : Endpoint noq c u)
      → bind env u o ≡ inr e
      → (url : Bytes) × (relay : ℕ) × (o.relay_url ≡ some url)
        × (env.dial_relay url o.identity ≡ opened relay)
        × (lookup home_relay e.shared.relay_pool ≡ some relay)
        × Pooling e.shared
        × Routing e.shared
        × IsBounded e.shared.signal_inboxes
  unfolding bound_at
  bind_starts o e h =
      let (url, relay, engine, udp, given, dialled, same) = bind_inverts o e h in
      let shape : started noq engine o.webrtc url relay ≡ e.shared = ap (λ x. x.shared) same in
      (
        url,
        relay,
        given,
        dialled,
        subst (λ st. lookup home_relay st.relay_pool ≡ some relay) shape
            (home_there noq engine o.webrtc url relay),
        subst Pooling shape (bound engine o.webrtc url relay),
        subst Routing shape (started-Routing noq engine o.webrtc url relay),
        subst (λ st. IsBounded st.signal_inboxes) shape
            (started-IsBounded noq engine o.webrtc url relay),
      )

  -- The pump as `bind` spawns it.
  abbrev pub spawned : Endpoint noq c u → Spot noq
  spawned e = at draining (e.shared, e.pump)

  pump_idles : (o : Options c) (e : Endpoint noq c u) → bind env u o ≡ inr e → e.pump.redial ≡ none
  unfolding bound_at
  pump_idles o e h =
      let (_, _, _, _, _, _, same) = bind_inverts o e h in sym (ap (λ x. x.pump.redial) same)

  -- From `bind` on, whatever the steps of the pump's loop meet, and whatever the other tasks do
  -- between them within `Elsewhere`, that is, except moving the home relay, registering a relay
  -- under its key, adding a wire or changing those to be armed other than by registering one,
  -- reopening the endpoint, or touching the kick and the waker of the pump other than by a kick, an
  -- endpoint that is still open lacks its home relay exactly while a redial of it is in flight.
  pub bound_redials :
      (o : Options c) (e : Endpoint noq c u) (last : Spot noq)
      → bind env u o ≡ inr e
      → Looping (spawned e) last
      → last.pair.0.is_closed ≡ false
      → (lookup home_relay last.pair.0.relay_pool ≡ none) ↔ (is_some last.pair.1.redial ≡ true)
  bound_redials o e last h run up =
      let (_, _, _, _, there, _, _, _) = bind_starts o e h in
      Guards-iff last.pair.0 last.pair.1 up
        (run-Guards (spawned e) last (inr (inr (ap is_some there, pump_idles o e h))) run)

  -- From `bind` on, whatever the steps of the pump's loop meet, and whatever the other tasks do
  -- between them within `Elsewhere`, that is, except moving the home relay, registering a relay
  -- under its key, adding a wire or changing those to be armed other than by registering one,
  -- reopening the endpoint, or touching the kick and the waker of the pump other than by a kick,
  -- every relay of the pool and every channel has its receive armed, or to be armed at the pump's
  -- next turn.
  pub bound_listens :
      (o : Options c) (e : Endpoint noq c u) (last : Spot noq)
      → bind env u o ≡ inr e
      → Looping (spawned e) last
      → Listened last.pair.0.relay_pool (last.pair.1.relay_recvs ++ last.pair.0.new_relays)
        × IsTuned last.pair
  unfolding bound_at register_relay kick_pump lookup
  bound_listens o e last h run =
      let (url, relay, engine, udp, _, _, same) = bind_inverts o e h in
      (
        run-IsHeard (spawned e) last
            (subst
              (λ (x : Endpoint noq c u).
                Listened x.shared.relay_pool (x.pump.relay_recvs ++ x.shared.new_relays))
              same (started-Listened noq engine o.webrtc url relay))
            run,
        run-IsTuned (spawned e) last
            (subst (λ (x : Endpoint noq c u). IsTuned (x.shared, x.pump)) same
              (λ id entry there. absurd cc))
            run,
      )
