-- ===== src/Endpoint/Pump/Channels.antt =====
-- The receives of the pump of endpoint/src/endpoint_impl.rs, against the channels.
use mathlib.Core.List.{Memᴰ}
use mathlib.Core.List.Memᴰ as Mem
use polymorph_iroh.Base.{
  ℕ, ◌≡◌, ◌≢◌, refl, ap, sym, subst, ◌∙◌, inl, inr, Bool, not, ◌&&◌, Option, none, some, List, [],
  ◌∷◌, ◌++◌, eqb, if_cases, if◌then◌else◌, Option-cases, Bool-cases, nat_key, bytes_key,
}
use polymorph_iroh.Base.Maps.{Map, lookup, lookup-remove-some}
use polymorph_iroh.Net.{addr_key}
use polymorph_iroh.Noq.{Noq}
use polymorph_iroh.Relay.{ProbeStep, healthy, ping, dead}
use polymorph_iroh.Endpoint.{State, ChannelEntry, home_relay, wake_waiters}
use polymorph_iroh.Endpoint.Wires.{Wires}
use polymorph_iroh.Endpoint.Routes.{retire_channel, return_route, is_channel}
use polymorph_iroh.Endpoint.Relays.{is_pool_current, retire_home, retire_relay, home_redialed}
use polymorph_iroh.Endpoint.Pump.{
  Pump, RelayEvent, datagram, relay_failed, arm_redial, lose_home, on_relay_sent, arm,
  on_relay_failed, on_relay_event, on_redial, on_verdict, sweep,
}
use polymorph_iroh.Endpoint.Pump.Guards.{on_payload-wires}

-- The channels, those to arm, and the receives that are armed.
abbrev pub Tuning : Type 0
Tuning = Map ℕ ChannelEntry × List (ℕ × ℕ) × List (ℕ × ℕ)

-- Each channel has a receive on its wire, armed or to be armed at the pump's next turn.
abbrev pub IsTunedTo : Tuning → Type 0
IsTunedTo t =
    (id : ℕ) (entry : ChannelEntry)
    → lookup id t.0 ≡ some entry
    → Memᴰ (id, entry.wire) (t.2 ++ t.1)

module _ {noq : Noq} where
  abbrev pub tuning : State noq × Pump → Tuning
  tuning r = (r.0.channels, r.0.new_channels, r.1.channel_recvs)

  abbrev pub IsTuned : State noq × Pump → Type 0
  IsTuned r = IsTunedTo (tuning r)

  pub same-IsTuned : (a b : State noq × Pump) → tuning b ≡ tuning a → IsTuned a → IsTuned b
  same-IsTuned a b e h = subst IsTunedTo (sym e) h

  -- The same, and the kick and the waker of the pump.
  abbrev pub carriage :
      State noq × Pump → Map ℕ ChannelEntry × List (ℕ × ℕ) × List (ℕ × ℕ) × Bool × Option ℕ
  carriage r = (r.0.channels, r.0.new_channels, r.1.channel_recvs, r.0.pump_kicked, r.0.pump_waker)

  pub carried-IsTuned : (a b : State noq × Pump) → carriage b ≡ carriage a → IsTuned a → IsTuned b
  carried-IsTuned a b e h =
      same-IsTuned a b
        (ap
          (λ (c : Map ℕ ChannelEntry × List (ℕ × ℕ) × List (ℕ × ℕ) × Bool × Option ℕ).
            (c.0, c.1, c.2))
          e)
        h

  -- What the relays' side of the pump does not touch.
  lose_home-carriage :
      (st : State noq) (p : Pump) (conn now : ℕ) (draw : Option ℕ)
      → carriage (lose_home st p conn now draw) ≡ carriage (st, p)
  unfolding lose_home retire_home arm_redial
  lose_home-carriage st p conn now draw =
      if_cases
        (λ (r : State noq × Bool).
          carriage (r.0, if r.1 then arm_redial p now draw else p) ≡ carriage (st, p))
        (is_pool_current st home_relay conn) _ _ (λ t. refl) (λ t. refl)

  pub on_relay_sent-carriage :
      (st : State noq) (p : Pump) (failed : Bool) (now : ℕ) (draw : Option ℕ) (key conn : ℕ)
      → carriage (on_relay_sent st p failed now draw key conn) ≡ carriage (st, p)
  unfolding on_relay_sent
  on_relay_sent-carriage st p failed now draw key conn =
      if_cases (λ r. carriage r ≡ carriage (st, p)) (failed && eqb key home_relay) _ _
        (λ t. lose_home-carriage st p conn now draw) (λ t. refl)

  on_relay_failed-carriage :
      (st : State noq) (p : Pump) (key conn now : ℕ) (draw : Option ℕ)
      → carriage (on_relay_failed st p key conn now draw) ≡ carriage (st, p)
  unfolding on_relay_failed retire_relay
  on_relay_failed-carriage st p key conn now draw =
      if_cases (λ r. carriage r ≡ carriage (st, p)) (not (is_pool_current st key conn)) _ _
        (λ t. refl)
        (λ t.
          if_cases (λ r. carriage r ≡ carriage (st, p)) (eqb key home_relay) _ _
            (λ v. lose_home-carriage st p conn now draw) (λ v. refl))

  pub on_relay_event-carriage :
      (st : State noq) (p : Pump) (key conn now : ℕ) (draw : Option ℕ) (event : RelayEvent)
      → carriage (on_relay_event st p key conn now draw event) ≡ carriage (st, p)
  unfolding on_relay_event
  on_relay_event-carriage st p key conn now draw (datagram source payload) =
      ap (λ (w : Wires). (w.3, w.4, p.channel_recvs, w.5, w.6))
        (on_payload-wires st now key source payload)
  on_relay_event-carriage st p key conn now draw relay_failed =
      on_relay_failed-carriage st p key conn now draw

  pub on_redial-carriage :
      (st : State noq) (p : Pump) (now : ℕ) (draw result : Option ℕ)
      → carriage (on_redial st p now draw result) ≡ carriage (st, p)
  unfolding on_redial home_redialed arm_redial wake_waiters
  on_redial-carriage st p now draw none =
      if_cases (λ (q : Pump). carriage (st, q) ≡ carriage (st, p)) st.is_closed _ _ (λ t. refl)
        (λ t. refl)
  on_redial-carriage st p now draw (some conn) = elim (Bool-cases st.is_closed) [
    | inl t ↦ rw (on_redial, home_redialed, t) refl
    | inr t ↦ rw (on_redial, home_redialed, t) refl
  ]

  on_verdict-carriage :
      (st : State noq) (p : Pump) (now : ℕ) (draw : Option ℕ) (key conn : ℕ) (v : ProbeStep)
      → carriage (on_verdict st p now draw key conn v) ≡ carriage (st, p)
  unfolding on_verdict retire_relay
  on_verdict-carriage st p now draw key conn healthy = refl
  on_verdict-carriage st p now draw key conn (ping payload) = refl
  on_verdict-carriage st p now draw key conn dead = elim (Bool-cases (eqb key home_relay)) [
    | inl t ↦ rw (on_verdict, t) (lose_home-carriage st p conn now draw)
    | inr t ↦ elim (Option-cases (lookup key st.relay_pool)) [
      | inl n ↦ rw (on_verdict, t, n) refl
      | inr (c, h) ↦ rw (on_verdict, t, h) refl
    ]
  ]

  pub sweep-carriage :
      (verdict : ℕ → ProbeStep) (pool : Map ℕ ℕ) (st : State noq) (p : Pump) (now : ℕ)
      (draw : Option ℕ)
      → carriage (sweep verdict pool st p now draw) ≡ carriage (st, p)
  unfolding sweep
  sweep-carriage verdict [] st p now draw = refl
  sweep-carriage verdict ((key, conn) ∷ pool) st p now draw =
      let r = on_verdict st p now draw key conn (verdict conn) in
      sweep-carriage verdict pool r.0 r.1 now draw
      ∙ on_verdict-carriage st p now draw key conn (verdict conn)

  pub armed-IsTuned : (st : State noq) (p : Pump) → IsTuned (st, p) → IsTuned (arm st p)
  unfolding arm
  armed-IsTuned st p h id entry there = Mem.append_left [] (h id entry there)

  -- The channels that are left when one is retired.
  pub retired :
      (st : State noq) (id : ℕ)
      → ((retire_channel st id).new_channels ≡ st.new_channels)
        × ((other : ℕ) (entry : ChannelEntry)
            → lookup other (retire_channel st id).channels ≡ some entry
            → (id ≢ other) × (lookup other st.channels ≡ some entry))
  unfolding retire_channel return_route
  retired st id = elim (Option-cases (lookup id st.channels)) [
    | inl n ↦
        rw (retire_channel, n)
          (
            refl,
            λ other entry h. (λ same. cc (subst (λ k. lookup k st.channels ≡ none) same n, h), h),
          )
    | inr (gone, there) ↦ elim (Option-cases (lookup gone.peer st.peer_to_addr)) [
      | inl n ↦
          rw (retire_channel, there, return_route, n)
            (refl, λ other entry h. lookup-remove-some id other entry st.channels h)
      | inr (a, k) ↦
          rw (retire_channel, there, return_route, k)
            (if_cases
              (λ (r : State noq).
                (r.new_channels ≡ st.new_channels)
                × ((other : ℕ) (entry : ChannelEntry)
                    → lookup other r.channels ≡ some entry
                    → (id ≢ other) × (lookup other st.channels ≡ some entry)))
              (is_channel id (lookup a st.routes)) _ _
              (λ t. (refl, λ other entry h. lookup-remove-some id other entry st.channels h))
              (λ t. (refl, λ other entry h. lookup-remove-some id other entry st.channels h)))
    ]
  ]
