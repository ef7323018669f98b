-- ===== src/Endpoint/Pump/Guards.antt =====
-- The redial and the home relay in the pool, under each step of the pump.
use polymorph_iroh.Base.{
  ℕ, ◌≡◌, refl, sym, ap, subst, ◌∙◌, ◌⊎◌, inl, inr, Bool, true, false, not, ◌&&◌, Option, none,
  some, List, [], ◌∷◌, ◌++◌, Bytes, eqb, eqb_iff, is_some, if◌then◌else◌, if_cases, Bool-cases,
  Option-cases, nat_key, bytes_key,
}
use polymorph_iroh.Net.{addr_key}
use polymorph_iroh.Base.Maps.{
  Map, lookup, remove, lookup-insert_self, lookup-remove_self, lookup-remove_ne,
}
use polymorph_iroh.Noq.{Noq}
use polymorph_iroh.Relay.{ProbeStep, healthy, ping, dead}
use polymorph_iroh.Endpoint.Wires.{pool_of, wires_of, pool-wires}
use polymorph_iroh.Endpoint.{State, home_relay, wake_waiters}
use polymorph_iroh.Endpoint.Routes.{retire_channel, return_route, is_channel}
use polymorph_iroh.Endpoint.Signaling.Frame.{handle_signal-wires}
use polymorph_iroh.Endpoint.Conns.{handle_channel_datagram}
use polymorph_iroh.Endpoint.Conns.Frame.{handle_relay_datagram-wires, handle_channel_datagram-wires}
use polymorph_iroh.Endpoint.Relays.{is_pool_current, retire_home, retire_relay, home_redialed}
use polymorph_iroh.Endpoint.Pump.{
  Pump, RelayEvent, datagram, relay_failed, signal_of, arm_redial, lose_home, on_relay_sent, arm,
  on_payload, on_relay_failed, on_relay_event, rearm_channel, on_channel_event, on_redial,
  on_verdict, sweep,
}

-- A redial is in flight exactly while the home relay is out of the pool, unless all is closed.
abbrev pub IsGuarded : Map ℕ ℕ × Bool × List (ℕ × ℕ) → Option ℕ → Type 0
IsGuarded at redial =
    (at.1 ≡ true)
    ⊎ ((lookup home_relay at.0 ≡ none) × (is_some redial ≡ true)
        ⊎ (is_some (lookup home_relay at.0) ≡ true) × (redial ≡ none))

module _ {noq : Noq} where
  abbrev pub Guards : State noq × Pump → Type 0
  Guards r = IsGuarded (pool_of r.0) r.1.redial

  pub same_pool :
      (st next : State noq) (p : Pump)
      → pool_of next ≡ pool_of st
      → Guards (st, p)
      → Guards (next, p)
  same_pool st next p e g = subst (λ at. IsGuarded at p.redial) (sym e) g

  current_home :
      (st : State noq) (key conn : ℕ)
      → is_pool_current st key conn ≡ true
      → is_some (lookup key st.relay_pool) ≡ true
  unfolding is_pool_current
  current_home st key conn h = elim (Option-cases (lookup key st.relay_pool)) [
    | inl n ↦ absurd (cc (h, absent n))
    | inr (c, there) ↦ rw there refl
  ]
    where
      absent : lookup key st.relay_pool ≡ none → is_pool_current st key conn ≡ false
      absent n = rw (is_pool_current, n) refl

  lose_home-Guards :
      (st : State noq) (p : Pump) (conn now : ℕ) (draw : Option ℕ)
      → Guards (st, p)
      → Guards (lose_home st p conn now draw)
  unfolding lose_home retire_home arm_redial
  lose_home-Guards st p conn now draw g =
      if_cases (λ (r : State noq × Bool). Guards (r.0, if r.1 then arm_redial p now draw else p))
        (is_pool_current st home_relay conn) _ _ (λ t. lost g) (λ t. g)
    where
      lost :
          Guards (st, p)
          → IsGuarded
              (remove home_relay st.relay_pool, st.is_closed, st.new_relays)
              (arm_redial p now draw).redial
      lost (inl over) = inl over
      lost (inr other) = inr (inl (lookup-remove_self home_relay st.relay_pool, refl))

  retire_relay-Guards :
      (st : State noq) (p : Pump) (key : ℕ)
      → eqb key home_relay ≡ false
      → Guards (st, p)
      → IsGuarded (remove key st.relay_pool, st.is_closed, st.new_relays) p.redial
  retire_relay-Guards st p key foreign g =
      let same =
        lookup-remove_ne key home_relay st.relay_pool
          (λ e. cc (foreign, (eqb_iff key home_relay).1 e)) in
      elim g [
        | inl over ↦ inl over
        | inr (inl (gone, armed)) ↦ inr (inl (same ∙ gone, armed))
        | inr (inr (there, idle)) ↦ inr (inr (ap is_some same ∙ there, idle))
      ]

  pub on_relay_sent-Guards :
      (st : State noq) (p : Pump) (failed : Bool) (now : ℕ) (draw : Option ℕ) (key conn : ℕ)
      → Guards (st, p)
      → Guards (on_relay_sent st p failed now draw key conn)
  unfolding on_relay_sent
  on_relay_sent-Guards st p failed now draw key conn g =
      if_cases Guards (failed && eqb key home_relay) _ _
        (λ t. lose_home-Guards st p conn now draw g) (λ t. g)

  pub arm-Guards : (st : State noq) (p : Pump) → Guards (st, p) → Guards (arm st p)
  unfolding arm
  arm-Guards st p g = g

  on_relay_failed-Guards :
      (st : State noq) (p : Pump) (key conn now : ℕ) (draw : Option ℕ)
      → Guards (st, p)
      → Guards (on_relay_failed st p key conn now draw)
  unfolding on_relay_failed retire_relay
  on_relay_failed-Guards st p key conn now draw g =
      if_cases Guards (not (is_pool_current st key conn)) _ _ (λ t. g)
        (λ t.
          if_cases Guards (eqb key home_relay) _ _ (λ v. lose_home-Guards st p conn now draw g)
            (λ v. retire_relay-Guards st p key v g))

  pub on_payload-wires :
      (st : State noq) (now key : ℕ) (source payload : Bytes)
      → wires_of (on_payload st now key source payload) ≡ wires_of st
  unfolding on_payload
  on_payload-wires st now key source payload = elim (Option-cases (signal_of payload)) [
    | inl n ↦ rw (on_payload, n) (handle_relay_datagram-wires st now key source payload)
    | inr (signal, h) ↦ rw (on_payload, h) (handle_signal-wires st key source signal)
  ]

  pub on_relay_event-Guards :
      (st : State noq) (p : Pump) (key conn now : ℕ) (draw : Option ℕ) (event : RelayEvent)
      → Guards (st, p)
      → Guards (on_relay_event st p key conn now draw event)
  unfolding on_relay_event
  on_relay_event-Guards st p key conn now draw (datagram source payload) g =
      same_pool st (on_payload st now key source payload) p
        (pool-wires st (on_payload st now key source payload)
          (on_payload-wires st now key source payload))
        g
  on_relay_event-Guards st p key conn now draw relay_failed g =
      on_relay_failed-Guards st p key conn now draw g

  pub on_redial-Guards :
      (st : State noq) (p : Pump) (now : ℕ) (draw : Option ℕ) (result : Option ℕ)
      → is_some p.redial ≡ true
      → Guards (st, p)
      → Guards (on_redial st p now draw result)
  unfolding on_redial home_redialed arm_redial wake_waiters
  on_redial-Guards st p now draw (some conn) armed g =
      if_cases
        (λ (r : State noq × Bool).
          IsGuarded (pool_of r.0) (if r.1 then installed else record p { redial = none }).redial)
        st.is_closed _ _ (λ t. inl t)
        (λ t. inr (inr (ap is_some (lookup-insert_self home_relay conn st.relay_pool), refl)))
    where
      installed : Pump
      installed = record p {
        relay_recvs = p.relay_recvs ++ ((home_relay, conn) ∷ []);
        redial = none;
        backoff = record { attempt = 0; home_since = some now };
      }
  on_redial-Guards st p now draw none armed (inl over) = inl over
  on_redial-Guards st p now draw none armed (inr (inl (gone, _))) =
      if_cases (λ (q : Pump). IsGuarded (pool_of st) q.redial) st.is_closed _ _ (λ t. inl t)
        (λ t. inr (inl (gone, refl)))
  on_redial-Guards st p now draw none armed (inr (inr (there, idle))) =
      absurd (cc (armed, ap is_some idle))

  on_verdict-Guards :
      (st : State noq) (p : Pump) (now : ℕ) (draw : Option ℕ) (key conn : ℕ) (v : ProbeStep)
      → Guards (st, p)
      → Guards (on_verdict st p now draw key conn v)
  unfolding on_verdict retire_relay
  on_verdict-Guards st p now draw key conn healthy g = g
  on_verdict-Guards st p now draw key conn (ping payload) g = g
  on_verdict-Guards st p now draw key conn dead g = elim (Bool-cases (eqb key home_relay)) [
    | inl t ↦ rw (on_verdict, t) (lose_home-Guards st p conn now draw g)
    | inr t ↦ elim (Option-cases (lookup key st.relay_pool)) [
      | inl n ↦ rw (on_verdict, t, n) (retire_relay-Guards st p key t g)
      | inr (c, h) ↦ rw (on_verdict, t, h) (retire_relay-Guards st p key t g)
    ]
  ]

  pub sweep-Guards :
      (verdict : ℕ → ProbeStep) (pool : Map ℕ ℕ) (st : State noq) (p : Pump) (now : ℕ)
      (draw : Option ℕ)
      → Guards (st, p)
      → Guards (sweep verdict pool st p now draw)
  unfolding sweep
  sweep-Guards verdict [] st p now draw g = g
  sweep-Guards verdict ((key, conn) ∷ pool) st p now draw g =
      let r = on_verdict st p now draw key conn (verdict conn) in
      sweep-Guards verdict pool r.0 r.1 now draw
        (on_verdict-Guards st p now draw key conn (verdict conn) g)

  pub retire_channel-pool : (st : State noq) (id : ℕ) → pool_of (retire_channel st id) ≡ pool_of st
  unfolding retire_channel return_route
  retire_channel-pool st id = elim (Option-cases (lookup id st.channels)) [
    | inl n ↦ rw (retire_channel, n) refl
    | inr (entry, h) ↦ elim (Option-cases (lookup entry.peer st.peer_to_addr)) [
      | inl n ↦ rw (retire_channel, h, return_route, n) refl
      | inr (a, k) ↦
          rw (retire_channel, h, return_route, k)
            (if_cases (λ (r : State noq). pool_of r ≡ pool_of st)
              (is_channel id (lookup a st.routes)) _ _ (λ t. refl) (λ t. refl))
    ]
  ]

  rearm_channel-redial :
      (st : State noq) (p : Pump) (id : ℕ) → (rearm_channel st p id).redial ≡ p.redial
  unfolding rearm_channel
  rearm_channel-redial st p id = elim (Option-cases (lookup id st.channels)) [
    | inl n ↦ rw (rearm_channel, n) refl
    | inr (entry, h) ↦ rw (rearm_channel, h) refl
  ]

  pub on_channel_event-Guards :
      (st : State noq) (p : Pump) (id now : ℕ) (event : Option (Option Bytes))
      → Guards (st, p)
      → Guards (on_channel_event st p id now event)
  unfolding on_channel_event
  on_channel_event-Guards st p id now none g =
      same_pool st (retire_channel st id) p (retire_channel-pool st id) g
  on_channel_event-Guards st p id now (some none) g =
      subst (IsGuarded (pool_of st)) (sym (rearm_channel-redial st p id)) g
  on_channel_event-Guards st p id now (some (some bytes)) g =
      subst (IsGuarded (pool_of (handle_channel_datagram st now id bytes)))
        (sym (rearm_channel-redial st p id))
        (same_pool st (handle_channel_datagram st now id bytes) p
          (pool-wires st (handle_channel_datagram st now id bytes)
            (handle_channel_datagram-wires st now id bytes))
          g)
