-- ===== src/Endpoint/Pump/Loop/Stable.antt =====
-- Facts about the state and the locals of the pump that each step of its loop keeps.
use polymorph_iroh.Base.{
  ℕ, ◌≡◌, refl, ap, subst, Bool, true, false, ◌||◌, Option, none, some, List, [], ◌∷◌, Bytes,
  is_some, if_cases, Option-cases, nat_key, inl, inr,
}
use polymorph_iroh.Base.Maps.{Map, lookup}
use polymorph_iroh.Net.{SocketAddr}
use polymorph_iroh.Noq.{Noq}
use polymorph_iroh.Relay.{ProbeStep}
use polymorph_iroh.Endpoint.{State, wake_waiters}
use polymorph_iroh.Endpoint.Drain.{drain}
use polymorph_iroh.Endpoint.Drain.Frame.{Kept, drain-kept}
use polymorph_iroh.Endpoint.Conns.{handle_timeouts, handle_udp_datagram}
use polymorph_iroh.Endpoint.Conns.Frame.{handle_timeouts-wires, handle_udp_datagram-wires}
use polymorph_iroh.Endpoint.Pump.{
  Pump, RelayEvent, on_relay_sent, arm, is_done, on_relay_event, on_udp_event, on_channel_event,
  on_redial, sweep, on_tick, teardown,
}
use polymorph_iroh.Endpoint.Wires.{wires_of}
use polymorph_iroh.Endpoint.Pump.Loop.{
  Phase, draining, relaying, udp_flush, channel_flush, arming, selecting, left, sending, PumpEvent,
  relay_ends, udp_ends, channel_ends, redial_ends, kicked, ticks, pends, Moment, pick, Spot,
  after_drain, flush_relay, flush_udp, flush_channel, after_arm, select, pump_step,
}

-- What a fact may look at, of the locals.
abbrev pub seen_of : Pump → List (ℕ × ℕ) × Option ℕ × List (ℕ × ℕ)
seen_of p = (p.relay_recvs, p.redial, p.channel_recvs)

module _ {noq : Noq} where
  -- A fact about the wires, their receives and the redial, with what it takes to be kept.
  pub record IsStable (P : State noq × Pump → Type 0) : Type 0 where
    pub same :
        (st next : State noq) (p q : Pump)
        → wires_of next ≡ wires_of st
        → seen_of q ≡ seen_of p
        → P (st, p)
        → P (next, q)
    pub sent :
        (st : State noq) (p : Pump) (failed : Bool) (now : ℕ) (draw : Option ℕ) (key conn : ℕ)
        → P (st, p)
        → P (on_relay_sent st p failed now draw key conn)
    pub armed : (st : State noq) (p : Pump) → P (st, p) → P (arm st p)
    pub relayed :
        (st : State noq) (p : Pump) (n key conn now : ℕ) (rest : List (ℕ × ℕ)) (draw : Option ℕ)
        (event : RelayEvent)
        → pick n p.relay_recvs ≡ some ((key, conn), rest)
        → P (st, p)
        → P (on_relay_event st (record p { relay_recvs = rest }) key conn now draw event)
    pub channelled :
        (st : State noq) (p : Pump) (n id wire now : ℕ) (rest : List (ℕ × ℕ))
        (event : Option (Option Bytes))
        → pick n p.channel_recvs ≡ some ((id, wire), rest)
        → P (st, p)
        → P (on_channel_event st (record p { channel_recvs = rest }) id now event)
    pub redialled :
        (st : State noq) (p : Pump) (now : ℕ) (draw result : Option ℕ)
        → is_some p.redial ≡ true
        → P (st, p)
        → P (on_redial st p now draw result)
    pub swept :
        (verdict : ℕ → ProbeStep) (pool : Map ℕ ℕ) (st : State noq) (p : Pump) (now : ℕ)
        (draw : Option ℕ)
        → P (st, p)
        → P (sweep verdict pool st p now draw)
    pub parked :
        (st : State noq) (p : Pump) (waker : ℕ)
        → st.pump_kicked ≡ false
        → P (st, p)
        → P (record st { pump_waker = some waker }, p)

  -- What a fact takes besides, where the select takes a kick.
  abbrev pub Calms : (State noq × Pump → Type 0) → PumpEvent → Type 0
  Calms P event =
      event ≡ kicked
      → (st : State noq) (p : Pump) → P (st, p)
      → P (record st { pump_kicked = false }, p)

  -- The fact, of a step that there is.
  abbrev Holds : (State noq × Pump → Type 0) → Option (Spot noq) → Type 0
  Holds P none = Unit {0}
  Holds P (some r) = P r.pair

  -- The flushes do not change the pool.
  flush_relay-wires :
      (st : State noq) (items : List (ℕ × Bytes × Bytes))
      → wires_of (flush_relay st items).1 ≡ wires_of st
  unfolding flush_relay
  flush_relay-wires st [] = refl
  flush_relay-wires st ((key, peer, payload) ∷ items) =
      elim (Option-cases (lookup key st.relay_pool)) [
        | inl n ↦ rw (flush_relay, n) refl
        | inr (conn, h) ↦ rw (flush_relay, h) refl
      ]

  flush_udp-wires :
      (st : State noq) (has_udp : Bool) (items : List (SocketAddr × Bytes))
      → wires_of (flush_udp st has_udp items).1 ≡ wires_of st
  unfolding flush_udp
  flush_udp-wires st has_udp [] = refl
  flush_udp-wires st false ((remote, payload) ∷ items) = refl
  flush_udp-wires st true ((remote, payload) ∷ items) = refl

  flush_channel-wires :
      (st : State noq) (items : List (ℕ × Bytes))
      → wires_of (flush_channel st items).1 ≡ wires_of st
  unfolding flush_channel
  flush_channel-wires st [] = refl
  flush_channel-wires st ((id, payload) ∷ items) = elim (Option-cases (lookup id st.channels)) [
    | inl n ↦ rw (flush_channel, n) refl
    | inr (entry, h) ↦ rw (flush_channel, h) refl
  ]

  module _ (P : State noq × Pump → Type 0) (s : IsStable P) where
    pool_same :
        (st next : State noq) (p : Pump) → wires_of next ≡ wires_of st → P (st, p) → P (next, p)
    pool_same st next p e h = s.same st next p p e refl h

    drain-Holds :
        (st : State noq) (p : Pump) (r : Option (State noq × Bool))
        → ((next : State noq) (progress : Bool)
            → r ≡ some (next, progress)
            → wires_of next ≡ wires_of st)
        → P (st, p)
        → Holds P (after_drain p r)
    unfolding after_drain wake_waiters
    drain-Holds st p none e h = tt
    drain-Holds st p (some (next, progress)) e h =
        if_cases (λ (q : State noq). P (q, record p { force_wake = false }))
          (progress || p.force_wake) _ _
          (λ t. s.same st _ p (record p { force_wake = false }) (e next progress refl) refl h)
          (λ t. s.same st _ p (record p { force_wake = false }) (e next progress refl) refl h)

    after_arm-Holds : (r : State noq × Pump) (now : ℕ) → P r → P (after_arm r now).pair
    unfolding after_arm teardown wake_waiters
    after_arm-Holds (st, p) now h =
        if_cases (λ (x : Spot noq). P x.pair) (is_done st now) _ _
          (λ t. s.same st (teardown st p) p p refl refl h) (λ t. h)

    udp-Holds :
        (st : State noq) (p : Pump) (now : ℕ) (event : Option (Bytes × SocketAddr))
        → P (st, p)
        → P (on_udp_event st p now event)
    unfolding on_udp_event
    udp-Holds st p now none h = s.same st st p (record p { udp_armed = false }) refl refl h
    udp-Holds st p now (some (payload, remote)) h =
        s.same st (handle_udp_datagram st now remote payload) p (record p { udp_armed = p.has_udp })
          (handle_udp_datagram-wires st now remote payload) refl h

    tick-Holds :
        (st : State noq) (p : Pump) (verdict : ℕ → ProbeStep) (now : ℕ) (draw : Option ℕ)
        → P (st, p)
        → P (on_tick st p verdict now draw)
    unfolding on_tick
    tick-Holds st p verdict now draw h =
        let due = handle_timeouts st now in
        s.swept verdict due.relay_pool due p now draw
          (pool_same st due p (handle_timeouts-wires st now) h)

    select-Holds :
        (st : State noq) (p : Pump) (now : ℕ) (draw : Option ℕ) (event : PumpEvent)
        → Calms P event
        → P (st, p)
        → Holds P (select st p now draw event)
    unfolding select
    select-Holds st p now draw (relay_ends n event) calms h =
        elim (Option-cases (pick n p.relay_recvs)) [
          | inl e ↦ rw (select, e) tt
          | inr (((key, conn), rest), e) ↦
              rw (select, e) (s.relayed st p n key conn now rest draw event e h)
        ]
    select-Holds st p now draw (udp_ends event) calms h =
        if_cases (Holds P) p.udp_armed _ none (λ t. udp-Holds st p now event h) (λ t. tt)
    select-Holds st p now draw (channel_ends n event) calms h =
        elim (Option-cases (pick n p.channel_recvs)) [
          | inl e ↦ rw (select, e) tt
          | inr (((id, wire), rest), e) ↦
              rw (select, e) (s.channelled st p n id wire now rest event e h)
        ]
    select-Holds st p now draw (redial_ends result) calms h =
        if_cases (Holds P) (is_some p.redial) _ none (λ t. s.redialled st p now draw result t h)
          (λ t. tt)
    select-Holds st p now draw kicked calms h =
        if_cases (Holds P) st.pump_kicked _ none (λ t. calms refl st p h) (λ t. tt)
    select-Holds st p now draw (ticks waker verdict) calms h =
        if_cases (Holds P) st.pump_kicked none _ (λ t. tt)
          (λ t.
            tick-Holds (record st { pump_waker = some waker }) (record p { force_wake = true })
              verdict now draw
              (s.same (record st { pump_waker = some waker })
                (record st { pump_waker = some waker }) p (record p { force_wake = true }) refl refl
                (s.parked st p waker t h)))
    select-Holds st p now draw (pends waker) calms h =
        if_cases (Holds P) st.pump_kicked none _ (λ t. tt) (λ t. s.parked st p waker t h)

    pump_step-Holds :
        (m : Moment) (phase : Phase) (st : State noq) (p : Pump)
        → (phase ≡ selecting → Calms P m.event)
        → P (st, p)
        → Holds P (pump_step m phase st p)
    unfolding pump_step
    pump_step-Holds m draining st p calms h =
        drain-Holds st p (drain m.turns m.fuel st m.now)
          (λ next progress e.
            ap (λ (k : Kept). (k.1, k.2, k.3, k.0.channels, k.4, k.7, k.8))
              (drain-kept m.turns m.fuel st next m.now progress e))
          h
    pump_step-Holds m relaying st p calms h =
        pool_same st _ p (flush_relay-wires st st.relay_outbound) h
    pump_step-Holds m (sending key conn) st p calms h = s.sent st p m.failed m.now m.draw key conn h
    pump_step-Holds m udp_flush st p calms h =
        pool_same st _ p (flush_udp-wires st p.has_udp st.udp_outbound) h
    pump_step-Holds m channel_flush st p calms h =
        pool_same st _ p (flush_channel-wires st st.channel_outbound) h
    pump_step-Holds m arming st p calms h = after_arm-Holds (arm st p) m.now (s.armed st p h)
    pump_step-Holds m selecting st p calms h = select-Holds st p m.now m.draw m.event (calms refl) h
    pump_step-Holds m left st p calms h = tt

    -- Each step of the loop keeps the fact.
    pub pump_step-IsStable :
        (m : Moment) (before after : Spot noq)
        → pump_step m before.phase before.pair.0 before.pair.1 ≡ some after
        → (before.phase ≡ selecting → Calms P m.event)
        → P before.pair
        → P after.pair
    pump_step-IsStable m before after e calms h =
        subst (Holds P) e (pump_step-Holds m before.phase before.pair.0 before.pair.1 calms h)
