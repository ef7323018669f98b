-- ===== src/Endpoint/Pump/Loop.antt =====
-- The loop of `pump` of endpoint/src/endpoint_impl.rs, from one of its awaits to the next. Between
-- two of its steps the other tasks run.
pub mod Stable
pub mod Facts
pub mod Awake
pub mod Kicks
pub mod Runs
pub mod Flush
pub mod Turn
use polymorph_iroh.Base.{
  ℕ, zero, suc, Bool, true, false, ◌||◌, Option, none, some, List, [], ◌∷◌, Bytes, is_some,
  if◌then◌else◌, nat_key,
}
use polymorph_iroh.Base.Maps.{lookup}
use polymorph_iroh.Net.{SocketAddr}
use polymorph_iroh.Noq.{Noq}
use polymorph_iroh.Relay.{ProbeStep}
use polymorph_iroh.Endpoint.{
  State, ChannelEntry, send_relay, send_udp, send_channel, wake_waiters, ask,
}
use polymorph_iroh.Endpoint.Drain.{drain}
use polymorph_iroh.Endpoint.Pump.{
  Pump, RelayEvent, on_relay_sent, arm, is_done, on_relay_event, on_udp_event, on_channel_event,
  on_redial, on_tick, teardown,
}

-- Where the pump stands: at the top of its loop, in one of the flushes or at a relay's send, before
-- the arming, at the select, or behind the loop.
pub data Phase : Type 0 where
  draining relaying udp_flush channel_flush arming selecting left : Phase
  sending : (key conn : ℕ) → Phase

-- What the select meets: the end of an armed receive, by its position among those of its kind, of the
-- redial, a kick, the tick, or nothing yet. The last two have polled `kicked` with the pump's waker.
pub data PumpEvent : Type 0 where
  relay_ends : ℕ → RelayEvent → PumpEvent
  udp_ends : Option (Bytes × SocketAddr) → PumpEvent
  channel_ends : ℕ → Option (Option Bytes) → PumpEvent
  redial_ends : Option ℕ → PumpEvent
  kicked : PumpEvent
  ticks : (waker : ℕ) → (ℕ → ProbeStep) → PumpEvent
  pends : (waker : ℕ) → PumpEvent

-- What the world gives to one step: the clock, the draw of a jitter, whether the send failed, the
-- fuels of `drain`, and the event.
pub record Moment : Type 0 where
  pub now : ℕ
  pub draw : Option ℕ
  pub failed : Bool
  pub turns : ℕ
  pub fuel : ℕ
  pub event : PumpEvent

-- An element by its position, and the others.
unfoldable pub pick {ℓ} : {A : Type ℓ} → ℕ → List A → Option (A × List A)
pick n [] = none
pick zero (x ∷ xs) = some (x, xs)
pick (suc n) (x ∷ xs) = elim (pick n xs) [ none ↦ none | some (y, rest) ↦ some (y, x ∷ rest) ]

-- Where the pump stands, with the state and its locals.
pub record Spot (noq : Noq) : Type 0 where
  pub phase : Phase
  pub pair : State noq × Pump

abbrev pub at : {noq : Noq} → Phase → State noq × Pump → Spot noq
at phase pair = record { phase = phase; pair = pair }

module _ {noq : Noq} where
  unfoldable pub after_drain : Pump → Option (State noq × Bool) → Option (Spot noq)
  after_drain p none = none
  after_drain p (some (next, progress)) = some (
      at relaying (
        if progress || p.force_wake then wake_waiters next else next,
        record p { force_wake = false },
      ))

  abbrev send_pooled : State noq → Option ℕ → ℕ → Bytes → Bytes → Phase × State noq
  send_pooled st none key peer payload = (relaying, st)
  send_pooled st (some conn) key peer payload =
      (sending key conn, ask (send_relay conn peer payload) st)

  -- One item of `relay_outbound`, on the connection that its key has now, if any.
  unfoldable pub flush_relay : State noq → List (ℕ × Bytes × Bytes) → Phase × State noq
  flush_relay st [] = (udp_flush, st)
  flush_relay st ((key, peer, payload) ∷ rest) =
      send_pooled (record st { relay_outbound = rest }) (lookup key st.relay_pool) key peer payload

  abbrev send_on_udp : Bool → SocketAddr → Bytes → State noq → State noq
  send_on_udp false remote payload st = st
  send_on_udp true remote payload st = ask (send_udp remote payload) st

  unfoldable pub flush_udp : State noq → Bool → List (SocketAddr × Bytes) → Phase × State noq
  flush_udp st has_udp [] = (channel_flush, st)
  flush_udp st has_udp ((remote, payload) ∷ rest) =
      (udp_flush, send_on_udp has_udp remote payload (record st { udp_outbound = rest }))

  abbrev send_on_channel : Option ChannelEntry → Bytes → State noq → State noq
  send_on_channel none payload st = st
  send_on_channel (some entry) payload st = ask (send_channel entry.wire payload) st

  unfoldable pub flush_channel : State noq → List (ℕ × Bytes) → Phase × State noq
  flush_channel st [] = (arming, st)
  flush_channel st ((id, payload) ∷ rest) = (
    channel_flush,
    send_on_channel (lookup id st.channels) payload (record st { channel_outbound = rest }),
  )

  -- The arming, and the exit test behind it.
  unfoldable pub after_arm : State noq × Pump → ℕ → Spot noq
  after_arm (st, p) now =
      if is_done st now then at left (teardown st p, p) else at selecting (st, p)

  abbrev on_picked_relay :
      State noq
      → Pump
      → ℕ
      → Option ℕ
      → RelayEvent
      → Option ((ℕ × ℕ) × List (ℕ × ℕ))
      → Option (Spot noq)
  on_picked_relay st p now draw event none = none
  on_picked_relay st p now draw event (some ((key, conn), rest)) =
      some
        (at draining (on_relay_event st (record p { relay_recvs = rest }) key conn now draw event))

  abbrev on_picked_channel :
      State noq
      → Pump
      → ℕ
      → Option (Option Bytes)
      → Option ((ℕ × ℕ) × List (ℕ × ℕ))
      → Option (Spot noq)
  on_picked_channel st p now event none = none
  on_picked_channel st p now event (some ((id, wire), rest)) =
      some (at draining (on_channel_event st (record p { channel_recvs = rest }) id now event))

  -- The select. No result: the event cannot come here.
  unfoldable pub select : State noq → Pump → ℕ → Option ℕ → PumpEvent → Option (Spot noq)
  select st p now draw (relay_ends n event) =
      on_picked_relay st p now draw event (pick n p.relay_recvs)
  select st p now draw (udp_ends event) =
      if p.udp_armed then some (at draining (on_udp_event st p now event)) else none
  select st p now draw (channel_ends n event) =
      on_picked_channel st p now event (pick n p.channel_recvs)
  select st p now draw (redial_ends result) =
      if is_some p.redial then some (at draining (on_redial st p now draw result)) else none
  select st p now draw kicked =
      if st.pump_kicked then some (at draining (record st { pump_kicked = false }, p)) else none
  select st p now draw (ticks waker verdict) =
      if st.pump_kicked
      then none
      else some (
          at draining (
            on_tick (record st { pump_waker = some waker }) (record p { force_wake = true }) verdict
              now draw))
  select st p now draw (pends waker) =
      if st.pump_kicked
      then none
      else some (at selecting (record st { pump_waker = some waker }, p))

  -- One step of the pump. No result: a panic, or a moment that cannot come here.
  unfoldable pub pump_step : Moment → Phase → State noq → Pump → Option (Spot noq)
  pump_step m draining st p = after_drain p (drain m.turns m.fuel st m.now)
  pump_step m relaying st p =
      let (phase, next) = flush_relay st st.relay_outbound in some (at phase (next, p))
  pump_step m (sending key conn) st p =
      some (at relaying (on_relay_sent st p m.failed m.now m.draw key conn))
  pump_step m udp_flush st p =
      let (phase, next) = flush_udp st p.has_udp st.udp_outbound in some (at phase (next, p))
  pump_step m channel_flush st p =
      let (phase, next) = flush_channel st st.channel_outbound in some (at phase (next, p))
  pump_step m arming st p = some (after_arm (arm st p) m.now)
  pump_step m selecting st p = select st p m.now m.draw m.event
  pump_step m left st p = none
