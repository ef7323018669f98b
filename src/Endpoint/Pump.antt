-- ===== src/Endpoint/Pump.antt =====
-- The pump task of endpoint/src/endpoint_impl.rs: its turns, as far as they are decisions. A send, a
-- receive and a redial are futures: the pump arms them, and how each ends is an argument.
pub mod Guards
pub mod Losses
pub mod Receives
pub mod Channels
pub mod Tuned
pub mod Loop
use polymorph_iroh.Base.{
  ℕ, ◌+◌, ◌-◌, ◌*◌, ◌^◌, Bool, true, false, not, ◌&&◌, ◌||◌, Option, none, some, List, [], ◌∷◌,
  ◌++◌, map, Bytes, eqb, leb, is_some, if◌then◌else◌, nat_key,
}
use polymorph_iroh.Base.Maps.{Map, lookup}
use polymorph_iroh.Net.{SocketAddr}
use polymorph_iroh.Noq.{Noq}
use polymorph_iroh.Backoff.{Backoff, next_redial_delay}
use polymorph_iroh.Relay.{ProbeStep, healthy, ping, dead}
use polymorph_iroh.Endpoint.{
  State, ConnEntry, ChannelEntry, Effect, spawn_upgrade, close_relay, close_channel, home_relay,
  spawn_ping, send_relay, send_udp, send_channel, wake_udp, ask, wake_waiters,
}
use polymorph_iroh.Endpoint.Routes.{retire_channel}
use polymorph_iroh.Endpoint.Signaling.{handle_signal}
use polymorph_iroh.Endpoint.Conns.{
  handle_relay_datagram, handle_udp_datagram, handle_channel_datagram, handle_timeouts,
}
use polymorph_iroh.Endpoint.Relays.{is_pool_current, retire_home, retire_relay, home_redialed}

-- The locals of the pump: the armed receives, by key and connection or by channel and wire, the
-- delay of the redial if one is in flight, its backoff, whether there is a UDP socket and whether its
-- receive is armed.
pub record Pump : Type 0 where
  pub relay_recvs : List (ℕ × ℕ)
  pub channel_recvs : List (ℕ × ℕ)
  pub redial : Option ℕ
  pub backoff : Backoff
  pub has_udp : Bool
  pub udp_armed : Bool
  pub force_wake : Bool

-- How a receive on a relay ends: a source with its payload, or a failure.
pub data RelayEvent : Type 0 where
  datagram : (source payload : Bytes) → RelayEvent
  relay_failed : RelayEvent

abbrev pub linger : ℕ
linger = 500 * 10 ^ 6

-- The pump as `bind` spawns it.
abbrev pub new_pump : Bool → ℕ → Pump
new_pump has_udp now = record {
  relay_recvs = [];
  channel_recvs = [];
  redial = none;
  backoff = record { attempt = 0; home_since = some now };
  has_udp = has_udp;
  udp_armed = has_udp;
  force_wake = false;
}

-- Arms the redial, at an instant and with the draw of the jitter.
pub arm_redial : Pump → ℕ → Option ℕ → Pump
arm_redial p now draw =
    let (delay, backoff) = next_redial_delay p.backoff now draw in
    record p { redial = some delay; backoff = backoff }

-- The first byte of a payload that is a signal.
abbrev pub signal_of : Bytes → Option Bytes
signal_of [] = none
signal_of (b ∷ rest) = if eqb b 0 then some rest else none

abbrev lingered : ℕ → Option ℕ → Bool
lingered now none = true
lingered now (some at) = leb linger (now - at)

abbrev self_wake_of : Bool → List Effect
self_wake_of false = []
self_wake_of true = wake_udp ∷ []

module _ {noq : Noq} where
  unfoldable pub lose_home : State noq → Pump → ℕ → ℕ → Option ℕ → State noq × Pump
  lose_home st p conn now draw =
      let (next, owns) = retire_home st conn in (next, if owns then arm_redial p now draw else p)

  -- What the end of a relay's send changes.
  pub on_relay_sent : State noq → Pump → (failed : Bool) → ℕ → Option ℕ → ℕ → ℕ → State noq × Pump
  on_relay_sent st p failed now draw key conn =
      if failed && eqb key home_relay then lose_home st p conn now draw else (st, p)

  -- The arming of the receives registered since the last turn, and of the upgrades asked for.
  unfoldable pub arm : State noq → Pump → State noq × Pump
  arm st p = (
    record st {
      new_relays = [];
      new_channels = [];
      pending_upgrades = [];
      effects = st.effects ++ map (λ u. spawn_upgrade u.0 u.1) st.pending_upgrades;
    },
    record p {
      relay_recvs = p.relay_recvs ++ st.new_relays;
      channel_recvs = p.channel_recvs ++ st.new_channels;
    },
  )

  abbrev all_over : Map ℕ (ConnEntry noq) → Bool
  all_over [] = true
  all_over ((h, e) ∷ conns) = (e.drained || is_some e.error) && all_over conns

  -- The exit test of the pump.
  unfoldable pub is_done : State noq → ℕ → Bool
  is_done st now = st.is_closed && (all_over st.conns || lingered now st.closed_at)

  pub on_payload : State noq → ℕ → ℕ → Bytes → Bytes → State noq
  on_payload st now key source payload = elim (signal_of payload) [
    | some signal ↦ handle_signal st key source signal
    | none ↦ handle_relay_datagram st now key source payload
  ]

  unfoldable pub on_relay_failed : State noq → Pump → ℕ → ℕ → ℕ → Option ℕ → State noq × Pump
  on_relay_failed st p key conn now draw =
      if not (is_pool_current st key conn)
      then (st, p)
      else if eqb key home_relay
      then lose_home st p conn now draw
      else (ask (close_relay conn) (retire_relay st key).0, p)

  -- The arm for the end of a relay's receive.
  unfoldable pub on_relay_event :
      State noq → Pump → ℕ → ℕ → ℕ → Option ℕ → RelayEvent → State noq × Pump
  on_relay_event st p key conn now draw (datagram source payload) = (
    on_payload st now key source payload,
    record p {
      relay_recvs =
          if is_pool_current st key conn
          then p.relay_recvs ++ ((key, conn) ∷ [])
          else p.relay_recvs;
    },
  )
  on_relay_event st p key conn now draw relay_failed = on_relay_failed st p key conn now draw

  pub rearm_channel : State noq → Pump → ℕ → Pump
  rearm_channel st p id = elim (lookup id st.channels) [
    | none ↦ p
    | some entry ↦ record p { channel_recvs = p.channel_recvs ++ ((id, entry.wire) ∷ []) }
  ]

  -- The arm for the end of a channel's receive: its payload, if it has one, or its failure.
  pub on_channel_event : State noq → Pump → ℕ → ℕ → Option (Option Bytes) → State noq × Pump
  on_channel_event st p id now none = (retire_channel st id, p)
  on_channel_event st p id now (some none) = (st, rearm_channel st p id)
  on_channel_event st p id now (some (some bytes)) =
      (handle_channel_datagram st now id bytes, rearm_channel st p id)

  -- The arm for the end of the redial: a connection, or a failure.
  pub on_redial : State noq → Pump → ℕ → Option ℕ → Option ℕ → State noq × Pump
  on_redial st p now draw (some conn) =
      let (next, kept) = home_redialed st conn in
      (
        next,
        if kept
            then record p {
              relay_recvs = p.relay_recvs ++ ((home_relay, conn) ∷ []);
              redial = none;
              backoff = record { attempt = 0; home_since = some now };
            }
            else record p { redial = none },
      )
  on_redial st p now draw none =
      (st, if st.is_closed then record p { redial = none } else arm_redial p now draw)

  -- The liveness sweep over the pool as the tick copied it, with the verdict on each connection.
  pub on_verdict : State noq → Pump → ℕ → Option ℕ → ℕ → ℕ → ProbeStep → State noq × Pump
  on_verdict st p now draw key conn healthy = (st, p)
  on_verdict st p now draw key conn (ping payload) = (ask (spawn_ping conn payload) st, p)
  on_verdict st p now draw key conn dead =
      if eqb key home_relay then lose_home st p conn now draw else elim (lookup key st.relay_pool) [
        | none ↦ ((retire_relay st key).0, p)
        | some pooled ↦ (ask (close_relay pooled) (retire_relay st key).0, p)
      ]

  pub sweep : (ℕ → ProbeStep) → Map ℕ ℕ → State noq → Pump → ℕ → Option ℕ → State noq × Pump
  sweep verdict [] st p now draw = (st, p)
  sweep verdict ((key, conn) ∷ pool) st p now draw =
      let r = on_verdict st p now draw key conn (verdict conn) in
      sweep verdict pool r.0 r.1 now draw

  -- The arm for the end of the UDP receive; a failure leaves it terminated.
  pub on_udp_event : State noq → Pump → ℕ → Option (Bytes × SocketAddr) → State noq × Pump
  on_udp_event st p now none = (st, record p { udp_armed = false })
  on_udp_event st p now (some (payload, remote)) =
      (handle_udp_datagram st now remote payload, record p { udp_armed = p.has_udp })

  -- The tick: the timeouts, and the sweep.
  pub on_tick : State noq → Pump → (ℕ → ProbeStep) → ℕ → Option ℕ → State noq × Pump
  on_tick st p verdict now draw =
      let due = handle_timeouts st now in sweep verdict due.relay_pool due p now draw

  -- What the pump does once it has left its loop: the waiters wake, and the wires close.
  pub teardown : State noq → Pump → State noq
  teardown st p =
      let woken = wake_waiters st in
      record woken {
        effects =
            woken.effects
            ++ (map (λ r. close_relay r.1) woken.relay_pool
                ++ (self_wake_of p.has_udp ++ map (λ c. close_channel c.1.wire) woken.channels));
      }
