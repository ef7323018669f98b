-- ===== src/Tests/Pump.antt =====
-- A concrete run of the pump, from `bind` on.
use polymorph_iroh.Base.{
  ◌≡◌, ◌↔◌, refl, Bool, true, false, Option, none, some, List, [], ◌∷◌, ◌++◌, is_some, ◌⊎◌, inl,
  inr, Option-cases, nat_key, bytes_key,
}
use polymorph_iroh.Base.Maps.{lookup, insert}
use polymorph_iroh.Endpoint.{home_relay, kick_pump}
use polymorph_iroh.Endpoint.Drain.{drain, drain_conns}
use polymorph_iroh.Endpoint.Relays.{register_relay, retire_home, is_pool_current}
use polymorph_iroh.Endpoint.Pump.{
  relay_failed, arm, is_done, on_relay_event, on_relay_failed, lose_home,
}
use polymorph_iroh.Endpoint.Pump.Losses.{Listened}
use polymorph_iroh.Endpoint.Pump.Channels.{IsTuned}
use polymorph_iroh.Endpoint.Pump.Loop.{
  Spot, Moment, PumpEvent, relay_ends, channel_ends, pick, after_drain, flush_relay, flush_udp,
  flush_channel, after_arm, select, pump_step, pends,
}
use polymorph_iroh.Endpoint.Pump.Loop.Runs.{Looping, begun, steps, meanwhile, joins}
use polymorph_iroh.Endpoint.Routes.{
  register_channel, add_channel, flip_route, addr_for_peer, fresh_standin, signaling_relay,
}
use polymorph_iroh.Endpoint.Bind.{bound_at}
use polymorph_iroh.Endpoint.Bind.Awake.{Rouses, kicked_at, bound_wakes}
use polymorph_iroh.Endpoint.Pump.Loop.Awake.{IsKicked}
use polymorph_iroh.Endpoint.Pump.Loop.Kicks.{Taken, Wakeful}
use polymorph_iroh.Endpoint.Bind.Opened.{spawned, bound_redials, bound_listens}
use polymorph_iroh.Tests.Bind.{noq, env, sockets, options, endpoint, binds}

abbrev moment : PumpEvent → Moment
moment event = record { now = 20; draw = none; failed = false; turns = 1; fuel = 1; event = event }

abbrev stays : Spot noq → Option (Spot noq) → Spot noq
stays s none = s
stays s (some next) = next

abbrev follow : List PumpEvent → Spot noq → Spot noq
follow [] s = s
follow (e ∷ es) s = follow es (stays s (pump_step (moment e) s.phase s.pair.0 s.pair.1))

abbrev follows : List PumpEvent → Spot noq → Bool
follows [] s = true
follows (e ∷ es) s = elim (pump_step (moment e) s.phase s.pair.0 s.pair.1) [
  | none ↦ false
  | some next ↦ follows es next
]

follow-Looping :
    (es : List PumpEvent) (first s : Spot noq)
    → Looping first s
    → follows es s ≡ true
    → Looping first (follow es s)
follow-Looping [] first s run h = run
follow-Looping (e ∷ es) first s run h =
    elim (Option-cases (pump_step (moment e) s.phase s.pair.0 s.pair.1)) [
      | inl n ↦ absurd (cc (rw (follows, n) at h))
      | inr (next, there) ↦
          rw (follow, there)
            (follow-Looping es first next (steps (moment e) s next run there)
              (rw (follows, there) at h))
    ]

-- A turn of the loop in which nothing is to be sent; its select meets an event.
abbrev turn : PumpEvent → List PumpEvent
turn e = e ∷ e ∷ e ∷ e ∷ e ∷ e ∷ []

-- The receive on the home relay fails.
abbrev orphaned : Spot noq
orphaned = follow (turn (relay_ends 0 relay_failed)) (spawned env sockets endpoint)

orphaning : follows (turn (relay_ends 0 relay_failed)) (spawned env sockets endpoint) ≡ true
unfolding bound_at register_relay kick_pump pump_step after_drain drain drain_conns flush_relay
    flush_udp flush_channel arm after_arm is_done select pick insert
orphaning = refl

still_open : orphaned.pair.0.is_closed ≡ false
unfolding bound_at register_relay kick_pump pump_step after_drain drain drain_conns flush_relay
    flush_udp flush_channel arm after_arm is_done select pick on_relay_event on_relay_failed
    lose_home retire_home is_pool_current lookup insert
still_open = refl

bound_redials_example :
    (lookup home_relay orphaned.pair.0.relay_pool ≡ none) ↔ (is_some orphaned.pair.1.redial ≡ true)
bound_redials_example =
    bound_redials env sockets options endpoint orphaned binds
      (follow-Looping (turn (relay_ends 0 relay_failed)) (spawned env sockets endpoint)
        (spawned env sockets endpoint) begun orphaning)
      still_open

-- Before the first step a channel joins; its receive is armed, and ends with a text.
abbrev joined : Spot noq
joined = record (spawned env sockets endpoint) {
  pair = ((register_channel endpoint.shared (4 ∷ []) 60).0, endpoint.pump);
}

abbrev heard : Spot noq
heard = follow (turn (channel_ends 0 (some none))) joined

hearing : follows (turn (channel_ends 0 (some none))) joined ≡ true
unfolding bound_at register_relay register_channel add_channel flip_route addr_for_peer
    fresh_standin signaling_relay kick_pump pump_step after_drain drain drain_conns flush_relay
    flush_udp flush_channel arm after_arm is_done select pick insert lookup
hearing = refl

bound_listens_example :
    Listened heard.pair.0.relay_pool (heard.pair.1.relay_recvs ++ heard.pair.0.new_relays)
    × IsTuned heard.pair
bound_listens_example = bound_listens env sockets options endpoint heard binds (
    follow-Looping (turn (channel_ends 0 (some none))) (spawned env sockets endpoint) joined
      (meanwhile (spawned env sockets endpoint) (register_channel endpoint.shared (4 ∷ []) 60).0
        begun (joins (4 ∷ []) 60))
      hearing)

-- The kick of `bind` is served by a turn; at the end of the next one the pump sleeps.
abbrev asleep : Spot noq
asleep = follow (turn PumpEvent.kicked ++ turn (pends 7)) (spawned env sockets endpoint)

sleeping : follows (turn PumpEvent.kicked ++ turn (pends 7)) (spawned env sockets endpoint) ≡ true
unfolding bound_at register_relay kick_pump pump_step after_drain drain drain_conns flush_relay
    flush_udp flush_channel arm after_arm is_done select pick insert
sleeping = refl

-- A kick of the sleeping pump, which its select takes.
abbrev woken : Spot noq
woken = follow (PumpEvent.kicked ∷ []) (kicked_at asleep)

wakes_up : follows (PumpEvent.kicked ∷ []) (kicked_at asleep) ≡ true
unfolding bound_at register_relay kick_pump pump_step after_drain drain drain_conns flush_relay
    flush_udp flush_channel arm after_arm is_done select pick insert
wakes_up = refl

abbrev waking : Looping (kicked_at asleep) woken
waking = follow-Looping (PumpEvent.kicked ∷ []) (kicked_at asleep) (kicked_at asleep) begun wakes_up

bound_wakes_example :
    Rouses asleep.pair.0 asleep.pair.0.pump_waker
    × (IsKicked woken.pair × Wakeful woken ⊎ Taken waking)
bound_wakes_example = bound_wakes env sockets options endpoint asleep woken waking binds (
    follow-Looping (turn PumpEvent.kicked ++ turn (pends 7)) (spawned env sockets endpoint)
      (spawned env sockets endpoint) begun sleeping)
