-- ===== src/Endpoint/Pump/Loop/Flush.antt =====
-- What the flushes of the pump of endpoint/src/endpoint_impl.rs send, in a turn that nothing disturbs.
use mathlib.Core.List.{append-nil, append_assoc}
use polymorph_iroh.Base.{
  ℕ, ◌≡◌, refl, sym, ap, ◌∙◌, inl, inr, Bool, true, false, ◌||◌, Option, none, some, List, [], ◌∷◌,
  ◌++◌, Bytes, Option-cases, if◌then◌else◌, nat_key,
}
use polymorph_iroh.Base.Maps.{Map, lookup}
use polymorph_iroh.Net.{SocketAddr}
use polymorph_iroh.Noq.{Noq}
use polymorph_iroh.Endpoint.{
  State, ChannelEntry, Effect, send_relay, send_udp, send_channel, wake_waiters,
}
use polymorph_iroh.Endpoint.Routes.Invariant.{book}
use polymorph_iroh.Endpoint.Drain.{drain}
use polymorph_iroh.Endpoint.Drain.Frame.{Kept}
use polymorph_iroh.Endpoint.Drain.Queued.{Transmits, Queued, to_relays, to_channels, to_udp}
use polymorph_iroh.Endpoint.Drain.Emits.{TransmitLaw, HandedOut, drain_queues}
use polymorph_iroh.Endpoint.Pump.{Pump, on_relay_sent}
use polymorph_iroh.Endpoint.Pump.Loop.{
  after_drain, Moment, Spot, at, draining, relaying, udp_flush, channel_flush, arming, sending,
  flush_relay, flush_udp, flush_channel, pump_step,
}

-- What is sent of each queue: nothing where the wire is gone.
abbrev relay_send : Option ℕ → Bytes → Bytes → List Effect
relay_send none peer payload = []
relay_send (some conn) peer payload = send_relay conn peer payload ∷ []

abbrev pub relay_sends : Map ℕ ℕ → List (ℕ × Bytes × Bytes) → List Effect
relay_sends pool [] = []
relay_sends pool ((key, peer, payload) ∷ items) =
    relay_send (lookup key pool) peer payload ++ relay_sends pool items

abbrev pub udp_sends : Bool → List (SocketAddr × Bytes) → List Effect
udp_sends has_udp [] = []
udp_sends false ((remote, payload) ∷ items) = udp_sends false items
udp_sends true ((remote, payload) ∷ items) = send_udp remote payload ∷ udp_sends true items

abbrev channel_one : Option ChannelEntry → Bytes → List Effect
channel_one none payload = []
channel_one (some entry) payload = send_channel entry.wire payload ∷ []

abbrev pub channel_sends : Map ℕ ChannelEntry → List (ℕ × Bytes) → List Effect
channel_sends channels [] = []
channel_sends channels ((id, payload) ∷ items) =
    channel_one (lookup id channels) payload ++ channel_sends channels items

-- A moment whose send does not fail.
abbrev pub smooth : Moment → Moment
smooth m = record m { failed = false }

module _ {noq : Noq} where
  -- Steps of the pump between which no other task runs, at such moments.
  pub data Alone (m : Moment) : Spot noq → Spot noq → Type 0 where
    here : {s : Spot noq} → Alone m s s
    further :
        {s : Spot noq} (mid last : Spot noq)
        → pump_step (smooth m) s.phase s.pair.0 s.pair.1 ≡ some mid
        → Alone m mid last
        → Alone m s last

  pub Alone-trans :
      (m : Moment) (s mid last : Spot noq) → Alone m s mid → Alone m mid last → Alone m s last
  Alone-trans m s _ last here b = b
  Alone-trans m s mid last (further next _ e a) b =
      further next last e (Alone-trans m next mid last a b)

  relays_flushed :
      (m : Moment) (st : State noq) (p : Pump) (items : List (ℕ × Bytes × Bytes))
      (done : List Effect)
      → (after : List Effect) × (after ≡ done ++ relay_sends st.relay_pool items)
        × Alone m
            (at relaying (record st { relay_outbound = items; effects = done }, p))
            (at udp_flush (record st { relay_outbound = []; effects = after }, p))
  unfolding pump_step flush_relay on_relay_sent
  relays_flushed m st p [] done = (done, sym (append-nil done), further _ _ refl here)
  relays_flushed m st p ((key, peer, payload) ∷ items) done =
      elim (Option-cases (lookup key st.relay_pool)) [
        | inl n ↦
            let (after, same, run) = relays_flushed m st p items done in
            (
              after,
              rw n same,
              further (at relaying (record st { relay_outbound = items; effects = done }, p)) _
                  (rw (pump_step, flush_relay, n) refl) run,
            )
        | inr (conn, h) ↦
            let sent = send_relay conn peer payload in
            let (after, same, run) = relays_flushed m st p items (done ++ (sent ∷ [])) in
            let mid = record st { relay_outbound = items; effects = done ++ (sent ∷ []) } in
            (
              after,
              rw h (same ∙ append_assoc done (sent ∷ []) (relay_sends st.relay_pool items)),
              further (at (sending key conn) (mid, p)) _ (rw (pump_step, flush_relay, h) refl)
                  (further (at relaying (mid, p)) _ refl run),
            )
      ]

  udp_flushed :
      (m : Moment) (st : State noq) (p : Pump) (items : List (SocketAddr × Bytes))
      (done : List Effect) (has_udp : Bool)
      → (after : List Effect) × (after ≡ done ++ udp_sends has_udp items)
        × Alone m
            (at udp_flush
              (record st { udp_outbound = items; effects = done }, record p { has_udp = has_udp }))
            (at channel_flush
              (record st { udp_outbound = []; effects = after }, record p { has_udp = has_udp }))
  unfolding pump_step flush_udp
  udp_flushed m st p [] done has_udp = (done, sym (append-nil done), further _ _ refl here)
  udp_flushed m st p ((remote, payload) ∷ items) done false =
      let (after, same, run) = udp_flushed m st p items done false in
      (after, same, further _ _ refl run)
  udp_flushed m st p ((remote, payload) ∷ items) done true =
      let sent = send_udp remote payload in
      let (after, same, run) = udp_flushed m st p items (done ++ (sent ∷ [])) true in
      (after, same ∙ append_assoc done (sent ∷ []) (udp_sends true items), further _ _ refl run)

  channels_flushed :
      (m : Moment) (st : State noq) (p : Pump) (items : List (ℕ × Bytes)) (done : List Effect)
      → (after : List Effect) × (after ≡ done ++ channel_sends st.channels items)
        × Alone m
            (at channel_flush (record st { channel_outbound = items; effects = done }, p))
            (at arming (record st { channel_outbound = []; effects = after }, p))
  unfolding pump_step flush_channel
  channels_flushed m st p [] done = (done, sym (append-nil done), further _ _ refl here)
  channels_flushed m st p ((id, payload) ∷ items) done =
      elim (Option-cases (lookup id st.channels)) [
        | inl n ↦
            let (after, same, run) = channels_flushed m st p items done in
            (
              after,
              rw n same,
              further (at channel_flush (record st { channel_outbound = items; effects = done }, p))
                  _ (rw (pump_step, flush_channel, n) refl) run,
            )
        | inr (entry, h) ↦
            let sent = send_channel entry.wire payload in
            let (after, same, run) = channels_flushed m st p items (done ++ (sent ∷ [])) in
            let mid = record st { channel_outbound = items; effects = done ++ (sent ∷ []) } in
            (
              after,
              rw h (same ∙ append_assoc done (sent ∷ []) (channel_sends st.channels items)),
              further (at channel_flush (mid, p)) _ (rw (pump_step, flush_channel, h) refl) run,
            )
      ]

  abbrev pub sends_of : State noq → Bool → List Effect
  sends_of st has_udp =
      relay_sends st.relay_pool st.relay_outbound
      ++ (udp_sends has_udp st.udp_outbound ++ channel_sends st.channels st.channel_outbound)

  -- The state behind the flushes.
  abbrev pub emptied : State noq → List Effect → State noq
  emptied st effects = record st {
    relay_outbound = [];
    udp_outbound = [];
    channel_outbound = [];
    effects = effects;
  }

  flushes_send :
      (m : Moment) (st : State noq) (p : Pump)
      → (after : List Effect) × (after ≡ st.effects ++ sends_of st p.has_udp)
        × Alone m (at relaying (st, p)) (at arming (emptied st after, p))
  flushes_send m st p =
      let (one, a, run) = relays_flushed m st p st.relay_outbound st.effects in
      let relayed = record st { relay_outbound = [] } in
      let (two, b, on) = udp_flushed m relayed p st.udp_outbound one p.has_udp in
      let (three, c, to_end) =
        channels_flushed m (record relayed { udp_outbound = [] }) p st.channel_outbound two in
      let us = udp_sends p.has_udp st.udp_outbound in
      let cs = channel_sends st.channels st.channel_outbound in
      (
        three,
        c
            ∙ ap (λ x. x ++ cs) (b ∙ ap (λ x. x ++ us) a)
            ∙ ap (λ x. x ++ cs)
                (append_assoc st.effects (relay_sends st.relay_pool st.relay_outbound) us)
            ∙ append_assoc st.effects (relay_sends st.relay_pool st.relay_outbound ++ us) cs
            ∙ ap (◌++◌ st.effects)
                (append_assoc (relay_sends st.relay_pool st.relay_outbound) us cs),
        Alone-trans m _ _ _ run (Alone-trans m _ _ _ on to_end),
      )

  -- The state behind the drain: its waiters wake if it made progress, or the tick asks for it.
  abbrev pub awake : Bool → State noq → State noq
  awake wakes next = if wakes then wake_waiters next else next

module _ {noq : Noq} (law : TransmitLaw noq) where
  sends_same :
      (st next : State noq) (ts : Transmits) (has_udp : Bool)
      → Queued st next ts
      → sends_of next has_udp
        ≡ relay_sends st.relay_pool (st.relay_outbound ++ to_relays (book st) ts)
          ++ (udp_sends has_udp (st.udp_outbound ++ to_udp (book st) ts)
              ++ channel_sends st.channels (st.channel_outbound ++ to_channels (book st) ts))
  sends_same st next ts has_udp q =
      rw
        (
          q.relays,
          q.udp,
          q.channels,
          ap (λ (k : Kept). k.1) q.frame,
          ap (λ (k : Kept). k.0.channels) q.frame,
        )
        refl

  awake-sends :
      (wakes : Bool) (next : State noq) (has_udp : Bool)
      → sends_of (awake wakes next) has_udp ≡ sends_of next has_udp
  unfolding wake_waiters
  awake-sends true next has_udp = refl
  awake-sends false next has_udp = refl

  -- What the connections have handed out, behind what was queued before, is what the pump sends on
  -- its way to the arming.
  abbrev pub Sends : Moment → State noq → State noq → Pump → State noq → Type 0
  Sends m st next p up =
      (ts : Transmits) × (after : List Effect) × HandedOut law st.conns next.conns ts
      × (after
          ≡ up.effects
            ++ (relay_sends st.relay_pool (st.relay_outbound ++ to_relays (book st) ts)
                ++ (udp_sends p.has_udp (st.udp_outbound ++ to_udp (book st) ts)
                    ++ channel_sends st.channels
                        (st.channel_outbound ++ to_channels (book st) ts))))
      × Alone m (at draining (st, p))
          (at arming (emptied up after, record p { force_wake = false }))

  -- With an engine whose `poll_transmit` alone hands out transmits: if a drain ends, no send fails
  -- and no other task runs meanwhile, the pump comes from the top of its loop to the arming, in
  -- finitely many steps. It has sent by then, in order, what was queued before and behind that what
  -- the connections have handed out in the drain: on the connection that the pool has for a relay, on
  -- the wire that a channel has, or on the UDP socket, and nothing where these are gone. The queues
  -- are empty.
  pub turn-Sends :
      (m : Moment) (st next : State noq) (p : Pump) (progress : Bool)
      → drain m.turns m.fuel st m.now ≡ some (next, progress)
      → Sends m st next p (awake (progress || p.force_wake) next)
  unfolding pump_step after_drain
  turn-Sends m st next p progress e =
      let up = awake (progress || p.force_wake) next in
      let (ts, q, handed) = drain_queues law m.turns m.fuel st next m.now progress e in
      let (after, same, run) = flushes_send m up (record p { force_wake = false }) in
      (
        ts,
        after,
        handed,
        same
            ∙ ap (◌++◌ up.effects) (
                awake-sends (progress || p.force_wake) next p.has_udp
                ∙ sends_same st next ts p.has_udp q),
        further (at relaying (up, record p { force_wake = false })) _ (ap (after_drain p) e) run,
      )
