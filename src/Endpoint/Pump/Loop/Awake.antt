-- ===== src/Endpoint/Pump/Loop/Awake.antt =====
-- The kick and the waker of the pump along the steps of its loop, in
-- endpoint/src/endpoint_impl.rs.
use polymorph_iroh.Base.{
  ℕ, ◌≡◌, refl, sym, ap, subst, inl, inr, Bool, true, false, Option, none, some, List, Option-cases,
  Bytes, if_cases, nat_key, bytes_key,
}
use polymorph_iroh.Base.Maps.{Map, lookup}
use polymorph_iroh.Net.{addr_key}
use polymorph_iroh.Noq.{Noq}
use polymorph_iroh.Endpoint.{State, ChannelEntry}
use polymorph_iroh.Endpoint.Wires.{Wires}
use polymorph_iroh.Endpoint.Routes.{retire_channel, return_route, is_channel}
use polymorph_iroh.Endpoint.Conns.{handle_channel_datagram}
use polymorph_iroh.Endpoint.Conns.Frame.{handle_channel_datagram-wires}
use polymorph_iroh.Endpoint.Pump.{
  Pump, arm, on_relay_sent, on_relay_event, on_channel_event, on_redial, sweep,
}
use polymorph_iroh.Endpoint.Pump.Channels.{
  carriage, on_relay_sent-carriage, on_relay_event-carriage, on_redial-carriage, sweep-carriage,
}
use polymorph_iroh.Endpoint.Pump.Loop.Stable.{IsStable}

module _ {noq : Noq} where
  -- The kick and the waker.
  abbrev pub doze_of : State noq → Bool × Option ℕ
  doze_of st = (st.pump_kicked, st.pump_waker)

  retire_channel-doze : (st : State noq) (id : ℕ) → doze_of (retire_channel st id) ≡ doze_of st
  unfolding retire_channel return_route
  retire_channel-doze st id = elim (Option-cases (lookup id st.channels)) [
    | inl n ↦ rw (retire_channel, n) refl
    | inr (gone, there) ↦ elim (Option-cases (lookup gone.peer st.peer_to_addr)) [
      | inl n ↦ rw (retire_channel, there, return_route, n) refl
      | inr (a, k) ↦
          rw (retire_channel, there, return_route, k)
            (if_cases (λ (r : State noq). doze_of r ≡ doze_of st)
              (is_channel id (lookup a st.routes)) _ _ (λ t. refl) (λ t. refl))
    ]
  ]

  -- A fact about these alone is kept, if it is where a waker is parked.
  module _ (Q : Bool × Option ℕ → Type 0) where
    abbrev pub OfDoze : State noq × Pump → Type 0
    OfDoze r = Q (doze_of r.0)

    still :
        (st next : State noq) (p q : Pump)
        → doze_of next ≡ doze_of st
        → OfDoze (st, p)
        → OfDoze (next, q)
    still st next p q e h = subst Q (sym e) h

    carried : (a b : State noq × Pump) → carriage b ≡ carriage a → OfDoze a → OfDoze b
    carried a b e h =
        still a.0 b.0 a.1 b.1
          (ap
            (λ (c : Map ℕ ChannelEntry × List (ℕ × ℕ) × List (ℕ × ℕ) × Bool × Option ℕ). (c.3, c.4))
            e)
          h

    channelled-OfDoze :
        (st : State noq) (p q : Pump) (id now : ℕ) (event : Option (Option Bytes))
        → OfDoze (st, p)
        → OfDoze (on_channel_event st q id now event)
    unfolding on_channel_event
    channelled-OfDoze st p q id now none h =
        still st (retire_channel st id) p q (retire_channel-doze st id) h
    channelled-OfDoze st p q id now (some none) h = h
    channelled-OfDoze st p q id now (some (some bytes)) h =
        still st (handle_channel_datagram st now id bytes) p q
          (ap (λ (w : Wires). (w.5, w.6)) (handle_channel_datagram-wires st now id bytes)) h

    pub OfDoze-IsStable :
        ((waker : ℕ) (parked : Option ℕ) → Q (false, parked) → Q (false, some waker))
        → IsStable OfDoze
    unfolding arm
    OfDoze-IsStable parks = record {
      same = λ st next p q e f h. still st next p q (ap (λ (w : Wires). (w.5, w.6)) e) h;
      sent = λ st p failed now draw key conn h.
          carried (st, p) (on_relay_sent st p failed now draw key conn)
            (on_relay_sent-carriage st p failed now draw key conn) h;
      armed = λ st p h. h;
      relayed = λ st p n key conn now rest draw event e h.
          carried (st, record p { relay_recvs = rest })
            (on_relay_event st (record p { relay_recvs = rest }) key conn now draw event)
            (on_relay_event-carriage st (record p { relay_recvs = rest }) key conn now draw event)
            h;
      channelled = λ st p n id wire now rest event e h.
          channelled-OfDoze st p (record p { channel_recvs = rest }) id now event h;
      redialled = λ st p now draw result armed h.
          carried (st, p) (on_redial st p now draw result) (on_redial-carriage st p now draw result)
            h;
      swept = λ verdict pool st p now draw h.
          carried (st, p) (sweep verdict pool st p now draw)
            (sweep-carriage verdict pool st p now draw) h;
      parked = λ st p waker calm h.
          subst (λ b. Q (b, some waker)) (sym calm)
            (parks waker st.pump_waker (subst (λ b. Q (b, st.pump_waker)) calm h));
    }

  -- A kicked pump has no waker parked.
  abbrev pub IsAwake : State noq × Pump → Type 0
  IsAwake r = r.0.pump_kicked ≡ true → r.0.pump_waker ≡ none

  pub IsAwake-IsStable : IsStable {noq = noq} IsAwake
  IsAwake-IsStable =
      OfDoze-IsStable (λ d. d.0 ≡ true → d.1 ≡ none) (λ waker parked h kick. absurd cc)

  -- The pump has a kick to answer.
  abbrev pub IsKicked : State noq × Pump → Type 0
  IsKicked r = r.0.pump_kicked ≡ true

  pub IsKicked-IsStable : IsStable {noq = noq} IsKicked
  IsKicked-IsStable = OfDoze-IsStable (λ d. d.0 ≡ true) (λ waker parked h. h)
