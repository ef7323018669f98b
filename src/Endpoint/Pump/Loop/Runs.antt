-- ===== src/Endpoint/Pump/Loop/Runs.antt =====
-- The runs of the pump's loop among the other tasks, and what holds along them of the wires, in
-- endpoint/src/endpoint_impl.rs.
use mathlib.Core.List.{Memᴰ}
use polymorph_iroh.Base.{
  ℕ, ◌≡◌, ◌↔◌, ◌⊎◌, if_cases, refl, sym, ap, subst, ◌∙◌, inl, inr, true, false, none, some, ◌++◌,
  Bytes, eqb, eqb_iff, is_some, nat_key, bytes_key,
}
use polymorph_iroh.Base.Maps.{lookup, lookup-insert_ne}
use polymorph_iroh.Noq.{Noq}
use polymorph_iroh.Endpoint.{State, home_relay, kick_pump}
use polymorph_iroh.Endpoint.Relays.{register_relay}
use polymorph_iroh.Endpoint.Pump.{Pump}
use polymorph_iroh.Endpoint.Pump.Guards.{Guards, same_pool}
use polymorph_iroh.Endpoint.Pump.Losses.{Shrinks, IsHeard, Loses-IsHeard}
use polymorph_iroh.Endpoint.Pump.Receives.{same-IsHeard, registered-IsHeard}
use polymorph_iroh.Endpoint.Pump.Loop.{Spot, Moment, pump_step}
use polymorph_iroh.Endpoint.Pump.Loop.Stable.{pump_step-IsStable}
use polymorph_iroh.Endpoint.Pump.Channels.{IsTuned}
use polymorph_iroh.Endpoint.Pump.Tuned.{registered-IsTuned, registered-pool}
use polymorph_iroh.Endpoint.Routes.{register_channel, add_channel, flip_route}
use polymorph_iroh.Endpoint.{ChannelEntry}
use polymorph_iroh.Endpoint.Pump.Loop.Awake.{IsAwake, IsAwake-IsStable}
use polymorph_iroh.Endpoint.Pump.Loop.Facts.{Guards-IsStable, IsHeard-IsStable, IsTuned-IsStable}

module _ {noq : Noq} where
  -- The kick and the waker of the pump are let be, or it is kicked.
  abbrev pub Nudges : State noq → State noq → Type 0
  Nudges st next =
      (next.pump_kicked ≡ st.pump_kicked) × (next.pump_waker ≡ st.pump_waker)
      ⊎ (next.pump_kicked ≡ true) × (next.pump_waker ≡ none)

  -- What the other tasks do while the pump waits: they register a relay under a key that is not the
  -- home relay's, or a channel, or they call what at most kicks the pump and lets the home relay, the lists of the wires to arm
  -- and a closed endpoint be, and at most loses relays and channels.
  pub data Elsewhere (st : State noq) : State noq → Type 0 where
    registers :
        (url : Bytes) (conn : ℕ)
        → eqb home_relay st.next_relay_key ≡ false
        → Elsewhere st (register_relay st url conn).0
    joins : (peer : Bytes) (wire : ℕ) → Elsewhere st (register_channel st peer wire).0
    calls :
        (next : State noq)
        → lookup home_relay next.relay_pool ≡ lookup home_relay st.relay_pool
        → Shrinks next.relay_pool st.relay_pool
        → next.new_relays ≡ st.new_relays
        → ((id : ℕ) (entry : ChannelEntry)
            → lookup id next.channels ≡ some entry
            → lookup id st.channels ≡ some entry)
        → next.new_channels ≡ st.new_channels
        → (st.is_closed ≡ true → next.is_closed ≡ true)
        → Nudges st next
        → Elsewhere st next

  -- The runs of the pump's loop, with whatever the other tasks do between two of its steps.
  pub data Looping (first : Spot noq) : Spot noq → Type 0 where
    begun : Looping first first
    steps :
        (m : Moment) (before after : Spot noq)
        → Looping first before
        → pump_step m before.phase before.pair.0 before.pair.1 ≡ some after
        → Looping first after
    meanwhile :
        (before : Spot noq) (next : State noq)
        → Looping first before
        → Elsewhere before.pair.0 next
        → Looping first (record before { pair = (next, before.pair.1) })

  called :
      (st next : State noq) (p : Pump)
      → lookup home_relay next.relay_pool ≡ lookup home_relay st.relay_pool
      → (st.is_closed ≡ true → next.is_closed ≡ true)
      → Guards (st, p)
      → Guards (next, p)
  called st next p same closes (inl over) = inl (closes over)
  called st next p same closes (inr (inl (gone, armed))) = inr (inl (same ∙ gone, armed))
  called st next p same closes (inr (inr (there, idle))) = inr (inr (ap is_some same ∙ there, idle))

  Elsewhere-Guards :
      (st next : State noq) (p : Pump) → Elsewhere st next → Guards (st, p) → Guards (next, p)
  unfolding register_relay kick_pump
  Elsewhere-Guards st _ p (registers url conn foreign) g =
      let same =
        lookup-insert_ne st.next_relay_key home_relay conn st.relay_pool
          (λ e. cc (foreign, (eqb_iff home_relay st.next_relay_key).1 (sym e))) in
      called st (register_relay st url conn).0 p same (λ c. c) g
  Elsewhere-Guards st _ p (joins peer wire) g =
      same_pool st (register_channel st peer wire).0 p (registered-pool st peer wire) g
  Elsewhere-Guards st _ p (calls next same fewer waiting left kept closes nudges) g =
      called st next p same closes g

  Elsewhere-IsHeard :
      (st next : State noq) (p : Pump) → Elsewhere st next → IsHeard (st, p) → IsHeard (next, p)
  Elsewhere-IsHeard st _ p (registers url conn foreign) h = registered-IsHeard st p url conn h
  Elsewhere-IsHeard st _ p (joins peer wire) h =
      same-IsHeard st (register_channel st peer wire).0 p (registered-pool st peer wire) h
  Elsewhere-IsHeard st _ p (calls next same fewer waiting left kept closes nudges) h =
      Loses-IsHeard st p (next, p) (record { pool = fewer; recvs = refl; waiting = waiting }) h

  Elsewhere-IsTuned :
      (st next : State noq) (p : Pump) → Elsewhere st next → IsTuned (st, p) → IsTuned (next, p)
  unfolding register_relay kick_pump
  Elsewhere-IsTuned st _ p (registers url conn foreign) h = h
  Elsewhere-IsTuned st _ p (joins peer wire) h = registered-IsTuned st p peer wire h
  Elsewhere-IsTuned st _ p (calls next same fewer waiting left kept closes nudges) h =
      λ id entry there.
        subst (λ new. Memᴰ (id, entry.wire) (p.channel_recvs ++ new)) (sym kept)
          (h id entry (left id entry there))

  nudged : (st next : State noq) (p : Pump) → Nudges st next → IsAwake (st, p) → IsAwake (next, p)
  nudged st next p (inl (kick, waker)) h now = waker ∙ h (sym kick ∙ now)
  nudged st next p (inr (kick, waker)) h now = waker

  Elsewhere-IsAwake :
      (st next : State noq) (p : Pump) → Elsewhere st next → IsAwake (st, p) → IsAwake (next, p)
  unfolding register_relay register_channel add_channel flip_route kick_pump
  Elsewhere-IsAwake st _ p (registers url conn foreign) h = λ now. refl
  Elsewhere-IsAwake st _ p (joins peer wire) h =
      if_cases (λ (r : State noq × _). IsAwake (r.0, p)) st.is_closed _ _ (λ t. h) (λ t now. refl)
  Elsewhere-IsAwake st _ p (calls next same fewer waiting left kept closes nudges) h =
      nudged st next p nudges h

  -- The facts, along every run.
  pub run-Guards :
      (first last : Spot noq) → Guards first.pair → Looping first last → Guards last.pair
  run-Guards first _ g begun = g
  run-Guards first _ g (steps m before after run e) =
      pump_step-IsStable Guards Guards-IsStable m before after e (λ u v st p x. x)
        (run-Guards first before g run)
  run-Guards first _ g (meanwhile before next run s) =
      Elsewhere-Guards before.pair.0 next before.pair.1 s (run-Guards first before g run)

  pub run-IsHeard :
      (first last : Spot noq) → IsHeard first.pair → Looping first last → IsHeard last.pair
  run-IsHeard first _ h begun = h
  run-IsHeard first _ h (steps m before after run e) =
      pump_step-IsStable IsHeard IsHeard-IsStable m before after e (λ u v st p x. x)
        (run-IsHeard first before h run)
  run-IsHeard first _ h (meanwhile before next run s) =
      Elsewhere-IsHeard before.pair.0 next before.pair.1 s (run-IsHeard first before h run)

  pub run-IsTuned :
      (first last : Spot noq) → IsTuned first.pair → Looping first last → IsTuned last.pair
  run-IsTuned first _ h begun = h
  run-IsTuned first _ h (steps m before after run e) =
      pump_step-IsStable IsTuned IsTuned-IsStable m before after e (λ u v st p x. x)
        (run-IsTuned first before h run)
  run-IsTuned first _ h (meanwhile before next run s) =
      Elsewhere-IsTuned before.pair.0 next before.pair.1 s (run-IsTuned first before h run)

  pub run-IsAwake :
      (first last : Spot noq) → IsAwake first.pair → Looping first last → IsAwake last.pair
  run-IsAwake first _ h begun = h
  run-IsAwake first _ h (steps m before after run e) =
      pump_step-IsStable IsAwake IsAwake-IsStable m before after e (λ u v st p x kick. absurd cc)
        (run-IsAwake first before h run)
  run-IsAwake first _ h (meanwhile before next run s) =
      Elsewhere-IsAwake before.pair.0 next before.pair.1 s (run-IsAwake first before h run)

  -- What the first fact says of an open endpoint.
  pub Guards-iff :
      (st : State noq) (p : Pump)
      → st.is_closed ≡ false
      → Guards (st, p)
      → (lookup home_relay st.relay_pool ≡ none) ↔ (is_some p.redial ≡ true)
  Guards-iff st p up (inl over) = absurd (cc (over, up))
  Guards-iff st p up (inr (inl (gone, armed))) = (λ _. armed, λ _. gone)
  Guards-iff st p up (inr (inr (live, still))) =
      (λ n. absurd (cc (live, n)), λ a. absurd (cc (a, ap is_some still)))
