-- ===== src/Endpoint/Pump/Loop/Kicks.antt =====
-- What becomes of a kick of the pump, in endpoint/src/endpoint_impl.rs.
use polymorph_iroh.Base.{
  ℕ, ◌≡◌, ◌∙◌, refl, sym, ap, subst, ◌⊎◌, inl, inr, false, Option, none, some, if_cases, nat_key,
  bytes_key,
}
use polymorph_iroh.Relay.{ProbeStep, healthy}
use polymorph_iroh.Noq.{Noq}
use polymorph_iroh.Endpoint.{State, kick_pump}
use polymorph_iroh.Endpoint.Relays.{register_relay}
use polymorph_iroh.Endpoint.Routes.{register_channel, add_channel, flip_route}
use polymorph_iroh.Endpoint.Pump.{Pump}
use polymorph_iroh.Endpoint.Pump.Loop.{
  Phase, draining, relaying, udp_flush, channel_flush, arming, selecting, left, sending, PumpEvent,
  relay_ends, udp_ends, channel_ends, redial_ends, kicked, ticks, pends, Moment, Spot, at, select,
  pump_step,
}
use polymorph_iroh.Endpoint.Pump.Loop.Stable.{Calms, pump_step-IsStable}
use polymorph_iroh.Endpoint.Pump.Loop.Awake.{IsKicked, IsKicked-IsStable}
use polymorph_iroh.Endpoint.Pump.Loop.Runs.{
  Elsewhere, registers, joins, calls, Looping, begun, steps, meanwhile,
}

is_kicked : (event : PumpEvent) → (event ≡ kicked) ⊎ (event ≡ kicked → ⊥)
is_kicked (relay_ends n event) = inr (λ e. cc e)
is_kicked (udp_ends event) = inr (λ e. cc e)
is_kicked (channel_ends n event) = inr (λ e. cc e)
is_kicked (redial_ends result) = inr (λ e. cc e)
is_kicked kicked = inl refl
is_kicked (ticks waker verdict) = inr (λ e. cc e)
is_kicked (pends waker) = inr (λ e. cc e)

is_selecting : (phase : Phase) → (phase ≡ selecting) ⊎ (phase ≡ selecting → ⊥)
is_selecting draining = inr (λ e. cc e)
is_selecting relaying = inr (λ e. cc e)
is_selecting udp_flush = inr (λ e. cc e)
is_selecting channel_flush = inr (λ e. cc e)
is_selecting arming = inr (λ e. cc e)
is_selecting selecting = inl refl
is_selecting left = inr (λ e. cc e)
is_selecting (sending key conn) = inr (λ e. cc e)

module _ {noq : Noq} where
  -- A step of the select that takes the kick, and goes on to drain.
  abbrev pub IsTake : Moment → Spot noq → Spot noq → Type 0
  IsTake m before after = (before.phase ≡ selecting) × (m.event ≡ kicked) × (after.phase ≡ draining)

  -- A run in which the select takes a kick.
  abbrev pub Taken : {first last : Spot noq} → Looping first last → Type 0
  Taken begun = ⊥
  Taken (steps m before after run e) = Taken run ⊎ IsTake m before after
  Taken (meanwhile before next run s) = Taken run

  -- With a kick to answer the select neither sleeps nor ticks, and it may take the kick.
  abbrev pub Wakeful : Spot noq → Type 0
  Wakeful spot =
      let (st, p) = spot.pair in
      (now waker : ℕ) (draw : Option ℕ) (verdict : ℕ → ProbeStep)
      → (select st p now draw (pends waker) ≡ none)
        × (select st p now draw (ticks waker verdict) ≡ none)
        × (select st p now draw kicked ≡ some (at draining (record st { pump_kicked = false }, p)))

  pub IsKicked-Wakeful : (spot : Spot noq) → IsKicked spot.pair → Wakeful spot
  unfolding select
  IsKicked-Wakeful spot h now waker draw verdict = rw h (refl, refl, refl)

  drains :
      (m : Moment) (event : PumpEvent) (st : State noq) (p : Pump) (after : Spot noq)
      → event ≡ kicked
      → IsKicked (st, p)
      → select st p m.now m.draw event ≡ some after
      → after.phase ≡ draining
  drains m event st p after is h e =
      let next = at draining (record st { pump_kicked = false }, p) in
      let there : select st p m.now m.draw kicked ≡ some after =
        subst (λ (x : PumpEvent). select st p m.now m.draw x ≡ some after) is e in
      let same : ◌≡◌ {A = Spot noq} next after =
        cc ((IsKicked-Wakeful (at selecting (st, p)) h m.now 0 m.draw quiet).2, there) in
      ap Spot.phase (sym same)
    where
      quiet : ℕ → ProbeStep
      quiet key = healthy

  Elsewhere-IsKicked :
      (st next : State noq) (p : Pump) → Elsewhere st next → IsKicked (st, p) → IsKicked (next, p)
  unfolding register_relay register_channel add_channel flip_route kick_pump
  Elsewhere-IsKicked st _ p (registers url conn foreign) h = refl
  Elsewhere-IsKicked st _ p (joins peer wire) h =
      if_cases (λ (r : State noq × _). IsKicked (r.0, p)) st.is_closed _ _ (λ t. h) (λ t. refl)
  Elsewhere-IsKicked st _ p (calls next same fewer waiting still kept closes nudges) h =
      elim nudges [ inl (kick, waker) ↦ kick ∙ h | inr (kick, waker) ↦ kick ]

  step_kept :
      (m : Moment) (before after : Spot noq)
      → pump_step m before.phase before.pair.0 before.pair.1 ≡ some after
      → IsKicked before.pair
      → IsKicked after.pair ⊎ IsTake m before after
  unfolding pump_step
  step_kept m before after e h =
      let keeps : (before.phase ≡ selecting → Calms IsKicked m.event) → IsKicked after.pair =
        λ calms. pump_step-IsStable IsKicked IsKicked-IsStable m before after e calms h in
      elim (is_selecting before.phase) [
        | inr other ↦ inl (keeps (λ at_select. absurd (other at_select)))
        | inl at_select ↦ elim (is_kicked m.event) [
          | inr other ↦ inl (keeps (λ u is. absurd (other is)))
          | inl is ↦ inr (
            at_select,
            is,
            drains m m.event before.pair.0 before.pair.1 after is h (
                subst (λ phase. pump_step m phase before.pair.0 before.pair.1 ≡ some after)
                  at_select e),
          )
        ]
      ]

  -- A kick stays, or a select takes it.
  pub kick_kept :
      (first last : Spot noq) (run : Looping first last)
      → IsKicked first.pair
      → IsKicked last.pair ⊎ Taken run
  kick_kept first _ begun h = inl h
  kick_kept first _ (steps m before after run e) h = elim (kick_kept first before run h) [
    | inr taken ↦ inr (inl taken)
    | inl kick ↦ elim (step_kept m before after e kick) [
      | inl kept ↦ inl kept
      | inr takes ↦ inr (inr takes)
    ]
  ]
  kick_kept first _ (meanwhile before next run s) h = elim (kick_kept first before run h) [
    | inr taken ↦ inr taken
    | inl kick ↦ inl (Elsewhere-IsKicked before.pair.0 next before.pair.1 s kick)
  ]
