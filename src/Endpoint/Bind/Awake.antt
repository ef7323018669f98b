-- ===== src/Endpoint/Bind/Awake.antt =====
-- The sleep of the pump that `bind` of endpoint/src/endpoint_impl.rs spawns, and the kicks of the
-- other tasks.
use polymorph_iroh.Base.{
  ℕ, ◌≡◌, refl, subst, inl, inr, false, Option, none, some, ◌⊎◌, [], ◌∷◌, ◌++◌, Bool-cases, nat_key,
  bytes_key,
}
use polymorph_iroh.Noq.{Noq}
use polymorph_iroh.Identity.{Crypto}
use polymorph_iroh.Udp.{Sockets}
use polymorph_iroh.Endpoint.{State, kick_pump, wake_pump}
use polymorph_iroh.Endpoint.Relays.{register_relay}
use polymorph_iroh.Endpoint.Pump.Loop.{Spot}
use polymorph_iroh.Endpoint.Pump.Loop.Awake.{IsAwake, IsKicked}
use mathlib.Core.List.{append-nil}
use polymorph_iroh.Endpoint.Pump.{Pump}
use polymorph_iroh.Endpoint.Pump.Loop.Kicks.{Taken, Wakeful, IsKicked-Wakeful, kick_kept}
use polymorph_iroh.Endpoint.Pump.Loop.Runs.{Looping, run-IsAwake}
use polymorph_iroh.Endpoint.Bind.{Options, BindEnv, Endpoint, bound_at, bind}
use polymorph_iroh.Endpoint.Bind.Opened.{spawned, bind_inverts}

-- A pump without a waker runs, and one with a waker sleeps: it has no kick to answer, and the next
-- kick wakes that waker.
abbrev pub Rouses : {noq : Noq} → State noq → Option ℕ → Type 0
Rouses st none = (kick_pump st).effects ≡ st.effects
Rouses st (some waker) =
    (st.pump_kicked ≡ false) × ((kick_pump st).effects ≡ st.effects ++ (wake_pump waker ∷ []))

-- The spot after a kick.
abbrev pub kicked_at : {noq : Noq} → Spot noq → Spot noq
kicked_at spot = record spot { pair = (kick_pump spot.pair.0, spot.pair.1) }

awake-Rouses :
    {noq : Noq} (st : State noq) (p : Pump) (parked : Option ℕ)
    → st.pump_waker ≡ parked
    → IsAwake (st, p)
    → Rouses st parked
unfolding kick_pump
awake-Rouses st p none asleep awake = rw asleep (append-nil st.effects)
awake-Rouses st p (some waker) asleep awake = (
  elim (Bool-cases st.pump_kicked) [
    | inl kick ↦ absurd (cc (asleep, awake kick))
    | inr calm ↦ calm
  ],
  rw asleep refl,
)

kick-IsKicked : {noq : Noq} (st : State noq) (p : Pump) → IsKicked (kick_pump st, p)
unfolding kick_pump
kick-IsKicked st p = refl

module _ {noq : Noq} {c : Crypto} (env : BindEnv noq c) (u : Sockets) where
  started-IsAwake :
      (o : Options c) (e : Endpoint noq c u) → bind env u o ≡ inr e → IsAwake (e.shared, e.pump)
  unfolding bound_at register_relay kick_pump
  started-IsAwake o e h =
      let (url, relay, engine, udp, _, _, same) = bind_inverts env u o e h in
      subst (λ (x : Endpoint noq c u). IsAwake (x.shared, x.pump)) same (λ now. refl)

  -- No kick is lost. From `bind` on, whatever the steps of the pump's loop meet, and whatever the
  -- other tasks do between them within `Elsewhere`, that is, except moving the home relay,
  -- registering a relay under its key, adding a wire or changing those to be armed other than by
  -- registering one, reopening the endpoint, or touching the kick and the waker of the pump other
  -- than by a kick: a kick wakes the pump's waker where it has left one, and then no earlier kick is
  -- waiting. From the kick on, for as long as the run goes on in the same way, either the pump is
  -- still kicked, and its select can then neither sleep nor tick but can take the kick, or a select
  -- has taken it and gone on to drain.
  pub bound_wakes :
      (o : Options c) (e : Endpoint noq c u) (last later : Spot noq)
      (after : Looping (kicked_at last) later)
      → bind env u o ≡ inr e
      → Looping (spawned env u e) last
      → Rouses last.pair.0 last.pair.0.pump_waker
        × (IsKicked later.pair × Wakeful later ⊎ Taken after)
  bound_wakes o e last later after h run = (
    awake-Rouses last.pair.0 last.pair.1 last.pair.0.pump_waker refl
        (run-IsAwake (spawned env u e) last (started-IsAwake o e h) run),
    elim (kick_kept (kicked_at last) later after (kick-IsKicked last.pair.0 last.pair.1)) [
      | inl kept ↦ inl (kept, IsKicked-Wakeful later kept)
      | inr taken ↦ inr taken
    ],
  )
