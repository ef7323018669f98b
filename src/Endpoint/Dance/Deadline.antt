-- ===== src/Endpoint/Dance/Deadline.antt =====
-- The deadline of a wait for a signal, in `next_signal` of endpoint/src/webrtc.rs.
use polymorph_iroh.Base.{
  ℕ, zero, suc, ◌+◌, ◌-◌, ◌<◌, ◌≤◌, ◌≡◌, ◌≢◌, refl, sym, Bool, true, false, Option, none, some,
  Bytes, ltb, lt→ltb, ltb→lt, ltb-false, arith, inl, inr, Bool-cases, if◌then◌else◌, codes,
}
use polymorph_iroh.Noq.{Noq}
use polymorph_iroh.Endpoint.{State, closed, connect_failed}
use polymorph_iroh.Endpoint.Signaling as Signaling
use polymorph_iroh.Endpoint.Dance.{
  World, Scene, Result, err, parked, Play, pause, park_waiter, on_pop, signal_check, on_check,
  wait_signal, signal_deadline, elapsed,
}

module _ {noq : Noq} (w : World noq) where
  -- From a turn on, more time has passed since `started` than the deadline.
  abbrev pub IsLate : ℕ → ℕ → Type 0
  IsLate started last = (t : ℕ) → last ≤ t → signal_deadline < w.time t - started

  -- A check keeps the turn, gives no `parked`, and gives something once the deadline is over.
  abbrev Checks : ℕ → Scene w → Scene w × Option (Result Bytes) → Type 0
  Checks started s (s', none) =
      (s'.turn ≡ s.turn) × (ltb signal_deadline (elapsed started s) ≡ false)
  Checks started s (s', some r) = r ≢ parked

  on_pop-Checks :
      (started : ℕ) (s : Scene w) (x : State noq × Option Bytes)
      → Checks started s (on_pop started s x)
  unfolding on_pop
  on_pop-Checks started s (st, some payload) = λ e. cc
  on_pop-Checks started s (st, none) = if_split (ltb signal_deadline (elapsed started s)) refl
    where
      if_split :
          (b : Bool)
          → b ≡ ltb signal_deadline (elapsed started s)
          → Checks started s (
            record s { st = st },
            if b then some (err (connect_failed (codes "webrtc signaling timed out"))) else none,
          )
      if_split true e = λ f. cc
      if_split false e = (refl, sym e)

  signal_check-Checks :
      (peer : Bytes) (started : ℕ) (s : Scene w) → Checks started s (signal_check peer started s)
  unfolding signal_check
  signal_check-Checks peer started s = by_flag s.st.is_closed
    where
      by_flag :
          (b : Bool)
          → Checks started s (
              if b
              then (s, some (err closed))
              else on_pop started s (Signaling.pop_signal_inbox s.st peer))
      by_flag true = λ e. cc
      by_flag false = on_pop-Checks started s (Signaling.pop_signal_inbox s.st peer)

  on_check-ends :
      (again : Play w Bytes) (started last : ℕ) (s : Scene w) (x : Scene w × Option (Result Bytes))
      → IsLate started last
      → Checks started s x
      → (s.turn < last → (s' : Scene w) → s'.turn ≡ s.turn + 1 → (again s').1 ≢ parked)
      → (on_check again x).1 ≢ parked
  unfolding park_waiter pause
  on_check-ends again started last s (s', some r) late h go = h
  on_check-ends again started last s (s', none) late h go =
      go not_late (park_waiter s') (omega (arith, h.0))
    where
      not_late : s.turn < last
      not_late = elim (Bool-cases (ltb s.turn last)) [
        | inl e ↦ ltb→lt s.turn last e
        | inr e ↦ absurd (
            cc (
              h.1,
              lt→ltb signal_deadline (elapsed started s) (late s.turn (ltb-false s.turn last e)),
            ))
      ]

  -- A wait for a signal ends: a peer that stays silent cannot hold a dance past its deadline. If the
  -- clock passes the deadline at some turn and stays past it, as many checks as there are turns until
  -- then, and one more, give a payload or an error, whatever the other tasks do.
  pub wait_signal_ends :
      (n : ℕ) (peer : Bytes) (started last : ℕ) (s : Scene w)
      → IsLate started last
      → last - s.turn < n
      → (wait_signal n peer started s).1 ≢ parked
  unfolding wait_signal
  wait_signal_ends zero peer started last s late enough = absurd (omega arith)
  wait_signal_ends (suc n) peer started last s late enough =
      on_check-ends (wait_signal n peer started) started last s (signal_check peer started s) late
        (signal_check-Checks peer started s)
        (λ before s' turn.
          wait_signal_ends n peer started last s' late (omega (arith, turn, before, enough)))
