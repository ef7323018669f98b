-- ===== src/Backoff.antt =====
-- The home relay's redial backoff: `redial_delay` and `next_redial_delay` of
-- endpoint/src/endpoint_impl.rs. Durations are nanoseconds; a random draw is a number below 2^16, or
-- `none` where the source of randomness refuses.
use native.Mathlib.Nat.{pow-le-pow_right, one-le-pow, mul-le-mul_left, zero-add}
use native.Mathlib.Decide.{dec_le}
use polymorph_iroh.Base.{
  ℕ, ◌+◌, ◌-◌, ◌*◌, ◌/◌, ◌%◌, ◌^◌, ◌≤◌, ◌<◌, min, ◌≡◌, refl, Bool, false, Option, none, some, List,
  [], ◌∷◌, ltb, leb, if◌then◌else◌, length, arith, ap, ◌∙◌, le→leb,
}

abbrev pub redial_min_delay : ℕ
redial_min_delay = 10_000_000

abbrev pub redial_max_delay : ℕ
redial_max_delay = 5_000_000_000

abbrev pub redial_established : ℕ
redial_established = 10_000_000_000

-- `1u32.checked_shl(by)`
abbrev checked_shl_one : ℕ → Option ℕ
checked_shl_one by = if ltb by 32 then some (2 ^ by % 2 ^ 32) else none

-- `Duration::checked_mul`: a duration holds 2^64 seconds.
abbrev checked_mul : ℕ → ℕ → Option ℕ
checked_mul d factor = if ltb (d * factor) (2 ^ 64 * 1_000_000_000) then some (d * factor) else none

abbrev unwrap_or : Option ℕ → ℕ → ℕ
unwrap_or none d = d
unwrap_or (some a) d = a

pub redial_base : ℕ → ℕ
redial_base attempt =
    let factor = unwrap_or (checked_shl_one (min attempt 31)) (2 ^ 32 - 1) in
    min (unwrap_or (checked_mul redial_min_delay factor) redial_max_delay) redial_max_delay

pub redial_delay : ℕ → Option ℕ → ℕ
redial_delay attempt draw =
    let base = redial_base attempt in
    let spread = unwrap_or draw 0 in
    let jitter = base / 65535 * spread % 2 ^ 64 in min (base + jitter) redial_max_delay

-- The backoff state of the pump: `redial_attempt` and `home_since`.
pub record Backoff : Type 0 where
  pub attempt : ℕ
  pub home_since : Option ℕ

-- Whether a home relay registered at `home_since` had been sound long enough.
abbrev pub established : Option ℕ → ℕ → Bool
established none now = false
established (some since) now = leb redial_established (now - since)

-- `attempt.saturating_add(1)`
abbrev saturating_suc : ℕ → ℕ
saturating_suc attempt = min (attempt + 1) (2 ^ 32 - 1)

pub next_redial_delay : Backoff → ℕ → Option ℕ → ℕ × Backoff
next_redial_delay b now draw =
    if established b.home_since now then (0, record { attempt = 0; home_since = none }) else (
      redial_delay b.attempt draw,
      record { attempt = saturating_suc b.attempt; home_since = none },
    )

pow_mono : (k : ℕ) → 2 ^ min k 31 ≤ 2 ^ 31
pow_mono k = pow-le-pow_right {n = 2} (omega arith) {j = 31} (omega arith)

-- No shift, product or sum of the code overflows: the base is the plain doubling, capped.
redial_base_lem :
    (attempt : ℕ) → redial_base attempt ≡ min (10_000_000 * 2 ^ min attempt 31) redial_max_delay
unfolding redial_base
redial_base_lem attempt = ground (arith, pow_mono attempt)

-- At every attempt the base is the first delay doubled per attempt, up to the ceiling: the cut of
-- the shift at 31 is never seen.
redial_base-doubles :
    (attempt : ℕ) → redial_base attempt ≡ min (redial_min_delay * 2 ^ attempt) redial_max_delay
redial_base-doubles attempt = elim (dec_le attempt 31) [
  | yes h ↦ rw (redial_base_lem attempt, min_small attempt h)
  | no h ↦
      rw (redial_base_lem attempt, min_large attempt (omega arith))
        (omega (arith, pow-le-pow_right {n = 2} (omega arith) {i = 31} {j = attempt} (omega arith)))
]
  where
    min_small : (k : ℕ) → k ≤ 31 → min k 31 ≡ k
    min_small k h = omega arith

    min_large : (k : ℕ) → 31 ≤ k → min k 31 ≡ 31
    min_large k h = omega arith

redial_base_range :
    (attempt : ℕ)
    → (redial_min_delay ≤ redial_base attempt) × (redial_base attempt ≤ redial_max_delay)
redial_base_range attempt =
    omega (arith, redial_base-doubles attempt, one-le-pow attempt 2 (omega arith))

jitter_le : (base draw : ℕ) → draw < 2 ^ 16 → base / 65535 * draw ≤ base
jitter_le base draw h =
    let capped : draw ≤ 65535 = omega arith in omega (arith, mul-le-mul_left (base / 65535) capped)

-- With any draw a delay lies between the base and twice the base, and between the first delay and
-- the ceiling; without a draw it is the base.
redial_delay_bounds :
    (attempt draw : ℕ)
    → draw < 2 ^ 16
    → (redial_base attempt ≤ redial_delay attempt (some draw))
      × (redial_delay attempt (some draw) ≤ 2 * redial_base attempt)
      × (redial_min_delay ≤ redial_delay attempt (some draw))
      × (redial_delay attempt (some draw) ≤ redial_max_delay)
      × (redial_delay attempt none ≡ redial_base attempt)
unfolding redial_delay
redial_delay_bounds attempt draw h =
    omega (arith, redial_base_range attempt, jitter_le (redial_base attempt) draw h)

-- The delays of a row of failures, the k-th with its own time and draw.
abbrev pub failures : Backoff → List (ℕ × Option ℕ) → Backoff
failures b [] = b
failures b ((now, draw) ∷ fs) = failures (next_redial_delay b now draw).1 fs

next-young :
    (k now : ℕ) (draw : Option ℕ)
    → (next_redial_delay (record { attempt = k; home_since = none }) now draw).1
      ≡ record { attempt = saturating_suc k; home_since = none }
unfolding next_redial_delay
next-young k now draw = refl

failures-count :
    (k : ℕ) (fs : List (ℕ × Option ℕ))
    → k + length fs < 2 ^ 32
    → failures (record { attempt = k; home_since = none }) fs
      ≡ record { attempt = k + length fs; home_since = none }
failures-count k [] h = ground arith
failures-count k ((now, draw) ∷ fs) h =
    rw (next-young k now draw, counted k (omega arith))
      (ground (arith, failures-count (k + 1) fs (omega arith)))
  where
    counted : (k : ℕ) → k + 1 < 2 ^ 32 → saturating_suc k ≡ k + 1
    counted k h = omega arith

next-established :
    (b : Backoff) (since now : ℕ) (draw : Option ℕ)
    → b.home_since ≡ some since
    → redial_established ≤ now - since
    → next_redial_delay b now draw ≡ (0, record { attempt = 0; home_since = none })
unfolding next_redial_delay
next-established b since now draw up long =
    ground (arith, le→leb redial_established (now - since) long)

delay-young :
    (k later : ℕ) (next : Option ℕ)
    → (next_redial_delay (record { attempt = k; home_since = none }) later next).0
      ≡ redial_delay k next
unfolding next_redial_delay
delay-young k later next = refl

-- A home relay that had been up for the established time is redialed at once, whatever came before,
-- and however many redials fail after that, the next delay is that of the plain doubling for their
-- number: the backoff restarts and counts each failure once.
backoff_restarts :
    (b : Backoff) (since now later : ℕ) (draw next : Option ℕ) (fs : List (ℕ × Option ℕ))
    → b.home_since ≡ some since
    → redial_established ≤ now - since
    → length fs < 2 ^ 32
    → ((next_redial_delay b now draw).0 ≡ 0)
      × ((next_redial_delay (failures (next_redial_delay b now draw).1 fs) later next).0
          ≡ redial_delay (length fs) next)
backoff_restarts b since now later draw next fs up long h =
    rw (next-established b since now draw up long) (
      refl,
      rw (failures-count 0 fs (omega arith)) (
          delay-young (0 + length fs) later next
          ∙ ap (λ (k : ℕ). redial_delay k next) (zero-add (length fs))),
    )
