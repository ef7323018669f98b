-- ===== src/Endpoint/Relays/Race.antt =====
-- The dial of a relay against its deadline: `dial_relay` and `redial_home` of
-- endpoint/src/endpoint_impl.rs. What the dial has come to at each poll is an argument.
use mathlib.Core.List.{Memᴰ}
use mathlib.Core.List.Memᴰ as Mem
use polymorph_iroh.Base.{
  ℕ, ◌+◌, ◌*◌, ◌^◌, ◌≤◌, ◌≡◌, ◌≢◌, refl, subst, inl, inr, ◌⊎◌, false, Option, none, some, List, [],
  ◌∷◌, ◌++◌, Bytes, codes, leb, if◌then◌else◌, if_cases, Option-cases, All, arith, nat_key,
}
use polymorph_iroh.Endpoint.Relays.{DialOutcome, opened, dial_timed_out, dial_failed}

abbrev pub dial_timeout : ℕ
dial_timeout = 10 * 10 ^ 9

-- A poll: the clock, and the end of the dial if it has one, a connection or a failure.
pub record Poll : Type 0 where
  pub now : ℕ
  pub dialled : Option (Bytes ⊎ ℕ)

-- The race of a dial begun at an instant; a dial that has ended wins. No result: both wait.
pub dial_relay : ℕ → List Poll → Option DialOutcome
dial_relay started [] = none
dial_relay started (p ∷ polls) = elim p.dialled [
  | some (inr conn) ↦ some (opened conn)
  | some (inl text) ↦ some (dial_failed text)
  | none ↦
      let rest = dial_relay started polls in
      if leb (started + dial_timeout) p.now then some dial_timed_out else rest
]

abbrev pub redial_result : Option DialOutcome → Option (Bytes ⊎ ℕ)
redial_result none = none
redial_result (some (opened conn)) = some (inr conn)
redial_result (some dial_timed_out) = some (inl (codes "relay dial timed out"))
redial_result (some (dial_failed text)) = some (inl text)

-- A redial asked for at an instant, with its delay: it waits that out, and then dials.
pub redial_home : ℕ → ℕ → List Poll → Option (Bytes ⊎ ℕ)
redial_home asked delay [] = none
redial_home asked delay (p ∷ polls) =
    let rest = redial_home asked delay polls in
    if leb (asked + delay) p.now then redial_result (dial_relay p.now (p ∷ polls)) else rest

not_late : (deadline : ℕ) (p q : Poll) → q ≡ p → deadline ≤ q.now → leb deadline p.now ≢ false
not_late deadline p q same late early =
    let at_p : deadline ≤ p.now = subst (λ (x : Poll). deadline ≤ x.now) same late in
    ground (arith, at_p, early)

dial_ends :
    (started : ℕ) (polls : List Poll) (q : Poll)
    → Memᴰ q polls
    → started + dial_timeout ≤ q.now
    → dial_relay started polls ≢ none
unfolding dial_relay
dial_ends started [] q there late = elim there [ ]
dial_ends started (p ∷ polls) q there late = elim (Option-cases p.dialled) [
  | inr (inr conn, h) ↦ rw (dial_relay, h) (λ e. cc e)
  | inr (inl text, h) ↦ rw (dial_relay, h) (λ e. cc e)
  | inl n ↦
      rw (dial_relay, n)
        (if_cases (λ r. r ≢ none) (leb (started + dial_timeout) p.now) (some dial_timed_out)
          (dial_relay started polls) (λ t e. cc e)
          (λ t. elim there [
            | Memᴰ.head same ↦ absurd (not_late (started + dial_timeout) p q same late t)
            | Memᴰ.tail m ↦ dial_ends started polls q m late
          ]))
]

redial_result-some : (r : Option DialOutcome) → r ≢ none → redial_result r ≢ none
redial_result-some none h e = h refl
redial_result-some (some (opened conn)) h e = cc e
redial_result-some (some dial_timed_out) h e = cc e
redial_result-some (some (dial_failed text)) h e = cc e

-- A redial of the home relay cannot be pinned. Whatever the relay does, if the clock does not go back
-- before a poll past the delay, and that poll or one behind it is later by the deadline of a dial,
-- the redial has ended, with a connection or with a failure.
pub redial_ends :
    (asked delay : ℕ) (before : List Poll) (p q : Poll) (behind : List Poll)
    → All (λ (r : Poll). r.now ≤ p.now) before
    → asked + delay ≤ p.now
    → Memᴰ q (p ∷ behind)
    → p.now + dial_timeout ≤ q.now
    → redial_home asked delay (before ++ (p ∷ behind)) ≢ none
unfolding redial_home
redial_ends asked delay [] p q behind forward due there late =
    if_cases (λ r. r ≢ none) (leb (asked + delay) p.now)
      (redial_result (dial_relay p.now (p ∷ behind))) (redial_home asked delay behind)
      (λ t.
        redial_result-some (dial_relay p.now (p ∷ behind))
          (dial_ends p.now (p ∷ behind) q there late))
      (λ t. absurd (not_late (asked + delay) p p refl due t))
redial_ends asked delay (r ∷ before) p q behind forward due there late =
    let all = before ++ (p ∷ behind) in
    if_cases (λ x. x ≢ none) (leb (asked + delay) r.now)
      (redial_result (dial_relay r.now (r ∷ all))) (redial_home asked delay all)
      (λ t. redial_result-some (dial_relay r.now (r ∷ all)) (
        dial_ends r.now (r ∷ all) q (Memᴰ.tail (Mem.append_right before there))
          (omega (arith, forward.0, late))))
      (λ t. redial_ends asked delay before p q behind forward.1 due there late)
