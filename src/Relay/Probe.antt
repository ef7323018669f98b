-- ===== src/Relay/Probe.antt =====
-- `probe_step` of core/src/relay.rs: what its verdicts mean, and a silent wire.
use polymorph_iroh.Base.{
  ℕ, zero, suc, ◌+◌, ◌-◌, ◌*◌, ◌/◌, ◌%◌, ◌^◌, ◌≤◌, ◌<◌, ◌≡◌, refl, sym, subst, ap, ◌↔◌, ◌⊎◌, inl,
  inr, Option, none, some, [], ◌∷◌, leb, length, Bytes, arith, Bool-cases, Option-cases, leb→le,
}
use native.Mathlib.Nat.{pow-suc}
use polymorph_iroh.Relay.{
  RelayConn, ProbeStep, healthy, ping, dead, probe_step, probe_quiet, le_bytes,
}

-- A probe is out and nothing has come in since it was sent.
abbrev pub Unanswered : RelayConn → ℕ → Type 0
Unanswered conn sent = (conn.probe ≡ some sent) × (conn.last_inbound ≤ sent)

-- The wire is declared dead exactly when a probe is unanswered for the deadline, and then the
-- connection is left as it was.
dead_iff :
    (conn : RelayConn) (now quiet deadline : ℕ)
    → (probe_step conn now quiet deadline ≡ (dead, conn))
      ↔ ((sent : ℕ) × Unanswered conn sent × (deadline ≤ now - sent))
unfolding probe_step
dead_iff conn now quiet deadline = (to conn.probe refl, from)
  where
    to :
        (p : Option ℕ)
        → conn.probe ≡ p
        → probe_step conn now quiet deadline ≡ (dead, conn)
        → (sent : ℕ) × Unanswered conn sent × (deadline ≤ now - sent)
    to none e h = ground arith
    to (some sent) e h = (sent, (e, ground arith), ground arith)

    from :
        ((sent : ℕ) × Unanswered conn sent × (deadline ≤ now - sent))
        → probe_step conn now quiet deadline ≡ (dead, conn)
    from (sent, (e, u), d) = ground arith

-- The number that bytes stand for, the lowest first.
abbrev pub from_le : Bytes → ℕ
from_le [] = 0
from_le (b ∷ bs) = b + 256 * from_le bs

from_le-le_bytes : (k n : ℕ) → n < 256 ^ k → from_le (le_bytes k n) ≡ n
unfolding le_bytes
from_le-le_bytes zero n h = omega arith
from_le-le_bytes (suc k) n h =
    omega (arith, from_le-le_bytes k (n / 256) (below n (256 ^ k) (omega (arith, pow-suc 256 k))))
  where
    below : (n p : ℕ) → n < p * 256 → n / 256 < p
    below n p h = omega arith

length-le_bytes : (k n : ℕ) → length (le_bytes k n) ≡ k
unfolding le_bytes
length-le_bytes zero n = refl
length-le_bytes (suc k) n = ap suc (length-le_bytes k (n / 256))

-- What holds of a verdict and of the connection after it.
abbrev pub Sound : RelayConn → ℕ → ℕ → ProbeStep × RelayConn → Type 0
Sound conn now quiet (ping payload, next) =
    (quiet ≤ now - conn.last_inbound)
    × (length payload ≡ 8)
    × (from_le payload ≡ (conn.probe_seq + 1) % 2 ^ 64)
    × (next ≡ record conn { probe = some now; probe_seq = (conn.probe_seq + 1) % 2 ^ 64 })
    × ((sent : ℕ) → conn.probe ≡ some sent → sent < conn.last_inbound)
Sound conn now quiet (healthy, next) =
    (next.pending ≡ conn.pending)
    × (next.last_inbound ≡ conn.last_inbound)
    × (next.probe_seq ≡ conn.probe_seq)
    × ((next.probe ≡ conn.probe) ⊎ (next.probe ≡ none))
Sound conn now quiet (dead, next) = next ≡ conn

probe_quiet-Sound :
    (conn : RelayConn) (p : Option ℕ) (now quiet : ℕ)
    → (p ≡ conn.probe) ⊎ (p ≡ none)
    → ((sent : ℕ) → conn.probe ≡ some sent → sent < conn.last_inbound)
    → Sound conn now quiet (probe_quiet (record conn { probe = p }) now quiet)
unfolding probe_quiet
probe_quiet-Sound conn p now quiet h answered =
    elim (Bool-cases (leb quiet (now - conn.last_inbound))) [
      | inl e ↦ rw e (
        leb→le _ _ e,
        length-le_bytes 8 ((conn.probe_seq + 1) % 2 ^ 64),
        from_le-le_bytes 8 ((conn.probe_seq + 1) % 2 ^ 64) (omega arith),
        refl,
        answered,
      )
      | inr e ↦ rw e (refl, refl, refl, h)
    ]

-- The four ways through `probe_step`.
probe_step_cases :
    (conn : RelayConn) (now quiet deadline : ℕ)
    → ((conn.probe ≡ none) × (probe_step conn now quiet deadline ≡ probe_quiet conn now quiet))
      ⊎ ((sent : ℕ) × (conn.probe ≡ some sent)
          × ((sent < conn.last_inbound)
                × (probe_step conn now quiet deadline
                    ≡ probe_quiet (record conn { probe = none }) now quiet)
              ⊎ (probe_step conn now quiet deadline ≡ (dead, conn))
              ⊎ (probe_step conn now quiet deadline ≡ (healthy, conn))))
unfolding probe_step
probe_step_cases conn now quiet deadline = elim (Option-cases conn.probe) [
  | inl e ↦ inl (e, ground arith)
  | inr (sent, e) ↦ inr (sent, e, ground arith)
]

-- On every connection and at every time the verdict is sound: a ping goes out only on a wire that was
-- quiet long enough and has no unanswered probe; it is 8 bytes, the next count of the probes, and it
-- is the one probe that is out from then on. A healthy verdict keeps the queue, the inbound stamp
-- and the count, and keeps or clears the probe. A dead one changes nothing.
probe_step-Sound :
    (conn : RelayConn) (now quiet deadline : ℕ)
    → Sound conn now quiet (probe_step conn now quiet deadline)
probe_step-Sound conn now quiet deadline =
    let P = Sound conn now quiet in
    elim (probe_step_cases conn now quiet deadline) [
      | inl (e, q) ↦
          subst P (sym q)
            (probe_quiet-Sound conn conn.probe now quiet (inl refl) (λ sent h. cc (e, h)))
      | inr (sent, e, inl (b, q)) ↦
          subst P (sym q)
            (probe_quiet-Sound conn none now quiet (inr refl) (λ other h. ground (arith, e, h, b)))
      | inr (sent, e, inr (inl q)) ↦ subst P (sym q) refl
      | inr (sent, e, inr (inr q)) ↦ subst P (sym q) (refl, refl, refl, inl refl)
    ]

-- A wire that stays silent is found dead: from a connection with no probe out, a step after the
-- quiet time sends a ping, every step before the deadline after that is healthy and changes
-- nothing, and every step from the deadline on says dead.
pub silent_wire_dies :
    (conn : RelayConn) (first early late quiet deadline : ℕ)
    → conn.probe ≡ none
    → conn.last_inbound + quiet ≤ first
    → first ≤ early
    → early < first + deadline
    → first + deadline ≤ late
    → (payload : Bytes) × (pinged : RelayConn) × (probe_step conn first quiet deadline
        ≡ (ping payload, pinged))
      × (probe_step pinged early quiet deadline ≡ (healthy, pinged))
      × (probe_step pinged late quiet deadline ≡ (dead, pinged))
unfolding probe_step
silent_wire_dies conn first early late quiet deadline e q before after due =
    let seq = (conn.probe_seq + 1) % 2 ^ 64 in
    (
      le_bytes 8 seq,
      record conn { probe = some first; probe_seq = seq },
      ground arith,
      ground arith,
      ground arith,
    )
