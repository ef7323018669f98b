-- ===== src/Endpoint/Pump/Losses.antt =====
-- What the pump of endpoint/src/endpoint_impl.rs loses of the relay pool, and the lists of its
-- receives.
use mathlib.Core.List.{Memᴰ}
use mathlib.Core.List.Memᴰ as Mem
use polymorph_iroh.Base.{
  ℕ, ◌≡◌, refl, ap, sym, subst, ◌∙◌, ◌⊎◌, inl, inr, Bool, ◌&&◌, Option, some, List, [], ◌∷◌, ◌++◌,
  eqb, if_cases, if◌then◌else◌, Option-cases, Bool-cases, nat_key, arith,
}
use polymorph_iroh.Base.Maps.{Map, lookup, remove, lookup-remove}
use polymorph_iroh.Noq.{Noq}
use polymorph_iroh.Relay.{ProbeStep, healthy, ping, dead}
use polymorph_iroh.Endpoint.{State, home_relay}
use polymorph_iroh.Endpoint.Relays.{is_pool_current, retire_home, retire_relay}
use polymorph_iroh.Endpoint.Pump.{Pump, arm_redial, lose_home, on_relay_sent, on_verdict, sweep}

-- Each relay of a pool is in a list of receives.
abbrev pub Listened : Map ℕ ℕ → List (ℕ × ℕ) → Type 0
Listened pool recvs = (key conn : ℕ) → lookup key pool ≡ some conn → Memᴰ (key, conn) recvs

-- The relays of one pool are in another.
abbrev pub Shrinks : Map ℕ ℕ → Map ℕ ℕ → Type 0
Shrinks next pool = (key conn : ℕ) → lookup key next ≡ some conn → lookup key pool ≡ some conn

pub remove-Shrinks : (key : ℕ) (pool : Map ℕ ℕ) → Shrinks (remove key pool) pool
remove-Shrinks key pool at conn h = ground (arith, lookup-remove key at pool, h)

-- One receive of some is over.
pub Mem-split :
    (x y : ℕ × ℕ) (before after new : List (ℕ × ℕ))
    → Memᴰ x ((before ++ (y ∷ after)) ++ new)
    → (x ≡ y) ⊎ Memᴰ x ((before ++ after) ++ new)
Mem-split x y [] after new (Memᴰ.head e) = inl e
Mem-split x y [] after new (Memᴰ.tail m) = inr m
Mem-split x y (z ∷ before) after new (Memᴰ.head e) = inr (Memᴰ.head e)
Mem-split x y (z ∷ before) after new (Memᴰ.tail m) = elim (Mem-split x y before after new m) [
  | inl e ↦ inl e
  | inr rest ↦ inr (Memᴰ.tail rest)
]

-- A receive is added behind some.
pub Mem-add :
    (x y : ℕ × ℕ) (recvs new : List (ℕ × ℕ))
    → Memᴰ x (recvs ++ new)
    → Memᴰ x ((recvs ++ (y ∷ [])) ++ new)
Mem-add x y [] new m = Memᴰ.tail m
Mem-add x y (z ∷ recvs) new (Memᴰ.head e) = Memᴰ.head e
Mem-add x y (z ∷ recvs) new (Memᴰ.tail m) = Memᴰ.tail (Mem-add x y recvs new m)

pub Mem-added : (x : ℕ × ℕ) (recvs new : List (ℕ × ℕ)) → Memᴰ x ((recvs ++ (x ∷ [])) ++ new)
Mem-added x [] new = Memᴰ.head refl
Mem-added x (z ∷ recvs) new = Memᴰ.tail (Mem-added x recvs new)

-- More receives come behind all.
pub Mem-later :
    (x : ℕ × ℕ) (recvs new more : List (ℕ × ℕ))
    → Memᴰ x (recvs ++ new)
    → Memᴰ x (recvs ++ (new ++ more))
Mem-later x [] new more m = Mem.append_left more m
Mem-later x (z ∷ recvs) new more (Memᴰ.head e) = Memᴰ.head e
Mem-later x (z ∷ recvs) new more (Memᴰ.tail m) = Memᴰ.tail (Mem-later x recvs new more m)

module _ {noq : Noq} where
  -- The receives that are armed and those that will be at the pump's next turn.
  abbrev pub IsHeard : State noq × Pump → Type 0
  IsHeard (st, p) = Listened st.relay_pool (p.relay_recvs ++ st.new_relays)

  -- What loses relays and touches no receive.
  pub record Loses (st : State noq) (p : Pump) (r : State noq × Pump) : Type 0 where
    pub pool : Shrinks r.0.relay_pool st.relay_pool
    pub recvs : r.1.relay_recvs ≡ p.relay_recvs
    pub waiting : r.0.new_relays ≡ st.new_relays

  pub Loses-refl : (st : State noq) (p : Pump) → Loses st p (st, p)
  Loses-refl st p = record { pool = λ key conn h. h; recvs = refl; waiting = refl }

  Loses-trans :
      (st : State noq) (p : Pump) (mid r : State noq × Pump)
      → Loses st p mid
      → Loses mid.0 mid.1 r
      → Loses st p r
  Loses-trans st p mid r a b = record {
    pool = λ key conn h. a.pool key conn (b.pool key conn h);
    recvs = b.recvs ∙ a.recvs;
    waiting = b.waiting ∙ a.waiting;
  }

  pub Loses-IsHeard :
      (st : State noq) (p : Pump) (r : State noq × Pump)
      → Loses st p r
      → IsHeard (st, p)
      → IsHeard r
  Loses-IsHeard st p r l h key conn there =
      subst (Memᴰ (key, conn))
        (sym (
          ap (λ (x : List (ℕ × ℕ)). x ++ r.0.new_relays) l.recvs
          ∙ ap (◌++◌ p.relay_recvs) l.waiting))
        (h key conn (l.pool key conn there))

  pub lose_home-Loses :
      (st : State noq) (p : Pump) (conn now : ℕ) (draw : Option ℕ)
      → Loses st p (lose_home st p conn now draw)
  unfolding lose_home retire_home arm_redial
  lose_home-Loses st p conn now draw =
      if_cases
        (λ (r : State noq × Bool). Loses st p (r.0, if r.1 then arm_redial p now draw else p))
        (is_pool_current st home_relay conn) _ _
        (λ t. record {
          pool = remove-Shrinks home_relay st.relay_pool;
          recvs = refl;
          waiting = refl;
        })
        (λ t. Loses-refl st p)

  pub on_relay_sent-Loses :
      (st : State noq) (p : Pump) (failed : Bool) (now : ℕ) (draw : Option ℕ) (key conn : ℕ)
      → Loses st p (on_relay_sent st p failed now draw key conn)
  unfolding on_relay_sent
  on_relay_sent-Loses st p failed now draw key conn =
      if_cases (Loses st p) (failed && eqb key home_relay) _ _
        (λ t. lose_home-Loses st p conn now draw) (λ t. Loses-refl st p)

  on_verdict-Loses :
      (st : State noq) (p : Pump) (now : ℕ) (draw : Option ℕ) (key conn : ℕ) (v : ProbeStep)
      → Loses st p (on_verdict st p now draw key conn v)
  unfolding on_verdict retire_relay
  on_verdict-Loses st p now draw key conn healthy = Loses-refl st p
  on_verdict-Loses st p now draw key conn (ping payload) = record {
    pool = λ at c h. h;
    recvs = refl;
    waiting = refl;
  }
  on_verdict-Loses st p now draw key conn dead = elim (Bool-cases (eqb key home_relay)) [
    | inl t ↦ rw (on_verdict, t) (lose_home-Loses st p conn now draw)
    | inr t ↦ elim (Option-cases (lookup key st.relay_pool)) [
      | inl n ↦ rw (on_verdict, t, n) retired
      | inr (c, h) ↦ rw (on_verdict, t, h) retired_too
    ]
  ]
    where
      retired : Loses st p ((retire_relay st key).0, p)
      retired = record { pool = remove-Shrinks key st.relay_pool; recvs = refl; waiting = refl }

      retired_too : {e : List _} → Loses st p (record (retire_relay st key).0 { effects = e }, p)
      retired_too = record { pool = remove-Shrinks key st.relay_pool; recvs = refl; waiting = refl }

  pub sweep-Loses :
      (verdict : ℕ → ProbeStep) (pool : Map ℕ ℕ) (st : State noq) (p : Pump) (now : ℕ)
      (draw : Option ℕ)
      → Loses st p (sweep verdict pool st p now draw)
  unfolding sweep
  sweep-Loses verdict [] st p now draw = Loses-refl st p
  sweep-Loses verdict ((key, conn) ∷ pool) st p now draw =
      let r = on_verdict st p now draw key conn (verdict conn) in
      Loses-trans st p r _ (on_verdict-Loses st p now draw key conn (verdict conn))
        (sweep-Loses verdict pool r.0 r.1 now draw)
