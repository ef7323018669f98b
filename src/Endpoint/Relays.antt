-- ===== src/Endpoint/Relays.antt =====
-- The relay pool: `register_relay`, `retire_relay`, `retire_home`, `normalize_relay_url` and
-- `ensure_relay` with its claim, from endpoint/src/endpoint_impl.rs. A relay connection is a number,
-- the pointer to it; how a dial ends is an argument, and Race has its deadline.
pub mod Book
pub mod Pool
pub mod Reach
pub mod Shared
pub mod Race
use polymorph_iroh.Base.{
  ℕ, ◌+◌, ◌-◌, ◌*◌, ◌%◌, ◌^◌, Bool, true, false, not, Option, none, some, List, [], ◌∷◌, ◌++◌,
  Bytes, eqb, ltb, is_some, if◌then◌else◌, ◌⊎◌, inl, inr, codes, nat_key, bytes_key,
}
use polymorph_iroh.Base.Maps.{Map, lookup, insert, remove, contains}
use polymorph_iroh.Noq.{Noq}
use polymorph_iroh.Endpoint.{
  State, Error, closed, connect_failed, timed_out, close_relay, home_relay, kick_pump, wake_waiters,
  ask,
}

-- How `dial_relay` ends: the connection, its timeout, or its failure's text.
pub data DialOutcome : Type 0 where
  opened : ℕ → DialOutcome
  dial_timed_out : DialOutcome
  dial_failed : Bytes → DialOutcome

-- What the claim of `ensure_relay` gives: the pooled key, an error, the duty to dial, or a wait for
-- the one who dials.
pub data Ensure : Type 0 where
  pooled : ℕ → Ensure
  refused : Error → Ensure
  dials waits : Ensure

-- The URL without the slashes at its end.
unfoldable pub normalize_relay_url : Bytes → Bytes
normalize_relay_url [] = []
normalize_relay_url (c ∷ url) = without_slash c (normalize_relay_url url)
  where
    without_slash : ℕ → Bytes → Bytes
    without_slash c [] = if eqb c 47 then [] else c ∷ []
    without_slash c (d ∷ rest) = c ∷ d ∷ rest

-- `relay_keys.retain(|_, mapped| *mapped != key)`; a key of the map stands in it once.
pub forget_key : ℕ → Map Bytes ℕ → Map Bytes ℕ
forget_key key [] = []
forget_key key ((url, mapped) ∷ keys) =
    if eqb mapped key then remove url (forget_key key keys) else (url, mapped) ∷ forget_key key keys

module _ {noq : Noq} where
  -- `next_relay_key` is a u32.
  unfoldable pub register_relay : State noq → Bytes → ℕ → State noq × ℕ
  register_relay st url conn =
      let key = st.next_relay_key in
      (
        kick_pump (record st {
          next_relay_key = (key + 1) % 2 ^ 32;
          relay_pool = insert key conn st.relay_pool;
          relay_keys = insert (normalize_relay_url url) key st.relay_keys;
          new_relays = st.new_relays ++ ((key, conn) ∷ []);
        }),
        key,
      )

  unfoldable pub retire_relay : State noq → ℕ → State noq × Option ℕ
  retire_relay st key = (
    record st { relay_pool = remove key st.relay_pool; relay_keys = forget_key key st.relay_keys },
    lookup key st.relay_pool,
  )

  unfoldable pub is_pool_current : State noq → ℕ → ℕ → Bool
  is_pool_current st key conn = elim (lookup key st.relay_pool) [
    | none ↦ false
    | some live ↦ eqb live conn
  ]

  -- Whether this call retired it, and so owns arming the redial.
  unfoldable pub retire_home : State noq → ℕ → State noq × Bool
  retire_home st conn =
      if is_pool_current st home_relay conn
      then (
        ask (close_relay conn) (record st { relay_pool = remove home_relay st.relay_pool }),
        true,
      )
      else (st, false)

  unfoldable pub claim_open : State noq → Bytes → State noq × Ensure
  claim_open st normalized =
      if contains normalized st.relay_opening
      then (st, waits)
      else (record st { relay_opening = insert normalized tt st.relay_opening }, dials)

  -- `ensure_relay` up to its first wait.
  unfoldable pub begin_ensure : State noq → Bytes → State noq × Ensure
  begin_ensure st url = elim (lookup (normalize_relay_url url) st.relay_keys) [
    | some key ↦ (st, pooled key)
    | none ↦ if st.is_closed then (st, refused closed) else claim_open st (normalize_relay_url url)
  ]

  pub on_dial_end : State noq → Bytes → DialOutcome → State noq × (Error ⊎ ℕ)
  on_dial_end st url (opened conn) = let (next, key) = register_relay st url conn in (next, inr key)
  on_dial_end st url dial_timed_out =
      (st, inl (timed_out (codes "relay " ++ url ++ codes ": dial timed out")))
  on_dial_end st url (dial_failed text) =
      (st, inl (connect_failed (codes "relay " ++ url ++ codes ": " ++ text)))

  -- The drop of an armed `RelayClaim`; a dial that is over gives its claim up the same way.
  pub release_open : State noq → Bytes → State noq
  release_open st normalized =
      wake_waiters (record st { relay_opening = remove normalized st.relay_opening })

  -- `ensure_relay` after its dial.
  pub end_open : State noq → Bytes → DialOutcome → State noq × (Error ⊎ ℕ)
  end_open st url outcome = on_dial_end (release_open st (normalize_relay_url url)) url outcome

  -- A check of one who waits for another's dial since an instant; no result: it waits on.
  pub ensure_check : State noq → Bytes → ℕ → ℕ → Option (Error ⊎ ℕ)
  ensure_check st url started now = elim (lookup (normalize_relay_url url) st.relay_keys) [
    | some key ↦ some (inr key)
    | none ↦
        if not (contains (normalize_relay_url url) st.relay_opening)
        then some (inl (connect_failed (codes "a concurrent open of this relay failed")))
        else if st.is_closed
        then some (inl closed)
        else if ltb (30 * 10 ^ 9) (now - started)
        then some (inl (timed_out (codes "relay open timed out")))
        else none
  ]

  -- A redial of the home relay that succeeds: refused once the endpoint is closed.
  unfoldable pub home_redialed : State noq → ℕ → State noq × Bool
  home_redialed st conn =
      if st.is_closed
      then (ask (close_relay conn) st, false)
      else (wake_waiters (record st { relay_pool = insert home_relay conn st.relay_pool }), true)
