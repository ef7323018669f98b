-- ===== src/Endpoint/Relays/Reach.antt =====
-- The relay pool along every sequence of opens, failures and redials.
use polymorph_iroh.Base.{
  ℕ, ◌+◌, ◌%◌, ◌^◌, ◌<◌, ◌≡◌, ◌≢◌, inl, inr, Bool, some, Bytes, if_cases, Option-cases, nat_key,
  bytes_key, arith,
}
use polymorph_iroh.Base.Maps.{lookup, contains, lookup-remove_self}
use polymorph_iroh.Noq.{Noq}
use polymorph_iroh.Endpoint.{State, home_relay, new_state, kick_pump, wake_waiters}
use polymorph_iroh.Endpoint.Relays.{
  DialOutcome, Ensure, opened, dial_timed_out, dial_failed, normalize_relay_url, register_relay,
  retire_relay, is_pool_current, retire_home, claim_open, begin_ensure, on_dial_end, release_open,
  end_open, home_redialed,
}
use polymorph_iroh.Endpoint.Relays.Book.{IsPooled, book}
use polymorph_iroh.Endpoint.Relays.Pool.{
  with_relay-IsPooled, without_relay-IsPooled, opened-IsPooled, released-IsPooled,
  without_home-IsPooled, with_home-IsPooled, bound-IsPooled,
}

module _ {noq : Noq} where
  -- One operation on the pool: a call of `ensure_relay` begins, its dial ends or is cancelled while
  -- it holds the claim, a foreign relay or the home relay is lost, or the home relay is redialed.
  -- Any other operation leaves the book as it is. Keys do not run out.
  pub data PoolStep (st : State noq) : State noq → Type 0 where
    ensures : (url : Bytes) → PoolStep st (begin_ensure st url).0
    dialled :
        (url : Bytes) (outcome : DialOutcome)
        → lookup (normalize_relay_url url) st.relay_opening ≡ some tt
        → st.next_relay_key + 1 < 2 ^ 32
        → PoolStep st (end_open st url outcome).0
    cancelled : (url : Bytes) → PoolStep st (release_open st (normalize_relay_url url))
    foreign_lost : (key : ℕ) → key ≢ home_relay → PoolStep st (retire_relay st key).0
    home_lost : (conn : ℕ) → PoolStep st (retire_home st conn).0
    redialed : (conn : ℕ) → PoolStep st (home_redialed st conn).0
    elsewhere : (next : State noq) → book next ≡ book st → PoolStep st next

  -- An endpoint as `bind` leaves it, with its home relay, and what becomes of it.
  pub data Pooling : State noq → Type 0 where
    bound :
        (engine : noq.Engine) (webrtc : Bool) (url : Bytes) (conn : ℕ)
        → Pooling (register_relay (new_state noq engine webrtc) url conn).0
    step : (st next : State noq) → Pooling st → PoolStep st next → Pooling next

  ensures-IsPooled :
      (st : State noq) (url : Bytes) → IsPooled (book st) → IsPooled (book (begin_ensure st url).0)
  unfolding begin_ensure claim_open
  ensures-IsPooled st url p = elim (Option-cases (lookup (normalize_relay_url url) st.relay_keys)) [
    | inr (k, there) ↦ rw (begin_ensure, there) p
    | inl new ↦
        rw (begin_ensure, new)
          (if_cases (λ (r : State noq × Ensure). IsPooled (book r.0)) st.is_closed _ _ (λ t. p)
            (λ t.
              if_cases (λ (r : State noq × Ensure). IsPooled (book r.0))
                (contains (normalize_relay_url url) st.relay_opening) _ _ (λ v. p)
                (λ v. opened-IsPooled (book st) (normalize_relay_url url) new p)))
  ]

  released_state-IsPooled :
      (st : State noq) (url : Bytes) → IsPooled (book st) → IsPooled (book (release_open st url))
  unfolding release_open wake_waiters
  released_state-IsPooled st url p = released-IsPooled (book st) url p

  dialled-IsPooled :
      (st : State noq) (url : Bytes) (outcome : DialOutcome)
      → lookup (normalize_relay_url url) st.relay_opening ≡ some tt
      → st.next_relay_key + 1 < 2 ^ 32
      → IsPooled (book st)
      → IsPooled (book (end_open st url outcome).0)
  unfolding end_open on_dial_end register_relay kick_pump release_open wake_waiters
  dialled-IsPooled st url (opened conn) held fits p =
      let at = normalize_relay_url url in
      let whole : (st.next_relay_key + 1) % 2 ^ 32 ≡ st.next_relay_key + 1 = omega arith in
      rw whole (
        with_relay-IsPooled (book (release_open st at)) at conn (released_state-IsPooled st at p)
          (p.apart at held) (lookup-remove_self at st.relay_opening))
  dialled-IsPooled st url dial_timed_out held fits p =
      released_state-IsPooled st (normalize_relay_url url) p
  dialled-IsPooled st url (dial_failed text) held fits p =
      released_state-IsPooled st (normalize_relay_url url) p

  PoolStep-IsPooled :
      (st next : State noq) → PoolStep st next → IsPooled (book st) → IsPooled (book next)
  unfolding retire_relay retire_home home_redialed wake_waiters
  PoolStep-IsPooled st _ (ensures url) p = ensures-IsPooled st url p
  PoolStep-IsPooled st _ (dialled url outcome held fits) p =
      dialled-IsPooled st url outcome held fits p
  PoolStep-IsPooled st _ (cancelled url) p = released_state-IsPooled st (normalize_relay_url url) p
  PoolStep-IsPooled st _ (foreign_lost key foreign) p =
      without_relay-IsPooled (book st) key foreign p
  PoolStep-IsPooled st _ (home_lost conn) p =
      if_cases (λ (r : State noq × Bool). IsPooled (book r.0)) (is_pool_current st home_relay conn)
        _ _ (λ t. without_home-IsPooled (book st) p) (λ t. p)
  PoolStep-IsPooled st _ (redialed conn) p =
      if_cases (λ (r : State noq × Bool). IsPooled (book r.0)) st.is_closed _ _ (λ t. p)
        (λ t. with_home-IsPooled (book st) conn p)
  PoolStep-IsPooled st next (elsewhere _ same) p = rw same p

  -- In every endpoint that is bound with a home relay and then opens, loses and redials relays in
  -- any order, while the 32-bit keys do not run out, each relay URL has the key of a relay in the
  -- pool, or of the home relay, which may be out of it; each pooled relay has one URL; and no URL
  -- that has a key is being opened.
  pub pool_sound : (st : State noq) → Pooling st → IsPooled (book st)
  unfolding register_relay kick_pump
  pool_sound _ (bound engine webrtc url conn) = bound-IsPooled (normalize_relay_url url) conn
  pool_sound next (step st _ before s) = PoolStep-IsPooled st next s (pool_sound st before)
