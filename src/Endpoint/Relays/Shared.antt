-- ===== src/Endpoint/Relays/Shared.antt =====
-- `ensure_relay`, called at the same time for one relay.
use polymorph_iroh.Base.{
  ℕ, ◌≡◌, refl, ap, ◌∙◌, ◌⊎◌, inl, inr, true, false, none, some, Bytes, codes, if_cases, nat_key,
  bytes_key,
}
use polymorph_iroh.Base.Maps.{lookup, insert, contains, lookup-insert_self, lookup-remove_self}
use polymorph_iroh.Noq.{Noq}
use polymorph_iroh.Endpoint.{State, Error, connect_failed, kick_pump, wake_waiters}
use polymorph_iroh.Endpoint.Relays.{
  DialOutcome, Ensure, opened, dial_timed_out, dial_failed, normalize_relay_url, register_relay,
  claim_open, begin_ensure, on_dial_end, release_open, end_open, ensure_check, dials, waits,
}

-- What a waiting call gets, by what the dialling one got.
abbrev pub shared : Error ⊎ ℕ → Error ⊎ ℕ
shared (inr key) = inr key
shared (inl e) = inl (connect_failed (codes "a concurrent open of this relay failed"))

module _ {noq : Noq} where
  abbrev claiming : State noq → Bytes → State noq
  claiming st at = record st { relay_opening = insert at tt st.relay_opening }

  begin_first :
      (st : State noq) (url : Bytes)
      → lookup (normalize_relay_url url) st.relay_keys ≡ none
      → st.is_closed ≡ false
      → contains (normalize_relay_url url) st.relay_opening ≡ false
      → begin_ensure st url ≡ (claiming st (normalize_relay_url url), dials)
  unfolding begin_ensure claim_open
  begin_first st url new up free =
      rw (begin_ensure, new)
        (if_cases (λ r. r ≡ (claiming st (normalize_relay_url url), dials)) st.is_closed _ _
          (λ t. cc (t, up))
          (λ t.
            if_cases (λ r. r ≡ (claiming st (normalize_relay_url url), dials))
              (contains (normalize_relay_url url) st.relay_opening) _ _ (λ v. cc (v, free))
              (λ v. refl)))

  begin_second :
      (st : State noq) (url : Bytes)
      → lookup (normalize_relay_url url) st.relay_keys ≡ none
      → st.is_closed ≡ false
      → contains (normalize_relay_url url) st.relay_opening ≡ true
      → begin_ensure st url ≡ (st, waits)
  unfolding begin_ensure claim_open
  begin_second st url new up taken =
      rw (begin_ensure, new)
        (if_cases (λ r. r ≡ (st, waits)) st.is_closed _ _ (λ t. cc (t, up))
          (λ t.
            if_cases (λ r. r ≡ (st, waits)) (contains (normalize_relay_url url) st.relay_opening) _
              _ (λ v. refl) (λ v. cc (v, taken))))

  check_pooled :
      (st : State noq) (url : Bytes) (started now key : ℕ)
      → lookup (normalize_relay_url url) st.relay_keys ≡ some key
      → ensure_check st url started now ≡ some (inr key)
  unfolding ensure_check
  check_pooled st url started now key there = rw (ensure_check, there) refl

  check_failed :
      (st : State noq) (url : Bytes) (started now : ℕ)
      → lookup (normalize_relay_url url) st.relay_keys ≡ none
      → lookup (normalize_relay_url url) st.relay_opening ≡ none
      → ensure_check st url started now
        ≡ some (inl (connect_failed (codes "a concurrent open of this relay failed")))
  unfolding ensure_check
  check_failed st url started now new over = rw (ensure_check, new, over) refl

  -- The other tasks have let the key and the claim of a relay be.
  abbrev pub Keeps : Bytes → State noq → State noq → Type 0
  Keeps at st next =
      (lookup at next.relay_keys ≡ lookup at st.relay_keys)
      × (lookup at next.relay_opening ≡ lookup at st.relay_opening)

  -- What the dialling call gets: the relay's new key, or an error.
  abbrev pub Dialled : State noq → DialOutcome → Error ⊎ ℕ → Type 0
  Dialled st (opened conn) result = result ≡ inr st.next_relay_key
  Dialled st _ result = (e : Error) × (result ≡ inl e)

  dial_ends :
      (st : State noq) (url : Bytes) (outcome : DialOutcome)
      → Dialled st outcome (end_open st url outcome).1
  unfolding end_open on_dial_end register_relay release_open kick_pump wake_waiters
  dial_ends st url (opened conn) = refl
  dial_ends st url dial_timed_out = (_, refl)
  dial_ends st url (dial_failed text) = (_, refl)

  waiter_ends :
      (st later : State noq) (url other : Bytes) (outcome : DialOutcome) (started now : ℕ)
      → normalize_relay_url other ≡ normalize_relay_url url
      → lookup (normalize_relay_url url) st.relay_keys ≡ none
      → Keeps (normalize_relay_url url) (end_open st url outcome).0 later
      → ensure_check later other started now ≡ some (shared (end_open st url outcome).1)
  unfolding end_open on_dial_end register_relay release_open kick_pump wake_waiters
  waiter_ends st later url other (opened conn) started now same new kept =
      let at = normalize_relay_url url in
      check_pooled later other started now st.next_relay_key
        (rw same (kept.0 ∙ lookup-insert_self at st.next_relay_key st.relay_keys))
  waiter_ends st later url other dial_timed_out started now same new kept =
      check_failed later other started now (rw same (kept.0 ∙ new))
        (rw same (kept.1 ∙ lookup-remove_self (normalize_relay_url url) st.relay_opening))
  waiter_ends st later url other (dial_failed text) started now same new kept =
      check_failed later other started now (rw same (kept.0 ∙ new))
        (rw same (kept.1 ∙ lookup-remove_self (normalize_relay_url url) st.relay_opening))

  -- Where a relay has no key, is not being dialled and the endpoint is open, the first caller of
  -- `ensure_relay` dials it, and any other one for the same relay that comes while it dials and the
  -- endpoint is open waits, whatever slashes end its URL. However the dial ends, once it has ended a
  -- check of the waiting call ends its wait: with the very key that the dialling one gets when the
  -- dial succeeded, and with a failure when it failed or timed out. Other tasks may run in between,
  -- as long as they let this relay's key and claim be.
  pub shared_open :
      (st mid later : State noq) (url other : Bytes) (outcome : DialOutcome) (started now : ℕ)
      → normalize_relay_url other ≡ normalize_relay_url url
      → lookup (normalize_relay_url url) st.relay_keys ≡ none
      → st.is_closed ≡ false
      → contains (normalize_relay_url url) st.relay_opening ≡ false
      → Keeps (normalize_relay_url url) (begin_ensure st url).0 mid
      → mid.is_closed ≡ false
      → Keeps (normalize_relay_url url) (end_open mid url outcome).0 later
      → ((begin_ensure st url).1 ≡ dials)
        × (begin_ensure mid other ≡ (mid, waits))
        × Dialled mid outcome (end_open mid url outcome).1
        × (ensure_check later other started now ≡ some (shared (end_open mid url outcome).1))
  shared_open st mid later url other outcome started now same new up free dialling still over =
      let at = normalize_relay_url url in
      let first = begin_first st url new up free in
      let keyless : lookup at mid.relay_keys ≡ none =
        dialling.0 ∙ ap (λ (x : State noq × Ensure). lookup at x.0.relay_keys) first ∙ new in
      let claimed : lookup at mid.relay_opening ≡ some tt =
        dialling.1
        ∙ ap (λ (x : State noq × Ensure). lookup at x.0.relay_opening) first
        ∙ lookup-insert_self at tt st.relay_opening in
      (
        ap (λ (x : State noq × Ensure). x.1) first,
        begin_second mid other (rw same keyless) still (rw (same, claimed) refl),
        dial_ends mid url outcome,
        waiter_ends mid later url other outcome started now same keyless over,
      )
