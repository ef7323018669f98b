-- ===== src/Endpoint/Conns/Identity.antt =====
-- Which connections the endpoint treats as authenticated.
use polymorph_iroh.Base.{
  ℕ, ◌≡◌, ◌↔◌, refl, subst, ap, ◌∙◌, ◌⊎◌, inl, inr, true, false, Option, none, some, [], ◌∷◌, Bytes,
  codes, bytes_beq_iff, if◌then◌else◌, Bool-cases, Option-cases,
}
use polymorph_iroh.Noq.{Noq, connected}
use polymorph_iroh.Endpoint.{ConnEntry, connect_failed}
use polymorph_iroh.Endpoint.Conns.{
  tls_peer, expects, on_event, on_connected, by_key, authenticated, mismatched, new_alpn,
}

-- The key is one that the local side may talk to: the one it dialled or any if it accepted.
abbrev pub IsExpected : Option Bytes → Bytes → Type 0
IsExpected none id = Unit {0}
IsExpected (some peer) id = peer ≡ id

expects-IsExpected :
    (peer : Option Bytes) (id : Bytes) → expects peer id ≡ true → IsExpected peer id
expects-IsExpected none id e = tt
expects-IsExpected (some peer) id e = (bytes_beq_iff peer id).0 e

IsExpected-expects :
    (peer : Option Bytes) (id : Bytes) → IsExpected peer id → expects peer id ≡ true
IsExpected-expects none id e = refl
IsExpected-expects (some peer) id e = (bytes_beq_iff peer id).1 e

module _ {noq : Noq} where
  key-cases :
      (e : ConnEntry noq)
      → ((id : Bytes) × (tls_peer noq e.conn ≡ some id) × IsExpected e.expected_peer id)
        ⊎ (¬ ((id : Bytes) × (tls_peer noq e.conn ≡ some id) × IsExpected e.expected_peer id))
  key-cases e = elim (Option-cases (tls_peer noq e.conn)) [
    | inl n ↦ inr (λ (id, k, x). cc (n, k))
    | inr (id, k) ↦ elim (Bool-cases (expects e.expected_peer id)) [
      | inl t ↦ inl (id, k, expects-IsExpected e.expected_peer id t)
      | inr t ↦ inr (λ (other, k2, x).
          let same : other ≡ id = cc (k, k2) in
          cc (t, IsExpected-expects e.expected_peer id (subst (IsExpected e.expected_peer) same x)))
    ]
  ]

  by_key_proven :
      (e : ConnEntry noq) (handle now : ℕ) (key : Option Bytes) (id : Bytes)
      → key ≡ some id
      → IsExpected e.expected_peer id
      → by_key e handle now key
        ≡ (authenticated e id, if e.accepted_side then (handle, e.epoch) ∷ [] else [])
  unfolding by_key
  by_key_proven e handle now key id k x =
      rw (k, by_key, IsExpected-expects e.expected_peer id x) refl

  by_key_unproven :
      (e : ConnEntry noq) (handle now : ℕ) (key : Option Bytes)
      → ¬ ((id : Bytes) × (key ≡ some id) × IsExpected e.expected_peer id)
      → by_key e handle now key ≡ (mismatched e now, [])
  unfolding by_key
  by_key_unproven e handle now none unproven = refl
  by_key_unproven e handle now (some id) unproven = elim (Bool-cases (expects e.expected_peer id)) [
    | inl t ↦ absurd (unproven (id, refl, expects-IsExpected e.expected_peer id t))
    | inr t ↦ rw t refl
  ]

  -- The entry as it is when the key is looked at.
  abbrev named : ConnEntry noq → ConnEntry noq
  named e = record e { alpn = new_alpn (noq.handshake_data e.conn) e.alpn }

  -- A connection that completes its handshake becomes connected, with a peer, exactly if the peer
  -- proved a key that is the expected one, or any key where none was expected; the peer is then
  -- that key, and the connection is offered to `accept` if it was accepted and not if it was dialled.
  pub connected_iff :
      (e : ConnEntry noq) (handle now : ℕ) (id : Bytes)
      → e.is_connected ≡ false
      → (((on_event e handle now connected).0.is_connected ≡ true)
          × ((on_event e handle now connected).0.peer ≡ some id)
          × ((on_event e handle now connected).1
              ≡ (if e.accepted_side then (handle, e.epoch) ∷ [] else [])))
        ↔ ((tls_peer noq e.conn ≡ some id) × IsExpected e.expected_peer id)
  unfolding on_event on_connected authenticated mismatched
  connected_iff e handle now id c = (
    λ (is_on, peer, claims). elim (key-cases e) [
      | inl (other, k, x) ↦
          let outcome = by_key_proven (named e) handle now (tls_peer noq e.conn) other k x in
          let same : other ≡ id = cc (ap (λ r. r.0.peer) outcome, peer) in
          (rw (← same) k, subst (IsExpected e.expected_peer) same x)
      | inr unproven ↦
          let outcome = by_key_unproven (named e) handle now (tls_peer noq e.conn) unproven in
          cc (ap (λ r. r.0.is_connected) outcome, is_on, c)
    ],
    λ (k, x).
        let outcome = by_key_proven (named e) handle now (tls_peer noq e.conn) id k x in
        (ap (λ r. r.0.is_connected) outcome, ap (λ r. r.0.peer) outcome, ap (λ r. r.1) outcome),
  )

  -- A connection whose peer proved no key, or another than the expected one, is never surfaced: it
  -- stays unconnected with the mismatch as its error, is closed with code 1, and is not offered to
  -- `accept`.
  unproven_closes :
      (e : ConnEntry noq) (handle now : ℕ)
      → e.is_connected ≡ false
      → ¬ ((id : Bytes) × (tls_peer noq e.conn ≡ some id) × IsExpected e.expected_peer id)
      → ((on_event e handle now connected).0.is_connected ≡ false)
        × ((on_event e handle now connected).0.error
            ≡ some (connect_failed (codes "authenticated key differs from the addressed peer")))
        × ((on_event e handle now connected).0.conn
            ≡ noq.close e.conn now 1 (codes "identity mismatch"))
        × ((on_event e handle now connected).1 ≡ [])
  unfolding on_event on_connected mismatched
  unproven_closes e handle now c unproven =
      let outcome = by_key_unproven (named e) handle now (tls_peer noq e.conn) unproven in
      (
        ap (λ r. r.0.is_connected) outcome ∙ c,
        ap (λ r. r.0.error) outcome,
        ap (λ r. r.0.conn) outcome,
        ap (λ r. r.1) outcome,
      )
