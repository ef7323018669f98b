-- ===== src/Relay/Url.antt =====
-- `relay_url` of core/src/relay.rs: the websocket URL of a relay.
use polymorph_iroh.Base.{
  ◌≡◌, refl, sym, ap, ◌∙◌, ◌⊎◌, inl, inr, false, some, [], ◌∷◌, ◌++◌, take, drop, Bytes, bytes_beq,
  bytes_beq_iff, take-append-drop, arith, codes, Bool-cases, Option-cases,
}
use polymorph_iroh.Relay.{ok, split_scheme, until_slash, ws_scheme, relay_path, is_empty, relay_url}

until_slash_idem :
    (host more : Bytes) → until_slash (until_slash host ++ (b'/' ∷ more)) ≡ until_slash host
unfolding until_slash
until_slash_idem [] more = refl
until_slash_idem (c ∷ cs) more = ground (arith, until_slash_idem cs more)

split_ws : (rest : Bytes) → split_scheme (codes "ws://" ++ rest) ≡ some (codes "ws", rest)
unfolding split_scheme bytes_beq
split_ws rest = refl

split_wss : (rest : Bytes) → split_scheme (codes "wss://" ++ rest) ≡ some (codes "wss", rest)
unfolding split_scheme bytes_beq
split_wss rest = refl

-- A URL as `relay_url` makes it is its own image.
fixed :
    (scheme host : Bytes)
    → (scheme ≡ codes "ws") ⊎ (scheme ≡ codes "wss")
    → is_empty (until_slash host) ≡ false
    → relay_url (scheme ++ (codes "://" ++ (until_slash host ++ relay_path)))
      ≡ ok (scheme ++ (codes "://" ++ (until_slash host ++ relay_path)))
unfolding relay_url bytes_beq
fixed scheme host (inl e) h =
    rw (e, relay_url) (ground (arith, until_slash_idem host (codes "relay")))
fixed scheme host (inr e) h =
    rw (e, relay_url) (ground (arith, until_slash_idem host (codes "relay")))

ws_scheme-cases :
    (scheme : Bytes) → (ws_scheme scheme ≡ codes "ws") ⊎ (ws_scheme scheme ≡ codes "wss")
unfolding ws_scheme
ws_scheme-cases scheme = ground arith

split_scheme-append :
    (s scheme rest : Bytes)
    → split_scheme s ≡ some (scheme, rest)
    → s ≡ scheme ++ (codes "://" ++ rest)
unfolding split_scheme
split_scheme-append [] scheme rest h = cc
split_scheme-append (c ∷ cs) scheme rest h =
    elim (Bool-cases (bytes_beq (take 3 (c ∷ cs)) (codes "://"))) [
      | inl e ↦
          let found : some ([], drop 3 (c ∷ cs)) ≡ some (scheme, rest) =
            rw (e, split_scheme) at h in
          let cut = (bytes_beq_iff (take 3 (c ∷ cs)) (codes "://")).0 e in
          let front : [] ≡ scheme = cc found in
          let back : drop 3 (c ∷ cs) ≡ rest = cc found in
          rw (← front, ← back)
            (sym (take-append-drop 3 (c ∷ cs)) ∙ ap (λ (t : Bytes). t ++ drop 3 (c ∷ cs)) cut)
      | inr e ↦ elim (Option-cases (split_scheme cs)) [
        | inl q ↦ ground arith
        | inr ((a, b), q) ↦ ground (arith, split_scheme-append cs a b q)
      ]
    ]

-- Where `relay_url` makes a URL, the server's text has "://" and a host behind it, and the URL is
-- that host, up to its first slash, under a websocket scheme and the relay's path.
relay_url_shape :
    (server url : Bytes)
    → relay_url server ≡ ok url
    → (scheme : Bytes) × (rest : Bytes) × (server ≡ scheme ++ (codes "://" ++ rest))
      × (is_empty (until_slash rest) ≡ false)
      × (url ≡ ws_scheme scheme ++ (codes "://" ++ (until_slash rest ++ relay_path)))
unfolding relay_url
relay_url_shape server url h = elim (Option-cases (split_scheme server)) [
  | inl e ↦ ground arith
  | inr ((scheme, rest), e) ↦
      (scheme, rest, split_scheme-append server scheme rest e, ground arith, ground arith)
]
