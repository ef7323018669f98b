-- ===== src/Endpoint/Connection/Paths.antt =====
-- What a watcher of a connection's path sees.
use polymorph_iroh.Base.{
  ℕ, ◌≡◌, ◌≢◌, refl, ap, Bool, ◌⊎◌, inl, inr, true, false, Option, none, some, List, [], ◌∷◌, ◌++◌,
  All, Bool-cases, Option-cases, if◌then◌else◌, arith,
}
use polymorph_iroh.Noq.{Noq}
use polymorph_iroh.Endpoint.{State, ConnEntry}
use polymorph_iroh.Endpoint.Conns.{entry_for}
use polymorph_iroh.Endpoint.Connection.{
  PathKind, relay_path, webrtc_path, ip_path, same_kind, is_news, current_path, is_over, Watch,
  watch_check, after_write, watch, no_news, over, news,
}

same_kind→eq : (a b : PathKind) → same_kind a b ≡ true → a ≡ b
same_kind→eq relay_path relay_path h = refl
same_kind→eq webrtc_path webrtc_path h = refl
same_kind→eq ip_path ip_path h = refl
same_kind→eq relay_path webrtc_path h = cc h
same_kind→eq relay_path ip_path h = cc h
same_kind→eq webrtc_path relay_path h = cc h
same_kind→eq webrtc_path ip_path h = cc h
same_kind→eq ip_path relay_path h = cc h
same_kind→eq ip_path webrtc_path h = cc h

same_kind_refl : (a : PathKind) → same_kind a a ≡ true
same_kind_refl relay_path = refl
same_kind_refl webrtc_path = refl
same_kind_refl ip_path = refl

-- Each kind differs from the one before it.
abbrev pub Alternates : Option PathKind → List PathKind → Type 0
Alternates last [] = Unit {0}
Alternates last (kind ∷ kinds) = (last ≢ some kind) × Alternates (some kind) kinds

-- What a watcher takes the path to be after these kinds.
abbrev pub final : Option PathKind → List PathKind → Option PathKind
final last [] = last
final last (kind ∷ kinds) = final (some kind) kinds

news-differs :
    (last : Option PathKind) (kind : PathKind) → is_news last kind ≡ true → last ≢ some kind
news-differs none kind h e = cc e
news-differs (some old) kind h e =
    let same : old ≡ kind = cc e in absurd (cc (h, same, same_kind_refl kind))

no_news-same :
    (last : Option PathKind) (kind : PathKind) → is_news last kind ≡ false → last ≡ some kind
no_news-same none kind h = cc h
no_news-same (some old) kind h = elim (Bool-cases (same_kind old kind)) [
  | inl t ↦ cc (same_kind→eq old kind t)
  | inr t ↦ cc (h, t)
]

Watch-cases : (w : Watch) → (w ≡ no_news) ⊎ ((w ≡ over) ⊎ ((k : PathKind) × (w ≡ news k)))
Watch-cases no_news = inl refl
Watch-cases over = inr (inl refl)
Watch-cases (news k) = inr (inr (k, refl))

module _ {noq : Noq} where
  -- The connection is there and not over.
  abbrev pub IsLive : ℕ → ℕ → State noq → Type 0
  IsLive handle epoch st =
      (e : ConnEntry noq) × (entry_for st handle epoch ≡ some e) × (is_over e ≡ false)

  live_check :
      (st : State noq) (handle epoch : ℕ) (last : Option PathKind)
      → IsLive handle epoch st
      → watch_check st handle epoch last ≡ (
          if is_news last (current_path st handle epoch)
          then news (current_path st handle epoch)
          else no_news)
  unfolding watch_check current_path
  live_check st handle epoch last (e, there, live) =
      rw (watch_check, current_path, there, live) refl

  gone_check :
      (st : State noq) (handle epoch : ℕ) (last : Option PathKind)
      → entry_for st handle epoch ≡ none
      → watch_check st handle epoch last ≡ over
  unfolding watch_check
  gone_check st handle epoch last n = rw (watch_check, n) refl

  over_check :
      (st : State noq) (handle epoch : ℕ) (last : Option PathKind) (e : ConnEntry noq)
      → entry_for st handle epoch ≡ some e
      → is_over e ≡ true
      → watch_check st handle epoch last ≡ over
  unfolding watch_check
  over_check st handle epoch last e there t = rw (watch_check, there, t) refl

  news_check :
      (st : State noq) (handle epoch : ℕ) (last : Option PathKind) (kind : PathKind)
      → watch_check st handle epoch last ≡ news kind
      → last ≢ some kind
  news_check st handle epoch last kind h = elim (Option-cases (entry_for st handle epoch)) [
    | inl n ↦ absurd (cc (h, gone_check st handle epoch last n))
    | inr (e, there) ↦ elim (Bool-cases (is_over e)) [
      | inl t ↦ absurd (cc (h, over_check st handle epoch last e there t))
      | inr live ↦
          let now = current_path st handle epoch in
          let c = live_check st handle epoch last (e, there, live) in
          elim (Bool-cases (is_news last now)) [
            | inl t ↦
                (let same : now ≡ kind = ground arith in rw (← same) (news-differs last now t))
            | inr t ↦ absurd (ground arith)
          ]
    ]
  ]

  alternates :
      (checks : List (State noq × Bool)) (handle epoch : ℕ) (last : Option PathKind)
      → Alternates last (watch handle epoch last checks)
  unfolding watch
  alternates [] handle epoch last = tt
  alternates ((st, taken) ∷ checks) handle epoch last =
      elim (Watch-cases (watch_check st handle epoch last)) [
        | inl q ↦ rw (watch, q) (alternates checks handle epoch last)
        | inr (inl o) ↦ rw (watch, o) tt
        | inr (inr (k, n)) ↦
            rw (watch, n)
              (written taken k (news_check st handle epoch last k n)
                (alternates checks handle epoch (some k)))
      ]
    where
      written :
          (taken : Bool) (k : PathKind)
          → last ≢ some k
          → Alternates (some k) (watch handle epoch (some k) checks)
          → Alternates last (after_write taken k (watch handle epoch (some k) checks))
      written true k ne h = (ne, h)
      written false k ne h = tt

  -- A check of a connection that lives, by a watcher that takes what is written.
  abbrev pub IsWatched : ℕ → ℕ → State noq × Bool → Type 0
  IsWatched handle epoch (st, taken) = IsLive handle epoch st × (taken ≡ true)

  tracks :
      (checks : List (State noq × Bool)) (st : State noq) (handle epoch : ℕ)
      (last : Option PathKind)
      → All (IsWatched handle epoch) checks
      → IsLive handle epoch st
      → final last (watch handle epoch last (checks ++ ((st, true) ∷ [])))
        ≡ some (current_path st handle epoch)
  unfolding watch
  tracks [] st handle epoch last lives live =
      let now = current_path st handle epoch in
      let c = live_check st handle epoch last live in
      elim (Bool-cases (is_news last now)) [
        | inl t ↦ rw (watch, c, t) refl
        | inr t ↦ rw (watch, c, t) (no_news-same last now t)
      ]
  tracks ((s, taken) ∷ checks) st handle epoch last lives live =
      let now = current_path s handle epoch in
      let c = live_check s handle epoch last lives.0.0 in
      elim (Bool-cases (is_news last now)) [
        | inl t ↦
            rw (watch, c, t, lives.0.1) (tracks checks st handle epoch (some now) lives.1 live)
        | inr t ↦ rw (watch, c, t) (tracks checks st handle epoch last lives.1 live)
      ]

  -- A check whose write the watcher refuses writes nothing, or it is the last.
  abbrev pub Refused :
      ℕ
      → ℕ
      → Option PathKind
      → List (State noq × Bool)
      → State noq
      → List (State noq × Bool)
      → Type 0
  Refused handle epoch last checks st more =
      (final last (watch handle epoch last checks) ≡ some (current_path st handle epoch))
      ⊎ (watch handle epoch last (checks ++ ((st, false) ∷ more)) ≡ watch handle epoch last checks)

  refuses :
      (checks more : List (State noq × Bool)) (st : State noq) (handle epoch : ℕ)
      (last : Option PathKind)
      → All (IsWatched handle epoch) checks
      → IsLive handle epoch st
      → Refused handle epoch last checks st more
  unfolding watch
  refuses [] more st handle epoch last lives live =
      let now = current_path st handle epoch in
      let c = live_check st handle epoch last live in
      elim (Bool-cases (is_news last now)) [
        | inl t ↦ inr (rw (watch, c, t) refl)
        | inr t ↦ inl (no_news-same last now t)
      ]
  refuses ((s, taken) ∷ checks) more st handle epoch last lives live =
      let now = current_path s handle epoch in
      let c = live_check s handle epoch last lives.0.0 in
      elim (Bool-cases (is_news last now)) [
        | inl t ↦ elim (refuses checks more st handle epoch (some now) lives.1 live) [
          | inl same ↦ inl (rw (watch, c, t, lives.0.1) same)
          | inr ends ↦ inr (rw (watch, c, t, lives.0.1) (ap (◌∷◌ now) ends))
        ]
        | inr t ↦ elim (refuses checks more st handle epoch last lives.1 live) [
          | inl same ↦ inl (rw (watch, c, t) same)
          | inr ends ↦ inr (rw (watch, c, t) ends)
        ]
      ]

  -- While a connection lives and its watcher takes what `path-changes` writes, what it has taken
  -- tells it the path as it was at the latest check; no two kinds in a row are the same. A check at
  -- which the watcher would refuse a kind either finds the path that the watcher knows, or ends the
  -- stream: nothing comes behind it, whatever the later checks.
  pub watch_faithful :
      (checks more : List (State noq × Bool)) (st : State noq) (handle epoch : ℕ)
      → All (IsWatched handle epoch) checks
      → IsLive handle epoch st
      → (final none (watch handle epoch none (checks ++ ((st, true) ∷ [])))
          ≡ some (current_path st handle epoch))
        × Alternates none (watch handle epoch none (checks ++ ((st, true) ∷ [])))
        × Refused handle epoch none checks st more
  watch_faithful checks more st handle epoch lives live = (
    tracks checks st handle epoch none lives live,
    alternates (checks ++ ((st, true) ∷ [])) handle epoch none,
    refuses checks more st handle epoch none lives live,
  )
