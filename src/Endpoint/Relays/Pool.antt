-- ===== src/Endpoint/Relays/Pool.antt =====
-- The relay pool and its keys by URL: the invariant, and what each change of the maps does to it.
use polymorph_iroh.Base.{
  ℕ, ◌+◌, ◌≡◌, ◌≢◌, sym, ap, ◌∙◌, inl, inr, none, [], Bytes, nat_key, bytes_key, arith,
}
use polymorph_iroh.Base.Maps.{
  lookup, insert, remove, lookup-insert_cases, lookup-insert_self, lookup-insert_ne,
  lookup-remove-some, lookup-remove_ne,
}
use polymorph_iroh.Base.{same-cases}
use polymorph_iroh.Endpoint.{home_relay}
use polymorph_iroh.Endpoint.Relays.{forget_key}
use polymorph_iroh.Endpoint.Relays.Book.{
  Book, IsPooled, other_key, forget_key-lookup, lookup-forget_key, kept-forget_key,
}

-- What the operations do to the book.
abbrev pub with_relay : Book → Bytes → ℕ → Book
with_relay b url conn = record b {
  pool = insert b.next_key conn b.pool;
  keys = insert url b.next_key b.keys;
  next_key = b.next_key + 1;
}

abbrev pub without_relay : Book → ℕ → Book
without_relay b key = record b { pool = remove key b.pool; keys = forget_key key b.keys }

pub with_relay-IsPooled :
    (b : Book) (url : Bytes) (conn : ℕ)
    → IsPooled b
    → lookup url b.keys ≡ none
    → lookup url b.opening ≡ none
    → IsPooled (with_relay b url conn)
with_relay-IsPooled b url conn p new over = record {
  below = λ u k h. elim (lookup-insert_cases url u b.next_key k b.keys h) [
    | inl (same, e) ↦ omega arith
    | inr (n, old) ↦ omega (arith, p.below u k old)
  ];
  alive = λ u k h. elim (lookup-insert_cases url u b.next_key k b.keys h) [
    | inl (same, e) ↦ inr (conn, rw (← e) (lookup-insert_self b.next_key conn b.pool))
    | inr (n, old) ↦ elim (p.alive u k old) [
      | inl home ↦ inl home
      | inr (c, there) ↦ inr (
        c,
        lookup-insert_ne b.next_key k conn b.pool (λ e. omega (arith, p.below u k old)) ∙ there,
      )
    ]
  ];
  named = λ k c h. elim (lookup-insert_cases b.next_key k conn c b.pool h) [
    | inl (same, e) ↦ (url, rw (← same) (lookup-insert_self url b.next_key b.keys))
    | inr (n, old) ↦
        let (u, there) = p.named k c old in
        (u, lookup-insert_ne url u b.next_key b.keys (λ e. cc (new, e, there)) ∙ there)
  ];
  unique = λ u v k h i. elim (lookup-insert_cases url u b.next_key k b.keys h) [
    | inl (same, e) ↦ elim (lookup-insert_cases url v b.next_key k b.keys i) [
      | inl (same2, e2) ↦ cc (same, same2)
      | inr (n2, old2) ↦ absurd (omega (arith, p.below v k old2))
    ]
    | inr (n, old) ↦ elim (lookup-insert_cases url v b.next_key k b.keys i) [
      | inl (same2, e2) ↦ absurd (omega (arith, p.below u k old))
      | inr (n2, old2) ↦ p.unique u v k old old2
    ]
  ];
  apart = λ u h. lookup-insert_ne url u b.next_key b.keys (λ e. cc (over, e, h)) ∙ p.apart u h;
  home_named =
      let (u, there) = p.home_named in
      (u, lookup-insert_ne url u b.next_key b.keys (λ e. cc (new, e, there)) ∙ there);
}

pub without_relay-IsPooled :
    (b : Book) (key : ℕ) → key ≢ home_relay → IsPooled b → IsPooled (without_relay b key)
without_relay-IsPooled b key foreign p = record {
  below = λ u k h. p.below u k (lookup-forget_key key u k b.keys h).1;
  alive = λ u k h.
      let (n, old) = lookup-forget_key key u k b.keys h in
      elim (p.alive u k old) [
        | inl home ↦ inl home
        | inr (c, there) ↦ inr (c, lookup-remove_ne key k b.pool (λ e. n (sym e)) ∙ there)
      ];
  named = λ k c h.
      let (n, old) = lookup-remove-some key k c b.pool h in
      let (u, there) = p.named k c old in
      (u, kept-forget_key key u k b.keys (λ e. n (sym e)) there);
  unique = λ u v k h i.
      p.unique u v k (lookup-forget_key key u k b.keys h).1 (lookup-forget_key key v k b.keys i).1;
  apart = λ u h. forget_key-lookup key u b.keys ∙ ap (other_key key) (p.apart u h);
  home_named =
      let (u, there) = p.home_named in
      (u, kept-forget_key key u home_relay b.keys (λ e. foreign (sym e)) there);
}

pub opened-IsPooled :
    (b : Book) (url : Bytes)
    → lookup url b.keys ≡ none
    → IsPooled b
    → IsPooled (record b { opening = insert url tt b.opening })
opened-IsPooled b url new p = record {
  below = p.below;
  alive = p.alive;
  named = p.named;
  unique = p.unique;
  apart = λ u h. elim (lookup-insert_cases url u tt tt b.opening h) [
    | inl (same, e) ↦ rw (← same) new
    | inr (n, old) ↦ p.apart u old
  ];
  home_named = p.home_named;
}

pub released-IsPooled :
    (b : Book) (url : Bytes) → IsPooled b → IsPooled (record b { opening = remove url b.opening })
released-IsPooled b url p = record {
  below = p.below;
  alive = p.alive;
  named = p.named;
  unique = p.unique;
  apart = λ u h. p.apart u (lookup-remove-some url u tt b.opening h).1;
  home_named = p.home_named;
}

pub without_home-IsPooled :
    (b : Book) → IsPooled b → IsPooled (record b { pool = remove home_relay b.pool })
without_home-IsPooled b p = record {
  below = p.below;
  alive = λ u k h. elim (same-cases home_relay k) [
    | inl (t, home) ↦ inl (sym home)
    | inr (t, n) ↦ elim (p.alive u k h) [
      | inl home ↦ inl home
      | inr (c, there) ↦ inr (c, lookup-remove_ne home_relay k b.pool n ∙ there)
    ]
  ];
  named = λ k c h. p.named k c (lookup-remove-some home_relay k c b.pool h).1;
  unique = p.unique;
  apart = p.apart;
  home_named = p.home_named;
}

pub with_home-IsPooled :
    (b : Book) (conn : ℕ)
    → IsPooled b
    → IsPooled (record b { pool = insert home_relay conn b.pool })
with_home-IsPooled b conn p = record {
  below = p.below;
  alive = λ u k h. elim (same-cases home_relay k) [
    | inl (t, home) ↦ inl (sym home)
    | inr (t, n) ↦ elim (p.alive u k h) [
      | inl home ↦ inl home
      | inr (c, there) ↦ inr (c, lookup-insert_ne home_relay k conn b.pool n ∙ there)
    ]
  ];
  named = λ k c h. elim (lookup-insert_cases home_relay k conn c b.pool h) [
    | inl (home, e) ↦ (let (u, there) = p.home_named in (u, rw (← home) there))
    | inr (n, old) ↦ p.named k c old
  ];
  unique = p.unique;
  apart = p.apart;
  home_named = p.home_named;
}

abbrev pub empty_book : Book
empty_book = record { pool = []; keys = []; opening = []; next_key = 0 }

pub bound-IsPooled : (at : Bytes) (conn : ℕ) → IsPooled (with_relay empty_book at conn)
unfolding lookup insert
bound-IsPooled at conn = record {
  below = λ u k h. elim (lookup-insert_cases at u 0 k [] h) [
    | inl (same, e) ↦ omega arith
    | inr (n, old) ↦ cc old
  ];
  alive = λ u k h. elim (lookup-insert_cases at u 0 k [] h) [
    | inl (same, e) ↦ inl (sym e)
    | inr (n, old) ↦ cc old
  ];
  named = λ k c h. elim (lookup-insert_cases 0 k conn c [] h) [
    | inl (same, e) ↦ (at, rw (← same) (lookup-insert_self at 0 []))
    | inr (n, old) ↦ cc old
  ];
  unique = λ u v k h i. elim (lookup-insert_cases at u 0 k [] h) [
    | inl (same, e) ↦ elim (lookup-insert_cases at v 0 k [] i) [
      | inl (same2, e2) ↦ cc (same, same2)
      | inr (n2, old2) ↦ cc old2
    ]
    | inr (n, old) ↦ cc old
  ];
  apart = λ u h. cc h;
  home_named = (at, lookup-insert_self at 0 []);
}
