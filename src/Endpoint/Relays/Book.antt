-- ===== src/Endpoint/Relays/Book.antt =====
-- The relay pool and its keys by URL: the book, its invariant, and the forgetting of a key.
use polymorph_iroh.Base.{
  ℕ, ◌<◌, ◌≡◌, ◌≢◌, refl, sym, ◌∙◌, ◌⊎◌, inl, inr, Option, none, some, [], ◌∷◌, Bytes, eqb,
  if◌then◌else◌, Bool-cases, nat_key, bytes_key, arith,
}
use polymorph_iroh.Base.Maps.{Map, lookup, lookup-remove}
use polymorph_iroh.Base.{◌==◌}
use polymorph_iroh.Noq.{Noq}
use polymorph_iroh.Endpoint.{State, home_relay}
use polymorph_iroh.Endpoint.Relays.{forget_key}

-- The part of the state that these operations are about.
pub record Book : Type 0 where
  pub pool : Map ℕ ℕ
  pub keys : Map Bytes ℕ
  pub opening : Map Bytes (Unit {0})
  pub next_key : ℕ

abbrev pub book : {noq : Noq} → State noq → Book
book st = record {
  pool = st.relay_pool;
  keys = st.relay_keys;
  opening = st.relay_opening;
  next_key = st.next_relay_key;
}

-- Each key is below the next one, a URL has the home relay's key or that of a pooled relay, a pooled
-- relay has a URL and only one, and a URL that is being opened has no key yet.
pub record IsPooled (b : Book) : Type 0 where
  pub below : (url : Bytes) (key : ℕ) → lookup url b.keys ≡ some key → key < b.next_key
  pub alive :
      (url : Bytes) (key : ℕ)
      → lookup url b.keys ≡ some key
      → (key ≡ home_relay) ⊎ ((conn : ℕ) × (lookup key b.pool ≡ some conn))
  pub named :
      (key conn : ℕ)
      → lookup key b.pool ≡ some conn
      → (url : Bytes) × (lookup url b.keys ≡ some key)
  pub unique :
      (url other : Bytes) (key : ℕ)
      → lookup url b.keys ≡ some key
      → lookup other b.keys ≡ some key
      → url ≡ other
  pub apart : (url : Bytes) → lookup url b.opening ≡ some tt → lookup url b.keys ≡ none
  pub home_named : (url : Bytes) × (lookup url b.keys ≡ some home_relay)

abbrev pub other_key : ℕ → Option ℕ → Option ℕ
other_key key none = none
other_key key (some k) = if eqb k key then none else some k

pub forget_key-lookup :
    (key : ℕ) (url : Bytes) (m : Map Bytes ℕ)
    → lookup url (forget_key key m) ≡ other_key key (lookup url m)
unfolding forget_key lookup
forget_key-lookup key url [] = refl
forget_key-lookup key url ((at, k) ∷ m) =
    let rest = forget_key-lookup key url m in
    elim (Bool-cases (eqb k key)) [
      | inl t ↦ elim (Bool-cases (at == url)) [
        | inl u ↦ rw (t, lookup-remove at url (forget_key key m), u, t) refl
        | inr u ↦ rw (t, lookup-remove at url (forget_key key m), u) rest
      ]
      | inr t ↦ elim (Bool-cases (at == url)) [ inl u ↦ rw (t, u, t) refl | inr u ↦ rw (t, u) rest ]
    ]

other_key-some :
    (key mapped : ℕ) (o : Option ℕ)
    → other_key key o ≡ some mapped
    → (mapped ≢ key) × (o ≡ some mapped)
other_key-some key mapped none h = cc h
other_key-some key mapped (some k) h = elim (Bool-cases (eqb k key)) [
  | inl t ↦ ground arith
  | inr t ↦ ground arith
]

pub lookup-forget_key :
    (key : ℕ) (url : Bytes) (mapped : ℕ) (m : Map Bytes ℕ)
    → lookup url (forget_key key m) ≡ some mapped
    → (mapped ≢ key) × (lookup url m ≡ some mapped)
lookup-forget_key key url mapped m h =
    other_key-some key mapped (lookup url m) (sym (forget_key-lookup key url m) ∙ h)

pub kept-forget_key :
    (key : ℕ) (url : Bytes) (mapped : ℕ) (m : Map Bytes ℕ)
    → mapped ≢ key
    → lookup url m ≡ some mapped
    → lookup url (forget_key key m) ≡ some mapped
kept-forget_key key url mapped m n h = forget_key-lookup key url m ∙ rw h (keeps)
  where
    keeps : other_key key (some mapped) ≡ some mapped
    keeps = ground arith
