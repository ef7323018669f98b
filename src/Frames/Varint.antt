-- ===== src/Frames/Varint.antt =====
-- `split_tag` against the variable-length integers of QUIC (RFC 9000, section 16).
use mathlib.Core.List.{foldl}
use native.Mathlib.Nat.{
  mod-eq_of_lt, le_trans, mul-le-mul_left, mul-le-mul_right, pow-suc, one-le-pow,
}
use native.Mathlib.Decide.{dec_lt}
use Prim.Native.Nat.{bit_and}
use polymorph_iroh.Base.{
  ℕ, zero, suc, ◌+◌, ◌-◌, ◌*◌, ◌/◌, ◌%◌, ◌^◌, ◌≤◌, ◌<◌, ◌≡◌, refl, ap, ◌⊎◌, inl, inr, none, some,
  [], ◌∷◌, ◌++◌, ltb, if◌then◌else◌, length, length-take, take, drop, All, Bytes, arith,
}
use polymorph_iroh.Base.Bits.{low_six, or_byte}
use polymorph_iroh.Frames.{split_tag, push_byte}

abbrev pub IsByte : ℕ → Type 0
IsByte b = b < 256

-- The lowest `k` bytes of a number, the highest first.
abbrev big_endian : ℕ → ℕ → Bytes
big_endian zero v = []
big_endian (suc k) v = v / 256 ^ k % 256 ∷ big_endian k v

-- The two top bits of the first byte say how many bytes there are.
unfoldable pub varint : ℕ → Bytes
varint v =
    if ltb v 64
    then v ∷ []
    else if ltb v 16384
    then (64 + v / 256) ∷ big_endian 1 v
    else if ltb v (2 ^ 30)
    then (128 + v / 2 ^ 24) ∷ big_endian 3 v
    else (192 + v / 2 ^ 56) ∷ big_endian 7 v

push_byte_lem : (w b : ℕ) → w * 256 < 2 ^ 64 → b < 256 → push_byte w b ≡ w * 256 + b
push_byte_lem w b h hb = rw (mod-eq_of_lt h) (or_byte w b hb)

abbrev plain_byte : ℕ → ℕ → ℕ
plain_byte w b = w * 256 + b

room : (w n : ℕ) → (w + 1) * 256 ^ suc n ≤ 2 ^ 64 → w * 256 < 2 ^ 64
room w n h =
    let wide = mul-le-mul_left ((w + 1) * 256) (one-le-pow n 256 (omega arith)) in
    omega (arith, wide, ap (λ (t : ℕ). (w + 1) * t) (pow-suc 256 n))

shrink :
    (w b n : ℕ) → b < 256 → (w + 1) * 256 ^ suc n ≤ 2 ^ 64 → (w * 256 + b + 1) * 256 ^ n ≤ 2 ^ 64
shrink w b n hb h =
    let less : w * 256 + b + 1 ≤ (w + 1) * 256 = omega arith in
    omega (arith, mul-le-mul_right (256 ^ n) less, ap (λ (t : ℕ). (w + 1) * t) (pow-suc 256 n))

-- While the bytes fit 64 bits, no shift of the loop loses a digit.
fold_plain :
    (w : ℕ) (bs : Bytes)
    → All IsByte bs
    → (w + 1) * 256 ^ length bs ≤ 2 ^ 64
    → foldl push_byte w bs ≡ foldl plain_byte w bs
fold_plain w [] a h = refl
fold_plain w (b ∷ bs) a h =
    rw (push_byte_lem w b (room w (length bs) h) a.0)
      (fold_plain (w * 256 + b) bs a.1 (shrink w b (length bs) a.0 h))

fold_bound :
    (w : ℕ) (bs : Bytes) → All IsByte bs → foldl plain_byte w bs < (w + 1) * 256 ^ length bs
fold_bound w [] a = omega arith
fold_bound w (b ∷ bs) a =
    let less : w * 256 + b + 1 ≤ (w + 1) * 256 = omega (arith, a.0) in
    omega (
      arith,
      fold_bound (w * 256 + b) bs a.1,
      mul-le-mul_right (256 ^ length bs) less,
      ap (λ (t : ℕ). (w + 1) * t) (pow-suc 256 (length bs)),
    )

All-take : (n : ℕ) (bs : Bytes) → All IsByte bs → All IsByte (take n bs)
All-take zero bs a = tt
All-take (suc n) [] a = tt
All-take (suc n) (b ∷ bs) a = (a.0, All-take n bs a.1)

-- One round trip for each size of the encoding.
pub one_byte : (v : ℕ) (rest : Bytes) → v < 64 → split_tag (v ∷ rest) ≡ some (v, rest)
unfolding split_tag
one_byte v rest h = ground (arith, low_six v)

two_bytes :
    (v : ℕ) (rest : Bytes)
    → v < 16384
    → split_tag ((64 + v / 256) ∷ (big_endian 1 v ++ rest)) ≡ some (v, rest)
unfolding split_tag
two_bytes v rest h = ground (
  arith,
  fold_plain (v / 256) (big_endian 1 v) (omega arith) (omega arith),
  low_six (64 + v / 256),
)

four_bytes :
    (v : ℕ) (rest : Bytes)
    → v < 2 ^ 30
    → split_tag ((128 + v / 2 ^ 24) ∷ (big_endian 3 v ++ rest)) ≡ some (v, rest)
unfolding split_tag
four_bytes v rest h = ground (
  arith,
  fold_plain (v / 2 ^ 24) (big_endian 3 v) (omega arith) (omega arith),
  low_six (128 + v / 2 ^ 24),
)

eight_bytes :
    (v : ℕ) (rest : Bytes)
    → v < 2 ^ 62
    → split_tag ((192 + v / 2 ^ 56) ∷ (big_endian 7 v ++ rest)) ≡ some (v, rest)
unfolding split_tag
eight_bytes v rest h = ground (
  arith,
  fold_plain (v / 2 ^ 56) (big_endian 7 v) (omega arith) (omega arith),
  low_six (192 + v / 2 ^ 56),
)

-- Every number below 2^62 that is written in its shortest QUIC form is read back by `split_tag`,
-- which leaves whatever follows it.
pub split_tag-varint :
    (v : ℕ) (rest : Bytes) → v < 2 ^ 62 → split_tag (varint v ++ rest) ≡ some (v, rest)
unfolding varint
split_tag-varint v rest h =
    ground (arith, one_byte v rest, two_bytes v rest, four_bytes v rest, eight_bytes v rest)

-- The size that the first byte of a frame announces.
abbrev pub announced : ℕ → ℕ
announced first = 2 ^ (first / 64)

announced_pos : (first : ℕ) → 1 ≤ announced first
announced_pos first = one-le-pow (first / 64) 2 (omega arith)

room_for : (q : ℕ) → q < 4 → 64 * 256 ^ (2 ^ q - 1) ≤ 2 ^ 62
room_for zero h = omega arith
room_for (suc zero) h = omega arith
room_for (suc (suc zero)) h = omega arith
room_for (suc (suc (suc zero))) h = omega arith
room_for (suc (suc (suc (suc q)))) h = absurd (omega arith)

fold_sized :
    (w k : ℕ) (bs : Bytes)
    → All IsByte bs
    → length bs ≡ k
    → w < 64
    → 64 * 256 ^ k ≤ 2 ^ 62
    → foldl push_byte w bs < 2 ^ 62
fold_sized w k bs a e hw h =
    let fits : (w + 1) * 256 ^ length bs ≤ 2 ^ 62 =
      rw e (le_trans (mul-le-mul_right (256 ^ k) hw') h) in
    rw (fold_plain w bs a (omega arith)) (omega (arith, fold_bound w bs a))
  where
    hw' : w + 1 ≤ 64
    hw' = omega arith

-- On a frame of bytes `split_tag` fails exactly when the frame is shorter than its first byte
-- announces; else the tag is below 2^62 and the payload is all that follows the announced size.
split_tag_total :
    (first : ℕ) (rest : Bytes)
    → All IsByte (first ∷ rest)
    → (length rest + 1 < announced first) × (split_tag (first ∷ rest) ≡ none)
      ⊎ (announced first ≤ length rest + 1)
        × ((tag : ℕ) × (split_tag (first ∷ rest)
              ≡ some (tag, drop (announced first) (first ∷ rest)))
            × (tag < 2 ^ 62))
unfolding split_tag
split_tag_total first rest a = elim (dec_lt (length rest + 1) (announced first)) [
  | yes short ↦ inl (short, ground arith)
  | no enough ↦ inr (
    omega arith,
    (
      foldl push_byte (bit_and first 0x3f) (take (announced first - 1) rest),
      rw (tail_of (announced first) (announced_pos first)) (ground arith),
      fold_sized (bit_and first 0x3f) (announced first - 1) (take (announced first - 1) rest)
          (All-take (announced first - 1) rest a.1)
          (omega (arith, length-take (announced first - 1) rest)) (omega (arith, low_six first a.0))
          (room_for (first / 64) (omega (arith, a.0))),
    ),
  )
]
  where
    tail_of : (n : ℕ) → 1 ≤ n → drop n (first ∷ rest) ≡ drop (n - 1) rest
    tail_of zero h = absurd (omega arith)
    tail_of (suc n) h = ap (λ (k : ℕ). drop k rest) (omega arith)
