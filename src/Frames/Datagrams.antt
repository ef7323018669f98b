-- ===== src/Frames/Datagrams.antt =====
-- Decoding of the datagram frames that a relay sends, single and batched.
use mathlib.Core.List.{flatten}
use polymorph_iroh.Base.{
  ℕ, zero, suc, ◌+◌, ◌-◌, ◌*◌, ◌≤◌, ◌<◌, ◌≡◌, refl, ap, ◌∙◌, true, false, none, some, List, [], ◌∷◌,
  ◌++◌, map, length, length-append, length-take, length-drop, take, drop, take-append, drop-append,
  take-append-drop, All, Bytes, arith,
}
use polymorph_iroh.Frames.{
  Datagram, datagram_from, chunks_loop, chunks, segment_size_of, decode_relay_datagrams,
}

flatten-chunks_loop :
    (fuel n : ℕ) (xs : Bytes) → 1 ≤ n → length xs ≤ fuel → flatten (chunks_loop fuel n xs) ≡ xs
unfolding chunks_loop flatten
flatten-chunks_loop fuel n [] hn h = refl
flatten-chunks_loop zero n (x ∷ xs) hn h = absurd (omega arith)
flatten-chunks_loop (suc fuel) n (x ∷ xs) hn h =
    ap (◌++◌ (take n (x ∷ xs)))
      (flatten-chunks_loop fuel n (drop n (x ∷ xs)) hn (omega (arith, length-drop n (x ∷ xs))))
    ∙ take-append-drop n (x ∷ xs)

-- A cut at every `n` bytes: each piece but the last has exactly `n` bytes, and the last 1 to `n`.
abbrev pub Cut : ℕ → List Bytes → Type 0
Cut n [] = Unit {0}
Cut n (piece ∷ []) = (1 ≤ length piece) × (length piece ≤ n)
Cut n (piece ∷ next ∷ pieces) = (length piece ≡ n) × Cut n (next ∷ pieces)

behind :
    (k n x : ℕ) (xs rest : Bytes)
    → length rest ≡ suc (length xs) - n
    → Cut n (chunks_loop k n rest)
    → 1 ≤ n
    → Cut n (take n (x ∷ xs) ∷ chunks_loop k n rest)
unfolding chunks_loop
behind k n x xs [] e cut hn =
    (omega (arith, length-take n (x ∷ xs)), omega (arith, length-take n (x ∷ xs)))
behind zero n x xs (y ∷ ys) e cut hn =
    (omega (arith, length-take n (x ∷ xs)), omega (arith, length-take n (x ∷ xs)))
behind (suc k) n x xs (y ∷ ys) e cut hn = (omega (arith, length-take n (x ∷ xs), e), cut)

chunks_loop-Cut :
    (fuel n : ℕ) (xs : Bytes) → 1 ≤ n → length xs ≤ fuel → Cut n (chunks_loop fuel n xs)
unfolding chunks_loop
chunks_loop-Cut fuel n [] hn h = tt
chunks_loop-Cut zero n (x ∷ xs) hn h = absurd (omega arith)
chunks_loop-Cut (suc fuel) n (x ∷ xs) hn h =
    behind fuel n x xs (drop n (x ∷ xs)) (length-drop n (x ∷ xs))
      (chunks_loop-Cut fuel n (drop n (x ∷ xs)) hn (omega (arith, length-drop n (x ∷ xs)))) hn

-- A payload as the batch's sizes allow: from the batch's sender, not empty, no longer than `n`.
abbrev pub IsSegment : Bytes → ℕ → Datagram → Type 0
IsSegment source n d = (d.source ≡ source) × (1 ≤ length d.payload) × (length d.payload ≤ n)

chunks_loop-IsSegment :
    (source : Bytes) (fuel n : ℕ) (xs : Bytes)
    → 1 ≤ n
    → All (IsSegment source n) (map (datagram_from source) (chunks_loop fuel n xs))
unfolding chunks_loop
chunks_loop-IsSegment source fuel n [] hn = tt
chunks_loop-IsSegment source zero n (x ∷ xs) hn = tt
chunks_loop-IsSegment source (suc fuel) n (x ∷ xs) hn = (
  (refl, omega (arith, length-take n (x ∷ xs)), omega (arith, length-take n (x ∷ xs))),
  chunks_loop-IsSegment source fuel n (drop n (x ∷ xs)) hn,
)

map-payload :
    (source : Bytes) (xs : List Bytes) → map Datagram.payload (map (datagram_from source) xs) ≡ xs
map-payload source [] = refl
map-payload source (x ∷ xs) = ap (◌∷◌ x) (map-payload source xs)

module _ (source : Bytes) (sized : length source ≡ 32) where
  -- A batch frame with a segment size is cut into datagrams of its sender at every multiple of that
  -- size: each but the last has exactly that many bytes, the last at least 1 and no more than that,
  -- and together they are the contents in order: nothing is lost, repeated or reordered.
  pub decode_batch_segments :
      (ecn hi lo : ℕ) (contents : Bytes)
      → 1 ≤ hi * 256 + lo
      → (ds : List Datagram) × (decode_relay_datagrams (source ++ (ecn ∷ hi ∷ lo ∷ contents)) true
          ≡ some ds)
        × (flatten (map Datagram.payload ds) ≡ contents)
        × Cut (hi * 256 + lo) (map Datagram.payload ds)
        × All (IsSegment source (hi * 256 + lo)) ds
  unfolding decode_relay_datagrams
  decode_batch_segments ecn hi lo contents hn =
      let size = hi * 256 + lo in
      (
        map (datagram_from source) (chunks size contents),
        ground (
          arith,
          length-append source (ecn ∷ hi ∷ lo ∷ contents),
          take-append 32 source (ecn ∷ hi ∷ lo ∷ contents) sized,
          drop-append 32 source (ecn ∷ hi ∷ lo ∷ contents) sized,
        ),
        rw (map-payload source (chunks size contents))
            (flatten-chunks_loop (length contents) size contents hn (omega arith)),
        rw (map-payload source (chunks size contents))
            (chunks_loop-Cut (length contents) size contents hn (omega arith)),
        chunks_loop-IsSegment source (length contents) size contents hn,
      )

  -- A single datagram frame gives one datagram of its sender, with everything behind the ECN byte.
  pub decode_single_lem :
      (ecn : ℕ) (contents : Bytes)
      → decode_relay_datagrams (source ++ (ecn ∷ contents)) false
        ≡ some (datagram_from source contents ∷ [])
  unfolding decode_relay_datagrams
  decode_single_lem ecn contents = ground (
    arith,
    length-append source (ecn ∷ contents),
    take-append 32 source (ecn ∷ contents) sized,
    drop-append 32 source (ecn ∷ contents) sized,
  )

segment_size_short : (rest : Bytes) → length rest < 3 → segment_size_of rest ≡ none
unfolding segment_size_of
segment_size_short [] h = refl
segment_size_short (a ∷ []) h = refl
segment_size_short (a ∷ b ∷ []) h = refl
segment_size_short (a ∷ b ∷ c ∷ rest) h = absurd (omega arith)

-- A payload too short for its header is no datagram: 33 bytes for a single one, 35 for a batch. Nor
-- is a batch whose segment size is zero, whatever its contents.
decode_rejects :
    (single batch source contents : Bytes) (ecn : ℕ)
    → length single < 33
    → length batch < 35
    → length source ≡ 32
    → (decode_relay_datagrams single false ≡ none)
      × (decode_relay_datagrams batch true ≡ none)
      × (decode_relay_datagrams (source ++ (ecn ∷ 0 ∷ 0 ∷ contents)) true ≡ none)
unfolding decode_relay_datagrams
decode_rejects single batch source contents ecn hs hb h = (
  ground (arith, length-drop 32 single),
  ground (arith, length-drop 32 batch, segment_size_short (drop 32 batch)),
  ground (
    arith,
    length-append source (ecn ∷ 0 ∷ 0 ∷ contents),
    drop-append 32 source (ecn ∷ 0 ∷ 0 ∷ contents) h,
  ),
)
