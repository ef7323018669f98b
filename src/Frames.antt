-- ===== src/Frames.antt =====
-- core/src/relay_frames.rs: the relay's websocket frames. A byte slice is a list of numbers; an
-- array of a known size is a list whose length the theorems take as a hypothesis. `postcard` and
-- the lossy UTF-8 reading are parameters of the functions that call them.
pub mod Tag
pub mod Varint
pub mod Datagrams
pub mod Auth
use Prim.Native.Nat.{bit_and, bit_or}
use mathlib.Core.List.{foldl}
use polymorph_iroh.Base.{
  ℕ, zero, suc, ◌+◌, ◌-◌, ◌*◌, ◌/◌, ◌%◌, ◌^◌, ◌≡◌, Bool, true, false, Option, none, some, List, [],
  ◌∷◌, ◌++◌, map, ltb, eqb, if◌then◌else◌, length, take, drop, Bytes,
}

-- `value = (value << 8) | u64::from(*byte)`
abbrev push_byte : ℕ → ℕ → ℕ
push_byte value byte = bit_or (value * 256 % 2 ^ 64) byte

pub split_tag : Bytes → Option (ℕ × Bytes)
split_tag [] = none
split_tag (first ∷ rest) =
    let len = 2 ^ (first / 64) in
    if ltb (length (first ∷ rest)) len
    then none
    else some (foldl push_byte (bit_and first 0x3f) (take (len - 1) rest), drop (len - 1) rest)

pub record Datagram : Type 0 where
  pub source : Bytes
  pub payload : Bytes

unfoldable pub encode_client_datagram : Bytes → Bytes → Bytes
encode_client_datagram dst payload = Tag.client_to_relay_datagram ∷ (dst ++ (0 ∷ payload))

pub record ClientAuth : Type 0 where
  pub public_key : Bytes
  pub signature : Bytes

-- `to_extend` is postcard's serialisation of the struct behind a buffer.
pub encode_client_auth : (ClientAuth → Bytes → Bytes) → Bytes → Bytes → Bytes
encode_client_auth to_extend public_key signature =
    to_extend (record { public_key = public_key; signature = signature }) (Tag.client_auth ∷ [])

pub encode_pong : Bytes → Bytes
encode_pong payload = Tag.pong ∷ payload

pub encode_ping : Bytes → Bytes
encode_ping payload = Tag.ping ∷ payload

-- `slice.get(..n)`, and `slice.get(n..)`.
abbrev get_to : ℕ → Bytes → Option Bytes
get_to n xs = if ltb (length xs) n then none else some (take n xs)

abbrev get_from : ℕ → Bytes → Option Bytes
get_from n xs = if ltb (length xs) n then none else some (drop n xs)

-- `slice.chunks(n)`, on as many rounds as there are bytes.
pub chunks_loop : ℕ → ℕ → Bytes → List Bytes
chunks_loop fuel n [] = []
chunks_loop zero n (x ∷ xs) = []
chunks_loop (suc fuel) n (x ∷ xs) = take n (x ∷ xs) ∷ chunks_loop fuel n (drop n (x ∷ xs))

pub chunks : ℕ → Bytes → List Bytes
chunks n xs = chunks_loop (length xs) n xs

abbrev pub datagram_from : Bytes → Bytes → Datagram
datagram_from source payload = record { source = source; payload = payload }

-- `u16::from_be_bytes(rest.get(1..3)?)`
segment_size_of : Bytes → Option ℕ
segment_size_of (ecn ∷ hi ∷ lo ∷ contents) = some (hi * 256 + lo)
segment_size_of _ = none

decode_batch : Bytes → Bytes → Option (List Datagram)
unfolding segment_size_of chunks
decode_batch source rest = elim (segment_size_of rest) [
  | none ↦ none
  | some size ↦
      if eqb size 0 then none else some (map (datagram_from source) (chunks size (drop 3 rest)))
]

decode_single : Bytes → Bytes → Option (List Datagram)
decode_single source rest = elim (get_from 1 rest) [
  | none ↦ none
  | some contents ↦ some (datagram_from source contents ∷ [])
]

pub decode_relay_datagrams : Bytes → Bool → Option (List Datagram)
unfolding decode_batch decode_single
decode_relay_datagrams payload batch = elim (get_to 32 payload) [
  | none ↦ none
  | some source ↦
      let rest = drop 32 payload in
      if batch then decode_batch source rest else decode_single source rest
]

-- `from_bytes` is postcard's reading of a string, `from_utf8_lossy` the standard library's.
pub decode_denial_reason {ℓ} :
    {Text : Type ℓ} → (Bytes → Option Text) → (Bytes → Text) → Bytes → Text
decode_denial_reason from_bytes from_utf8_lossy payload = elim (from_bytes payload) [
  | none ↦ from_utf8_lossy payload
  | some reason ↦ reason
]
