-- ===== src/Frames/Auth.antt =====
-- The frames that the client sends: authentication, liveness, datagrams.
use polymorph_iroh.Base.{ℕ, ◌<◌, ◌≡◌, some, [], ◌∷◌, ◌++◌, length, length-append, Bytes, arith}
use polymorph_iroh.Frames.{ClientAuth, split_tag, encode_client_auth}
use polymorph_iroh.Frames.Tag
use polymorph_iroh.Frames.Varint.{varint, split_tag-varint}

pub tagged :
    (tag : ℕ) (payload : Bytes) → tag < 64 → split_tag (tag ∷ payload) ≡ some (tag, payload)
unfolding varint
tagged tag payload h = ground (arith, split_tag-varint tag payload)

-- What postcard documents for this struct: an array is its bytes, a sequence of bytes has its
-- length in front, as a varint of one byte below 128.
abbrev pub WritesStruct : (ClientAuth → Bytes → Bytes) → Type 0
WritesStruct to_extend =
    (c : ClientAuth) (buffer : Bytes)
    → length c.signature < 128
    → to_extend c buffer ≡ buffer ++ (c.public_key ++ (length c.signature ∷ c.signature))

-- Where postcard writes the struct as documented, the authentication frame carries its tag, and
-- behind it the key, the byte 64 and the signature; with a 32-byte key it has 98 bytes.
client_auth_layout :
    (to_extend : ClientAuth → Bytes → Bytes) (public_key signature : Bytes)
    → WritesStruct to_extend
    → length public_key ≡ 32
    → length signature ≡ 64
    → (split_tag (encode_client_auth to_extend public_key signature)
        ≡ some (Tag.client_auth, public_key ++ (64 ∷ signature)))
      × (length (encode_client_auth to_extend public_key signature) ≡ 98)
unfolding encode_client_auth
client_auth_layout to_extend public_key signature writes hk hs =
    let c : ClientAuth = record { public_key = public_key; signature = signature } in
    rw (writes c (Tag.client_auth ∷ []) (omega arith), hs)
      (
        tagged Tag.client_auth (public_key ++ (64 ∷ signature)) (omega arith),
        omega (arith, length-append public_key (64 ∷ signature)),
      )
