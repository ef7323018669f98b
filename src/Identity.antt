-- ===== src/Identity.antt =====
-- core/src/crypto/sign.rs: the node's Ed25519 identity, its three constructors, and its use as a
-- signer. The webcrypto component, `ed25519_dalek` and the encoding of a public key as SPKI are
-- parameters.
pub mod Injected
pub mod Signing
pub mod Resource
use polymorph_iroh.Base.{
  ℕ, Bool, true, false, not, Option, none, some, List, [], ◌∷◌, ◌++◌, Bytes, codes, bytes_beq, eqb,
  length, if◌then◌else◌, ◌⊎◌, inl, inr,
}

-- A failing call of webcrypto gives a fault, which has a debug and a display text. A key pair is
-- generated with its permission to sign and its extractability. `decimal` writes a length.
pub record Crypto : Type 1 where
  pub SigningHandle : Type 0
  pub VerifyingHandle : Type 0
  pub GuestKey : Type 0
  pub Fault : Type 0
  pub debug : Fault → Bytes
  pub display : Fault → Bytes
  pub decimal : ℕ → Bytes
  pub generate_key : (sign extractable : Bool) → Fault ⊎ (SigningHandle × VerifyingHandle)
  pub signing_algorithm : SigningHandle → Bytes
  pub verifying_algorithm : VerifyingHandle → Bytes
  pub can_sign : SigningHandle → Bool
  pub export_key_raw : VerifyingHandle → Fault ⊎ Bytes
  pub sign : SigningHandle → Bytes → Fault ⊎ Bytes
  pub verify : VerifyingHandle → (message signature : Bytes) → Bool
  pub key_of_seed : Bytes → GuestKey
  pub public_of : GuestKey → Bytes
  pub guest_sign : GuestKey → Bytes → Bytes
  pub to_spki : Bytes → Bytes

-- `SignerKind`: the key with its SPKI.
pub data SignerKind (c : Crypto) : Type 0 where
  webcrypto : c.SigningHandle → (spki : Bytes) → SignerKind c
  guest : c.GuestKey → (spki : Bytes) → SignerKind c

pub record Identity (c : Crypto) : Type 0 where
  pub key : SignerKind c
  pub endpoint_id : Bytes

-- `SignatureScheme`, as far as the code tells its cases apart.
-- What a TLS signer fails with, `rustls::Error`: the code makes one kind of it.
pub data TlsError : Type 0 where
  general : Bytes → TlsError

pub data SignatureScheme : Type 0 where
  ed25519_scheme : SignatureScheme
  other_scheme : ℕ → SignatureScheme

abbrev pub ed25519 : Bytes
ed25519 = codes "Ed25519"

abbrev pub probe_message : Bytes
probe_message = codes "polymorph:iroh endpoint identity possession probe"

pub offers_ed25519 : List SignatureScheme → Bool
offers_ed25519 [] = false
offers_ed25519 (ed25519_scheme ∷ offered) = true
offers_ed25519 (other_scheme n ∷ offered) = offers_ed25519 offered

module _ (c : Crypto) where
  abbrev pub mismatch_text : Bytes
  mismatch_text = codes "identity mismatch: the verifying key is not the signing key's public half"

  pub wrong_length : Bytes → Bytes
  wrong_length raw = codes "expected 32-byte Ed25519 public key, got " ++ c.decimal (length raw)

  abbrev pub adopted : c.SigningHandle → Bytes → Identity c
  adopted signing raw = record { key = webcrypto signing (c.to_spki raw); endpoint_id = raw }

  -- The identity of an exported key, if it has the length of one.
  pub of_raw : c.SigningHandle → Bytes → Bytes ⊎ Identity c
  unfolding wrong_length
  of_raw signing raw =
      if eqb (length raw) 32 then inr (adopted signing raw) else inl (wrong_length raw)

  pub of_export : c.SigningHandle → c.Fault ⊎ Bytes → Bytes ⊎ Identity c
  unfolding of_raw
  of_export signing (inl e) = inl (codes "export identity public key: " ++ c.debug e)
  of_export signing (inr raw) = of_raw signing raw

  pub of_pair : c.Fault ⊎ (c.SigningHandle × c.VerifyingHandle) → Bytes ⊎ Identity c
  unfolding of_export
  of_pair (inl e) = inl (codes "generate identity: " ++ c.debug e)
  of_pair (inr (signing, verifying)) = of_export signing (c.export_key_raw verifying)

  pub generate : Bytes ⊎ Identity c
  unfolding of_pair
  generate = of_pair (c.generate_key true false)

  -- The end of the possession probe.
  unfoldable pub of_probe :
      c.SigningHandle → c.VerifyingHandle → Bytes → c.Fault ⊎ Bytes → Bytes ⊎ Identity c
  of_probe signing verifying raw (inl e) = inl (codes "identity probe signature: " ++ c.display e)
  of_probe signing verifying raw (inr signature) =
      if c.verify verifying probe_message signature
      then inr (adopted signing raw)
      else inl mismatch_text

  unfoldable pub probe_raw :
      c.SigningHandle → c.VerifyingHandle → c.Fault ⊎ Bytes → Bytes ⊎ Identity c
  unfolding of_probe wrong_length
  probe_raw signing verifying (inl e) = inl (codes "export identity public key: " ++ c.display e)
  probe_raw signing verifying (inr raw) =
      if eqb (length raw) 32
      then of_probe signing verifying raw (c.sign signing probe_message)
      else inl (wrong_length raw)

  unfoldable pub from_injected : c.SigningHandle → c.VerifyingHandle → Bytes ⊎ Identity c
  unfolding probe_raw
  from_injected signing verifying =
      if not (bytes_beq (c.signing_algorithm signing) ed25519)
      then inl
          (codes "identity signing key is " ++ c.signing_algorithm signing ++ codes ", not Ed25519")
      else if not (bytes_beq (c.verifying_algorithm verifying) ed25519)
      then inl (
          codes "identity verifying key is "
          ++ c.verifying_algorithm verifying
          ++ codes ", not Ed25519")
      else if not (c.can_sign signing)
      then inl (codes "identity signing key does not permit sign")
      else probe_raw signing verifying (c.export_key_raw verifying)

  abbrev pub seeded : Bytes → Identity c
  seeded seed =
      let key = c.key_of_seed seed in
      record { key = guest key (c.to_spki (c.public_of key)); endpoint_id = c.public_of key }

  pub from_seed : Bytes → Bytes ⊎ Identity c
  from_seed seed =
      if eqb (length seed) 32
      then inr (seeded seed)
      else inl (codes "expected a 32-byte Ed25519 seed, got " ++ c.decimal (length seed))

  -- `Identity::sign`, for the relay handshake.
  pub sign_with : SignerKind c → Bytes → Bytes ⊎ Bytes
  sign_with (webcrypto handle spki) message = elim (c.sign handle message) [
    | inl e ↦ inl (codes "webcrypto ed25519 sign: " ++ c.debug e)
    | inr signature ↦ inr signature
  ]
  sign_with (guest key spki) message = inr (c.guest_sign key message)

  -- `signing_key`, and the signer's `public_key` and `choose_scheme`: a signer holds its key.
  abbrev pub signing_key : Identity c → SignerKind c
  signing_key identity = identity.key

  pub public_key : SignerKind c → Bytes
  public_key (webcrypto handle spki) = spki
  public_key (guest key spki) = spki

  pub choose_scheme : SignerKind c → List SignatureScheme → Option (SignerKind c)
  unfolding offers_ed25519
  choose_scheme key offered = if offers_ed25519 offered then some key else none

  -- The signer's `sign`, for TLS.
  signer_sign : SignerKind c → Bytes → TlsError ⊎ Bytes
  signer_sign (webcrypto handle spki) message = elim (c.sign handle message) [
    | inl e ↦ inl (general (codes "webcrypto ed25519 sign: " ++ c.debug e))
    | inr signature ↦ inr signature
  ]
  signer_sign (guest key spki) message = inr (c.guest_sign key message)
