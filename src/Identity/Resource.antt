-- ===== src/Identity/Resource.antt =====
-- endpoint/src/identity.rs: the constructors of the identity resource, with their errors.
use polymorph_iroh.Base.{◌≡◌, ap, ◌++◌, Bytes, codes, length, ◌⊎◌, inl, inr}
use polymorph_iroh.Endpoint.{Error, other_error, invalid_argument}
use polymorph_iroh.Identity as Identity
use polymorph_iroh.Identity.{Crypto, Identity}
use polymorph_iroh.Identity.Injected.{from_injected_iff}
use polymorph_iroh.Identity.Signing.{
  IsPresented, adopted-IsPresented, generate-IsPresented, from_seed-IsPresented,
}

-- `map_err`
abbrev on_error : {A : Type 0} → (Bytes → Error) → Bytes ⊎ A → Error ⊎ A
on_error f (inl text) = inl (f text)
on_error f (inr a) = inr a

module _ (c : Crypto) where
  pub generate : Error ⊎ Identity c
  generate = on_error (λ e. other_error (codes "generate identity: " ++ e)) (Identity.generate c)

  unfoldable pub from_keys : c.SigningHandle → c.VerifyingHandle → Error ⊎ Identity c
  from_keys signing verifying =
      on_error invalid_argument (Identity.from_injected c signing verifying)

  pub from_seed : Bytes → Error ⊎ Identity c
  from_seed seed = on_error invalid_argument (Identity.from_seed c seed)

  on_error-inr :
      {A : Type 0} (f : Bytes → Error) (o : Bytes ⊎ A) (a : A) → on_error f o ≡ inr a → o ≡ inr a
  on_error-inr f (inl text) a h = absurd cc
  on_error-inr f (inr b) a h = ap inr (cc h)

  -- However an identity resource was made, its id has 32 bytes and it presents exactly the key of
  -- that id: an identity that names one node and shows another's key is not made. Of dalek's keys
  -- this uses that a public key has 32 bytes.
  pub made-IsPresented :
      (signing : c.SigningHandle) (verifying : c.VerifyingHandle) (seed : Bytes)
      (identity : Identity c)
      → ((key : c.GuestKey) → length (c.public_of key) ≡ 32)
      → (generate ≡ inr identity)
        ⊎ (from_keys signing verifying ≡ inr identity)
        ⊎ (from_seed seed ≡ inr identity)
      → IsPresented c identity
  unfolding generate from_keys from_seed
  made-IsPresented signing verifying seed identity sized (inl h) =
      generate-IsPresented c identity (on_error-inr _ (Identity.generate c) identity h)
  made-IsPresented signing verifying seed identity sized (inr (inl h)) =
      let (raw, pair, same) =
        (from_injected_iff c signing verifying identity).0
          (on_error-inr _ (Identity.from_injected c signing verifying) identity h) in
      adopted-IsPresented c signing raw identity pair.sized same
  made-IsPresented signing verifying seed identity sized (inr (inr h)) =
      from_seed-IsPresented c seed identity sized
        (on_error-inr _ (Identity.from_seed c seed) identity h)
