-- ===== src/Identity/Signing.antt =====
-- Under which key an identity of core/src/crypto/sign.rs is presented.
use polymorph_iroh.Base.{
  ◌≡◌, refl, sym, subst, true, false, Bytes, eqb, eqb_iff, length, ◌⊎◌, inl, inr,
}
use polymorph_iroh.Identity.{
  Crypto, Identity, generate, of_pair, of_export, of_raw, adopted, wrong_length, from_seed, seeded,
  public_key,
}
use polymorph_iroh.Identity.Injected.{check_iff, inr_inj}

module _ (c : Crypto) where
  -- An identity whose key has 32 bytes and is the one that it presents.
  abbrev pub IsPresented : Identity c → Type 0
  IsPresented identity =
      (length identity.endpoint_id ≡ 32)
      × (public_key c identity.key ≡ c.to_spki identity.endpoint_id)

  pub adopted-IsPresented :
      (signing : c.SigningHandle) (raw : Bytes) (identity : Identity c)
      → length raw ≡ 32
      → identity ≡ adopted c signing raw
      → IsPresented identity
  unfolding public_key
  adopted-IsPresented signing raw identity sized same = subst IsPresented (sym same) (sized, refl)

  of_raw-IsPresented :
      (signing : c.SigningHandle) (raw : Bytes) (identity : Identity c)
      → of_raw c signing raw ≡ inr identity
      → IsPresented identity
  unfolding of_raw
  of_raw-IsPresented signing raw identity h =
      let (sized, same) =
        (check_iff (eqb (length raw) 32) (wrong_length c raw) (inr (adopted c signing raw))
            identity).0
          h in
      adopted-IsPresented signing raw identity ((eqb_iff (length raw) 32).0 sized)
        (sym (inr_inj same))

  pub generate-IsPresented :
      (identity : Identity c) → generate c ≡ inr identity → IsPresented identity
  unfolding generate of_pair of_export
  generate-IsPresented identity h = by_pair (c.generate_key true false) h
    where
      by_export :
          (signing : c.SigningHandle) (o : c.Fault ⊎ Bytes)
          → of_export c signing o ≡ inr identity
          → IsPresented identity
      by_export signing (inl e) h = absurd cc
      by_export signing (inr raw) h = of_raw-IsPresented signing raw identity h

      by_pair :
          (o : c.Fault ⊎ (c.SigningHandle × c.VerifyingHandle))
          → of_pair c o ≡ inr identity
          → IsPresented identity
      by_pair (inl e) h = absurd cc
      by_pair (inr (signing, verifying)) h = by_export signing (c.export_key_raw verifying) h

  pub from_seed-IsPresented :
      (seed : Bytes) (identity : Identity c)
      → ((key : c.GuestKey) → length (c.public_of key) ≡ 32)
      → from_seed c seed ≡ inr identity
      → IsPresented identity
  unfolding from_seed public_key
  from_seed-IsPresented seed identity sized h =
      let (_, same) = (check_iff (eqb (length seed) 32) _ (inr (seeded c seed)) identity).0 h in
      subst IsPresented (inr_inj same) (sized (c.key_of_seed seed), refl)
