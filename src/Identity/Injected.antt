-- ===== src/Identity/Injected.antt =====
-- The checks of `Identity::from_injected` of core/src/crypto/sign.rs.
use polymorph_iroh.Base.{
  ◌≡◌, ◌↔◌, refl, ap, sym, ◌∙◌, Bool, true, false, not, Bytes, bytes_beq, bytes_beq_iff, eqb,
  eqb_iff, length, ◌⊎◌, inl, inr, if◌then◌else◌,
}
use polymorph_iroh.Identity.{
  Crypto, Identity, ed25519, probe_message, adopted, mismatch_text, wrong_length, of_probe,
  probe_raw, from_injected,
}

-- A result that comes behind a check of a condition, or of its negation.
module _ {A B : Type 0} where
  pub check_iff :
      (b : Bool) (text : A) (y : A ⊎ B) (a : B)
      → ((if b then y else inl text) ≡ inr a) ↔ ((b ≡ true) × (y ≡ inr a))
  check_iff true text y a = ((λ h. (refl, h)), (λ h. h.1))
  check_iff false text y a = ((λ h. absurd cc), (λ h. absurd (cc h.0)))

  guard_iff :
      (b : Bool) (text : A) (y : A ⊎ B) (a : B)
      → ((if not b then inl text else y) ≡ inr a) ↔ ((b ≡ true) × (y ≡ inr a))
  guard_iff true text y a = ((λ h. (refl, h)), (λ h. h.1))
  guard_iff false text y a = ((λ h. absurd cc), (λ h. absurd (cc h.0)))

  pub inr_inj : {a b : B} → ◌≡◌ {A = A ⊎ B} (inr a) (inr b) → a ≡ b
  inr_inj h = cc

module _ (c : Crypto) where
  -- A key pair that may serve as an identity, with its exported key: both halves are Ed25519 keys,
  -- the one may sign, the other's key has 32 bytes, and it verifies the one's probe signature.
  pub record IsPair (signing : c.SigningHandle) (verifying : c.VerifyingHandle) (raw : Bytes)
      : Type 0 where
    pub signs : c.signing_algorithm signing ≡ ed25519
    pub verifies : c.verifying_algorithm verifying ≡ ed25519
    pub permitted : c.can_sign signing ≡ true
    pub exported : c.export_key_raw verifying ≡ inr raw
    pub sized : length raw ≡ 32
    pub possessed :
        (signature : Bytes) × (c.sign signing probe_message ≡ inr signature)
        × (c.verify verifying probe_message signature ≡ true)

  of_probe_iff :
      (signing : c.SigningHandle) (verifying : c.VerifyingHandle) (raw : Bytes)
      (signed : c.Fault ⊎ Bytes) (identity : Identity c)
      → (of_probe c signing verifying raw signed ≡ inr identity) ↔ (
          ((signature : Bytes) × (signed ≡ inr signature)
            × (c.verify verifying probe_message signature ≡ true))
          × (identity ≡ adopted c signing raw))
  unfolding of_probe
  of_probe_iff signing verifying raw (inl e) identity = ((λ h. absurd cc), (λ h. absurd (cc h.0.1)))
  of_probe_iff signing verifying raw (inr signature) identity =
      let check =
        check_iff (c.verify verifying probe_message signature) (mismatch_text c)
          (inr (adopted c signing raw)) identity in
      (
        (λ h. let (good, same) = check.0 h in ((signature, refl, good), sym (inr_inj same))),
        (λ ((other, signed, good), same).
            check.1
              (ap (c.verify verifying probe_message) (inr_inj signed) ∙ good, ap inr (sym same))),
      )

  probe_raw_iff :
      (signing : c.SigningHandle) (verifying : c.VerifyingHandle) (exported : c.Fault ⊎ Bytes)
      (identity : Identity c)
      → (probe_raw c signing verifying exported ≡ inr identity) ↔ (
          (raw : Bytes) × (exported ≡ inr raw)
          × (length raw ≡ 32)
          × ((signature : Bytes) × (c.sign signing probe_message ≡ inr signature)
              × (c.verify verifying probe_message signature ≡ true))
          × (identity ≡ adopted c signing raw))
  unfolding probe_raw
  probe_raw_iff signing verifying (inl e) identity = ((λ h. absurd cc), (λ h. absurd (cc h.1)))
  probe_raw_iff signing verifying (inr raw) identity =
      let signed = c.sign signing probe_message in
      let probe = of_probe_iff signing verifying raw signed identity in
      let check =
        check_iff (eqb (length raw) 32) (wrong_length c raw)
          (of_probe c signing verifying raw signed) identity in
      (
        (λ h.
            let (sized, good) = check.0 h in
            let (possessed, same) = probe.0 good in
            (raw, refl, (eqb_iff (length raw) 32).0 sized, possessed, same)),
        (λ (other, exported, sized, possessed, same).
            let at : raw ≡ other = inr_inj exported in
            check.1 (
              (eqb_iff (length raw) 32).1 (ap length at ∙ sized),
              probe.1 (possessed, same ∙ ap (adopted c signing) (sym at)),
            )),
      )

  -- An injected pair is adopted exactly when it is a pair, and the identity is then its signing
  -- handle under the exported key.
  pub from_injected_iff :
      (signing : c.SigningHandle) (verifying : c.VerifyingHandle) (identity : Identity c)
      → (from_injected c signing verifying ≡ inr identity)
        ↔ ((raw : Bytes) × IsPair signing verifying raw × (identity ≡ adopted c signing raw))
  unfolding from_injected
  from_injected_iff signing verifying identity =
      let exported = c.export_key_raw verifying in
      let last = probe_raw_iff signing verifying exported identity in
      let third =
        guard_iff (c.can_sign signing) _ (probe_raw c signing verifying exported) identity in
      let second = guard_iff (bytes_beq (c.verifying_algorithm verifying) ed25519) _ _ identity in
      let first = guard_iff (bytes_beq (c.signing_algorithm signing) ed25519) _ _ identity in
      (
        (λ h.
            let (signs, h1) = first.0 h in
            let (verifies, h2) = second.0 h1 in
            let (permitted, h3) = third.0 h2 in
            let (raw, exported, sized, possessed, same) = last.0 h3 in
            (
              raw,
              record {
                signs = (bytes_beq_iff (c.signing_algorithm signing) ed25519).0 signs;
                verifies = (bytes_beq_iff (c.verifying_algorithm verifying) ed25519).0 verifies;
                permitted = permitted;
                exported = exported;
                sized = sized;
                possessed = possessed;
              },
              same,
            )),
        (λ (raw, pair, same). first.1 (
          (bytes_beq_iff (c.signing_algorithm signing) ed25519).1 pair.signs,
          second.1 (
            (bytes_beq_iff (c.verifying_algorithm verifying) ed25519).1 pair.verifies,
            third.1 (pair.permitted, last.1 (raw, pair.exported, pair.sized, pair.possessed, same)),
          ),
        )),
      )
