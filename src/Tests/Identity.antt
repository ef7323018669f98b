-- ===== src/Tests/Identity.antt =====
-- Concrete runs for the identity.
use polymorph_iroh.Base.{◌≡◌, ◌↔◌, inl, inr, refl, true, [], ◌∷◌, ◌++◌, replicate, Bytes, bytes_beq}
use polymorph_iroh.Identity.{Crypto, ed25519, adopted, from_injected, probe_raw, of_probe}
use polymorph_iroh.Identity.Injected.{IsPair, from_injected_iff}
use polymorph_iroh.Identity.Signing.{IsPresented}
use polymorph_iroh.Identity.Resource.{from_keys, made-IsPresented}

-- A handle is its public key, and a signature is the key before the message.
abbrev pub toy : Crypto
toy = record {
  SigningHandle = Bytes;
  VerifyingHandle = Bytes;
  GuestKey = Unit {0};
  Fault = Unit {0};
  debug = λ e. [];
  display = λ e. [];
  decimal = λ n. n ∷ [];
  generate_key = λ sign extractable. inr (replicate 32 7, replicate 32 7);
  signing_algorithm = λ handle. ed25519;
  verifying_algorithm = λ handle. ed25519;
  can_sign = λ handle. true;
  export_key_raw = λ handle. inr handle;
  sign = λ handle message. inr (handle ++ message);
  verify = λ handle message signature. bytes_beq (handle ++ message) signature;
  key_of_seed = λ seed. tt;
  public_of = λ key. replicate 32 9;
  guest_sign = λ key message. message;
  to_spki = λ raw. 48 ∷ raw;
}

abbrev pub seven : Bytes
seven = replicate 32 7

from_injected_iff_example : (from_injected toy seven seven ≡ inr (adopted toy seven seven)) ↔ (
    (raw : Bytes) × IsPair toy seven seven raw × (adopted toy seven seven ≡ adopted toy seven raw))
from_injected_iff_example = from_injected_iff toy seven seven (adopted toy seven seven)

made-IsPresented_example : IsPresented toy (adopted toy seven seven)
unfolding bytes_beq from_keys from_injected probe_raw of_probe
made-IsPresented_example =
    made-IsPresented toy seven seven seven (adopted toy seven seven) (λ key. refl) (inr (inl refl))
