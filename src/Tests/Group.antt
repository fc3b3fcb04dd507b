-- ===== src/Tests/Group.antt =====
-- A stand-in for a group: numbers below 256 under addition, one byte for each.
use hpke_ng.Base.{ℕ, ◌+◌, ◌%◌, ◌≡◌, refl, ap, subst, [], ◌∷◌, arith}
use hpke_ng.Bytes.{Bytes}
use hpke_ng.Error.{Result, ok, err, ok_inj, invalid_public_key, invalid_private_key}
use hpke_ng.Kem.{AuthKem, AuthIsCorrect}
use hpke_ng.Kem.Dh
use hpke_ng.Kem.Dh.{DiffieHellman, DhPrivateKey, DhPublicKey, dh_auth_kem}
use hpke_ng.Kem.Dh.Correct.{dh_auth_kem-IsCorrect}
use hpke_ng.Tests.Crates.{counting_rng, kdf, kdf-IsLawful}

abbrev pub agree : ℕ → Bytes → Result Bytes
agree a [] = err invalid_public_key
agree a (b ∷ bs) = ok ((a + b) % 256 ∷ [])

abbrev pub read_public : Bytes → Result Bytes
read_public [] = err invalid_public_key
read_public (b ∷ []) = ok (b ∷ [])
read_public (b ∷ c ∷ bs) = err invalid_public_key

abbrev pub read_private : Bytes → Result ℕ
read_private [] = err invalid_private_key
read_private (b ∷ bs) = ok b

abbrev pub public_of : ℕ → Bytes
public_of a = a % 256 ∷ []

abbrev pub group : DiffieHellman counting_rng
group = record {
  kdf = kdf;
  id = 0x0020;
  public_key_len = 1;
  private_key_len = 1;
  shared_secret_len = 32;
  PublicKey = Bytes;
  PrivateKey = ℕ;
  pk_as_ref = λ pk. pk;
  sk_zeroize = λ sk. ok 0;
  generate = λ rng. ((rng, public_of rng), rng + 1);
  derive = λ ikm. ok (7, public_of 7);
  dh = agree;
  pk_from_bytes = read_public;
  sk_from_bytes = read_private;
  pk_to_bytes = λ pk. pk;
  sk_to_bytes = λ sk. sk % 256 ∷ [];
  sk_to_pk = public_of;
}

pub group-IsLawful : Dh.IsLawful group
group-IsLawful = record {
  kdf_lawful = kdf-IsLawful;
  secret_len_bound = omega arith;
  generate_pair = λ rng. refl;
  derive_pair = λ ikm h. subst (λ p. public_of p.0 ≡ p.1) (ok_inj h) refl;
  dh_comm = λ a b. ap (λ n. ok (n ∷ [])) (omega arith);
  pk_from_bytes-pk_to_bytes = λ sk. refl;
  pk_to_bytes-as_ref = λ pk. refl;
}

abbrev pub kem : AuthKem counting_rng
kem = dh_auth_kem group

pub kem_correct : AuthIsCorrect kem
kem_correct = dh_auth_kem-IsCorrect group group-IsLawful

dh_auth_kem-IsCorrect_example : AuthIsCorrect (dh_auth_kem group)
dh_auth_kem-IsCorrect_example = dh_auth_kem-IsCorrect group group-IsLawful
