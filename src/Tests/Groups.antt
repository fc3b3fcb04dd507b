-- ===== src/Tests/Groups.antt =====
-- Examples on the groups, over stand-ins for the curve crates.
use hpke_ng.Base.{
  ℕ, zero, suc, ◌+◌, ◌-◌, ◌*◌, ◌++◌, length-replicate, length-append, lt→ltb, true, ◌∙◌, ◌%◌, ◌<◌,
  [], ◌∷◌, ◌≡◌, ◌≢◌, ◌⊎◌, refl, ap, some, none, get_elem?, replicate, length, if◌then◌else◌, ltb,
  arith,
}
use hpke_ng.Bytes.{Bytes, literal, zeros}
use hpke_ng.Error.{ok, err, invalid_public_key, derive_key_pair_error}
use hpke_ng.Kdf.{labeled_extract}
use hpke_ng.Kem.{kem_suite_id}
use hpke_ng.Kem.Dh.X25519
use hpke_ng.Kem.Dh.X25519.{DalekCrate, DalekDocs, X25519PublicKeyWrap, X25519PrivateKeyWrap, x25519}
use hpke_ng.Kem.Dh.X25519.Canonical.{IsClamped, sk_from_bytes-sk_to_bytes, pk_from_bytes-outcome}
use hpke_ng.Kem.Dh.X448.{Ed448Crate, Ed448Docs}
use hpke_ng.Kem.Dh.Nist
use hpke_ng.Kem.Dh.Nist.{CurveCrate, CurveDocs, Curve, nist_curve, p256, candidate, make_pk}
use hpke_ng.Kem.Dh.Nist.DeriveKey.{Rejected, derive-first}
use hpke_ng.Tests.Crates.{replicate-IsBytes, counting_rng, hkdf_crate, kdf-IsLawful}

abbrev first : Bytes → ℕ
first [] = 0
first (b ∷ bs) = b

abbrev pub dalek : DalekCrate
dalek = record {
  StaticSecret = Bytes;
  secret_from = λ b. b;
  to_bytes = λ s. s;
  public_bytes = λ s. first s % 256 ∷ zeros 31;
  diffie_hellman = λ s pk. (first s + first pk) % 256 ∷ zeros 31;
}

pub dalek_docs : DalekDocs dalek
dalek_docs = record {
  to_bytes-secret_from = λ b h. refl;
  dh_comm = λ a b. ap (λ n. n ∷ zeros 31) (omega arith);
  length-public_bytes = λ a. refl;
  public_bytes_last = λ a y h. let e : 0 ≡ y = cc in omega arith;
}

abbrev ones : Bytes
ones = replicate 32 255

sk_from_bytes-sk_to_bytes_example :
    (sk : X25519PrivateKeyWrap dalek) × (X25519.sk_from_bytes dalek ones ≡ ok sk)
    × (X25519.sk_to_bytes dalek sk ≡ X25519.clamp ones)
    × IsClamped (X25519.sk_to_bytes dalek sk)
    × (X25519.sk_from_bytes dalek (X25519.sk_to_bytes dalek sk) ≡ ok sk)
sk_from_bytes-sk_to_bytes_example =
    sk_from_bytes-sk_to_bytes dalek dalek_docs ones refl (replicate-IsBytes 32 255 (omega arith))

pk_from_bytes-outcome_example :
    (length ones ≡ 32
      → (pk : X25519PublicKeyWrap) × (X25519.pk_from_bytes dalek ones ≡ ok pk)
        × (length pk.bytes ≡ 32)
        × ((i : ℕ) → i ≢ 31 → get_elem? pk.bytes i ≡ get_elem? ones i)
        × ((y : ℕ) → get_elem? pk.bytes 31 ≡ some y → y < 128)
        × (X25519.pk_from_bytes dalek pk.bytes ≡ ok pk))
    × (length ones ≢ 32 → X25519.pk_from_bytes dalek ones ≡ err invalid_public_key)
pk_from_bytes-outcome_example =
    pk_from_bytes-outcome dalek ones (replicate-IsBytes 32 255 (omega arith))

abbrev pub ed448 : Ed448Crate
ed448 = record {
  Scalar = ℕ;
  Point = ℕ;
  scalar_from_le = first;
  point_from = first;
  as_bytes = λ p. p ∷ zeros 55;
  generator = 0;
  mul = λ p s. p + s;
}

pub ed448_docs : Ed448Docs ed448
ed448_docs = record { mul_comm = λ a b. omega arith; length-as_bytes = λ p. refl }

abbrev sum : Bytes → ℕ
sum [] = 0
sum (b ∷ bs) = b + sum bs

-- A curve whose private key `n` is the scalar `n + 1`, at a private key's length.
abbrev pub curve_of : ℕ → CurveCrate counting_rng
curve_of nsk = record {
  SecretKey = ℕ;
  PublicKey = ℕ;
  generate_from_rng = λ rng. (rng, rng + 1);
  from_slice = λ b. if ltb 0 (sum b) then some (sum b - 1) else none;
  to_bytes = λ sk. zeros (nsk - 1) ++ (sk + 1) ∷ [];
  public_key = λ sk. sk;
  from_sec1_bytes = λ b. get_elem? b 1;
  to_sec1_point = λ pk. 4 ∷ pk ∷ zeros (2 * nsk - 1);
  diffie_hellman = λ sk pk. (sk + pk) ∷ zeros 31;
}

sum_last : (n b : ℕ) → sum (zeros n ++ b ∷ []) ≡ b
sum_last zero b = omega arith
sum_last (suc n) b = omega (arith, sum_last n b)

pub curve_docs : (p : Curve) → 0 < p.nsk → CurveDocs p (curve_of p.nsk)
curve_docs p pos = record {
  dh_comm = λ a b. ap (λ n. n ∷ zeros 31) (omega arith);
  length-to_sec1_point = λ pk. omega (arith, length-replicate {A = ℕ} (2 * p.nsk - 1) 0);
  to_sec1_point_tag = λ pk. refl;
  from_sec1_bytes-to_sec1_point = λ pk. refl;
  length-to_bytes = λ sk.
      length-append (zeros (p.nsk - 1)) ((sk + 1) ∷ [])
      ∙ omega (arith, length-replicate {A = ℕ} (p.nsk - 1) 0);
  from_slice-to_bytes = λ sk.
      let positive : ltb 0 (sk + 1) ≡ true = lt→ltb _ _ (omega arith) in
      let back : sk + 1 - 1 ≡ sk = omega arith in
      rw (sum_last (p.nsk - 1) (sk + 1), positive, back);
  from_slice_one = (0, rw (sum_last (p.nsk - 1) 1));
}

abbrev curve : CurveCrate counting_rng
curve = curve_of 32

p256_docs : CurveDocs (p256 hkdf_crate) curve
p256_docs = curve_docs (p256 hkdf_crate) (omega arith)

derive-first_example :
    let p = p256 hkdf_crate in
    let prk = labeled_extract p.kdf [] (kem_suite_id p.id) (literal "dkp_prk") (literal "seed") in
    ((k : ℕ) × (bytes : Bytes) × (sk : ℕ) × (k < 256)
      × (candidate p curve prk k ≡ ok bytes)
      × (curve.from_slice bytes ≡ some sk)
      × ((j : ℕ) → j < k → Rejected p curve prk j)
      × (Nist.derive p curve (literal "seed") ≡ ok (record { secret = sk }, make_pk p curve sk)))
    ⊎ (((j : ℕ) → j < 256 → Rejected p curve prk j)
        × (Nist.derive p curve (literal "seed") ≡ err derive_key_pair_error))
derive-first_example =
    derive-first (p256 hkdf_crate) curve kdf-IsLawful (omega arith) (omega arith) (literal "seed")
