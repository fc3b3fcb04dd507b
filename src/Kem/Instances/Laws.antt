-- ===== src/Kem/Instances/Laws.antt =====
-- src/kem/dh.rs, src/kem/pq.rs: proofs on the nine KEMs.
use hpke_ng.Base.{arith}
use hpke_ng.Kdf
use hpke_ng.Kdf.Hkdf.{hkdf_sha256, hkdf_sha384, hkdf_sha512, hkdf_impl-IsLawful}
use hpke_ng.Kem
use hpke_ng.Kem.Dh.Stored.{dh_kem-Stores, x25519-Stores, x448-Stores, nist_curve-Stores}
use hpke_ng.Kem.{CryptoRng, RngDocs, IsPanicFree, AuthIsPanicFree, IsCorrect, AuthIsCorrect}
use hpke_ng.Kem.Dh.Correct.{dh_auth_kem-IsCorrect}
use hpke_ng.Kem.Dh.PanicFree.{dh_auth_kem-AuthIsPanicFree}
use hpke_ng.Kem.Dh.X25519.Lawful.{x25519-IsLawful, x25519-IsPanicFree}
use hpke_ng.Kem.Dh.X448.Lawful.{x448-IsLawful, x448-IsPanicFree}
use hpke_ng.Kem.Dh.Nist.Lawful.{nist_curve-IsLawful, nist_curve-IsPanicFree}
use hpke_ng.Kem.Pq.XWing.Correct.{
  x_wing_draft06-IsCorrect, x_wing_draft06-IsPanicFree, x_wing_draft06-Stores,
}
use hpke_ng.Kem.Pq.MlKem
use hpke_ng.Kem.Pq.MlKem.Correct.{
  ml_kem_variant-IsCorrect, ml_kem_variant-IsPanicFree, ml_kem_variant-Stores,
}
use hpke_ng.Kem.Instances.{
  Crates, CratesDocs, dh_kem_x25519_hkdf_sha256, dh_kem_x448_hkdf_sha512, dh_kem_p256_hkdf_sha256,
  dh_kem_p384_hkdf_sha384, dh_kem_p521_hkdf_sha512, dh_kem_k256_hkdf_sha256, x_wing_draft06_kem,
  ml_kem_768_kem, ml_kem_1024_kem,
}

-- All nine KEMs, with the authenticated calls of the six over a group, are free of panics.
pub record ArePanicFree {R : CryptoRng} (c : Crates R) : Type 0 where
  pub x25519 : AuthIsPanicFree (dh_kem_x25519_hkdf_sha256 c)
  pub x448 : AuthIsPanicFree (dh_kem_x448_hkdf_sha512 c)
  pub p256 : AuthIsPanicFree (dh_kem_p256_hkdf_sha256 c)
  pub p384 : AuthIsPanicFree (dh_kem_p384_hkdf_sha384 c)
  pub p521 : AuthIsPanicFree (dh_kem_p521_hkdf_sha512 c)
  pub k256 : AuthIsPanicFree (dh_kem_k256_hkdf_sha256 c)
  pub x_wing : IsPanicFree (x_wing_draft06_kem c)
  pub ml_kem_768 : IsPanicFree (ml_kem_768_kem c)
  pub ml_kem_1024 : IsPanicFree (ml_kem_1024_kem c)

-- All nine KEMs are correct, the six over a group with their authenticated calls.
pub record AreCorrect {R : CryptoRng} (c : Crates R) : Type 1 where
  pub x25519 : AuthIsCorrect (dh_kem_x25519_hkdf_sha256 c)
  pub x448 : AuthIsCorrect (dh_kem_x448_hkdf_sha512 c)
  pub p256 : AuthIsCorrect (dh_kem_p256_hkdf_sha256 c)
  pub p384 : AuthIsCorrect (dh_kem_p384_hkdf_sha384 c)
  pub p521 : AuthIsCorrect (dh_kem_p521_hkdf_sha512 c)
  pub k256 : AuthIsCorrect (dh_kem_k256_hkdf_sha256 c)
  pub x_wing : IsCorrect (x_wing_draft06_kem c)
  pub ml_kem_768 : IsCorrect (ml_kem_768_kem c)
  pub ml_kem_1024 : IsCorrect (ml_kem_1024_kem c)

-- With all nine KEMs a private key that is stored and loaded serves as before.
pub record AllStore {R : CryptoRng} (c : Crates R) : Type 0 where
  pub x25519 : Kem.Stores (dh_kem_x25519_hkdf_sha256 c).kem
  pub x448 : Kem.Stores (dh_kem_x448_hkdf_sha512 c).kem
  pub p256 : Kem.Stores (dh_kem_p256_hkdf_sha256 c).kem
  pub p384 : Kem.Stores (dh_kem_p384_hkdf_sha384 c).kem
  pub p521 : Kem.Stores (dh_kem_p521_hkdf_sha512 c).kem
  pub k256 : Kem.Stores (dh_kem_k256_hkdf_sha256 c).kem
  pub x_wing : Kem.Stores (x_wing_draft06_kem c)
  pub ml_kem_768 : Kem.Stores (ml_kem_768_kem c)
  pub ml_kem_1024 : Kem.Stores (ml_kem_1024_kem c)

module _ {R : CryptoRng} (c : Crates R) (docs : CratesDocs c) where
  pub sha256-IsLawful : Kdf.IsLawful (hkdf_sha256 c.sha256)
  sha256-IsLawful = hkdf_impl-IsLawful c.sha256 32 docs.sha256 0x0001 (omega arith) (omega arith)

  pub sha384-IsLawful : Kdf.IsLawful (hkdf_sha384 c.sha384)
  sha384-IsLawful = hkdf_impl-IsLawful c.sha384 48 docs.sha384 0x0002 (omega arith) (omega arith)

  pub sha512-IsLawful : Kdf.IsLawful (hkdf_sha512 c.sha512)
  sha512-IsLawful = hkdf_impl-IsLawful c.sha512 64 docs.sha512 0x0003 (omega arith) (omega arith)

  -- Over crates that behave as documented, no operation of the nine KEMs that the library offers
  -- panics, on any input: neither key generation and derivation, nor encapsulation and
  -- decapsulation, authenticated ones included, nor the three parsers, nor the scrubbing of a
  -- private key.
  pub kems-ArePanicFree : ArePanicFree c
  kems-ArePanicFree = record {
    x25519 =
        dh_auth_kem-AuthIsPanicFree _ sha256-IsLawful (omega arith)
          (x25519-IsPanicFree R c.sha256 docs.sha256 c.dalek docs.dalek);
    x448 =
        dh_auth_kem-AuthIsPanicFree _ sha512-IsLawful (omega arith)
          (x448-IsPanicFree R c.sha512 docs.sha512 c.ed448 docs.ed448);
    p256 =
        dh_auth_kem-AuthIsPanicFree _ sha256-IsLawful (omega arith)
          (nist_curve-IsPanicFree _ c.p256 docs.p256 sha256-IsLawful (omega arith) (omega arith));
    p384 =
        dh_auth_kem-AuthIsPanicFree _ sha384-IsLawful (omega arith)
          (nist_curve-IsPanicFree _ c.p384 docs.p384 sha384-IsLawful (omega arith) (omega arith));
    p521 =
        dh_auth_kem-AuthIsPanicFree _ sha512-IsLawful (omega arith)
          (nist_curve-IsPanicFree _ c.p521 docs.p521 sha512-IsLawful (omega arith) (omega arith));
    k256 =
        dh_auth_kem-AuthIsPanicFree _ sha256-IsLawful (omega arith)
          (nist_curve-IsPanicFree _ c.k256 docs.k256 sha256-IsLawful (omega arith) (omega arith));
    x_wing = x_wing_draft06-IsPanicFree c.shake c.x_wing docs.x_wing docs.shake;
    ml_kem_768 =
        ml_kem_variant-IsPanicFree c.shake MlKem.ml_kem_768 c.ml_kem_768 docs.ml_kem_768 docs.shake;
    ml_kem_1024 =
        ml_kem_variant-IsPanicFree c.shake MlKem.ml_kem_1024 c.ml_kem_1024 docs.ml_kem_1024
          docs.shake;
  }

  -- Over crates that behave as documented, each of the nine KEMs that the library offers is
  -- correct, the six over a group in the authenticated mode too: for some relation of pairs that
  -- holds of the keys it generates or derives, decapsulation with the private half undoes
  -- encapsulation to the public half.
  pub kems-AreCorrect : AreCorrect c
  kems-AreCorrect = record {
    x25519 = dh_auth_kem-IsCorrect _ (x25519-IsLawful R c.sha256 docs.sha256 c.dalek docs.dalek);
    x448 = dh_auth_kem-IsCorrect _ (x448-IsLawful R c.sha512 docs.sha512 c.ed448 docs.ed448);
    p256 =
        dh_auth_kem-IsCorrect _
          (nist_curve-IsLawful _ c.p256 docs.p256 sha256-IsLawful (omega arith));
    p384 =
        dh_auth_kem-IsCorrect _
          (nist_curve-IsLawful _ c.p384 docs.p384 sha384-IsLawful (omega arith));
    p521 =
        dh_auth_kem-IsCorrect _
          (nist_curve-IsLawful _ c.p521 docs.p521 sha512-IsLawful (omega arith));
    k256 =
        dh_auth_kem-IsCorrect _
          (nist_curve-IsLawful _ c.k256 docs.k256 sha256-IsLawful (omega arith));
    x_wing = x_wing_draft06-IsCorrect c.shake c.x_wing docs.x_wing;
    ml_kem_768 = ml_kem_variant-IsCorrect c.shake MlKem.ml_kem_768 c.ml_kem_768 docs.ml_kem_768;
    ml_kem_1024 = ml_kem_variant-IsCorrect c.shake MlKem.ml_kem_1024 c.ml_kem_1024 docs.ml_kem_1024;
  }

  -- Over crates and a generator that behave as documented, with each of the nine KEMs that the
  -- library offers: a generated private key that is serialized is read back, and the loaded key
  -- decapsulates whatever is encapsulated to the generated public key, to the same secret.
  pub kems-AllStore : RngDocs R → AllStore c
  kems-AllStore rng = record {
    x25519 =
        dh_kem-Stores _ (x25519-IsLawful R c.sha256 docs.sha256 c.dalek docs.dalek)
          (x25519-Stores R rng c.sha256 c.dalek docs.dalek);
    x448 =
        dh_kem-Stores _ (x448-IsLawful R c.sha512 docs.sha512 c.ed448 docs.ed448)
          (x448-Stores R rng c.sha512 c.ed448);
    p256 =
        dh_kem-Stores _ (nist_curve-IsLawful _ c.p256 docs.p256 sha256-IsLawful (omega arith))
          (nist_curve-Stores _ c.p256 docs.p256);
    p384 =
        dh_kem-Stores _ (nist_curve-IsLawful _ c.p384 docs.p384 sha384-IsLawful (omega arith))
          (nist_curve-Stores _ c.p384 docs.p384);
    p521 =
        dh_kem-Stores _ (nist_curve-IsLawful _ c.p521 docs.p521 sha512-IsLawful (omega arith))
          (nist_curve-Stores _ c.p521 docs.p521);
    k256 =
        dh_kem-Stores _ (nist_curve-IsLawful _ c.k256 docs.k256 sha256-IsLawful (omega arith))
          (nist_curve-Stores _ c.k256 docs.k256);
    x_wing = x_wing_draft06-Stores c.shake c.x_wing docs.x_wing rng;
    ml_kem_768 = ml_kem_variant-Stores c.shake MlKem.ml_kem_768 c.ml_kem_768 docs.ml_kem_768 rng;
    ml_kem_1024 =
        ml_kem_variant-Stores c.shake MlKem.ml_kem_1024 c.ml_kem_1024 docs.ml_kem_1024 rng;
  }
