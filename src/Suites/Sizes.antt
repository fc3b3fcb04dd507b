-- ===== src/Suites/Sizes.antt =====
-- src/kem/mod.rs, src/lib.rs: proofs on the sizes that the KEMs of the library declare.
use hpke_ng.Kem
use hpke_ng.Kem.{CryptoRng}
use hpke_ng.Kem.Dh
use hpke_ng.Kem.Dh.Sized.{
  dh_auth_kem-AuthIsSized, x25519-KeySizes, x448-KeySizes, nist_curve-KeySizes,
}
use hpke_ng.Kem.Pq.Sized.{x_wing_draft06-IsSized, ml_kem_variant-IsSized}
use hpke_ng.Kem.Pq.MlKem
use hpke_ng.Kem.Instances.{Crates}
use hpke_ng.Suites.{
  AuthKemName, KemName, CipherCrates, SuiteDocs, group_named, auth_kem_named, kem_named,
  x25519_hkdf_sha256, x448_hkdf_sha512, p256_hkdf_sha256, p384_hkdf_sha384, p521_hkdf_sha512,
  k256_hkdf_sha256, over_group, post_quantum, x_wing_kem, ml_kem_small, ml_kem_large,
}
use hpke_ng.Suites.Laws.{group_named-IsLawful, group_named-Stores, group_named-HasWidth}

module _ {R : CryptoRng} (c : Crates R) (a : CipherCrates) (docs : SuiteDocs c a) where
  group_named-KeySizes : (n : AuthKemName) → Dh.KeySizes (group_named c n)
  group_named-KeySizes x25519_hkdf_sha256 =
      x25519-KeySizes R c.sha256 docs.crates.sha256 c.dalek docs.crates.dalek
  group_named-KeySizes x448_hkdf_sha512 =
      x448-KeySizes R c.sha512 docs.crates.sha512 c.ed448 docs.crates.ed448
  group_named-KeySizes p256_hkdf_sha256 = nist_curve-KeySizes _ c.p256 docs.crates.p256
  group_named-KeySizes p384_hkdf_sha384 = nist_curve-KeySizes _ c.p384 docs.crates.p384
  group_named-KeySizes p521_hkdf_sha512 = nist_curve-KeySizes _ c.p521 docs.crates.p521
  group_named-KeySizes k256_hkdf_sha256 = nist_curve-KeySizes _ c.k256 docs.crates.k256

  auth_kem_named-AuthIsSized : (n : AuthKemName) → Kem.AuthIsSized (auth_kem_named c n)
  auth_kem_named-AuthIsSized n =
      dh_auth_kem-AuthIsSized (group_named c n) (group_named-IsLawful c a docs n)
        (group_named-Stores c a docs n) (group_named-HasWidth c a docs n) (group_named-KeySizes n)

  kem_named-IsSized : (k : KemName) → Kem.IsSized (kem_named c k)
  kem_named-IsSized (over_group n) = (auth_kem_named-AuthIsSized n).is_sized
  kem_named-IsSized (post_quantum x_wing_kem) =
      x_wing_draft06-IsSized c.shake docs.crates.shake docs.rng c.x_wing docs.crates.x_wing
        docs.x_wing
  kem_named-IsSized (post_quantum ml_kem_small) =
      ml_kem_variant-IsSized c.shake docs.crates.shake docs.rng MlKem.ml_kem_768 c.ml_kem_768
        docs.crates.ml_kem_768 docs.ml_kem_768
  kem_named-IsSized (post_quantum ml_kem_large) =
      ml_kem_variant-IsSized c.shake docs.crates.shake docs.rng MlKem.ml_kem_1024 c.ml_kem_1024
        docs.crates.ml_kem_1024 docs.ml_kem_1024

  -- Over crates and a generator that behave as documented, with each of the nine KEMs that the
  -- library offers: the keys that are generated or derived, the encapsulated keys and the shared
  -- secrets, of the authenticated calls too, have the lengths that the KEM's constants declare,
  -- and each of the three parsers accepts only bytes of the declared length.
  pub kems-IsSized :
      ((k : KemName) → Kem.IsSized (kem_named c k))
      × ((n : AuthKemName) → Kem.AuthIsSized (auth_kem_named c n))
  kems-IsSized = (kem_named-IsSized, auth_kem_named-AuthIsSized)
