-- ===== src/Suites/Laws.antt =====
-- src/lib.rs: the laws of the KEMs, KDFs and ciphers that the library exports.
use hpke_ng.Base.{arith}
use hpke_ng.Kdf
use hpke_ng.Aead.{SealsLawfully}
use hpke_ng.Aead.Ciphers.{sealing_impl-SealsLawfully}
use hpke_ng.Kem
use hpke_ng.Kem.{CryptoRng}
use hpke_ng.Kem.Dh
use hpke_ng.Kem.Dh.X25519.Lawful.{x25519-IsLawful}
use hpke_ng.Kem.Dh.X448.Lawful.{x448-IsLawful}
use hpke_ng.Kem.Dh.Nist
use hpke_ng.Kem.Dh.Nist.Lawful.{nist_curve-IsLawful}
use hpke_ng.Kem.Dh.Stored.{dh_auth_kem-AuthStores, x25519-Stores, x448-Stores, nist_curve-Stores}
use hpke_ng.Kem.Dh.Travels.{
  dh_auth_kem-AuthTravels, x25519-HasWidth, x448-HasWidth, nist_curve-HasWidth,
}
use hpke_ng.Kem.Pq.Travels.{x_wing_draft06-Travels, ml_kem_variant-Travels}
use hpke_ng.Kem.Pq.MlKem
use hpke_ng.Kem.Instances.{Crates}
use hpke_ng.Kem.Instances.Laws.{sha256-IsLawful, sha384-IsLawful, sha512-IsLawful, kems-AllStore}
use hpke_ng.Suites.{
  AuthKemName, KemName, KdfName, AeadName, CipherCrates, SuiteDocs, group_named, auth_kem_named,
  kem_named, kdf_named, aead_named, x25519_hkdf_sha256, x448_hkdf_sha512, p256_hkdf_sha256,
  p384_hkdf_sha384, p521_hkdf_sha512, k256_hkdf_sha256, over_group, post_quantum, x_wing_kem,
  ml_kem_small, ml_kem_large, sha256_kdf, sha384_kdf, sha512_kdf, aes_128, aes_256, chacha20,
}

module _ {R : CryptoRng} (c : Crates R) (a : CipherCrates) (docs : SuiteDocs c a) where
  pub kdf_named-IsLawful : (f : KdfName) → Kdf.IsLawful (kdf_named c f)
  kdf_named-IsLawful sha256_kdf = sha256-IsLawful c docs.crates
  kdf_named-IsLawful sha384_kdf = sha384-IsLawful c docs.crates
  kdf_named-IsLawful sha512_kdf = sha512-IsLawful c docs.crates

  pub aead_named-SealsLawfully : (s : AeadName) → SealsLawfully (aead_named a s)
  aead_named-SealsLawfully aes_128 =
      sealing_impl-SealsLawfully a.aes_128_gcm 16 docs.aes_128_gcm 0x0001 (omega arith)
  aead_named-SealsLawfully aes_256 =
      sealing_impl-SealsLawfully a.aes_256_gcm 32 docs.aes_256_gcm 0x0002 (omega arith)
  aead_named-SealsLawfully chacha20 =
      sealing_impl-SealsLawfully a.chacha20_poly1305 32 docs.chacha20_poly1305 0x0003 (omega arith)

  pub group_named-IsLawful : (n : AuthKemName) → Dh.IsLawful (group_named c n)
  group_named-IsLawful x25519_hkdf_sha256 =
      x25519-IsLawful R c.sha256 docs.crates.sha256 c.dalek docs.crates.dalek
  group_named-IsLawful x448_hkdf_sha512 =
      x448-IsLawful R c.sha512 docs.crates.sha512 c.ed448 docs.crates.ed448
  group_named-IsLawful p256_hkdf_sha256 =
      nist_curve-IsLawful _ c.p256 docs.crates.p256 (sha256-IsLawful c docs.crates) (omega arith)
  group_named-IsLawful p384_hkdf_sha384 =
      nist_curve-IsLawful _ c.p384 docs.crates.p384 (sha384-IsLawful c docs.crates) (omega arith)
  group_named-IsLawful p521_hkdf_sha512 =
      nist_curve-IsLawful _ c.p521 docs.crates.p521 (sha512-IsLawful c docs.crates) (omega arith)
  group_named-IsLawful k256_hkdf_sha256 =
      nist_curve-IsLawful _ c.k256 docs.crates.k256 (sha256-IsLawful c docs.crates) (omega arith)

  pub group_named-HasWidth : (n : AuthKemName) → Dh.HasWidth (group_named c n)
  group_named-HasWidth x25519_hkdf_sha256 = x25519-HasWidth R c.sha256 c.dalek
  group_named-HasWidth x448_hkdf_sha512 = x448-HasWidth R c.sha512 c.ed448
  group_named-HasWidth p256_hkdf_sha256 = nist_curve-HasWidth (Nist.p256 c.sha256) c.p256
  group_named-HasWidth p384_hkdf_sha384 = nist_curve-HasWidth (Nist.p384 c.sha384) c.p384
  group_named-HasWidth p521_hkdf_sha512 = nist_curve-HasWidth (Nist.p521 c.sha512) c.p521
  group_named-HasWidth k256_hkdf_sha256 = nist_curve-HasWidth (Nist.k256 c.sha256) c.k256

  pub group_named-Stores : (n : AuthKemName) → Dh.Stores (group_named c n)
  group_named-Stores x25519_hkdf_sha256 =
      x25519-Stores R docs.rng c.sha256 c.dalek docs.crates.dalek
  group_named-Stores x448_hkdf_sha512 = x448-Stores R docs.rng c.sha512 c.ed448
  group_named-Stores p256_hkdf_sha256 = nist_curve-Stores _ c.p256 docs.crates.p256
  group_named-Stores p384_hkdf_sha384 = nist_curve-Stores _ c.p384 docs.crates.p384
  group_named-Stores p521_hkdf_sha512 = nist_curve-Stores _ c.p521 docs.crates.p521
  group_named-Stores k256_hkdf_sha256 = nist_curve-Stores _ c.k256 docs.crates.k256

  pub auth_kem_named-AuthStores : (n : AuthKemName) → Kem.AuthStores (auth_kem_named c n)
  auth_kem_named-AuthStores n =
      dh_auth_kem-AuthStores (group_named c n) (group_named-IsLawful n) (group_named-Stores n)

  pub auth_kem_named-AuthTravels : (n : AuthKemName) → Kem.AuthTravels (auth_kem_named c n)
  auth_kem_named-AuthTravels n =
      dh_auth_kem-AuthTravels (group_named c n) (group_named-IsLawful n) (group_named-HasWidth n)

  pub kem_named-Stores : (k : KemName) → Kem.Stores (kem_named c k)
  kem_named-Stores (over_group n) = (auth_kem_named-AuthStores n).stores
  kem_named-Stores (post_quantum x_wing_kem) = (kems-AllStore c docs.crates docs.rng).x_wing
  kem_named-Stores (post_quantum ml_kem_small) = (kems-AllStore c docs.crates docs.rng).ml_kem_768
  kem_named-Stores (post_quantum ml_kem_large) = (kems-AllStore c docs.crates docs.rng).ml_kem_1024

  pub kem_named-Travels : (k : KemName) → Kem.Travels (kem_named c k)
  kem_named-Travels (over_group n) = (auth_kem_named-AuthTravels n).travels
  kem_named-Travels (post_quantum x_wing_kem) =
      x_wing_draft06-Travels c.shake docs.rng c.x_wing docs.x_wing
  kem_named-Travels (post_quantum ml_kem_small) =
      ml_kem_variant-Travels c.shake docs.rng MlKem.ml_kem_768 c.ml_kem_768 docs.ml_kem_768
  kem_named-Travels (post_quantum ml_kem_large) =
      ml_kem_variant-Travels c.shake docs.rng MlKem.ml_kem_1024 c.ml_kem_1024 docs.ml_kem_1024
