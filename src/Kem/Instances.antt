-- ===== src/Kem/Instances.antt =====
-- src/kem/dh.rs, src/kem/pq.rs: the nine KEMs that the library offers, over one set of crates.
pub mod Laws
use hpke_ng.Kdf.Hkdf.{HkdfCrate, HkdfDocs}
use hpke_ng.Kem.{CryptoRng, Kem, AuthKem}
use hpke_ng.Kem.Dh.{dh_kem, dh_auth_kem}
use hpke_ng.Kem.Dh.X25519.{DalekCrate, DalekDocs, x25519}
use hpke_ng.Kem.Dh.X448.{Ed448Crate, Ed448Docs, x448}
use hpke_ng.Kem.Dh.Nist
use hpke_ng.Kem.Dh.Nist.{CurveCrate, CurveDocs, nist_curve}
use hpke_ng.Kem.Pq.{ShakeCrate, ShakeDocs}
use hpke_ng.Kem.Pq.XWing.{XWingCrate, XWingDocs, x_wing_draft06}
use hpke_ng.Kem.Pq.MlKem.{MlKemCrate, MlKemDocs, ml_kem_variant, ml_kem_768, ml_kem_1024}

-- The crates that the KEMs call: `hkdf` over three hashes, four curves, and two sizes of `ml_kem`.
pub record Crates (R : CryptoRng) : Type 1 where
  pub sha256 : HkdfCrate
  pub sha384 : HkdfCrate
  pub sha512 : HkdfCrate
  pub dalek : DalekCrate
  pub ed448 : Ed448Crate
  pub p256 : CurveCrate R
  pub p384 : CurveCrate R
  pub p521 : CurveCrate R
  pub k256 : CurveCrate R
  pub shake : ShakeCrate
  pub x_wing : XWingCrate R
  pub ml_kem_768 : MlKemCrate R
  pub ml_kem_1024 : MlKemCrate R

-- Each behaves as documented.
pub record CratesDocs {R : CryptoRng} (c : Crates R) : Type 0 where
  pub sha256 : HkdfDocs c.sha256 32
  pub sha384 : HkdfDocs c.sha384 48
  pub sha512 : HkdfDocs c.sha512 64
  pub dalek : DalekDocs c.dalek
  pub ed448 : Ed448Docs c.ed448
  pub p256 : CurveDocs (Nist.p256 c.sha256) c.p256
  pub p384 : CurveDocs (Nist.p384 c.sha384) c.p384
  pub p521 : CurveDocs (Nist.p521 c.sha512) c.p521
  pub k256 : CurveDocs (Nist.k256 c.sha256) c.k256
  pub shake : ShakeDocs c.shake
  pub x_wing : XWingDocs c.x_wing
  pub ml_kem_768 : MlKemDocs c.ml_kem_768
  pub ml_kem_1024 : MlKemDocs c.ml_kem_1024

module _ {R : CryptoRng} (c : Crates R) where
  -- The aliases of `DhKem`, in their authenticated form.
  abbrev pub dh_kem_x25519_hkdf_sha256 : AuthKem R
  dh_kem_x25519_hkdf_sha256 = dh_auth_kem (x25519 c.dalek R c.sha256)

  abbrev pub dh_kem_x448_hkdf_sha512 : AuthKem R
  dh_kem_x448_hkdf_sha512 = dh_auth_kem (x448 c.ed448 R c.sha512)

  abbrev pub dh_kem_p256_hkdf_sha256 : AuthKem R
  dh_kem_p256_hkdf_sha256 = dh_auth_kem (nist_curve (Nist.p256 c.sha256) c.p256)

  abbrev pub dh_kem_p384_hkdf_sha384 : AuthKem R
  dh_kem_p384_hkdf_sha384 = dh_auth_kem (nist_curve (Nist.p384 c.sha384) c.p384)

  abbrev pub dh_kem_p521_hkdf_sha512 : AuthKem R
  dh_kem_p521_hkdf_sha512 = dh_auth_kem (nist_curve (Nist.p521 c.sha512) c.p521)

  abbrev pub dh_kem_k256_hkdf_sha256 : AuthKem R
  dh_kem_k256_hkdf_sha256 = dh_auth_kem (nist_curve (Nist.k256 c.sha256) c.k256)

  abbrev pub x_wing_draft06_kem : Kem R
  x_wing_draft06_kem = x_wing_draft06 c.shake c.x_wing

  abbrev pub ml_kem_768_kem : Kem R
  ml_kem_768_kem = ml_kem_variant c.shake ml_kem_768 c.ml_kem_768

  abbrev pub ml_kem_1024_kem : Kem R
  ml_kem_1024_kem = ml_kem_variant c.shake ml_kem_1024 c.ml_kem_1024
