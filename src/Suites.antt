-- ===== src/Suites.antt =====
-- src/lib.rs: the KEMs, KDFs and ciphers that the library exports, of which any three make a suite,
-- over one set of crates.
pub mod Laws
pub mod Delivered
pub mod Sessions
pub mod Encapped
pub mod PostQuantum
pub mod Groups
pub mod Sizes
use hpke_ng.Kdf.{Kdf}
use hpke_ng.Kdf.Hkdf.{hkdf_sha256, hkdf_sha384, hkdf_sha512}
use hpke_ng.Aead.{SealingAead}
use hpke_ng.Aead.Ciphers.{AeadCrate, AeadDocs, aes_128_gcm, aes_256_gcm, chacha20_poly1305}
use hpke_ng.Kem.{CryptoRng, RngDocs, Kem, AuthKem}
use hpke_ng.Kem.Dh.{DiffieHellman, dh_auth_kem}
use hpke_ng.Kem.Dh.X25519.{x25519}
use hpke_ng.Kem.Dh.X448.{x448}
use hpke_ng.Kem.Dh.Nist
use hpke_ng.Kem.Dh.Nist.{nist_curve}
use hpke_ng.Kem.Pq.XWing.{XWingWireDocs}
use hpke_ng.Kem.Pq.MlKem
use hpke_ng.Kem.Pq.MlKem.{MlKemWireDocs}
use hpke_ng.Kem.Instances.{Crates, CratesDocs, x_wing_draft06_kem, ml_kem_768_kem, ml_kem_1024_kem}

-- The KEMs over a group, which have the authenticated calls, and the post-quantum ones.
pub data AuthKemName : Type 0 where
  x25519_hkdf_sha256 x448_hkdf_sha512 p256_hkdf_sha256 p384_hkdf_sha384 : AuthKemName
  p521_hkdf_sha512 k256_hkdf_sha256 : AuthKemName

pub data PqKemName : Type 0 where
  x_wing_kem ml_kem_small ml_kem_large : PqKemName

pub data KemName : Type 0 where
  over_group : AuthKemName → KemName
  post_quantum : PqKemName → KemName

pub data KdfName : Type 0 where
  sha256_kdf sha384_kdf sha512_kdf : KdfName

pub data AeadName : Type 0 where
  aes_128 aes_256 chacha20 : AeadName

-- The ciphers' crates `aes_gcm`, at two key sizes, and `chacha20poly1305`.
pub record CipherCrates : Type 1 where
  pub aes_128_gcm : AeadCrate
  pub aes_256_gcm : AeadCrate
  pub chacha20_poly1305 : AeadCrate

-- All crates and the generator behave as documented, encodings of keys included.
pub record SuiteDocs {R : CryptoRng} (c : Crates R) (a : CipherCrates) : Type 0 where
  pub rng : RngDocs R
  pub crates : CratesDocs c
  pub x_wing : XWingWireDocs c.x_wing
  pub ml_kem_768 : MlKemWireDocs MlKem.ml_kem_768 c.ml_kem_768
  pub ml_kem_1024 : MlKemWireDocs MlKem.ml_kem_1024 c.ml_kem_1024
  pub aes_128_gcm : AeadDocs a.aes_128_gcm 16
  pub aes_256_gcm : AeadDocs a.aes_256_gcm 32
  pub chacha20_poly1305 : AeadDocs a.chacha20_poly1305 32

abbrev pub group_named : {R : CryptoRng} → Crates R → AuthKemName → DiffieHellman R
group_named {R} c x25519_hkdf_sha256 = x25519 c.dalek R c.sha256
group_named {R} c x448_hkdf_sha512 = x448 c.ed448 R c.sha512
group_named c p256_hkdf_sha256 = nist_curve (Nist.p256 c.sha256) c.p256
group_named c p384_hkdf_sha384 = nist_curve (Nist.p384 c.sha384) c.p384
group_named c p521_hkdf_sha512 = nist_curve (Nist.p521 c.sha512) c.p521
group_named c k256_hkdf_sha256 = nist_curve (Nist.k256 c.sha256) c.k256

abbrev pub auth_kem_named : {R : CryptoRng} → Crates R → AuthKemName → AuthKem R
auth_kem_named c n = dh_auth_kem (group_named c n)

abbrev pub pq_kem_named : {R : CryptoRng} → Crates R → PqKemName → Kem R
pq_kem_named c x_wing_kem = x_wing_draft06_kem c
pq_kem_named c ml_kem_small = ml_kem_768_kem c
pq_kem_named c ml_kem_large = ml_kem_1024_kem c

abbrev pub kem_named : {R : CryptoRng} → Crates R → KemName → Kem R
kem_named c (over_group n) = (auth_kem_named c n).kem
kem_named c (post_quantum q) = pq_kem_named c q

abbrev pub kdf_named : {R : CryptoRng} → Crates R → KdfName → Kdf
kdf_named c sha256_kdf = hkdf_sha256 c.sha256
kdf_named c sha384_kdf = hkdf_sha384 c.sha384
kdf_named c sha512_kdf = hkdf_sha512 c.sha512

abbrev pub aead_named : CipherCrates → AeadName → SealingAead
aead_named a aes_128 = aes_128_gcm a.aes_128_gcm
aead_named a aes_256 = aes_256_gcm a.aes_256_gcm
aead_named a chacha20 = chacha20_poly1305 a.chacha20_poly1305
