-- ===== src/Kem/Dh/X448.antt =====
-- src/kem/dh.rs: the group X448 over the crate `ed448_goldilocks`, which is a parameter.
pub mod Lawful
use hpke_ng.Base.{ℕ, ◌≡◌, [], ◌==◌, if◌then◌else◌, not, bit_and, bit_or, length}
use hpke_ng.Bytes.{Bytes, literal, zeros, eq_bytes, modify}
use hpke_ng.Bytes.Slices.{copy_array}
use hpke_ng.Error.{Result, ok, err, ◌>>=◌, encap_error, invalid_public_key, invalid_private_key}
use hpke_ng.Kdf.{labeled_extract, labeled_expand}
use hpke_ng.Kdf.Hkdf.{HkdfCrate, hkdf_sha512}
use hpke_ng.Kem.{CryptoRng, kem_suite_id}
use hpke_ng.Kem.Dh.{DiffieHellman}

-- The scalar that 56 little-endian bytes make unreduced, `MontgomeryPoint` of 56 bytes and back,
-- the generator, and the product.
pub record Ed448Crate : Type 1 where
  pub Scalar : Type 0
  pub Point : Type 0
  pub scalar_from_le : Bytes → Scalar
  pub point_from : Bytes → Point
  pub as_bytes : Point → Bytes
  pub generator : Point
  pub mul : Point → Scalar → Point

-- The crate's documented behaviour: the product is a Diffie-Hellman function through its encoding,
-- which has 56 bytes.
pub record Ed448Docs (e : Ed448Crate) : Type 0 where
  pub mul_comm :
      (a b : e.Scalar)
      → e.mul (e.point_from (e.as_bytes (e.mul e.generator b))) a
        ≡ e.mul (e.point_from (e.as_bytes (e.mul e.generator a))) b
  pub length-as_bytes : (p : e.Point) → length (e.as_bytes p) ≡ 56

pub record X448PublicKeyWrap : Type 0 where
  pub bytes : Bytes

pub record X448PrivateKeyWrap : Type 0 where
  pub bytes : Bytes

-- The two assignments that clamp a scalar of 56 bytes.
unfoldable pub clamp : Bytes → Bytes
clamp bytes = modify 55 (λ b. bit_or b 0x80) (modify 0 (λ b. bit_and b 0xfc) bytes)

module _ (e : Ed448Crate) where
  unfoldable pub x448_scalar_mult_base : Bytes → Bytes
  x448_scalar_mult_base sk = e.as_bytes (e.mul e.generator (e.scalar_from_le sk))

  unfoldable pub x448_scalar_mult : Bytes → Bytes → Bytes
  x448_scalar_mult sk pk = e.as_bytes (e.mul (e.point_from pk) (e.scalar_from_le sk))

  unfoldable pub sk_to_pk : X448PrivateKeyWrap → X448PublicKeyWrap
  sk_to_pk sk = record { bytes = x448_scalar_mult_base sk.bytes }

  -- The last lines of `generate` and of `derive`.
  unfoldable pub key_pair : Bytes → X448PrivateKeyWrap × X448PublicKeyWrap
  key_pair sk = (record { bytes = sk }, record { bytes = x448_scalar_mult_base sk })

  unfoldable pub generate :
      (R : CryptoRng) → R.State → (X448PrivateKeyWrap × X448PublicKeyWrap) × R.State
  unfolding key_pair
  generate R rng = let (bytes, rng') = R.fill_bytes 56 rng in (key_pair (clamp bytes), rng')

  unfoldable pub derive : HkdfCrate → Bytes → Result (X448PrivateKeyWrap × X448PublicKeyWrap)
  derive h ikm = do
    let suite = kem_suite_id 0x0021
    let prk = labeled_extract (hkdf_sha512 h) [] suite (literal "dkp_prk") ikm
    bytes ← labeled_expand (hkdf_sha512 h) prk suite (literal "sk") [] 56
    sk ← copy_array 56 bytes
    ok (key_pair (clamp sk))

  unfoldable pub dh : X448PrivateKeyWrap → X448PublicKeyWrap → Result Bytes
  dh sk pk =
      let shared = x448_scalar_mult sk.bytes pk.bytes in
      if eq_bytes shared (zeros 56) then err encap_error else ok shared

  unfoldable pub pk_from_bytes : Bytes → Result X448PublicKeyWrap
  pk_from_bytes b =
      if not (length b == 56)
      then err invalid_public_key
      else do arr ← copy_array 56 b; ok (record { bytes = arr })

  unfoldable pub sk_from_bytes : Bytes → Result X448PrivateKeyWrap
  sk_from_bytes b =
      if not (length b == 56)
      then err invalid_private_key
      else do arr ← copy_array 56 b; ok (record { bytes = clamp arr })

  -- `Zeroize::zeroize` of an array.
  unfoldable pub zeroize : X448PrivateKeyWrap → Result X448PrivateKeyWrap
  zeroize sk = ok (record { bytes = zeros (length sk.bytes) })

  -- `impl DiffieHellman for X448`
  abbrev pub x448 : (R : CryptoRng) → HkdfCrate → DiffieHellman R
  x448 R h = record {
    kdf = hkdf_sha512 h;
    id = 0x0021;
    public_key_len = 56;
    private_key_len = 56;
    shared_secret_len = 64;
    PublicKey = X448PublicKeyWrap;
    PrivateKey = X448PrivateKeyWrap;
    pk_as_ref = λ pk. pk.bytes;
    sk_zeroize = zeroize;
    generate = generate R;
    derive = derive h;
    dh = dh;
    pk_from_bytes = pk_from_bytes;
    sk_from_bytes = sk_from_bytes;
    pk_to_bytes = λ pk. pk.bytes;
    sk_to_bytes = λ sk. sk.bytes;
    sk_to_pk = sk_to_pk;
  }
