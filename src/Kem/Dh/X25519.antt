-- ===== src/Kem/Dh/X25519.antt =====
-- src/kem/dh.rs: the group X25519 over the crate `x25519_dalek`, which is a parameter.
pub mod Lawful
pub mod Canonical
use hpke_ng.Base.{
  ℕ, ◌<◌, ◌≡◌, some, get_elem?, [], ◌==◌, if◌then◌else◌, not, bit_and, bit_or, length,
}
use hpke_ng.Bytes.{Bytes, literal, zeros, eq_bytes, modify}
use hpke_ng.Bytes.Slices.{copy_array}
use hpke_ng.Error.{Result, ok, err, ◌>>=◌, encap_error, invalid_public_key, invalid_private_key}
use hpke_ng.Kdf.{labeled_extract, labeled_expand}
use hpke_ng.Kdf.Hkdf.{HkdfCrate, hkdf_sha256}
use hpke_ng.Kem.{CryptoRng, kem_suite_id}
use hpke_ng.Kem.Dh.{DiffieHellman}

-- `StaticSecret::from`, its `to_bytes`, the bytes of `PublicKey::from(&secret)`, and the bytes of
-- `diffie_hellman` with the public key that the given bytes make.
pub record DalekCrate : Type 1 where
  pub StaticSecret : Type 0
  pub secret_from : Bytes → StaticSecret
  pub to_bytes : StaticSecret → Bytes
  pub public_bytes : StaticSecret → Bytes
  pub diffie_hellman : StaticSecret → Bytes → Bytes

-- The crate's documented behaviour: a secret keeps its 32 bytes, the function is a Diffie-Hellman
-- function, and a public key is the encoding, in 32 bytes, of a number below 2^255.
pub record DalekDocs (d : DalekCrate) : Type 0 where
  pub to_bytes-secret_from : (b : Bytes) → length b ≡ 32 → d.to_bytes (d.secret_from b) ≡ b
  pub dh_comm :
      (a b : d.StaticSecret)
      → d.diffie_hellman a (d.public_bytes b) ≡ d.diffie_hellman b (d.public_bytes a)
  pub length-public_bytes : (a : d.StaticSecret) → length (d.public_bytes a) ≡ 32
  pub public_bytes_last :
      (a : d.StaticSecret) (y : ℕ) → get_elem? (d.public_bytes a) 31 ≡ some y → y < 128

pub record X25519PublicKeyWrap : Type 0 where
  pub bytes : Bytes

pub record X25519PrivateKeyWrap (d : DalekCrate) : Type 0 where
  pub secret : d.StaticSecret

-- The three assignments that clamp a scalar of 32 bytes.
unfoldable pub clamp : Bytes → Bytes
clamp bytes =
    modify 31 (λ b. bit_or b 0x40)
      (modify 31 (λ b. bit_and b 0x7f) (modify 0 (λ b. bit_and b 0xf8) bytes))

module _ (d : DalekCrate) where
  unfoldable pub sk_to_pk : X25519PrivateKeyWrap d → X25519PublicKeyWrap
  sk_to_pk sk = record { bytes = d.public_bytes sk.secret }

  -- The last lines of `generate` and of `derive`.
  unfoldable pub key_pair : Bytes → X25519PrivateKeyWrap d × X25519PublicKeyWrap
  key_pair scalar =
      let sk = d.secret_from scalar in
      (record { secret = sk }, record { bytes = d.public_bytes sk })

  unfoldable pub generate :
      (R : CryptoRng) → R.State → (X25519PrivateKeyWrap d × X25519PublicKeyWrap) × R.State
  unfolding key_pair
  generate R rng = let (bytes, rng') = R.fill_bytes 32 rng in (key_pair (clamp bytes), rng')

  unfoldable pub derive : HkdfCrate → Bytes → Result (X25519PrivateKeyWrap d × X25519PublicKeyWrap)
  derive h ikm = do
    let suite = kem_suite_id 0x0020
    let dkp_prk = labeled_extract (hkdf_sha256 h) [] suite (literal "dkp_prk") ikm
    sk_bytes ← labeled_expand (hkdf_sha256 h) dkp_prk suite (literal "sk") [] 32
    arr ← copy_array 32 sk_bytes
    ok (key_pair (clamp arr))

  unfoldable pub dh : X25519PrivateKeyWrap d → X25519PublicKeyWrap → Result Bytes
  dh sk pk =
      let shared = d.diffie_hellman sk.secret pk.bytes in
      if eq_bytes shared (zeros 32) then err encap_error else ok shared

  unfoldable pub pk_from_bytes : Bytes → Result X25519PublicKeyWrap
  pk_from_bytes b =
      if not (length b == 32)
      then err invalid_public_key
      else do arr ← copy_array 32 b; ok (record { bytes = modify 31 (λ x. bit_and x 0x7f) arr })

  unfoldable pub sk_from_bytes : Bytes → Result (X25519PrivateKeyWrap d)
  sk_from_bytes b =
      if not (length b == 32)
      then err invalid_private_key
      else do arr ← copy_array 32 b; ok (record { secret = d.secret_from (clamp arr) })

  unfoldable pub sk_to_bytes : X25519PrivateKeyWrap d → Bytes
  sk_to_bytes sk = d.to_bytes sk.secret

  -- `Zeroize::zeroize`
  unfoldable pub zeroize : X25519PrivateKeyWrap d → Result (X25519PrivateKeyWrap d)
  zeroize sk = ok (record { secret = d.secret_from (zeros 32) })

  -- `impl DiffieHellman for X25519`
  abbrev pub x25519 : (R : CryptoRng) → HkdfCrate → DiffieHellman R
  x25519 R h = record {
    kdf = hkdf_sha256 h;
    id = 0x0020;
    public_key_len = 32;
    private_key_len = 32;
    shared_secret_len = 32;
    PublicKey = X25519PublicKeyWrap;
    PrivateKey = X25519PrivateKeyWrap d;
    pk_as_ref = λ pk. pk.bytes;
    sk_zeroize = zeroize;
    generate = generate R;
    derive = derive h;
    dh = dh;
    pk_from_bytes = pk_from_bytes;
    sk_from_bytes = sk_from_bytes;
    pk_to_bytes = λ pk. pk.bytes;
    sk_to_bytes = sk_to_bytes;
    sk_to_pk = sk_to_pk;
  }
