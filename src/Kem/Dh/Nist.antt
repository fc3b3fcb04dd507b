-- ===== src/Kem/Dh/Nist.antt =====
-- src/kem/dh.rs: the macro `nist_curve!` with its four curves, over the curve crates, which are
-- parameters, and the rejection sampling of `DeriveKeyPair`.
pub mod DeriveKey
pub mod Lawful
use hpke_ng.Base.{
  ℕ, ◌≡◌, get_elem?, zero, suc, ◌+◌, ◌*◌, ◌-◌, [], ◌∷◌, ◌++◌, ◌==◌, if◌then◌else◌, not, ◌||◌, Bool,
  true, false, Option, none, some, bit_and, length,
}
use hpke_ng.Bytes.{Bytes, literal, zeros, eq_bytes}
use hpke_ng.Bytes.Slices.{index}
use hpke_ng.Error.{
  Result, ok, err, panic, ◌>>=◌, ok_or, map_ok, encap_error, invalid_public_key,
  invalid_private_key, derive_key_pair_error,
}
use hpke_ng.Kdf.{Kdf, labeled_extract, labeled_expand}
use hpke_ng.Kdf.Hkdf.{HkdfCrate, hkdf_sha256, hkdf_sha384, hkdf_sha512}
use hpke_ng.Kem.{CryptoRng, kem_suite_id}
use hpke_ng.Kem.Dh.{DiffieHellman}

-- A curve crate: `SecretKey` with `generate_from_rng`, `from_slice`, `to_bytes` and `public_key`,
-- `PublicKey` with `from_sec1_bytes` and the uncompressed `to_sec1_point`, and the raw bytes of
-- `ecdh::diffie_hellman`.
pub record CurveCrate (R : CryptoRng) : Type 1 where
  pub SecretKey : Type 0
  pub PublicKey : Type 0
  pub generate_from_rng : R.State → SecretKey × R.State
  pub from_slice : Bytes → Option SecretKey
  pub to_bytes : SecretKey → Bytes
  pub public_key : SecretKey → PublicKey
  pub from_sec1_bytes : Bytes → Option PublicKey
  pub to_sec1_point : PublicKey → Bytes
  pub diffie_hellman : SecretKey → PublicKey → Bytes

-- The macro's arguments.
pub record Curve : Type 0 where
  pub kdf : Kdf
  pub id : ℕ
  pub nsk : ℕ
  pub nsecret : ℕ
  pub bitmask : ℕ

-- The crate's documented behaviour: the function is a Diffie-Hellman function, and an uncompressed
-- point has two coordinates after the tag 4, and is read back. A private key
-- is read back from its bytes, and the scalar 1 is one.
pub record CurveDocs {R : CryptoRng} (p : Curve) (c : CurveCrate R) : Type 0 where
  pub dh_comm :
      (a b : c.SecretKey)
      → c.diffie_hellman a (c.public_key b) ≡ c.diffie_hellman b (c.public_key a)
  pub length-to_sec1_point : (pk : c.PublicKey) → length (c.to_sec1_point pk) ≡ 1 + 2 * p.nsk
  pub to_sec1_point_tag : (pk : c.PublicKey) → get_elem? (c.to_sec1_point pk) 0 ≡ some 0x04
  pub from_sec1_bytes-to_sec1_point :
      (pk : c.PublicKey) → c.from_sec1_bytes (c.to_sec1_point pk) ≡ some pk
  pub length-to_bytes : (sk : c.SecretKey) → length (c.to_bytes sk) ≡ p.nsk
  pub from_slice-to_bytes : (sk : c.SecretKey) → c.from_slice (c.to_bytes sk) ≡ some sk
  pub from_slice_one : (one : c.SecretKey) × (c.from_slice (zeros (p.nsk - 1) ++ 1 ∷ []) ≡ some one)

pub record PublicKeyWrap {R : CryptoRng} (c : CurveCrate R) : Type 0 where
  pub pk : c.PublicKey
  pub encoded : Bytes

pub record PrivateKeyWrap {R : CryptoRng} (c : CurveCrate R) : Type 0 where
  pub secret : c.SecretKey

-- `bytes[0] &= bitmask`
unfoldable pub mask_first : ℕ → Bytes → Result Bytes
mask_first bitmask [] = panic
mask_first bitmask (b ∷ bs) = ok (bit_and b bitmask ∷ bs)

abbrev pub is_ok {ℓ} : {A : Type ℓ} → Result A → Bool
is_ok (ok a) = true
is_ok (err e) = false
is_ok panic = false

module _ {R : CryptoRng} (p : Curve) (c : CurveCrate R) where
  unfoldable pub make_pk : c.PublicKey → PublicKeyWrap c
  make_pk pk = let encoded = c.to_sec1_point pk in record { pk = pk; encoded = encoded }

  unfoldable pub generate : R.State → (PrivateKeyWrap c × PublicKeyWrap c) × R.State
  generate rng =
      let (sk, rng') = c.generate_from_rng rng in
      let pk = c.public_key sk in ((record { secret = sk }, make_pk pk), rng')

  unfoldable pub pk_from_bytes : Bytes → Result (PublicKeyWrap c)
  pk_from_bytes b = if not (length b == 1 + 2 * p.nsk) then err invalid_public_key else do
    tag ← index b 0
    if not (tag == 0x04)
        then err invalid_public_key
        else map_ok make_pk (ok_or (c.from_sec1_bytes b) invalid_public_key)

  unfoldable pub sk_from_bytes : Bytes → Result (PrivateKeyWrap c)
  sk_from_bytes b =
      if not (length b == p.nsk)
      then err invalid_private_key
      else map_ok (λ sk. record { secret = sk }) (ok_or (c.from_slice b) invalid_private_key)

  -- The candidate of one round of the loop in `derive_p_curve_sk`.
  unfoldable pub candidate : Bytes → ℕ → Result Bytes
  candidate dkp_prk counter = do
    bytes ←
        labeled_expand p.kdf dkp_prk (kem_suite_id p.id) (literal "candidate") (counter ∷ []) p.nsk
    mask_first p.bitmask bytes

  -- The rounds that are left of the loop.
  unfoldable pub try_counters : Bytes → ℕ → ℕ → Result Bytes
  try_counters dkp_prk zero counter = err derive_key_pair_error
  try_counters dkp_prk (suc rounds) counter = do
    bytes ← candidate dkp_prk counter
    elim (is_ok (sk_from_bytes bytes)) [
      | true ↦ ok bytes
      | false ↦ try_counters dkp_prk rounds (suc counter)
    ]

  unfoldable pub derive_p_curve_sk : Bytes → Result Bytes
  derive_p_curve_sk ikm =
      let suite = kem_suite_id p.id in
      let dkp_prk = labeled_extract p.kdf [] suite (literal "dkp_prk") ikm in
      try_counters dkp_prk 256 0

  unfoldable pub derive : Bytes → Result (PrivateKeyWrap c × PublicKeyWrap c)
  derive ikm = do
    bytes ← derive_p_curve_sk ikm
    sk ← ok_or (c.from_slice bytes) invalid_private_key
    let pk = c.public_key sk
    ok (record { secret = sk }, make_pk pk)

  unfoldable pub dh : PrivateKeyWrap c → PublicKeyWrap c → Result Bytes
  dh sk pk =
      let bytes = c.diffie_hellman sk.secret pk.pk in
      if eq_bytes bytes (zeros p.nsk) then err encap_error else ok bytes

  unfoldable pub sk_to_pk : PrivateKeyWrap c → PublicKeyWrap c
  sk_to_pk sk = make_pk (c.public_key sk.secret)

  -- `Zeroize::zeroize`: the scalar 1 takes the key's place; a crate that refuses it panics.
  unfoldable pub zeroize : PrivateKeyWrap c → Result (PrivateKeyWrap c)
  zeroize sk = elim (c.from_slice (zeros (p.nsk - 1) ++ 1 ∷ [])) [
    | some one ↦ ok (record { secret = one })
    | none ↦ panic
  ]

  -- `impl DiffieHellman`
  abbrev pub nist_curve : DiffieHellman R
  nist_curve = record {
    kdf = p.kdf;
    id = p.id;
    public_key_len = 1 + 2 * p.nsk;
    private_key_len = p.nsk;
    shared_secret_len = p.nsecret;
    PublicKey = PublicKeyWrap c;
    PrivateKey = PrivateKeyWrap c;
    pk_as_ref = λ pk. pk.encoded;
    sk_zeroize = zeroize;
    generate = generate;
    derive = derive;
    dh = dh;
    pk_from_bytes = pk_from_bytes;
    sk_from_bytes = sk_from_bytes;
    pk_to_bytes = λ pk. pk.encoded;
    sk_to_bytes = λ sk. c.to_bytes sk.secret;
    sk_to_pk = sk_to_pk;
  }

-- The four curves.
module _ (h : HkdfCrate) where
  abbrev pub p256 : Curve
  p256 = record { kdf = hkdf_sha256 h; id = 0x0010; nsk = 32; nsecret = 32; bitmask = 0xff }

  abbrev pub p384 : Curve
  p384 = record { kdf = hkdf_sha384 h; id = 0x0011; nsk = 48; nsecret = 48; bitmask = 0xff }

  abbrev pub p521 : Curve
  p521 = record { kdf = hkdf_sha512 h; id = 0x0012; nsk = 66; nsecret = 64; bitmask = 0x01 }

  abbrev pub k256 : Curve
  k256 = record { kdf = hkdf_sha256 h; id = 0x0016; nsk = 32; nsecret = 32; bitmask = 0xff }
