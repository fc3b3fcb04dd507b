-- ===== src/Kem/Pq/MlKem.antt =====
-- src/kem/pq.rs: the macro `ml_kem_variant!` with its two parameter sets, over the crate `ml_kem`,
-- which is a parameter.
pub mod Correct
use hpke_ng.Base.{ℕ, ◌≡◌, ◌==◌, if◌then◌else◌, not, Option, none, some, length}
use hpke_ng.Bytes.{Bytes, zeros}
use hpke_ng.Bytes.Slices.{copy_array}
use hpke_ng.Error.{
  Result, ok, err, ◌>>=◌, ok_or, decap_error, invalid_encapped_key, invalid_public_key,
  invalid_private_key,
}
use hpke_ng.Kem.{CryptoRng, Kem, kem_suite_id}
use hpke_ng.Kem.Pq.{ShakeCrate, shake256_labeled_derive, derive_key_pair_label}

-- A parameter set of the crate: `DecapsulationKey::from_seed`, `encapsulation_key`, `to_bytes` of an
-- `EncapsulationKey`, its wire form `Key` by `try_into` and its `new`, `encapsulate_with_rng`, which
-- gives the ciphertext and the shared secret, `Ciphertext` to a vector and by `try_into`, and
-- `decapsulate`.
pub record MlKemCrate (R : CryptoRng) : Type 1 where
  pub DecapsulationKey : Type 0
  pub EncapsulationKey : Type 0
  pub Ciphertext : Type 0
  pub Key : Type 0
  pub from_seed : Bytes → DecapsulationKey
  pub encapsulation_key : DecapsulationKey → EncapsulationKey
  pub to_bytes : EncapsulationKey → Bytes
  pub key_try_into : Bytes → Option Key
  pub new : Key → Option EncapsulationKey
  pub encapsulate_with_rng : R.State → EncapsulationKey → (Ciphertext × Bytes) × R.State
  pub to_vec : Ciphertext → Bytes
  pub ciphertext_try_into : Bytes → Option Ciphertext
  pub decapsulate : DecapsulationKey → Ciphertext → Bytes

-- The crate's documented behaviour: shared secrets have 32 bytes, a ciphertext is read back, and
-- decapsulation undoes encapsulation.
pub record MlKemDocs {R : CryptoRng} (m : MlKemCrate R) : Type 0 where
  pub secret_size :
      (rng : R.State) (ek : m.EncapsulationKey) → length (m.encapsulate_with_rng rng ek).0.1 ≡ 32
  pub decapsulated_size :
      (dk : m.DecapsulationKey) (ct : m.Ciphertext) → length (m.decapsulate dk ct) ≡ 32
  pub ciphertext_try_into-to_vec :
      (ct : m.Ciphertext) → m.ciphertext_try_into (m.to_vec ct) ≡ some ct
  pub decapsulate-encapsulate :
      (rng : R.State) (dk : m.DecapsulationKey)
      → let made = m.encapsulate_with_rng rng (m.encapsulation_key dk) in
        m.decapsulate dk made.0.0 ≡ made.0.1

-- The macro's numbers: `$id`, `$nenc` and `$npk`.
pub record Variant : Type 0 where
  pub id : ℕ
  pub nenc : ℕ
  pub npk : ℕ

abbrev pub ml_kem_768 : Variant
ml_kem_768 = record { id = 0x0041; nenc = 1088; npk = 1184 }

abbrev pub ml_kem_1024 : Variant
ml_kem_1024 = record { id = 0x0042; nenc = 1568; npk = 1568 }

-- More of the crate's documented behaviour at a parameter set, for seeds of the array's 64 bytes:
-- encodings have the set's sizes, and an encoded key is read back.
pub record MlKemWireDocs {R : CryptoRng} (v : Variant) (m : MlKemCrate R) : Type 0 where
  pub length-to_vec : (ct : m.Ciphertext) → length (m.to_vec ct) ≡ v.nenc
  pub length-to_bytes :
      (seed : Bytes)
      → length seed ≡ 64
      → length (m.to_bytes (m.encapsulation_key (m.from_seed seed))) ≡ v.npk
  pub new-to_bytes :
      (seed : Bytes)
      → length seed ≡ 64
      → let ek = m.encapsulation_key (m.from_seed seed) in
        (k : m.Key) × (m.key_try_into (m.to_bytes ek) ≡ some k) × (m.new k ≡ some ek)

pub record MlKemPublicKey {R : CryptoRng} (m : MlKemCrate R) : Type 0 where
  pub bytes : Bytes
  pub parsed : m.EncapsulationKey

-- `dk` is the expanded key, which scrubbing drops.
pub record MlKemPrivateKey {R : CryptoRng} (m : MlKemCrate R) : Type 0 where
  pub dk : Option m.DecapsulationKey
  pub seed : Bytes

pub record MlKemEncappedKey : Type 0 where
  pub bytes : Bytes

pub record MlKemSharedSecret : Type 0 where
  pub bytes : Bytes

module _ {R : CryptoRng} (s : ShakeCrate) (v : Variant) (m : MlKemCrate R) where
  -- `$from_seed`
  unfoldable pub from_seed : Bytes → MlKemPrivateKey m × MlKemPublicKey m
  from_seed seed =
      let dk = m.from_seed seed in
      let ek = m.encapsulation_key dk in
      (record { dk = some dk; seed = seed }, record { bytes = m.to_bytes ek; parsed = ek })

  -- `Zeroize::zeroize`
  unfoldable pub zeroize : MlKemPrivateKey m → Result (MlKemPrivateKey m)
  zeroize sk = ok (record { dk = none; seed = zeros 64 })

  unfoldable pub generate : R.State → Result (MlKemPrivateKey m × MlKemPublicKey m) × R.State
  generate rng = let (seed, rng') = R.fill_bytes 64 rng in (ok (from_seed seed), rng')

  unfoldable pub derive_key_pair : Bytes → Result (MlKemPrivateKey m × MlKemPublicKey m)
  derive_key_pair ikm = do
    seed ← shake256_labeled_derive s (kem_suite_id v.id) derive_key_pair_label ikm 64
    ok (from_seed seed)

  unfoldable pub encap :
      R.State → MlKemPublicKey m → Result (MlKemSharedSecret × MlKemEncappedKey) × R.State
  encap rng pk_r =
      let ((ct, ss), rng') = m.encapsulate_with_rng rng pk_r.parsed in
      (
        do
          ss_bytes ← copy_array 32 ss
          ok (record { bytes = ss_bytes }, record { bytes = m.to_vec ct }),
        rng',
      )

  unfoldable pub decap : MlKemEncappedKey → MlKemPrivateKey m → Result MlKemSharedSecret
  decap enc sk_r = do
    dk ← ok_or sk_r.dk decap_error
    ct ← ok_or (m.ciphertext_try_into enc.bytes) invalid_encapped_key
    ss_bytes ← copy_array 32 (m.decapsulate dk ct)
    ok (record { bytes = ss_bytes })

  unfoldable pub pk_from_bytes : Bytes → Result (MlKemPublicKey m)
  pk_from_bytes b = if not (length b == v.npk) then err invalid_public_key else do
    ek_bytes ← ok_or (m.key_try_into b) invalid_public_key
    parsed ← ok_or (m.new ek_bytes) invalid_public_key
    ok (record { bytes = b; parsed = parsed })

  unfoldable pub sk_from_bytes : Bytes → Result (MlKemPrivateKey m)
  sk_from_bytes b =
      if not (length b == 64)
      then err invalid_private_key
      else do seed ← copy_array 64 b; ok (from_seed seed).0

  unfoldable pub enc_from_bytes : Bytes → Result MlKemEncappedKey
  enc_from_bytes b =
      if not (length b == v.nenc) then err invalid_encapped_key else ok (record { bytes = b })

  -- `impl Kem`
  abbrev pub ml_kem_variant : Kem R
  ml_kem_variant = record {
    id = v.id;
    encapped_key_len = v.nenc;
    public_key_len = v.npk;
    private_key_len = 64;
    shared_secret_len = 32;
    PublicKey = MlKemPublicKey m;
    PrivateKey = MlKemPrivateKey m;
    EncappedKey = MlKemEncappedKey;
    SharedSecret = MlKemSharedSecret;
    pk_as_ref = λ pk. pk.bytes;
    enc_as_ref = λ enc. enc.bytes;
    ss_as_ref = λ ss. ss.bytes;
    sk_zeroize = zeroize;
    ss_zeroize = λ ss. record { bytes = zeros (length ss.bytes) };
    generate = generate;
    derive_key_pair = derive_key_pair;
    encap = encap;
    decap = decap;
    pk_from_bytes = pk_from_bytes;
    sk_from_bytes = sk_from_bytes;
    enc_from_bytes = enc_from_bytes;
    pk_to_bytes = λ pk. pk.bytes;
    sk_to_bytes = λ sk. sk.seed;
  }
