-- ===== src/Kem/Pq/XWing.antt =====
-- src/kem/pq.rs: `XWingDraft06` over the crate `x_wing`, which is a parameter.
pub mod Correct
use hpke_ng.Base.{ℕ, ◌≡◌, ◌==◌, if◌then◌else◌, not, Option, none, some, length}
use hpke_ng.Bytes.{Bytes, zeros}
use hpke_ng.Bytes.Slices.{copy_array}
use hpke_ng.Error.{
  Result, ok, err, ◌>>=◌, ok_or, decap_error, invalid_encapped_key, invalid_public_key,
  invalid_private_key,
}
use hpke_ng.Kem.{CryptoRng, Kem, kem_suite_id}
use hpke_ng.Kem.Pq.{ShakeCrate, shake256_labeled_derive, derive_key_pair_label}

-- `DecapsulationKey::from`, `encapsulation_key`, `to_bytes` and `try_from` of an
-- `EncapsulationKey`, `encapsulate_with_rng`, which gives the ciphertext and the shared secret, and
-- `decapsulate_slice`.
pub record XWingCrate (R : CryptoRng) : Type 1 where
  pub ciphertext_size : ℕ
  pub encapsulation_key_size : ℕ
  pub decapsulation_key_size : ℕ
  pub DecapsulationKey : Type 0
  pub EncapsulationKey : Type 0
  pub decapsulation_key_from : Bytes → DecapsulationKey
  pub encapsulation_key : DecapsulationKey → EncapsulationKey
  pub to_bytes : EncapsulationKey → Bytes
  pub encapsulation_key_try_from : Bytes → Option EncapsulationKey
  pub encapsulate_with_rng : R.State → EncapsulationKey → (Bytes × Bytes) × R.State
  pub decapsulate_slice : DecapsulationKey → Bytes → Option Bytes

-- The crate's documented behaviour: seeds and shared secrets have 32 bytes, and decapsulation
-- undoes encapsulation.
pub record XWingDocs {R : CryptoRng} (x : XWingCrate R) : Type 0 where
  pub seed_size : x.decapsulation_key_size ≡ 32
  pub secret_size :
      (rng : R.State) (ek : x.EncapsulationKey) → length (x.encapsulate_with_rng rng ek).0.1 ≡ 32
  pub decapsulated_size :
      (dk : x.DecapsulationKey) (ct : Bytes) {ss : Bytes}
      → x.decapsulate_slice dk ct ≡ some ss
      → length ss ≡ 32
  pub decapsulate-encapsulate :
      (rng : R.State) (dk : x.DecapsulationKey)
      → let made = x.encapsulate_with_rng rng (x.encapsulation_key dk) in
        x.decapsulate_slice dk made.0.0 ≡ some made.0.1

-- More of the crate's documented behaviour, for seeds of the array's 32 bytes: encodings have the
-- sizes of the crate's constants, and an encoded key is read back.
pub record XWingWireDocs {R : CryptoRng} (x : XWingCrate R) : Type 0 where
  pub length-ciphertext :
      (rng : R.State) (ek : x.EncapsulationKey)
      → length (x.encapsulate_with_rng rng ek).0.0 ≡ x.ciphertext_size
  pub length-to_bytes :
      (seed : Bytes)
      → length seed ≡ 32
      → length (x.to_bytes (x.encapsulation_key (x.decapsulation_key_from seed)))
        ≡ x.encapsulation_key_size
  pub try_from-to_bytes :
      (seed : Bytes)
      → length seed ≡ 32
      → let ek = x.encapsulation_key (x.decapsulation_key_from seed) in
        x.encapsulation_key_try_from (x.to_bytes ek) ≡ some ek

pub record XWingPublicKey {R : CryptoRng} (x : XWingCrate R) : Type 0 where
  pub bytes : Bytes
  pub parsed : x.EncapsulationKey

-- `dk` is the cached key, which scrubbing drops.
pub record XWingPrivateKey {R : CryptoRng} (x : XWingCrate R) : Type 0 where
  pub seed : Bytes
  pub dk : Option x.DecapsulationKey

pub record XWingEncappedKey : Type 0 where
  pub bytes : Bytes

pub record XWingSharedSecret : Type 0 where
  pub bytes : Bytes

module _ {R : CryptoRng} (s : ShakeCrate) (x : XWingCrate R) where
  unfoldable pub keypair_from_seed : Bytes → XWingPrivateKey x × XWingPublicKey x
  keypair_from_seed seed =
      let dk = x.decapsulation_key_from seed in
      let ek = x.encapsulation_key dk in
      (record { seed = seed; dk = some dk }, record { bytes = x.to_bytes ek; parsed = ek })

  -- `Zeroize::zeroize`
  unfoldable pub zeroize : XWingPrivateKey x → Result (XWingPrivateKey x)
  zeroize sk = ok (record { seed = zeros 32; dk = none })

  unfoldable pub generate : R.State → Result (XWingPrivateKey x × XWingPublicKey x) × R.State
  generate rng = let (seed, rng') = R.fill_bytes 32 rng in (ok (keypair_from_seed seed), rng')

  unfoldable pub derive_key_pair : Bytes → Result (XWingPrivateKey x × XWingPublicKey x)
  derive_key_pair ikm = do
    seed ← shake256_labeled_derive s (kem_suite_id 0x647a) derive_key_pair_label ikm 32
    ok (keypair_from_seed seed)

  unfoldable pub encap :
      R.State → XWingPublicKey x → Result (XWingSharedSecret × XWingEncappedKey) × R.State
  encap rng pk_r =
      let ((ct, ss), rng') = x.encapsulate_with_rng rng pk_r.parsed in
      (
        do ss_bytes ← copy_array 32 ss; ok (record { bytes = ss_bytes }, record { bytes = ct }),
        rng',
      )

  unfoldable pub decap : XWingEncappedKey → XWingPrivateKey x → Result XWingSharedSecret
  decap enc sk_r = do
    dk ← ok_or sk_r.dk decap_error
    ss ← ok_or (x.decapsulate_slice dk enc.bytes) invalid_encapped_key
    ss_bytes ← copy_array 32 ss
    ok (record { bytes = ss_bytes })

  unfoldable pub pk_from_bytes : Bytes → Result (XWingPublicKey x)
  pk_from_bytes b =
      if not (length b == x.encapsulation_key_size) then err invalid_public_key else do
        parsed ← ok_or (x.encapsulation_key_try_from b) invalid_public_key
        ok (record { bytes = b; parsed = parsed })

  unfoldable pub sk_from_bytes : Bytes → Result (XWingPrivateKey x)
  sk_from_bytes b =
      if not (length b == x.decapsulation_key_size) then err invalid_private_key else do
        seed ← copy_array 32 b
        ok (record { seed = seed; dk = some (x.decapsulation_key_from seed) })

  unfoldable pub enc_from_bytes : Bytes → Result XWingEncappedKey
  enc_from_bytes b =
      if not (length b == x.ciphertext_size)
      then err invalid_encapped_key
      else ok (record { bytes = b })

  -- `impl Kem for XWingDraft06`
  abbrev pub x_wing_draft06 : Kem R
  x_wing_draft06 = record {
    id = 0x647a;
    encapped_key_len = x.ciphertext_size;
    public_key_len = x.encapsulation_key_size;
    private_key_len = x.decapsulation_key_size;
    shared_secret_len = 32;
    PublicKey = XWingPublicKey x;
    PrivateKey = XWingPrivateKey x;
    EncappedKey = XWingEncappedKey;
    SharedSecret = XWingSharedSecret;
    pk_as_ref = λ pk. pk.bytes;
    enc_as_ref = λ enc. enc.bytes;
    ss_as_ref = λ ss. ss.bytes;
    sk_zeroize = zeroize;
    ss_zeroize = λ ss. record { bytes = zeros (length ss.bytes) };
    generate = generate;
    derive_key_pair = derive_key_pair;
    encap = encap;
    decap = decap;
    pk_from_bytes = pk_from_bytes;
    sk_from_bytes = sk_from_bytes;
    enc_from_bytes = enc_from_bytes;
    pk_to_bytes = λ pk. pk.bytes;
    sk_to_bytes = λ sk. sk.seed;
  }
