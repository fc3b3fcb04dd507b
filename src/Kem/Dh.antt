-- ===== src/Kem/Dh.antt =====
-- src/kem/dh.rs: the trait `DiffieHellman` and the generic `DhKem`. The groups are in the children
-- X25519, X448 and Nist.
pub mod Correct
pub mod Deterministic
pub mod Stored
pub mod Travels
pub mod Outcome
pub mod PanicFree
pub mod Sized
pub mod X25519
pub mod X448
pub mod Nist
use hpke_ng.Base.{
  ℕ, ◌*◌, ◌≤◌, ◌≡◌, [], ◌∷◌, List, Option, none, some, ◌==◌, if◌then◌else◌, length, not,
}
use hpke_ng.Bytes.{Bytes, literal}
use hpke_ng.Error.{Result, ok, err, ◌>>=◌, map_ok, invalid_encapped_key, Returns}
use hpke_ng.Kdf
use hpke_ng.Kdf.{
  Kdf, labeled_extract, labeled_extract_pieces, labeled_expand, labeled_expand_pieces,
}
use hpke_ng.Kem.{CryptoRng, Kem, AuthKem, kem_suite_id}

pub record DiffieHellman (R : CryptoRng) : Type 1 where
  pub kdf : Kdf
  pub id : ℕ
  pub public_key_len : ℕ
  pub private_key_len : ℕ
  pub shared_secret_len : ℕ
  pub PublicKey : Type 0
  pub PrivateKey : Type 0
  pub pk_as_ref : PublicKey → Bytes
  pub sk_zeroize : PrivateKey → Result PrivateKey
  pub generate : R.State → (PrivateKey × PublicKey) × R.State
  pub derive : Bytes → Result (PrivateKey × PublicKey)
  pub dh : PrivateKey → PublicKey → Result Bytes
  pub pk_from_bytes : Bytes → Result PublicKey
  pub sk_from_bytes : Bytes → Result PrivateKey
  pub pk_to_bytes : PublicKey → Bytes
  pub sk_to_bytes : PrivateKey → Bytes
  pub sk_to_pk : PrivateKey → PublicKey

-- What `DhKem` relies on.
pub record IsLawful {R : CryptoRng} (D : DiffieHellman R) : Type 0 where
  pub kdf_lawful : Kdf.IsLawful D.kdf
  pub secret_len_bound : D.shared_secret_len ≤ 255 * D.kdf.hash_len
  pub generate_pair : (rng : R.State) → D.sk_to_pk (D.generate rng).0.0 ≡ (D.generate rng).0.1
  pub derive_pair :
      (ikm : Bytes) {sk : D.PrivateKey} {pk : D.PublicKey}
      → D.derive ikm ≡ ok (sk, pk)
      → D.sk_to_pk sk ≡ pk
  pub dh_comm : (a b : D.PrivateKey) → D.dh a (D.sk_to_pk b) ≡ D.dh b (D.sk_to_pk a)
  pub pk_from_bytes-pk_to_bytes :
      (sk : D.PrivateKey) → D.pk_from_bytes (D.pk_to_bytes (D.sk_to_pk sk)) ≡ ok (D.sk_to_pk sk)
  pub pk_to_bytes-as_ref : (pk : D.PublicKey) → D.pk_to_bytes pk ≡ D.pk_as_ref pk

-- A generated private key is read back from its bytes.
pub record Stores {R : CryptoRng} (D : DiffieHellman R) : Type 0 where
  pub read_back :
      (rng : R.State)
      → D.sk_from_bytes (D.sk_to_bytes (D.generate rng).0.0) ≡ ok (D.generate rng).0.0

-- Public keys have one length on the wire.
pub record HasWidth {R : CryptoRng} (D : DiffieHellman R) : Type 0 where
  pub width :
      (b : Bytes) {pk : D.PublicKey} → D.pk_from_bytes b ≡ ok pk → length b ≡ D.public_key_len

-- A private key that is read or derived has one length.
pub record KeySizes {R : CryptoRng} (D : DiffieHellman R) : Type 0 where
  pub sk_read :
      (b : Bytes) {sk : D.PrivateKey} → D.sk_from_bytes b ≡ ok sk → length b ≡ D.private_key_len
  pub derived :
      (ikm : Bytes) {sk : D.PrivateKey} {pk : D.PublicKey}
      → D.derive ikm ≡ ok (sk, pk)
      → length (D.sk_to_bytes sk) ≡ D.private_key_len

-- No operation of a group panics.
pub record IsPanicFree {R : CryptoRng} (D : DiffieHellman R) : Type 0 where
  pub derive : (ikm : Bytes) → Returns (D.derive ikm)
  pub dh : (sk : D.PrivateKey) (pk : D.PublicKey) → Returns (D.dh sk pk)
  pub pk_from_bytes : (b : Bytes) → Returns (D.pk_from_bytes b)
  pub sk_from_bytes : (b : Bytes) → Returns (D.sk_from_bytes b)
  pub sk_zeroize : (sk : D.PrivateKey) → Returns (D.sk_zeroize sk)

pub record DhPublicKey {R : CryptoRng} (D : DiffieHellman R) : Type 0 where
  pub key : D.PublicKey

-- `pk_bytes` is the cached public key.
pub record DhPrivateKey {R : CryptoRng} (D : DiffieHellman R) : Type 0 where
  pub sk : D.PrivateKey
  pub pk_bytes : Bytes

pub record DhEncappedKey : Type 0 where
  pub bytes : Bytes

pub record DhSharedSecret : Type 0 where
  pub bytes : Bytes

-- `Zeroize` of a `Vec<u8>`: the bytes are overwritten, then the vector is empty.
pub zeroize_vec : Bytes → Bytes
zeroize_vec bytes = []

module _ {R : CryptoRng} (D : DiffieHellman R) where
  unfoldable pub from_pair : D.PrivateKey → D.PublicKey → DhPrivateKey D
  from_pair sk pk = record { sk = sk; pk_bytes = D.pk_to_bytes pk }

  unfoldable pub from_sk : D.PrivateKey → DhPrivateKey D
  from_sk sk = let pk = D.sk_to_pk sk in record { sk = sk; pk_bytes = D.pk_to_bytes pk }

  -- The cached public key stays.
  unfoldable pub zeroize : DhPrivateKey D → Result (DhPrivateKey D)
  zeroize k = do sk ← D.sk_zeroize k.sk; ok (record k { sk = sk })

  unfoldable pub suite_id : Bytes
  suite_id = kem_suite_id D.id

  unfoldable pub extract_and_expand : Bytes → List Bytes → Result Bytes
  extract_and_expand dh kem_context =
      let suite = suite_id in
      let eae_prk = labeled_extract D.kdf [] suite (literal "eae_prk") dh in
      labeled_expand_pieces D.kdf eae_prk suite (literal "shared_secret") kem_context
        D.shared_secret_len

  unfoldable pub extract_and_expand_pieces : List Bytes → List Bytes → Result Bytes
  extract_and_expand_pieces dh_pieces kem_context = do
    let suite = suite_id
    eae_prk ← labeled_extract_pieces D.kdf [] suite (literal "eae_prk") dh_pieces
    labeled_expand_pieces D.kdf eae_prk suite (literal "shared_secret") kem_context
        D.shared_secret_len

  -- The match on the sender's key in `encap_with`.
  unfoldable pub encap_secret : Option (DhPrivateKey D) → D.PublicKey → Bytes → Bytes → Result Bytes
  encap_secret none pk_r dh1 enc = extract_and_expand dh1 (enc ∷ D.pk_as_ref pk_r ∷ [])
  encap_secret (some sk_s) pk_r dh1 enc = do
    dh2 ← D.dh sk_s.sk pk_r
    extract_and_expand_pieces (dh1 ∷ dh2 ∷ []) (enc ∷ D.pk_as_ref pk_r ∷ sk_s.pk_bytes ∷ [])

  unfoldable pub encap_with :
      R.State
      → DhPublicKey D
      → Option (DhPrivateKey D)
      → Result (DhSharedSecret × DhEncappedKey) × R.State
  unfolding encap_secret
  encap_with rng pk_r sk_sender =
      let ((sk_e, pk_e), rng') = D.generate rng in
      (
        do
          dh1 ← D.dh sk_e pk_r.key
          let enc = D.pk_to_bytes pk_e
          ss ← encap_secret sk_sender pk_r.key dh1 enc
          ok (record { bytes = ss }, record { bytes = enc }),
        rng',
      )

  unfoldable pub generate : R.State → Result (DhPrivateKey D × DhPublicKey D) × R.State
  unfolding from_pair
  generate rng =
      let ((sk, pk), rng') = D.generate rng in (ok (from_pair sk pk, record { key = pk }), rng')

  unfoldable pub derive_key_pair : Bytes → Result (DhPrivateKey D × DhPublicKey D)
  unfolding from_pair
  derive_key_pair ikm = do (sk, pk) ← D.derive ikm; ok (from_pair sk pk, record { key = pk })

  unfoldable pub decap : DhEncappedKey → DhPrivateKey D → Result DhSharedSecret
  decap enc sk_r = do
    pk_e ← D.pk_from_bytes enc.bytes
    dh ← D.dh sk_r.sk pk_e
    ss ← extract_and_expand dh (enc.bytes ∷ sk_r.pk_bytes ∷ [])
    ok (record { bytes = ss })

  unfoldable pub auth_decap : DhEncappedKey → DhPrivateKey D → DhPublicKey D → Result DhSharedSecret
  auth_decap enc sk_r pk_s = do
    pk_e ← D.pk_from_bytes enc.bytes
    dh1 ← D.dh sk_r.sk pk_e
    dh2 ← D.dh sk_r.sk pk_s.key
    ss ←
        extract_and_expand_pieces (dh1 ∷ dh2 ∷ [])
          (enc.bytes ∷ sk_r.pk_bytes ∷ D.pk_as_ref pk_s.key ∷ [])
    ok (record { bytes = ss })

  unfoldable pub pk_from_bytes : Bytes → Result (DhPublicKey D)
  pk_from_bytes b = do pk ← D.pk_from_bytes b; ok (record { key = pk })

  unfoldable pub sk_from_bytes : Bytes → Result (DhPrivateKey D)
  unfolding from_sk
  sk_from_bytes b = do sk ← D.sk_from_bytes b; ok (from_sk sk)

  unfoldable pub enc_from_bytes : Bytes → Result DhEncappedKey
  enc_from_bytes b =
      if not (length b == D.public_key_len)
      then err invalid_encapped_key
      else ok (record { bytes = b })

  -- `encap_with_ikm` of the test builds: the ephemeral pair is derived.
  unfoldable pub encap_with_ikm : DhPublicKey D → Bytes → Result (DhSharedSecret × DhEncappedKey)
  encap_with_ikm pk_r ikm_e = do
    (sk_e, pk_e) ← D.derive ikm_e
    dh ← D.dh sk_e pk_r.key
    let enc = D.pk_to_bytes pk_e
    ss ← extract_and_expand dh (enc ∷ D.pk_as_ref pk_r.key ∷ [])
    ok (record { bytes = ss }, record { bytes = enc })

  unfoldable pub auth_encap_with_ikm :
      DhPublicKey D → DhPrivateKey D → Bytes → Result (DhSharedSecret × DhEncappedKey)
  auth_encap_with_ikm pk_r sk_s ikm_e = do
    (sk_e, pk_e) ← D.derive ikm_e
    dh1 ← D.dh sk_e pk_r.key
    dh2 ← D.dh sk_s.sk pk_r.key
    let enc = D.pk_to_bytes pk_e
    ss ←
        extract_and_expand_pieces (dh1 ∷ dh2 ∷ []) (enc ∷ D.pk_as_ref pk_r.key ∷ sk_s.pk_bytes ∷ [])
    ok (record { bytes = ss }, record { bytes = enc })

  -- `impl Kem for DhKem<D>`
  abbrev pub dh_kem : Kem R
  dh_kem = record {
    id = D.id;
    encapped_key_len = D.public_key_len;
    public_key_len = D.public_key_len;
    private_key_len = D.private_key_len;
    shared_secret_len = D.shared_secret_len;
    PublicKey = DhPublicKey D;
    PrivateKey = DhPrivateKey D;
    EncappedKey = DhEncappedKey;
    SharedSecret = DhSharedSecret;
    pk_as_ref = λ pk. D.pk_as_ref pk.key;
    enc_as_ref = λ enc. enc.bytes;
    ss_as_ref = λ ss. ss.bytes;
    sk_zeroize = zeroize;
    ss_zeroize = λ ss. record { bytes = zeroize_vec ss.bytes };
    generate = generate;
    derive_key_pair = derive_key_pair;
    encap = λ rng pk_r. encap_with rng pk_r none;
    decap = decap;
    pk_from_bytes = pk_from_bytes;
    sk_from_bytes = sk_from_bytes;
    enc_from_bytes = enc_from_bytes;
    pk_to_bytes = λ pk. D.pk_to_bytes pk.key;
    sk_to_bytes = λ sk. D.sk_to_bytes sk.sk;
  }

  -- `impl AuthKem for DhKem<D>`
  abbrev pub dh_auth_kem : AuthKem R
  dh_auth_kem = record {
    kem = dh_kem;
    auth_encap = λ rng pk_r sk_s. encap_with rng pk_r (some sk_s);
    auth_decap = auth_decap;
  }
