-- ===== src/Kem.antt =====
-- src/kem/mod.rs: the traits `Kem` and `AuthKem`, and the suite identifier of a KEM.
pub mod Dh
pub mod Pq
pub mod Instances
use hpke_ng.Base.{ℕ, ◌≡◌, ◌++◌, length}
use hpke_ng.Bytes.{Bytes, IsBytes, literal, to_be_bytes}
use hpke_ng.Error.{Result, ok, Returns}

-- `rand_core::CryptoRng`: the generator's state, and `fill_bytes` of a buffer of a length.
pub record CryptoRng : Type 1 where
  pub State : Type 0
  pub fill_bytes : ℕ → State → Bytes × State

unfoldable pub kem_suite_id : ℕ → Bytes
kem_suite_id id = literal "KEM" ++ to_be_bytes 2 id

-- A call that draws from the generator gives its result and the generator's next state. The
-- `…_as_ref` and `…_zeroize` are the bounds `AsRef<[u8]>` and `Zeroize` of the associated types.
pub record Kem (R : CryptoRng) : Type 1 where
  pub id : ℕ
  pub encapped_key_len : ℕ
  pub public_key_len : ℕ
  pub private_key_len : ℕ
  pub shared_secret_len : ℕ
  pub PublicKey : Type 0
  pub PrivateKey : Type 0
  pub EncappedKey : Type 0
  pub SharedSecret : Type 0
  pub pk_as_ref : PublicKey → Bytes
  pub enc_as_ref : EncappedKey → Bytes
  pub ss_as_ref : SharedSecret → Bytes
  pub sk_zeroize : PrivateKey → Result PrivateKey
  pub ss_zeroize : SharedSecret → SharedSecret
  pub generate : R.State → Result (PrivateKey × PublicKey) × R.State
  pub derive_key_pair : Bytes → Result (PrivateKey × PublicKey)
  pub encap : R.State → PublicKey → Result (SharedSecret × EncappedKey) × R.State
  pub decap : EncappedKey → PrivateKey → Result SharedSecret
  pub pk_from_bytes : Bytes → Result PublicKey
  pub sk_from_bytes : Bytes → Result PrivateKey
  pub enc_from_bytes : Bytes → Result EncappedKey
  pub pk_to_bytes : PublicKey → Bytes
  pub sk_to_bytes : PrivateKey → Bytes

pub record AuthKem (R : CryptoRng) : Type 1 where
  pub kem : Kem R
  pub auth_encap :
      R.State
      → kem.PublicKey
      → kem.PrivateKey
      → Result (kem.SharedSecret × kem.EncappedKey) × R.State
  pub auth_decap : kem.EncappedKey → kem.PrivateKey → kem.PublicKey → Result kem.SharedSecret

-- What the modes rely on: a relation between the two halves of a key pair, under which decap
-- undoes encap.
pub record IsCorrect {R : CryptoRng} (K : Kem R) : Type 1 where
  pub Paired : K.PrivateKey → K.PublicKey → Type 0
  pub generate-Paired :
      (rng rng' : R.State) {sk : K.PrivateKey} {pk : K.PublicKey}
      → K.generate rng ≡ (ok (sk, pk), rng')
      → Paired sk pk
  pub derive_key_pair-Paired :
      (ikm : Bytes) {sk : K.PrivateKey} {pk : K.PublicKey}
      → K.derive_key_pair ikm ≡ ok (sk, pk)
      → Paired sk pk
  pub decap-encap :
      (rng rng' : R.State) (sk : K.PrivateKey) (pk : K.PublicKey) {ss : K.SharedSecret}
      {enc : K.EncappedKey}
      → Paired sk pk
      → K.encap rng pk ≡ (ok (ss, enc), rng')
      → K.decap enc sk ≡ ok ss

-- The same for the authenticated calls, where the sender has a pair too.
pub record AuthIsCorrect {R : CryptoRng} (K : AuthKem R) : Type 1 where
  pub is_correct : IsCorrect K.kem
  pub auth_decap-auth_encap :
      (rng rng' : R.State) (sk_r sk_s : K.kem.PrivateKey) (pk_r pk_s : K.kem.PublicKey)
      {ss : K.kem.SharedSecret} {enc : K.kem.EncappedKey}
      → is_correct.Paired sk_r pk_r
      → is_correct.Paired sk_s pk_s
      → K.auth_encap rng pk_r sk_s ≡ (ok (ss, enc), rng')
      → K.auth_decap enc sk_r pk_s ≡ ok ss

-- The generator's documented behaviour: a buffer is filled with bytes.
pub record RngDocs (R : CryptoRng) : Type 0 where
  pub length-fill_bytes : (n : ℕ) (rng : R.State) → length (R.fill_bytes n rng).0 ≡ n
  pub fill_bytes-IsBytes : (n : ℕ) (rng : R.State) → IsBytes (R.fill_bytes n rng).0

-- A generated private key that is serialized and read back opens whatever is encapsulated to its
-- public key.
pub record Stores {R : CryptoRng} (K : Kem R) : Type 0 where
  pub read_back :
      (rng rng' : R.State) {sk : K.PrivateKey} {pk : K.PublicKey}
      → K.generate rng ≡ (ok (sk, pk), rng')
      → (loaded : K.PrivateKey) × (K.sk_from_bytes (K.sk_to_bytes sk) ≡ ok loaded)
        × ((rng_e rng_e' : R.State) (ss : K.SharedSecret) (enc : K.EncappedKey)
            → K.encap rng_e pk ≡ (ok (ss, enc), rng_e')
            → K.decap enc loaded ≡ ok ss)

-- The same where the sender authenticates itself with a private key that is read back.
pub record AuthStores {R : CryptoRng} (K : AuthKem R) : Type 0 where
  pub stores : Stores K.kem
  pub auth_read_back :
      (rng rng' rng_s rng_s' : R.State) {sk_r sk_s : K.kem.PrivateKey} {pk_r pk_s : K.kem.PublicKey}
      → K.kem.generate rng ≡ (ok (sk_r, pk_r), rng')
      → K.kem.generate rng_s ≡ (ok (sk_s, pk_s), rng_s')
      → (loaded_r : K.kem.PrivateKey) × (loaded_s : K.kem.PrivateKey) × (K.kem.sk_from_bytes
            (K.kem.sk_to_bytes sk_r)
          ≡ ok loaded_r)
        × (K.kem.sk_from_bytes (K.kem.sk_to_bytes sk_s) ≡ ok loaded_s)
        × ((rng_e rng_e' : R.State) (ss : K.kem.SharedSecret) (enc : K.kem.EncappedKey)
            → K.auth_encap rng_e pk_r loaded_s ≡ (ok (ss, enc), rng_e')
            → K.auth_decap enc loaded_r pk_s ≡ ok ss)

-- A generated public key and an encapsulated key are read back from their bytes.
pub record Travels {R : CryptoRng} (K : Kem R) : Type 0 where
  pub pk_read_back :
      (rng rng' : R.State) {sk : K.PrivateKey} {pk : K.PublicKey}
      → K.generate rng ≡ (ok (sk, pk), rng')
      → K.pk_from_bytes (K.pk_to_bytes pk) ≡ ok pk
  pub enc_read_back :
      (rng rng' : R.State) (pk : K.PublicKey) {ss : K.SharedSecret} {enc : K.EncappedKey}
      → K.encap rng pk ≡ (ok (ss, enc), rng')
      → K.enc_from_bytes (K.enc_as_ref enc) ≡ ok enc

pub record AuthTravels {R : CryptoRng} (K : AuthKem R) : Type 0 where
  pub travels : Travels K.kem
  pub auth_enc_read_back :
      (rng rng' : R.State) (pk_r : K.kem.PublicKey) (sk_s : K.kem.PrivateKey)
      {ss : K.kem.SharedSecret} {enc : K.kem.EncappedKey}
      → K.auth_encap rng pk_r sk_s ≡ (ok (ss, enc), rng')
      → K.kem.enc_from_bytes (K.kem.enc_as_ref enc) ≡ ok enc

-- Key generation and encapsulation always succeed.
pub record IsTotal {R : CryptoRng} (K : Kem R) : Type 0 where
  pub generate_total :
      (rng : R.State)
      → (sk : K.PrivateKey) × (pk : K.PublicKey) × (rng' : R.State) × (K.generate rng
          ≡ (ok (sk, pk), rng'))
  pub encap_total :
      (rng : R.State) (pk : K.PublicKey)
      → (ss : K.SharedSecret) × (enc : K.EncappedKey) × (rng' : R.State) × (K.encap rng pk
          ≡ (ok (ss, enc), rng'))

-- Keys, encapsulated keys and secrets have the sizes that the trait's constants give: those that are
-- made, and those that are read.
pub record IsSized {R : CryptoRng} (K : Kem R) : Type 0 where
  pub generated :
      (rng rng' : R.State) {sk : K.PrivateKey} {pk : K.PublicKey}
      → K.generate rng ≡ (ok (sk, pk), rng')
      → (length (K.sk_to_bytes sk) ≡ K.private_key_len)
        × (length (K.pk_to_bytes pk) ≡ K.public_key_len)
  pub derived :
      (ikm : Bytes) {sk : K.PrivateKey} {pk : K.PublicKey}
      → K.derive_key_pair ikm ≡ ok (sk, pk)
      → (length (K.sk_to_bytes sk) ≡ K.private_key_len)
        × (length (K.pk_to_bytes pk) ≡ K.public_key_len)
  pub encapped :
      (rng rng' : R.State) (pk : K.PublicKey) {ss : K.SharedSecret} {enc : K.EncappedKey}
      → K.encap rng pk ≡ (ok (ss, enc), rng')
      → (length (K.ss_as_ref ss) ≡ K.shared_secret_len)
        × (length (K.enc_as_ref enc) ≡ K.encapped_key_len)
  pub decapped :
      (enc : K.EncappedKey) (sk : K.PrivateKey) {ss : K.SharedSecret}
      → K.decap enc sk ≡ ok ss
      → length (K.ss_as_ref ss) ≡ K.shared_secret_len
  pub sk_read :
      (b : Bytes) {sk : K.PrivateKey} → K.sk_from_bytes b ≡ ok sk → length b ≡ K.private_key_len
  pub pk_read :
      (b : Bytes) {pk : K.PublicKey} → K.pk_from_bytes b ≡ ok pk → length b ≡ K.public_key_len
  pub enc_read :
      (b : Bytes) {enc : K.EncappedKey}
      → K.enc_from_bytes b ≡ ok enc
      → length b ≡ K.encapped_key_len

pub record AuthIsSized {R : CryptoRng} (K : AuthKem R) : Type 0 where
  pub is_sized : IsSized K.kem
  pub auth_encapped :
      (rng rng' : R.State) (pk_r : K.kem.PublicKey) (sk_s : K.kem.PrivateKey)
      {ss : K.kem.SharedSecret} {enc : K.kem.EncappedKey}
      → K.auth_encap rng pk_r sk_s ≡ (ok (ss, enc), rng')
      → (length (K.kem.ss_as_ref ss) ≡ K.kem.shared_secret_len)
        × (length (K.kem.enc_as_ref enc) ≡ K.kem.encapped_key_len)
  pub auth_decapped :
      (enc : K.kem.EncappedKey) (sk_r : K.kem.PrivateKey) (pk_s : K.kem.PublicKey)
      {ss : K.kem.SharedSecret}
      → K.auth_decap enc sk_r pk_s ≡ ok ss
      → length (K.kem.ss_as_ref ss) ≡ K.kem.shared_secret_len

-- No operation of a KEM panics.
pub record IsPanicFree {R : CryptoRng} (K : Kem R) : Type 0 where
  pub generate : (rng : R.State) → Returns (K.generate rng).0
  pub derive_key_pair : (ikm : Bytes) → Returns (K.derive_key_pair ikm)
  pub encap : (rng : R.State) (pk : K.PublicKey) → Returns (K.encap rng pk).0
  pub decap : (enc : K.EncappedKey) (sk : K.PrivateKey) → Returns (K.decap enc sk)
  pub pk_from_bytes : (b : Bytes) → Returns (K.pk_from_bytes b)
  pub sk_from_bytes : (b : Bytes) → Returns (K.sk_from_bytes b)
  pub enc_from_bytes : (b : Bytes) → Returns (K.enc_from_bytes b)
  pub sk_zeroize : (sk : K.PrivateKey) → Returns (K.sk_zeroize sk)

pub record AuthIsPanicFree {R : CryptoRng} (K : AuthKem R) : Type 0 where
  pub is_panic_free : IsPanicFree K.kem
  pub auth_encap :
      (rng : R.State) (pk_r : K.kem.PublicKey) (sk_s : K.kem.PrivateKey)
      → Returns (K.auth_encap rng pk_r sk_s).0
  pub auth_decap :
      (enc : K.kem.EncappedKey) (sk_r : K.kem.PrivateKey) (pk_s : K.kem.PublicKey)
      → Returns (K.auth_decap enc sk_r pk_s)
