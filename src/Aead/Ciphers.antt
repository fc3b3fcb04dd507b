-- ===== src/Aead/Ciphers.antt =====
-- src/aead.rs: the three ciphers over the crates `chacha20poly1305` and `aes_gcm`, which are
-- parameters.
use hpke_ng.Base.{ℕ, ◌+◌, ◌≤◌, ◌≡◌, ◌≢◌, refl, Option, none, some, length, arith}
use hpke_ng.Bytes.{Bytes}
use hpke_ng.Error.{
  Result, ok, err, panic, ◌>>=◌, ok_or, >>=-eq-ok, ok_or-eq-ok, HpkeError, aead_init_error,
  seal_error, open_error,
}
use hpke_ng.Aead.{SealingAead, IsLawful, SealsLawfully, export_only}

-- `new_from_slice`, `<&Nonce>::try_from`, and `encrypt` and `decrypt` of a payload: the arguments
-- are the cipher state, the nonce, the associated data and the message.
pub record AeadCrate : Type 1 where
  pub Cipher : Type 0
  pub Nonce : Type 0
  pub new_from_slice : Bytes → Option Cipher
  pub nonce_try_from : Bytes → Option Nonce
  pub encrypt : Cipher → Nonce → Bytes → Bytes → Option Bytes
  pub decrypt : Cipher → Nonce → Bytes → Bytes → Option Bytes

-- The crates' documented behaviour: a key of the cipher's length is taken and no other, a nonce
-- has 12 bytes, decryption undoes encryption, and a tag is appended.
pub record AeadDocs (c : AeadCrate) (key_len : ℕ) : Type 0 where
  pub new_from_slice_right :
      (key : Bytes) → length key ≡ key_len → (k : c.Cipher) × (c.new_from_slice key ≡ some k)
  pub new_from_slice_wrong : (key : Bytes) → length key ≢ key_len → c.new_from_slice key ≡ none
  pub nonce_try_from_wrong : (n : Bytes) → length n ≢ 12 → c.nonce_try_from n ≡ none
  pub decrypt-encrypt :
      (k : c.Cipher) (n : c.Nonce) (aad pt : Bytes) {ct : Bytes}
      → c.encrypt k n aad pt ≡ some ct
      → c.decrypt k n aad ct ≡ some pt
  pub length-encrypt :
      (k : c.Cipher) (n : c.Nonce) (aad pt : Bytes) {ct : Bytes}
      → c.encrypt k n aad pt ≡ some ct
      → length ct ≡ length pt + 16

module _ (c : AeadCrate) where
  unfoldable pub cipher_init : Bytes → Result c.Cipher
  cipher_init key = ok_or (c.new_from_slice key) aead_init_error

  unfoldable pub cipher_seal : c.Cipher → Bytes → Bytes → Bytes → Result Bytes
  cipher_seal cipher nonce aad pt = do
    n ← ok_or (c.nonce_try_from nonce) seal_error
    ok_or (c.encrypt cipher n aad pt) seal_error

  unfoldable pub cipher_open : c.Cipher → Bytes → Bytes → Bytes → Result Bytes
  cipher_open cipher nonce aad ct = do
    n ← ok_or (c.nonce_try_from nonce) open_error
    ok_or (c.decrypt cipher n aad ct) open_error

  -- The shape that the three ciphers share: nonces of 12 bytes and tags of 16.
  abbrev pub sealing_impl : ℕ → ℕ → SealingAead
  sealing_impl id key_len = record {
    aead = record {
      id = id;
      key_len = key_len;
      nonce_len = 12;
      tag_len = 16;
      Cipher = c.Cipher;
      init = cipher_init;
    };
    seal = cipher_seal;
    open_ct = cipher_open;
  }

abbrev pub aes_128_gcm : AeadCrate → SealingAead
aes_128_gcm c = sealing_impl c 0x0001 16

abbrev pub aes_256_gcm : AeadCrate → SealingAead
aes_256_gcm c = sealing_impl c 0x0002 32

abbrev pub chacha20_poly1305 : AeadCrate → SealingAead
chacha20_poly1305 c = sealing_impl c 0x0003 32

module _ (c : AeadCrate) where
  -- Sealing and opening return, each with its one error on any failure.
  cipher_seal_fails :
      (k : c.Cipher) (nonce aad pt : Bytes) {e : HpkeError}
      → cipher_seal c k nonce aad pt ≡ err e
      → e ≡ seal_error
  unfolding cipher_seal
  cipher_seal_fails k nonce aad pt h = ground arith

  cipher_open_fails :
      (k : c.Cipher) (nonce aad ct : Bytes) {e : HpkeError}
      → cipher_open c k nonce aad ct ≡ err e
      → e ≡ open_error
  unfolding cipher_open
  cipher_open_fails k nonce aad ct h = ground arith

  cipher_seal_returns : (k : c.Cipher) (nonce aad pt : Bytes) → cipher_seal c k nonce aad pt ≢ panic
  unfolding cipher_seal
  cipher_seal_returns k nonce aad pt h = ground arith

  cipher_open_returns : (k : c.Cipher) (nonce aad ct : Bytes) → cipher_open c k nonce aad ct ≢ panic
  unfolding cipher_open
  cipher_open_returns k nonce aad ct h = ground arith

module _ (c : AeadCrate) (key_len : ℕ) (docs : AeadDocs c key_len) where
  cipher_init_key :
      (key : Bytes) → length key ≡ key_len → (k : c.Cipher) × (cipher_init c key ≡ ok k)
  unfolding cipher_init
  cipher_init_key key h = let (k, found) = docs.new_from_slice_right key h in (k, rw found)

  -- A key of any other length is refused.
  pub cipher_init_wrong :
      (key : Bytes) → length key ≢ key_len → cipher_init c key ≡ err aead_init_error
  unfolding cipher_init
  cipher_init_wrong key h = rw (docs.new_from_slice_wrong key h)

  cipher_open-seal :
      (k : c.Cipher) (nonce aad pt : Bytes) {ct : Bytes}
      → cipher_seal c k nonce aad pt ≡ ok ct
      → cipher_open c k nonce aad ct ≡ ok pt
  unfolding cipher_seal cipher_open
  cipher_open-seal k nonce aad pt {ct} h =
      let (n, taken, sealed) =
        >>=-eq-ok (ok_or (c.nonce_try_from nonce) seal_error)
          (λ (n : c.Nonce). ok_or (c.encrypt k n aad pt) seal_error) h in
      rw (ok_or-eq-ok _ _ taken, docs.decrypt-encrypt k n aad pt (ok_or-eq-ok _ _ sealed))

  length-cipher_seal :
      (k : c.Cipher) (nonce aad pt : Bytes) {ct : Bytes}
      → cipher_seal c k nonce aad pt ≡ ok ct
      → length ct ≡ length pt + 16
  unfolding cipher_seal
  length-cipher_seal k nonce aad pt {ct} h =
      let (n, taken, sealed) =
        >>=-eq-ok (ok_or (c.nonce_try_from nonce) seal_error)
          (λ (n : c.Nonce). ok_or (c.encrypt k n aad pt) seal_error) h in
      docs.length-encrypt k n aad pt (ok_or-eq-ok _ _ sealed)

  -- Over a crate that behaves as documented, the cipher at any identifier and at a key of up to 32
  -- bytes is lawful: a key of the right length is taken, what it sealed opens, a ciphertext is
  -- longer by the tag, the one failure of each direction is `SealError` or `OpenError`, and
  -- neither panics.
  pub sealing_impl-SealsLawfully :
      (id : ℕ) → key_len ≤ 32 → SealsLawfully (sealing_impl c id key_len)
  sealing_impl-SealsLawfully id bound = record {
    is_lawful = record {
      key_len_bound = bound;
      nonce_len_bound = omega arith;
      init_key = cipher_init_key;
    };
    seq_fits = omega arith;
    open_ct-seal = cipher_open-seal;
    length-seal = length-cipher_seal;
    seal_fails = cipher_seal_fails c;
    open_ct_fails = cipher_open_fails c;
    seal_returns = cipher_seal_returns c;
    open_ct_returns = cipher_open_returns c;
  }

pub export_only-IsLawful : IsLawful export_only
export_only-IsLawful = record {
  key_len_bound = omega arith;
  nonce_len_bound = omega arith;
  init_key = λ key h. (tt, refl);
}
