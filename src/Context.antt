-- ===== src/Context.antt =====
-- src/context.rs: the encryption context. Its two wrappers are in the child Roles. The accessors of
-- the test builds are in the child Harness.
pub mod Nonce
pub mod Steps
pub mod Inversion
pub mod Roles
pub mod Harness
use hpke_ng.Base.{
  ℕ, ◌+◌, ◌-◌, not, ◌%◌, ◌^◌, ◌≤◌, ◌≡◌, [], ◌++◌, Bool, ◌&&◌, ◌==◌, leb, if◌then◌else◌, length,
  take, drop,
}
use hpke_ng.Bytes.{Bytes, literal, zeros, to_be_bytes, xor_bytes}
use hpke_ng.Error.{Result, ok, err, panic, ◌>>=◌, message_limit_reached}
use hpke_ng.Kdf.{Kdf, labeled_expand}
use hpke_ng.Aead.{Aead, SealingAead}
use hpke_ng.Kem.{CryptoRng, Kem}
use hpke_ng.Suite.{ciphersuite}

-- The KEM and the KDF are phantom parameters. Only test builds keep the key's bytes.
pub record Context {R : CryptoRng} (K : Kem R) (F : Kdf) (A : Aead) : Type 0 where
  pub cipher : A.Cipher
  pub base_nonce : Bytes
  pub exporter_secret : Bytes
  pub seq : ℕ
  pub raw_key : Bytes

abbrev pub seq_len : ℕ
seq_len = 8

abbrev pub max_nonce_len : ℕ
max_nonce_len = 12

abbrev pub u64_max : ℕ
u64_max = 0xffff_ffff_ffff_ffff

-- `AssertNonceRange::CHECK`
unfoldable pub assert_nonce_range : Aead → Bool
assert_nonce_range A = leb seq_len A.nonce_len && leb A.nonce_len max_nonce_len

-- `dst[..len].copy_from_slice(src)`
unfoldable pub copy_prefix : Bytes → ℕ → Bytes → Result Bytes
copy_prefix dst len src =
    if leb len (length dst) && length src == len then ok (src ++ drop len dst) else panic

-- The loop that masks `nonce[len - SEQ_LEN..len]` by the counter's bytes.
unfoldable pub mask_seq : ℕ → ℕ → Bytes → Bytes
mask_seq len seq nonce =
    let at = len - seq_len in
    take at nonce
    ++ (xor_bytes (take seq_len (drop at nonce)) (to_be_bytes seq_len seq) ++ drop len nonce)

module _ {R : CryptoRng} {K : Kem R} {F : Kdf} {A : Aead} where
  -- `Context::new`
  unfoldable pub new : Bytes → Bytes → Bytes → Result (Context K F A)
  unfolding copy_prefix
  new key base_nonce exporter_secret = do
    cipher ← A.init key
    nonce ← copy_prefix (zeros max_nonce_len) A.nonce_len base_nonce
    ok (record {
      cipher = cipher;
      base_nonce = nonce;
      exporter_secret = exporter_secret;
      seq = 0;
      raw_key = key;
    })

  unfoldable pub export : Context K F A → Bytes → ℕ → Result Bytes
  export c exporter_context length =
      labeled_expand F c.exporter_secret (ciphersuite K F A) (literal "sec") exporter_context length

  -- An AEAD that fails the assertion does not compile in; here it panics.
  unfoldable pub compute_nonce : Context K F A → Result Bytes
  unfolding assert_nonce_range copy_prefix mask_seq
  compute_nonce c = if not (assert_nonce_range A) then panic else do
    let len = A.nonce_len
    nonce ← copy_prefix (zeros max_nonce_len) len (take len c.base_nonce)
    ok (mask_seq len c.seq nonce)

  -- The last lines of `seal` and of `open`: `?`, then the counter, a `u64`, goes up.
  unfoldable pub advance : Context K F A → Result Bytes → Result Bytes × Context K F A
  advance c (ok out) = (ok out, record c { seq = (c.seq + 1) % 2 ^ 64 })
  advance c (err e) = (err e, c)
  advance c panic = (panic, c)

module _ {R : CryptoRng} {K : Kem R} {F : Kdf} (S : SealingAead) where
  -- `Context::seal`
  unfoldable pub seal : Context K F S.aead → Bytes → Bytes → Result Bytes × Context K F S.aead
  unfolding advance
  seal c aad pt =
      if c.seq == u64_max
      then (err message_limit_reached, c)
      else advance c
          do nonce ← compute_nonce c; S.seal c.cipher (take S.aead.nonce_len nonce) aad pt

  -- `Context::open`
  unfoldable pub open_ct : Context K F S.aead → Bytes → Bytes → Result Bytes × Context K F S.aead
  unfolding advance
  open_ct c aad ct =
      if c.seq == u64_max
      then (err message_limit_reached, c)
      else advance c
          do nonce ← compute_nonce c; S.open_ct c.cipher (take S.aead.nonce_len nonce) aad ct
