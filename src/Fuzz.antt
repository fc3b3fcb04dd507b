-- ===== src/Fuzz.antt =====
-- fuzz/fuzz_targets: the five fuzz targets, on one input. A target gives no value; a panic is what
-- it looks for. The closures' `data` is `input` here.
pub mod Slices
pub mod Returns
use hpke_ng.Base.{
  ℕ, ◌+◌, ◌-◌, ◌%◌, min, [], ◌∷◌, ◌==◌, ◌&&◌, leb, ltb, if◌then◌else◌, length, take, drop,
}
use hpke_ng.Bytes.{Bytes, literal}
use hpke_ng.Bytes.Slices.{index}
use hpke_ng.Error.{Result, ok, err, panic, ◌>>=◌}
use hpke_ng.Kdf.{Kdf}
use hpke_ng.Kdf.Hkdf.{hkdf_sha256}
use hpke_ng.Aead.{SealingAead}
use hpke_ng.Aead.Ciphers.{AeadCrate, chacha20_poly1305}
use hpke_ng.Psk
use hpke_ng.Psk.{is_empty}
use hpke_ng.Kem.{CryptoRng, Kem, AuthKem}
use hpke_ng.Kem.Instances.{
  Crates, dh_kem_x25519_hkdf_sha256, dh_kem_x448_hkdf_sha512, dh_kem_p256_hkdf_sha256,
  dh_kem_p384_hkdf_sha384, dh_kem_p521_hkdf_sha512, dh_kem_k256_hkdf_sha256, x_wing_draft06_kem,
  ml_kem_768_kem, ml_kem_1024_kem,
}
use hpke_ng.Suite.{base_mode_tag, auth_mode_tag, psk_mode_tag, auth_psk_mode_tag}
use hpke_ng.Schedule.{key_schedule_psk_free, key_schedule_psk}
use hpke_ng.Hpke.Seal.{open_base}

-- The run of a target returns or panics.
abbrev pub FuzzRun : Type 0
FuzzRun = Result {0} Unit

-- `let _ = call;`
abbrev pub discard {ℓ} : {A : Type ℓ} → Result A → FuzzRun
discard (ok a) = ok tt
discard (err e) = ok tt
discard panic = panic

-- `if let Ok(a) = call { … }`
abbrev pub if_ok {ℓ} : {A : Type ℓ} → Result A → (A → FuzzRun) → FuzzRun
if_ok (ok a) body = body a
if_ok (err e) body = ok tt
if_ok panic body = panic

-- `.expect(…)`
abbrev pub expect {ℓ} : {A : Type ℓ} → Result A → Result A
expect (ok a) = ok a
expect (err e) = panic
expect panic = panic

-- `b.split_at(n)`
unfoldable pub split_at : Bytes → ℕ → Result (Bytes × Bytes)
split_at b n = if leb n (length b) then ok (take n b, drop n b) else panic

-- `&b[from..to]`
unfoldable pub slice : Bytes → ℕ → ℕ → Result Bytes
slice b from to =
    if leb from to && leb to (length b) then ok (take (to - from) (drop from b)) else panic

-- `take_lp` gives the slice and what `rest` is then.
unfoldable pub take_lp : Bytes → Result (Bytes × Bytes)
take_lp rest = if is_empty rest then ok ([], rest) else do
  first ← index rest 0
  let len = min first (length rest - 1)
  payload ← slice rest 1 (length rest)
  split_at payload len

module _ {R : CryptoRng} (c : Crates R) where
  -- fuzz_targets/pk_from_bytes.rs
  unfoldable pub fuzz_pk_from_bytes : Bytes → FuzzRun
  fuzz_pk_from_bytes input = do
    _ ← discard ((dh_kem_x25519_hkdf_sha256 c).kem.pk_from_bytes input)
    _ ← discard ((dh_kem_x448_hkdf_sha512 c).kem.pk_from_bytes input)
    _ ← discard ((dh_kem_p256_hkdf_sha256 c).kem.pk_from_bytes input)
    _ ← discard ((dh_kem_p384_hkdf_sha384 c).kem.pk_from_bytes input)
    _ ← discard ((dh_kem_p521_hkdf_sha512 c).kem.pk_from_bytes input)
    _ ← discard ((dh_kem_k256_hkdf_sha256 c).kem.pk_from_bytes input)
    _ ← discard ((x_wing_draft06_kem c).pk_from_bytes input)
    _ ← discard ((ml_kem_768_kem c).pk_from_bytes input)
    discard ((ml_kem_1024_kem c).pk_from_bytes input)

  -- fuzz_targets/enc_from_bytes.rs
  unfoldable pub fuzz_enc_from_bytes : Bytes → FuzzRun
  fuzz_enc_from_bytes input = do
    _ ← discard ((dh_kem_x25519_hkdf_sha256 c).kem.enc_from_bytes input)
    _ ← discard ((dh_kem_x448_hkdf_sha512 c).kem.enc_from_bytes input)
    _ ← discard ((dh_kem_p256_hkdf_sha256 c).kem.enc_from_bytes input)
    _ ← discard ((dh_kem_p384_hkdf_sha384 c).kem.enc_from_bytes input)
    _ ← discard ((dh_kem_p521_hkdf_sha512 c).kem.enc_from_bytes input)
    _ ← discard ((dh_kem_k256_hkdf_sha256 c).kem.enc_from_bytes input)
    _ ← discard ((x_wing_draft06_kem c).enc_from_bytes input)
    _ ← discard ((ml_kem_768_kem c).enc_from_bytes input)
    discard ((ml_kem_1024_kem c).enc_from_bytes input)

  -- fuzz_targets/derive_key_pair.rs
  unfoldable pub fuzz_derive_key_pair : Bytes → FuzzRun
  fuzz_derive_key_pair input = do
    _ ← discard ((dh_kem_x25519_hkdf_sha256 c).kem.derive_key_pair input)
    _ ← discard ((dh_kem_x448_hkdf_sha512 c).kem.derive_key_pair input)
    _ ← discard ((dh_kem_p256_hkdf_sha256 c).kem.derive_key_pair input)
    _ ← discard ((dh_kem_p384_hkdf_sha384 c).kem.derive_key_pair input)
    _ ← discard ((dh_kem_p521_hkdf_sha512 c).kem.derive_key_pair input)
    _ ← discard ((dh_kem_k256_hkdf_sha256 c).kem.derive_key_pair input)
    _ ← discard ((x_wing_draft06_kem c).derive_key_pair input)
    _ ← discard ((ml_kem_768_kem c).derive_key_pair input)
    discard ((ml_kem_1024_kem c).derive_key_pair input)

module _ {R : CryptoRng} (c : Crates R) (a : AeadCrate) where
  -- The suite of the other two targets.
  abbrev pub fuzz_kem : Kem R
  fuzz_kem = (dh_kem_x25519_hkdf_sha256 c).kem

  abbrev pub fuzz_kdf : Kdf
  fuzz_kdf = hkdf_sha256 c.sha256

  abbrev pub fuzz_aead : SealingAead
  fuzz_aead = chacha20_poly1305 a

  -- fuzz_targets/open.rs
  unfoldable pub recipient : Result fuzz_kem.PrivateKey
  recipient = do
    (sk, pk) ← expect (fuzz_kem.derive_key_pair (literal "hpke-ng-fuzz-recipient"))
    ok sk

  unfoldable pub fuzz_open : Bytes → FuzzRun
  unfolding split_at recipient
  fuzz_open input = if ltb (length input) 32 then ok tt else do
    (enc_bytes, ct) ← split_at input 32
    if_ok (fuzz_kem.enc_from_bytes enc_bytes) λ enc. do
      sk ← recipient
      discard (open_base fuzz_kem fuzz_kdf fuzz_aead enc sk (literal "info") (literal "aad") ct)

  -- fuzz_targets/key_schedule.rs: the match on `mode % 4`.
  unfoldable pub fuzz_mode : ℕ → Bytes → Bytes → Bytes → Bytes → FuzzRun
  fuzz_mode mode shared_secret info psk psk_id =
      if mode == 0
      then discard
          (key_schedule_psk_free fuzz_kem fuzz_kdf fuzz_aead.aead base_mode_tag shared_secret info)
      else if mode == 1
      then (if_ok (Psk.new psk psk_id) λ psk.
          discard
            (key_schedule_psk fuzz_kem fuzz_kdf fuzz_aead.aead psk_mode_tag shared_secret info psk))
      else if mode == 2
      then discard
          (key_schedule_psk_free fuzz_kem fuzz_kdf fuzz_aead.aead auth_mode_tag shared_secret info)
      else (if_ok (Psk.new psk psk_id) λ psk. discard (
          key_schedule_psk fuzz_kem fuzz_kdf fuzz_aead.aead auth_psk_mode_tag shared_secret info
            psk))

  unfoldable pub fuzz_key_schedule : Bytes → FuzzRun
  unfolding slice take_lp fuzz_mode
  fuzz_key_schedule input = if ltb (length input) (1 + 32) then ok tt else do
    mode ← index input 0
    shared_secret ← slice input 1 33
    rest ← slice input 33 (length input)
    (info, rest) ← take_lp rest
    (psk, rest) ← take_lp rest
    (psk_id, rest) ← take_lp rest
    fuzz_mode (mode % 4) shared_secret info psk psk_id
