-- ===== src/Aead.antt =====
-- src/aead.rs: the traits `Aead` and `SealingAead`, and `ExportOnly`. The three ciphers over their
-- crates are in the child Ciphers. The method `open` is `open_ct` here.
pub mod Ciphers
use hpke_ng.Base.{ℕ, ◌+◌, ◌≤◌, ◌≡◌, ◌≢◌, length}
use hpke_ng.Bytes.{Bytes}
use hpke_ng.Error.{Result, ok, err, panic, HpkeError, aead_init_error, seal_error, open_error}

pub record Aead : Type 1 where
  pub id : ℕ
  pub key_len : ℕ
  pub nonce_len : ℕ
  pub tag_len : ℕ
  pub Cipher : Type 0
  pub init : Bytes → Result Cipher

-- `seal cipher nonce aad pt` and `open_ct cipher nonce aad ct`.
pub record SealingAead : Type 1 where
  pub aead : Aead
  pub seal : aead.Cipher → Bytes → Bytes → Bytes → Result Bytes
  pub open_ct : aead.Cipher → Bytes → Bytes → Bytes → Result Bytes

-- What the key schedule relies on: small constants, and a key of the right length is taken.
pub record IsLawful (A : Aead) : Type 0 where
  pub key_len_bound : A.key_len ≤ 32
  pub nonce_len_bound : A.nonce_len ≤ 12
  pub init_key : (key : Bytes) → length key ≡ A.key_len → (c : A.Cipher) × (A.init key ≡ ok c)

-- What the contexts rely on: the nonce holds the counter, a sealed message opens, and each
-- direction has one error and no panic.
pub record SealsLawfully (S : SealingAead) : Type 0 where
  pub is_lawful : IsLawful S.aead
  pub seq_fits : 8 ≤ S.aead.nonce_len
  pub open_ct-seal :
      (c : S.aead.Cipher) (nonce aad pt : Bytes) {ct : Bytes}
      → S.seal c nonce aad pt ≡ ok ct
      → S.open_ct c nonce aad ct ≡ ok pt
  pub length-seal :
      (c : S.aead.Cipher) (nonce aad pt : Bytes) {ct : Bytes}
      → S.seal c nonce aad pt ≡ ok ct
      → length ct ≡ length pt + S.aead.tag_len
  pub seal_fails :
      (c : S.aead.Cipher) (nonce aad pt : Bytes) {e : HpkeError}
      → S.seal c nonce aad pt ≡ err e
      → e ≡ seal_error
  pub open_ct_fails :
      (c : S.aead.Cipher) (nonce aad ct : Bytes) {e : HpkeError}
      → S.open_ct c nonce aad ct ≡ err e
      → e ≡ open_error
  pub seal_returns : (c : S.aead.Cipher) (nonce aad pt : Bytes) → S.seal c nonce aad pt ≢ panic
  pub open_ct_returns :
      (c : S.aead.Cipher) (nonce aad ct : Bytes) → S.open_ct c nonce aad ct ≢ panic

-- The cipher encrypts this message under every nonce of its length.
abbrev pub Takes : SealingAead → Bytes → Bytes → Type 0
Takes S aad pt =
    (c : S.aead.Cipher) (nonce : Bytes)
    → length nonce ≡ S.aead.nonce_len
    → (ct : Bytes) × (S.seal c nonce aad pt ≡ ok ct)

-- `ExportOnly`: its cipher state is `()`, and any key is taken.
abbrev pub export_only : Aead
export_only = record {
  id = 0xffff;
  key_len = 0;
  nonce_len = 0;
  tag_len = 0;
  Cipher = Unit;
  init = λ _. ok tt;
}
