-- ===== src/Kem/Pq.antt =====
-- src/kem/pq.rs: the labeled derivation that the post-quantum KEMs share, over the crate `shake`,
-- which is a parameter. The KEMs are in the children.
pub mod Travels
pub mod Sized
pub mod Total
pub mod Derive
pub mod XWing
pub mod MlKem
use hpke_ng.Base.{ℕ, ◌≡◌, length}
use hpke_ng.Bytes.{Bytes, literal, to_be_bytes}
use hpke_ng.Error.{Result, ok, ◌>>=◌, ok_or, derive_key_pair_error}
use hpke_ng.Kdf.{u16_try_from}

-- `Shake256` with `default`, `update`, and `finalize_xof` with `read` of a buffer of a length.
pub record ShakeCrate : Type 1 where
  pub Shake256 : Type 0
  pub default : Shake256
  pub update : Shake256 → Bytes → Shake256
  pub read : Shake256 → ℕ → Bytes

-- What the callers rely on: the buffer is filled.
pub record ShakeDocs (s : ShakeCrate) : Type 0 where
  pub length-read : (h : s.Shake256) (n : ℕ) → length (s.read h n) ≡ n

abbrev pub derive_key_pair_label : Bytes
derive_key_pair_label = literal "DeriveKeyPair"

-- The buffer `out` is given by its length.
unfoldable pub shake256_labeled_derive : ShakeCrate → Bytes → Bytes → Bytes → ℕ → Result Bytes
shake256_labeled_derive s suite_id label ikm out = do
  label_len ← ok_or (u16_try_from (length label)) derive_key_pair_error
  out_len ← ok_or (u16_try_from out) derive_key_pair_error
  let h : s.Shake256 = s.update (s.update (s.update s.default ikm) (literal "HPKE-v1")) suite_id
  let h' : s.Shake256 = s.update (s.update h (to_be_bytes 2 label_len)) label
  ok (s.read (s.update h' (to_be_bytes 2 out_len)) out)
