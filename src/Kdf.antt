-- ===== src/Kdf.antt =====
-- src/kdf.rs: the trait `Kdf` and the labeled calls over it. The implementations over the crate
-- `hkdf` are in the child Hkdf.
pub mod Hkdf
pub mod Pieces
pub mod Labeled
use hpke_ng.Base.{
  ℕ, suc, ◌+◌, ◌*◌, ◌≤◌, ◌<◌, List, [], ◌∷◌, ◌≡◌, Option, none, some, if◌then◌else◌, ltb, length,
  set, take, replicate, flatten,
}
use hpke_ng.Bytes.{Bytes, literal, to_be_bytes}
use hpke_ng.Error.{
  Result, ok, err, panic, ◌>>=◌, ok_or, export_length_exceeded, derive_key_pair_error,
}

-- The trait. `extract` takes the salt and the ikm pieces, `expand` the prk, the info pieces and
-- the output length.
pub record Kdf : Type 0 where
  pub id : ℕ
  pub hash_len : ℕ
  pub extract : Bytes → List Bytes → Bytes
  pub expand : Bytes → List Bytes → ℕ → Result Bytes

-- What the callers rely on: the pieces count only by their concatenation, `extract` gives
-- `hash_len` bytes, and each outcome of `expand`.
pub record IsLawful (F : Kdf) : Type 0 where
  pub hash_len_pos : 0 < F.hash_len
  pub hash_len_bound : 255 * F.hash_len < 65536
  pub extract-flatten :
      (salt p : Bytes) (ps : List Bytes)
      → F.extract salt (p ∷ ps) ≡ F.extract salt (flatten (p ∷ ps) ∷ [])
  pub length-extract : (salt : Bytes) (ps : List Bytes) → length (F.extract salt ps) ≡ F.hash_len
  pub expand-flatten :
      (prk : Bytes) (ps : List Bytes) (n : ℕ) → F.expand prk ps n ≡ F.expand prk (flatten ps ∷ []) n
  pub expand_long :
      (prk : Bytes) (ps : List Bytes) (n : ℕ)
      → 255 * F.hash_len < n
      → F.expand prk ps n ≡ err export_length_exceeded
  pub expand_short_prk :
      (prk : Bytes) (ps : List Bytes) (n : ℕ)
      → n ≤ 255 * F.hash_len
      → length prk < F.hash_len
      → F.expand prk ps n ≡ err derive_key_pair_error
  pub expand_within :
      (prk : Bytes) (ps : List Bytes) (n : ℕ)
      → n ≤ 255 * F.hash_len
      → F.hash_len ≤ length prk
      → (out : Bytes) × (F.expand prk ps n ≡ ok out) × (length out ≡ n)

abbrev pub hpke_v1 : Bytes
hpke_v1 = literal "HPKE-v1"

unfoldable pub labeled_extract : Kdf → Bytes → Bytes → Bytes → Bytes → Bytes
labeled_extract F salt suite_id label ikm = F.extract salt (hpke_v1 ∷ suite_id ∷ label ∷ ikm ∷ [])

abbrev pub max_extract_pieces : ℕ
max_extract_pieces = 8

abbrev pub max_expand_pieces : ℕ
max_expand_pieces = 16

-- `for (i, p) in pieces.iter().enumerate() { all[at + i] = p; }`: an index past the end of the
-- array panics.
unfoldable pub write_pieces : ℕ → List Bytes → List Bytes → Result (List Bytes)
write_pieces at [] all = ok all
write_pieces at (p ∷ ps) all =
    if ltb at (length all) then write_pieces (suc at) ps (set all at p) else panic

-- The debug assertion on the number of pieces fails only where a write panics too.
unfoldable pub labeled_extract_pieces : Kdf → Bytes → Bytes → Bytes → List Bytes → Result Bytes
unfolding write_pieces
labeled_extract_pieces F salt suite_id label ikm_pieces = do
  let empty : List Bytes = replicate max_extract_pieces []
  let labels : List Bytes = set (set (set empty 0 hpke_v1) 1 suite_id) 2 label
  all ← write_pieces 3 ikm_pieces labels
  ok (F.extract salt (take (3 + length ikm_pieces) all))

-- `out_len.try_into()` to a `u16`.
abbrev pub u16_try_from : ℕ → Option ℕ
u16_try_from n = if ltb n 65536 then some n else none

unfoldable pub labeled_expand : Kdf → Bytes → Bytes → Bytes → Bytes → ℕ → Result Bytes
labeled_expand F prk suite_id label info out_len = do
  l_u16 ← ok_or (u16_try_from out_len) export_length_exceeded
  F.expand prk (to_be_bytes 2 l_u16 ∷ hpke_v1 ∷ suite_id ∷ label ∷ info ∷ []) out_len

unfoldable pub labeled_expand_pieces : Kdf → Bytes → Bytes → Bytes → List Bytes → ℕ → Result Bytes
unfolding write_pieces
labeled_expand_pieces F prk suite_id label info_pieces out_len = do
  l_u16 ← ok_or (u16_try_from out_len) export_length_exceeded
  let empty : List Bytes = replicate max_expand_pieces []
  let labels : List Bytes =
      set (set (set (set empty 0 (to_be_bytes 2 l_u16)) 1 hpke_v1) 2 suite_id) 3 label
  all ← write_pieces 4 info_pieces labels
  F.expand prk (take (4 + length info_pieces) all) out_len
