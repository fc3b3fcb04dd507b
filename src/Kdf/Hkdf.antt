-- ===== src/Kdf/Hkdf.antt =====
-- src/kdf.rs, the macro `hkdf_impl!`: the three KDFs over the crate `hkdf` and a hash of `sha2`,
-- which are parameters.
use hpke_ng.Base.{
  ℕ, ◌*◌, ◌≤◌, ◌<◌, List, [], ◌∷◌, ◌++◌, ◌≡◌, sym, append_assoc, append-nil, ap, Option, none, some,
  Option-cases, inl, inr, if◌then◌else◌, ltb, lt→ltb, le→ltb, length, flatten,
}
use hpke_ng.Bytes.{Bytes}
use hpke_ng.Error.{Result, ok, err, ◌>>=◌, ok_or, export_length_exceeded, derive_key_pair_error}
use hpke_ng.Kdf.{Kdf, IsLawful}

-- `HkdfExtract<Hash>` with `new`, `input_ikm`, the first part of `finalize`, and `Hkdf<Hash>` with
-- `from_prk` and `expand_multi_info`, whose output buffer is given by its length.
pub record HkdfCrate : Type 1 where
  pub Extract : Type 0
  pub Prk : Type 0
  pub extract_new : Bytes → Extract
  pub input_ikm : Extract → Bytes → Extract
  pub finalize : Extract → Bytes
  pub from_prk : Bytes → Option Prk
  pub expand_multi_info : Prk → List Bytes → ℕ → Option Bytes

-- The crate's documented behaviour at a hash of `hash_len` bytes: inputs are streamed, a prk is
-- refused exactly if it is shorter than the hash, and an output of up to 255 blocks is given.
pub record HkdfDocs (h : HkdfCrate) (hash_len : ℕ) : Type 0 where
  pub input_ikm-append :
      (e : h.Extract) (a b : Bytes) → h.input_ikm (h.input_ikm e a) b ≡ h.input_ikm e (a ++ b)
  pub length-finalize : (e : h.Extract) → length (h.finalize e) ≡ hash_len
  pub from_prk_long :
      (prk : Bytes) → hash_len ≤ length prk → (k : h.Prk) × (h.from_prk prk ≡ some k)
  pub from_prk_short : (prk : Bytes) → length prk < hash_len → h.from_prk prk ≡ none
  pub expand-flatten :
      (k : h.Prk) (ps : List Bytes) (n : ℕ)
      → h.expand_multi_info k ps n ≡ h.expand_multi_info k (flatten ps ∷ []) n
  pub expand_within :
      (k : h.Prk) (ps : List Bytes) (n : ℕ)
      → n ≤ 255 * hash_len
      → (out : Bytes) × (h.expand_multi_info k ps n ≡ some out) × (length out ≡ n)

module _ (h : HkdfCrate) where
  unfoldable pub input_all : h.Extract → List Bytes → h.Extract
  input_all e [] = e
  input_all e (piece ∷ pieces) = input_all (h.input_ikm e piece) pieces

  unfoldable pub hkdf_extract : Bytes → List Bytes → Bytes
  unfolding input_all
  hkdf_extract salt ikm_pieces = h.finalize (input_all (h.extract_new salt) ikm_pieces)

  unfoldable pub hkdf_expand : ℕ → Bytes → List Bytes → ℕ → Result Bytes
  hkdf_expand hash_len prk info_pieces out_len =
      if ltb (255 * hash_len) out_len then err export_length_exceeded else do
        hk ← ok_or (h.from_prk prk) derive_key_pair_error
        ok_or (h.expand_multi_info hk info_pieces out_len) export_length_exceeded

  abbrev pub hkdf_impl : ℕ → ℕ → Kdf
  hkdf_impl id hash_len = record {
    id = id;
    hash_len = hash_len;
    extract = hkdf_extract;
    expand = hkdf_expand hash_len;
  }

-- The three instances, each over its hash.
abbrev pub hkdf_sha256 : HkdfCrate → Kdf
hkdf_sha256 h = hkdf_impl h 0x0001 32

abbrev pub hkdf_sha384 : HkdfCrate → Kdf
hkdf_sha384 h = hkdf_impl h 0x0002 48

abbrev pub hkdf_sha512 : HkdfCrate → Kdf
hkdf_sha512 h = hkdf_impl h 0x0003 64

module _ (h : HkdfCrate) (hash_len : ℕ) (docs : HkdfDocs h hash_len) where
  input_all-flatten :
      (e : h.Extract) (p : Bytes) (ps : List Bytes)
      → input_all h (h.input_ikm e p) ps ≡ h.input_ikm e (p ++ flatten ps)
  unfolding input_all
  input_all-flatten e p [] = ap (h.input_ikm e) (sym (append-nil p))
  input_all-flatten e p (q ∷ ps) =
      rw (docs.input_ikm-append, input_all-flatten e (p ++ q) ps, append_assoc)

  hkdf_extract-flatten :
      (salt p : Bytes) (ps : List Bytes)
      → hkdf_extract h salt (p ∷ ps) ≡ hkdf_extract h salt (flatten (p ∷ ps) ∷ [])
  unfolding hkdf_extract
  hkdf_extract-flatten salt p ps = ap h.finalize (input_all-flatten (h.extract_new salt) p ps)

  hkdf_expand-flatten :
      (prk : Bytes) (ps : List Bytes) (n : ℕ)
      → hkdf_expand h hash_len prk ps n ≡ hkdf_expand h hash_len prk (flatten ps ∷ []) n
  unfolding hkdf_expand
  hkdf_expand-flatten prk ps n = elim (Option-cases (h.from_prk prk)) [
    | inl short ↦ rw short
    | inr (k, found) ↦ rw found (rw (docs.expand-flatten k ps n))
  ]

  hkdf_expand_long :
      (prk : Bytes) (ps : List Bytes) (n : ℕ)
      → 255 * hash_len < n
      → hkdf_expand h hash_len prk ps n ≡ err export_length_exceeded
  unfolding hkdf_expand
  hkdf_expand_long prk ps n over = rw (lt→ltb _ _ over)

  hkdf_expand_short_prk :
      (prk : Bytes) (ps : List Bytes) (n : ℕ)
      → n ≤ 255 * hash_len
      → length prk < hash_len
      → hkdf_expand h hash_len prk ps n ≡ err derive_key_pair_error
  unfolding hkdf_expand
  hkdf_expand_short_prk prk ps n fits short = rw (le→ltb _ _ fits, docs.from_prk_short prk short)

  hkdf_expand_within :
      (prk : Bytes) (ps : List Bytes) (n : ℕ)
      → n ≤ 255 * hash_len
      → hash_len ≤ length prk
      → (out : Bytes) × (hkdf_expand h hash_len prk ps n ≡ ok out) × (length out ≡ n)
  unfolding hkdf_expand
  hkdf_expand_within prk ps n fits long =
      let (k, found) = docs.from_prk_long prk long in
      let (out, given, size) = docs.expand_within k ps n fits in
      (out, rw (le→ltb _ _ fits, found, given), size)

  -- Over a crate that behaves as documented, the KDF that the macro makes, at any identifier and
  -- at a positive hash length whose 255 blocks are counted by a `u16`, is lawful: pieces count by
  -- their concatenation alone, `extract` gives `hash_len` bytes, and `expand` gives
  -- `ExportLengthExceeded` past 255 blocks, else `DeriveKeyPairError` if the prk is shorter than
  -- the hash, else exactly the bytes that were asked for.
  pub hkdf_impl-IsLawful :
      (id : ℕ) → 0 < hash_len → 255 * hash_len < 65536 → IsLawful (hkdf_impl h id hash_len)
  hkdf_impl-IsLawful id pos bound = record {
    hash_len_pos = pos;
    hash_len_bound = bound;
    extract-flatten = hkdf_extract-flatten;
    length-extract = λ salt ps. unfold hkdf_extract in docs.length-finalize _;
    expand-flatten = hkdf_expand-flatten;
    expand_long = hkdf_expand_long;
    expand_short_prk = hkdf_expand_short_prk;
    expand_within = hkdf_expand_within;
  }
