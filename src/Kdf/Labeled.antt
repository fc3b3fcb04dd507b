-- ===== src/Kdf/Labeled.antt =====
-- src/kdf.rs: proofs on the labeled calls.
use hpke_ng.Base.{
  ℕ, ◌*◌, ◌≤◌, ◌<◌, List, [], ◌∷◌, ◌≡◌, sym, ◌∙◌, append-nil, lt→ltb, length, Bool-cases, inl, inr,
  ltb, leb, leb→le, if◌then◌else◌, flatten, replicate, true, ◌||◌, not, leb→lt, arith,
}
use hpke_ng.Bytes.{Bytes, to_be_bytes}
use hpke_ng.Error.{ok, err, panic, export_length_exceeded, derive_key_pair_error}
use hpke_ng.Kdf.{
  Kdf, IsLawful, labeled_extract, labeled_extract_pieces, labeled_expand, labeled_expand_pieces,
  hpke_v1,
}
use hpke_ng.Kdf.Pieces.{write_pieces_fit, write_pieces_overflow}

module _ (F : Kdf) (lawful : IsLawful F) (salt suite_id label : Bytes) (ps : List Bytes) where
  extract_labels :
      F.extract salt (hpke_v1 ∷ suite_id ∷ label ∷ ps)
      ≡ labeled_extract F salt suite_id label (flatten ps)
  unfolding labeled_extract
  extract_labels =
      lawful.extract-flatten salt hpke_v1 (suite_id ∷ label ∷ ps)
      ∙ sym (
          lawful.extract-flatten salt hpke_v1 (suite_id ∷ label ∷ flatten ps ∷ [])
          ∙ rw (append-nil (flatten ps)))

  -- With a lawful KDF, up to five pieces the piecewise call gives what the plain call gives on
  -- their concatenation; with more it panics.
  pub labeled_extract_pieces_lem : labeled_extract_pieces F salt suite_id label ps ≡ (
      if leb (length ps) 5 then ok (labeled_extract F salt suite_id label (flatten ps)) else panic)
  unfolding labeled_extract_pieces
  labeled_extract_pieces_lem = elim (Bool-cases (leb (length ps) 5)) [
    | inl room ↦
        let start : List Bytes = hpke_v1 ∷ suite_id ∷ label ∷ replicate 5 [] in
        let (all, written, there) = write_pieces_fit 3 ps start (omega (arith, leb→le _ _ room)) in
        rw (room, written, there, extract_labels)
    | inr over ↦
        let start : List Bytes = hpke_v1 ∷ suite_id ∷ label ∷ replicate 5 [] in
        rw (over, write_pieces_overflow 3 ps start (omega arith) (omega (arith, leb→lt _ _ over)))
  ]

module _ (F : Kdf) (lawful : IsLawful F) (prk suite_id label : Bytes) where
  expand_labels :
      (l_be : Bytes) (ps : List Bytes) (n : ℕ)
      → F.expand prk (l_be ∷ hpke_v1 ∷ suite_id ∷ label ∷ ps) n
        ≡ F.expand prk (l_be ∷ hpke_v1 ∷ suite_id ∷ label ∷ flatten ps ∷ []) n
  expand_labels l_be ps n =
      lawful.expand-flatten prk (l_be ∷ hpke_v1 ∷ suite_id ∷ label ∷ ps) n
      ∙ sym (
          lawful.expand-flatten prk (l_be ∷ hpke_v1 ∷ suite_id ∷ label ∷ flatten ps ∷ []) n
          ∙ rw (append-nil (flatten ps)))

  -- With a lawful KDF, up to twelve pieces, or at a length that no `u16` holds, the piecewise call
  -- gives what the plain call gives on their concatenation; else it panics.
  pub labeled_expand_pieces_lem :
      (ps : List Bytes) (n : ℕ)
      → labeled_expand_pieces F prk suite_id label ps n ≡ (
          if leb (length ps) 12 || not (ltb n 65536)
          then labeled_expand F prk suite_id label (flatten ps) n
          else panic)
  unfolding labeled_expand_pieces labeled_expand
  labeled_expand_pieces_lem ps n = elim (Bool-cases (ltb n 65536)) [
    | inl small ↦ elim (Bool-cases (leb (length ps) 12)) [
      | inl room ↦
          let start : List Bytes = to_be_bytes 2 n ∷ hpke_v1 ∷ suite_id ∷ label ∷ replicate 12 [] in
          let (all, written, there) =
            write_pieces_fit 4 ps start (omega (arith, leb→le _ _ room)) in
          rw (small, room, written, there, expand_labels (to_be_bytes 2 n) ps n)
      | inr over ↦
          let start : List Bytes = to_be_bytes 2 n ∷ hpke_v1 ∷ suite_id ∷ label ∷ replicate 12 [] in
          let panics =
            write_pieces_overflow 4 ps start (omega arith) (omega (arith, leb→lt _ _ over)) in
          rw (small, over, panics)
    ]
    | inr large ↦ elim (Bool-cases (leb (length ps) 12)) [
      | inl room ↦ rw (large, room)
      | inr over ↦ rw (large, over)
    ]
  ]

  -- With a lawful KDF, a length past 255 blocks of the hash gives `ExportLengthExceeded`, whatever
  -- the prk. Up to there a prk of at least the hash's length gives exactly the bytes that were
  -- asked for, and a shorter one gives `DeriveKeyPairError`.
  pub labeled_expand-outcome :
      (info : Bytes) (n : ℕ)
      → (255 * F.hash_len < n
          → labeled_expand F prk suite_id label info n ≡ err export_length_exceeded)
        × (n ≤ 255 * F.hash_len
            → F.hash_len ≤ length prk
            → (out : Bytes) × (labeled_expand F prk suite_id label info n ≡ ok out)
              × (length out ≡ n))
        × (n ≤ 255 * F.hash_len
            → length prk < F.hash_len
            → labeled_expand F prk suite_id label info n ≡ err derive_key_pair_error)
  unfolding labeled_expand
  labeled_expand-outcome info n =
      let small : n ≤ 255 * F.hash_len → ltb n 65536 ≡ true =
        λ fits. lt→ltb _ _ (omega (arith, lawful.hash_len_bound)) in
      (
        λ over. elim (Bool-cases (ltb n 65536)) [
          | inl small ↦ rw small (lawful.expand_long prk _ n over)
          | inr large ↦ rw large
        ],
        λ fits long. rw (small fits) (lawful.expand_within prk _ n fits long),
        λ fits short. rw (small fits) (lawful.expand_short_prk prk _ n fits short),
      )
