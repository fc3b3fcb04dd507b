-- ===== src/Kdf/Pieces.antt =====
-- src/kdf.rs: proofs on the writes into the fixed arrays of slices.
use native.Mathlib.Nat.{add-zero}
use hpke_ng.Base.{
  ℕ, suc, ◌+◌, ◌≤◌, ◌<◌, List, [], ◌∷◌, ◌++◌, ◌≡◌, refl, ◌∙◌, append_assoc, append-nil, lt→ltb,
  length, set, take, length-set, take-set, Bool-cases, inl, inr, ltb, ltb→lt, arith,
}
use hpke_ng.Bytes.{Bytes}
use hpke_ng.Error.{ok, panic}
use hpke_ng.Kdf.{write_pieces}

shift : (a b : ℕ) → a + suc b ≡ suc a + b
shift a b = omega arith

pub write_pieces_fit :
    (at : ℕ) (ps all : List Bytes)
    → at + length ps ≤ length all
    → (all' : List Bytes) × (write_pieces at ps all ≡ ok all')
      × (take (at + length ps) all' ≡ take at all ++ ps)
unfolding write_pieces
write_pieces_fit at [] all h = (all, refl, rw (append-nil, add-zero))
write_pieces_fit at (p ∷ ps) all h =
    let room : at < length all = omega arith in
    let (all', written, there) =
      write_pieces_fit (suc at) ps (set all at p) (omega (arith, length-set all at p)) in
    (
      all',
      rw (lt→ltb _ _ room) written,
      rw (shift at (length ps)) (there ∙ rw (take-set all at p room, append_assoc)),
    )

pub write_pieces_overflow :
    (at : ℕ) (ps all : List Bytes)
    → at ≤ length all
    → length all < at + length ps
    → write_pieces at ps all ≡ panic
unfolding write_pieces
write_pieces_overflow at [] all start h = absurd (omega arith)
write_pieces_overflow at (p ∷ ps) all start h = elim (Bool-cases (ltb at (length all))) [
  | inl room ↦ rw room (
      write_pieces_overflow (suc at) ps (set all at p)
        (omega (arith, ltb→lt _ _ room, length-set all at p)) (omega (arith, length-set all at p)))
  | inr full ↦ rw full
]
