-- ===== src/Bytes/Slices.antt =====
-- Slices that panic, and the laws of the operations on slices and arrays.
use hpke_ng.Base.{
  ℕ, zero, suc, [], ◌∷◌, ◌≡◌, ◌↔◌, refl, ap, true, not, Bool-cases, inl, inr, none, some, get_elem?,
  ◌==◌, ==_iff, if◌then◌else◌, length, arith,
}
use hpke_ng.Bytes.{Bytes, eq_bytes, modify}
use hpke_ng.Error.{Result, HpkeError, ok, err, panic, Returns, ◌>>=◌}

-- `let mut arr = [0u8; n]; arr.copy_from_slice(src)`
unfoldable pub copy_array : ℕ → Bytes → Result Bytes
copy_array n src = if length src == n then ok src else panic

pub copy_array_ok : (n : ℕ) (src : Bytes) → length src ≡ n → copy_array n src ≡ ok src
unfolding copy_array
copy_array_ok n src h = rw ((==_iff _ _).1 h)

-- An array that has been copied has its size.
pub copy_array-eq-ok :
    (n : ℕ) (src : Bytes) {out : Bytes} → copy_array n src ≡ ok out → length out ≡ n
unfolding copy_array
copy_array-eq-ok n src h = ground arith

-- `b[i]` of a slice.
unfoldable pub index : Bytes → ℕ → Result ℕ
index b i = elim (get_elem? b i) [ some x ↦ ok x | none ↦ panic ]

pub eq_bytes_iff : (bs cs : Bytes) → (eq_bytes bs cs ≡ true) ↔ (bs ≡ cs)
unfolding eq_bytes
eq_bytes_iff [] [] = ground arith
eq_bytes_iff [] (c ∷ cs) = ground arith
eq_bytes_iff (b ∷ bs) [] = ground arith
eq_bytes_iff (b ∷ bs) (c ∷ cs) = ground (arith, eq_bytes_iff bs cs)

pub length-modify : (i : ℕ) (f : ℕ → ℕ) (bs : Bytes) → length (modify i f bs) ≡ length bs
unfolding modify
length-modify i f [] = refl
length-modify zero f (b ∷ bs) = refl
length-modify (suc i) f (b ∷ bs) = ap suc (length-modify i f bs)

-- A change that leaves the byte there as it is changes nothing.
pub modify_fixed :
    (i : ℕ) (f : ℕ → ℕ) (bs : Bytes)
    → ((b : ℕ) → get_elem? bs i ≡ some b → f b ≡ b)
    → modify i f bs ≡ bs
unfolding modify
modify_fixed i f [] h = refl
modify_fixed zero f (b ∷ bs) h = ap (λ x. x ∷ bs) (h b refl)
modify_fixed (suc i) f (b ∷ bs) h = ap (◌∷◌ b) (modify_fixed i f bs h)

-- The guard on the length in front of a copy.
pub copy_guarded-Returns {ℓ} :
    {A : Type ℓ} (n : ℕ) (b : Bytes) (e : HpkeError) (next : Bytes → Result A)
    → ((out : Bytes) → Returns (next out))
    → Returns (if not (length b == n) then err e else (copy_array n b >>= next))
unfolding copy_array
copy_guarded-Returns n b e next h = elim (Bool-cases (length b == n)) [
  | inl right ↦ rw right (h b)
  | inr wrong ↦ rw wrong tt
]
