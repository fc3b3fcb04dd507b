-- ===== src/Bytes/Modify.antt =====
-- The bytes of a slice after one of them is changed, and facts on all bytes by a table.
use native.Mathlib.Decide.{dec_lt}
use hpke_ng.Base.{
  ap, ℕ, zero, suc, ◌<◌, [], ◌∷◌, ◌≡◌, ◌≢◌, refl, Bool, true, ◌&&◌, some, get_elem?, arith,
}
use hpke_ng.Bytes.{Bytes, IsBytes, modify}

-- A test that all numbers below `n` pass.
abbrev pub all_below : ℕ → (ℕ → Bool) → Bool
all_below zero p = true
all_below (suc n) p = p n && all_below n p

pub all_below_lem : (n : ℕ) (p : ℕ → Bool) → all_below n p ≡ true → (x : ℕ) → x < n → p x ≡ true
all_below_lem zero p h x below = absurd (omega arith)
all_below_lem (suc n) p h x below = elim (dec_lt x n) [
  | yes less ↦ all_below_lem n p both.1 x less
  | no last ↦ let e : x ≡ n = omega arith in rw e both.0
]
  where
    both : (p n ≡ true) × (all_below n p ≡ true)
    both = ground arith

pub get_elem?-IsBytes : (bs : Bytes) (i b : ℕ) → IsBytes bs → get_elem? bs i ≡ some b → b < 256
get_elem?-IsBytes [] i b h e = cc
get_elem?-IsBytes (x ∷ bs) zero b h e = let same : x ≡ b = cc in omega (arith, h.0)
get_elem?-IsBytes (x ∷ bs) (suc i) b h e = get_elem?-IsBytes bs i b h.1 e

-- The changed byte comes from the byte that was there.
pub get_elem?-modify :
    (i : ℕ) (f : ℕ → ℕ) (bs : Bytes) (x : ℕ)
    → get_elem? (modify i f bs) i ≡ some x
    → (b : ℕ) × (get_elem? bs i ≡ some b) × (f b ≡ x)
unfolding modify
get_elem?-modify i f [] x e = cc
get_elem?-modify zero f (b ∷ bs) x e = (b, refl, cc)
get_elem?-modify (suc i) f (b ∷ bs) x e = get_elem?-modify i f bs x e

-- The other bytes stay.
pub get_elem?-modify_other :
    (i j : ℕ) (f : ℕ → ℕ) (bs : Bytes) → i ≢ j → get_elem? (modify i f bs) j ≡ get_elem? bs j
unfolding modify
get_elem?-modify_other i j f [] h = refl
get_elem?-modify_other zero zero f (b ∷ bs) h = absurd (h refl)
get_elem?-modify_other zero (suc j) f (b ∷ bs) h = refl
get_elem?-modify_other (suc i) zero f (b ∷ bs) h = refl
get_elem?-modify_other (suc i) (suc j) f (b ∷ bs) h =
    get_elem?-modify_other i j f bs (λ e. h (omega (arith, e)))

-- Two changes of one byte are one.
pub modify-modify :
    (i : ℕ) (f g : ℕ → ℕ) (bs : Bytes) → modify i f (modify i g bs) ≡ modify i (λ b. f (g b)) bs
unfolding modify
modify-modify i f g [] = refl
modify-modify zero f g (b ∷ bs) = refl
modify-modify (suc i) f g (b ∷ bs) = ap (λ bs. b ∷ bs) (modify-modify i f g bs)
