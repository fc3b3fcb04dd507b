-- ===== src/Bytes/Xor.antt =====
-- Lemmas on the exclusive or, of numbers and of slices.
use Prim.Native.Nat.{digits, differ, bit_xor-bitwise}
use mathlib.Core.WellFounded.{Acc, WellFounded}
use mathlib.Core.WellFounded.{induction}
use native.Mathlib.Nat.{le_refl}
use hpke_ng.Base.{
  ℕ, zero, suc, ◌+◌, ◌*◌, ◌/◌, ◌%◌, ◌≤◌, ◌<◌, [], ◌∷◌, ◌++◌, ◌≡◌, refl, sym, ap, ap₂, ◌∙◌, bit_xor,
  arith, length,
}
use hpke_ng.Bytes.{Bytes, zeros, xor_bytes}

acc_below : (k n : ℕ) → n < k → Acc ◌<◌ n
acc_below zero n h = absurd (omega arith)
acc_below (suc k) n h = Acc.intro n (λ m below. acc_below k m (omega arith))

lt_wf : WellFounded ◌<◌
lt_wf = record { apply = λ n. acc_below (suc n) n (le_refl _) }

-- The count of digits to go does not matter once it is large enough.
digits_count :
    (n m a b : ℕ) → a ≤ n → a ≤ m → digits (λ y. y) differ n a b ≡ digits (λ y. y) differ m a b
digits_count zero zero a b p q = refl
digits_count zero (suc m) zero b p q = refl
digits_count zero (suc m) (suc a) b p q = absurd (omega arith)
digits_count (suc n) zero zero b p q = refl
digits_count (suc n) zero (suc a) b p q = absurd (omega arith)
digits_count (suc n) (suc m) zero b p q = refl
digits_count (suc n) (suc m) (suc a) b p q =
    rw (digits_count n m (suc a / 2) (b / 2) (omega arith) (omega arith))

zero-bit_xor : (b : ℕ) → bit_xor 0 b ≡ b
zero-bit_xor b = simp bit_xor-bitwise

suc-bit_xor :
    (a b : ℕ) → bit_xor (suc a) b ≡ bit_xor (suc a / 2) (b / 2) * 2 + differ (suc a % 2) (b % 2)
suc-bit_xor a b =
    simp bit_xor-bitwise
      (omega (arith, digits_count a (suc a / 2) (suc a / 2) (b / 2) (omega arith) (le_refl _)))

-- `differ` on two digits.
differ_bit : (x y : ℕ) → x < 2 → y < 2 → (differ x y < 2) × (differ x (differ x y) ≡ y)
differ_bit zero y h k = (k, refl)
differ_bit (suc zero) zero h k = (omega arith, refl)
differ_bit (suc zero) (suc zero) h k = (omega arith, refl)
differ_bit (suc zero) (suc (suc y)) h k = absurd (omega arith)
differ_bit (suc (suc x)) y h k = absurd (omega arith)

differ-zero : (x : ℕ) → x < 2 → differ x 0 ≡ x
differ-zero zero h = refl
differ-zero (suc x) h = refl

module _ (n b : ℕ) where
  low_digit : ℕ
  low_digit = differ (suc n % 2) (b % 2)

  suc-bit_xor_parts :
      (bit_xor (suc n) b / 2 ≡ bit_xor (suc n / 2) (b / 2)) × (bit_xor (suc n) b % 2 ≡ low_digit)
  unfolding low_digit
  suc-bit_xor_parts =
      let bit = differ_bit (suc n % 2) (b % 2) (omega arith) (omega arith) in
      (omega (arith, suc-bit_xor n b, bit.0), omega (arith, suc-bit_xor n b, bit.0))

  cancel_suc :
      ((c : ℕ) → bit_xor (suc n / 2) (bit_xor (suc n / 2) c) ≡ c)
      → bit_xor (suc n) (bit_xor (suc n) b) ≡ b
  unfolding low_digit
  cancel_suc ih =
      let bit = differ_bit (suc n % 2) (b % 2) (omega arith) (omega arith) in
      suc-bit_xor n (bit_xor (suc n) b)
      ∙ rw (suc-bit_xor_parts.0, suc-bit_xor_parts.1, ih (b / 2), bit.1) (omega arith)

-- Twice the same mask is no change.
pub bit_xor_cancel : (a b : ℕ) → bit_xor a (bit_xor a b) ≡ b
bit_xor_cancel a = induction lt_wf {C = λ k. (b : ℕ) → bit_xor k (bit_xor k b) ≡ b} a step
  where
    step :
        (n : ℕ)
        → ((m : ℕ) → m < n → (b : ℕ) → bit_xor m (bit_xor m b) ≡ b)
        → (b : ℕ) → bit_xor n (bit_xor n b) ≡ b
    step zero ih b = zero-bit_xor (bit_xor 0 b) ∙ zero-bit_xor b
    step (suc n) ih b = cancel_suc n b (ih (suc n / 2) (omega arith))

-- A mask of zero is no change.
bit_xor-zero : (a : ℕ) → bit_xor a 0 ≡ a
bit_xor-zero a = induction lt_wf {C = λ k. bit_xor k 0 ≡ k} a step
  where
    step : (n : ℕ) → ((m : ℕ) → m < n → bit_xor m 0 ≡ m) → bit_xor n 0 ≡ n
    step zero ih = refl
    step (suc n) ih = omega (
      arith,
      suc-bit_xor n 0,
      ih (suc n / 2) (omega arith),
      differ-zero (suc n % 2) (omega arith),
    )

pub length-xor_bytes : (dst src : Bytes) → length (xor_bytes dst src) ≡ length dst
unfolding xor_bytes
length-xor_bytes [] src = refl
length-xor_bytes (d ∷ dst) [] = refl
length-xor_bytes (d ∷ dst) (b ∷ src) = ap suc (length-xor_bytes dst src)

pub xor_bytes-zeros : (dst : Bytes) → xor_bytes dst (zeros (length dst)) ≡ dst
unfolding xor_bytes
xor_bytes-zeros [] = refl
xor_bytes-zeros (d ∷ dst) = ap₂ ◌∷◌ (bit_xor-zero d) (xor_bytes-zeros dst)

pub xor_bytes-append :
    (p q src src' : Bytes)
    → length p ≡ length src
    → xor_bytes (p ++ q) (src ++ src') ≡ xor_bytes p src ++ xor_bytes q src'
unfolding xor_bytes
xor_bytes-append [] q [] src' h = refl
xor_bytes-append [] q (b ∷ src) src' h = absurd (omega arith)
xor_bytes-append (d ∷ p) q [] src' h = absurd (omega arith)
xor_bytes-append (d ∷ p) q (b ∷ src) src' h =
    ap (◌∷◌ (bit_xor d b)) (xor_bytes-append p q src src' (omega arith))

-- Masking one slice by two sources of its length gives one result only if they are one source.
pub xor_bytes_inj :
    (dst src src' : Bytes)
    → length src ≡ length dst
    → length src' ≡ length dst
    → xor_bytes dst src ≡ xor_bytes dst src'
    → src ≡ src'
unfolding xor_bytes
xor_bytes_inj [] [] [] h k e = refl
xor_bytes_inj [] (b ∷ src) src' h k e = absurd (omega arith)
xor_bytes_inj [] [] (c ∷ src') h k e = absurd (omega arith)
xor_bytes_inj (d ∷ dst) [] src' h k e = absurd (omega arith)
xor_bytes_inj (d ∷ dst) (b ∷ src) [] h k e = absurd (omega arith)
xor_bytes_inj (d ∷ dst) (b ∷ src) (c ∷ src') h k e =
    ap₂ ◌∷◌ (sym (bit_xor_cancel d b) ∙ ap (bit_xor d) (head_eq e) ∙ bit_xor_cancel d c)
      (xor_bytes_inj dst src src' (omega arith) (omega arith) (tail_eq e))
  where
    head_eq : {x y : ℕ} {xs ys : Bytes} → ◌≡◌ {A = Bytes} (x ∷ xs) (y ∷ ys) → x ≡ y
    head_eq p = cc

    tail_eq : {x y : ℕ} {xs ys : Bytes} → ◌≡◌ {A = Bytes} (x ∷ xs) (y ∷ ys) → xs ≡ ys
    tail_eq p = cc
