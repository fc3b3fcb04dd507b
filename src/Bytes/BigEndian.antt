-- ===== src/Bytes/BigEndian.antt =====
-- Lemmas on `to_be_bytes`, and its inverse.
use native.Mathlib.Nat.{pow-suc, zero-add}
use hpke_ng.Base.{
  ℕ, zero, suc, ◌+◌, ◌*◌, ◌/◌, ◌%◌, ◌^◌, ◌<◌, [], ◌∷◌, ◌++◌, ◌≡◌, refl, sym, ap, ◌∙◌, arith, length,
  length-append, append-nil, append_assoc,
}
use hpke_ng.Bytes.{Bytes, IsBytes, zeros, to_be_bytes}

-- The number that the bytes write in base 256, after those already read.
of_be_onto : ℕ → Bytes → ℕ
of_be_onto acc [] = acc
of_be_onto acc (b ∷ bs) = of_be_onto (acc * 256 + b) bs

pub of_be_bytes : Bytes → ℕ
of_be_bytes = of_be_onto 0

of_be_onto-append :
    (acc : ℕ) (xs ys : Bytes) → of_be_onto acc (xs ++ ys) ≡ of_be_onto (of_be_onto acc xs) ys
unfolding of_be_onto
of_be_onto-append acc [] ys = refl
of_be_onto-append acc (x ∷ xs) ys = of_be_onto-append (acc * 256 + x) xs ys

pub length-to_be_bytes : (w n : ℕ) → length (to_be_bytes w n) ≡ w
unfolding to_be_bytes
length-to_be_bytes zero n = refl
length-to_be_bytes (suc w) n =
    omega (
      arith,
      length-append (to_be_bytes w (n / 256)) (n % 256 ∷ []),
      length-to_be_bytes w (n / 256),
    )

pub IsBytes-append : (xs ys : Bytes) → IsBytes xs → IsBytes ys → IsBytes (xs ++ ys)
IsBytes-append [] ys h k = k
IsBytes-append (x ∷ xs) ys h k = (h.0, IsBytes-append xs ys h.1 k)

pub to_be_bytes-IsBytes : (w n : ℕ) → IsBytes (to_be_bytes w n)
unfolding to_be_bytes
to_be_bytes-IsBytes zero n = tt
to_be_bytes-IsBytes (suc w) n =
    IsBytes-append (to_be_bytes w (n / 256)) _ (to_be_bytes-IsBytes w (n / 256)) (omega arith)

-- Reading back gives the number, if it fits `w` bytes.
pub of_be_bytes-to_be_bytes : (w n : ℕ) → n < 256 ^ w → of_be_bytes (to_be_bytes w n) ≡ n
unfolding to_be_bytes of_be_bytes of_be_onto
of_be_bytes-to_be_bytes zero n h = omega arith
of_be_bytes-to_be_bytes (suc w) n h =
    let fits : n / 256 < 256 ^ w = omega (arith, pow-suc 256 w) in
    of_be_onto-append 0 (to_be_bytes w (n / 256)) (n % 256 ∷ [])
    ∙ omega (arith, of_be_bytes-to_be_bytes w (n / 256) fits)

-- Numbers in range with the same bytes are the same.
pub to_be_bytes_inj :
    (w m n : ℕ) → m < 256 ^ w → n < 256 ^ w → to_be_bytes w m ≡ to_be_bytes w n → m ≡ n
to_be_bytes_inj w m n hm hn e =
    sym (of_be_bytes-to_be_bytes w m hm) ∙ ap of_be_bytes e ∙ of_be_bytes-to_be_bytes w n hn

zeros_snoc : (k : ℕ) → zeros k ++ 0 ∷ [] ≡ 0 ∷ zeros k
zeros_snoc zero = refl
zeros_snoc (suc k) = ap (◌∷◌ 0) (zeros_snoc k)

to_be_bytes-zero : (k : ℕ) → to_be_bytes k 0 ≡ zeros k
unfolding to_be_bytes
to_be_bytes-zero zero = refl
to_be_bytes-zero (suc k) = rw (to_be_bytes-zero k) (zeros_snoc k)

-- A wider code of a number that fits the narrower one begins with zeros.
pub to_be_bytes_pad : (k w n : ℕ) → n < 256 ^ w → to_be_bytes (w + k) n ≡ zeros k ++ to_be_bytes w n
unfolding to_be_bytes
to_be_bytes_pad k zero n h =
    let none_left : n ≡ 0 = omega arith in rw (zero-add, none_left, append-nil) (to_be_bytes-zero k)
to_be_bytes_pad k (suc w) n h =
    let fits : n / 256 < 256 ^ w = omega (arith, pow-suc 256 w) in
    let width : suc w + k ≡ suc (w + k) = omega arith in
    rw (width, to_be_bytes_pad k w (n / 256) fits, append_assoc)
