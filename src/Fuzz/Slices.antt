-- ===== src/Fuzz/Slices.antt =====
-- fuzz/fuzz_targets: proofs on the slices that the targets take of their input.
use hpke_ng.Base.{
  ℕ, suc, ◌-◌, ◌≤◌, ◌≡◌, refl, min, [], ◌∷◌, ◌++◌, le→leb, length, take, drop, length-take_le,
  take-append-drop, take_all, arith,
}
use hpke_ng.Bytes.{Bytes}
use hpke_ng.Bytes.Slices.{index}
use hpke_ng.Error.{Result, ok, err, panic, Returns}
use hpke_ng.Fuzz.{FuzzRun, discard, if_ok, split_at, slice, take_lp}

pub discard_ok {ℓ} : {A : Type ℓ} (r : Result A) → Returns r → discard r ≡ ok tt
discard_ok (ok a) h = refl
discard_ok (err e) h = refl
discard_ok panic h = absurd h

pub if_ok_ok {ℓ} :
    {A : Type ℓ} (r : Result A) (body : A → FuzzRun)
    → Returns r
    → ((a : A) → r ≡ ok a → body a ≡ ok tt)
    → if_ok r body ≡ ok tt
if_ok_ok (ok a) body h k = k a refl
if_ok_ok (err e) body h k = refl
if_ok_ok panic body h k = absurd h

pub split_at_ok : (b : Bytes) (n : ℕ) → n ≤ length b → split_at b n ≡ ok (take n b, drop n b)
unfolding split_at
split_at_ok b n h = rw (le→leb _ _ h)

pub slice_ok :
    (b : Bytes) (from to : ℕ)
    → from ≤ to
    → to ≤ length b
    → slice b from to ≡ ok (take (to - from) (drop from b))
unfolding slice
slice_ok b from to h h' = rw (le→leb _ _ h, le→leb _ _ h')

-- The first byte, if there is one, says how much of the rest is taken.
pub take_lp-outcome :
    (first : ℕ) (tail : Bytes)
    → (take_lp [] ≡ ok ([], []))
      × ((out : Bytes) × (rest : Bytes) × (take_lp (first ∷ tail) ≡ ok (out, rest))
          × (out ++ rest ≡ tail)
          × (length out ≡ min first (length tail)))
unfolding take_lp index
take_lp-outcome first tail =
    let len = min first (length tail) in
    let back : suc (length tail) - 1 ≡ length tail = omega arith in
    let whole : take (length tail) tail ≡ tail = take_all tail (length tail) (omega arith) in
    (
      refl,
      (
        take len tail,
        drop len tail,
        rw (
          slice_ok (first ∷ tail) 1 (suc (length tail)) (omega arith) (omega arith),
          back,
          whole,
          split_at_ok tail len (omega arith),
        ),
        take-append-drop len tail,
        length-take_le len tail (omega arith),
      ),
    )

pub take_lp_total : (rest : Bytes) → (p : Bytes × Bytes) × (take_lp rest ≡ ok p)
take_lp_total [] = (_, (take_lp-outcome 0 []).0)
take_lp_total (first ∷ tail) =
    let (out, rest, taken, same, size) = (take_lp-outcome first tail).1 in ((out, rest), taken)
