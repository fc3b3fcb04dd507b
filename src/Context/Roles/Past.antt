-- ===== src/Context/Roles/Past.antt =====
-- src/context.rs: lists of the nonces of one base nonce, at counter values of the past.
use hpke_ng.Base.{ℕ, ◌≤◌, ◌<◌, List, [], ◌∷◌, ◌≡◌, ◌≢◌, ◌∙◌, length, arith}
use hpke_ng.Bytes.{Bytes}
use hpke_ng.Context.{u64_max}
use hpke_ng.Context.Nonce.{rfc_nonce, rfc_nonce_inj}

abbrev pub All {ℓ κ} : {A : Type ℓ} → (A → Type κ) → List A → Type κ
All P [] = Unit
All P (x ∷ xs) = P x × All P xs

-- No two elements, at two places, are equal.
abbrev pub Distinct : List Bytes → Type 0
Distinct [] = Unit
Distinct (n ∷ ns) = All (λ m. n ≢ m) ns × Distinct ns

-- The nonce is the one of a counter value below `seq`.
unfoldable pub Past : ℕ → Bytes → ℕ → Bytes → Type 0
Past nn base seq nonce = (k : ℕ) × (k < seq) × (nonce ≡ rfc_nonce base nn k)

pub All-Past_mono :
    (nn : ℕ) (base : Bytes) (m n : ℕ) (nonces : List Bytes)
    → m ≤ n
    → All (Past nn base m) nonces
    → All (Past nn base n) nonces
unfolding Past
All-Past_mono nn base m n [] h p = tt
All-Past_mono nn base m n (x ∷ nonces) h ((k, below, is), p) =
    ((k, omega arith, is), All-Past_mono nn base m n nonces h p)

-- A nonce of the present counter value is none of the past ones.
pub Past-fresh :
    (nn : ℕ) (base : Bytes) (seq : ℕ) (nonces : List Bytes)
    → 8 ≤ nn
    → nn ≤ 12
    → length base ≡ 12
    → seq ≤ u64_max
    → All (Past nn base seq) nonces
    → All (λ m. rfc_nonce base nn seq ≢ m) nonces
unfolding Past
Past-fresh nn base seq [] lo hi size h p = tt
Past-fresh nn base seq (x ∷ nonces) lo hi size h ((k, below, is), p) = (
  λ e. absurd (omega (arith, rfc_nonce_inj nn base seq k lo hi size h (omega arith) (e ∙ is))),
  Past-fresh nn base seq nonces lo hi size h p,
)
