-- ===== src/Psk.antt =====
-- src/psk.rs: the pre-shared key, its construction and its equality.
use mathlib.Core.Bool.{beq}
use hpke_ng.Base.{
  ℕ, ◌≤◌, ◌<◌, [], ◌∷◌, ◌≡◌, ◌↔◌, ◌⊎◌, Bool, true, false, not, ◌&&◌, ltb, if◌then◌else◌, length,
  Bool-cases, inl, inr, arith,
}
use hpke_ng.Bytes.{Bytes, eq_bytes}
use hpke_ng.Bytes.Slices.{eq_bytes_iff}
use hpke_ng.Error.{Result, Returns, ok, err, inconsistent_psk, missing_psk, insecure_psk}

abbrev pub min_psk_len : ℕ
min_psk_len = 32

pub record Psk : Type 0 where
  pub secret : Bytes
  pub id : Bytes

abbrev pub is_empty : Bytes → Bool
is_empty [] = true
is_empty (b ∷ bs) = false

-- `Psk::new`
unfoldable pub new : Bytes → Bytes → Result Psk
new secret id =
    if not (beq (is_empty secret) (is_empty id))
    then err inconsistent_psk
    else if is_empty secret
    then err missing_psk
    else if ltb (length secret) min_psk_len
    then err insecure_psk
    else ok (record { secret = secret; id = id })

-- `PartialEq::eq`
unfoldable pub eq : Psk → Psk → Bool
eq p q = eq_bytes p.id q.id && eq_bytes p.secret q.secret

-- What `new` promises: both parts are there, and the secret has 32 bytes.
pub record IsValid (p : Psk) : Type 0 where
  pub secret_long : min_psk_len ≤ length p.secret
  pub id_given : 0 < length p.id

-- A key is made exactly from a secret of at least 32 bytes and an identifier that is not empty,
-- and it holds those two. The error tells the cause otherwise: `InconsistentPsk` if exactly one of
-- them is empty, `MissingPsk` if both are, `InsecurePsk` if neither is and the secret is too
-- short.
pub new-outcome :
    (secret id : Bytes)
    → ((new secret id ≡ ok (record { secret = secret; id = id }))
        ↔ ((32 ≤ length secret) × (0 < length id)))
      × ((new secret id ≡ err inconsistent_psk)
          ↔ (((0 < length secret) × (id ≡ [])) ⊎ ((secret ≡ []) × (0 < length id))))
      × ((new secret id ≡ err missing_psk) ↔ ((secret ≡ []) × (id ≡ [])))
      × ((new secret id ≡ err insecure_psk)
          ↔ ((0 < length secret) × (length secret < 32) × (0 < length id)))
unfolding new
new-outcome [] [] = ground arith
new-outcome [] (i ∷ id) = ground arith
new-outcome (s ∷ secret) [] = ground arith
new-outcome (s ∷ secret) (i ∷ id) = ground arith

-- Whatever `new` returns is valid.
pub new-IsValid : (secret id : Bytes) {p : Psk} → new secret id ≡ ok p → IsValid p
unfolding new
new-IsValid [] [] h = ground arith
new-IsValid [] (i ∷ id) h = ground arith
new-IsValid (s ∷ secret) [] h = ground arith
new-IsValid (s ∷ secret) (i ∷ id) h = ground arith

-- Two keys compare equal exactly if both the secrets and the identifiers are the same.
pub eq_iff : (p q : Psk) → (eq p q ≡ true) ↔ (p ≡ q)
unfolding eq
eq_iff p q = ground (arith, eq_bytes_iff p.id q.id, eq_bytes_iff p.secret q.secret)

pub new-Returns : (secret id : Bytes) → Returns (new secret id)
unfolding new
new-Returns [] [] = tt
new-Returns [] (i ∷ id) = tt
new-Returns (s ∷ secret) [] = tt
new-Returns (s ∷ secret) (i ∷ id) = elim (Bool-cases (ltb (length (s ∷ secret)) min_psk_len)) [
  | inl short ↦ rw short tt
  | inr long ↦ rw long tt
]
