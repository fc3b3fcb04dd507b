-- ===== src/Error.antt =====
-- src/error.rs: the error conditions with their messages, and the outcomes of a call.
use hpke_ng.Base.{
  not, Bool, true, false, if◌then◌else◌, String, Option, none, some, ◌≡◌, ◌≢◌, refl, ◌⊎◌, inl, inr,
}

-- `HpkeError`
pub data HpkeError : Type 0 where
  open_error seal_error aead_init_error encap_error decap_error : HpkeError
  invalid_public_key invalid_private_key invalid_encapped_key : HpkeError
  inconsistent_psk missing_psk insecure_psk : HpkeError
  export_length_exceeded message_limit_reached derive_key_pair_error : HpkeError

-- `Display::fmt`
pub display : HpkeError → String
display open_error = "AEAD open failed"
display seal_error = "AEAD seal failed"
display aead_init_error = "AEAD cipher init failed"
display encap_error = "KEM encapsulation failed"
display decap_error = "KEM decapsulation failed"
display invalid_public_key = "invalid public key"
display invalid_private_key = "invalid private key"
display invalid_encapped_key = "invalid encapsulated key"
display inconsistent_psk = "PSK and PSK ID must both be empty or both non-empty"
display missing_psk = "PSK is required by this mode"
display insecure_psk = "PSK shorter than 32 bytes"
display export_length_exceeded = "requested length exceeds HKDF-Expand maximum"
display message_limit_reached = "AEAD message limit reached"
display derive_key_pair_error = "DeriveKeyPair rejection sampling exhausted"

-- What a call gives: `Ok`, `Err`, or no value because it panics (an index or slice out of range,
-- `copy_from_slice` between slices of two lengths, a failed assertion).
pub data Result {ℓ} (A : Type ℓ) : Type ℓ where
  ok : A → Result A
  err : HpkeError → Result A
  panic : Result A

-- The operator `?`.
infixl 5 ◌>>=◌
abbrev pub ◌>>=◌ {ℓ κ} : {A : Type ℓ} {B : Type κ} → Result A → (A → Result B) → Result B
ok a >>= f = f a
err e >>= f = err e
panic >>= f = panic

abbrev pub map_ok {ℓ κ} : {A : Type ℓ} {B : Type κ} → (A → B) → Result A → Result B
map_ok f (ok a) = ok (f a)
map_ok f (err e) = err e
map_ok f panic = panic

-- `.ok_or(e)`, and `.map_err(|_| e)` on a result of another crate.
abbrev pub ok_or {ℓ} : {A : Type ℓ} → Option A → HpkeError → Result A
ok_or (some a) e = ok a
ok_or none e = err e

-- Inversion of a bind that succeeds.
pub >>=-eq-ok {ℓ κ} :
    {A : Type ℓ} {B : Type κ} (call : Result A) (next : A → Result B) {out : B}
    → call >>= next ≡ ok out
    → (value : A) × (call ≡ ok value) × (next value ≡ ok out)
>>=-eq-ok panic next done = cc
>>=-eq-ok (err e) next done = cc
>>=-eq-ok (ok value) next done = (value, refl, done)

pub guard-eq-ok {ℓ} :
    {A : Type ℓ} (test : Bool) (e : HpkeError) (r : Result A) {a : A}
    → (if not test then err e else r) ≡ ok a
    → test ≡ true
guard-eq-ok true e r h = refl
guard-eq-ok false e r h = cc

pub ok_or-eq-ok {ℓ} :
    {A : Type ℓ} (o : Option A) (e : HpkeError) {a : A} → ok_or o e ≡ ok a → o ≡ some a
ok_or-eq-ok (some b) e h = cc
ok_or-eq-ok none e h = cc

pub Result-cases {ℓ} :
    {A : Type ℓ} (r : Result A)
    → ((a : A) × (r ≡ ok a)) ⊎ ((e : HpkeError) × (r ≡ err e)) ⊎ (r ≡ panic)
Result-cases (ok a) = inl (a, refl)
Result-cases (err e) = inr (inl (e, refl))
Result-cases panic = inr (inr refl)

pub ok_inj {ℓ} : {A : Type ℓ} {a b : A} → ok a ≡ ok b → a ≡ b
ok_inj h = cc

pub err-ne-ok {ℓ} : {A : Type ℓ} {e : HpkeError} {a : A} → err e ≢ ok a
err-ne-ok h = cc

pub panic-ne-ok {ℓ} : {A : Type ℓ} {a : A} → panic ≢ ok a
panic-ne-ok h = cc

-- The call returns, with a value or an error.
abbrev pub Returns {ℓ} : {A : Type ℓ} → Result A → Type 0
Returns (ok a) = Unit
Returns (err e) = Unit
Returns panic = ⊥

pub ok-Returns {ℓ} : {A : Type ℓ} {r : Result A} {a : A} → r ≡ ok a → Returns r
ok-Returns e = rw e tt

pub err-Returns {ℓ} : {A : Type ℓ} {r : Result A} {e : HpkeError} → r ≡ err e → Returns r
err-Returns e = rw e tt

pub panic-Returns {ℓ} : {A : Type ℓ} {r : Result A} → Returns r → r ≢ panic
panic-Returns {r = ok a} h e = cc
panic-Returns {r = err x} h e = cc
panic-Returns {r = panic} h e = h

-- A chain returns if its head does, and its rest on whatever the head gives.
pub >>=-Returns {ℓ κ} :
    {A : Type ℓ} {B : Type κ} (call : Result A) (next : A → Result B)
    → Returns call
    → ((a : A) → call ≡ ok a → Returns (next a))
    → Returns (call >>= next)
>>=-Returns (ok a) next h k = k a refl
>>=-Returns (err e) next h k = tt
>>=-Returns panic next h k = h

pub ok_or-Returns {ℓ} : {A : Type ℓ} (o : Option A) (e : HpkeError) → Returns (ok_or o e)
ok_or-Returns (some a) e = tt
ok_or-Returns none e = tt

pub map_ok-Returns {ℓ κ} :
    {A : Type ℓ} {B : Type κ} (f : A → B) (r : Result A) → Returns r → Returns (map_ok f r)
map_ok-Returns f (ok a) h = tt
map_ok-Returns f (err e) h = tt
map_ok-Returns f panic h = h

-- A call that returns has a value or an error.
pub Returns-cases {ℓ} :
    {A : Type ℓ} (r : Result A)
    → Returns r
    → ((a : A) × (r ≡ ok a)) ⊎ ((e : HpkeError) × (r ≡ err e))
Returns-cases (ok a) h = inl (a, refl)
Returns-cases (err e) h = inr (e, refl)
Returns-cases panic h = absurd h

-- A guard that gives an error.
pub guard-Returns {ℓ} :
    {A : Type ℓ} (b : Bool) (e : HpkeError) (rest : Result A)
    → (b ≡ false → Returns rest)
    → Returns (if b then err e else rest)
guard-Returns true e rest h = tt
guard-Returns false e rest h = h refl
