-- ===== src/Units.antt =====
-- src/*.rs, the modules `tests`: unit tests, as calls that panic where an assertion fails. A test
-- gives no value; it passes if it returns.
pub mod Kdfs
pub mod Kems
pub mod Contexts
pub mod Psks
pub mod Aeads
pub mod Groups
pub mod Pass
use hpke_ng.Base.{ℕ, ◌≡◌, ◌==◌, Bool, not, if◌then◌else◌, List, [], ◌∷◌}
use hpke_ng.Bytes.{Bytes, eq_bytes}
use hpke_ng.Error.{
  HpkeError, open_error, seal_error, aead_init_error, encap_error, decap_error, invalid_public_key,
  invalid_private_key, invalid_encapped_key, inconsistent_psk, missing_psk, insecure_psk,
  export_length_exceeded, message_limit_reached, derive_key_pair_error, Result, ok, err, panic,
}

abbrev pub TestRun : Type 0
TestRun = Result {0} Unit

-- `assert!(…)`
abbrev pub assert : Bool → TestRun
assert b = if b then ok tt else panic

-- `assert_eq!` on bytes.
abbrev pub assert_eq : Bytes → Bytes → TestRun
assert_eq left right = assert (eq_bytes left right)

-- `.unwrap()`
abbrev pub unwrap {ℓ} : {A : Type ℓ} → Result A → Result A
unwrap (ok a) = ok a
unwrap (err e) = panic
unwrap panic = panic

-- The position of a condition in the enumeration, for its derived equality.
abbrev pub discriminant : HpkeError → ℕ
discriminant open_error = 0
discriminant seal_error = 1
discriminant aead_init_error = 2
discriminant encap_error = 3
discriminant decap_error = 4
discriminant invalid_public_key = 5
discriminant invalid_private_key = 6
discriminant invalid_encapped_key = 7
discriminant inconsistent_psk = 8
discriminant missing_psk = 9
discriminant insecure_psk = 10
discriminant export_length_exceeded = 11
discriminant message_limit_reached = 12
discriminant derive_key_pair_error = 13

-- `assert_eq!(r, Err(e))`, and `assert!(matches!(r, Err(e)))`.
abbrev pub assert_err {ℓ} : {A : Type ℓ} → Result A → HpkeError → TestRun
assert_err (ok a) e = panic
assert_err (err e') e = assert (discriminant e' == discriminant e)
assert_err panic e = panic

-- `assert!(r.is_ok())`
abbrev pub assert_ok {ℓ} : {A : Type ℓ} → Result A → TestRun
assert_ok (ok a) = ok tt
assert_ok (err e) = panic
assert_ok panic = panic

-- All tests of a list pass.
infixr 4 ◌also◌
pub data AllPass : List TestRun → Type 0 where
  all_done : AllPass []
  ◌also◌ : {t : TestRun} {tests : List TestRun} → t ≡ ok tt → AllPass tests → AllPass (t ∷ tests)
