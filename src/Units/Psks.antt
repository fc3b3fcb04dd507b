-- ===== src/Units/Psks.antt =====
-- src/psk.rs and src/error.rs, the modules `tests`: the unit tests of the pre-shared keys, but the
-- one of the `Debug` output, and of the error conditions.
use hpke_ng.Base.{refl, [], ◌∷◌, ◌-◌, ◌==◌, not, bit_xor, replicate}
use hpke_ng.Bytes.{literal, zeros, modify, eq_bytes}
use hpke_ng.Error.{◌>>=◌, open_error, decap_error, inconsistent_psk, missing_psk, insecure_psk}
use hpke_ng.Psk
use hpke_ng.Psk.{min_psk_len, eq}
use hpke_ng.Units.{
  TestRun, AllPass, ◌also◌, all_done, assert, assert_eq, assert_ok, assert_err, unwrap,
  discriminant,
}

unfoldable validation_matrix : TestRun
validation_matrix = do
  let good = zeros min_psk_len
  _ ← assert_ok (Psk.new good (literal "id"))
  _ ← assert_err (Psk.new (zeros (min_psk_len - 1)) (literal "id")) insecure_psk
  _ ← assert_err (Psk.new good []) inconsistent_psk
  _ ← assert_err (Psk.new [] (literal "id")) inconsistent_psk
  assert_err (Psk.new [] []) missing_psk

unfoldable accessors_round_trip : TestRun
accessors_round_trip = do
  let secret = replicate min_psk_len 0x5a
  psk ← unwrap (Psk.new secret (literal "the-id"))
  _ ← assert_eq psk.secret secret
  assert_eq psk.id (literal "the-id")

unfoldable equality_compares_both_fields : TestRun
equality_compares_both_fields = do
  let a = replicate min_psk_len 0x11
  let b = modify (min_psk_len - 1) (λ x. bit_xor x 1) a
  left ← unwrap (Psk.new a (literal "id"))
  same ← unwrap (Psk.new a (literal "id"))
  _ ← assert (eq left same)
  other_secret ← unwrap (Psk.new b (literal "id"))
  _ ← assert (not (eq left other_secret))
  other_id ← unwrap (Psk.new a (literal "id-x"))
  assert (not (eq left other_id))

unfoldable error_equality_works : TestRun
error_equality_works = do
  _ ← assert (discriminant open_error == discriminant open_error)
  assert (not (discriminant open_error == discriminant decap_error))

psk_tests_pass : AllPass (
    validation_matrix ∷ accessors_round_trip ∷ equality_compares_both_fields ∷ error_equality_works
    ∷ [])
unfolding validation_matrix accessors_round_trip equality_compares_both_fields error_equality_works
    Psk.new eq modify eq_bytes
psk_tests_pass = refl also refl also refl also refl also all_done
