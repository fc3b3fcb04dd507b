-- ===== src/Units/Groups.antt =====
-- src/kem/dh.rs and src/lib.rs, the modules `tests`: unit tests on single groups.
pub mod Pass
use hpke_ng.Base.{length, ℕ, List, [], ◌∷◌, ◌++◌, ◌==◌, bit_and, bit_or, replicate}
use hpke_ng.Bytes.{Bytes, literal, modify, zeros}
use hpke_ng.Bytes.Slices.{index}
use hpke_ng.Error.{ok, ◌>>=◌, encap_error, invalid_public_key}
use hpke_ng.Kdf.Hkdf.{HkdfCrate, hkdf_sha256}
use hpke_ng.Aead.{export_only}
use hpke_ng.Kem.{CryptoRng}
use hpke_ng.Kem.Dh.{dh_auth_kem, auth_encap_with_ikm, extract_and_expand, extract_and_expand_pieces}
use hpke_ng.Kem.Dh.X25519
use hpke_ng.Kem.Dh.X25519.{x25519}
use hpke_ng.Kem.Dh.X448
use hpke_ng.Kem.Dh.X448.{Ed448Crate}
use hpke_ng.Kem.Dh.Nist
use hpke_ng.Kem.Dh.Nist.{Curve, CurveCrate}
use hpke_ng.Kem.Instances.{Crates, dh_kem_x25519_hkdf_sha256}
use hpke_ng.Hpke.Export.{send_export_base, receiver_export_base}
use hpke_ng.Units.{TestRun, assert, assert_eq, assert_err, unwrap}

module _ {R : CryptoRng} (c : Crates R) where
  unfoldable pub x448_sk_from_bytes_clamps_per_rfc7748 : R.State → TestRun
  x448_sk_from_bytes_clamps_per_rfc7748 rng = do
    let unclamped = modify 55 (λ _. 0x55) (modify 0 (λ _. 0xff) (replicate 56 0x55))
    let clamped = modify 55 (λ b. bit_or b 0x80) (modify 0 (λ b. bit_and b 0xfc) unclamped)
    sk_u ← unwrap (X448.sk_from_bytes c.ed448 unclamped)
    sk_c ← unwrap (X448.sk_from_bytes c.ed448 clamped)
    _ ← assert_eq (X448.sk_to_pk c.ed448 sk_u).bytes (X448.sk_to_pk c.ed448 sk_c).bytes
    let ((sk_peer, pk_peer), rng') = X448.generate c.ed448 R rng
    dh_u ← unwrap (X448.dh c.ed448 sk_u pk_peer)
    dh_c ← unwrap (X448.dh c.ed448 sk_c pk_peer)
    assert_eq dh_u dh_c

  unfoldable pub extract_and_expand_pieces_matches_concat : TestRun
  extract_and_expand_pieces_matches_concat = do
    let D = x25519 c.dalek R c.sha256
    let dh1 = replicate 32 0x01
    let dh2 = replicate 32 0x02
    let kem_context = literal "enc_bytes" ∷ literal "pk_recipient" ∷ []
    single ← unwrap (extract_and_expand D (dh1 ++ dh2) kem_context)
    pieces ← unwrap (extract_and_expand_pieces D (dh1 ∷ dh2 ∷ []) kem_context)
    assert_eq single pieces

  unfoldable pub x25519_auth_encap_decap_roundtrip : TestRun
  x25519_auth_encap_decap_roundtrip = do
    let D = x25519 c.dalek R c.sha256
    let Suite = dh_auth_kem D
    (sk_r, pk_r) ← unwrap (Suite.kem.derive_key_pair (literal "auth-test-recipient-ikm"))
    (sk_s, pk_s) ← unwrap (Suite.kem.derive_key_pair (literal "auth-test-sender-ikm"))
    let ikm_e = literal "auth-test-ephemeral-ikm"
    (ss_enc, enc) ← unwrap (auth_encap_with_ikm D pk_r sk_s ikm_e)
    ss_dec ← unwrap (Suite.auth_decap enc sk_r pk_s)
    assert_eq (Suite.kem.ss_as_ref ss_enc) (Suite.kem.ss_as_ref ss_dec)

  -- The four inputs of the first loop and the two tags of the second.
  unfoldable pub p256_pk_from_bytes_rejects_wrong_length_and_tag : R.State → TestRun
  p256_pk_from_bytes_rejects_wrong_length_and_tag rng = do
    let p = Nist.p256 c.sha256
    _ ← assert_err (Nist.pk_from_bytes p c.p256 []) invalid_public_key
    _ ← assert_err (Nist.pk_from_bytes p c.p256 (0 ∷ [])) invalid_public_key
    _ ← assert_err (Nist.pk_from_bytes p c.p256 (zeros 64)) invalid_public_key
    _ ← assert_err (Nist.pk_from_bytes p c.p256 (zeros 66)) invalid_public_key
    let ((sk, pk), rng') = Nist.generate p c.p256 rng
    let tampered = c.p256.to_sec1_point pk.pk
    _ ← assert_err (Nist.pk_from_bytes p c.p256 (modify 0 (λ _. 0x06) tampered)) invalid_public_key
    assert_err (Nist.pk_from_bytes p c.p256 (modify 0 (λ _. 0x07) tampered)) invalid_public_key

  unfoldable pub x25519_pk_from_bytes_masks_high_bit : R.State → TestRun
  x25519_pk_from_bytes_masks_high_bit rng = do
    let ((sk, pk_c), rng') = X25519.generate c.dalek R rng
    let tampered = modify 31 (λ b. bit_or b 0x80) pk_c.bytes
    pk ← unwrap (X25519.pk_from_bytes c.dalek tampered)
    assert_eq pk.bytes pk_c.bytes

  unfoldable pub x25519_rejects_small_order_zero_pk : R.State → TestRun
  x25519_rejects_small_order_zero_pk rng = do
    let Suite = (dh_kem_x25519_hkdf_sha256 c).kem
    pk_zero ← unwrap (Suite.pk_from_bytes (zeros 32))
    assert_err (Suite.encap rng pk_zero).0 encap_error

  -- `pk_rejection_test!`: the crate's compressed encoding, `to_sec1_point(true)`, is an argument.
  unfoldable pub pk_rejection_test :
      (p : Curve) (curve : CurveCrate R) → (curve.PublicKey → Bytes) → ℕ → R.State → TestRun
  pk_rejection_test p curve to_compressed clen rng = do
    let ((sk, pk), rng') = Nist.generate p curve rng
    let compressed = to_compressed pk.pk
    _ ← assert (length compressed == clen)
    assert_err (Nist.pk_from_bytes p curve compressed) invalid_public_key

  -- `export_only_suite_compiles` of src/lib.rs.
  unfoldable pub export_only_suite : R.State → TestRun
  export_only_suite rng =
      let K = (dh_kem_x25519_hkdf_sha256 c).kem in
      let F = hkdf_sha256 c.sha256 in
      let (made, rng') = K.generate rng in
      do
        (sk_r, pk_r) ← unwrap made
        (enc, sec) ←
            unwrap
              (send_export_base K F export_only rng' pk_r (literal "info") (literal "ctx") 32).0
        recv ←
            unwrap
              (receiver_export_base K F export_only enc sk_r (literal "info") (literal "ctx") 32)
        assert_eq sec recv

  -- The tests that need no luck of the generator.
  unfoldable pub group_tests : R.State → List TestRun
  group_tests rng =
      extract_and_expand_pieces_matches_concat
      ∷ x25519_pk_from_bytes_masks_high_bit rng
      ∷ p256_pk_from_bytes_rejects_wrong_length_and_tag rng
      ∷ []
