-- ===== src/Units/Groups/Pass.antt =====
-- src/kem/dh.rs and src/lib.rs, the modules `tests`: proofs that the unit tests on single groups pass.
use hpke_ng.Base.{
  ◌+◌, ◌*◌, false, ◌<◌, ◌==◌, bit_and, bit_or, ℕ, ◌≡◌, refl, ◌∙◌, [], ◌∷◌, ◌++◌, replicate, length,
  arith, inl, inr, ==_iff,
}
use hpke_ng.Bytes.{Bytes, literal, zeros, modify}
use hpke_ng.Bytes.Slices.{
  eq_bytes_iff, length-modify, modify_fixed, copy_array, copy_array_ok, index,
}
use hpke_ng.Bytes.Modify.{all_below_lem, modify-modify}
use hpke_ng.Error.{ok, ok_inj}
use hpke_ng.Kdf.Labeled.{labeled_extract_pieces_lem}
use hpke_ng.Kdf.Hkdf.{hkdf_sha256}
use hpke_ng.Aead
use hpke_ng.Aead.{export_only}
use hpke_ng.Kem.{CryptoRng}
use hpke_ng.Kem.Dh
use hpke_ng.Kem.Dh.{
  DhPrivateKey, DhPublicKey, DhSharedSecret, DhEncappedKey, dh_auth_kem, dh_kem, derive_key_pair,
  auth_encap_with_ikm, extract_and_expand, extract_and_expand_pieces, suite_id,
}
use hpke_ng.Kem.Dh.Correct.{dh_auth_kem-IsCorrect, derive_key_pair-Paired}
use hpke_ng.Kem.Dh.Deterministic.{auth_decap-auth_encap_with_ikm}
use hpke_ng.Kem.Dh.Outcome.{extract_and_expand_total}
use hpke_ng.Kem.Dh.X25519
use hpke_ng.Kem.Dh.X25519.{x25519}
use hpke_ng.Kem.Dh.X448
use hpke_ng.Kem.Dh.X448.{X448PrivateKeyWrap}
use hpke_ng.Kem.Dh.X25519.Lawful.{x25519-IsLawful}
use hpke_ng.Kem.Dh.Nist
use hpke_ng.Kem.Dh.Nist.{Curve, CurveCrate}
use hpke_ng.Kem.Instances.{Crates, CratesDocs, dh_kem_x25519_hkdf_sha256}
use hpke_ng.Kem.Instances.Laws.{sha256-IsLawful}
use hpke_ng.Hpke.Secrets.{send_export_base_agrees}
use hpke_ng.Units.{AllPass, ◌also◌, all_done}
use hpke_ng.Units.Groups.{
  group_tests, x25519_rejects_small_order_zero_pk, pk_rejection_test,
  x448_sk_from_bytes_clamps_per_rfc7748, x25519_pk_from_bytes_masks_high_bit, export_only_suite,
  extract_and_expand_pieces_matches_concat, x25519_auth_encap_decap_roundtrip,
  p256_pk_from_bytes_rejects_wrong_length_and_tag,
}

module _ {R : CryptoRng} (c : Crates R) (docs : CratesDocs c) where
  lawful : Dh.IsLawful (x25519 c.dalek R c.sha256)
  lawful = x25519-IsLawful R c.sha256 docs.sha256 c.dalek docs.dalek

  pieces_pass : extract_and_expand_pieces_matches_concat c ≡ ok tt
  unfolding extract_and_expand_pieces_matches_concat extract_and_expand extract_and_expand_pieces
  pieces_pass =
      let D = x25519 c.dalek R c.sha256 in
      let dh1 : Bytes = replicate 32 0x01 in
      let dh2 : Bytes = replicate 32 0x02 in
      let (ss, given, size) =
        extract_and_expand_total D lawful.kdf_lawful lawful.secret_len_bound (dh1 ++ dh2)
          (literal "enc_bytes" ∷ literal "pk_recipient" ∷ []) (omega arith) in
      rw (
        labeled_extract_pieces_lem D.kdf lawful.kdf_lawful [] (suite_id D) (literal "eae_prk")
            (dh1 ∷ dh2 ∷ []),
        given,
        (eq_bytes_iff ss ss).1 refl,
      )

  pub auth_pass :
      {sk_r sk_s : DhPrivateKey (x25519 c.dalek R c.sha256)}
      {pk_r pk_s : DhPublicKey (x25519 c.dalek R c.sha256)} {ss : DhSharedSecret}
      {enc : DhEncappedKey}
      → derive_key_pair (x25519 c.dalek R c.sha256) (literal "auth-test-recipient-ikm")
        ≡ ok (sk_r, pk_r)
      → derive_key_pair (x25519 c.dalek R c.sha256) (literal "auth-test-sender-ikm")
        ≡ ok (sk_s, pk_s)
      → auth_encap_with_ikm
          (x25519 c.dalek R c.sha256)
          pk_r
          sk_s
          (literal "auth-test-ephemeral-ikm")
        ≡ ok (ss, enc)
      → x25519_auth_encap_decap_roundtrip c ≡ ok tt
  unfolding x25519_auth_encap_decap_roundtrip
  auth_pass {sk_r} {sk_s} {pk_r} {pk_s} {ss} made made_s given =
      let D = x25519 c.dalek R c.sha256 in
      let opened =
        auth_decap-auth_encap_with_ikm D lawful sk_r sk_s pk_r pk_s
          (literal "auth-test-ephemeral-ikm") (derive_key_pair-Paired D lawful _ made)
          (derive_key_pair-Paired D lawful _ made_s) given in
      rw (made, made_s, given, opened, (eq_bytes_iff ss.bytes ss.bytes).1 refl)

  -- A point with another tag has the right length.
  tampered_tag :
      (tag : ℕ) (point : Bytes)
      → length point ≡ 65
      → (length (modify 0 (λ _. tag) point) ≡ 65) × (index (modify 0 (λ _. tag) point) 0 ≡ ok tag)
  unfolding modify index
  tampered_tag tag [] h = absurd (omega (arith, h))
  tampered_tag tag (b ∷ point) h = (h, refl)

  p256_pass : (rng : R.State) → p256_pk_from_bytes_rejects_wrong_length_and_tag c rng ≡ ok tt
  unfolding p256_pk_from_bytes_rejects_wrong_length_and_tag Nist.pk_from_bytes Nist.generate
      Nist.make_pk
  p256_pass rng =
      let point = c.p256.to_sec1_point (c.p256.public_key (c.p256.generate_from_rng rng).0) in
      let size =
        docs.p256.length-to_sec1_point (c.p256.public_key (c.p256.generate_from_rng rng).0) in
      let six = tampered_tag 0x06 point size in
      let seven = tampered_tag 0x07 point size in rw (six.0, six.1, seven.0, seven.1)

  pub x448_pass :
      (rng : R.State) {sk : X448PrivateKeyWrap} {shared : Bytes}
      → X448.sk_from_bytes c.ed448
          (modify 55 (λ _. 0x55) (modify 0 (λ _. 0xff) (replicate 56 0x55)))
        ≡ ok sk
      → X448.dh c.ed448 sk (X448.generate c.ed448 R rng).0.1 ≡ ok shared
      → x448_sk_from_bytes_clamps_per_rfc7748 c rng ≡ ok tt
  unfolding x448_sk_from_bytes_clamps_per_rfc7748 X448.sk_from_bytes X448.clamp copy_array modify
  x448_pass rng {shared = shared} read agreed =
      let same = ok_inj read in
      rw ((eq_bytes_iff _ _).1 refl, same, agreed, (eq_bytes_iff shared shared).1 refl)

  -- Setting the high bit and clearing it again leaves a byte below 128 as it was.
  masked : (y : ℕ) → y < 128 → bit_and (bit_or y 0x80) 0x7f ≡ y
  masked y h =
      let t = all_below_lem 128 (λ y. bit_and (bit_or y 0x80) 0x7f == y) refl y h in ground arith

  mask_pass : (rng : R.State) → x25519_pk_from_bytes_masks_high_bit c rng ≡ ok tt
  unfolding x25519_pk_from_bytes_masks_high_bit X25519.pk_from_bytes X25519.generate X25519.key_pair
  mask_pass rng =
      let d = c.dalek in
      let secret = d.secret_from (X25519.clamp (R.fill_bytes 32 rng).0) in
      let bytes = d.public_bytes secret in
      let tampered = modify 31 (λ b. bit_or b 0x80) bytes in
      let size : length tampered ≡ 32 =
        length-modify 31 _ bytes ∙ docs.dalek.length-public_bytes secret in
      let back : modify 31 (λ b. bit_and b 0x7f) tampered ≡ bytes =
        modify-modify 31 (λ b. bit_and b 0x7f) (λ b. bit_or b 0x80) bytes
        ∙ modify_fixed 31 (λ b. bit_and (bit_or b 0x80) 0x7f) bytes
            (λ y e. masked y (docs.dalek.public_bytes_last secret y e)) in
      rw (
        (==_iff _ _).1 size,
        copy_array_ok 32 tampered size,
        back,
        (eq_bytes_iff bytes bytes).1 refl,
      )

  export_only-IsLawful : Aead.IsLawful export_only
  export_only-IsLawful = record {
    key_len_bound = omega arith;
    nonce_len_bound = omega arith;
    init_key = λ key h. (tt, refl);
  }

  pub export_pass :
      (rng rng' rng_e : R.State) {sk : DhPrivateKey (x25519 c.dalek R c.sha256)}
      {pk : DhPublicKey (x25519 c.dalek R c.sha256)} {ss : DhSharedSecret} {enc : DhEncappedKey}
      → (dh_kem_x25519_hkdf_sha256 c).kem.generate rng ≡ (ok (sk, pk), rng')
      → (dh_kem_x25519_hkdf_sha256 c).kem.encap rng' pk ≡ (ok (ss, enc), rng_e)
      → export_only_suite c rng ≡ ok tt
  unfolding export_only_suite
  export_pass rng rng' rng_e {sk} {pk} made given =
      let K = (dh_kem_x25519_hkdf_sha256 c).kem in
      let correct = (dh_auth_kem-IsCorrect _ lawful).is_correct in
      elim (send_export_base_agrees K (hkdf_sha256 c.sha256) export_only correct
        (sha256-IsLawful c docs) export_only-IsLawful rng' rng_e sk pk (literal "info")
        (literal "ctx") 32 (correct.generate-Paired rng rng' made) given) [
          | inl (fits, (secret, sent, received, size)) ↦
              rw (made, sent, received, (eq_bytes_iff secret secret).1 refl)
          | inr (over, failed, refused) ↦ absurd (omega (arith, over))
        ]

  pub group_tests_pass : (rng : R.State) → AllPass (group_tests c rng)
  unfolding group_tests
  group_tests_pass rng = pieces_pass also mask_pass rng also p256_pass rng also all_done

  -- The crate's documented value at a point of small order is all zeros.
  pub small_order_pass :
      ((sk : c.dalek.StaticSecret) → c.dalek.diffie_hellman sk (zeros 32) ≡ zeros 32)
      → (rng : R.State) → x25519_rejects_small_order_zero_pk c rng ≡ ok tt
  unfolding x25519_rejects_small_order_zero_pk Dh.pk_from_bytes Dh.encap_with X25519.pk_from_bytes
      X25519.generate X25519.key_pair X25519.dh copy_array modify
  small_order_pass zero rng = rw (
    zero (c.dalek.secret_from (X25519.clamp (R.fill_bytes 32 rng).0)),
    (eq_bytes_iff (zeros 32) _).1 refl,
  )

  pub compressed_pass :
      (p : Curve) (curve : CurveCrate R) (to_compressed : curve.PublicKey → Bytes) (clen : ℕ)
      → ((pk : curve.PublicKey) → length (to_compressed pk) ≡ clen)
      → clen < 1 + 2 * p.nsk
      → (rng : R.State) → pk_rejection_test c p curve to_compressed clen rng ≡ ok tt
  unfolding pk_rejection_test Nist.pk_from_bytes Nist.generate Nist.make_pk
  compressed_pass p curve to_compressed clen size short rng =
      let pk = curve.public_key (curve.generate_from_rng rng).0 in
      let other : (clen == 1 + 2 * p.nsk) ≡ false = ground arith in
      rw (size pk, (==_iff clen clen).1 refl, other)
