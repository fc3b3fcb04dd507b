-- ===== src/Units/Aeads.antt =====
-- src/aead.rs, the module `tests`: the unit tests of the ciphers but the one of RFC 8439's vector,
-- with proofs that they pass.
use hpke_ng.Base.{◌≡◌, refl, [], ◌∷◌, ◌+◌, ◌==◌, List, length, arith}
use hpke_ng.Bytes.{literal, zeros}
use hpke_ng.Bytes.Slices.{eq_bytes_iff}
use hpke_ng.Error.{ok, ◌>>=◌, aead_init_error}
use hpke_ng.Aead.{Takes, export_only}
use hpke_ng.Aead.Ciphers.{
  AeadCrate, AeadDocs, aes_128_gcm, aes_256_gcm, cipher_init, sealing_impl-SealsLawfully,
}
use hpke_ng.Units.{
  TestRun, AllPass, ◌also◌, all_done, assert, assert_eq, assert_ok, assert_err, unwrap,
}

module _ (aes128 aes256 : AeadCrate) where
  unfoldable pub aes128gcm_roundtrip_short : TestRun
  aes128gcm_roundtrip_short = do
    let S = aes_128_gcm aes128
    let nonce = zeros 12
    let pt = literal "hello"
    cipher ← unwrap (S.aead.init (zeros 16))
    ct ← unwrap (S.seal cipher nonce [] pt)
    _ ← assert (length ct == length pt + 16)
    opened ← unwrap (S.open_ct cipher nonce [] ct)
    assert_eq opened pt

  unfoldable pub aes256gcm_roundtrip_short : TestRun
  aes256gcm_roundtrip_short = do
    let S = aes_256_gcm aes256
    let nonce = zeros 12
    let pt = literal "world"
    cipher ← unwrap (S.aead.init (zeros 32))
    ct ← unwrap (S.seal cipher nonce (literal "aad") pt)
    opened ← unwrap (S.open_ct cipher nonce (literal "aad") ct)
    assert_eq opened pt

  unfoldable pub aes128gcm_rejects_bad_key_len : TestRun
  aes128gcm_rejects_bad_key_len =
      assert_err ((aes_128_gcm aes128).aead.init (zeros 15)) aead_init_error

  unfoldable pub export_only_implements_aead_only : TestRun
  export_only_implements_aead_only = do
    _ ← assert (export_only.id == 0xffff)
    _ ← assert (export_only.key_len == 0)
    _ ← assert (export_only.nonce_len == 0)
    _ ← assert (export_only.tag_len == 0)
    assert_ok (export_only.init [])

  unfoldable pub aead_tests : List TestRun
  aead_tests =
      aes128gcm_roundtrip_short ∷ aes256gcm_roundtrip_short ∷ aes128gcm_rejects_bad_key_len
      ∷ export_only_implements_aead_only ∷ []

  module _ (docs128 : AeadDocs aes128 16) (docs256 : AeadDocs aes256 32) where
    aes128_pass :
        Takes (aes_128_gcm aes128) [] (literal "hello") → aes128gcm_roundtrip_short ≡ ok tt
    unfolding aes128gcm_roundtrip_short
    aes128_pass takes =
        let lawful = sealing_impl-SealsLawfully aes128 16 docs128 0x0001 (omega arith) in
        let (cipher, given) = lawful.is_lawful.init_key (zeros 16) refl in
        let (ct, sealed) = takes cipher (zeros 12) refl in
        rw (
          given,
          sealed,
          lawful.length-seal cipher (zeros 12) [] (literal "hello") sealed,
          lawful.open_ct-seal cipher (zeros 12) [] (literal "hello") sealed,
          (eq_bytes_iff (literal "hello") _).1 refl,
        )

    aes256_pass :
        Takes (aes_256_gcm aes256) (literal "aad") (literal "world")
        → aes256gcm_roundtrip_short ≡ ok tt
    unfolding aes256gcm_roundtrip_short
    aes256_pass takes =
        let lawful = sealing_impl-SealsLawfully aes256 32 docs256 0x0002 (omega arith) in
        let (cipher, given) = lawful.is_lawful.init_key (zeros 32) refl in
        let (ct, sealed) = takes cipher (zeros 12) refl in
        rw (
          given,
          sealed,
          lawful.open_ct-seal cipher (zeros 12) (literal "aad") (literal "world") sealed,
          (eq_bytes_iff (literal "world") _).1 refl,
        )

    bad_key_pass : aes128gcm_rejects_bad_key_len ≡ ok tt
    unfolding aes128gcm_rejects_bad_key_len cipher_init
    bad_key_pass = rw (docs128.new_from_slice_wrong (zeros 15) (omega arith))

    pub aead_tests_pass :
        Takes (aes_128_gcm aes128) [] (literal "hello")
        → Takes (aes_256_gcm aes256) (literal "aad") (literal "world")
        → AllPass aead_tests
    unfolding aead_tests export_only_implements_aead_only
    aead_tests_pass takes128 takes256 =
        aes128_pass takes128 also aes256_pass takes256 also bad_key_pass also refl also all_done
