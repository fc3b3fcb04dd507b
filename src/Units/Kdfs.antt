-- ===== src/Units/Kdfs.antt =====
-- src/kdf.rs, the module `tests`: the unit tests of the KDFs but the one of RFC 5869's vector.
pub mod Pass
use hpke_ng.Base.{List, [], ◌∷◌, ◌++◌, ◌*◌, ◌+◌, ◌==◌, length}
use hpke_ng.Bytes.{literal, zeros}
use hpke_ng.Error.{ok, ◌>>=◌, export_length_exceeded}
use hpke_ng.Kdf.{labeled_extract, labeled_extract_pieces, labeled_expand, labeled_expand_pieces}
use hpke_ng.Kdf.Hkdf.{HkdfCrate, hkdf_sha256, hkdf_sha384, hkdf_sha512}
use hpke_ng.Context.{u64_max}
use hpke_ng.Units.{TestRun, assert, assert_eq, assert_ok, assert_err, unwrap}

module _ (h : HkdfCrate) where
  unfoldable pub extract_pieces_matches_concat : TestRun
  extract_pieces_matches_concat =
      let salt = literal "salt" in
      let prk_concat = (hkdf_sha256 h).extract salt (literal "abcdef" ∷ []) in
      let prk_pieces = (hkdf_sha256 h).extract salt (literal "abc" ∷ literal "def" ∷ []) in
      assert_eq prk_concat prk_pieces

  unfoldable pub expand_pieces_matches_concat : TestRun
  expand_pieces_matches_concat = do
    let prk = zeros 32
    okm_concat ← unwrap ((hkdf_sha256 h).expand prk (literal "abcdef" ∷ []) 32)
    okm_pieces ← unwrap ((hkdf_sha256 h).expand prk (literal "abc" ∷ literal "def" ∷ []) 32)
    assert_eq okm_concat okm_pieces

  unfoldable pub expand_rejects_oversize : TestRun
  expand_rejects_oversize =
      assert_err ((hkdf_sha256 h).expand (zeros 32) (literal "info" ∷ []) 8161)
        export_length_exceeded

  -- `usize::MAX` of 64 bits.
  unfoldable pub expand_rejects_absurd_length : TestRun
  expand_rejects_absurd_length =
      assert_err ((hkdf_sha256 h).expand (zeros 32) (literal "info" ∷ []) u64_max)
        export_length_exceeded

  unfoldable pub labeled_helpers_compose : TestRun
  labeled_helpers_compose = do
    let suite_id = literal "KEM" ++ 0x00 ∷ 0x20 ∷ []
    let prk =
        labeled_extract (hkdf_sha256 h) [] suite_id (literal "eae_prk")
          (literal "shared_secret_bytes")
    _ ← assert (length prk == 32)
    okm ← unwrap (
        labeled_expand (hkdf_sha256 h) prk suite_id (literal "shared_secret") (literal "context")
          32)
    _ ← assert (length okm == 32)
    okm2 ← unwrap (
        labeled_expand (hkdf_sha256 h) prk suite_id (literal "shared_secret") (literal "context")
          32)
    assert_eq okm okm2

  unfoldable pub labeled_pieces_match_single : TestRun
  labeled_pieces_match_single = do
    let suite_id = literal "KEM" ++ 0x00 ∷ 0x20 ∷ []
    let single =
        labeled_extract (hkdf_sha256 h) [] suite_id (literal "eae_prk") (literal "shared_secret")
    pieces ←
        labeled_extract_pieces (hkdf_sha256 h) [] suite_id (literal "eae_prk")
          (literal "shared_" ∷ literal "secret" ∷ [])
    _ ← assert_eq single pieces
    let prk = zeros 32
    s_exp ←
        unwrap (labeled_expand (hkdf_sha256 h) prk suite_id (literal "k") (literal "context") 32)
    p_exp ← unwrap (
        labeled_expand_pieces (hkdf_sha256 h) prk suite_id (literal "k")
          (literal "con" ∷ literal "text" ∷ []) 32)
    assert_eq s_exp p_exp

  unfoldable pub labeled_expand_rejects_u16_overflow : TestRun
  labeled_expand_rejects_u16_overflow =
      assert_err (labeled_expand (hkdf_sha256 h) (zeros 32) [] [] [] 65536) export_length_exceeded

module _ (h : HkdfCrate) where
  unfoldable pub sha384_extract_expand_roundtrip : TestRun
  sha384_extract_expand_roundtrip = do
    let prk = (hkdf_sha384 h).extract (literal "salt") (literal "ikm" ∷ [])
    _ ← assert (length prk == 48)
    okm ← unwrap ((hkdf_sha384 h).expand prk (literal "info" ∷ []) 48)
    _ ← assert (length okm == 48)
    okm2 ← unwrap ((hkdf_sha384 h).expand prk (literal "info" ∷ []) 48)
    assert_eq okm okm2

  unfoldable pub expand_max_lengths : TestRun
  expand_max_lengths = do
    let prk384 = (hkdf_sha384 h).extract [] (literal "ikm" ∷ [])
    _ ← assert_ok ((hkdf_sha384 h).expand prk384 (literal "info" ∷ []) (255 * 48))
    assert_err ((hkdf_sha384 h).expand prk384 (literal "info" ∷ []) (255 * 48 + 1))
        export_length_exceeded

module _ (h : HkdfCrate) where
  unfoldable pub sha512_extract_expand_roundtrip : TestRun
  sha512_extract_expand_roundtrip = do
    let prk = (hkdf_sha512 h).extract (literal "salt") (literal "ikm" ∷ [])
    _ ← assert (length prk == 64)
    okm ← unwrap ((hkdf_sha512 h).expand prk (literal "info" ∷ []) 64)
    assert (length okm == 64)

unfoldable pub kdf_tests : HkdfCrate → HkdfCrate → HkdfCrate → List TestRun
kdf_tests sha256 sha384 sha512 =
    extract_pieces_matches_concat sha256
    ∷ expand_pieces_matches_concat sha256
    ∷ expand_rejects_oversize sha256
    ∷ expand_rejects_absurd_length sha256
    ∷ sha384_extract_expand_roundtrip sha384
    ∷ sha512_extract_expand_roundtrip sha512
    ∷ expand_max_lengths sha384
    ∷ labeled_helpers_compose sha256
    ∷ labeled_pieces_match_single sha256
    ∷ labeled_expand_rejects_u16_overflow sha256
    ∷ []
