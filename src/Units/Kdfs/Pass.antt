-- ===== src/Units/Kdfs/Pass.antt =====
-- src/kdf.rs, the module `tests`: proofs that the unit tests of the KDFs pass.
use hpke_ng.Base.{[], ◌∷◌, ◌≡◌, refl, arith, ◌*◌, ◌+◌, ◌++◌}
use hpke_ng.Bytes.{literal, zeros}
use hpke_ng.Bytes.Slices.{eq_bytes_iff}
use hpke_ng.Error.{ok}
use hpke_ng.Kdf
use hpke_ng.Kdf.{labeled_extract}
use hpke_ng.Kdf.Labeled.{
  labeled_extract_pieces_lem, labeled_expand_pieces_lem, labeled_expand-outcome,
}
use hpke_ng.Kdf.Hkdf.{HkdfCrate, hkdf_sha256, hkdf_sha384, hkdf_sha512}
use hpke_ng.Context.{u64_max}
use hpke_ng.Kem.{CryptoRng}
use hpke_ng.Kem.Instances.{Crates, CratesDocs}
use hpke_ng.Kem.Instances.Laws.{sha256-IsLawful, sha384-IsLawful, sha512-IsLawful}
use hpke_ng.Units.{AllPass, ◌also◌, all_done}
use hpke_ng.Units.Kdfs.{
  kdf_tests, extract_pieces_matches_concat, expand_pieces_matches_concat, expand_rejects_oversize,
  expand_rejects_absurd_length, labeled_helpers_compose, labeled_pieces_match_single,
  labeled_expand_rejects_u16_overflow, sha384_extract_expand_roundtrip, expand_max_lengths,
  sha512_extract_expand_roundtrip,
}

module _ (h : HkdfCrate) (lawful : Kdf.IsLawful (hkdf_sha256 h)) where
  extract_pieces_pass : extract_pieces_matches_concat h ≡ ok tt
  unfolding extract_pieces_matches_concat
  extract_pieces_pass = rw (
    lawful.extract-flatten (literal "salt") (literal "abc") (literal "def" ∷ []),
    (eq_bytes_iff _ _).1 refl,
  )

  expand_pieces_pass : expand_pieces_matches_concat h ≡ ok tt
  unfolding expand_pieces_matches_concat
  expand_pieces_pass =
      let (out, given, size) =
        lawful.expand_within (zeros 32) (literal "abcdef" ∷ []) 32 (omega arith) (omega arith) in
      rw (given, lawful.expand-flatten, given, (eq_bytes_iff out out).1 refl)

  oversize_pass : expand_rejects_oversize h ≡ ok tt
  unfolding expand_rejects_oversize
  oversize_pass = rw (lawful.expand_long (zeros 32) (literal "info" ∷ []) 8161 (omega arith))

  absurd_length_pass : expand_rejects_absurd_length h ≡ ok tt
  unfolding expand_rejects_absurd_length
  absurd_length_pass =
      rw (lawful.expand_long (zeros 32) (literal "info" ∷ []) u64_max (omega arith))

  helpers_pass : labeled_helpers_compose h ≡ ok tt
  unfolding labeled_helpers_compose labeled_extract
  helpers_pass =
      let F = hkdf_sha256 h in
      let suite_id = literal "KEM" ++ 0x00 ∷ 0x20 ∷ [] in
      let prk = labeled_extract F [] suite_id (literal "eae_prk") (literal "shared_secret_bytes") in
      let prk_size =
        lawful.length-extract []
          (Kdf.hpke_v1 ∷ suite_id ∷ literal "eae_prk" ∷ literal "shared_secret_bytes" ∷ []) in
      let (out, given, size) =
        (labeled_expand-outcome F lawful prk suite_id (literal "shared_secret") (literal "context")
            32).1
          (omega arith) (omega (arith, prk_size)) in
      rw (prk_size, given, size, (eq_bytes_iff out out).1 refl)

  single_pass : labeled_pieces_match_single h ≡ ok tt
  unfolding labeled_pieces_match_single
  single_pass =
      let F = hkdf_sha256 h in
      let suite_id = literal "KEM" ++ 0x00 ∷ 0x20 ∷ [] in
      let (out, given, size) =
        (labeled_expand-outcome F lawful (zeros 32) suite_id (literal "k") (literal "context") 32).1
          (omega arith) (omega arith) in
      rw (
        labeled_extract_pieces_lem F lawful [] suite_id (literal "eae_prk")
            (literal "shared_" ∷ literal "secret" ∷ []),
        (eq_bytes_iff _ _).1 refl,
        labeled_expand_pieces_lem F lawful (zeros 32) suite_id (literal "k")
            (literal "con" ∷ literal "text" ∷ []) 32,
        given,
        (eq_bytes_iff out out).1 refl,
      )

  u16_overflow_pass : labeled_expand_rejects_u16_overflow h ≡ ok tt
  unfolding labeled_expand_rejects_u16_overflow Kdf.labeled_expand
  u16_overflow_pass = refl

module _ (h : HkdfCrate) (lawful : Kdf.IsLawful (hkdf_sha384 h)) where
  sha384_pass : sha384_extract_expand_roundtrip h ≡ ok tt
  unfolding sha384_extract_expand_roundtrip
  sha384_pass =
      let prk = (hkdf_sha384 h).extract (literal "salt") (literal "ikm" ∷ []) in
      let prk_size = lawful.length-extract (literal "salt") (literal "ikm" ∷ []) in
      let (out, given, size) =
        lawful.expand_within prk (literal "info" ∷ []) 48 (omega arith) (omega (arith, prk_size)) in
      rw (prk_size, given, size, (eq_bytes_iff out out).1 refl)

  max_lengths_pass : expand_max_lengths h ≡ ok tt
  unfolding expand_max_lengths
  max_lengths_pass =
      let prk = (hkdf_sha384 h).extract [] (literal "ikm" ∷ []) in
      let prk_size = lawful.length-extract [] (literal "ikm" ∷ []) in
      let (out, given, size) =
        lawful.expand_within prk (literal "info" ∷ []) (255 * 48) (omega arith)
          (omega (arith, prk_size)) in
      rw (given, lawful.expand_long prk (literal "info" ∷ []) (255 * 48 + 1) (omega arith))

module _ (h : HkdfCrate) (lawful : Kdf.IsLawful (hkdf_sha512 h)) where
  sha512_pass : sha512_extract_expand_roundtrip h ≡ ok tt
  unfolding sha512_extract_expand_roundtrip
  sha512_pass =
      let prk = (hkdf_sha512 h).extract (literal "salt") (literal "ikm" ∷ []) in
      let prk_size = lawful.length-extract (literal "salt") (literal "ikm" ∷ []) in
      let (out, given, size) =
        lawful.expand_within prk (literal "info" ∷ []) 64 (omega arith) (omega (arith, prk_size)) in
      rw (prk_size, given, size)

pub kdf_tests_pass :
    {R : CryptoRng} (c : Crates R) → CratesDocs c → AllPass (kdf_tests c.sha256 c.sha384 c.sha512)
unfolding kdf_tests
kdf_tests_pass c docs =
    let s256 = sha256-IsLawful c docs in
    let s384 = sha384-IsLawful c docs in
    let s512 = sha512-IsLawful c docs in
    extract_pieces_pass c.sha256 s256
    also expand_pieces_pass c.sha256 s256
    also oversize_pass c.sha256 s256
    also absurd_length_pass c.sha256 s256
    also sha384_pass c.sha384 s384
    also sha512_pass c.sha512 s512
    also max_lengths_pass c.sha384 s384
    also helpers_pass c.sha256 s256
    also single_pass c.sha256 s256
    also u16_overflow_pass c.sha256 s256
    also all_done
