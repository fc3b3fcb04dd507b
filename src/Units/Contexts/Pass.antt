-- ===== src/Units/Contexts/Pass.antt =====
-- src/context.rs, the module `tests`: proofs that the unit tests of the context pass.
use hpke_ng.Base.{ℕ, ◌+◌, ◌-◌, ◌≤◌, ◌≡◌, refl, false, ◌==◌, replicate, arith}
use hpke_ng.Bytes.{Bytes, literal, xor_bytes, to_be_bytes, eq_bytes}
use hpke_ng.Bytes.Slices.{eq_bytes_iff}
use hpke_ng.Error.{Result, ok, err, message_limit_reached}
use hpke_ng.Kdf.Hkdf.{hkdf_sha256}
use hpke_ng.Kdf.Labeled.{labeled_expand-outcome}
use hpke_ng.Aead.{SealsLawfully, Takes}
use hpke_ng.Aead.Ciphers.{AeadCrate, AeadDocs, sealing_impl-SealsLawfully}
use hpke_ng.Kem.{CryptoRng}
use hpke_ng.Kem.Instances.{Crates, CratesDocs, dh_kem_x25519_hkdf_sha256}
use hpke_ng.Kem.Instances.Laws.{sha256-IsLawful}
use hpke_ng.Suite.{ciphersuite}
use hpke_ng.Context
use hpke_ng.Context.{
  Context, u64_max, compute_nonce, mask_seq, copy_prefix, assert_nonce_range, seal, open_ct,
}
use hpke_ng.Context.Nonce.{IsWellFormed}
use hpke_ng.Context.Inversion.{open_ct-seal}
use hpke_ng.Context.Harness.{sequence_number, set_seq_for_test}
use hpke_ng.Context.Roles.Limit.{seal_taken}
use hpke_ng.Units.{AllPass, ◌also◌, all_done}
use hpke_ng.Units.Contexts.{
  S, Ctx, new_test_ctx, exchange, exchange_all, seal_open_roundtrip_with_known_state,
  export_length_bound, nonce_derivation_xors_seq_into_base_nonce, seal_rejects_at_message_limit,
  seal_succeeds_before_message_limit_then_fails, open_rejects_at_message_limit, context_tests,
}

module _ {R : CryptoRng} (c : Crates R) (docs : CratesDocs c) (a : AeadCrate)
    (cipher_docs : AeadDocs a 32) where
  lawful : SealsLawfully (S c a)
  lawful = sealing_impl-SealsLawfully a 32 cipher_docs 0x0003 (omega arith)

  abbrev context_of : (S c a).aead.Cipher → ℕ → ℕ → ℕ → ℕ → Ctx c a
  context_of cipher key nonce exporter seq = record {
    cipher = cipher;
    base_nonce = replicate 12 nonce;
    exporter_secret = replicate 32 exporter;
    seq = seq;
    raw_key = replicate 32 key;
  }

  made :
      (key nonce exporter : ℕ)
      → (cipher : (S c a).aead.Cipher) × (◌≡◌ {A = Result (Ctx c a)}
          (Context.new (replicate 32 key) (replicate 12 nonce) (replicate 32 exporter))
          (ok (context_of cipher key nonce exporter 0)))
  unfolding Context.new copy_prefix
  made key nonce exporter =
      let (cipher, given) = lawful.is_lawful.init_key (replicate 32 key) refl in (cipher, rw given)

  limit_reached :
      (cipher : (S c a).aead.Cipher) (aad pt : Bytes)
      → (seal (S c a) (context_of cipher 0x42 0x77 0 u64_max) aad pt).0 ≡ err message_limit_reached
  unfolding seal
  limit_reached cipher aad pt = refl

  open_limit_reached :
      (cipher : (S c a).aead.Cipher) (aad ct : Bytes)
      → (open_ct (S c a) (context_of cipher 0x42 0x77 0 u64_max) aad ct).0
        ≡ err message_limit_reached
  unfolding open_ct
  open_limit_reached cipher aad ct = refl

  limit_pass : seal_rejects_at_message_limit c a ≡ ok tt
  unfolding seal_rejects_at_message_limit new_test_ctx set_seq_for_test seal
  limit_pass = let (cipher, given) = made 0x42 0x77 0 in rw given

  nonce_pass : nonce_derivation_xors_seq_into_base_nonce c a ≡ ok tt
  unfolding nonce_derivation_xors_seq_into_base_nonce new_test_ctx set_seq_for_test compute_nonce
      copy_prefix assert_nonce_range mask_seq xor_bytes to_be_bytes eq_bytes
  nonce_pass = let (cipher, given) = made 0 0 0 in rw given

  export_pass : export_length_bound c a ≡ ok tt
  unfolding export_length_bound new_test_ctx Context.export
  export_pass =
      let (cipher, given) = made 0 0 1 in
      rw (
        given,
        (labeled_expand-outcome (hkdf_sha256 c.sha256) (sha256-IsLawful c docs) (replicate 32 1)
              (ciphersuite (dh_kem_x25519_hkdf_sha256 c).kem (hkdf_sha256 c.sha256) (S c a).aead)
              (literal "sec") (literal "ctx") 8161).0
            (omega arith),
      )

  -- The cipher encrypts every message.
  module _ (takes : (aad pt : Bytes) → Takes (S c a) aad pt) where
    exchanged :
        (ctx : Ctx c a) (aad pt : Bytes)
        → IsWellFormed ctx
        → (ctx.seq == u64_max) ≡ false
        → exchange c a ctx ctx aad pt
          ≡ ok (pt, (record ctx { seq = ctx.seq + 1 }, record ctx { seq = ctx.seq + 1 }))
    unfolding exchange
    exchanged ctx aad pt wf room =
        let (ct, sealed, encrypted) = seal_taken (S c a) lawful ctx aad pt wf room (takes aad pt) in
        rw (sealed, open_ct-seal (S c a) lawful ctx _ aad pt wf sealed)

    context_of-IsWellFormed :
        (cipher : (S c a).aead.Cipher) (key nonce exporter seq : ℕ)
        → seq ≤ u64_max
        → IsWellFormed (context_of cipher key nonce exporter seq)
    context_of-IsWellFormed cipher key nonce exporter seq bound = record {
      nonce_size = refl;
      seq_bound = bound;
    }

    last_pass : seal_succeeds_before_message_limit_then_fails c a ≡ ok tt
    unfolding seal_succeeds_before_message_limit_then_fails new_test_ctx set_seq_for_test
    last_pass =
        let (cipher, given) = made 0x42 0x77 0 in
        let wf = context_of-IsWellFormed cipher 0x42 0x77 0 (u64_max - 1) (omega arith) in
        let (ct, sealed, encrypted) =
          seal_taken (S c a) lawful (context_of cipher 0x42 0x77 0 (u64_max - 1)) (literal "aad")
            (literal "hello") wf refl (takes _ _) in
        rw (given, sealed, limit_reached cipher (literal "aad") (literal "hello"))

    open_pass : open_rejects_at_message_limit c a ≡ ok tt
    unfolding open_rejects_at_message_limit new_test_ctx set_seq_for_test
    open_pass =
        let (cipher, given) = made 0x42 0x77 0 in
        let wf = context_of-IsWellFormed cipher 0x42 0x77 0 0 (omega arith) in
        let (ct, sealed, encrypted) =
          seal_taken (S c a) lawful (context_of cipher 0x42 0x77 0 0) (literal "aad")
            (literal "hello") wf refl (takes _ _) in
        rw (given, sealed, open_limit_reached cipher (literal "aad") ct)

    roundtrip_pass : seal_open_roundtrip_with_known_state c a ≡ ok tt
    unfolding seal_open_roundtrip_with_known_state exchange_all sequence_number
    roundtrip_pass =
        let (cipher, given) = made 0x42 0x77 0 in
        let step : (seq : ℕ) (pt : Bytes)
            → seq ≤ 4
            → exchange c a (context_of cipher 0x42 0x77 0 seq) (context_of cipher 0x42 0x77 0 seq)
                (literal "aad") pt
              ≡ ok (
                pt,
                (context_of cipher 0x42 0x77 0 (seq + 1), context_of cipher 0x42 0x77 0 (seq + 1)),
              ) =
          λ seq pt small.
            exchanged (context_of cipher 0x42 0x77 0 seq) (literal "aad") pt
              (context_of-IsWellFormed cipher 0x42 0x77 0 seq (omega arith)) (ground arith) in
        rw (
          given,
          step 0 (literal "message") (omega arith),
          (eq_bytes_iff (literal "message") _).1 refl,
          step 1 (literal "msg-0") (omega arith),
          (eq_bytes_iff (literal "msg-0") _).1 refl,
          step 2 (literal "msg-1") (omega arith),
          (eq_bytes_iff (literal "msg-1") _).1 refl,
          step 3 (literal "msg-2") (omega arith),
          (eq_bytes_iff (literal "msg-2") _).1 refl,
        )

    pub context_tests_pass : AllPass (context_tests c a)
    unfolding context_tests
    context_tests_pass =
        roundtrip_pass also export_pass also nonce_pass also limit_pass also last_pass
        also open_pass also all_done
