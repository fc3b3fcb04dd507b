-- ===== src/Units/Contexts.antt =====
-- src/context.rs, the module `tests`: the unit tests of the context but the one that compares
-- exports under two contexts, whose difference is the hash's. A call that moves the counter gives
-- the new context beside its result.
pub mod Pass
use hpke_ng.Base.{ℕ, List, [], ◌∷◌, ◌==◌, ◌-◌, replicate}
use hpke_ng.Bytes.{Bytes, literal, zeros}
use hpke_ng.Error.{Result, ok, ◌>>=◌, export_length_exceeded, message_limit_reached}
use hpke_ng.Kdf.{Kdf}
use hpke_ng.Kdf.Hkdf.{hkdf_sha256}
use hpke_ng.Aead.{SealingAead}
use hpke_ng.Aead.Ciphers.{AeadCrate, chacha20_poly1305}
use hpke_ng.Kem.{CryptoRng, Kem}
use hpke_ng.Kem.Instances.{Crates, dh_kem_x25519_hkdf_sha256}
use hpke_ng.Context
use hpke_ng.Context.{Context, max_nonce_len, u64_max, export, compute_nonce, seal, open_ct}
use hpke_ng.Context.Harness.{sequence_number, set_seq_for_test}
use hpke_ng.Units.{TestRun, assert, assert_eq, assert_ok, assert_err, unwrap}

module _ {R : CryptoRng} (c : Crates R) (a : AeadCrate) where
  abbrev pub S : SealingAead
  S = chacha20_poly1305 a

  abbrev pub Ctx : Type 0
  Ctx = Context (dh_kem_x25519_hkdf_sha256 c).kem (hkdf_sha256 c.sha256) S.aead

  unfoldable pub new_test_ctx : ℕ → ℕ → ℕ → Result Ctx
  new_test_ctx key nonce exporter =
      unwrap
        (Context.new (replicate 32 key) (replicate max_nonce_len nonce) (replicate 32 exporter))

  -- Both ends handle one message.
  unfoldable pub exchange : Ctx → Ctx → Bytes → Bytes → Result (Bytes × (Ctx × Ctx))
  exchange sender receiver aad message = do
    let (sealed, sender') = seal S sender aad message
    ct ← unwrap sealed
    let (opened, receiver') = open_ct S receiver aad ct
    pt ← unwrap opened
    ok (pt, (sender', receiver'))

  -- The messages of the loop, `format!("msg-{i}")`.
  abbrev pub messages : List Bytes
  messages = literal "msg-0" ∷ literal "msg-1" ∷ literal "msg-2" ∷ []

  unfoldable pub exchange_all : List Bytes → Ctx → Ctx → Result (Ctx × Ctx)
  exchange_all [] sender receiver = ok (sender, receiver)
  exchange_all (message ∷ messages) sender receiver = do
    (recovered, (sender', receiver')) ← exchange sender receiver (literal "aad") message
    _ ← assert_eq recovered message
    exchange_all messages sender' receiver'

  unfoldable pub seal_open_roundtrip_with_known_state : TestRun
  seal_open_roundtrip_with_known_state = do
    let key = replicate 32 0x42
    let base_nonce = replicate max_nonce_len 0x77
    let exporter_secret = zeros 32
    sender ← unwrap (Context.new key base_nonce exporter_secret)
    receiver ← unwrap (Context.new key base_nonce exporter_secret)
    (pt, (sender', receiver')) ← exchange sender receiver (literal "aad") (literal "message")
    _ ← assert_eq pt (literal "message")
    _ ← assert (sequence_number sender' == 1)
    _ ← assert (sequence_number receiver' == 1)
    (sender'', receiver'') ← exchange_all messages sender' receiver'
    assert (sequence_number sender'' == 4)

  unfoldable pub export_length_bound : TestRun
  export_length_bound = do
    ctx ← new_test_ctx 0 0 1
    assert_err (export ctx (literal "ctx") 8161) export_length_exceeded

  unfoldable pub nonce_derivation_xors_seq_into_base_nonce : TestRun
  nonce_derivation_xors_seq_into_base_nonce = do
    ctx ← new_test_ctx 0 0 0
    n0 ← compute_nonce ctx
    _ ← assert_eq n0 (zeros 12)
    n1 ← compute_nonce (set_seq_for_test ctx 1)
    _ ← assert_eq n1 (0 ∷ 0 ∷ 0 ∷ 0 ∷ 0 ∷ 0 ∷ 0 ∷ 0 ∷ 0 ∷ 0 ∷ 0 ∷ 1 ∷ [])
    n256 ← compute_nonce (set_seq_for_test ctx 256)
    _ ← assert_eq n256 (0 ∷ 0 ∷ 0 ∷ 0 ∷ 0 ∷ 0 ∷ 0 ∷ 0 ∷ 0 ∷ 0 ∷ 1 ∷ 0 ∷ [])
    n_large ← compute_nonce (set_seq_for_test ctx 0x0102_0304_0506_0708)
    assert_eq n_large (0 ∷ 0 ∷ 0 ∷ 0 ∷ 1 ∷ 2 ∷ 3 ∷ 4 ∷ 5 ∷ 6 ∷ 7 ∷ 8 ∷ [])

  unfoldable pub seal_rejects_at_message_limit : TestRun
  seal_rejects_at_message_limit = do
    ctx ← new_test_ctx 0x42 0x77 0
    assert_err (seal S (set_seq_for_test ctx u64_max) (literal "aad") (literal "hello")).0
        message_limit_reached

  unfoldable pub seal_succeeds_before_message_limit_then_fails : TestRun
  seal_succeeds_before_message_limit_then_fails = do
    ctx ← new_test_ctx 0x42 0x77 0
    let (first, ctx') =
        seal S (set_seq_for_test ctx (u64_max - 1)) (literal "aad") (literal "hello")
    _ ← assert_ok first
    assert_err (seal S ctx' (literal "aad") (literal "hello")).0 message_limit_reached

  unfoldable pub open_rejects_at_message_limit : TestRun
  open_rejects_at_message_limit = do
    ctx ← new_test_ctx 0x42 0x77 0
    sibling ← new_test_ctx 0x42 0x77 0
    ct ← unwrap (seal S sibling (literal "aad") (literal "hello")).0
    assert_err (open_ct S (set_seq_for_test ctx u64_max) (literal "aad") ct).0 message_limit_reached

  unfoldable pub context_tests : List TestRun
  context_tests =
      seal_open_roundtrip_with_known_state ∷ export_length_bound
      ∷ nonce_derivation_xors_seq_into_base_nonce ∷ seal_rejects_at_message_limit
      ∷ seal_succeeds_before_message_limit_then_fails ∷ open_rejects_at_message_limit ∷ []
