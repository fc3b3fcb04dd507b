-- ===== src/Context/Harness.antt =====
-- src/context.rs: what the test builds add, the accessors of a context and of a receiver.
use hpke_ng.Base.{ℕ, leb, if◌then◌else◌, length, take}
use hpke_ng.Bytes.{Bytes}
use hpke_ng.Error.{Result, ok, panic}
use hpke_ng.Kdf.{Kdf}
use hpke_ng.Aead.{Aead}
use hpke_ng.Kem.{CryptoRng, Kem}
use hpke_ng.Context.{Context}
use hpke_ng.Context.Roles.{SenderContext, ReceiverContext}

module _ {R : CryptoRng} {K : Kem R} {F : Kdf} {A : Aead} where
  unfoldable pub key : Context K F A → Bytes
  key c = c.raw_key

  unfoldable pub nonce : Context K F A → Result Bytes
  nonce c =
      if leb A.nonce_len (length c.base_nonce) then ok (take A.nonce_len c.base_nonce) else panic

  unfoldable pub exporter_secret : Context K F A → Bytes
  exporter_secret c = c.exporter_secret

  unfoldable pub sequence_number : Context K F A → ℕ
  sequence_number c = c.seq

  unfoldable pub set_seq_for_test : Context K F A → ℕ → Context K F A
  set_seq_for_test c seq = record c { seq = seq }

  unfoldable pub from_context : Context K F A → SenderContext K F A
  from_context inner = record { inner = inner }

  -- The receiver's accessors delegate to the context's.
  unfoldable pub receiver_key : ReceiverContext K F A → Bytes
  receiver_key r = key r.inner

  unfoldable pub receiver_nonce : ReceiverContext K F A → Result Bytes
  receiver_nonce r = nonce r.inner

  unfoldable pub receiver_exporter_secret : ReceiverContext K F A → Bytes
  receiver_exporter_secret r = exporter_secret r.inner

  unfoldable pub receiver_sequence_number : ReceiverContext K F A → ℕ
  receiver_sequence_number r = sequence_number r.inner
