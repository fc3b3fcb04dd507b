-- ===== src/Context/Roles.antt =====
-- src/context.rs: `SenderContext` and `ReceiverContext`, which let each end work in its direction.
pub mod Ends
pub mod Streams
pub mod Limit
pub mod Noise
pub mod Channel
pub mod Past
pub mod Uniqueness
use hpke_ng.Base.{ℕ}
use hpke_ng.Bytes.{Bytes}
use hpke_ng.Error.{Result}
use hpke_ng.Kdf.{Kdf}
use hpke_ng.Aead.{Aead, SealingAead}
use hpke_ng.Kem.{CryptoRng, Kem}
use hpke_ng.Context
use hpke_ng.Context.{Context}

pub record SenderContext {R : CryptoRng} (K : Kem R) (F : Kdf) (A : Aead) : Type 0 where
  pub inner : Context K F A

pub record ReceiverContext {R : CryptoRng} (K : Kem R) (F : Kdf) (A : Aead) : Type 0 where
  pub inner : Context K F A

module _ {R : CryptoRng} {K : Kem R} {F : Kdf} {A : Aead} where
  -- `SenderContext::new` and `ReceiverContext::new`
  abbrev pub new_sender : Context K F A → SenderContext K F A
  new_sender c = record { inner = c }

  abbrev pub new_receiver : Context K F A → ReceiverContext K F A
  new_receiver c = record { inner = c }

  unfoldable pub export_sender : SenderContext K F A → Bytes → ℕ → Result Bytes
  export_sender s exporter_context length = Context.export s.inner exporter_context length

  unfoldable pub export_receiver : ReceiverContext K F A → Bytes → ℕ → Result Bytes
  export_receiver r exporter_context length = Context.export r.inner exporter_context length

module _ {R : CryptoRng} {K : Kem R} {F : Kdf} (S : SealingAead) where
  -- `SenderContext::seal`
  unfoldable pub seal :
      SenderContext K F S.aead → Bytes → Bytes → Result Bytes × SenderContext K F S.aead
  seal s aad pt = let (r, c) = Context.seal S s.inner aad pt in (r, new_sender c)

  -- `ReceiverContext::open`
  unfoldable pub open_ct :
      ReceiverContext K F S.aead → Bytes → Bytes → Result Bytes × ReceiverContext K F S.aead
  open_ct r aad ct = let (out, c) = Context.open_ct S r.inner aad ct in (out, new_receiver c)
