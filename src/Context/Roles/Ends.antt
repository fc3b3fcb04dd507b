-- ===== src/Context/Roles/Ends.antt =====
-- src/context.rs: the laws of a context, as the sender's and the receiver's.
use hpke_ng.Base.{◌≡◌, ◌≢◌, ap}
use hpke_ng.Bytes.{Bytes}
use hpke_ng.Error.{ok}
use hpke_ng.Kdf.{Kdf}
use hpke_ng.Aead.{SealingAead, SealsLawfully}
use hpke_ng.Kem.{CryptoRng, Kem}
use hpke_ng.Context.Nonce.{IsWellFormed}
use hpke_ng.Context.Steps.{seal-IsWellFormed, open_ct-IsWellFormed}
use hpke_ng.Context.Inversion.{open_ct-seal, seal_failed, open_failed}
use hpke_ng.Context.Roles.{SenderContext, ReceiverContext, new_sender, new_receiver, seal, open_ct}

module _ {R : CryptoRng} {K : Kem R} {F : Kdf} (S : SealingAead) (lawful : SealsLawfully S) where
  pub opened :
      (s t : SenderContext K F S.aead) (aad pt ct : Bytes)
      → IsWellFormed s.inner
      → seal S s aad pt ≡ (ok ct, t)
      → open_ct S (new_receiver s.inner) aad ct ≡ (ok pt, new_receiver t.inner)
  unfolding seal open_ct
  opened s t aad pt ct wf sealed =
      ap (λ p. (p.0, new_receiver p.1))
        (open_ct-seal S lawful s.inner t.inner aad pt {ct = ct} wf
          (ap (λ p. (p.0, p.1.inner)) sealed))

  pub sealed-IsWellFormed :
      (s : SenderContext K F S.aead) (aad pt : Bytes)
      → IsWellFormed s.inner
      → IsWellFormed (seal S s aad pt).1.inner
  unfolding seal
  sealed-IsWellFormed s aad pt wf = seal-IsWellFormed S lawful s.inner aad pt wf

  pub opened-IsWellFormed :
      (r : ReceiverContext K F S.aead) (aad ct : Bytes)
      → IsWellFormed r.inner
      → IsWellFormed (open_ct S r aad ct).1.inner
  unfolding open_ct
  opened-IsWellFormed r aad ct wf = open_ct-IsWellFormed S lawful r.inner aad ct wf

  pub unsent :
      (s : SenderContext K F S.aead) (aad pt : Bytes)
      → IsWellFormed s.inner
      → ((ct : Bytes) → (seal S s aad pt).0 ≢ ok ct)
      → (seal S s aad pt).1 ≡ s
  unfolding seal
  unsent s aad pt wf refused = ap new_sender (seal_failed S lawful s.inner aad pt wf refused)

  pub unopened :
      (r : ReceiverContext K F S.aead) (aad ct : Bytes)
      → IsWellFormed r.inner
      → ((pt : Bytes) → (open_ct S r aad ct).0 ≢ ok pt)
      → (open_ct S r aad ct).1 ≡ r
  unfolding open_ct
  unopened r aad ct wf refused = ap new_receiver (open_failed S lawful r.inner aad ct wf refused)
