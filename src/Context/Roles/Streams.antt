-- ===== src/Context/Roles/Streams.antt =====
-- src/context.rs: a stream of messages from a sender to a receiver.
use mathlib.Core.List.{map}
use hpke_ng.Base.{List, [], ◌∷◌, ◌≡◌, refl, ◌∙◌, sym, subst, inl, inr}
use hpke_ng.Bytes.{Bytes}
use hpke_ng.Error.{Result, ok, err, panic, Result-cases, err-ne-ok, panic-ne-ok}
use hpke_ng.Kdf.{Kdf}
use hpke_ng.Aead.{SealingAead, SealsLawfully}
use hpke_ng.Kem.{CryptoRng, Kem}
use hpke_ng.Context
use hpke_ng.Context.{Context}
use hpke_ng.Context.Nonce.{IsWellFormed}
use hpke_ng.Context.Steps.{seal-IsWellFormed}
use hpke_ng.Context.Inversion.{open_ct-seal, seal_failed}
use hpke_ng.Context.Roles.{SenderContext, ReceiverContext, new_sender, new_receiver, seal, open_ct}

-- A message that a sender has released, with what it holds.
pub record Delivery : Type 0 where
  pub aad : Bytes
  pub plain : Bytes
  pub sealed : Bytes

-- A seal that fails releases nothing.
unfoldable pub release : Bytes → Bytes → Result Bytes → List Delivery → List Delivery
release aad pt (ok ct) rest = record { aad = aad; plain = pt; sealed = ct } ∷ rest
release aad pt (err e) rest = rest
release aad pt panic rest = rest

module _ {R : CryptoRng} {K : Kem R} {F : Kdf} (S : SealingAead) where
  -- Seals the messages, pairs of associated data and plaintext, in order.
  unfoldable pub send_all :
      SenderContext K F S.aead → List (Bytes × Bytes) → List Delivery × SenderContext K F S.aead
  unfolding release
  send_all s [] = ([], s)
  send_all s ((aad, pt) ∷ messages) =
      let (r, s') = seal S s aad pt in
      let (rest, end) = send_all s' messages in (release aad pt r rest, end)

  -- Opens what was released, in order.
  unfoldable pub receive_all :
      ReceiverContext K F S.aead → List Delivery → List (Result Bytes) × ReceiverContext K F S.aead
  receive_all r [] = ([], r)
  receive_all r (d ∷ deliveries) =
      let (out, r') = open_ct S r d.aad d.sealed in
      let (rest, end) = receive_all r' deliveries in (out ∷ rest, end)

  module _ (lawful : SealsLawfully S) where
    -- With a lawful cipher, from a well-formed sender context: whatever the sender seals, failed
    -- attempts included, a receiver in the sender's first state opens in the order of release,
    -- gets every plaintext, and ends in the sender's last state.
    pub receive_all-send_all :
        (s : SenderContext K F S.aead) (messages : List (Bytes × Bytes))
        → IsWellFormed s.inner
        → let (deliveries, end) = send_all s messages in
          receive_all (new_receiver s.inner) deliveries
          ≡ (map (λ d. ok d.plain) deliveries, new_receiver end.inner)
    unfolding send_all receive_all seal open_ct
    receive_all-send_all s [] wf = refl
    receive_all-send_all s ((aad, pt) ∷ messages) wf =
        let next = Context.seal S s.inner aad pt in
        let wf' = seal-IsWellFormed S lawful s.inner aad pt wf in
        let rest = receive_all-send_all (new_sender next.1) messages wf' in
        let later = send_all (new_sender next.1) messages in
        let unchanged_rest : next.1 ≡ s.inner
            → receive_all (new_receiver s.inner) later.0
              ≡ (map (λ d. ok d.plain) later.0, new_receiver later.1.inner) =
          λ same.
            subst
              (λ c.
                receive_all (new_receiver c) later.0
                ≡ (map (λ d. ok d.plain) later.0, new_receiver later.1.inner))
              same rest in
        elim (Result-cases next.0) [
          | inl (ct, e) ↦
              let opened =
                open_ct-seal S lawful s.inner next.1 aad pt {ct = ct} wf (λ i. (e i, next.1)) in
              rw (e, opened) (λ i. (ok pt ∷ (rest i).0, (rest i).1))
          | inr (inl (x, e)) ↦ rw e (
              unchanged_rest
                (seal_failed S lawful s.inner aad pt wf (λ ct h. err-ne-ok (sym e ∙ h))))
          | inr (inr e) ↦ rw e (
              unchanged_rest
                (seal_failed S lawful s.inner aad pt wf (λ ct h. panic-ne-ok (sym e ∙ h))))
        ]
