-- ===== src/Context/Roles/Noise.antt =====
-- src/context.rs: a receiver that is given forged or damaged messages among the sender's.
use mathlib.Core.List.{map}
use hpke_ng.Base.{List, [], ◌∷◌, ◌≡◌, ◌≢◌, refl, ap, ◌∙◌}
use hpke_ng.Bytes.{Bytes}
use hpke_ng.Error.{Result, ok, err, panic}
use hpke_ng.Kdf.{Kdf}
use hpke_ng.Aead.{SealingAead, SealsLawfully}
use hpke_ng.Kem.{CryptoRng, Kem}
use hpke_ng.Context.Nonce.{IsWellFormed}
use hpke_ng.Context.Roles.{SenderContext, ReceiverContext, new_receiver, open_ct}
use hpke_ng.Context.Roles.Ends.{unopened, opened-IsWellFormed}
use hpke_ng.Context.Roles.Streams.{Delivery, send_all, receive_all, receive_all-send_all}

-- A result that is a plaintext is kept.
unfoldable pub keep : Result Bytes → List Bytes → List Bytes
keep (ok pt) rest = pt ∷ rest
keep (err e) rest = rest
keep panic rest = rest

unfoldable pub accepted : List (Result Bytes) → List Bytes
unfolding keep
accepted [] = []
accepted (r ∷ rs) = keep r (accepted rs)

keep_none : (r : Result Bytes) (rest : List Bytes) → ((pt : Bytes) → r ≢ ok pt) → keep r rest ≡ rest
unfolding keep
keep_none (ok pt) rest h = absurd (h pt refl)
keep_none (err e) rest h = refl
keep_none panic rest h = refl

accepted_all : (ds : List Delivery) → accepted (map (λ d. ok d.plain) ds) ≡ map (λ d. d.plain) ds
unfolding accepted keep
accepted_all [] = refl
accepted_all (d ∷ ds) = ap (◌∷◌ d.plain) (accepted_all ds)

module _ {R : CryptoRng} {K : Kem R} {F : Kdf} (S : SealingAead) where
  -- Opens what arrives, pairs of associated data and ciphertext, and keeps the plaintexts.
  unfoldable pub accept_all :
      ReceiverContext K F S.aead → List (Bytes × Bytes) → List Bytes × ReceiverContext K F S.aead
  unfolding keep
  accept_all r [] = ([], r)
  accept_all r ((aad, ct) ∷ arrivals) =
      let (out, r') = open_ct S r aad ct in
      let (rest, end) = accept_all r' arrivals in (keep out rest, end)

  -- What arrives is the deliveries in their order, with messages between them that do not open.
  pub data Arrives
      : ReceiverContext K F S.aead → List Delivery → List (Bytes × Bytes) → Type 0 where
    nothing : {r : ReceiverContext K F S.aead} → Arrives r [] []
    noise :
        {r : ReceiverContext K F S.aead} {ds : List Delivery} {arrivals : List (Bytes × Bytes)}
        (aad ct : Bytes)
        → ((pt : Bytes) → (open_ct S r aad ct).0 ≢ ok pt)
        → Arrives r ds arrivals
        → Arrives r ds ((aad, ct) ∷ arrivals)
    genuine :
        {r : ReceiverContext K F S.aead} {ds : List Delivery} {arrivals : List (Bytes × Bytes)}
        (d : Delivery)
        → Arrives (open_ct S r d.aad d.sealed).1 ds arrivals
        → Arrives r (d ∷ ds) ((d.aad, d.sealed) ∷ arrivals)

  module _ (lawful : SealsLawfully S) where
    -- The noise changes neither what is accepted nor where the receiver ends.
    accept_all-receive_all :
        (r : ReceiverContext K F S.aead) {ds : List Delivery} {arrivals : List (Bytes × Bytes)}
        → IsWellFormed r.inner
        → Arrives r ds arrivals
        → accept_all r arrivals ≡ (accepted (receive_all S r ds).0, (receive_all S r ds).1)
    unfolding accept_all receive_all accepted
    accept_all-receive_all r wf nothing = refl
    accept_all-receive_all r wf (noise {ds = ds} {arrivals = arrivals} aad ct refused rest) =
        let out = open_ct S r aad ct in
        let same : out.1 ≡ r = unopened S lawful r aad ct wf refused in
        let tail = accept_all-receive_all r wf rest in
        rw (same, keep_none out.0 (accept_all r arrivals).0 refused) tail
    accept_all-receive_all r wf (genuine {ds = ds} {arrivals = arrivals} d rest) =
        let out = open_ct S r d.aad d.sealed in
        let wf' : IsWellFormed out.1.inner = opened-IsWellFormed S lawful r d.aad d.sealed wf in
        ap (λ p. (keep out.0 p.0, p.1)) (accept_all-receive_all out.1 wf' rest)

    -- With a lawful cipher, from a well-formed sender context: whatever the sender seals, a
    -- receiver in the sender's first state that is given the released messages in their order,
    -- with any number of others between them that do not open, accepts exactly the sender's
    -- plaintexts in order and ends in the sender's last state.
    pub accept_all-send_all :
        (s : SenderContext K F S.aead) (messages arrivals : List (Bytes × Bytes))
        → IsWellFormed s.inner
        → let (deliveries, end) = send_all S s messages in
          Arrives (new_receiver s.inner) deliveries arrivals
          → accept_all (new_receiver s.inner) arrivals
            ≡ (map (λ d. d.plain) deliveries, new_receiver end.inner)
    accept_all-send_all s messages arrivals wf arrives =
        accept_all-receive_all (new_receiver s.inner) wf arrives
        ∙ rw (receive_all-send_all S lawful s messages wf, accepted_all (send_all S s messages).0)
