-- ===== src/Context/Roles/Channel/Queue.antt =====
-- src/context.rs: proofs that the two contexts of a channel are a queue of messages.
use mathlib.Core.List.{map, map-append}
use hpke_ng.Base.{List, [], ◌∷◌, ◌++◌, ◌≡◌, refl, ap, sym, subst, ◌∙◌, drop}
use hpke_ng.Bytes.{Bytes}
use hpke_ng.Error.{ok}
use hpke_ng.Kdf.{Kdf}
use hpke_ng.Aead.{SealingAead, SealsLawfully}
use hpke_ng.Kem.{CryptoRng, Kem}
use hpke_ng.Context.{Context}
use hpke_ng.Context.Nonce.{IsWellFormed}
use hpke_ng.Context.Roles.{SenderContext, ReceiverContext, new_receiver, open_ct}
use hpke_ng.Context.Roles.Ends.{opened, sealed-IsWellFormed, opened-IsWellFormed, unsent, unopened}
use hpke_ng.Context.Roles.Streams.{Delivery, receive_all}
use hpke_ng.Context.Roles.Limit.{message}
use hpke_ng.Context.Roles.Channel.{
  Event, Fifo, Channel, Step, Steps, delivery, queue, start, whole, sends, fails_to_send, delivers,
  refuses, idle, stay, done, next,
}

module _ {R : CryptoRng} {K : Kem R} {F : Kdf} (S : SealingAead) where
  -- What the receiver makes of the messages in flight.
  pub record InSync (c : Channel K F S.aead) : Type 0 where
    pub sender_wf : IsWellFormed c.sender.inner
    pub receiver_wf : IsWellFormed c.receiver.inner
    pub catches_up :
        receive_all S c.receiver c.in_flight
        ≡ (map (λ d. ok d.plain) c.in_flight, new_receiver c.sender.inner)

  receive_all-append :
      (r : ReceiverContext K F S.aead) (ds es : List Delivery)
      → receive_all S r (ds ++ es) ≡ (
        (receive_all S r ds).0 ++ (receive_all S (receive_all S r ds).1 es).0,
        (receive_all S (receive_all S r ds).1 es).1,
      )
  unfolding receive_all
  receive_all-append r [] es = refl
  receive_all-append r (d ∷ ds) es =
      let out = open_ct S r d.aad d.sealed in
      ap (λ p. (out.0 ∷ p.0, p.1)) (receive_all-append out.1 ds es)

  start-InSync : (c : Context K F S.aead) → IsWellFormed c → InSync (start S c)
  unfolding receive_all
  start-InSync c wf = record { sender_wf = wf; receiver_wf = wf; catches_up = refl }

  module _ (lawful : SealsLawfully S) where
    -- The head of what is in flight is what the receiver gets.
    first-opened :
        (s : SenderContext K F S.aead) (d : Delivery) (ds : List Delivery)
        (r : ReceiverContext K F S.aead)
        → InSync (record { sender = s; in_flight = d ∷ ds; receiver = r })
        → (open_ct S r d.aad d.sealed).0 ≡ ok d.plain
    unfolding receive_all
    first-opened s d ds r h = let outs = ap (λ p. p.0) h.catches_up in cc

    Step-InSync :
        {c d : Channel K F S.aead} {event : Event} → Step S c event d → InSync c → InSync d
    unfolding receive_all
    Step-InSync (sends c aad pt ct s sealed) h = record {
      sender_wf =
          subst (λ p. IsWellFormed p.1.inner) sealed
            (sealed-IsWellFormed S lawful c.sender aad pt h.sender_wf);
      receiver_wf = h.receiver_wf;
      catches_up =
          receive_all-append c.receiver c.in_flight (delivery aad pt ct ∷ [])
          ∙ rw (
            h.catches_up,
            opened S lawful c.sender s aad pt ct h.sender_wf sealed,
            map-append (λ d. ok d.plain) c.in_flight (delivery aad pt ct ∷ []),
          );
    }
    Step-InSync (fails_to_send c aad pt refused) h =
        subst (λ s. InSync (record c { sender = s }))
          (sym (unsent S lawful c.sender aad pt h.sender_wf refused)) h
    Step-InSync (delivers s d ds r) h = record {
      sender_wf = h.sender_wf;
      receiver_wf = opened-IsWellFormed S lawful r d.aad d.sealed h.receiver_wf;
      catches_up = ap (λ p. (drop 1 p.0, p.1)) h.catches_up;
    }
    Step-InSync (refuses c aad ct refused) h =
        subst (λ r. InSync (record c { receiver = r }))
          (sym (unopened S lawful c.receiver aad ct h.receiver_wf refused)) h

    Step-Fifo :
        {c d : Channel K F S.aead} {event : Event} {events : List Event} {q : List (Bytes × Bytes)}
        → Step S c event d
        → InSync c
        → Fifo (queue S d) events q
        → Fifo (queue S c) (event ∷ events) q
    Step-Fifo {events = events} {q = q} (sends c aad pt ct s sealed) h rest = Fifo.push aad pt (
        subst (λ waiting. Fifo waiting events q)
          (map-append message c.in_flight (delivery aad pt ct ∷ [])) rest)
    Step-Fifo (fails_to_send c aad pt refused) h rest = stay rest
    Step-Fifo (delivers s d ds r) h rest =
        rw (first-opened s d ds r h) (Fifo.pop d.aad d.plain rest)
    Step-Fifo (refuses c aad ct refused) h rest = stay rest

    Steps-Fifo :
        {c d : Channel K F S.aead} {events : List Event}
        → Steps S c events d
        → InSync c
        → Fifo (queue S c) events (queue S d)
    Steps-Fifo done h = idle
    Steps-Fifo (next step rest) h = Step-Fifo step h (Steps-Fifo rest (Step-InSync step h))

    -- With a lawful cipher, for a sender and a receiver that share a well-formed context, over a
    -- transport that keeps the order and adds only messages that the receiver refuses: in every
    -- run, attempts to send that fail included, the messages sent and the results received are
    -- those of a queue, first in, first out. Every released message that arrives opens to the
    -- plaintext that was sent.
    pub Channel-Fifo :
        {c : Context K F S.aead} {d : Channel K F S.aead} {events : List Event}
        → IsWellFormed c
        → Steps S (start S c) events d
        → Fifo [] events (queue S d)
    Channel-Fifo {c = c} wf steps = Steps-Fifo steps (start-InSync c wf)

    drains :
        (s : SenderContext K F S.aead) (ds : List Delivery) (r : ReceiverContext K F S.aead)
        → InSync (record { sender = s; in_flight = ds; receiver = r })
        → Steps S
            (record { sender = s; in_flight = ds; receiver = r })
            (map whole (map message ds))
            (start S s.inner)
    unfolding receive_all
    drains s [] r h =
        subst
          (λ r'.
            Steps S (record { sender = s; in_flight = []; receiver = r }) []
              (record { sender = s; in_flight = []; receiver = r' }))
          (ap (λ p. p.1) h.catches_up) done
    drains s (d ∷ ds) r h =
        let step = delivers s d ds r in
        subst
          (λ out.
            Steps S (record { sender = s; in_flight = d ∷ ds; receiver = r })
              (Event.received d.aad out ∷ map whole (map message ds)) (start S s.inner))
          (first-opened s d ds r h)
          (next step (drains s ds (open_ct S r d.aad d.sealed).1 (Step-InSync step h)))

    Steps-InSync :
        {c d : Channel K F S.aead} {events : List Event} → Steps S c events d → InSync c → InSync d
    Steps-InSync done h = h
    Steps-InSync (next step rest) h = Steps-InSync rest (Step-InSync step h)

    -- With a lawful cipher, from the start of a channel whose two ends share a well-formed
    -- context: at every point of a run, the receiver can open the messages in flight one after the
    -- other, gets each as it was sent, and then both ends hold the sender's context again, which
    -- is a start of the channel.
    pub Channel-drains :
        {c : Context K F S.aead} {d : Channel K F S.aead} {events : List Event}
        → IsWellFormed c
        → Steps S (start S c) events d
        → Steps S d (map whole (queue S d)) (start S d.sender.inner)
    Channel-drains {c = c} {d = d} wf steps =
        drains d.sender d.in_flight d.receiver (Steps-InSync steps (start-InSync c wf))
