-- ===== src/Context/Roles/Channel.antt =====
-- src/context.rs: a sender and a receiver context with an ordered transport between them.
pub mod Queue
pub mod Exports
use mathlib.Core.List.{map}
use hpke_ng.Base.{drop, List, [], ◌∷◌, ◌++◌, ◌≡◌, ◌≢◌, refl, ap, sym, subst, ◌∙◌}
use hpke_ng.Bytes.{Bytes}
use hpke_ng.Error.{Result, ok}
use hpke_ng.Kdf.{Kdf}
use hpke_ng.Aead.{Aead, SealingAead, SealsLawfully}
use hpke_ng.Kem.{CryptoRng, Kem}
use hpke_ng.Context.{Context}
use hpke_ng.Context.Roles.{SenderContext, ReceiverContext, new_sender, new_receiver, seal, open_ct}
use hpke_ng.Context.Roles.Streams.{Delivery, receive_all}
use hpke_ng.Context.Roles.Limit.{message}

-- What an observer of the two ends sees of a step.
pub data Event : Type 0 where
  sent : Bytes → Bytes → Event
  received : Bytes → Result Bytes → Event
  silent : Event

-- A message that comes out as it was sent.
abbrev pub whole : Bytes × Bytes → Event
whole (aad, pt) = Event.received aad (ok pt)

-- The abstract channel: a queue of messages, pairs of associated data and plaintext. What comes out
-- is the message that has waited longest, and it always comes out whole.
pub data Fifo : List (Bytes × Bytes) → List Event → List (Bytes × Bytes) → Type 0 where
  idle : {q : List (Bytes × Bytes)} → Fifo q [] q
  push :
      {q q' : List (Bytes × Bytes)} {es : List Event} (aad pt : Bytes)
      → Fifo (q ++ (aad, pt) ∷ []) es q'
      → Fifo q (Event.sent aad pt ∷ es) q'
  pop :
      {q q' : List (Bytes × Bytes)} {es : List Event} (aad pt : Bytes)
      → Fifo q es q'
      → Fifo ((aad, pt) ∷ q) (Event.received aad (ok pt) ∷ es) q'
  stay : {q q' : List (Bytes × Bytes)} {es : List Event} → Fifo q es q' → Fifo q (silent ∷ es) q'

abbrev pub delivery : Bytes → Bytes → Bytes → Delivery
delivery aad pt ct = record { aad = aad; plain = pt; sealed = ct }

-- The two ends, and the released messages that have not arrived.
pub record Channel {R : CryptoRng} (K : Kem R) (F : Kdf) (A : Aead) : Type 0 where
  pub sender : SenderContext K F A
  pub in_flight : List Delivery
  pub receiver : ReceiverContext K F A

module _ {R : CryptoRng} {K : Kem R} {F : Kdf} (S : SealingAead) where
  -- The sender seals, or fails to; the receiver opens the next message in flight, or refuses
  -- whatever else arrives.
  pub data Step : Channel K F S.aead → Event → Channel K F S.aead → Type 0 where
    sends :
        (c : Channel K F S.aead) (aad pt ct : Bytes) (s : SenderContext K F S.aead)
        → seal S c.sender aad pt ≡ (ok ct, s)
        → Step c (Event.sent aad pt) (record {
          sender = s;
          in_flight = c.in_flight ++ delivery aad pt ct ∷ [];
          receiver = c.receiver;
        })
    fails_to_send :
        (c : Channel K F S.aead) (aad pt : Bytes)
        → ((ct : Bytes) → (seal S c.sender aad pt).0 ≢ ok ct)
        → Step c silent (record c { sender = (seal S c.sender aad pt).1 })
    delivers :
        (s : SenderContext K F S.aead) (d : Delivery) (ds : List Delivery)
        (r : ReceiverContext K F S.aead)
        → Step
            (record { sender = s; in_flight = d ∷ ds; receiver = r })
            (Event.received d.aad (open_ct S r d.aad d.sealed).0)
            (record { sender = s; in_flight = ds; receiver = (open_ct S r d.aad d.sealed).1 })
    refuses :
        (c : Channel K F S.aead) (aad ct : Bytes)
        → ((pt : Bytes) → (open_ct S c.receiver aad ct).0 ≢ ok pt)
        → Step c silent (record c { receiver = (open_ct S c.receiver aad ct).1 })

  -- A run of steps, with what an observer sees of it.
  pub data Steps : Channel K F S.aead → List Event → Channel K F S.aead → Type 0 where
    done : {c : Channel K F S.aead} → Steps c [] c
    next :
        {c d e : Channel K F S.aead} {event : Event} {events : List Event}
        → Step c event d
        → Steps d events e
        → Steps c (event ∷ events) e

  abbrev pub start : Context K F S.aead → Channel K F S.aead
  start c = record { sender = new_sender c; in_flight = []; receiver = new_receiver c }

  -- The messages in flight, as they were given to the sender.
  abbrev pub queue : Channel K F S.aead → List (Bytes × Bytes)
  queue c = map message c.in_flight
