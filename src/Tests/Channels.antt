-- ===== src/Tests/Channels.antt =====
-- Examples on a channel between two contexts.
use mathlib.Core.List.{map}
use hpke_ng.Base.{List, [], ◌∷◌, refl}
use hpke_ng.Bytes.{literal, xor_bytes, to_be_bytes, eq_bytes}
use hpke_ng.Aead.Ciphers.{cipher_seal, cipher_open}
use hpke_ng.Context
use hpke_ng.Context.{compute_nonce}
use hpke_ng.Context.Roles
use hpke_ng.Context.Roles.{new_sender, new_receiver}
use hpke_ng.Context.Roles.Channel.{
  Event, Fifo, Channel, Steps, sends, delivers, refuses, done, next, silent, delivery, queue, start,
  whole,
}
use hpke_ng.Context.Roles.Channel.Queue.{Channel-Fifo, Channel-drains}
use hpke_ng.Tests.Crates.{kdf, cipher, cipher-SealsLawfully}
use hpke_ng.Tests.Group.{kem}
use hpke_ng.Tests.Contexts.{
  context_at, fresh-IsWellFormed, forged, forged_refused, first_sealed, second_sealed,
}

abbrev events : List Event
events =
    Event.sent (literal "a") (literal "first")
    ∷ silent
    ∷ Event.sent (literal "b") (literal "second")
    ∷ whole (literal "a", literal "first")
    ∷ []

-- The second message is in flight.
abbrev one_waiting : Channel kem.kem kdf cipher.aead
one_waiting = record {
  sender = new_sender (context_at 2);
  in_flight = delivery (literal "b") (literal "second") second_sealed ∷ [];
  receiver = new_receiver (context_at 1);
}

-- Two messages are sent, a forged one arrives between them, and then the first.
two_sent : Steps cipher (start cipher (context_at 0)) events one_waiting
unfolding Roles.seal Context.seal Roles.open_ct Context.open_ct compute_nonce xor_bytes to_be_bytes
    cipher_seal cipher_open eq_bytes
two_sent =
    next (sends _ (literal "a") (literal "first") first_sealed (new_sender (context_at 1)) refl) (
      next (refuses _ (literal "a") forged forged_refused) (
        next
          (sends _ (literal "b") (literal "second") second_sealed (new_sender (context_at 2)) refl)
          (next (delivers _ _ _ _) done)))

Channel-Fifo_example : Fifo [] events ((literal "b", literal "second") ∷ [])
Channel-Fifo_example = Channel-Fifo cipher cipher-SealsLawfully fresh-IsWellFormed two_sent

Channel-drains_example :
    Steps cipher one_waiting (map whole (queue cipher one_waiting)) (start cipher (context_at 2))
Channel-drains_example = Channel-drains cipher cipher-SealsLawfully fresh-IsWellFormed two_sent
