-- ===== src/Context/Roles/Limit.antt =====
-- src/context.rs: proofs on how many messages a sender seals.
use mathlib.Core.List.{map}
use hpke_ng.Base.{
  suc, ◌+◌, ◌-◌, ◌≡◌, refl, sym, ap, ◌∙◌, List, [], ◌∷◌, Bool-cases, inl, inr, ◌==◌, true, false,
  subst, take_all, length, take, length-take, ==_iff, ◌≤◌, length-take_le, arith,
}
use hpke_ng.Bytes.{Bytes, to_be_bytes}
use hpke_ng.Bytes.Xor.{length-xor_bytes}
use hpke_ng.Error.{ok, err, message_limit_reached}
use hpke_ng.Kdf.{Kdf}
use hpke_ng.Aead.{SealingAead, SealsLawfully, Takes}
use hpke_ng.Kem.{CryptoRng, Kem}
use hpke_ng.Context
use hpke_ng.Context.{Context, u64_max}
use hpke_ng.Context.Nonce.{IsWellFormed, rfc_nonce}
use hpke_ng.Context.Steps.{counted, rfc_seal, seal-rfc_seal, seal-IsWellFormed}
use hpke_ng.Context.Roles.{SenderContext, new_sender, seal}
use hpke_ng.Context.Roles.Streams.{Delivery, release, send_all}

-- The messages are ones that the cipher takes.
abbrev pub TakesAll : SealingAead → List (Bytes × Bytes) → Type 0
TakesAll S [] = Unit
TakesAll S ((aad, pt) ∷ messages) = Takes S aad pt × TakesAll S messages

-- The message that a delivery holds, as it was given.
abbrev pub message : Delivery → Bytes × Bytes
message d = (d.aad, d.plain)

message_count : (ds : List Delivery) → length (map message ds) ≡ length ds
message_count [] = refl
message_count (d ∷ ds) = ap suc (message_count ds)

module _ {R : CryptoRng} {K : Kem R} {F : Kdf} (S : SealingAead) (lawful : SealsLawfully S) where
  -- Below the limit a message that the cipher takes is sealed and counted.
  pub seal_taken :
      (c : Context K F S.aead) (aad pt : Bytes)
      → IsWellFormed c
      → (c.seq == u64_max) ≡ false
      → Takes S aad pt
      → (ct : Bytes) × (Context.seal S c aad pt ≡ (ok ct, record c { seq = c.seq + 1 }))
        × (S.seal c.cipher (rfc_nonce c.base_nonce S.aead.nonce_len c.seq) aad pt ≡ ok ct)
  unfolding rfc_seal counted rfc_nonce
  seal_taken c aad pt wf room takes =
      let nn = S.aead.nonce_len in
      let size : length (rfc_nonce c.base_nonce nn c.seq) ≡ nn =
        length-xor_bytes (take nn c.base_nonce) (to_be_bytes nn c.seq)
        ∙ length-take_le nn c.base_nonce
            (omega (arith, wf.nonce_size, lawful.is_lawful.nonce_len_bound)) in
      let (ct, encrypted) = takes c.cipher (rfc_nonce c.base_nonce nn c.seq) size in
      (ct, seal-rfc_seal S lawful c aad pt wf ∙ rw (room, encrypted), encrypted)

  seal_full :
      (c : Context K F S.aead) (aad pt : Bytes)
      → IsWellFormed c
      → (c.seq == u64_max) ≡ true
      → Context.seal S c aad pt ≡ (err message_limit_reached, c)
  unfolding rfc_seal
  seal_full c aad pt wf full = seal-rfc_seal S lawful c aad pt wf ∙ rw full

  -- With a lawful cipher, from a well-formed sender context, for messages that the cipher takes:
  -- the sender releases exactly the first of them, in order, as many as its counter is below 2^64
  -- - 1, and its counter goes up by one for each.
  pub send_all-limit :
      (s : SenderContext K F S.aead) (messages : List (Bytes × Bytes))
      → IsWellFormed s.inner
      → TakesAll S messages
      → let (deliveries, end) = send_all S s messages in
        (map message deliveries ≡ take (u64_max - s.inner.seq) messages)
        × (end.inner.seq ≡ s.inner.seq + length deliveries)
  unfolding send_all seal release
  send_all-limit s [] wf takes =
      (sym (take_all [] (u64_max - s.inner.seq) (omega arith)), omega arith)
  send_all-limit s ((aad, pt) ∷ messages) wf (taken, takes) =
      elim (Bool-cases (s.inner.seq == u64_max)) [
        | inl full ↦
            let (same, counted) = send_all-limit s messages wf takes in
            let none_left : u64_max - s.inner.seq ≡ 0 = ground arith in
            rw (seal_full s.inner aad pt wf full) (same ∙ rw none_left, counted)
        | inr room ↦
            let (ct, sealed, encrypted) = seal_taken s.inner aad pt wf room taken in
            let next : Context K F S.aead = record s.inner { seq = s.inner.seq + 1 } in
            let wf' : IsWellFormed next =
              subst (λ r. IsWellFormed r.1) sealed (seal-IsWellFormed S lawful s.inner aad pt wf) in
            let (same, counted) = send_all-limit (new_sender next) messages wf' takes in
            let one_more : u64_max - s.inner.seq ≡ suc (u64_max - (s.inner.seq + 1)) =
              ground (arith, wf.seq_bound) in
            rw sealed (rw one_more (ap (◌∷◌ (aad, pt)) same), counted ∙ omega arith)
      ]

  -- A sender that is given enough messages ends at the limit.
  send_all_used_up :
      (s : SenderContext K F S.aead) (messages : List (Bytes × Bytes))
      → IsWellFormed s.inner
      → TakesAll S messages
      → u64_max ≤ s.inner.seq + length messages
      → (send_all S s messages).1.inner.seq ≡ u64_max
  send_all_used_up s messages wf takes enough =
      let (same, counted) = send_all-limit s messages wf takes in
      let released = ap length same in
      omega (
        arith,
        counted,
        released,
        message_count (send_all S s messages).0,
        length-take (u64_max - s.inner.seq) messages,
        wf.seq_bound,
        enough,
      )

  send_all-IsWellFormed :
      (s : SenderContext K F S.aead) (messages : List (Bytes × Bytes))
      → IsWellFormed s.inner
      → IsWellFormed (send_all S s messages).1.inner
  unfolding send_all seal
  send_all-IsWellFormed s [] wf = wf
  send_all-IsWellFormed s ((aad, pt) ∷ messages) wf =
      send_all-IsWellFormed (new_sender (Context.seal S s.inner aad pt).1) messages
        (seal-IsWellFormed S lawful s.inner aad pt wf)

  -- With a lawful cipher, from a well-formed sender context: once it has been given messages that
  -- the cipher takes, as many as its counter is below 2^64 - 1 or more, a sender gives
  -- `MessageLimitReached` for every further message and stays as it is.
  pub send_all-exhausted :
      (s : SenderContext K F S.aead) (messages : List (Bytes × Bytes)) (aad pt : Bytes)
      → IsWellFormed s.inner
      → TakesAll S messages
      → u64_max ≤ s.inner.seq + length messages
      → let end = (send_all S s messages).1 in seal S end aad pt ≡ (err message_limit_reached, end)
  unfolding seal
  send_all-exhausted s messages aad pt wf takes enough =
      let end = (send_all S s messages).1 in
      let full : (end.inner.seq == u64_max) ≡ true =
        (==_iff _ _).1 (send_all_used_up s messages wf takes enough) in
      rw (seal_full end.inner aad pt (send_all-IsWellFormed s messages wf) full)
