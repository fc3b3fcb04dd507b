-- ===== src/Context/Steps.antt =====
-- src/context.rs: proofs on `seal` and `open`, beside RFC 9180 §5.2.
use hpke_ng.Base.{
  ◌+◌, ◌%◌, ◌^◌, false, ◌≤◌, ◌≡◌, ◌≢◌, refl, Bool-cases, inl, inr, ◌==◌, if◌then◌else◌, arith,
}
use hpke_ng.Bytes.{Bytes}
use hpke_ng.Error.{Result, ok, err, panic, message_limit_reached}
use hpke_ng.Kdf.{Kdf}
use hpke_ng.Aead.{SealingAead, SealsLawfully}
use hpke_ng.Kem.{CryptoRng, Kem}
use hpke_ng.Context.{Context, u64_max, advance, seal, open_ct}
use hpke_ng.Context.Nonce.{IsWellFormed, rfc_nonce, compute_nonce-rfc}

module _ {R : CryptoRng} {K : Kem R} {F : Kdf} (S : SealingAead) where
  -- RFC 9180 §5.2, `IncrementSeq` after a success, and no change after a failure.
  unfoldable pub counted : Context K F S.aead → Result Bytes → Result Bytes × Context K F S.aead
  counted c (ok out) = (ok out, record c { seq = c.seq + 1 })
  counted c (err e) = (err e, c)
  counted c panic = (panic, c)

  -- RFC 9180 §5.2 with the counter checked first.
  unfoldable pub rfc_seal : Context K F S.aead → Bytes → Bytes → Result Bytes × Context K F S.aead
  unfolding counted
  rfc_seal c aad pt =
      if c.seq == u64_max
      then (err message_limit_reached, c)
      else counted c (S.seal c.cipher (rfc_nonce c.base_nonce S.aead.nonce_len c.seq) aad pt)

  unfoldable pub rfc_open : Context K F S.aead → Bytes → Bytes → Result Bytes × Context K F S.aead
  unfolding counted
  rfc_open c aad ct =
      if c.seq == u64_max
      then (err message_limit_reached, c)
      else counted c (S.open_ct c.cipher (rfc_nonce c.base_nonce S.aead.nonce_len c.seq) aad ct)

module _ {R : CryptoRng} {K : Kem R} {F : Kdf} (S : SealingAead) (lawful : SealsLawfully S) where
  advance-counted :
      (c : Context K F S.aead) (r : Result Bytes)
      → c.seq ≤ u64_max
      → c.seq ≢ u64_max
      → advance c r ≡ counted S c r
  unfolding advance counted
  advance-counted c (ok out) h n =
      let no_wrap : (c.seq + 1) % 2 ^ 64 ≡ c.seq + 1 = omega arith in
      λ i. (ok out, record c { seq = no_wrap i })
  advance-counted c (err e) h n = refl
  advance-counted c panic h n = refl

  not_max : (c : Context K F S.aead) → (c.seq == u64_max) ≡ false → c.seq ≢ u64_max
  not_max c h = ground arith

  -- With a lawful cipher, `seal` on a well-formed context is the RFC's on every branch: it refuses
  -- at the last counter value before encrypting; else it encrypts under the RFC's nonce and counts
  -- a success without a wrap, and a failure leaves the context as it was.
  pub seal-rfc_seal :
      (c : Context K F S.aead) (aad pt : Bytes)
      → IsWellFormed c
      → seal S c aad pt ≡ rfc_seal S c aad pt
  unfolding seal rfc_seal
  seal-rfc_seal c aad pt wf = elim (Bool-cases (c.seq == u64_max)) [
    | inl full ↦ rw full
    | inr room ↦
        let (nonce, given, spec) =
          compute_nonce-rfc lawful.seq_fits lawful.is_lawful.nonce_len_bound c wf in
        rw (room, given, spec) (advance-counted c _ wf.seq_bound (not_max c room))
  ]

  -- With a lawful cipher, `open` on a well-formed context is the RFC's on every branch: it refuses
  -- at the last counter value before decrypting; else it decrypts under the RFC's nonce and counts
  -- a success without a wrap, and a failure leaves the context as it was.
  pub open_ct-rfc_open :
      (c : Context K F S.aead) (aad ct : Bytes)
      → IsWellFormed c
      → open_ct S c aad ct ≡ rfc_open S c aad ct
  unfolding open_ct rfc_open
  open_ct-rfc_open c aad ct wf = elim (Bool-cases (c.seq == u64_max)) [
    | inl full ↦ rw full
    | inr room ↦
        let (nonce, given, spec) =
          compute_nonce-rfc lawful.seq_fits lawful.is_lawful.nonce_len_bound c wf in
        rw (room, given, spec) (advance-counted c _ wf.seq_bound (not_max c room))
  ]

  -- `seal` and `open` keep a context well-formed, whatever the result: the counter does not wrap.
  counted-IsWellFormed :
      (c : Context K F S.aead) (r : Result Bytes)
      → c.seq ≢ u64_max
      → IsWellFormed c
      → IsWellFormed (counted S c r).1
  unfolding counted
  counted-IsWellFormed c (ok out) n wf = record {
    nonce_size = wf.nonce_size;
    seq_bound = omega (arith, wf.seq_bound);
  }
  counted-IsWellFormed c (err e) n wf = wf
  counted-IsWellFormed c panic n wf = wf

  -- With a lawful cipher, `seal` keeps a context well-formed, whatever its result: the buffer
  -- keeps its 12 bytes and the counter stays a `u64`.
  pub seal-IsWellFormed :
      (c : Context K F S.aead) (aad pt : Bytes) → IsWellFormed c → IsWellFormed (seal S c aad pt).1
  unfolding rfc_seal
  seal-IsWellFormed c aad pt wf =
      rw (seal-rfc_seal c aad pt wf) elim (Bool-cases (c.seq == u64_max)) [
        | inl full ↦ rw full wf
        | inr room ↦ rw room (counted-IsWellFormed c _ (not_max c room) wf)
      ]

  -- With a lawful cipher, `open` keeps a context well-formed, whatever its result: the buffer
  -- keeps its 12 bytes and the counter stays a `u64`.
  pub open_ct-IsWellFormed :
      (c : Context K F S.aead) (aad ct : Bytes)
      → IsWellFormed c
      → IsWellFormed (open_ct S c aad ct).1
  unfolding rfc_open
  open_ct-IsWellFormed c aad ct wf =
      rw (open_ct-rfc_open c aad ct wf) (elim (Bool-cases (c.seq == u64_max)) [
        | inl full ↦ rw full wf
        | inr room ↦ rw room (counted-IsWellFormed c _ (not_max c room) wf)
      ])
