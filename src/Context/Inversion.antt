-- ===== src/Context/Inversion.antt =====
-- src/context.rs: proofs on what a call that succeeds has done, and on what the other end does.
use hpke_ng.Base.{◌+◌, false, ◌≡◌, ◌≢◌, refl, sym, ◌∙◌, Bool-cases, inl, inr, ◌==◌, arith}
use hpke_ng.Bytes.{Bytes}
use hpke_ng.Error.{Result, ok, err, panic, message_limit_reached}
use hpke_ng.Kdf.{Kdf}
use hpke_ng.Aead.{SealingAead, SealsLawfully}
use hpke_ng.Kem.{CryptoRng, Kem}
use hpke_ng.Context.{Context, u64_max, seal, open_ct}
use hpke_ng.Context.Nonce.{IsWellFormed, rfc_nonce}
use hpke_ng.Context.Steps.{counted, rfc_seal, rfc_open, seal-rfc_seal, open_ct-rfc_open}

module _ {R : CryptoRng} {K : Kem R} {F : Kdf} (S : SealingAead) where
  -- A seal that succeeded: the counter was below the limit, the cipher encrypted under the nonce
  -- of the counter, and only the counter changed.
  pub record Sealed (c c' : Context K F S.aead) (aad pt ct : Bytes) : Type 0 where
    pub below : c.seq ≢ u64_max
    pub encrypted : S.seal c.cipher (rfc_nonce c.base_nonce S.aead.nonce_len c.seq) aad pt ≡ ok ct
    pub next : c' ≡ record c { seq = c.seq + 1 }

  counted_ok :
      (c c' : Context K F S.aead) (r : Result Bytes) {out : Bytes}
      → counted S c r ≡ (ok out, c')
      → (r ≡ ok out) × (c' ≡ record c { seq = c.seq + 1 })
  unfolding counted
  counted_ok c c' (ok o) h = (λ i. (h i).0, sym (λ i. (h i).1))
  counted_ok c c' (err e) {out} h =
      let e : ◌≡◌ {A = Result Bytes} (err e) (ok out) = λ i. (h i).0 in cc
  counted_ok c c' panic {out} h = let e : ◌≡◌ {A = Result Bytes} panic (ok out) = λ i. (h i).0 in cc

  rfc_seal_ok :
      (c c' : Context K F S.aead) (aad pt : Bytes) {ct : Bytes}
      → rfc_seal S c aad pt ≡ (ok ct, c')
      → Sealed c c' aad pt ct
  unfolding rfc_seal
  rfc_seal_ok c c' aad pt {ct} h = elim (Bool-cases (c.seq == u64_max)) [
    | inl full ↦
        let full_h = rw full at h in
        let e : ◌≡◌ {A = Result Bytes} (err message_limit_reached) (ok ct) = λ i. (full_h i).0 in cc
    | inr room ↦
        let (encrypted, next) = counted_ok c c' _ (rw room at h) in
        record { below = λ e. ground arith; encrypted = encrypted; next = next }
  ]

  below_limit : (c : Context K F S.aead) → c.seq ≢ u64_max → (c.seq == u64_max) ≡ false
  below_limit c h = ground arith

  module _ (lawful : SealsLawfully S) where
    pub seal-Sealed :
        (c c' : Context K F S.aead) (aad pt : Bytes) {ct : Bytes}
        → IsWellFormed c
        → seal S c aad pt ≡ (ok ct, c')
        → Sealed c c' aad pt ct
    seal-Sealed c c' aad pt wf h =
        rfc_seal_ok c c' aad pt (sym (seal-rfc_seal S lawful c aad pt wf) ∙ h)

    -- A receiver in the sender's state opens what the sender has sealed, and then both ends are in
    -- one state again.
    pub open_ct-seal :
        (c c' : Context K F S.aead) (aad pt : Bytes) {ct : Bytes}
        → IsWellFormed c
        → seal S c aad pt ≡ (ok ct, c')
        → open_ct S c aad ct ≡ (ok pt, c')
    unfolding rfc_open counted
    open_ct-seal c c' aad pt {ct} wf h =
        let sealed = seal-Sealed c c' aad pt wf h in
        let opened = lawful.open_ct-seal c.cipher _ aad pt sealed.encrypted in
        let room : (c.seq == u64_max) ≡ false = below_limit c sealed.below in
        open_ct-rfc_open S lawful c aad ct wf ∙ rw (room, opened, sealed.next)

    counted_failed :
        (c : Context K F S.aead) (r : Result Bytes)
        → ((out : Bytes) → (counted S c r).0 ≢ ok out)
        → (counted S c r).1 ≡ c
    unfolding counted
    counted_failed c (ok out) h = absurd (h out refl)
    counted_failed c (err e) h = refl
    counted_failed c panic h = refl

    -- A seal that gives no ciphertext changes nothing.
    pub seal_failed :
        (c : Context K F S.aead) (aad pt : Bytes)
        → IsWellFormed c
        → ((ct : Bytes) → (seal S c aad pt).0 ≢ ok ct)
        → (seal S c aad pt).1 ≡ c
    unfolding rfc_seal
    seal_failed c aad pt wf h =
        rw (seal-rfc_seal S lawful c aad pt wf)
          (unchanged (rw (seal-rfc_seal S lawful c aad pt wf) at h))
      where
        unchanged : ((ct : Bytes) → (rfc_seal S c aad pt).0 ≢ ok ct) → (rfc_seal S c aad pt).1 ≡ c
        unchanged k = elim (Bool-cases (c.seq == u64_max)) [
          | inl full ↦ rw full
          | inr room ↦ rw room (counted_failed c _ (rw room at k))
        ]

    -- An open that gives no plaintext changes nothing.
    pub open_failed :
        (c : Context K F S.aead) (aad ct : Bytes)
        → IsWellFormed c
        → ((pt : Bytes) → (open_ct S c aad ct).0 ≢ ok pt)
        → (open_ct S c aad ct).1 ≡ c
    unfolding rfc_open
    open_failed c aad ct wf h =
        rw (open_ct-rfc_open S lawful c aad ct wf)
          (unchanged (rw (open_ct-rfc_open S lawful c aad ct wf) at h))
      where
        unchanged : ((pt : Bytes) → (rfc_open S c aad ct).0 ≢ ok pt) → (rfc_open S c aad ct).1 ≡ c
        unchanged k = elim (Bool-cases (c.seq == u64_max)) [
          | inl full ↦ rw full
          | inr room ↦ rw room (counted_failed c _ (rw room at k))
        ]
