-- ===== src/Context/Roles/Uniqueness.antt =====
-- src/context.rs: the runs of a sender context, and proofs on the nonces that they use.
use hpke_ng.Base.{
  ℕ, suc, ◌+◌, ◌≤◌, List, [], ◌∷◌, ◌≡◌, ◌≢◌, refl, ◌∙◌, sym, ap, subst, length, arith,
}
use hpke_ng.Bytes.{Bytes}
use hpke_ng.Error.{Result, ok}
use hpke_ng.Kdf.{Kdf}
use hpke_ng.Aead.{SealingAead, SealsLawfully}
use hpke_ng.Kem.{CryptoRng, Kem}
use hpke_ng.Context
use hpke_ng.Context.{Context, u64_max}
use hpke_ng.Context.Nonce.{IsWellFormed, rfc_nonce, length-rfc_nonce}
use hpke_ng.Context.Steps.{seal-IsWellFormed}
use hpke_ng.Context.Inversion.{seal-Sealed, seal_failed}
use hpke_ng.Context.Roles.{SenderContext, new_sender, seal}
use hpke_ng.Context.Roles.Streams.{Delivery}
use hpke_ng.Context.Roles.Past.{All, Distinct, Past, All-Past_mono, Past-fresh}

-- The cipher `c` has made the messages under these nonces, one for each.
abbrev pub SealedUnder : (S : SealingAead) → S.aead.Cipher → List Bytes → List Delivery → Type 0
SealedUnder S c [] [] = Unit
SealedUnder S c [] (d ∷ ds) = ⊥
SealedUnder S c (n ∷ ns) [] = ⊥
SealedUnder S c (n ∷ ns) (d ∷ ds) =
    (length n ≡ S.aead.nonce_len) × (S.seal c n d.aad d.plain ≡ ok d.sealed) × SealedUnder S c ns ds

-- The function reads off each ciphertext the nonce that the cipher was called with.
abbrev pub Reads : SealingAead → (Bytes → Bytes) → Type 0
Reads S read =
    (c : S.aead.Cipher) (nonce aad pt ct : Bytes) → S.seal c nonce aad pt ≡ ok ct → read ct ≡ nonce

module _ {R : CryptoRng} {K : Kem R} {F : Kdf} (S : SealingAead) where
  -- The states that a client reaches from `s` by sealing, with the messages that were released,
  -- last first. Exports leave the context alone, and there is no other operation.
  pub data Run (s : SenderContext K F S.aead)
      : SenderContext K F S.aead → List Delivery → Type 0 where
    start : Run s s []
    released :
        {t u : SenderContext K F S.aead} {ds : List Delivery} (aad pt ct : Bytes)
        → Run s t ds
        → seal S t aad pt ≡ (ok ct, u)
        → Run s u (record { aad = aad; plain = pt; sealed = ct } ∷ ds)
    failed :
        {t u : SenderContext K F S.aead} {ds : List Delivery} (aad pt : Bytes) (r : Result Bytes)
        → Run s t ds
        → ((ct : Bytes) → r ≢ ok ct)
        → seal S t aad pt ≡ (r, u)
        → Run s u ds

  record Tracks (s t : SenderContext K F S.aead) (ds : List Delivery) : Type 0 where
    well_formed : IsWellFormed t.inner
    state : t.inner ≡ record s.inner { seq = s.inner.seq + length ds }
    nonces : List Bytes
    past : All (Past S.aead.nonce_len s.inner.base_nonce t.inner.seq) nonces
    distinct : Distinct nonces
    sealed_under : SealedUnder S s.inner.cipher nonces ds

  released_state :
      (s t : SenderContext K F S.aead) (n : ℕ)
      → t.inner ≡ record s.inner { seq = s.inner.seq + n }
      → record t.inner { seq = t.inner.seq + 1 } ≡ record s.inner { seq = s.inner.seq + suc n }
  released_state s t n e =
      let step : Context K F S.aead → Context K F S.aead = λ c. record c { seq = c.seq + 1 } in
      let at : ℕ → Context K F S.aead = λ k. record s.inner { seq = k } in
      ap step e ∙ ap at (omega arith)

  module _ (lawful : SealsLawfully S) where
    released-Tracks :
        {s t u : SenderContext K F S.aead} {ds : List Delivery} (aad pt ct : Bytes)
        → IsWellFormed s.inner
        → Tracks s t ds
        → seal S t aad pt ≡ (ok ct, u)
        → Tracks s u (record { aad = aad; plain = pt; sealed = ct } ∷ ds)
    unfolding seal Past
    released-Tracks {s} {t} {u} {ds} aad pt ct wf before sealed =
        let nn = S.aead.nonce_len in
        let lo = lawful.seq_fits in
        let hi = lawful.is_lawful.nonce_len_bound in
        let result : Context.seal S t.inner aad pt ≡ (ok ct, u.inner) =
          λ i. ((sealed i).0, (sealed i).1.inner) in
        let done = seal-Sealed S lawful t.inner u.inner aad pt before.well_formed result in
        let counted : u.inner.seq ≡ t.inner.seq + 1 = ap (λ c. c.seq) done.next in
        let base : t.inner.base_nonce ≡ s.inner.base_nonce = ap (λ c. c.base_nonce) before.state in
        let cipher : t.inner.cipher ≡ s.inner.cipher = ap (λ c. c.cipher) before.state in
        record {
          well_formed =
              subst IsWellFormed (λ i. (result i).1)
                (seal-IsWellFormed S lawful t.inner aad pt before.well_formed);
          state = done.next ∙ released_state s t (length ds) before.state;
          nonces = rfc_nonce s.inner.base_nonce nn t.inner.seq ∷ before.nonces;
          past = (
            (t.inner.seq, omega (arith, counted), refl),
            All-Past_mono nn s.inner.base_nonce t.inner.seq u.inner.seq before.nonces
                (omega (arith, counted)) before.past,
          );
          distinct = (
            Past-fresh nn s.inner.base_nonce t.inner.seq before.nonces lo hi wf.nonce_size
                before.well_formed.seq_bound before.past,
            before.distinct,
          );
          sealed_under = (
            length-rfc_nonce s.inner.base_nonce nn t.inner.seq hi wf.nonce_size,
            subst (λ c. S.seal c (rfc_nonce s.inner.base_nonce nn t.inner.seq) aad pt ≡ ok ct)
                cipher
                (subst (λ b. S.seal t.inner.cipher (rfc_nonce b nn t.inner.seq) aad pt ≡ ok ct) base
                  done.encrypted),
            before.sealed_under,
          );
        }

    failed-unchanged :
        {t u : SenderContext K F S.aead} (aad pt : Bytes) (r : Result Bytes)
        → IsWellFormed t.inner
        → ((ct : Bytes) → r ≢ ok ct)
        → seal S t aad pt ≡ (r, u)
        → t ≡ u
    unfolding seal
    failed-unchanged {t} {u} aad pt r wf no_ct result = ap new_sender (
        sym
          (seal_failed S lawful t.inner aad pt wf (λ ct h. no_ct ct (sym (λ i. (result i).0) ∙ h)))
        ∙ (λ i. (result i).1.inner))

    Run-Tracks :
        {s t : SenderContext K F S.aead} {ds : List Delivery}
        → IsWellFormed s.inner
        → Run s t ds
        → Tracks s t ds
    Run-Tracks {s} wf start = record {
      well_formed = wf;
      state =
          let at : ℕ → Context K F S.aead = λ n. record s.inner { seq = n } in ap at (omega arith);
      nonces = [];
      past = tt;
      distinct = tt;
      sealed_under = tt;
    }
    Run-Tracks wf (released aad pt ct run sealed) =
        released-Tracks aad pt ct wf (Run-Tracks wf run) sealed
    Run-Tracks {s} wf (failed {t} {u} {ds} aad pt r run no_ct result) =
        let before = Run-Tracks wf run in
        subst (λ v. Tracks s v ds) (failed-unchanged aad pt r before.well_formed no_ct result)
          before

    -- With a lawful cipher, from a well-formed sender context: however often the client seals, and
    -- whichever of the calls fail, there are nonces of the cipher's length, no two of them equal,
    -- one for each ciphertext that was released, and the ciphertext is what the sender's cipher
    -- gives on the message under its nonce.
    pub Run-Distinct :
        {s t : SenderContext K F S.aead} {ds : List Delivery}
        → IsWellFormed s.inner
        → Run s t ds
        → (nonces : List Bytes) × Distinct nonces × SealedUnder S s.inner.cipher nonces ds
    Run-Distinct wf run =
        let tracks = Run-Tracks wf run in (tracks.nonces, tracks.distinct, tracks.sealed_under)

    -- With a lawful cipher, from a well-formed sender context: however often the client seals, and
    -- whichever of the calls fail, the counter has gone up by exactly the number of the
    -- ciphertexts that were released, has not wrapped around, its start and that number adding up
    -- to at most 2^64 - 1, and nothing else of the context has changed.
    pub Run-counts :
        {s t : SenderContext K F S.aead} {ds : List Delivery}
        → IsWellFormed s.inner
        → Run s t ds
        → (t.inner ≡ record s.inner { seq = s.inner.seq + length ds })
          × (s.inner.seq + length ds ≤ u64_max)
    Run-counts {s} {t} {ds} wf run =
        let tracks = Run-Tracks wf run in
        let counted : t.inner.seq ≡ s.inner.seq + length ds = ap (λ c. c.seq) tracks.state in
        (tracks.state, omega (arith, counted, tracks.well_formed.seq_bound))
