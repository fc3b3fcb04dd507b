-- ===== src/Hpke/Secrets.antt =====
-- src/lib.rs: proofs on the single-shot exports of the four modes.
use native.Mathlib.Decide.{dec_lt}
use hpke_ng.Base.{ℕ, ◌*◌, ◌≡◌, ◌≤◌, ◌<◌, ◌⊎◌, inl, inr, length, arith}
use hpke_ng.Bytes.{Bytes, literal}
use hpke_ng.Error.{Result, ok, err, export_length_exceeded}
use hpke_ng.Kdf.Labeled.{labeled_expand-outcome}
use hpke_ng.Suite.{ciphersuite}
use hpke_ng.Kdf
use hpke_ng.Kdf.{Kdf}
use hpke_ng.Aead
use hpke_ng.Aead.{Aead, SealingAead, SealsLawfully}
use hpke_ng.Psk.{Psk}
use hpke_ng.Kem.{CryptoRng, Kem, AuthKem, IsCorrect, AuthIsCorrect}
use hpke_ng.Schedule.Rfc.{IsFresh}
use hpke_ng.Context
use hpke_ng.Context.{Context}
use hpke_ng.Context.Roles
use hpke_ng.Hpke.Agree.{
  setup_base_agrees, setup_psk_agrees, setup_auth_agrees, setup_auth_psk_agrees,
}
use hpke_ng.Hpke.Export.{
  send_export_base, receiver_export_base, send_export_psk, receiver_export_psk, send_export_auth,
  receiver_export_auth, send_export_auth_psk, receiver_export_auth_psk,
}

-- Within 255 blocks of the hash the two calls succeed with one secret of the length asked for;
-- past that they give the one error.
abbrev pub Exports :
    {State Enc : Type 0}
    → ℕ
    → ℕ
    → Enc
    → State
    → Result (Enc × Bytes) × State
    → Result Bytes
    → Type 0
Exports hash_len n enc rng sent received =
    ((n ≤ 255 * hash_len)
      × ((secret : Bytes) × (sent ≡ (ok (enc, secret), rng))
          × (received ≡ ok secret)
          × (length secret ≡ n)))
    ⊎ ((255 * hash_len < n)
        × (sent ≡ (err export_length_exceeded, rng))
        × (received ≡ err export_length_exceeded))

module _ {R : CryptoRng} {K : Kem R} {F : Kdf} {A : Aead} (kdf : Kdf.IsLawful F) where
  fresh_exports :
      (c : Context K F A)
      → IsFresh c
      → (ctx : Bytes) (n : ℕ)
      → ((n ≤ 255 * F.hash_len)
          × ((secret : Bytes) × (Context.export c ctx n ≡ ok secret) × (length secret ≡ n)))
        ⊎ ((255 * F.hash_len < n) × (Context.export c ctx n ≡ err export_length_exceeded))
  unfolding Context.export
  fresh_exports c fresh ctx n =
      let outcome =
        labeled_expand-outcome F kdf c.exporter_secret (ciphersuite K F A) (literal "sec") ctx n in
      elim (dec_lt (255 * F.hash_len) n) [
        | yes over ↦ inr (over, outcome.0 over)
        | no fits ↦ inl (omega arith, outcome.1 (omega arith) (omega (arith, fresh.exporter_size)))
      ]

module _ {R : CryptoRng} (K : Kem R) (F : Kdf) (A : Aead) where
  module _ (correct : IsCorrect K) (kdf : Kdf.IsLawful F) (aead : Aead.IsLawful A) where
    -- Base mode, over a correct KEM, a lawful KDF and a lawful AEAD: if the receiver's keys are a
    -- pair and encapsulation succeeds, both ends export one secret of the length asked for, up to
    -- 255 blocks of the hash; past that both give `ExportLengthExceeded`.
    pub send_export_base_agrees :
        (rng rng' : R.State) (sk_r : K.PrivateKey) (pk_r : K.PublicKey) (info : Bytes) (ctx : Bytes)
        (n : ℕ) {ss : K.SharedSecret} {enc : K.EncappedKey}
        → correct.Paired sk_r pk_r
        → K.encap rng pk_r ≡ (ok (ss, enc), rng')
        → let sent = send_export_base K F A rng pk_r info ctx n in
          let received = receiver_export_base K F A enc sk_r info ctx n in
          Exports F.hash_len n enc rng' sent received
    unfolding send_export_base receiver_export_base Roles.export_sender Roles.export_receiver
    send_export_base_agrees rng rng' sk_r pk_r info ctx n {ss} {enc} paired given =
        let (c, sent, received, fresh) =
          setup_base_agrees K F A correct kdf aead rng rng' sk_r pk_r info paired given in
        elim (fresh_exports kdf c fresh ctx n) [
          | inl (fits, (secret, e, size)) ↦
              inl (fits, (secret, rw (sent, e), rw (received, e), size))
          | inr (over, e) ↦ inr (over, rw (sent, e), rw (received, e))
        ]

    -- PSK mode, over a correct KEM, a lawful KDF and a lawful AEAD, for every PSK: if the
    -- receiver's keys are a pair and encapsulation succeeds, both ends export one secret of the
    -- length asked for, up to 255 blocks of the hash; past that both give `ExportLengthExceeded`.
    pub send_export_psk_agrees :
        (rng rng' : R.State) (sk_r : K.PrivateKey) (pk_r : K.PublicKey) (info : Bytes) (psk : Psk)
        (ctx : Bytes) (n : ℕ) {ss : K.SharedSecret} {enc : K.EncappedKey}
        → correct.Paired sk_r pk_r
        → K.encap rng pk_r ≡ (ok (ss, enc), rng')
        → let sent = send_export_psk K F A rng pk_r info psk ctx n in
          let received = receiver_export_psk K F A enc sk_r info psk ctx n in
          Exports F.hash_len n enc rng' sent received
    unfolding send_export_psk receiver_export_psk Roles.export_sender Roles.export_receiver
    send_export_psk_agrees rng rng' sk_r pk_r info psk ctx n {ss} {enc} paired given =
        let (c, sent, received, fresh) =
          setup_psk_agrees K F A correct kdf aead rng rng' sk_r pk_r info psk paired given in
        elim (fresh_exports kdf c fresh ctx n) [
          | inl (fits, (secret, e, size)) ↦
              inl (fits, (secret, rw (sent, e), rw (received, e), size))
          | inr (over, e) ↦ inr (over, rw (sent, e), rw (received, e))
        ]

module _ {R : CryptoRng} (K : AuthKem R) (F : Kdf) (A : Aead) where
  module _ (correct : AuthIsCorrect K) (kdf : Kdf.IsLawful F) (aead : Aead.IsLawful A) where
    -- Auth mode, over a correct authenticated KEM, a lawful KDF and a lawful AEAD: if the keys of
    -- both ends are pairs and encapsulation succeeds, both ends export one secret of the length
    -- asked for, up to 255 blocks of the hash; past that both give `ExportLengthExceeded`.
    pub send_export_auth_agrees :
        (rng rng' : R.State) (sk_r sk_s : K.kem.PrivateKey) (pk_r pk_s : K.kem.PublicKey)
        (info : Bytes) (ctx : Bytes) (n : ℕ) {ss : K.kem.SharedSecret} {enc : K.kem.EncappedKey}
        → correct.is_correct.Paired sk_r pk_r
        → correct.is_correct.Paired sk_s pk_s
        → K.auth_encap rng pk_r sk_s ≡ (ok (ss, enc), rng')
        → let sent = send_export_auth K F A rng pk_r info sk_s ctx n in
          let received = receiver_export_auth K F A enc sk_r info pk_s ctx n in
          Exports F.hash_len n enc rng' sent received
    unfolding send_export_auth receiver_export_auth Roles.export_sender Roles.export_receiver
    send_export_auth_agrees rng rng' sk_r sk_s pk_r pk_s info ctx n {ss} {enc} paired paired_s
          given =
        let (c, sent, received, fresh) =
          setup_auth_agrees K F A correct kdf aead rng rng' sk_r sk_s pk_r pk_s info paired paired_s
            given in
        elim (fresh_exports kdf c fresh ctx n) [
          | inl (fits, (secret, e, size)) ↦
              inl (fits, (secret, rw (sent, e), rw (received, e), size))
          | inr (over, e) ↦ inr (over, rw (sent, e), rw (received, e))
        ]

    -- AuthPSK mode, over a correct authenticated KEM, a lawful KDF and a lawful AEAD, for every
    -- PSK: if the keys of both ends are pairs and encapsulation succeeds, both ends export one
    -- secret of the length asked for, up to 255 blocks of the hash; past that both give
    -- `ExportLengthExceeded`.
    pub send_export_auth_psk_agrees :
        (rng rng' : R.State) (sk_r sk_s : K.kem.PrivateKey) (pk_r pk_s : K.kem.PublicKey)
        (info : Bytes) (psk : Psk) (ctx : Bytes) (n : ℕ) {ss : K.kem.SharedSecret}
        {enc : K.kem.EncappedKey}
        → correct.is_correct.Paired sk_r pk_r
        → correct.is_correct.Paired sk_s pk_s
        → K.auth_encap rng pk_r sk_s ≡ (ok (ss, enc), rng')
        → let sent = send_export_auth_psk K F A rng pk_r info psk sk_s ctx n in
          let received = receiver_export_auth_psk K F A enc sk_r info psk pk_s ctx n in
          Exports F.hash_len n enc rng' sent received
    unfolding send_export_auth_psk receiver_export_auth_psk Roles.export_sender
        Roles.export_receiver
    send_export_auth_psk_agrees rng rng' sk_r sk_s pk_r pk_s info psk ctx n {ss} {enc} paired
          paired_s given =
        let (c, sent, received, fresh) =
          setup_auth_psk_agrees K F A correct kdf aead rng rng' sk_r sk_s pk_r pk_s info psk paired
            paired_s given in
        elim (fresh_exports kdf c fresh ctx n) [
          | inl (fits, (secret, e, size)) ↦
              inl (fits, (secret, rw (sent, e), rw (received, e), size))
          | inr (over, e) ↦ inr (over, rw (sent, e), rw (received, e))
        ]
