-- ===== src/Hpke/Outcome.antt =====
-- src/lib.rs: proofs on the outcomes of the single-shot calls that encrypt and decrypt.
use hpke_ng.Base.{◌≡◌, ◌⊎◌, inl, inr, ◌==◌, false, arith}
use hpke_ng.Bytes.{Bytes}
use hpke_ng.Error.{
  Result, Result-cases, HpkeError, ok, err, ◌>>=◌, map_ok, Returns, Returns-cases, open_error,
  seal_error,
}
use hpke_ng.Kdf
use hpke_ng.Kdf.{Kdf}
use hpke_ng.Aead.{SealingAead, SealsLawfully}
use hpke_ng.Psk.{Psk}
use hpke_ng.Kem.{CryptoRng, Kem, AuthKem, IsPanicFree, AuthIsPanicFree}
use hpke_ng.Suite.{base_mode_tag, auth_mode_tag, psk_mode_tag, auth_psk_mode_tag}
use hpke_ng.Schedule.Rfc.{IsFresh, key_schedule_psk_free_total, key_schedule_psk_total}
use hpke_ng.Context
use hpke_ng.Context.{Context, u64_max}
use hpke_ng.Context.Nonce.{rfc_nonce}
use hpke_ng.Context.Steps.{rfc_seal, rfc_open, counted, seal-rfc_seal, open_ct-rfc_open}
use hpke_ng.Context.Roles
use hpke_ng.Context.Roles.{new_sender, new_receiver}
use hpke_ng.Hpke.{
  setup_sender_base, setup_receiver_base, setup_sender_psk, setup_receiver_psk, setup_sender_auth,
  setup_receiver_auth, setup_sender_auth_psk, setup_receiver_auth_psk,
}
use hpke_ng.Hpke.Seal.{
  seal_base, open_base, seal_psk, open_psk, seal_auth, open_auth, seal_auth_psk, open_auth_psk,
}

-- What opening gives, by the shared secret that the KEM gave.
abbrev pub Opens : {Secret : Type 0} → Result Secret → Result Bytes → Type 0
Opens secret opened =
    ((e : HpkeError) × (secret ≡ err e) × (opened ≡ err e))
    ⊎ ((ss : _) × (secret ≡ ok ss)
        × (((pt : Bytes) × (opened ≡ ok pt)) ⊎ (opened ≡ err open_error)))

-- What sealing gives, by what the KEM gave.
abbrev pub Seals : {Secret Enc : Type 0} → Result (Secret × Enc) → Result (Enc × Bytes) → Type 0
Seals encapped sealed =
    ((e : HpkeError) × (encapped ≡ err e) × (sealed ≡ err e))
    ⊎ ((ss : _) × (enc : _) × (encapped ≡ ok (ss, enc))
        × (((ct : Bytes) × (sealed ≡ ok (enc, ct))) ⊎ (sealed ≡ err seal_error)))

module _ {R : CryptoRng} {K : Kem R} {F : Kdf} (S : SealingAead) (lawful : SealsLawfully S) where
  -- A fresh context is not at its limit.
  fresh_room : (c : Context K F S.aead) → IsFresh c → (c.seq == u64_max) ≡ false
  fresh_room c fresh = ground (arith, fresh.at_start)

  fresh_open :
      (c : Context K F S.aead) (aad ct : Bytes)
      → IsFresh c
      → ((pt : Bytes) × ((Context.open_ct S c aad ct).0 ≡ ok pt))
        ⊎ ((Context.open_ct S c aad ct).0 ≡ err open_error)
  unfolding rfc_open counted
  fresh_open c aad ct fresh =
      rw (open_ct-rfc_open S lawful c aad ct fresh.well_formed, fresh_room c fresh)
        (let nonce = rfc_nonce c.base_nonce S.aead.nonce_len c.seq in
          elim (Result-cases (S.open_ct c.cipher nonce aad ct)) [
            | inl (pt, e) ↦ inl (pt, rw e)
            | inr (inl (x, e)) ↦ inr (rw (e, lawful.open_ct_fails c.cipher nonce aad ct e))
            | inr (inr e) ↦ absurd (lawful.open_ct_returns c.cipher nonce aad ct e)
          ])

  fresh_seal :
      (c : Context K F S.aead) (aad pt : Bytes)
      → IsFresh c
      → ((ct : Bytes) × ((Context.seal S c aad pt).0 ≡ ok ct))
        ⊎ ((Context.seal S c aad pt).0 ≡ err seal_error)
  unfolding rfc_seal counted
  fresh_seal c aad pt fresh =
      rw (seal-rfc_seal S lawful c aad pt fresh.well_formed, fresh_room c fresh)
        (let nonce = rfc_nonce c.base_nonce S.aead.nonce_len c.seq in
          elim (Result-cases (S.seal c.cipher nonce aad pt)) [
            | inl (ct, e) ↦ inl (ct, rw e)
            | inr (inl (x, e)) ↦ inr (rw (e, lawful.seal_fails c.cipher nonce aad pt e))
            | inr (inr e) ↦ absurd (lawful.seal_returns c.cipher nonce aad pt e)
          ])

  -- Opening in any mode: the KEM, the schedule, then the cipher.
  open_after :
      {Secret : Type 0} (secret : Result Secret) (schedule : Secret → Result (Context K F S.aead))
      (aad ct : Bytes)
      → Returns secret
      → ((ss : Secret) → (c : Context K F S.aead) × (schedule ss ≡ ok c) × IsFresh c)
      → Opens secret (
          secret >>= (λ ss. map_ok new_receiver (schedule ss)) >>= λ ctx.
          (Roles.open_ct S ctx aad ct).0)
  unfolding Roles.open_ct
  open_after secret schedule aad ct returns made = elim (Returns-cases secret returns) [
    | inr (e, failed) ↦ inl (e, failed, rw failed)
    | inl (ss, given) ↦
        let (c, scheduled, fresh) = made ss in
        elim (fresh_open c aad ct fresh) [
          | inl (pt, opened) ↦ inr (ss, given, inl (pt, rw given (rw scheduled opened)))
          | inr failed ↦ inr (ss, given, inr (rw given (rw scheduled failed)))
        ]
  ]

  seal_after :
      {Secret Enc : Type 0} (encapped : Result (Secret × Enc))
      (schedule : Secret → Result (Context K F S.aead)) (aad pt : Bytes)
      → Returns encapped
      → ((ss : Secret) → (c : Context K F S.aead) × (schedule ss ≡ ok c) × IsFresh c)
      → Seals encapped do
        (enc, ctx) ← do (ss, enc) ← encapped; ctx ← schedule ss; ok (enc, new_sender ctx)
        ct ← (Roles.seal S ctx aad pt).0
        ok (enc, ct)
  unfolding Roles.seal
  seal_after encapped schedule aad pt returns made = elim (Returns-cases encapped returns) [
    | inr (e, failed) ↦ inl (e, failed, rw failed)
    | inl ((ss, enc), given) ↦
        let (c, scheduled, fresh) = made ss in
        elim (fresh_seal c aad pt fresh) [
          | inl (ct, sealed) ↦ inr (ss, enc, given, inl (ct, rw given (rw scheduled (rw sealed))))
          | inr failed ↦ inr (ss, enc, given, inr (rw given (rw scheduled (rw failed))))
        ]
  ]

module _ {R : CryptoRng} (K : Kem R) (F : Kdf) (S : SealingAead) where
  module _ (free : IsPanicFree K) (kdf : Kdf.IsLawful F) (lawful : SealsLawfully S) where
    -- Base and PSK mode, over a KEM that does not panic, a lawful KDF and a lawful cipher: a
    -- single-shot open gives the KEM's own error if decapsulation fails; else it gives a plaintext
    -- or `OpenError`, and nothing else.
    pub open-outcome :
        (enc : K.EncappedKey) (sk_r : K.PrivateKey) (info aad ct : Bytes) (psk : Psk)
        → Opens (K.decap enc sk_r) (open_base K F S enc sk_r info aad ct)
          × Opens (K.decap enc sk_r) (open_psk K F S enc sk_r info aad ct psk)
    unfolding open_base open_psk setup_receiver_base setup_receiver_psk
    open-outcome enc sk_r info aad ct psk = (
      open_after S lawful _ _ aad ct (free.decap enc sk_r) λ ss.
          key_schedule_psk_free_total K F S.aead kdf lawful.is_lawful base_mode_tag (K.ss_as_ref ss)
            info,
      open_after S lawful _ _ aad ct (free.decap enc sk_r) λ ss.
          key_schedule_psk_total K F S.aead kdf lawful.is_lawful psk_mode_tag (K.ss_as_ref ss) info
            psk,
    )

    -- Base and PSK mode, over a KEM that does not panic, a lawful KDF and a lawful cipher: a
    -- single-shot seal gives the KEM's own error if encapsulation fails; else it gives the KEM's
    -- encapsulated key with a ciphertext, or `SealError`, and nothing else.
    pub seal-outcome :
        (rng : R.State) (pk_r : K.PublicKey) (info aad pt : Bytes) (psk : Psk)
        → Seals (K.encap rng pk_r).0 (seal_base K F S rng pk_r info aad pt).0
          × Seals (K.encap rng pk_r).0 (seal_psk K F S rng pk_r info aad pt psk).0
    unfolding seal_base seal_psk setup_sender_base setup_sender_psk
    seal-outcome rng pk_r info aad pt psk = (
      seal_after S lawful _ _ aad pt (free.encap rng pk_r) λ ss.
          key_schedule_psk_free_total K F S.aead kdf lawful.is_lawful base_mode_tag (K.ss_as_ref ss)
            info,
      seal_after S lawful _ _ aad pt (free.encap rng pk_r) λ ss.
          key_schedule_psk_total K F S.aead kdf lawful.is_lawful psk_mode_tag (K.ss_as_ref ss) info
            psk,
    )

module _ {R : CryptoRng} (K : AuthKem R) (F : Kdf) (S : SealingAead) where
  module _ (free : AuthIsPanicFree K) (kdf : Kdf.IsLawful F) (lawful : SealsLawfully S) where
    -- Auth and AuthPSK mode, over an authenticated KEM that does not panic, a lawful KDF and a
    -- lawful cipher: a single-shot open gives the KEM's own error if authenticated decapsulation
    -- fails; else it gives a plaintext or `OpenError`, and nothing else.
    pub open_auth-outcome :
        (enc : K.kem.EncappedKey) (sk_r : K.kem.PrivateKey) (pk_s : K.kem.PublicKey)
        (info aad ct : Bytes) (psk : Psk)
        → Opens (K.auth_decap enc sk_r pk_s) (open_auth K F S enc sk_r info aad ct pk_s)
          × Opens (K.auth_decap enc sk_r pk_s) (open_auth_psk K F S enc sk_r info aad ct psk pk_s)
    unfolding open_auth open_auth_psk setup_receiver_auth setup_receiver_auth_psk
    open_auth-outcome enc sk_r pk_s info aad ct psk = (
      open_after S lawful _ _ aad ct (free.auth_decap enc sk_r pk_s) λ ss.
          key_schedule_psk_free_total K.kem F S.aead kdf lawful.is_lawful auth_mode_tag
            (K.kem.ss_as_ref ss) info,
      open_after S lawful _ _ aad ct (free.auth_decap enc sk_r pk_s) λ ss.
          key_schedule_psk_total K.kem F S.aead kdf lawful.is_lawful auth_psk_mode_tag
            (K.kem.ss_as_ref ss) info psk,
    )

    pub seal_auth-outcome :
        (rng : R.State) (pk_r : K.kem.PublicKey) (sk_s : K.kem.PrivateKey) (info aad pt : Bytes)
        (psk : Psk)
        → Seals (K.auth_encap rng pk_r sk_s).0 (seal_auth K F S rng pk_r info aad pt sk_s).0
          × Seals
              (K.auth_encap rng pk_r sk_s).0
              (seal_auth_psk K F S rng pk_r info aad pt psk sk_s).0
    unfolding seal_auth seal_auth_psk setup_sender_auth setup_sender_auth_psk
    seal_auth-outcome rng pk_r sk_s info aad pt psk = (
      seal_after S lawful _ _ aad pt (free.auth_encap rng pk_r sk_s) λ ss.
          key_schedule_psk_free_total K.kem F S.aead kdf lawful.is_lawful auth_mode_tag
            (K.kem.ss_as_ref ss) info,
      seal_after S lawful _ _ aad pt (free.auth_encap rng pk_r sk_s) λ ss.
          key_schedule_psk_total K.kem F S.aead kdf lawful.is_lawful auth_psk_mode_tag
            (K.kem.ss_as_ref ss) info psk,
    )
