-- ===== src/Hpke/Delivered.antt =====
-- src/lib.rs: proofs that what a single-shot call has sealed opens, in the four modes.
use hpke_ng.Base.{◌≡◌, ◌∙◌, ap}
use hpke_ng.Bytes.{Bytes}
use hpke_ng.Error.{Result, ok, ok_inj, ◌>>=◌, >>=-eq-ok, map_ok}
use hpke_ng.Kdf
use hpke_ng.Kdf.{Kdf}
use hpke_ng.Aead.{SealingAead, SealsLawfully}
use hpke_ng.Psk.{Psk}
use hpke_ng.Kem.{CryptoRng, Kem, AuthKem, IsCorrect, AuthIsCorrect}
use hpke_ng.Suite.{base_mode_tag, auth_mode_tag, psk_mode_tag, auth_psk_mode_tag}
use hpke_ng.Schedule.{key_schedule_psk_free, key_schedule_psk}
use hpke_ng.Schedule.Rfc.{IsFresh, key_schedule_psk_free_total, key_schedule_psk_total}
use hpke_ng.Context
use hpke_ng.Context.{Context}
use hpke_ng.Context.Inversion.{open_ct-seal}
use hpke_ng.Context.Roles
use hpke_ng.Context.Roles.{SenderContext, new_sender, new_receiver}
use hpke_ng.Hpke.{
  setup_sender_base, setup_receiver_base, setup_sender_psk, setup_receiver_psk, setup_sender_auth,
  setup_receiver_auth, setup_sender_auth_psk, setup_receiver_auth_psk,
}
use hpke_ng.Hpke.Seal.{
  seal_base, open_base, seal_psk, open_psk, seal_auth, open_auth, seal_auth_psk, open_auth_psk,
}

module _ {R : CryptoRng} {K : Kem R} {F : Kdf} (S : SealingAead) (lawful : SealsLawfully S) where
  -- The sender's part of a single-shot call, in any mode.
  abbrev pub started :
      {Secret Enc : Type 0}
      → Result (Secret × Enc)
      → (Secret → Result (Context K F S.aead))
      → Result (Enc × SenderContext K F S.aead)
  started encapped schedule = do (ss, enc) ← encapped; ctx ← schedule ss; ok (enc, new_sender ctx)

  abbrev pub sealed_after :
      {Secret Enc : Type 0}
      → Result (Secret × Enc)
      → (Secret → Result (Context K F S.aead))
      → Bytes
      → Bytes
      → Result (Enc × Bytes)
  sealed_after encapped schedule aad pt = do
    (enc, ctx) ← started encapped schedule
    ct ← (Roles.seal S ctx aad pt).0
    ok (enc, ct)

  -- What has been encapsulated before a message was sealed.
  pub encapped_before :
      {Secret Enc : Type 0} (encapped : Result (Secret × Enc))
      (schedule : Secret → Result (Context K F S.aead)) (aad pt : Bytes) {enc : Enc} {ct : Bytes}
      → sealed_after encapped schedule aad pt ≡ ok (enc, ct)
      → (ss : Secret) × (encapped ≡ ok (ss, enc))
  encapped_before encapped schedule aad pt {enc} h =
      let (setup, start, rest) = >>=-eq-ok (started encapped schedule) _ h in
      let (secret, given, start') = >>=-eq-ok encapped _ start in
      let (c, _, begun) = >>=-eq-ok (schedule secret.0) _ start' in
      let (ct', _, last) = >>=-eq-ok (Roles.seal S setup.1 aad pt).0 _ rest in
      let enc_eq : secret.1 ≡ enc = (λ i. (ok_inj begun i).0) ∙ λ i. (ok_inj last i).0 in
      (secret.0, given ∙ λ i. ok (secret.0, enc_eq i))

  -- The KEM's two calls agree, the schedule gives a fresh context on every secret, and a message
  -- has been sealed.
  pub delivered :
      {Secret Enc : Type 0} (encapped : Result (Secret × Enc)) (decap : Enc → Result Secret)
      (schedule : Secret → Result (Context K F S.aead)) (aad pt : Bytes) {enc : Enc} {ct : Bytes}
      → ((ss : Secret) (e : Enc) → encapped ≡ ok (ss, e) → decap e ≡ ok ss)
      → ((ss : Secret) → (c : Context K F S.aead) × (schedule ss ≡ ok c) × IsFresh c)
      → sealed_after encapped schedule aad pt ≡ ok (enc, ct)
      → (decap enc >>= (λ ss. map_ok new_receiver (schedule ss)) >>= λ ctx.
          (Roles.open_ct S ctx aad ct).0)
        ≡ ok pt
  unfolding Roles.seal Roles.open_ct
  delivered encapped decap schedule aad pt {enc} {ct} agree made h =
      let (setup, start, rest) = >>=-eq-ok (started encapped schedule) _ h in
      let (secret, given, start') = >>=-eq-ok encapped _ start in
      let (c, scheduled, fresh) = made secret.0 in
      let begun : ◌≡◌ {A = Result _} (ok (secret.1, new_sender c)) (ok setup) =
        rw scheduled at start' in
      let same = ok_inj begun in
      let (ct', sealed, last) = >>=-eq-ok (Context.seal S setup.1.inner aad pt).0 _ rest in
      let final = ok_inj last in
      let sealed' : (Context.seal S c aad pt).0 ≡ ok ct =
        ap (λ q. (Context.seal S q.1.inner aad pt).0) same ∙ sealed ∙ ap (λ p. ok p.1) final in
      let opened =
        open_ct-seal S lawful c _ aad pt fresh.well_formed
          (λ i. (sealed' i, (Context.seal S c aad pt).1)) in
      let enc_eq : secret.1 ≡ enc = (λ i. (same i).0) ∙ (λ i. (final i).0) in
      rw (← enc_eq, agree secret.0 secret.1 given) (rw scheduled (λ i. (opened i).0))

module _ {R : CryptoRng} (K : Kem R) (F : Kdf) (S : SealingAead) where
  module _ (correct : IsCorrect K) (kdf : Kdf.IsLawful F) (lawful : SealsLawfully S) where
    pub open_base_sealed :
        (rng : R.State) (sk_r : K.PrivateKey) (pk_r : K.PublicKey) (info : Bytes) (aad pt : Bytes)
        {enc : K.EncappedKey} {ct : Bytes}
        → correct.Paired sk_r pk_r
        → (seal_base K F S rng pk_r info aad pt).0 ≡ ok (enc, ct)
        → open_base K F S enc sk_r info aad ct ≡ ok pt
    unfolding seal_base open_base setup_sender_base setup_receiver_base
    open_base_sealed rng sk_r pk_r info aad pt paired h =
        delivered S lawful (K.encap rng pk_r).0 (λ e. K.decap e sk_r)
          (λ ss. key_schedule_psk_free K F S.aead base_mode_tag (K.ss_as_ref ss) info) aad pt
          (λ ss e given.
            correct.decap-encap rng _ sk_r pk_r paired (λ i. (given i, (K.encap rng pk_r).1)))
          (λ ss.
            key_schedule_psk_free_total K F S.aead kdf lawful.is_lawful base_mode_tag
              (K.ss_as_ref ss) info)
          h

    -- PSK mode, over a correct KEM, a lawful KDF and a lawful cipher, for every PSK: if the
    -- receiver's keys are a pair, then what a single-shot seal gives opens, and opening gives the
    -- message back.
    pub open_psk_sealed :
        (rng : R.State) (sk_r : K.PrivateKey) (pk_r : K.PublicKey) (info : Bytes) (psk : Psk)
        (aad pt : Bytes) {enc : K.EncappedKey} {ct : Bytes}
        → correct.Paired sk_r pk_r
        → (seal_psk K F S rng pk_r info aad pt psk).0 ≡ ok (enc, ct)
        → open_psk K F S enc sk_r info aad ct psk ≡ ok pt
    unfolding seal_psk open_psk setup_sender_psk setup_receiver_psk
    open_psk_sealed rng sk_r pk_r info psk aad pt paired h =
        delivered S lawful (K.encap rng pk_r).0 (λ e. K.decap e sk_r)
          (λ ss. key_schedule_psk K F S.aead psk_mode_tag (K.ss_as_ref ss) info psk) aad pt
          (λ ss e given.
            correct.decap-encap rng _ sk_r pk_r paired (λ i. (given i, (K.encap rng pk_r).1)))
          (λ ss.
            key_schedule_psk_total K F S.aead kdf lawful.is_lawful psk_mode_tag (K.ss_as_ref ss)
              info psk)
          h

module _ {R : CryptoRng} (K : AuthKem R) (F : Kdf) (S : SealingAead) where
  module _ (correct : AuthIsCorrect K) (kdf : Kdf.IsLawful F) (lawful : SealsLawfully S) where
    -- Auth mode, over a correct authenticated KEM, a lawful KDF and a lawful cipher: if the keys
    -- of both ends are pairs, then what a single-shot seal gives opens, and opening gives the
    -- message back.
    pub open_auth_sealed :
        (rng : R.State) (sk_r sk_s : K.kem.PrivateKey) (pk_r pk_s : K.kem.PublicKey) (info : Bytes)
        (aad pt : Bytes) {enc : K.kem.EncappedKey} {ct : Bytes}
        → correct.is_correct.Paired sk_r pk_r
        → correct.is_correct.Paired sk_s pk_s
        → (seal_auth K F S rng pk_r info aad pt sk_s).0 ≡ ok (enc, ct)
        → open_auth K F S enc sk_r info aad ct pk_s ≡ ok pt
    unfolding seal_auth open_auth setup_sender_auth setup_receiver_auth
    open_auth_sealed rng sk_r sk_s pk_r pk_s info aad pt paired paired_s h =
        delivered S lawful (K.auth_encap rng pk_r sk_s).0 (λ e. K.auth_decap e sk_r pk_s)
          (λ ss. key_schedule_psk_free K.kem F S.aead auth_mode_tag (K.kem.ss_as_ref ss) info) aad
          pt
          (λ ss e given.
            correct.auth_decap-auth_encap rng _ sk_r sk_s pk_r pk_s paired paired_s
              (λ i. (given i, (K.auth_encap rng pk_r sk_s).1)))
          (λ ss.
            key_schedule_psk_free_total K.kem F S.aead kdf lawful.is_lawful auth_mode_tag
              (K.kem.ss_as_ref ss) info)
          h

    pub open_auth_psk_sealed :
        (rng : R.State) (sk_r sk_s : K.kem.PrivateKey) (pk_r pk_s : K.kem.PublicKey) (info : Bytes)
        (psk : Psk) (aad pt : Bytes) {enc : K.kem.EncappedKey} {ct : Bytes}
        → correct.is_correct.Paired sk_r pk_r
        → correct.is_correct.Paired sk_s pk_s
        → (seal_auth_psk K F S rng pk_r info aad pt psk sk_s).0 ≡ ok (enc, ct)
        → open_auth_psk K F S enc sk_r info aad ct psk pk_s ≡ ok pt
    unfolding seal_auth_psk open_auth_psk setup_sender_auth_psk setup_receiver_auth_psk
    open_auth_psk_sealed rng sk_r sk_s pk_r pk_s info psk aad pt paired paired_s h =
        delivered S lawful (K.auth_encap rng pk_r sk_s).0 (λ e. K.auth_decap e sk_r pk_s)
          (λ ss. key_schedule_psk K.kem F S.aead auth_psk_mode_tag (K.kem.ss_as_ref ss) info psk)
          aad pt
          (λ ss e given.
            correct.auth_decap-auth_encap rng _ sk_r sk_s pk_r pk_s paired paired_s
              (λ i. (given i, (K.auth_encap rng pk_r sk_s).1)))
          (λ ss.
            key_schedule_psk_total K.kem F S.aead kdf lawful.is_lawful auth_psk_mode_tag
              (K.kem.ss_as_ref ss) info psk)
          h
