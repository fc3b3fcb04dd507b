-- ===== src/Hpke/Agree.antt =====
-- src/lib.rs: proofs on the setups of the two ends, in the four modes.
use hpke_ng.Base.{◌≡◌}
use hpke_ng.Bytes.{Bytes}
use hpke_ng.Error.{ok}
use hpke_ng.Kdf
use hpke_ng.Kdf.{Kdf}
use hpke_ng.Aead
use hpke_ng.Aead.{Aead}
use hpke_ng.Psk.{Psk}
use hpke_ng.Kem.{CryptoRng, Kem, AuthKem, IsCorrect, AuthIsCorrect}
use hpke_ng.Suite.{base_mode_tag, auth_mode_tag, psk_mode_tag, auth_psk_mode_tag}
use hpke_ng.Schedule.Rfc.{IsFresh, key_schedule_psk_free_total, key_schedule_psk_total}
use hpke_ng.Context.{Context}
use hpke_ng.Context.Roles.{new_sender, new_receiver}
use hpke_ng.Hpke.{
  setup_sender_base, setup_receiver_base, setup_sender_psk, setup_receiver_psk, setup_sender_auth,
  setup_receiver_auth, setup_sender_auth_psk, setup_receiver_auth_psk,
}

module _ {R : CryptoRng} (K : Kem R) (F : Kdf) (A : Aead) where
  module _ (correct : IsCorrect K) (kdf : Kdf.IsLawful F) (aead : Aead.IsLawful A) where
    -- Base mode, over a correct KEM, a lawful KDF and a lawful AEAD: if the receiver's keys are a
    -- pair and encapsulation succeeds, the setups of the two ends both succeed, with one fresh
    -- context.
    pub setup_base_agrees :
        (rng rng' : R.State) (sk_r : K.PrivateKey) (pk_r : K.PublicKey) (info : Bytes)
        {ss : K.SharedSecret} {enc : K.EncappedKey}
        → correct.Paired sk_r pk_r
        → K.encap rng pk_r ≡ (ok (ss, enc), rng')
        → (c : Context K F A) × (setup_sender_base K F A rng pk_r info
            ≡ (ok (enc, new_sender c), rng'))
          × (setup_receiver_base K F A enc sk_r info ≡ ok (new_receiver c))
          × IsFresh c
    unfolding setup_sender_base setup_receiver_base
    setup_base_agrees rng rng' sk_r pk_r info {ss} {enc} paired given =
        let opened = correct.decap-encap rng rng' sk_r pk_r paired given in
        let (c, made, fresh) =
          key_schedule_psk_free_total K F A kdf aead base_mode_tag (K.ss_as_ref ss) info in
        (c, rw (given, made), rw (opened, made), fresh)

    -- PSK mode, over a correct KEM, a lawful KDF and a lawful AEAD, for every PSK: if the
    -- receiver's keys are a pair and encapsulation succeeds, the setups of the two ends both
    -- succeed, with one fresh context.
    pub setup_psk_agrees :
        (rng rng' : R.State) (sk_r : K.PrivateKey) (pk_r : K.PublicKey) (info : Bytes) (psk : Psk)
        {ss : K.SharedSecret} {enc : K.EncappedKey}
        → correct.Paired sk_r pk_r
        → K.encap rng pk_r ≡ (ok (ss, enc), rng')
        → (c : Context K F A) × (setup_sender_psk K F A rng pk_r info psk
            ≡ (ok (enc, new_sender c), rng'))
          × (setup_receiver_psk K F A enc sk_r info psk ≡ ok (new_receiver c))
          × IsFresh c
    unfolding setup_sender_psk setup_receiver_psk
    setup_psk_agrees rng rng' sk_r pk_r info psk {ss} {enc} paired given =
        let opened = correct.decap-encap rng rng' sk_r pk_r paired given in
        let (c, made, fresh) =
          key_schedule_psk_total K F A kdf aead psk_mode_tag (K.ss_as_ref ss) info psk in
        (c, rw (given, made), rw (opened, made), fresh)

module _ {R : CryptoRng} (K : AuthKem R) (F : Kdf) (A : Aead) where
  module _ (correct : AuthIsCorrect K) (kdf : Kdf.IsLawful F) (aead : Aead.IsLawful A) where
    -- Auth mode, over a correct authenticated KEM, a lawful KDF and a lawful AEAD: if the keys of
    -- both ends are pairs and encapsulation succeeds, the setups of the two ends both succeed,
    -- with one fresh context.
    pub setup_auth_agrees :
        (rng rng' : R.State) (sk_r sk_s : K.kem.PrivateKey) (pk_r pk_s : K.kem.PublicKey)
        (info : Bytes) {ss : K.kem.SharedSecret} {enc : K.kem.EncappedKey}
        → correct.is_correct.Paired sk_r pk_r
        → correct.is_correct.Paired sk_s pk_s
        → K.auth_encap rng pk_r sk_s ≡ (ok (ss, enc), rng')
        → (c : Context K.kem F A) × (setup_sender_auth K F A rng pk_r info sk_s
            ≡ (ok (enc, new_sender c), rng'))
          × (setup_receiver_auth K F A enc sk_r info pk_s ≡ ok (new_receiver c))
          × IsFresh c
    unfolding setup_sender_auth setup_receiver_auth
    setup_auth_agrees rng rng' sk_r sk_s pk_r pk_s info {ss} {enc} paired paired_s given =
        let opened =
          correct.auth_decap-auth_encap rng rng' sk_r sk_s pk_r pk_s paired paired_s given in
        let (c, made, fresh) =
          key_schedule_psk_free_total K.kem F A kdf aead auth_mode_tag (K.kem.ss_as_ref ss) info in
        (c, rw (given, made), rw (opened, made), fresh)

    -- AuthPSK mode, over a correct authenticated KEM, a lawful KDF and a lawful AEAD, for every
    -- PSK: if the keys of both ends are pairs and encapsulation succeeds, the setups of the two
    -- ends both succeed, with one fresh context.
    pub setup_auth_psk_agrees :
        (rng rng' : R.State) (sk_r sk_s : K.kem.PrivateKey) (pk_r pk_s : K.kem.PublicKey)
        (info : Bytes) (psk : Psk) {ss : K.kem.SharedSecret} {enc : K.kem.EncappedKey}
        → correct.is_correct.Paired sk_r pk_r
        → correct.is_correct.Paired sk_s pk_s
        → K.auth_encap rng pk_r sk_s ≡ (ok (ss, enc), rng')
        → (c : Context K.kem F A) × (setup_sender_auth_psk K F A rng pk_r info psk sk_s
            ≡ (ok (enc, new_sender c), rng'))
          × (setup_receiver_auth_psk K F A enc sk_r info psk pk_s ≡ ok (new_receiver c))
          × IsFresh c
    unfolding setup_sender_auth_psk setup_receiver_auth_psk
    setup_auth_psk_agrees rng rng' sk_r sk_s pk_r pk_s info psk {ss} {enc} paired paired_s given =
        let opened =
          correct.auth_decap-auth_encap rng rng' sk_r sk_s pk_r pk_s paired paired_s given in
        let (c, made, fresh) =
          key_schedule_psk_total K.kem F A kdf aead auth_psk_mode_tag (K.kem.ss_as_ref ss) info
            psk in
        (c, rw (given, made), rw (opened, made), fresh)
