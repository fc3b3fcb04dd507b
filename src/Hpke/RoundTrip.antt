-- ===== src/Hpke/RoundTrip.antt =====
-- src/lib.rs: proofs on the single-shot calls that encrypt and decrypt, in the four modes.
use hpke_ng.Base.{◌+◌, ◌≡◌, length, ◌==◌, false}
use hpke_ng.Bytes.{Bytes}
use hpke_ng.Error.{ok}
use hpke_ng.Context.{u64_max}
use hpke_ng.Context.Inversion.{open_ct-seal}
use hpke_ng.Kdf
use hpke_ng.Kdf.{Kdf}
use hpke_ng.Aead.{SealingAead, SealsLawfully, Takes}
use hpke_ng.Context.Roles.Limit.{seal_taken}
use hpke_ng.Psk.{Psk}
use hpke_ng.Kem.{CryptoRng, Kem, AuthKem, IsCorrect, AuthIsCorrect}
use hpke_ng.Schedule.Rfc.{IsFresh}
use hpke_ng.Context
use hpke_ng.Context.{Context}
use hpke_ng.Context.Roles
use hpke_ng.Hpke.Agree.{
  setup_base_agrees, setup_psk_agrees, setup_auth_agrees, setup_auth_psk_agrees,
}
use hpke_ng.Hpke.Seal.{
  seal_base, open_base, seal_psk, open_psk, seal_auth, open_auth, seal_auth_psk, open_auth_psk,
}

module _ {R : CryptoRng} {K : Kem R} {F : Kdf} (S : SealingAead) (seals : SealsLawfully S) where
  -- Two ends with one fresh context: what the one seals the other opens.
  fresh_opens :
      (c : Context K F S.aead)
      → IsFresh c
      → (aad pt : Bytes) → Takes S aad pt
      → (ct : Bytes) × ((Context.seal S c aad pt).0 ≡ ok ct)
        × ((Context.open_ct S c aad ct).0 ≡ ok pt)
        × (length ct ≡ length pt + S.aead.tag_len)
  fresh_opens c fresh aad pt takes =
      let room : (c.seq == u64_max) ≡ false = rw fresh.at_start in
      let (ct, sealed, encrypted) = seal_taken S seals c aad pt fresh.well_formed room takes in
      let opened = open_ct-seal S seals c _ aad pt fresh.well_formed sealed in
      (ct, λ i. (sealed i).0, λ i. (opened i).0, seals.length-seal c.cipher _ aad pt encrypted)

module _ {R : CryptoRng} (K : Kem R) (F : Kdf) (S : SealingAead) where
  module _ (correct : IsCorrect K) (kdf : Kdf.IsLawful F) (seals : SealsLawfully S) where
    -- Base mode, over a correct KEM, a lawful KDF and a lawful cipher: if the receiver's keys are
    -- a pair, encapsulation succeeds and the cipher takes the message, then the single-shot calls
    -- succeed, opening gives the message back, and the ciphertext is longer than the message by
    -- the tag.
    pub open_base-seal_base :
        (rng rng' : R.State) (sk_r : K.PrivateKey) (pk_r : K.PublicKey) (info : Bytes)
        (aad pt : Bytes) {ss : K.SharedSecret} {enc : K.EncappedKey}
        → correct.Paired sk_r pk_r
        → K.encap rng pk_r ≡ (ok (ss, enc), rng')
        → Takes S aad pt
        → (ct : Bytes) × (seal_base K F S rng pk_r info aad pt ≡ (ok (enc, ct), rng'))
          × (open_base K F S enc sk_r info aad ct ≡ ok pt)
          × (length ct ≡ length pt + S.aead.tag_len)
    unfolding seal_base open_base Roles.seal Roles.open_ct
    open_base-seal_base rng rng' sk_r pk_r info aad pt paired given takes =
        let (c, sent, received, fresh) =
          setup_base_agrees K F S.aead correct kdf seals.is_lawful rng rng' sk_r pk_r info paired
            given in
        let (ct, sealed, opened, size) = fresh_opens S seals c fresh aad pt takes in
        (ct, rw (sent, sealed), rw (received, opened), size)

    -- PSK mode, over a correct KEM, a lawful KDF and a lawful cipher, for every PSK: if the
    -- receiver's keys are a pair, encapsulation succeeds and the cipher takes the message, then
    -- the single-shot calls succeed, opening gives the message back, and the ciphertext is longer
    -- than the message by the tag.
    pub open_psk-seal_psk :
        (rng rng' : R.State) (sk_r : K.PrivateKey) (pk_r : K.PublicKey) (info : Bytes) (psk : Psk)
        (aad pt : Bytes) {ss : K.SharedSecret} {enc : K.EncappedKey}
        → correct.Paired sk_r pk_r
        → K.encap rng pk_r ≡ (ok (ss, enc), rng')
        → Takes S aad pt
        → (ct : Bytes) × (seal_psk K F S rng pk_r info aad pt psk ≡ (ok (enc, ct), rng'))
          × (open_psk K F S enc sk_r info aad ct psk ≡ ok pt)
          × (length ct ≡ length pt + S.aead.tag_len)
    unfolding seal_psk open_psk Roles.seal Roles.open_ct
    open_psk-seal_psk rng rng' sk_r pk_r info psk aad pt paired given takes =
        let (c, sent, received, fresh) =
          setup_psk_agrees K F S.aead correct kdf seals.is_lawful rng rng' sk_r pk_r info psk paired
            given in
        let (ct, sealed, opened, size) = fresh_opens S seals c fresh aad pt takes in
        (ct, rw (sent, sealed), rw (received, opened), size)

module _ {R : CryptoRng} (K : AuthKem R) (F : Kdf) (S : SealingAead) where
  module _ (correct : AuthIsCorrect K) (kdf : Kdf.IsLawful F) (seals : SealsLawfully S) where
    -- Auth mode, over a correct authenticated KEM, a lawful KDF and a lawful cipher: if the keys
    -- of both ends are pairs, encapsulation succeeds and the cipher takes the message, then the
    -- single-shot calls succeed, opening gives the message back, and the ciphertext is longer than
    -- the message by the tag.
    pub open_auth-seal_auth :
        (rng rng' : R.State) (sk_r sk_s : K.kem.PrivateKey) (pk_r pk_s : K.kem.PublicKey)
        (info : Bytes) (aad pt : Bytes) {ss : K.kem.SharedSecret} {enc : K.kem.EncappedKey}
        → correct.is_correct.Paired sk_r pk_r
        → correct.is_correct.Paired sk_s pk_s
        → K.auth_encap rng pk_r sk_s ≡ (ok (ss, enc), rng')
        → Takes S aad pt
        → (ct : Bytes) × (seal_auth K F S rng pk_r info aad pt sk_s ≡ (ok (enc, ct), rng'))
          × (open_auth K F S enc sk_r info aad ct pk_s ≡ ok pt)
          × (length ct ≡ length pt + S.aead.tag_len)
    unfolding seal_auth open_auth Roles.seal Roles.open_ct
    open_auth-seal_auth rng rng' sk_r sk_s pk_r pk_s info aad pt paired paired_s given takes =
        let (c, sent, received, fresh) =
          setup_auth_agrees K F S.aead correct kdf seals.is_lawful rng rng' sk_r sk_s pk_r pk_s info
            paired paired_s given in
        let (ct, sealed, opened, size) = fresh_opens S seals c fresh aad pt takes in
        (ct, rw (sent, sealed), rw (received, opened), size)

    -- AuthPSK mode, over a correct authenticated KEM, a lawful KDF and a lawful cipher, for every
    -- PSK: if the keys of both ends are pairs, encapsulation succeeds and the cipher takes the
    -- message, then the single-shot calls succeed, opening gives the message back, and the
    -- ciphertext is longer than the message by the tag.
    pub open_auth_psk-seal_auth_psk :
        (rng rng' : R.State) (sk_r sk_s : K.kem.PrivateKey) (pk_r pk_s : K.kem.PublicKey)
        (info : Bytes) (psk : Psk) (aad pt : Bytes) {ss : K.kem.SharedSecret}
        {enc : K.kem.EncappedKey}
        → correct.is_correct.Paired sk_r pk_r
        → correct.is_correct.Paired sk_s pk_s
        → K.auth_encap rng pk_r sk_s ≡ (ok (ss, enc), rng')
        → Takes S aad pt
        → (ct : Bytes) × (seal_auth_psk K F S rng pk_r info aad pt psk sk_s ≡ (ok (enc, ct), rng'))
          × (open_auth_psk K F S enc sk_r info aad ct psk pk_s ≡ ok pt)
          × (length ct ≡ length pt + S.aead.tag_len)
    unfolding seal_auth_psk open_auth_psk Roles.seal Roles.open_ct
    open_auth_psk-seal_auth_psk rng rng' sk_r sk_s pk_r pk_s info psk aad pt paired paired_s given
          takes =
        let (c, sent, received, fresh) =
          setup_auth_psk_agrees K F S.aead correct kdf seals.is_lawful rng rng' sk_r sk_s pk_r pk_s
            info psk paired paired_s given in
        let (ct, sealed, opened, size) = fresh_opens S seals c fresh aad pt takes in
        (ct, rw (sent, sealed), rw (received, opened), size)
