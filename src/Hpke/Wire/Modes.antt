-- ===== src/Hpke/Wire/Modes.antt =====
-- src/lib.rs: proofs on two ends that exchange and store keys as bytes, in the four modes.
use hpke_ng.Base.{◌≡◌, ◌∙◌, ap, Option, none, some}
use hpke_ng.Bytes.{Bytes}
use hpke_ng.Error.{Result, ok, ◌>>=◌}
use hpke_ng.Kdf
use hpke_ng.Kdf.{Kdf}
use hpke_ng.Aead
use hpke_ng.Aead.{Aead, SealingAead, SealsLawfully}
use hpke_ng.Psk.{Psk}
use hpke_ng.Kem.{CryptoRng, Kem, AuthKem, Stores, Travels, AuthStores, AuthTravels}
use hpke_ng.Suite.{base_mode_tag, auth_mode_tag, psk_mode_tag, auth_psk_mode_tag}
use hpke_ng.Schedule.{key_schedule_psk_free, key_schedule_psk}
use hpke_ng.Schedule.Rfc.{IsFresh, key_schedule_psk_free_total, key_schedule_psk_total}
use hpke_ng.Context.Roles
use hpke_ng.Context.Roles.{SenderContext, ReceiverContext, new_receiver}
use hpke_ng.Context.Roles.Ends.{opened}
use hpke_ng.Hpke.{
  setup_sender_base, setup_receiver_base, setup_sender_psk, setup_receiver_psk, setup_sender_auth,
  setup_receiver_auth, setup_sender_auth_psk, setup_receiver_auth_psk,
}
use hpke_ng.Hpke.Seal.{
  seal_base, open_base, seal_psk, open_psk, seal_auth, open_auth, seal_auth_psk, open_auth_psk,
}
use hpke_ng.Hpke.Wire.{
  read_both, sent_as_bytes, received_as_bytes, setup_sender_with, setup_receiver_with, seal_with,
  open_with, setup_auth_sender_with, setup_auth_receiver_with, seal_auth_with, open_auth_with,
}
use hpke_ng.Hpke.Wire.Meeting.{Meets, met, sent-bind, received-bind}

-- Where the receiver's setup gives the sender's context, a sealed message opens.
module _ {R : CryptoRng} (K : Kem R) {F : Kdf} (S : SealingAead) (lawful : SealsLawfully S)
    {P Q : Type 0} (keys_s : Result P) (keys_r : Result Q)
    (sender : P → Result (K.EncappedKey × SenderContext K F S.aead))
    (receiver : K.EncappedKey → Q → Result (ReceiverContext K F S.aead))
    (meeting : (b : Bytes) (s : SenderContext K F S.aead)
      → sent_as_bytes K keys_s sender ≡ ok (b, s)
      → (received_as_bytes K keys_r receiver b ≡ ok (new_receiver s.inner)) × IsFresh s.inner) where
  opens_after :
      (aad pt : Bytes) {b ct : Bytes}
      → sent_as_bytes K keys_s
          (λ p. do (enc, ctx) ← sender p; ct ← (Roles.seal S ctx aad pt).0; ok (enc, ct))
        ≡ ok (b, ct)
      → received_as_bytes K keys_r
          (λ enc q. receiver enc q >>= λ ctx. (Roles.open_ct S ctx aad ct).0)
          b
        ≡ ok pt
  opens_after aad pt {b} {ct} h =
      let (s, begun, sealed) = sent-bind K keys_s sender (λ ctx. (Roles.seal S ctx aad pt).0) h in
      let (joined, fresh) = meeting b s begun in
      received-bind K keys_r receiver (λ ctx. (Roles.open_ct S ctx aad ct).0) b joined
      ∙ ap (λ x. x.0)
          (opened S lawful s (Roles.seal S s aad pt).1 aad pt ct fresh.well_formed
            (λ i. (sealed i, (Roles.seal S s aad pt).1)))

module _ {R : CryptoRng} (K : Kem R) (stores : Stores K) (travels : Travels K) where
  plain-Meets :
      (rng rng' rng_s : R.State) {sk : K.PrivateKey} {pk : K.PublicKey}
      → K.generate rng ≡ (ok (sk, pk), rng')
      → Meets K
          (λ pk. (K.encap rng_s pk).0)
          K.decap
          (K.pk_from_bytes (K.pk_to_bytes pk))
          (K.sk_from_bytes (K.sk_to_bytes sk))
  plain-Meets rng rng' rng_s {pk = pk} made =
      let (loaded, read, agrees) = stores.read_back rng rng' made in
      record {
        p = pk;
        q = loaded;
        sender_reads = travels.pk_read_back rng rng' made;
        receiver_reads = read;
        enc_read_back = λ ss enc given.
            travels.enc_read_back rng_s (K.encap rng_s pk).1 pk
              (λ i. (given i, (K.encap rng_s pk).1));
        agrees = λ ss enc given.
            agrees rng_s (K.encap rng_s pk).1 ss enc (λ i. (given i, (K.encap rng_s pk).1));
      }

  module _ (F : Kdf) (kdf : Kdf.IsLawful F) where
    -- With a generated key pair, the setups of two ends that exchange bytes give one fresh context.
    pub sessions :
        (A : Aead)
        → Aead.IsLawful A
        → (psk : Option Psk) (rng rng' rng_s : R.State) (sk : K.PrivateKey) (pk : K.PublicKey)
          (info : Bytes)
        → K.generate rng ≡ (ok (sk, pk), rng')
        → (b : Bytes) (s : SenderContext K F A)
        → sent_as_bytes K
            (K.pk_from_bytes (K.pk_to_bytes pk))
            (setup_sender_with K F A psk rng_s info)
          ≡ ok (b, s)
        → (received_as_bytes K
              (K.sk_from_bytes (K.sk_to_bytes sk))
              (setup_receiver_with K F A psk info)
              b
            ≡ ok (new_receiver s.inner))
          × IsFresh s.inner
    unfolding setup_sender_base setup_receiver_base setup_sender_psk setup_receiver_psk
    sessions A aead none rng rng' rng_s sk pk info made b s h =
        met K F A (plain-Meets rng rng' rng_s made)
          (λ ss. key_schedule_psk_free K F A base_mode_tag (K.ss_as_ref ss) info)
          (λ ss. key_schedule_psk_free_total K F A kdf aead base_mode_tag (K.ss_as_ref ss) info) h
    sessions A aead (some psk) rng rng' rng_s sk pk info made b s h =
        met K F A (plain-Meets rng rng' rng_s made)
          (λ ss. key_schedule_psk K F A psk_mode_tag (K.ss_as_ref ss) info psk)
          (λ ss. key_schedule_psk_total K F A kdf aead psk_mode_tag (K.ss_as_ref ss) info psk) h

    -- A message that is sealed in one call opens in one call.
    pub delivers_bytes :
        (S : SealingAead)
        → SealsLawfully S
        → (psk : Option Psk) (rng rng' rng_s : R.State) (sk : K.PrivateKey) (pk : K.PublicKey)
          (info aad pt : Bytes) (enc ct : Bytes)
        → K.generate rng ≡ (ok (sk, pk), rng')
        → sent_as_bytes K
            (K.pk_from_bytes (K.pk_to_bytes pk))
            (seal_with K F S psk rng_s info aad pt)
          ≡ ok (enc, ct)
        → received_as_bytes K
            (K.sk_from_bytes (K.sk_to_bytes sk))
            (open_with K F S psk info aad ct)
            enc
          ≡ ok pt
    unfolding seal_base open_base seal_psk open_psk
    delivers_bytes S lawful none rng rng' rng_s sk pk info aad pt enc ct made h =
        opens_after K S lawful (K.pk_from_bytes (K.pk_to_bytes pk))
          (K.sk_from_bytes (K.sk_to_bytes sk)) (setup_sender_with K F S.aead none rng_s info)
          (setup_receiver_with K F S.aead none info)
          (sessions S.aead lawful.is_lawful none rng rng' rng_s sk pk info made) aad pt h
    delivers_bytes S lawful (some psk) rng rng' rng_s sk pk info aad pt enc ct made h =
        opens_after K S lawful (K.pk_from_bytes (K.pk_to_bytes pk))
          (K.sk_from_bytes (K.sk_to_bytes sk)) (setup_sender_with K F S.aead (some psk) rng_s info)
          (setup_receiver_with K F S.aead (some psk) info)
          (sessions S.aead lawful.is_lawful (some psk) rng rng' rng_s sk pk info made) aad pt h

module _ {R : CryptoRng} (K : AuthKem R) (stores : AuthStores K) (travels : AuthTravels K) where
  auth-Meets :
      (rng rng' rng_s rng_s' rng_e : R.State) {sk_r sk_s : K.kem.PrivateKey}
      {pk_r pk_s : K.kem.PublicKey}
      → K.kem.generate rng ≡ (ok (sk_r, pk_r), rng')
      → K.kem.generate rng_s ≡ (ok (sk_s, pk_s), rng_s')
      → Meets K.kem
          (λ keys. (K.auth_encap rng_e keys.0 keys.1).0)
          (λ enc keys. K.auth_decap enc keys.1 keys.0)
          (read_both
            (K.kem.pk_from_bytes (K.kem.pk_to_bytes pk_r))
            (K.kem.sk_from_bytes (K.kem.sk_to_bytes sk_s)))
          (read_both
            (K.kem.pk_from_bytes (K.kem.pk_to_bytes pk_s))
            (K.kem.sk_from_bytes (K.kem.sk_to_bytes sk_r)))
  auth-Meets rng rng' rng_s rng_s' rng_e {pk_r = pk_r} {pk_s = pk_s} made made_s =
      let (loaded_r, loaded_s, read_r, read_s, agrees) =
        stores.auth_read_back rng rng' rng_s rng_s' made made_s in
      let after = (K.auth_encap rng_e pk_r loaded_s).1 in
      record {
        p = (pk_r, loaded_s);
        q = (pk_s, loaded_r);
        sender_reads = rw (travels.travels.pk_read_back rng rng' made, read_s);
        receiver_reads = rw (travels.travels.pk_read_back rng_s rng_s' made_s, read_r);
        enc_read_back = λ ss enc given.
            travels.auth_enc_read_back rng_e after pk_r loaded_s (λ i. (given i, after));
        agrees = λ ss enc given. agrees rng_e after ss enc (λ i. (given i, after));
      }

  module _ (F : Kdf) (kdf : Kdf.IsLawful F) where
    pub auth_sessions :
        (A : Aead)
        → Aead.IsLawful A
        → (psk : Option Psk) (rng rng' rng_s rng_s' rng_e : R.State) (sk_r sk_s : K.kem.PrivateKey)
          (pk_r pk_s : K.kem.PublicKey) (info : Bytes)
        → K.kem.generate rng ≡ (ok (sk_r, pk_r), rng')
        → K.kem.generate rng_s ≡ (ok (sk_s, pk_s), rng_s')
        → (b : Bytes) (s : SenderContext K.kem F A)
        → sent_as_bytes K.kem
            (read_both
              (K.kem.pk_from_bytes (K.kem.pk_to_bytes pk_r))
              (K.kem.sk_from_bytes (K.kem.sk_to_bytes sk_s)))
            (setup_auth_sender_with K F A psk rng_e info)
          ≡ ok (b, s)
        → (received_as_bytes K.kem
              (read_both
                (K.kem.pk_from_bytes (K.kem.pk_to_bytes pk_s))
                (K.kem.sk_from_bytes (K.kem.sk_to_bytes sk_r)))
              (setup_auth_receiver_with K F A psk info)
              b
            ≡ ok (new_receiver s.inner))
          × IsFresh s.inner
    unfolding setup_sender_auth setup_receiver_auth setup_sender_auth_psk setup_receiver_auth_psk
    auth_sessions A aead none rng rng' rng_s rng_s' rng_e sk_r sk_s pk_r pk_s info made made_s b s
          h =
        met K.kem F A (auth-Meets rng rng' rng_s rng_s' rng_e made made_s)
          (λ ss. key_schedule_psk_free K.kem F A auth_mode_tag (K.kem.ss_as_ref ss) info)
          (λ ss.
            key_schedule_psk_free_total K.kem F A kdf aead auth_mode_tag (K.kem.ss_as_ref ss) info)
          h
    auth_sessions A aead (some psk) rng rng' rng_s rng_s' rng_e sk_r sk_s pk_r pk_s info made made_s
          b s h =
        met K.kem F A (auth-Meets rng rng' rng_s rng_s' rng_e made made_s)
          (λ ss. key_schedule_psk K.kem F A auth_psk_mode_tag (K.kem.ss_as_ref ss) info psk)
          (λ ss.
            key_schedule_psk_total K.kem F A kdf aead auth_psk_mode_tag (K.kem.ss_as_ref ss) info
              psk)
          h

    pub auth_delivers_bytes :
        (S : SealingAead)
        → SealsLawfully S
        → (psk : Option Psk) (rng rng' rng_s rng_s' rng_e : R.State) (sk_r sk_s : K.kem.PrivateKey)
          (pk_r pk_s : K.kem.PublicKey) (info aad pt : Bytes) (enc ct : Bytes)
        → K.kem.generate rng ≡ (ok (sk_r, pk_r), rng')
        → K.kem.generate rng_s ≡ (ok (sk_s, pk_s), rng_s')
        → sent_as_bytes K.kem
            (read_both
              (K.kem.pk_from_bytes (K.kem.pk_to_bytes pk_r))
              (K.kem.sk_from_bytes (K.kem.sk_to_bytes sk_s)))
            (seal_auth_with K F S psk rng_e info aad pt)
          ≡ ok (enc, ct)
        → received_as_bytes K.kem
            (read_both
              (K.kem.pk_from_bytes (K.kem.pk_to_bytes pk_s))
              (K.kem.sk_from_bytes (K.kem.sk_to_bytes sk_r)))
            (open_auth_with K F S psk info aad ct)
            enc
          ≡ ok pt
    unfolding seal_auth open_auth seal_auth_psk open_auth_psk
    auth_delivers_bytes S lawful none rng rng' rng_s rng_s' rng_e sk_r sk_s pk_r pk_s info aad pt
          enc ct made made_s h =
        opens_after K.kem S lawful
          (read_both (K.kem.pk_from_bytes (K.kem.pk_to_bytes pk_r))
            (K.kem.sk_from_bytes (K.kem.sk_to_bytes sk_s)))
          (read_both (K.kem.pk_from_bytes (K.kem.pk_to_bytes pk_s))
            (K.kem.sk_from_bytes (K.kem.sk_to_bytes sk_r)))
          (setup_auth_sender_with K F S.aead none rng_e info)
          (setup_auth_receiver_with K F S.aead none info)
          (auth_sessions S.aead lawful.is_lawful none rng rng' rng_s rng_s' rng_e sk_r sk_s pk_r
            pk_s info made made_s)
          aad pt h
    auth_delivers_bytes S lawful (some psk) rng rng' rng_s rng_s' rng_e sk_r sk_s pk_r pk_s info aad
          pt enc ct made made_s h =
        opens_after K.kem S lawful
          (read_both (K.kem.pk_from_bytes (K.kem.pk_to_bytes pk_r))
            (K.kem.sk_from_bytes (K.kem.sk_to_bytes sk_s)))
          (read_both (K.kem.pk_from_bytes (K.kem.pk_to_bytes pk_s))
            (K.kem.sk_from_bytes (K.kem.sk_to_bytes sk_r)))
          (setup_auth_sender_with K F S.aead (some psk) rng_e info)
          (setup_auth_receiver_with K F S.aead (some psk) info)
          (auth_sessions S.aead lawful.is_lawful (some psk) rng rng' rng_s rng_s' rng_e sk_r sk_s
            pk_r pk_s info made made_s)
          aad pt h
