-- ===== src/Suites/Sessions.antt =====
-- src/lib.rs, src/context.rs: proofs on sessions of many messages in the suites that the library
-- offers.
use hpke_ng.Base.{ℕ, ◌≡◌, Option, List, []}
use hpke_ng.Bytes.{Bytes}
use hpke_ng.Error.{Result, ok}
use hpke_ng.Kdf.{Kdf}
use hpke_ng.Aead.{SealingAead, SealsLawfully}
use hpke_ng.Psk.{Psk}
use hpke_ng.Kem.{CryptoRng, Kem}
use hpke_ng.Kem.Instances.{Crates}
use hpke_ng.Schedule.Rfc.{IsFresh}
use hpke_ng.Context.Roles.{
  SenderContext, ReceiverContext, new_receiver, export_sender, export_receiver,
}
use hpke_ng.Context.Roles.Channel.{Event, Fifo, Channel, Steps, start, queue}
use hpke_ng.Context.Roles.Channel.Queue.{Channel-Fifo}
use hpke_ng.Context.Roles.Channel.Exports.{Steps-exports}
use hpke_ng.Hpke.Wire.{
  read_both, sent_as_bytes, received_as_bytes, setup_sender_with, setup_receiver_with,
  setup_auth_sender_with, setup_auth_receiver_with,
}
use hpke_ng.Hpke.Wire.Modes.{sessions, auth_sessions}
use hpke_ng.Suites.{
  AuthKemName, KemName, KdfName, AeadName, CipherCrates, SuiteDocs, auth_kem_named, kem_named,
  kdf_named, aead_named,
}
use hpke_ng.Suites.Laws.{
  kdf_named-IsLawful, aead_named-SealsLawfully, auth_kem_named-AuthStores,
  auth_kem_named-AuthTravels, kem_named-Stores, kem_named-Travels,
}

-- The receiver's setup has given the sender's context; the messages that the two then exchange are
-- those of a queue; and they export the same.
abbrev pub InSession :
    {R : CryptoRng} {K : Kem R} {F : Kdf} (S : SealingAead)
    → Result (ReceiverContext K F S.aead)
    → SenderContext K F S.aead
    → List Event
    → Channel K F S.aead
    → Type 0
InSession S receiver s events d =
    (receiver ≡ ok (start S s.inner).receiver)
    × Fifo [] events (queue S d)
    × ((exporter_context : Bytes) (n : ℕ)
        → export_sender d.sender exporter_context n ≡ export_receiver d.receiver exporter_context n)

in_session :
    {R : CryptoRng} {K : Kem R} {F : Kdf} (S : SealingAead)
    → SealsLawfully S
    → (receiver : Result (ReceiverContext K F S.aead)) (s : SenderContext K F S.aead)
      {events : List Event} {d : Channel K F S.aead}
    → (receiver ≡ ok (new_receiver s.inner)) × IsFresh s.inner
    → Steps S (start S s.inner) events d
    → InSession S receiver s events d
in_session S lawful receiver s (joined, fresh) steps =
    (joined, Channel-Fifo S lawful fresh.well_formed steps, Steps-exports S steps)

module _ {R : CryptoRng} (c : Crates R) (a : CipherCrates) (docs : SuiteDocs c a) where
  -- Over crates and a generator that behave as documented, in each of the 81 suites of a KEM, a
  -- KDF and a cipher that the library offers, in base and in PSK mode, with a generated key pair:
  -- if a sender that reads the public key from bytes sets up, a receiver that reads its private
  -- key and the encapsulated key sets up with the sender's context; in every run of the two over a
  -- transport that keeps the order and adds only messages that the receiver refuses, the messages
  -- sent and the results received are those of a queue; and at its end both export the same
  -- secrets.
  pub suites_session :
      (k : KemName) (f : KdfName) (s : AeadName) (psk : Option Psk) (rng rng' rng_s : R.State)
      (sk : (kem_named c k).PrivateKey) (pk : (kem_named c k).PublicKey) (info enc : Bytes)
      (ctx : SenderContext (kem_named c k) (kdf_named c f) (aead_named a s).aead)
      {events : List Event} {d : Channel (kem_named c k) (kdf_named c f) (aead_named a s).aead}
      → let K = kem_named c k in
        let F = kdf_named c f in
        let S = aead_named a s in
        K.generate rng ≡ (ok (sk, pk), rng')
        → sent_as_bytes K
            (K.pk_from_bytes (K.pk_to_bytes pk))
            (setup_sender_with K F S.aead psk rng_s info)
          ≡ ok (enc, ctx)
        → Steps S (start S ctx.inner) events d
        → InSession S
            (received_as_bytes K
              (K.sk_from_bytes (K.sk_to_bytes sk))
              (setup_receiver_with K F S.aead psk info)
              enc)
            ctx
            events
            d
  suites_session k f s psk rng rng' rng_s sk pk info enc ctx made h steps =
      let lawful = aead_named-SealsLawfully c a docs s in
      in_session (aead_named a s) lawful _ ctx
        (sessions (kem_named c k) (kem_named-Stores c a docs k) (kem_named-Travels c a docs k)
          (kdf_named c f) (kdf_named-IsLawful c a docs f) (aead_named a s).aead lawful.is_lawful psk
          rng rng' rng_s sk pk info made enc ctx h)
        steps

  -- Over crates and a generator that behave as documented, in each of the 54 suites with a KEM
  -- over a group, in Auth and in AuthPSK mode, with two generated key pairs: if a sender that
  -- reads its private and the receiver's public key from bytes sets up, a receiver that reads its
  -- private key, the sender's public key and the encapsulated key sets up with the sender's
  -- context; in every run of the two over a transport that keeps the order and adds only messages
  -- that the receiver refuses, the messages sent and the results received are those of a queue;
  -- and at its end both export the same secrets.
  pub suites_session_auth :
      (k : AuthKemName) (f : KdfName) (s : AeadName) (psk : Option Psk)
      (rng rng' rng_s rng_s' rng_e : R.State) (sk_r sk_s : (auth_kem_named c k).kem.PrivateKey)
      (pk_r pk_s : (auth_kem_named c k).kem.PublicKey) (info enc : Bytes)
      (ctx : SenderContext (auth_kem_named c k).kem (kdf_named c f) (aead_named a s).aead)
      {events : List Event}
      {d : Channel (auth_kem_named c k).kem (kdf_named c f) (aead_named a s).aead}
      → let K = auth_kem_named c k in
        let F = kdf_named c f in
        let S = aead_named a s in
        K.kem.generate rng ≡ (ok (sk_r, pk_r), rng')
        → K.kem.generate rng_s ≡ (ok (sk_s, pk_s), rng_s')
        → sent_as_bytes K.kem
            (read_both
              (K.kem.pk_from_bytes (K.kem.pk_to_bytes pk_r))
              (K.kem.sk_from_bytes (K.kem.sk_to_bytes sk_s)))
            (setup_auth_sender_with K F S.aead psk rng_e info)
          ≡ ok (enc, ctx)
        → Steps S (start S ctx.inner) events d
        → InSession S
            (received_as_bytes K.kem
              (read_both
                (K.kem.pk_from_bytes (K.kem.pk_to_bytes pk_s))
                (K.kem.sk_from_bytes (K.kem.sk_to_bytes sk_r)))
              (setup_auth_receiver_with K F S.aead psk info)
              enc)
            ctx
            events
            d
  suites_session_auth k f s psk rng rng' rng_s rng_s' rng_e sk_r sk_s pk_r pk_s info enc ctx made
        made_s h steps =
      let lawful = aead_named-SealsLawfully c a docs s in
      in_session (aead_named a s) lawful _ ctx
        (auth_sessions (auth_kem_named c k) (auth_kem_named-AuthStores c a docs k)
          (auth_kem_named-AuthTravels c a docs k) (kdf_named c f) (kdf_named-IsLawful c a docs f)
          (aead_named a s).aead lawful.is_lawful psk rng rng' rng_s rng_s' rng_e sk_r sk_s pk_r pk_s
          info made made_s enc ctx h)
        steps
