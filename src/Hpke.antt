-- ===== src/Hpke.antt =====
-- src/lib.rs, `impl Hpke`: the setup functions of the four modes.
pub mod Seal
pub mod Export
pub mod Agree
pub mod RoundTrip
pub mod Secrets
pub mod Outcome
pub mod Delivered
pub mod Wire
use hpke_ng.Bytes.{Bytes}
use hpke_ng.Error.{Result, ok, ◌>>=◌, map_ok}
use hpke_ng.Kdf.{Kdf}
use hpke_ng.Aead.{Aead}
use hpke_ng.Psk.{Psk}
use hpke_ng.Kem.{CryptoRng, Kem, AuthKem}
use hpke_ng.Suite.{base_mode_tag, auth_mode_tag, psk_mode_tag, auth_psk_mode_tag}
use hpke_ng.Schedule.{key_schedule_psk_free, key_schedule_psk}
use hpke_ng.Context.Roles.{SenderContext, ReceiverContext, new_sender, new_receiver}

module _ {R : CryptoRng} (K : Kem R) (F : Kdf) (A : Aead) where
  -- What a sender's setup gives: the encapsulated key and the context.
  abbrev pub SenderSetup : Type 0
  SenderSetup = Result (K.EncappedKey × SenderContext K F A) × R.State

  unfoldable pub setup_sender_base : R.State → K.PublicKey → Bytes → SenderSetup
  setup_sender_base rng pk_r info =
      let (encapped, rng') = K.encap rng pk_r in
      (
        do
          (ss, enc) ← encapped
          ctx ← key_schedule_psk_free K F A base_mode_tag (K.ss_as_ref ss) info
          ok (enc, new_sender ctx),
        rng',
      )

  unfoldable pub setup_receiver_base :
      K.EncappedKey → K.PrivateKey → Bytes → Result (ReceiverContext K F A)
  setup_receiver_base enc sk_r info = do
    ss ← K.decap enc sk_r
    map_ok new_receiver (key_schedule_psk_free K F A base_mode_tag (K.ss_as_ref ss) info)

  unfoldable pub setup_sender_psk : R.State → K.PublicKey → Bytes → Psk → SenderSetup
  setup_sender_psk rng pk_r info psk =
      let (encapped, rng') = K.encap rng pk_r in
      (
        do
          (ss, enc) ← encapped
          ctx ← key_schedule_psk K F A psk_mode_tag (K.ss_as_ref ss) info psk
          ok (enc, new_sender ctx),
        rng',
      )

  unfoldable pub setup_receiver_psk :
      K.EncappedKey → K.PrivateKey → Bytes → Psk → Result (ReceiverContext K F A)
  setup_receiver_psk enc sk_r info psk = do
    ss ← K.decap enc sk_r
    map_ok new_receiver (key_schedule_psk K F A psk_mode_tag (K.ss_as_ref ss) info psk)

module _ {R : CryptoRng} (K : AuthKem R) (F : Kdf) (A : Aead) where
  unfoldable pub setup_sender_auth :
      R.State → K.kem.PublicKey → Bytes → K.kem.PrivateKey → SenderSetup K.kem F A
  setup_sender_auth rng pk_r info sk_s =
      let (encapped, rng') = K.auth_encap rng pk_r sk_s in
      (
        do
          (ss, enc) ← encapped
          ctx ← key_schedule_psk_free K.kem F A auth_mode_tag (K.kem.ss_as_ref ss) info
          ok (enc, new_sender ctx),
        rng',
      )

  unfoldable pub setup_receiver_auth :
      K.kem.EncappedKey
      → K.kem.PrivateKey
      → Bytes
      → K.kem.PublicKey
      → Result (ReceiverContext K.kem F A)
  setup_receiver_auth enc sk_r info pk_s = do
    ss ← K.auth_decap enc sk_r pk_s
    map_ok new_receiver (key_schedule_psk_free K.kem F A auth_mode_tag (K.kem.ss_as_ref ss) info)

  unfoldable pub setup_sender_auth_psk :
      R.State → K.kem.PublicKey → Bytes → Psk → K.kem.PrivateKey → SenderSetup K.kem F A
  setup_sender_auth_psk rng pk_r info psk sk_s =
      let (encapped, rng') = K.auth_encap rng pk_r sk_s in
      (
        do
          (ss, enc) ← encapped
          ctx ← key_schedule_psk K.kem F A auth_psk_mode_tag (K.kem.ss_as_ref ss) info psk
          ok (enc, new_sender ctx),
        rng',
      )

  unfoldable pub setup_receiver_auth_psk :
      K.kem.EncappedKey
      → K.kem.PrivateKey
      → Bytes
      → Psk
      → K.kem.PublicKey
      → Result (ReceiverContext K.kem F A)
  setup_receiver_auth_psk enc sk_r info psk pk_s = do
    ss ← K.auth_decap enc sk_r pk_s
    map_ok new_receiver (key_schedule_psk K.kem F A auth_psk_mode_tag (K.kem.ss_as_ref ss) info psk)
