-- ===== src/Hpke/Wire.antt =====
-- src/lib.rs: two ends that exchange and store keys as bytes, in the four modes.
pub mod Meeting
pub mod Modes
use hpke_ng.Base.{Option, none, some}
use hpke_ng.Bytes.{Bytes}
use hpke_ng.Error.{Result, ok, ◌>>=◌}
use hpke_ng.Kdf.{Kdf}
use hpke_ng.Aead.{Aead, SealingAead}
use hpke_ng.Psk.{Psk}
use hpke_ng.Kem.{CryptoRng, Kem, AuthKem}
use hpke_ng.Context.Roles.{SenderContext, ReceiverContext}
use hpke_ng.Hpke.{
  setup_sender_base, setup_receiver_base, setup_sender_psk, setup_receiver_psk, setup_sender_auth,
  setup_receiver_auth, setup_sender_auth_psk, setup_receiver_auth_psk,
}
use hpke_ng.Hpke.Seal.{
  seal_base, open_base, seal_psk, open_psk, seal_auth, open_auth, seal_auth_psk, open_auth_psk,
}

abbrev pub read_both : {A B : Type 0} → Result A → Result B → Result (A × B)
read_both a b = do x ← a; y ← b; ok (x, y)

module _ {R : CryptoRng} (K : Kem R) where
  -- A sender that reads its keys, and gives the encapsulated key as bytes.
  abbrev pub sent_as_bytes :
      {P X : Type 0} → Result P → (P → Result (K.EncappedKey × X)) → Result (Bytes × X)
  sent_as_bytes keys call = do p ← keys; (enc, x) ← call p; ok (K.enc_as_ref enc, x)

  -- A receiver that reads its keys and the encapsulated key.
  abbrev pub received_as_bytes :
      {Q X : Type 0} → Result Q → (K.EncappedKey → Q → Result X) → Bytes → Result X
  received_as_bytes keys call enc_bytes = do q ← keys; enc ← K.enc_from_bytes enc_bytes; call enc q

-- Base mode, or PSK mode with a PSK.
module _ {R : CryptoRng} (K : Kem R) (F : Kdf) (A : Aead) where
  abbrev pub setup_sender_with :
      Option Psk → R.State → Bytes → K.PublicKey → Result (K.EncappedKey × SenderContext K F A)
  setup_sender_with none rng info pk = (setup_sender_base K F A rng pk info).0
  setup_sender_with (some psk) rng info pk = (setup_sender_psk K F A rng pk info psk).0

  abbrev pub setup_receiver_with :
      Option Psk → Bytes → K.EncappedKey → K.PrivateKey → Result (ReceiverContext K F A)
  setup_receiver_with none info enc sk = setup_receiver_base K F A enc sk info
  setup_receiver_with (some psk) info enc sk = setup_receiver_psk K F A enc sk info psk

module _ {R : CryptoRng} (K : Kem R) (F : Kdf) (S : SealingAead) where
  abbrev pub seal_with :
      Option Psk → R.State → Bytes → Bytes → Bytes → K.PublicKey → Result (K.EncappedKey × Bytes)
  seal_with none rng info aad pt pk = (seal_base K F S rng pk info aad pt).0
  seal_with (some psk) rng info aad pt pk = (seal_psk K F S rng pk info aad pt psk).0

  abbrev pub open_with :
      Option Psk → Bytes → Bytes → Bytes → K.EncappedKey → K.PrivateKey → Result Bytes
  open_with none info aad ct enc sk = open_base K F S enc sk info aad ct
  open_with (some psk) info aad ct enc sk = open_psk K F S enc sk info aad ct psk

-- Auth mode, or AuthPSK mode with a PSK. The keys are the other end's public and one's own private
-- key.
module _ {R : CryptoRng} (K : AuthKem R) (F : Kdf) (A : Aead) where
  abbrev pub setup_auth_sender_with :
      Option Psk
      → R.State
      → Bytes
      → K.kem.PublicKey × K.kem.PrivateKey
      → Result (K.kem.EncappedKey × SenderContext K.kem F A)
  setup_auth_sender_with none rng info (pk_r, sk_s) = (setup_sender_auth K F A rng pk_r info sk_s).0
  setup_auth_sender_with (some psk) rng info (pk_r, sk_s) =
      (setup_sender_auth_psk K F A rng pk_r info psk sk_s).0

  abbrev pub setup_auth_receiver_with :
      Option Psk
      → Bytes
      → K.kem.EncappedKey
      → K.kem.PublicKey × K.kem.PrivateKey
      → Result (ReceiverContext K.kem F A)
  setup_auth_receiver_with none info enc (pk_s, sk_r) = setup_receiver_auth K F A enc sk_r info pk_s
  setup_auth_receiver_with (some psk) info enc (pk_s, sk_r) =
      setup_receiver_auth_psk K F A enc sk_r info psk pk_s

module _ {R : CryptoRng} (K : AuthKem R) (F : Kdf) (S : SealingAead) where
  abbrev pub seal_auth_with :
      Option Psk
      → R.State
      → Bytes
      → Bytes
      → Bytes
      → K.kem.PublicKey × K.kem.PrivateKey
      → Result (K.kem.EncappedKey × Bytes)
  seal_auth_with none rng info aad pt (pk_r, sk_s) = (seal_auth K F S rng pk_r info aad pt sk_s).0
  seal_auth_with (some psk) rng info aad pt (pk_r, sk_s) =
      (seal_auth_psk K F S rng pk_r info aad pt psk sk_s).0

  abbrev pub open_auth_with :
      Option Psk
      → Bytes
      → Bytes
      → Bytes
      → K.kem.EncappedKey
      → K.kem.PublicKey × K.kem.PrivateKey
      → Result Bytes
  open_auth_with none info aad ct enc (pk_s, sk_r) = open_auth K F S enc sk_r info aad ct pk_s
  open_auth_with (some psk) info aad ct enc (pk_s, sk_r) =
      open_auth_psk K F S enc sk_r info aad ct psk pk_s
