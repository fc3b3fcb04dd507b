-- ===== src/Hpke/Export.antt =====
-- src/lib.rs, `impl Hpke`: the single-shot exports.
use hpke_ng.Base.{ℕ}
use hpke_ng.Bytes.{Bytes}
use hpke_ng.Error.{Result, ok, ◌>>=◌}
use hpke_ng.Kdf.{Kdf}
use hpke_ng.Aead.{Aead}
use hpke_ng.Psk.{Psk}
use hpke_ng.Kem.{CryptoRng, Kem, AuthKem}
use hpke_ng.Context.Roles
use hpke_ng.Hpke.{
  setup_sender_base, setup_receiver_base, setup_sender_psk, setup_receiver_psk, setup_sender_auth,
  setup_receiver_auth, setup_sender_auth_psk, setup_receiver_auth_psk,
}

module _ {R : CryptoRng} (K : Kem R) (F : Kdf) (A : Aead) where
  unfoldable pub send_export_base :
      R.State → K.PublicKey → Bytes → Bytes → ℕ → Result (K.EncappedKey × Bytes) × R.State
  send_export_base rng pk_r info exporter_context length =
      let (started, rng') = setup_sender_base K F A rng pk_r info in
      (
        do
          (enc, ctx) ← started
          secret ← Roles.export_sender ctx exporter_context length
          ok (enc, secret),
        rng',
      )

  unfoldable pub receiver_export_base :
      K.EncappedKey → K.PrivateKey → Bytes → Bytes → ℕ → Result Bytes
  receiver_export_base enc sk_r info exporter_context length = do
    ctx ← setup_receiver_base K F A enc sk_r info
    Roles.export_receiver ctx exporter_context length

  unfoldable pub send_export_psk :
      R.State → K.PublicKey → Bytes → Psk → Bytes → ℕ → Result (K.EncappedKey × Bytes) × R.State
  send_export_psk rng pk_r info psk exporter_context length =
      let (started, rng') = setup_sender_psk K F A rng pk_r info psk in
      (
        do
          (enc, ctx) ← started
          secret ← Roles.export_sender ctx exporter_context length
          ok (enc, secret),
        rng',
      )

  unfoldable pub receiver_export_psk :
      K.EncappedKey → K.PrivateKey → Bytes → Psk → Bytes → ℕ → Result Bytes
  receiver_export_psk enc sk_r info psk exporter_context length = do
    ctx ← setup_receiver_psk K F A enc sk_r info psk
    Roles.export_receiver ctx exporter_context length

module _ {R : CryptoRng} (K : AuthKem R) (F : Kdf) (A : Aead) where
  unfoldable pub send_export_auth :
      R.State
      → K.kem.PublicKey
      → Bytes
      → K.kem.PrivateKey
      → Bytes
      → ℕ
      → Result (K.kem.EncappedKey × Bytes) × R.State
  send_export_auth rng pk_r info sk_s exporter_context length =
      let (started, rng') = setup_sender_auth K F A rng pk_r info sk_s in
      (
        do
          (enc, ctx) ← started
          secret ← Roles.export_sender ctx exporter_context length
          ok (enc, secret),
        rng',
      )

  unfoldable pub receiver_export_auth :
      K.kem.EncappedKey → K.kem.PrivateKey → Bytes → K.kem.PublicKey → Bytes → ℕ → Result Bytes
  receiver_export_auth enc sk_r info pk_s exporter_context length = do
    ctx ← setup_receiver_auth K F A enc sk_r info pk_s
    Roles.export_receiver ctx exporter_context length

  unfoldable pub send_export_auth_psk :
      R.State
      → K.kem.PublicKey
      → Bytes
      → Psk
      → K.kem.PrivateKey
      → Bytes
      → ℕ
      → Result (K.kem.EncappedKey × Bytes) × R.State
  send_export_auth_psk rng pk_r info psk sk_s exporter_context length =
      let (started, rng') = setup_sender_auth_psk K F A rng pk_r info psk sk_s in
      (
        do
          (enc, ctx) ← started
          secret ← Roles.export_sender ctx exporter_context length
          ok (enc, secret),
        rng',
      )

  unfoldable pub receiver_export_auth_psk :
      K.kem.EncappedKey
      → K.kem.PrivateKey
      → Bytes
      → Psk
      → K.kem.PublicKey
      → Bytes
      → ℕ
      → Result Bytes
  receiver_export_auth_psk enc sk_r info psk pk_s exporter_context length = do
    ctx ← setup_receiver_auth_psk K F A enc sk_r info psk pk_s
    Roles.export_receiver ctx exporter_context length
