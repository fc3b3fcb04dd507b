-- ===== src/Hpke/Seal.antt =====
-- src/lib.rs, `impl Hpke`: the single-shot calls that encrypt and decrypt.
use hpke_ng.Bytes.{Bytes}
use hpke_ng.Error.{Result, ok, ◌>>=◌}
use hpke_ng.Kdf.{Kdf}
use hpke_ng.Aead.{SealingAead}
use hpke_ng.Psk.{Psk}
use hpke_ng.Kem.{CryptoRng, Kem, AuthKem}
use hpke_ng.Context.Roles
use hpke_ng.Hpke.{
  setup_sender_base, setup_receiver_base, setup_sender_psk, setup_receiver_psk, setup_sender_auth,
  setup_receiver_auth, setup_sender_auth_psk, setup_receiver_auth_psk,
}

module _ {R : CryptoRng} (K : Kem R) (F : Kdf) (S : SealingAead) where
  unfoldable pub seal_base :
      R.State → K.PublicKey → Bytes → Bytes → Bytes → Result (K.EncappedKey × Bytes) × R.State
  seal_base rng pk_r info aad pt =
      let (started, rng') = setup_sender_base K F S.aead rng pk_r info in
      (do (enc, ctx) ← started; ct ← (Roles.seal S ctx aad pt).0; ok (enc, ct), rng')

  unfoldable pub open_base : K.EncappedKey → K.PrivateKey → Bytes → Bytes → Bytes → Result Bytes
  open_base enc sk_r info aad ct = do
    ctx ← setup_receiver_base K F S.aead enc sk_r info
    (Roles.open_ct S ctx aad ct).0

  unfoldable pub seal_psk :
      R.State → K.PublicKey → Bytes → Bytes → Bytes → Psk → Result (K.EncappedKey × Bytes) × R.State
  seal_psk rng pk_r info aad pt psk =
      let (started, rng') = setup_sender_psk K F S.aead rng pk_r info psk in
      (do (enc, ctx) ← started; ct ← (Roles.seal S ctx aad pt).0; ok (enc, ct), rng')

  unfoldable pub open_psk :
      K.EncappedKey → K.PrivateKey → Bytes → Bytes → Bytes → Psk → Result Bytes
  open_psk enc sk_r info aad ct psk = do
    ctx ← setup_receiver_psk K F S.aead enc sk_r info psk
    (Roles.open_ct S ctx aad ct).0

module _ {R : CryptoRng} (K : AuthKem R) (F : Kdf) (S : SealingAead) where
  unfoldable pub seal_auth :
      R.State
      → K.kem.PublicKey
      → Bytes
      → Bytes
      → Bytes
      → K.kem.PrivateKey
      → Result (K.kem.EncappedKey × Bytes) × R.State
  seal_auth rng pk_r info aad pt sk_s =
      let (started, rng') = setup_sender_auth K F S.aead rng pk_r info sk_s in
      (do (enc, ctx) ← started; ct ← (Roles.seal S ctx aad pt).0; ok (enc, ct), rng')

  unfoldable pub open_auth :
      K.kem.EncappedKey → K.kem.PrivateKey → Bytes → Bytes → Bytes → K.kem.PublicKey → Result Bytes
  open_auth enc sk_r info aad ct pk_s = do
    ctx ← setup_receiver_auth K F S.aead enc sk_r info pk_s
    (Roles.open_ct S ctx aad ct).0

  unfoldable pub seal_auth_psk :
      R.State
      → K.kem.PublicKey
      → Bytes
      → Bytes
      → Bytes
      → Psk
      → K.kem.PrivateKey
      → Result (K.kem.EncappedKey × Bytes) × R.State
  seal_auth_psk rng pk_r info aad pt psk sk_s =
      let (started, rng') = setup_sender_auth_psk K F S.aead rng pk_r info psk sk_s in
      (do (enc, ctx) ← started; ct ← (Roles.seal S ctx aad pt).0; ok (enc, ct), rng')

  unfoldable pub open_auth_psk :
      K.kem.EncappedKey
      → K.kem.PrivateKey
      → Bytes
      → Bytes
      → Bytes
      → Psk
      → K.kem.PublicKey
      → Result Bytes
  open_auth_psk enc sk_r info aad ct psk pk_s = do
    ctx ← setup_receiver_auth_psk K F S.aead enc sk_r info psk pk_s
    (Roles.open_ct S ctx aad ct).0
