-- ===== src/Schedule.antt =====
-- src/lib.rs: the key schedules of the PSK-free and the PSK-bearing modes.
pub mod Rfc
pub mod Outputs
pub mod Inputs
pub mod Binding
use hpke_ng.Base.{[], ◌∷◌, List}
use hpke_ng.Bytes.{Bytes, literal}
use hpke_ng.Error.{Result, ok, ◌>>=◌}
use hpke_ng.Kdf.{Kdf, labeled_extract, labeled_expand_pieces}
use hpke_ng.Aead.{Aead}
use hpke_ng.Psk.{Psk}
use hpke_ng.Kem.{CryptoRng, Kem}
use hpke_ng.Suite.{PskFreeMode, PskMode, psk_free_mode_byte, psk_mode_byte, ciphersuite}
use hpke_ng.Context
use hpke_ng.Context.{Context}

module _ {R : CryptoRng} (K : Kem R) (F : Kdf) (A : Aead) where
  -- `key_schedule_psk_free_impl`
  unfoldable pub key_schedule_psk_free : PskFreeMode → Bytes → Bytes → Result (Context K F A)
  key_schedule_psk_free m shared_secret info = do
    let suite = ciphersuite K F A
    let psk_id_hash = labeled_extract F [] suite (literal "psk_id_hash") []
    let info_hash = labeled_extract F [] suite (literal "info_hash") info
    let mode_arr : Bytes = psk_free_mode_byte m ∷ []
    let ks_pieces : List Bytes = mode_arr ∷ psk_id_hash ∷ info_hash ∷ []
    let secret = labeled_extract F shared_secret suite (literal "secret") []
    key ← labeled_expand_pieces F secret suite (literal "key") ks_pieces A.key_len
    base_nonce ← labeled_expand_pieces F secret suite (literal "base_nonce") ks_pieces A.nonce_len
    exporter_secret ← labeled_expand_pieces F secret suite (literal "exp") ks_pieces F.hash_len
    Context.new key base_nonce exporter_secret

  -- `key_schedule_psk_impl`
  unfoldable pub key_schedule_psk : PskMode → Bytes → Bytes → Psk → Result (Context K F A)
  key_schedule_psk m shared_secret info psk = do
    let suite = ciphersuite K F A
    let psk_id_hash = labeled_extract F [] suite (literal "psk_id_hash") psk.id
    let info_hash = labeled_extract F [] suite (literal "info_hash") info
    let mode_arr : Bytes = psk_mode_byte m ∷ []
    let ks_pieces : List Bytes = mode_arr ∷ psk_id_hash ∷ info_hash ∷ []
    let secret = labeled_extract F shared_secret suite (literal "secret") psk.secret
    key ← labeled_expand_pieces F secret suite (literal "key") ks_pieces A.key_len
    base_nonce ← labeled_expand_pieces F secret suite (literal "base_nonce") ks_pieces A.nonce_len
    exporter_secret ← labeled_expand_pieces F secret suite (literal "exp") ks_pieces F.hash_len
    Context.new key base_nonce exporter_secret
