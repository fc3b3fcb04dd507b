-- ===== src/Suite.antt =====
-- src/lib.rs: the mode tags with their bytes, and the suite identifier.
use hpke_ng.Base.{ℕ, ◌<◌, ◌++◌, ◌≡◌, refl, length, length-append, append_inj, arith}
use hpke_ng.Bytes.{Bytes, literal, to_be_bytes}
use hpke_ng.Bytes.BigEndian.{length-to_be_bytes, to_be_bytes_inj}
use hpke_ng.Kdf.{Kdf}
use hpke_ng.Aead.{Aead}
use hpke_ng.Kem.{CryptoRng, Kem}

-- The tags with the marker `PskFreeMode`, and those with the marker `PskMode`.
pub data PskFreeMode : Type 0 where
  base_mode_tag auth_mode_tag : PskFreeMode

pub data PskMode : Type 0 where
  psk_mode_tag auth_psk_mode_tag : PskMode

unfoldable pub psk_free_mode_byte : PskFreeMode → ℕ
psk_free_mode_byte base_mode_tag = 0x00
psk_free_mode_byte auth_mode_tag = 0x02

unfoldable pub psk_mode_byte : PskMode → ℕ
psk_mode_byte psk_mode_tag = 0x01
psk_mode_byte auth_psk_mode_tag = 0x03

-- The four parts fill the ten bytes of the array.
unfoldable pub ciphersuite : {R : CryptoRng} → Kem R → Kdf → Aead → Bytes
ciphersuite K F A =
    literal "HPKE" ++ (to_be_bytes 2 K.id ++ (to_be_bytes 2 F.id ++ to_be_bytes 2 A.id))

module _ {R : CryptoRng} where
  pub length-ciphersuite : (K : Kem R) (F : Kdf) (A : Aead) → length (ciphersuite K F A) ≡ 10
  unfolding ciphersuite
  length-ciphersuite K F A = omega (
    arith,
    length-append (to_be_bytes 2 K.id) (to_be_bytes 2 F.id ++ to_be_bytes 2 A.id),
    length-append (to_be_bytes 2 F.id) (to_be_bytes 2 A.id),
    length-to_be_bytes 2 K.id,
    length-to_be_bytes 2 F.id,
    length-to_be_bytes 2 A.id,
  )

  -- Suites whose identifiers are each a `u16` share the ten bytes of the suite identifier only if
  -- their KEM, KDF and AEAD identifiers agree.
  pub ciphersuite_inj :
      (K K' : Kem R) (F F' : Kdf) (A A' : Aead)
      → (K.id < 65536) × (F.id < 65536) × (A.id < 65536)
      → (K'.id < 65536) × (F'.id < 65536) × (A'.id < 65536)
      → ciphersuite K F A ≡ ciphersuite K' F' A'
      → (K.id ≡ K'.id) × (F.id ≡ F'.id) × (A.id ≡ A'.id)
  unfolding ciphersuite
  ciphersuite_inj K K' F F' A A' h h' e =
      let width : (a b : ℕ) → length (to_be_bytes 2 a) ≡ length (to_be_bytes 2 b) =
        λ a b. omega (arith, length-to_be_bytes 2 a, length-to_be_bytes 2 b) in
      let tag = append_inj (literal "HPKE") (literal "HPKE") _ _ refl e in
      let kem =
        append_inj (to_be_bytes 2 K.id) (to_be_bytes 2 K'.id) _ _ (width K.id K'.id) tag.1 in
      let rest =
        append_inj (to_be_bytes 2 F.id) (to_be_bytes 2 F'.id) _ _ (width F.id F'.id) kem.1 in
      (
        to_be_bytes_inj 2 _ _ h.0 h'.0 kem.0,
        to_be_bytes_inj 2 _ _ h.1 h'.1 rest.0,
        to_be_bytes_inj 2 _ _ h.2 h'.2 rest.1,
      )
