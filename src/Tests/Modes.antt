-- ===== src/Tests/Modes.antt =====
-- Examples on the modes: a receiver's pair, a sender's pair, and one message or secret.
use hpke_ng.Base.{ℕ, [], ◌∷◌, ◌++◌, ◌≡◌, refl, length, ==_iff}
use hpke_ng.Bytes.{Bytes, literal, zeros, to_be_bytes}
use hpke_ng.Kdf.{labeled_extract, labeled_extract_pieces, labeled_expand_pieces, write_pieces}
use hpke_ng.Kdf.Hkdf.{hkdf_extract, hkdf_expand, input_all}
use hpke_ng.Kem.{kem_suite_id}
use hpke_ng.Error.{ok}
use hpke_ng.Aead.{Takes}
use hpke_ng.Aead.Ciphers.{cipher_seal}
use hpke_ng.Psk.{Psk}
use hpke_ng.Kem.Dh
use hpke_ng.Kem.Dh.{
  DhPrivateKey, DhPublicKey, DhEncappedKey, DhSharedSecret, generate, encap_with, encap_secret,
  extract_and_expand, extract_and_expand_pieces, suite_id,
}
use hpke_ng.Suite.{base_mode_tag, auth_psk_mode_tag, psk_free_mode_byte, psk_mode_byte}
use hpke_ng.Schedule.{key_schedule_psk_free, key_schedule_psk}
use hpke_ng.Schedule.Rfc.{rfc_key_schedule, key_schedule_psk_free-rfc, key_schedule_psk-rfc}
use hpke_ng.Hpke.Seal.{seal_auth_psk, open_auth_psk}
use hpke_ng.Hpke.RoundTrip.{open_auth_psk-seal_auth_psk}
use hpke_ng.Hpke.Export.{send_export_auth_psk, receiver_export_auth_psk}
use hpke_ng.Hpke.Secrets.{Exports, send_export_auth_psk_agrees}
use hpke_ng.Tests.Crates.{kdf, kdf-IsLawful, cipher, cipher-SealsLawfully}
use hpke_ng.Tests.Group.{group, kem, kem_correct}

abbrev pub private_of : ℕ → DhPrivateKey group
private_of n = record { sk = n; pk_bytes = n ∷ [] }

abbrev pub public_of : ℕ → DhPublicKey group
public_of n = record { key = n ∷ [] }

-- The receiver's pair is of 3, the sender's of 5, and the ephemeral one of 9.
receiver_pair : kem_correct.is_correct.Paired (private_of 3) (public_of 3)
unfolding generate Dh.from_pair
receiver_pair = kem_correct.is_correct.generate-Paired 3 4 refl

sender_pair : kem_correct.is_correct.Paired (private_of 5) (public_of 5)
unfolding generate Dh.from_pair
sender_pair = kem_correct.is_correct.generate-Paired 5 6 refl

abbrev pub enc : DhEncappedKey
enc = record { bytes = 9 ∷ [] }

abbrev pub info : Bytes
info = literal "info"

abbrev pub aad : Bytes
aad = literal "aad"

abbrev pub pt : Bytes
pt = literal "hello"

abbrev pub psk : Psk
psk = record { secret = zeros 32; id = literal "id" }

takes : Takes cipher aad pt
unfolding cipher_seal
takes c nonce h = (pt ++ zeros 16, rw ((==_iff _ _).1 h))

encapped : (ss : DhSharedSecret) × (kem.kem.encap 9 (public_of 3) ≡ (ok (ss, enc), 10))
unfolding encap_with encap_secret extract_and_expand extract_and_expand_pieces suite_id kem_suite_id
    labeled_extract labeled_extract_pieces labeled_expand_pieces write_pieces hkdf_extract
    hkdf_expand input_all to_be_bytes
encapped = (_, refl)

auth_encapped :
    (ss : DhSharedSecret) × (kem.auth_encap 9 (public_of 3) (private_of 5) ≡ (ok (ss, enc), 10))
unfolding encap_with encap_secret extract_and_expand extract_and_expand_pieces suite_id kem_suite_id
    labeled_extract labeled_extract_pieces labeled_expand_pieces write_pieces hkdf_extract
    hkdf_expand input_all to_be_bytes
auth_encapped = (_, refl)

key_schedule_psk_free-rfc_example :
    key_schedule_psk_free kem.kem kdf cipher.aead base_mode_tag (zeros 32) info
    ≡ rfc_key_schedule kem.kem kdf cipher.aead
        (psk_free_mode_byte base_mode_tag)
        (zeros 32)
        info
        []
        []
key_schedule_psk_free-rfc_example =
    key_schedule_psk_free-rfc kem.kem kdf cipher.aead kdf-IsLawful base_mode_tag (zeros 32) info

key_schedule_psk-rfc_example :
    key_schedule_psk kem.kem kdf cipher.aead auth_psk_mode_tag (zeros 32) info psk
    ≡ rfc_key_schedule kem.kem kdf cipher.aead
        (psk_mode_byte auth_psk_mode_tag)
        (zeros 32)
        info
        psk.secret
        psk.id
key_schedule_psk-rfc_example =
    key_schedule_psk-rfc kem.kem kdf cipher.aead kdf-IsLawful auth_psk_mode_tag (zeros 32) info psk

open_auth_psk-seal_auth_psk_example :
    (ct : Bytes) × (seal_auth_psk kem kdf cipher 9 (public_of 3) info aad pt psk (private_of 5)
      ≡ (ok (enc, ct), 10))
    × (open_auth_psk kem kdf cipher enc (private_of 3) info aad ct psk (public_of 5) ≡ ok pt)
    × (length ct ≡ 21)
open_auth_psk-seal_auth_psk_example =
    open_auth_psk-seal_auth_psk kem kdf cipher kem_correct kdf-IsLawful cipher-SealsLawfully 9 10
      (private_of 3) (private_of 5) (public_of 3) (public_of 5) info psk aad pt receiver_pair
      sender_pair auth_encapped.1 takes

send_export_auth_psk_agrees_example :
    Exports {State = ℕ} 32 40 enc 10
      (send_export_auth_psk kem kdf cipher.aead 9
        (public_of 3)
        info
        psk
        (private_of 5)
        (literal "ctx")
        40)
      (receiver_export_auth_psk kem kdf cipher.aead enc
        (private_of 3)
        info
        psk
        (public_of 5)
        (literal "ctx")
        40)
send_export_auth_psk_agrees_example =
    send_export_auth_psk_agrees kem kdf cipher.aead kem_correct kdf-IsLawful
      cipher-SealsLawfully.is_lawful 9 10 (private_of 3) (private_of 5) (public_of 3) (public_of 5)
      info psk (literal "ctx") 40 receiver_pair sender_pair auth_encapped.1
