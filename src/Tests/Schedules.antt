-- ===== src/Tests/Schedules.antt =====
-- Examples on the key schedule.
use hpke_ng.Base.{ℕ, take, ◌⊎◌, ◌≡◌, refl, arith}
use hpke_ng.Bytes.{Bytes, literal, zeros, to_be_bytes}
use hpke_ng.Error.{ok}
use hpke_ng.Suite.{ciphersuite, auth_psk_mode_tag, psk_mode_byte}
use hpke_ng.Context
use hpke_ng.Context.{Context}
use hpke_ng.Context.Harness.{key}
use hpke_ng.Kem.{Kem}
use hpke_ng.Kdf.{labeled_extract, labeled_expand_pieces}
use hpke_ng.Kdf.Hkdf.{hkdf_extract, hkdf_expand}
use hpke_ng.Aead.Ciphers.{cipher_init}
use hpke_ng.Schedule.{key_schedule_psk}
use hpke_ng.Schedule.Outputs.{Holds, key_schedule_psk-Holds}
use hpke_ng.Schedule.Rfc.{ks_context}
use hpke_ng.Schedule.Inputs.{key_output, expand_input}
use hpke_ng.Schedule.Binding.{
  Mode, psk_bearing, key_schedule, output, Agrees, Collides, key_schedule-binds,
}
use hpke_ng.Tests.Crates.{counting_rng, kdf, kdf-IsLawful, cipher, cipher-SealsLawfully}
use hpke_ng.Tests.Group.{kem}
use hpke_ng.Tests.Modes.{info, psk}

key_schedule_psk-Holds_example :
    (c : Context kem.kem kdf cipher.aead) × (key_schedule_psk kem.kem kdf cipher.aead
        auth_psk_mode_tag
        (zeros 32)
        info
        psk
      ≡ ok c)
    × Holds kem.kem kdf cipher.aead
        (psk_mode_byte auth_psk_mode_tag)
        (zeros 32)
        info
        psk.secret
        psk.id
        c
key_schedule_psk-Holds_example =
    key_schedule_psk-Holds kem.kem kdf cipher.aead kdf-IsLawful cipher-SealsLawfully.is_lawful
      auth_psk_mode_tag (zeros 32) info psk

-- Two schedules that differ in the info string. The KDF here expands to the first bytes of its
-- string, so their keys are one.
abbrev mode : Mode
mode = psk_bearing auth_psk_mode_tag psk

abbrev kems : Kem counting_rng
kems = kem.kem

abbrev context_of : Bytes → Context kems kdf cipher.aead
context_of text =
    let context = ks_context kems kdf cipher.aead 3 psk.id text in
    let expand = λ (label : Bytes) (n : ℕ).
      take n (expand_input n (ciphersuite kems kdf cipher.aead) label context) in
    record {
      cipher = expand (literal "key") 32;
      base_nonce = expand (literal "base_nonce") 12;
      exporter_secret = expand (literal "exp") 32;
      seq = 0;
      raw_key = expand (literal "key") 32;
    }

made : key_schedule kems kdf cipher.aead mode (zeros 32) info ≡ ok (context_of info)
unfolding key_schedule key_schedule_psk Context.new ks_context expand_input labeled_extract
    labeled_expand_pieces ciphersuite hkdf_extract hkdf_expand cipher_init to_be_bytes psk_mode_byte
made = refl

made_other :
    key_schedule kems kdf cipher.aead mode (zeros 32) (literal "other")
    ≡ ok (context_of (literal "other"))
unfolding key_schedule key_schedule_psk Context.new ks_context expand_input labeled_extract
    labeled_expand_pieces ciphersuite hkdf_extract hkdf_expand cipher_init to_be_bytes psk_mode_byte
made_other = refl

same_key :
    output kems kdf cipher.aead key_output (context_of info)
    ≡ output kems kdf cipher.aead key_output (context_of (literal "other"))
unfolding output key ks_context expand_input labeled_extract ciphersuite hkdf_extract to_be_bytes
same_key = refl

key_schedule-binds_example :
    Agrees kdf kems kems cipher.aead cipher.aead key_output key_output mode mode
      (zeros 32)
      (zeros 32)
      info
      (literal "other")
    ⊎ Collides kdf kems kems cipher.aead cipher.aead key_output key_output mode mode
        (zeros 32)
        (zeros 32)
        info
        (literal "other")
key_schedule-binds_example =
    key_schedule-binds kdf kems kems cipher.aead cipher.aead key_output key_output mode mode
      (zeros 32) (zeros 32) info (literal "other") kdf-IsLawful cipher-SealsLawfully.is_lawful
      cipher-SealsLawfully.is_lawful (omega arith, omega arith, omega arith)
      (omega arith, omega arith, omega arith) made made_other same_key
