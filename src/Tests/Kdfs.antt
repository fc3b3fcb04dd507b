-- ===== src/Tests/Kdfs.antt =====
-- Examples on the labeled calls, the ciphers, the keys of the PSK modes and the suite identifiers.
use hpke_ng.Base.{◌*◌, ◌<◌, ◌≤◌, [], ◌∷◌, List, ◌≡◌, ◌↔◌, ◌⊎◌, refl, length, replicate, arith}
use hpke_ng.Bytes.{Bytes, literal, zeros}
use hpke_ng.Error.{
  ok, err, export_length_exceeded, derive_key_pair_error, inconsistent_psk, missing_psk,
  insecure_psk,
}
use hpke_ng.Kdf
use hpke_ng.Kdf.{labeled_extract, labeled_extract_pieces, labeled_expand, labeled_expand_pieces}
use hpke_ng.Kdf.Hkdf.{hkdf_sha256, hkdf_impl-IsLawful}
use hpke_ng.Kdf.Labeled.{labeled_expand_pieces_lem, labeled_expand-outcome}
use hpke_ng.Aead.{SealsLawfully}
use hpke_ng.Aead.Ciphers.{aes_256_gcm, sealing_impl-SealsLawfully}
use hpke_ng.Psk.{Psk, new, new-outcome}
use hpke_ng.Tests.Crates.{hkdf_crate, hkdf_docs, kdf, kdf-IsLawful, aead_crate, aead_docs}

hkdf_impl-IsLawful_example : Kdf.IsLawful (hkdf_sha256 hkdf_crate)
hkdf_impl-IsLawful_example =
    hkdf_impl-IsLawful hkdf_crate 32 hkdf_docs 0x0001 (omega arith) (omega arith)

sealing_impl-SealsLawfully_example : SealsLawfully (aes_256_gcm aead_crate)
sealing_impl-SealsLawfully_example =
    sealing_impl-SealsLawfully aead_crate 32 aead_docs 0x0002 (omega arith)

abbrev two_pieces : List Bytes
two_pieces = literal "dh1" ∷ literal "dh2" ∷ []

abbrev six_pieces : List Bytes
six_pieces = replicate 6 (literal "dh")

labeled_expand_pieces_lem_example :
    labeled_expand_pieces kdf (zeros 32) (literal "KEM") (literal "key") two_pieces 40
    ≡ labeled_expand kdf (zeros 32) (literal "KEM") (literal "key") (literal "dh1dh2") 40
labeled_expand_pieces_lem_example =
    labeled_expand_pieces_lem kdf kdf-IsLawful (zeros 32) (literal "KEM") (literal "key") two_pieces
      40

labeled_expand-outcome_example :
    (255 * 32 < 40
      → labeled_expand kdf (zeros 32) (literal "HPKE") (literal "sec") (literal "ctx") 40
        ≡ err export_length_exceeded)
    × (40 ≤ 255 * 32
        → 32 ≤ length (zeros 32)
        → (out : Bytes) × (labeled_expand kdf
              (zeros 32)
              (literal "HPKE")
              (literal "sec")
              (literal "ctx")
              40
            ≡ ok out)
          × (length out ≡ 40))
    × (40 ≤ 255 * 32
        → length (zeros 32) < 32
        → labeled_expand kdf (zeros 32) (literal "HPKE") (literal "sec") (literal "ctx") 40
          ≡ err derive_key_pair_error)
labeled_expand-outcome_example =
    labeled_expand-outcome kdf kdf-IsLawful (zeros 32) (literal "HPKE") (literal "sec")
      (literal "ctx") 40

-- A secret of 31 bytes is too short.
new-outcome_example :
    ((new (zeros 31) (literal "id") ≡ ok (record { secret = zeros 31; id = literal "id" }))
      ↔ ((32 ≤ 31) × (0 < 2)))
    × ((new (zeros 31) (literal "id") ≡ err inconsistent_psk)
        ↔ (((0 < 31) × (literal "id" ≡ [])) ⊎ ((zeros 31 ≡ []) × (0 < 2))))
    × ((new (zeros 31) (literal "id") ≡ err missing_psk) ↔ ((zeros 31 ≡ []) × (literal "id" ≡ [])))
    × ((new (zeros 31) (literal "id") ≡ err insecure_psk) ↔ ((0 < 31) × (31 < 32) × (0 < 2)))
new-outcome_example = new-outcome (zeros 31) (literal "id")

abbrev key_a : Psk
key_a = record { secret = zeros 32; id = literal "a" }

abbrev key_b : Psk
key_b = record { secret = zeros 32; id = literal "b" }

made : new (zeros 32) (literal "a") ≡ ok key_a
unfolding new
made = refl
