-- ===== src/Suites/Encapped.antt =====
-- src/lib.rs: proofs that the single-shot calls of a suite succeed after an encapsulation that does.
use hpke_ng.Base.{◌≡◌, ◌+◌, length, Option, none, some}
use hpke_ng.Bytes.{Bytes}
use hpke_ng.Error.{ok}
use hpke_ng.Kdf
use hpke_ng.Kdf.{Kdf}
use hpke_ng.Aead.{SealingAead, SealsLawfully, Takes}
use hpke_ng.Psk.{Psk}
use hpke_ng.Kem.{CryptoRng, Kem, IsCorrect}
use hpke_ng.Kem.Instances.{Crates}
use hpke_ng.Hpke.RoundTrip.{open_base-seal_base, open_psk-seal_psk}
use hpke_ng.Hpke.Wire.{sent_as_bytes, received_as_bytes, seal_with, open_with}
use hpke_ng.Suites.{
  KemName, KdfName, AeadName, CipherCrates, SuiteDocs, kem_named, kdf_named, aead_named,
}
use hpke_ng.Suites.Laws.{kdf_named-IsLawful, aead_named-SealsLawfully, kem_named-Travels}
use hpke_ng.Suites.Delivered.{suites_deliver}
use hpke_ng.Suites.Sizes.{kems-IsSized}

module _ {R : CryptoRng} (K : Kem R) (correct : IsCorrect K) (F : Kdf) (kdf : Kdf.IsLawful F)
    (S : SealingAead) (lawful : SealsLawfully S) where
  seals_with :
      (psk : Option Psk) (rng rng' : R.State) (sk : K.PrivateKey) (pk : K.PublicKey)
      (info aad pt : Bytes) {ss : K.SharedSecret} {enc : K.EncappedKey}
      → correct.Paired sk pk
      → K.encap rng pk ≡ (ok (ss, enc), rng')
      → Takes S aad pt
      → (ct : Bytes) × (seal_with K F S psk rng info aad pt pk ≡ ok (enc, ct))
        × (length ct ≡ length pt + S.aead.tag_len)
  seals_with none rng rng' sk pk info aad pt paired given takes =
      let (ct, sealed, opened, size) =
        open_base-seal_base K F S correct kdf lawful rng rng' sk pk info aad pt paired given
          takes in
      (ct, λ i. (sealed i).0, size)
  seals_with (some psk) rng rng' sk pk info aad pt paired given takes =
      let (ct, sealed, opened, size) =
        open_psk-seal_psk K F S correct kdf lawful rng rng' sk pk info psk aad pt paired given
          takes in
      (ct, λ i. (sealed i).0, size)

module _ {R : CryptoRng} (c : Crates R) (a : CipherCrates) (docs : SuiteDocs c a) where
  pub delivers_encapped :
      (k : KemName)
      → IsCorrect (kem_named c k)
      → (f : KdfName) (s : AeadName) (psk : Option Psk) (rng rng' rng_s rng_e : R.State)
        (info aad pt : Bytes) {sk : (kem_named c k).PrivateKey} {pk : (kem_named c k).PublicKey}
        {ss : (kem_named c k).SharedSecret} {enc : (kem_named c k).EncappedKey}
      → let K = kem_named c k in
        let F = kdf_named c f in
        let S = aead_named a s in
        K.generate rng ≡ (ok (sk, pk), rng')
        → K.encap rng_s pk ≡ (ok (ss, enc), rng_e)
        → Takes S aad pt
        → (enc : Bytes) × (ct : Bytes) × (sent_as_bytes K
              (K.pk_from_bytes (K.pk_to_bytes pk))
              (seal_with K F S psk rng_s info aad pt)
            ≡ ok (enc, ct))
          × (received_as_bytes K
                (K.sk_from_bytes (K.sk_to_bytes sk))
                (open_with K F S psk info aad ct)
                enc
              ≡ ok pt)
          × (length enc ≡ K.encapped_key_len)
          × (length ct ≡ length pt + S.aead.tag_len)
  delivers_encapped k correct f s psk rng rng' rng_s rng_e info aad pt {sk} {pk} {enc = enc} made
        given takes =
      let (ct, sealed, size) =
        seals_with (kem_named c k) correct (kdf_named c f) (kdf_named-IsLawful c a docs f)
          (aead_named a s) (aead_named-SealsLawfully c a docs s) psk rng_s rng_e sk pk info aad pt
          (correct.generate-Paired rng rng' made) given takes in
      let enc_bytes = (kem_named c k).enc_as_ref enc in
      let sent : sent_as_bytes (kem_named c k)
            ((kem_named c k).pk_from_bytes ((kem_named c k).pk_to_bytes pk))
            (seal_with (kem_named c k) (kdf_named c f) (aead_named a s) psk rng_s info aad pt)
          ≡ ok (enc_bytes, ct) =
        rw ((kem_named-Travels c a docs k).pk_read_back rng rng' made, sealed) in
      (
        enc_bytes,
        ct,
        sent,
        suites_deliver c a docs k f s psk rng rng' rng_s sk pk info aad pt enc_bytes ct made sent,
        (((kems-IsSized c a docs).0 k).encapped rng_s rng_e pk given).1,
        size,
      )
