-- ===== src/Kem/Pq/Travels.antt =====
-- src/kem/pq.rs: proofs on public and encapsulated keys that are serialized and read back.
use hpke_ng.Base.{◌≡◌, ◌∙◌, ap, sym, subst, ==_iff, length}
use hpke_ng.Bytes.Slices.{copy_array}
use hpke_ng.Error.{ok, ok_inj, >>=-eq-ok}
use hpke_ng.Kem
use hpke_ng.Kem.{CryptoRng, RngDocs}
use hpke_ng.Kem.Pq.{ShakeCrate}
use hpke_ng.Kem.Pq.XWing
use hpke_ng.Kem.Pq.XWing.{XWingCrate, XWingWireDocs, XWingPublicKey, x_wing_draft06}
use hpke_ng.Kem.Pq.MlKem
use hpke_ng.Kem.Pq.MlKem.{MlKemCrate, MlKemWireDocs, MlKemPublicKey, Variant, ml_kem_variant}

module _ {R : CryptoRng} (s : ShakeCrate) (rng_docs : RngDocs R) where
  module _ (x : XWingCrate R) (wire : XWingWireDocs x) where
    pub x_wing_draft06-Travels : Kem.Travels (x_wing_draft06 s x)
    unfolding XWing.generate XWing.keypair_from_seed XWing.encap XWing.pk_from_bytes
        XWing.enc_from_bytes
    x_wing_draft06-Travels = record {
      pk_read_back = λ rng rng' {sk} {pk} h.
          let pair = ok_inj (λ i. (h i).0) in
          let seed = (R.fill_bytes 32 rng).0 in
          let size = rng_docs.length-fill_bytes 32 rng in
          let ek = x.encapsulation_key (x.decapsulation_key_from seed) in
          let made : XWingPublicKey x = record { bytes = x.to_bytes ek; parsed = ek } in
          let read : XWing.pk_from_bytes s x (x.to_bytes ek) ≡ ok made =
            rw
              ((==_iff _ _).1 (wire.length-to_bytes seed size), wire.try_from-to_bytes seed size) in
          subst (λ k. XWing.pk_from_bytes s x k.bytes ≡ ok k) (λ i. (pair i).1) read;
      enc_read_back = λ rng rng' pk {ss} {enc} h.
          let made = x.encapsulate_with_rng rng pk.parsed in
          let (b, copied, rest) = >>=-eq-ok (copy_array 32 made.0.1) _ (λ i. (h i).0) in
          let same : made.0.0 ≡ enc.bytes = λ i. (ok_inj rest i).1.bytes in
          rw ((==_iff _ _).1 (ap length (sym same) ∙ wire.length-ciphertext rng pk.parsed));
    }

  module _ (v : Variant) (m : MlKemCrate R) (wire : MlKemWireDocs v m) where
    pub ml_kem_variant-Travels : Kem.Travels (ml_kem_variant s v m)
    unfolding MlKem.generate MlKem.from_seed MlKem.encap MlKem.pk_from_bytes MlKem.enc_from_bytes
    ml_kem_variant-Travels = record {
      pk_read_back = λ rng rng' {sk} {pk} h.
          let pair = ok_inj (λ i. (h i).0) in
          let seed = (R.fill_bytes 64 rng).0 in
          let size = rng_docs.length-fill_bytes 64 rng in
          let ek = m.encapsulation_key (m.from_seed seed) in
          let (k, key, parsed) = wire.new-to_bytes seed size in
          let made : MlKemPublicKey m = record { bytes = m.to_bytes ek; parsed = ek } in
          let read : MlKem.pk_from_bytes s v m (m.to_bytes ek) ≡ ok made =
            rw ((==_iff _ _).1 (wire.length-to_bytes seed size), key, parsed) in
          subst (λ k. MlKem.pk_from_bytes s v m k.bytes ≡ ok k) (λ i. (pair i).1) read;
      enc_read_back = λ rng rng' pk {ss} {enc} h.
          let made = m.encapsulate_with_rng rng pk.parsed in
          let (b, copied, rest) = >>=-eq-ok (copy_array 32 made.0.1) _ (λ i. (h i).0) in
          let same : m.to_vec made.0.0 ≡ enc.bytes = λ i. (ok_inj rest i).1.bytes in
          rw ((==_iff _ _).1 (ap length (sym same) ∙ wire.length-to_vec made.0.0));
    }
