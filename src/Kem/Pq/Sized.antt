-- ===== src/Kem/Pq/Sized.antt =====
-- src/kem/pq.rs: proofs on the sizes of keys and secrets.
use hpke_ng.Base.{refl, ◌≡◌, ◌∙◌, ap, sym, ==_iff, length, ◌==◌}
use hpke_ng.Bytes.{Bytes}
use hpke_ng.Bytes.Slices.{copy_array, copy_array-eq-ok}
use hpke_ng.Error.{ok_or, ok_inj, >>=-eq-ok, guard-eq-ok, decap_error, invalid_encapped_key}
use hpke_ng.Kem
use hpke_ng.Kem.{CryptoRng, RngDocs, kem_suite_id}
use hpke_ng.Kem.Pq.{ShakeCrate, ShakeDocs}
use hpke_ng.Kem.Pq.Derive.{shake256_labeled_derive_total}
use hpke_ng.Kem.Pq.XWing
use hpke_ng.Kem.Pq.XWing.{
  XWingCrate, XWingDocs, XWingWireDocs, XWingSharedSecret, XWingPrivateKey, XWingPublicKey,
  x_wing_draft06,
}
use hpke_ng.Kem.Pq.MlKem
use hpke_ng.Kem.Pq.MlKem.{
  MlKemCrate, MlKemDocs, MlKemWireDocs, MlKemSharedSecret, MlKemPrivateKey, MlKemPublicKey, Variant,
  ml_kem_variant,
}

module _ {R : CryptoRng} (s : ShakeCrate) (shake : ShakeDocs s) (rng_docs : RngDocs R) where
  module _ (x : XWingCrate R) (docs : XWingDocs x) (wire : XWingWireDocs x) where
    -- The pair of a seed of 32 bytes.
    x_wing_pair :
        (seed : Bytes) {sk : XWingPrivateKey x} {pk : XWingPublicKey x}
        → length seed ≡ 32
        → XWing.keypair_from_seed s x seed ≡ (sk, pk)
        → (length sk.seed ≡ x.decapsulation_key_size) × (length pk.bytes ≡ x.encapsulation_key_size)
    unfolding XWing.keypair_from_seed
    x_wing_pair seed size h = (
      ap (λ p. length p.0.seed) (sym h) ∙ size ∙ sym docs.seed_size,
      ap (λ p. length p.1.bytes) (sym h) ∙ wire.length-to_bytes seed size,
    )

    pub x_wing_draft06-IsSized : Kem.IsSized (x_wing_draft06 s x)
    unfolding XWing.generate XWing.derive_key_pair XWing.encap XWing.decap XWing.sk_from_bytes
        XWing.pk_from_bytes XWing.enc_from_bytes
    x_wing_draft06-IsSized = record {
      generated = λ rng rng' {sk} {pk} h.
          x_wing_pair (R.fill_bytes 32 rng).0 (rng_docs.length-fill_bytes 32 rng)
            (ok_inj (λ i. (h i).0));
      derived = λ ikm {sk} {pk} h.
          let (seed, derived, size) =
            shake256_labeled_derive_total s shake (kem_suite_id 0x647a) ikm 32 refl in
          x_wing_pair seed size (ok_inj (sym (rw derived) ∙ h));
      encapped = λ rng rng' pk {ss} {enc} h.
          let made = x.encapsulate_with_rng rng pk.parsed in
          let (b, copied, rest) = >>=-eq-ok (copy_array 32 made.0.1) _ (λ i. (h i).0) in
          (
            ap (λ p. length p.0.bytes) (sym (ok_inj rest)) ∙ copy_array-eq-ok 32 made.0.1 copied,
            ap (λ p. length p.1.bytes) (sym (ok_inj rest)) ∙ wire.length-ciphertext rng pk.parsed,
          );
      decapped = λ enc sk {ss} h.
          let (dk, cached, rest) = >>=-eq-ok (ok_or sk.dk decap_error) _ h in
          let (secret, opened, rest') =
            >>=-eq-ok (ok_or (x.decapsulate_slice dk enc.bytes) invalid_encapped_key) _ rest in
          let (b, copied, result) = >>=-eq-ok (copy_array 32 secret) _ rest' in
          ap (λ (k : XWingSharedSecret). length k.bytes) (sym (ok_inj result))
          ∙ copy_array-eq-ok 32 secret copied;
      sk_read = λ b h. (==_iff _ _).0 (guard-eq-ok (length b == x.decapsulation_key_size) _ _ h);
      pk_read = λ b h. (==_iff _ _).0 (guard-eq-ok (length b == x.encapsulation_key_size) _ _ h);
      enc_read = λ b h. (==_iff _ _).0 (guard-eq-ok (length b == x.ciphertext_size) _ _ h);
    }

  module _ (v : Variant) (m : MlKemCrate R) (docs : MlKemDocs m) (wire : MlKemWireDocs v m) where
    -- The pair of a seed of 64 bytes.
    ml_kem_pair :
        (seed : Bytes) {sk : MlKemPrivateKey m} {pk : MlKemPublicKey m}
        → length seed ≡ 64
        → MlKem.from_seed s v m seed ≡ (sk, pk)
        → (length sk.seed ≡ 64) × (length pk.bytes ≡ v.npk)
    unfolding MlKem.from_seed
    ml_kem_pair seed size h = (
      ap (λ p. length p.0.seed) (sym h) ∙ size,
      ap (λ p. length p.1.bytes) (sym h) ∙ wire.length-to_bytes seed size,
    )

    pub ml_kem_variant-IsSized : Kem.IsSized (ml_kem_variant s v m)
    unfolding MlKem.generate MlKem.derive_key_pair MlKem.encap MlKem.decap MlKem.sk_from_bytes
        MlKem.pk_from_bytes MlKem.enc_from_bytes
    ml_kem_variant-IsSized = record {
      generated = λ rng rng' {sk} {pk} h.
          ml_kem_pair (R.fill_bytes 64 rng).0 (rng_docs.length-fill_bytes 64 rng)
            (ok_inj (λ i. (h i).0));
      derived = λ ikm {sk} {pk} h.
          let (seed, derived, size) =
            shake256_labeled_derive_total s shake (kem_suite_id v.id) ikm 64 refl in
          ml_kem_pair seed size (ok_inj (sym (rw derived) ∙ h));
      encapped = λ rng rng' pk {ss} {enc} h.
          let made = m.encapsulate_with_rng rng pk.parsed in
          let (b, copied, rest) = >>=-eq-ok (copy_array 32 made.0.1) _ (λ i. (h i).0) in
          (
            ap (λ p. length p.0.bytes) (sym (ok_inj rest)) ∙ copy_array-eq-ok 32 made.0.1 copied,
            ap (λ p. length p.1.bytes) (sym (ok_inj rest)) ∙ wire.length-to_vec made.0.0,
          );
      decapped = λ enc sk {ss} h.
          let (dk, cached, rest) = >>=-eq-ok (ok_or sk.dk decap_error) _ h in
          let (ct, read, rest') =
            >>=-eq-ok (ok_or (m.ciphertext_try_into enc.bytes) invalid_encapped_key) _ rest in
          let (b, copied, result) = >>=-eq-ok (copy_array 32 (m.decapsulate dk ct)) _ rest' in
          ap (λ (k : MlKemSharedSecret). length k.bytes) (sym (ok_inj result))
          ∙ copy_array-eq-ok 32 (m.decapsulate dk ct) copied;
      sk_read = λ b h. (==_iff _ _).0 (guard-eq-ok (length b == 64) _ _ h);
      pk_read = λ b h. (==_iff _ _).0 (guard-eq-ok (length b == v.npk) _ _ h);
      enc_read = λ b h. (==_iff _ _).0 (guard-eq-ok (length b == v.nenc) _ _ h);
    }
