-- ===== src/Units/Kems/Pass.antt =====
-- src/kem/dh.rs and src/kem/pq.rs, the modules `tests`: proofs that the unit tests of the KEMs pass.
use hpke_ng.Base.{ℕ, ◌≡◌, refl, ◌∙◌, true, ==_iff}
use hpke_ng.Bytes.{Bytes, literal}
use hpke_ng.Bytes.Slices.{eq_bytes_iff}
use hpke_ng.Error.{ok, err, decap_error}
use hpke_ng.Kem.{CryptoRng, Kem, Stores, IsSized, IsTotal, IsCorrect}
use hpke_ng.Kem.Dh.{DiffieHellman, dh_kem}
use hpke_ng.Units.Kems.{
  all_zero, dh_sk_roundtrip_test, pq_sk_roundtrip_test, derive_key_pair_roundtrip,
  zeroize_disables_decap_test,
}

module _ {R : CryptoRng} (D : DiffieHellman R) (stores : Stores (dh_kem D))
    (sized : IsSized (dh_kem D)) where
  pub dh_sk_roundtrip_passes :
      (rng rng' rng_e : R.State) {sk : (dh_kem D).PrivateKey} {pk : (dh_kem D).PublicKey}
      {ss : (dh_kem D).SharedSecret} {enc : (dh_kem D).EncappedKey}
      → (dh_kem D).generate rng ≡ (ok (sk, pk), rng')
      → (dh_kem D).encap rng' pk ≡ (ok (ss, enc), rng_e)
      → dh_sk_roundtrip_test D rng ≡ ok tt
  unfolding dh_sk_roundtrip_test
  dh_sk_roundtrip_passes rng rng' rng_e {ss = ss} made given =
      let (loaded, read, opens) = stores.read_back rng rng' made in
      let opened = opens rng' rng_e _ _ given in
      rw (
        made,
        (==_iff _ _).1 (sized.generated rng rng' made).0,
        read,
        given,
        opened,
        (eq_bytes_iff ss.bytes ss.bytes).1 refl,
      )

module _ {R : CryptoRng} (K : Kem R) where
  pub pq_sk_roundtrip_passes :
      Stores K
      → IsSized K
      → IsTotal K
      → (seed_len : ℕ) → K.private_key_len ≡ seed_len
      → (rng : R.State) → pq_sk_roundtrip_test K seed_len rng ≡ ok tt
  unfolding pq_sk_roundtrip_test
  pq_sk_roundtrip_passes stores sized total seed_len len rng =
      let (sk, pk, rng', made) = total.generate_total rng in
      let (ss, enc, rng_e, given) = total.encap_total rng' pk in
      let (loaded, read, opens) = stores.read_back rng rng' made in
      rw (
        made,
        (==_iff _ _).1 ((sized.generated rng rng' made).0 ∙ len),
        read,
        given,
        opens rng' rng_e _ _ given,
        (eq_bytes_iff (K.ss_as_ref ss) (K.ss_as_ref ss)).1 refl,
      )

  pub derive_key_pair_roundtrip_passes :
      (correct : IsCorrect K)
      → IsTotal K
      → {sk : K.PrivateKey} {pk : K.PublicKey}
      → K.derive_key_pair (literal "x-wing test ikm") ≡ ok (sk, pk)
      → (rng : R.State) → derive_key_pair_roundtrip K rng ≡ ok tt
  unfolding derive_key_pair_roundtrip
  derive_key_pair_roundtrip_passes correct total {sk} {pk} made rng =
      let (ss, enc, rng_e, given) = total.encap_total rng pk in
      let opened =
        correct.decap-encap rng rng_e sk pk (correct.derive_key_pair-Paired _ made) given in
      rw (made, given, opened, (eq_bytes_iff (K.ss_as_ref ss) (K.ss_as_ref ss)).1 refl)

  pub zeroize_disables_decap_passes :
      (seed : K.PrivateKey → Bytes)
      → IsTotal K
      → ((enc : K.EncappedKey) (sk : K.PrivateKey)
          → (scrubbed : K.PrivateKey) × (K.sk_zeroize sk ≡ ok scrubbed)
            × (all_zero (seed scrubbed) ≡ true)
            × (K.decap enc scrubbed ≡ err decap_error))
      → (rng : R.State) → zeroize_disables_decap_test K seed rng ≡ ok tt
  unfolding zeroize_disables_decap_test
  zeroize_disables_decap_passes seed total scrubs rng =
      let (sk, pk, rng', made) = total.generate_total rng in
      let (ss, enc, rng_e, given) = total.encap_total rng' pk in
      let (scrubbed, done, zero, refused) = scrubs enc sk in rw (made, given, done, zero, refused)
