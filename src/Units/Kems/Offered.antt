-- ===== src/Units/Kems/Offered.antt =====
-- src/kem/dh.rs and src/kem/pq.rs, the modules `tests`: proofs that the unit tests pass with the KEMs
-- that the library offers.
use hpke_ng.Base.{ℕ, ◌≡◌, ap, refl}
use hpke_ng.Bytes.{literal}
use hpke_ng.Error.{ok}
use hpke_ng.Kem.{CryptoRng}
use hpke_ng.Kem.Instances.{Crates}
use hpke_ng.Kem.Pq.XWing.Correct as XWingCorrect
use hpke_ng.Kem.Pq.MlKem.Correct as MlKemCorrect
use hpke_ng.Kem.Pq.MlKem
use hpke_ng.Suites.{
  AuthKemName, PqKemName, CipherCrates, SuiteDocs, group_named, auth_kem_named, pq_kem_named,
  over_group, post_quantum, x_wing_kem, ml_kem_small, ml_kem_large,
}
use hpke_ng.Suites.Laws.{kem_named-Stores}
use hpke_ng.Suites.Sizes.{kems-IsSized}
use hpke_ng.Suites.PostQuantum.{pq_kem_named-IsTotal, pq_kem_named-IsCorrect}
use hpke_ng.Units.{AllPass, ◌also◌, all_done}
use hpke_ng.Units.Kems.{all_zero, dh_sk_roundtrip_test, pq_sk_roundtrip_test, pq_tests}
use hpke_ng.Units.Kems.Pass.{
  dh_sk_roundtrip_passes, pq_sk_roundtrip_passes, derive_key_pair_roundtrip_passes,
  zeroize_disables_decap_passes,
}

module _ {R : CryptoRng} (c : Crates R) (a : CipherCrates) (docs : SuiteDocs c a)
    (rng : R.State) where
  pub dh_tests_pass :
      (n : AuthKemName) (rng' rng_e : R.State) {sk : (auth_kem_named c n).kem.PrivateKey}
      {pk : (auth_kem_named c n).kem.PublicKey} {ss : (auth_kem_named c n).kem.SharedSecret}
      {enc : (auth_kem_named c n).kem.EncappedKey}
      → (auth_kem_named c n).kem.generate rng ≡ (ok (sk, pk), rng')
      → (auth_kem_named c n).kem.encap rng' pk ≡ (ok (ss, enc), rng_e)
      → dh_sk_roundtrip_test (group_named c n) rng ≡ ok tt
  dh_tests_pass n rng' rng_e =
      dh_sk_roundtrip_passes (group_named c n) (kem_named-Stores c a docs (over_group n))
        ((kems-IsSized c a docs).0 (over_group n)) rng rng' rng_e

  roundtrip :
      (q : PqKemName) (seed_len : ℕ)
      → (pq_kem_named c q).private_key_len ≡ seed_len
      → pq_sk_roundtrip_test (pq_kem_named c q) seed_len rng ≡ ok tt
  roundtrip q seed_len len =
      pq_sk_roundtrip_passes (pq_kem_named c q) (kem_named-Stores c a docs (post_quantum q))
        ((kems-IsSized c a docs).0 (post_quantum q)) (pq_kem_named-IsTotal c a docs q) seed_len len
        rng

  pub pq_tests_pass : AllPass (pq_tests c rng)
  unfolding pq_tests
  pq_tests_pass =
      let (sk, pk, made, read) =
        XWingCorrect.sk_from_bytes-derive_key_pair c.shake c.x_wing docs.crates.x_wing
          docs.crates.shake (literal "x-wing test ikm") in
      roundtrip x_wing_kem 32 docs.crates.x_wing.seed_size
      also roundtrip ml_kem_small 64 refl
      also roundtrip ml_kem_large 64 refl
      also derive_key_pair_roundtrip_passes (pq_kem_named c x_wing_kem)
          (pq_kem_named-IsCorrect c a docs x_wing_kem) (pq_kem_named-IsTotal c a docs x_wing_kem)
          made rng
      also zeroize_disables_decap_passes (pq_kem_named c x_wing_kem) (λ sk. sk.seed)
          (pq_kem_named-IsTotal c a docs x_wing_kem)
          (λ enc sk.
            let (k, done, zero, refused) =
              XWingCorrect.decap-zeroize c.shake c.x_wing docs.crates.x_wing enc sk in
            (k, done, ap all_zero zero, refused))
          rng
      also zeroize_disables_decap_passes (pq_kem_named c ml_kem_small) (λ sk. sk.seed)
          (pq_kem_named-IsTotal c a docs ml_kem_small)
          (λ enc sk.
            let (k, done, zero, refused) =
              MlKemCorrect.decap-zeroize c.shake MlKem.ml_kem_768 c.ml_kem_768
                docs.crates.ml_kem_768 enc sk in
            (k, done, ap all_zero zero, refused))
          rng
      also zeroize_disables_decap_passes (pq_kem_named c ml_kem_large) (λ sk. sk.seed)
          (pq_kem_named-IsTotal c a docs ml_kem_large)
          (λ enc sk.
            let (k, done, zero, refused) =
              MlKemCorrect.decap-zeroize c.shake MlKem.ml_kem_1024 c.ml_kem_1024
                docs.crates.ml_kem_1024 enc sk in
            (k, done, ap all_zero zero, refused))
          rng
      also all_done
