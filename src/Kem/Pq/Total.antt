-- ===== src/Kem/Pq/Total.antt =====
-- src/kem/pq.rs: proofs on calls that always succeed.
use hpke_ng.Base.{refl}
use hpke_ng.Bytes.Slices.{copy_array_ok}
use hpke_ng.Kem
use hpke_ng.Kem.{CryptoRng}
use hpke_ng.Kem.Pq.{ShakeCrate}
use hpke_ng.Kem.Pq.XWing
use hpke_ng.Kem.Pq.XWing.{XWingCrate, XWingDocs, x_wing_draft06}
use hpke_ng.Kem.Pq.MlKem
use hpke_ng.Kem.Pq.MlKem.{MlKemCrate, MlKemDocs, Variant, ml_kem_variant}

module _ {R : CryptoRng} (s : ShakeCrate) where
  pub x_wing_draft06-IsTotal : (x : XWingCrate R) → XWingDocs x → Kem.IsTotal (x_wing_draft06 s x)
  unfolding XWing.generate XWing.encap
  x_wing_draft06-IsTotal x docs = record {
    generate_total = λ rng. (_, _, _, refl);
    encap_total = λ rng pk.
        let ((ct, ss), rng') = x.encapsulate_with_rng rng pk.parsed in
        (
          record { bytes = ss },
          record { bytes = ct },
          rng',
          rw (copy_array_ok 32 ss (docs.secret_size rng pk.parsed)),
        );
  }

  pub ml_kem_variant-IsTotal :
      (v : Variant) (m : MlKemCrate R) → MlKemDocs m → Kem.IsTotal (ml_kem_variant s v m)
  unfolding MlKem.generate MlKem.encap
  ml_kem_variant-IsTotal v m docs = record {
    generate_total = λ rng. (_, _, _, refl);
    encap_total = λ rng pk.
        let ((ct, ss), rng') = m.encapsulate_with_rng rng pk.parsed in
        (
          record { bytes = ss },
          record { bytes = m.to_vec ct },
          rng',
          rw (copy_array_ok 32 ss (docs.secret_size rng pk.parsed)),
        );
  }
