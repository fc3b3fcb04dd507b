-- ===== src/Tests/Instances.antt =====
-- Examples on the library's KEMs and on the fuzz targets, over all the stand-ins.
use hpke_ng.Base.{◌≡◌, arith}
use hpke_ng.Bytes.{zeros}
use hpke_ng.Error.{ok}
use hpke_ng.Kem.Dh.Nist
use hpke_ng.Kem.Pq.MlKem
use hpke_ng.Kem.Instances.{Crates, CratesDocs}
use hpke_ng.Kem.Instances.Laws.{ArePanicFree, AreCorrect, kems-ArePanicFree, kems-AreCorrect}
use hpke_ng.Fuzz.{fuzz_open, fuzz_key_schedule}
use hpke_ng.Fuzz.Returns.{fuzz_open-returns, fuzz_key_schedule-returns}
use hpke_ng.Tests.Crates.{counting_rng, hkdf_of, hkdf_of-HkdfDocs, aead_crate, aead_docs}
use hpke_ng.Tests.Groups.{dalek, dalek_docs, ed448, ed448_docs, curve_of, curve_docs}
use hpke_ng.Tests.PostQuantum.{
  shake, shake_docs, x_wing, x_wing_docs, ml_kem_of, ml_kem_of-MlKemDocs,
}

abbrev pub crates : Crates counting_rng
crates = record {
  sha256 = hkdf_of 32;
  sha384 = hkdf_of 48;
  sha512 = hkdf_of 64;
  dalek = dalek;
  ed448 = ed448;
  p256 = curve_of 32;
  p384 = curve_of 48;
  p521 = curve_of 66;
  k256 = curve_of 32;
  shake = shake;
  x_wing = x_wing;
  ml_kem_768 = ml_kem_of MlKem.ml_kem_768;
  ml_kem_1024 = ml_kem_of MlKem.ml_kem_1024;
}

pub crates_docs : CratesDocs crates
crates_docs = record {
  sha256 = hkdf_of-HkdfDocs 32;
  sha384 = hkdf_of-HkdfDocs 48;
  sha512 = hkdf_of-HkdfDocs 64;
  dalek = dalek_docs;
  ed448 = ed448_docs;
  p256 = curve_docs (Nist.p256 (hkdf_of 32)) (omega arith);
  p384 = curve_docs (Nist.p384 (hkdf_of 48)) (omega arith);
  p521 = curve_docs (Nist.p521 (hkdf_of 64)) (omega arith);
  k256 = curve_docs (Nist.k256 (hkdf_of 32)) (omega arith);
  shake = shake_docs;
  x_wing = x_wing_docs;
  ml_kem_768 = ml_kem_of-MlKemDocs MlKem.ml_kem_768;
  ml_kem_1024 = ml_kem_of-MlKemDocs MlKem.ml_kem_1024;
}

kems-ArePanicFree_example : ArePanicFree crates
kems-ArePanicFree_example = kems-ArePanicFree crates crates_docs

kems-AreCorrect_example : AreCorrect crates
kems-AreCorrect_example = kems-AreCorrect crates crates_docs

fuzz_open-returns_example : fuzz_open crates aead_crate (zeros 64) ≡ ok tt
fuzz_open-returns_example = fuzz_open-returns crates crates_docs aead_crate aead_docs (zeros 64)

fuzz_key_schedule-returns_example : fuzz_key_schedule crates aead_crate (zeros 40) ≡ ok tt
fuzz_key_schedule-returns_example =
    fuzz_key_schedule-returns crates crates_docs aead_crate aead_docs (zeros 40)
