-- ===== src/Tests/PostQuantum.antt =====
-- Examples on the post-quantum KEMs, over stand-ins for their crates.
use hpke_ng.Base.{
  ℕ, ◌+◌, [], ◌∷◌, ◌++◌, ◌≡◌, refl, ap, sym, some, take, length, ◌-◌, ◌≤◌, length-replicate,
  length-append, take-append, arith,
}
use hpke_ng.Bytes.{Bytes, zeros}
use hpke_ng.Kem.Pq.{ShakeCrate, ShakeDocs}
use hpke_ng.Kem.Pq.XWing.{XWingCrate, XWingDocs, XWingWireDocs}
use hpke_ng.Kem.Pq.MlKem.{MlKemCrate, MlKemDocs, MlKemWireDocs, Variant}
use hpke_ng.Tests.Crates.{counting_rng, length-take_padded}

abbrev pub shake : ShakeCrate
shake = record {
  Shake256 = Bytes;
  default = [];
  update = λ h b. h ++ b;
  read = λ h n. take n (h ++ zeros n);
}

pub shake_docs : ShakeDocs shake
shake_docs = record { length-read = λ h n. length-take_padded n h }

abbrev first : Bytes → ℕ
first [] = 0
first (b ∷ bs) = b

-- The secret is the sum of the ciphertext and of the key.
abbrev pub x_wing : XWingCrate counting_rng
x_wing = record {
  ciphertext_size = 1;
  encapsulation_key_size = 32;
  decapsulation_key_size = 32;
  DecapsulationKey = Bytes;
  EncapsulationKey = Bytes;
  decapsulation_key_from = λ seed. seed;
  encapsulation_key = λ dk. dk;
  to_bytes = λ ek. ek;
  encapsulation_key_try_from = λ b. some b;
  encapsulate_with_rng = λ rng ek. ((rng ∷ [], (rng + first ek) ∷ zeros 31), rng + 1);
  decapsulate_slice = λ dk ct. some ((first ct + first dk) ∷ zeros 31);
}

some_inj : {a b : Bytes} → some a ≡ some b → a ≡ b
some_inj h = cc

pub x_wing_docs : XWingDocs x_wing
x_wing_docs = record {
  seed_size = refl;
  secret_size = λ rng ek. refl;
  decapsulated_size = λ dk ct h. ap length (sym (some_inj h));
  decapsulate-encapsulate = λ rng dk. refl;
}

pub x_wing_wire : XWingWireDocs x_wing
x_wing_wire = record {
  length-ciphertext = λ rng ek. refl;
  length-to_bytes = λ seed h. h;
  try_from-to_bytes = λ seed h. refl;
}

-- Ciphertexts and encoded keys are filled up to the sizes of the parameter set.
abbrev pub ml_kem_of : Variant → MlKemCrate counting_rng
ml_kem_of v = record {
  DecapsulationKey = Bytes;
  EncapsulationKey = Bytes;
  Ciphertext = ℕ;
  Key = Bytes;
  from_seed = λ seed. seed;
  encapsulation_key = λ dk. dk;
  to_bytes = λ ek. ek ++ zeros (v.npk - 64);
  key_try_into = λ b. some b;
  new = λ k. some (take 64 k);
  encapsulate_with_rng = λ rng ek. ((rng, (rng + first ek) ∷ zeros 31), rng + 1);
  to_vec = λ ct. ct ∷ zeros (v.nenc - 1);
  ciphertext_try_into = λ b. some (first b);
  decapsulate = λ dk ct. (ct + first dk) ∷ zeros 31;
}

pub ml_kem_of-MlKemDocs : (v : Variant) → MlKemDocs (ml_kem_of v)
ml_kem_of-MlKemDocs v = record {
  secret_size = λ rng ek. refl;
  decapsulated_size = λ dk ct. refl;
  ciphertext_try_into-to_vec = λ ct. refl;
  decapsulate-encapsulate = λ rng dk. refl;
}

pub ml_kem_of-MlKemWireDocs :
    (v : Variant) → 1 ≤ v.nenc → 64 ≤ v.npk → MlKemWireDocs v (ml_kem_of v)
ml_kem_of-MlKemWireDocs v enc_bound pk_bound = record {
  length-to_vec = λ ct. omega (arith, length-replicate {A = ℕ} (v.nenc - 1) 0, enc_bound);
  length-to_bytes = λ seed h. omega (
    arith,
    length-append seed (zeros (v.npk - 64)),
    length-replicate {A = ℕ} (v.npk - 64) 0,
    pk_bound,
    h,
  );
  new-to_bytes = λ seed h.
      (seed ++ zeros (v.npk - 64), refl, ap some (take-append seed (zeros (v.npk - 64)) 64 h));
}
