-- ===== src/Units/Kems.antt =====
-- src/kem/dh.rs and src/kem/pq.rs, the modules `tests`: the unit tests of the KEMs. A test draws
-- from a generator, whose state is its argument; the macros of the tests are functions.
pub mod Pass
pub mod Offered
use hpke_ng.Base.{ℕ, Bool, true, ◌&&◌, [], ◌∷◌, ◌==◌, List, length}
use hpke_ng.Bytes.{Bytes, literal, modify, zeros}
use hpke_ng.Bytes.Slices.{index}
use hpke_ng.Error.{ok, ◌>>=◌, decap_error, invalid_public_key}
use hpke_ng.Kem.{CryptoRng, Kem}
use hpke_ng.Kem.Dh
use hpke_ng.Kem.Dh.{
  DiffieHellman, dh_kem, dh_auth_kem, auth_encap_with_ikm, extract_and_expand,
  extract_and_expand_pieces,
}
use hpke_ng.Kem.Instances.{Crates, x_wing_draft06_kem, ml_kem_768_kem, ml_kem_1024_kem}
use hpke_ng.Units.{TestRun, assert, assert_eq, assert_err, unwrap}

-- Every byte is 0.
abbrev pub all_zero : Bytes → Bool
all_zero [] = true
all_zero (b ∷ bs) = b == 0 && all_zero bs

-- `sk_roundtrip_test!` of src/kem/dh.rs.
unfoldable pub dh_sk_roundtrip_test : {R : CryptoRng} → DiffieHellman R → R.State → TestRun
dh_sk_roundtrip_test D rng =
    let Suite = dh_kem D in
    let (made, rng') = Suite.generate rng in
    do
      (sk_r, pk_r) ← unwrap made
      let sk_bytes = Suite.sk_to_bytes sk_r
      _ ← assert (length sk_bytes == Suite.private_key_len)
      sk_loaded ← unwrap (Suite.sk_from_bytes sk_bytes)
      (ss_e, enc) ← unwrap (Suite.encap rng' pk_r).0
      ss_d ← unwrap (Suite.decap enc sk_loaded)
      assert_eq (Suite.ss_as_ref ss_e) (Suite.ss_as_ref ss_d)

-- `sk_roundtrip_test!` of src/kem/pq.rs.
unfoldable pub pq_sk_roundtrip_test : {R : CryptoRng} → Kem R → ℕ → R.State → TestRun
pq_sk_roundtrip_test K seed_len rng =
    let (made, rng') = K.generate rng in
    do
      (sk_r, pk_r) ← unwrap made
      let sk_bytes = K.sk_to_bytes sk_r
      _ ← assert (length sk_bytes == seed_len)
      sk_loaded ← unwrap (K.sk_from_bytes sk_bytes)
      (ss_e, enc) ← unwrap (K.encap rng' pk_r).0
      ss_d ← unwrap (K.decap enc sk_loaded)
      assert_eq (K.ss_as_ref ss_e) (K.ss_as_ref ss_d)

-- `xwing_derive_key_pair_roundtrip`
unfoldable pub derive_key_pair_roundtrip : {R : CryptoRng} → Kem R → R.State → TestRun
derive_key_pair_roundtrip K rng = do
  (sk_r, pk_r) ← unwrap (K.derive_key_pair (literal "x-wing test ikm"))
  (ss_e, enc) ← unwrap (K.encap rng pk_r).0
  ss_d ← unwrap (K.decap enc sk_r)
  assert_eq (K.ss_as_ref ss_d) (K.ss_as_ref ss_e)

-- `zeroize_disables_decap_test!`, whose keys have a field `seed`.
unfoldable pub zeroize_disables_decap_test :
    {R : CryptoRng} (K : Kem R) → (K.PrivateKey → Bytes) → R.State → TestRun
zeroize_disables_decap_test K seed rng =
    let (made, rng') = K.generate rng in
    do
      (sk_r, pk_r) ← unwrap made
      (_, enc) ← unwrap (K.encap rng' pk_r).0
      scrubbed ← K.sk_zeroize sk_r
      _ ← assert (all_zero (seed scrubbed))
      assert_err (K.decap enc scrubbed) decap_error

unfoldable pub pq_tests : {R : CryptoRng} → Crates R → R.State → List TestRun
pq_tests c rng =
    pq_sk_roundtrip_test (x_wing_draft06_kem c) 32 rng
    ∷ pq_sk_roundtrip_test (ml_kem_768_kem c) 64 rng
    ∷ pq_sk_roundtrip_test (ml_kem_1024_kem c) 64 rng
    ∷ derive_key_pair_roundtrip (x_wing_draft06_kem c) rng
    ∷ zeroize_disables_decap_test (x_wing_draft06_kem c) (λ sk. sk.seed) rng
    ∷ zeroize_disables_decap_test (ml_kem_768_kem c) (λ sk. sk.seed) rng
    ∷ zeroize_disables_decap_test (ml_kem_1024_kem c) (λ sk. sk.seed) rng
    ∷ []
