-- ===== src/Kem/Pq/MlKem/Correct.antt =====
-- src/kem/pq.rs: proofs on ML-KEM.
use hpke_ng.Base.{length, not, ◌==◌, ◌≡◌, refl, sym, ap, subst, ◌∙◌, some, none, ==_iff}
use hpke_ng.Bytes.{Bytes, zeros}
use hpke_ng.Bytes.Slices.{copy_array, copy_array_ok, copy_guarded-Returns}
use hpke_ng.Error.{
  ok, err, ok_inj, >>=-eq-ok, ok_or, Returns, ok-Returns, >>=-Returns, ok_or-Returns, guard-Returns,
  decap_error, invalid_encapped_key, invalid_public_key, invalid_private_key,
}
use hpke_ng.Kem
use hpke_ng.Kem.{CryptoRng, RngDocs, IsCorrect, kem_suite_id}
use hpke_ng.Kem.Pq.{ShakeCrate, ShakeDocs, shake256_labeled_derive, derive_key_pair_label}
use hpke_ng.Kem.Pq.Derive.{shake256_labeled_derive_total}
use hpke_ng.Kem.Pq.MlKem.{
  MlKemCrate, MlKemDocs, Variant, MlKemPublicKey, MlKemPrivateKey, MlKemEncappedKey,
  MlKemSharedSecret, from_seed, generate, derive_key_pair, encap, decap, sk_from_bytes,
  pk_from_bytes, enc_from_bytes, zeroize, ml_kem_variant,
}

module _ {R : CryptoRng} (s : ShakeCrate) (v : Variant) (m : MlKemCrate R)
    (docs : MlKemDocs m) where
  -- The private key's expanded half makes the public key.
  pub record Paired (sk : MlKemPrivateKey m) (pk : MlKemPublicKey m) : Type 0 where
    pub key : m.DecapsulationKey
    pub expanded : sk.dk ≡ some key
    pub public : m.encapsulation_key key ≡ pk.parsed

  from_seed-Paired : (seed : Bytes) → Paired (from_seed s v m seed).0 (from_seed s v m seed).1
  unfolding from_seed
  from_seed-Paired seed = record { key = m.from_seed seed; expanded = refl; public = refl }

  generate-Paired :
      (rng rng' : R.State) {sk : MlKemPrivateKey m} {pk : MlKemPublicKey m}
      → generate s v m rng ≡ (ok (sk, pk), rng')
      → Paired sk pk
  unfolding generate
  generate-Paired rng rng' h =
      subst (λ p. Paired p.0 p.1) (ok_inj (λ i. (h i).0)) (from_seed-Paired (R.fill_bytes 64 rng).0)

  derive_key_pair-Paired :
      (ikm : Bytes) {sk : MlKemPrivateKey m} {pk : MlKemPublicKey m}
      → derive_key_pair s v m ikm ≡ ok (sk, pk)
      → Paired sk pk
  unfolding derive_key_pair
  derive_key_pair-Paired ikm h =
      let (seed, derived, made) =
        >>=-eq-ok (shake256_labeled_derive s (kem_suite_id v.id) derive_key_pair_label ikm 64) _
          h in
      subst (λ p. Paired p.0 p.1) (ok_inj made) (from_seed-Paired seed)

  -- The receiver reads the ciphertext back and computes the sender's secret.
  opened :
      (rng : R.State) {sk : MlKemPrivateKey m} {pk : MlKemPublicKey m} (paired : Paired sk pk)
      → let made = m.encapsulate_with_rng rng pk.parsed in
        m.decapsulate paired.key made.0.0 ≡ made.0.1
  opened rng paired =
      subst
        (λ ek.
          m.decapsulate paired.key (m.encapsulate_with_rng rng ek).0.0
          ≡ (m.encapsulate_with_rng rng ek).0.1)
        paired.public (docs.decapsulate-encapsulate rng paired.key)

  decap-encap :
      (rng rng' : R.State) (sk : MlKemPrivateKey m) (pk : MlKemPublicKey m) {ss : MlKemSharedSecret}
      {enc : MlKemEncappedKey}
      → Paired sk pk
      → encap s v m rng pk ≡ (ok (ss, enc), rng')
      → decap s v m enc sk ≡ ok ss
  unfolding encap decap
  decap-encap rng rng' sk pk {ss} {enc} paired h =
      let made = m.encapsulate_with_rng rng pk.parsed in
      let (b, copied, rest) = >>=-eq-ok (copy_array 32 made.0.1) _ (λ i. (h i).0) in
      let result = ok_inj rest in
      let read : m.ciphertext_try_into enc.bytes ≡ some made.0.0 =
        ap m.ciphertext_try_into (sym (λ i. (result i).1.bytes))
        ∙ docs.ciphertext_try_into-to_vec made.0.0 in
      rw paired.expanded (rw read (rw (opened rng paired) (rw copied (λ i. ok (result i).0))))

  -- Over a crate that behaves as documented, each KEM of `ml_kem_variant!` is correct: for some
  -- relation of pairs that holds of the keys it generates or derives, decapsulation with the
  -- private half undoes encapsulation to the public half.
  pub ml_kem_variant-IsCorrect : IsCorrect (ml_kem_variant s v m)
  ml_kem_variant-IsCorrect = record {
    Paired = Paired;
    generate-Paired = generate-Paired;
    derive_key_pair-Paired = derive_key_pair-Paired;
    decap-encap = decap-encap;
  }

  -- Deriving a key pair gives one whose private half is read back from its 64 bytes.
  pub sk_from_bytes-derive_key_pair :
      ShakeDocs s
      → (ikm : Bytes)
      → (sk : MlKemPrivateKey m) × (pk : MlKemPublicKey m) × (derive_key_pair s v m ikm
          ≡ ok (sk, pk))
        × (sk_from_bytes s v m sk.seed ≡ ok sk)
  unfolding derive_key_pair sk_from_bytes from_seed
  sk_from_bytes-derive_key_pair shake ikm =
      let (seed, derived, size) =
        shake256_labeled_derive_total s shake (kem_suite_id v.id) ikm 64 refl in
      (
        record { dk = some (m.from_seed seed); seed = seed },
        (from_seed s v m seed).1,
        rw derived,
        rw ((==_iff _ _).1 size, copy_array_ok 64 seed size),
      )

  decap-Returns : (enc : MlKemEncappedKey) (sk : MlKemPrivateKey m) → Returns (decap s v m enc sk)
  unfolding decap
  decap-Returns enc sk =
      >>=-Returns (ok_or sk.dk decap_error) _ (ok_or-Returns sk.dk decap_error) λ dk there.
        >>=-Returns (ok_or (m.ciphertext_try_into enc.bytes) invalid_encapped_key) _
          (ok_or-Returns (m.ciphertext_try_into enc.bytes) invalid_encapped_key)
          λ ct read.
            let copied = copy_array_ok 32 (m.decapsulate dk ct) (docs.decapsulated_size dk ct) in
            >>=-Returns (copy_array 32 (m.decapsulate dk ct)) _ (ok-Returns copied) λ b e. tt

  pub ml_kem_variant-IsPanicFree : ShakeDocs s → Kem.IsPanicFree (ml_kem_variant s v m)
  unfolding generate encap pk_from_bytes sk_from_bytes enc_from_bytes zeroize
  ml_kem_variant-IsPanicFree shake = record {
    generate = λ rng. tt;
    derive_key_pair = λ ikm.
        let (sk, pk, made, read) = sk_from_bytes-derive_key_pair shake ikm in ok-Returns made;
    encap = λ rng pk.
        let made = m.encapsulate_with_rng rng pk.parsed in
        >>=-Returns (copy_array 32 made.0.1) _
          (ok-Returns (copy_array_ok 32 made.0.1 (docs.secret_size rng pk.parsed))) λ b e. tt;
    decap = decap-Returns;
    pk_from_bytes = λ b. guard-Returns (not (length b == v.npk)) invalid_public_key _ λ right.
        >>=-Returns (ok_or (m.key_try_into b) invalid_public_key) _
          (ok_or-Returns (m.key_try_into b) invalid_public_key)
          λ key read.
            >>=-Returns (ok_or (m.new key) invalid_public_key) _
              (ok_or-Returns (m.new key) invalid_public_key) λ ek made. tt;
    sk_from_bytes = λ b. copy_guarded-Returns 64 b invalid_private_key _ λ out. tt;
    enc_from_bytes = λ b.
        guard-Returns (not (length b == v.nenc)) invalid_encapped_key (ok (record { bytes = b }))
          λ right. tt;
    sk_zeroize = λ sk. tt;
  }

  pub decap-zeroize :
      (enc : MlKemEncappedKey) (sk : MlKemPrivateKey m)
      → (scrubbed : MlKemPrivateKey m) × (zeroize s v m sk ≡ ok scrubbed)
        × (scrubbed.seed ≡ zeros 64)
        × (decap s v m enc scrubbed ≡ err decap_error)
  unfolding zeroize decap
  decap-zeroize enc sk = (record { dk = none; seed = zeros 64 }, refl, refl, refl)

  -- A private key is its seed, which is read back.
  sk_from_bytes-seed :
      (seed : Bytes)
      → length seed ≡ 64
      → sk_from_bytes s v m (from_seed s v m seed).0.seed ≡ ok (from_seed s v m seed).0
  unfolding sk_from_bytes from_seed
  sk_from_bytes-seed seed size = rw ((==_iff _ _).1 size, copy_array_ok 64 seed size)

  pub ml_kem_variant-Stores : RngDocs R → Kem.Stores (ml_kem_variant s v m)
  unfolding generate
  ml_kem_variant-Stores rng_docs = record {
    read_back = λ rng rng' {sk} {pk} h.
        let seed = (R.fill_bytes 64 rng).0 in
        let pair = ok_inj (λ i. (h i).0) in
        let same : (from_seed s v m seed).0 ≡ sk = λ i. (pair i).0 in
        (
          sk,
          rw (← same, sk_from_bytes-seed seed (rng_docs.length-fill_bytes 64 rng)),
          λ rng_e rng_e' ss enc e. decap-encap rng_e rng_e' sk pk (generate-Paired rng rng' h) e,
        );
  }
