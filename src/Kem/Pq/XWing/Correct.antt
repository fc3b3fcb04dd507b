-- ===== src/Kem/Pq/XWing/Correct.antt =====
-- src/kem/pq.rs: proofs on X-Wing.
use hpke_ng.Base.{length, not, ◌==◌, arith, ◌≡◌, refl, sym, subst, ◌∙◌, some, none, ==_iff}
use hpke_ng.Bytes.{Bytes, zeros}
use hpke_ng.Bytes.Slices.{copy_array, copy_array_ok}
use hpke_ng.Error.{
  ok, err, ok_inj, >>=-eq-ok, ok_or, ok_or-eq-ok, Returns, ok-Returns, >>=-Returns, ok_or-Returns,
  guard-Returns, decap_error, invalid_encapped_key, invalid_public_key, invalid_private_key,
}
use hpke_ng.Kem
use hpke_ng.Kem.{CryptoRng, RngDocs, IsCorrect, kem_suite_id}
use hpke_ng.Kem.Pq.{ShakeCrate, ShakeDocs, shake256_labeled_derive, derive_key_pair_label}
use hpke_ng.Kem.Pq.Derive.{shake256_labeled_derive_total}
use hpke_ng.Kem.Pq.XWing.{
  XWingCrate, XWingDocs, XWingPublicKey, XWingPrivateKey, XWingEncappedKey, XWingSharedSecret,
  keypair_from_seed, generate, derive_key_pair, encap, decap, sk_from_bytes, pk_from_bytes,
  enc_from_bytes, zeroize, x_wing_draft06,
}

module _ {R : CryptoRng} (s : ShakeCrate) (x : XWingCrate R) (docs : XWingDocs x) where
  -- The private key's cached half makes the public key.
  pub record Paired (sk : XWingPrivateKey x) (pk : XWingPublicKey x) : Type 0 where
    pub key : x.DecapsulationKey
    pub cached : sk.dk ≡ some key
    pub public : x.encapsulation_key key ≡ pk.parsed

  from_seed-Paired :
      (seed : Bytes) → Paired (keypair_from_seed s x seed).0 (keypair_from_seed s x seed).1
  unfolding keypair_from_seed
  from_seed-Paired seed = record {
    key = x.decapsulation_key_from seed;
    cached = refl;
    public = refl;
  }

  generate-Paired :
      (rng rng' : R.State) {sk : XWingPrivateKey x} {pk : XWingPublicKey x}
      → generate s x rng ≡ (ok (sk, pk), rng')
      → Paired sk pk
  unfolding generate
  generate-Paired rng rng' h =
      subst (λ p. Paired p.0 p.1) (ok_inj (λ i. (h i).0)) (from_seed-Paired (R.fill_bytes 32 rng).0)

  derive_key_pair-Paired :
      (ikm : Bytes) {sk : XWingPrivateKey x} {pk : XWingPublicKey x}
      → derive_key_pair s x ikm ≡ ok (sk, pk)
      → Paired sk pk
  unfolding derive_key_pair
  derive_key_pair-Paired ikm h =
      let (seed, derived, made) =
        >>=-eq-ok (shake256_labeled_derive s (kem_suite_id 0x647a) derive_key_pair_label ikm 32) _
          h in
      subst (λ p. Paired p.0 p.1) (ok_inj made) (from_seed-Paired seed)

  decap-encap :
      (rng rng' : R.State) (sk : XWingPrivateKey x) (pk : XWingPublicKey x) {ss : XWingSharedSecret}
      {enc : XWingEncappedKey}
      → Paired sk pk
      → encap s x rng pk ≡ (ok (ss, enc), rng')
      → decap s x enc sk ≡ ok ss
  unfolding encap decap
  decap-encap rng rng' sk pk {ss} {enc} paired h =
      let made = x.encapsulate_with_rng rng pk.parsed in
      let copied = copy_array_ok 32 made.0.1 (docs.secret_size rng pk.parsed) in
      let (b, copied', rest) = >>=-eq-ok (copy_array 32 made.0.1) _ (λ i. (h i).0) in
      let result = ok_inj rest in
      let same : made.0.1 ≡ b = ok_inj (sym copied ∙ copied') in
      let opened : x.decapsulate_slice paired.key enc.bytes ≡ some made.0.1 =
        subst (λ (ct : Bytes). x.decapsulate_slice paired.key ct ≡ some made.0.1)
          (λ i. (result i).1.bytes)
          (subst
            (λ ek.
              x.decapsulate_slice paired.key (x.encapsulate_with_rng rng ek).0.0
              ≡ some (x.encapsulate_with_rng rng ek).0.1)
            paired.public (docs.decapsulate-encapsulate rng paired.key)) in
      rw paired.cached (rw opened (rw copied (rw same (λ i. ok (result i).0))))

  -- Over a crate that behaves as documented, X-Wing is a correct KEM: for some relation of pairs
  -- that holds of the keys it generates or derives, decapsulation with the private half undoes
  -- encapsulation to the public half.
  pub x_wing_draft06-IsCorrect : IsCorrect (x_wing_draft06 s x)
  x_wing_draft06-IsCorrect = record {
    Paired = Paired;
    generate-Paired = generate-Paired;
    derive_key_pair-Paired = derive_key_pair-Paired;
    decap-encap = decap-encap;
  }

  -- Over crates that behave as documented, deriving an X-Wing key pair succeeds for all input
  -- keying material, and the private key is read back from its serialized seed.
  pub sk_from_bytes-derive_key_pair :
      ShakeDocs s
      → (ikm : Bytes)
      → (sk : XWingPrivateKey x) × (pk : XWingPublicKey x) × (derive_key_pair s x ikm ≡ ok (sk, pk))
        × (sk_from_bytes s x sk.seed ≡ ok sk)
  unfolding derive_key_pair sk_from_bytes keypair_from_seed
  sk_from_bytes-derive_key_pair shake ikm =
      let (seed, derived, size) =
        shake256_labeled_derive_total s shake (kem_suite_id 0x647a) ikm 32 refl in
      (
        record { seed = seed; dk = some (x.decapsulation_key_from seed) },
        (keypair_from_seed s x seed).1,
        rw derived,
        rw docs.seed_size (rw ((==_iff _ _).1 size, copy_array_ok 32 seed size)),
      )

  decap-Returns : (enc : XWingEncappedKey) (sk : XWingPrivateKey x) → Returns (decap s x enc sk)
  unfolding decap
  decap-Returns enc sk =
      >>=-Returns (ok_or sk.dk decap_error) _ (ok_or-Returns sk.dk decap_error) λ dk there.
        >>=-Returns (ok_or (x.decapsulate_slice dk enc.bytes) invalid_encapped_key) _
          (ok_or-Returns (x.decapsulate_slice dk enc.bytes) invalid_encapped_key)
          λ ss opened.
            let copied =
              copy_array_ok 32 ss
                (docs.decapsulated_size dk enc.bytes (ok_or-eq-ok _ invalid_encapped_key opened)) in
            >>=-Returns (copy_array 32 ss) _ (ok-Returns copied) λ b e. tt

  pub x_wing_draft06-IsPanicFree : ShakeDocs s → Kem.IsPanicFree (x_wing_draft06 s x)
  unfolding generate encap pk_from_bytes sk_from_bytes enc_from_bytes zeroize
  x_wing_draft06-IsPanicFree shake = record {
    generate = λ rng. tt;
    derive_key_pair = λ ikm.
        let (sk, pk, made, read) = sk_from_bytes-derive_key_pair shake ikm in ok-Returns made;
    encap = λ rng pk.
        let made = x.encapsulate_with_rng rng pk.parsed in
        >>=-Returns (copy_array 32 made.0.1) _
          (ok-Returns (copy_array_ok 32 made.0.1 (docs.secret_size rng pk.parsed))) λ b e. tt;
    decap = decap-Returns;
    pk_from_bytes = λ b.
        guard-Returns (not (length b == x.encapsulation_key_size)) invalid_public_key _ λ right.
          >>=-Returns (ok_or (x.encapsulation_key_try_from b) invalid_public_key) _
            (ok_or-Returns (x.encapsulation_key_try_from b) invalid_public_key) λ ek e. tt;
    sk_from_bytes = λ b.
        guard-Returns (not (length b == x.decapsulation_key_size)) invalid_private_key _ λ right.
          let size : length b ≡ 32 = ground (arith, docs.seed_size) in
          >>=-Returns (copy_array 32 b) _ (ok-Returns (copy_array_ok 32 b size)) λ seed e. tt;
    enc_from_bytes = λ b.
        guard-Returns (not (length b == x.ciphertext_size)) invalid_encapped_key
          (ok (record { bytes = b })) λ right. tt;
    sk_zeroize = λ sk. tt;
  }

  -- Over a crate that behaves as documented, scrubbing an X-Wing private key succeeds and leaves a
  -- seed of zeros, and the key then decapsulates nothing: every call gives `DecapError`.
  pub decap-zeroize :
      (enc : XWingEncappedKey) (sk : XWingPrivateKey x)
      → (scrubbed : XWingPrivateKey x) × (zeroize s x sk ≡ ok scrubbed)
        × (scrubbed.seed ≡ zeros 32)
        × (decap s x enc scrubbed ≡ err decap_error)
  unfolding zeroize decap
  decap-zeroize enc sk = (record { seed = zeros 32; dk = none }, refl, refl, refl)

  -- A private key is its seed, which is read back.
  sk_from_bytes-seed :
      (seed : Bytes)
      → length seed ≡ 32
      → sk_from_bytes s x (keypair_from_seed s x seed).0.seed ≡ ok (keypair_from_seed s x seed).0
  unfolding sk_from_bytes keypair_from_seed
  sk_from_bytes-seed seed size =
      rw docs.seed_size (rw ((==_iff _ _).1 size, copy_array_ok 32 seed size))

  pub x_wing_draft06-Stores : RngDocs R → Kem.Stores (x_wing_draft06 s x)
  unfolding generate
  x_wing_draft06-Stores rng_docs = record {
    read_back = λ rng rng' {sk} {pk} h.
        let seed = (R.fill_bytes 32 rng).0 in
        let pair = ok_inj (λ i. (h i).0) in
        let same : (keypair_from_seed s x seed).0 ≡ sk = λ i. (pair i).0 in
        (
          sk,
          rw (← same, sk_from_bytes-seed seed (rng_docs.length-fill_bytes 32 rng)),
          λ rng_e rng_e' ss enc e. decap-encap rng_e rng_e' sk pk (generate-Paired rng rng' h) e,
        );
  }
