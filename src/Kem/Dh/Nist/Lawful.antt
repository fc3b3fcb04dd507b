-- ===== src/Kem/Dh/Nist/Lawful.antt =====
-- src/kem/dh.rs: proofs on the curves of `nist_curve!`, for `DhKem`.
use hpke_ng.Base.{
  ◌+◌, ◌*◌, ◌≤◌, ◌<◌, ◌≡◌, suc, [], ◌∷◌, ◌==◌, not, length, Bool-cases, inl, inr, arith, refl, ap,
  subst, ==_iff, if◌then◌else◌,
}
use hpke_ng.Bytes.{Bytes, zeros, eq_bytes}
use hpke_ng.Bytes.Slices.{index}
use hpke_ng.Error.{
  ok, err, ok_or, map_ok, >>=-eq-ok, ok_inj, encap_error, invalid_public_key, invalid_private_key,
  Returns, ok-Returns, err-Returns, guard-Returns, map_ok-Returns, ok_or-Returns,
}
use hpke_ng.Kdf
use hpke_ng.Kem.{CryptoRng}
use hpke_ng.Kem.Dh
use hpke_ng.Kem.Dh.Nist.{
  CurveCrate, CurveDocs, Curve, PrivateKeyWrap, PublicKeyWrap, nist_curve, derive,
  derive_p_curve_sk, generate, make_pk, sk_to_pk, pk_from_bytes, sk_from_bytes, zeroize, dh,
}
use hpke_ng.Kem.Dh.Nist.DeriveKey.{derive-first}

module _ {R : CryptoRng} (p : Curve) (c : CurveCrate R) (docs : CurveDocs p c) where
  derive_pair :
      (ikm : Bytes) {sk : PrivateKeyWrap c} {pk : PublicKeyWrap c}
      → derive p c ikm ≡ ok (sk, pk)
      → sk_to_pk p c sk ≡ pk
  unfolding derive sk_to_pk
  derive_pair ikm h =
      let (bytes, found, rest) = >>=-eq-ok (derive_p_curve_sk p c ikm) _ h in
      let (sk, taken, last) =
        >>=-eq-ok _
          (λ (sk : c.SecretKey). ok (record { secret = sk }, make_pk p c (c.public_key sk))) rest in
      subst (λ q. sk_to_pk p c q.0 ≡ q.1) (ok_inj last) refl

  dh_comm : (a b : PrivateKeyWrap c) → dh p c a (sk_to_pk p c b) ≡ dh p c b (sk_to_pk p c a)
  unfolding dh sk_to_pk make_pk
  dh_comm a b =
      ap (λ (s : Bytes). if eq_bytes s (zeros p.nsk) then err encap_error else ok s)
        (docs.dh_comm a.secret b.secret)

  read_back :
      (sk : PrivateKeyWrap c) → pk_from_bytes p c (sk_to_pk p c sk).encoded ≡ ok (sk_to_pk p c sk)
  unfolding pk_from_bytes sk_to_pk make_pk index
  read_back sk =
      let pk = c.public_key sk.secret in
      rw (
        (==_iff _ _).1 (docs.length-to_sec1_point pk),
        docs.to_sec1_point_tag pk,
        docs.from_sec1_bytes-to_sec1_point pk,
      )

  -- Over a curve crate that behaves as documented, with a lawful KDF and a shared secret of at
  -- most 255 blocks of the hash, the group of `nist_curve!` is lawful: generated and derived keys
  -- are pairs, the Diffie-Hellman function gives both ends the same result, and a serialized
  -- public key is read back.
  pub nist_curve-IsLawful :
      Kdf.IsLawful p.kdf → p.nsecret ≤ 255 * p.kdf.hash_len → Dh.IsLawful (nist_curve p c)
  unfolding generate sk_to_pk
  nist_curve-IsLawful kdf bound = record {
    kdf_lawful = kdf;
    secret_len_bound = bound;
    generate_pair = λ rng. refl;
    derive_pair = derive_pair;
    dh_comm = dh_comm;
    pk_from_bytes-pk_to_bytes = read_back;
    pk_to_bytes-as_ref = λ pk. refl;
  }

  -- The checks of the length and of the tag come before the crate's.
  pk_from_bytes-Returns : (b : Bytes) → Returns (pk_from_bytes p c b)
  unfolding pk_from_bytes index
  pk_from_bytes-Returns [] = elim (Bool-cases (0 == 1 + 2 * p.nsk)) [
    | inl right ↦ absurd (ground arith)
    | inr wrong ↦ rw wrong tt
  ]
  pk_from_bytes-Returns (tag ∷ b) = elim (Bool-cases (suc (length b) == 1 + 2 * p.nsk)) [
    | inr wrong ↦ rw wrong tt
    | inl right ↦ rw right elim (Bool-cases (tag == 0x04)) [
      | inr wrong ↦ rw wrong tt
      | inl right' ↦ rw right' (
          map_ok-Returns (make_pk p c) _
            (ok_or-Returns (c.from_sec1_bytes (tag ∷ b)) invalid_public_key))
    ]
  ]

  -- The crate takes the scalar that scrubbing writes.
  zeroize_total :
      (sk : PrivateKeyWrap c) → zeroize p c sk ≡ ok (record { secret = docs.from_slice_one.0 })
  unfolding zeroize
  zeroize_total sk = rw (docs.from_slice_one.1, zeroize)

  pub nist_curve-IsPanicFree :
      Kdf.IsLawful p.kdf
      → 0 < p.nsk
      → p.nsk ≤ 255 * p.kdf.hash_len
      → Dh.IsPanicFree (nist_curve p c)
  unfolding dh sk_from_bytes
  nist_curve-IsPanicFree kdf pos fits = record {
    derive = λ ikm. elim (derive-first p c kdf pos fits ikm) [
      | inl (k, bytes, sk, below, there, taken, rejected, made) ↦ ok-Returns made
      | inr (rejected, failed) ↦ err-Returns failed
    ];
    dh = λ sk pk.
        let shared = c.diffie_hellman sk.secret pk.pk in
        guard-Returns (eq_bytes shared (zeros p.nsk)) encap_error (ok shared) λ e. tt;
    pk_from_bytes = pk_from_bytes-Returns;
    sk_from_bytes = λ b.
        guard-Returns (not (length b == p.nsk)) invalid_private_key
          (map_ok (λ sk. record { secret = sk }) (ok_or (c.from_slice b) invalid_private_key))
          λ e.
            map_ok-Returns (λ sk. record { secret = sk }) _
              (ok_or-Returns (c.from_slice b) invalid_private_key);
    sk_zeroize = λ sk. ok-Returns (zeroize_total sk);
  }
