-- ===== src/Kem/Dh/X448/Lawful.antt =====
-- src/kem/dh.rs: proofs on the group X448, for `DhKem`.
use hpke_ng.Base.{◌≡◌, refl, ap, sym, subst, ◌∙◌, [], ==_iff, if◌then◌else◌, length, arith}
use hpke_ng.Bytes.{Bytes, literal, zeros, eq_bytes}
use hpke_ng.Bytes.Slices.{copy_array_ok, copy_guarded-Returns}
use hpke_ng.Error.{
  ok, err, ok_inj, encap_error, invalid_public_key, invalid_private_key, ok-Returns, guard-Returns,
}
use hpke_ng.Kdf
use hpke_ng.Kdf.{labeled_extract, labeled_expand}
use hpke_ng.Kdf.Hkdf.{HkdfCrate, HkdfDocs, hkdf_sha512, hkdf_impl-IsLawful}
use hpke_ng.Kdf.Labeled.{labeled_expand-outcome}
use hpke_ng.Kem.{CryptoRng, kem_suite_id}
use hpke_ng.Kem.Dh
use hpke_ng.Kem.Dh.X448.{
  Ed448Crate, Ed448Docs, X448PrivateKeyWrap, X448PublicKeyWrap, x448, derive, key_pair, clamp, dh,
  generate, sk_to_pk, pk_from_bytes, sk_from_bytes, zeroize, x448_scalar_mult,
  x448_scalar_mult_base,
}

module _ (R : CryptoRng) (h : HkdfCrate) (hkdf : HkdfDocs h 64) (e : Ed448Crate)
    (docs : Ed448Docs e) where
  kdf-IsLawful : Kdf.IsLawful (hkdf_sha512 h)
  kdf-IsLawful = hkdf_impl-IsLawful h 64 hkdf 0x0003 (omega arith) (omega arith)

  -- Deriving a key pair gives the pair of a clamped scalar of 56 bytes.
  pub derive_total :
      (ikm : Bytes)
      → (scalar : Bytes) × (length scalar ≡ 56) × (derive e h ikm ≡ ok (key_pair e (clamp scalar)))
  unfolding derive labeled_extract
  derive_total ikm =
      let (out, given, size) =
        (labeled_expand-outcome (hkdf_sha512 h) kdf-IsLawful
            (labeled_extract (hkdf_sha512 h) [] (kem_suite_id 0x0021) (literal "dkp_prk") ikm)
            (kem_suite_id 0x0021) (literal "sk") [] 56).1
          (omega arith) (omega (arith, kdf-IsLawful.length-extract [] _)) in
      (out, size, rw (given, copy_array_ok 56 out size))

  derive_pair :
      (ikm : Bytes) {sk : X448PrivateKeyWrap} {pk : X448PublicKeyWrap}
      → derive e h ikm ≡ ok (sk, pk)
      → sk_to_pk e sk ≡ pk
  unfolding sk_to_pk key_pair
  derive_pair ikm given =
      let (scalar, size, made) = derive_total ikm in
      subst (λ p. sk_to_pk e p.0 ≡ p.1) (ok_inj (sym made ∙ given)) refl

  dh_comm : (a b : X448PrivateKeyWrap) → dh e a (sk_to_pk e b) ≡ dh e b (sk_to_pk e a)
  unfolding dh sk_to_pk x448_scalar_mult x448_scalar_mult_base
  dh_comm a b =
      ap
        (λ (p : e.Point).
          if eq_bytes (e.as_bytes p) (zeros 56) then err encap_error else ok (e.as_bytes p))
        (docs.mul_comm (e.scalar_from_le a.bytes) (e.scalar_from_le b.bytes))

  read_back : (sk : X448PrivateKeyWrap) → pk_from_bytes e (sk_to_pk e sk).bytes ≡ ok (sk_to_pk e sk)
  unfolding sk_to_pk pk_from_bytes x448_scalar_mult_base
  read_back sk =
      let size = docs.length-as_bytes (e.mul e.generator (e.scalar_from_le sk.bytes)) in
      rw ((==_iff _ _).1 size, copy_array_ok 56 _ size)

  -- Over crates that behave as documented, the group X448 is lawful: generated and derived keys
  -- are pairs, the Diffie-Hellman function gives both ends the same result, and a serialized
  -- public key is read back.
  pub x448-IsLawful : Dh.IsLawful (x448 e R h)
  unfolding generate sk_to_pk key_pair
  x448-IsLawful = record {
    kdf_lawful = kdf-IsLawful;
    secret_len_bound = omega arith;
    generate_pair = λ rng. refl;
    derive_pair = derive_pair;
    dh_comm = dh_comm;
    pk_from_bytes-pk_to_bytes = read_back;
    pk_to_bytes-as_ref = λ pk. refl;
  }

  pub x448-IsPanicFree : Dh.IsPanicFree (x448 e R h)
  unfolding dh pk_from_bytes sk_from_bytes zeroize
  x448-IsPanicFree = record {
    derive = λ ikm. let (scalar, size, made) = derive_total ikm in ok-Returns made;
    dh = λ sk pk.
        guard-Returns (eq_bytes (x448_scalar_mult e sk.bytes pk.bytes) (zeros 56)) encap_error
          (ok (x448_scalar_mult e sk.bytes pk.bytes)) λ e. tt;
    pk_from_bytes = λ b. copy_guarded-Returns 56 b invalid_public_key _ λ out. tt;
    sk_from_bytes = λ b. copy_guarded-Returns 56 b invalid_private_key _ λ out. tt;
    sk_zeroize = λ sk. tt;
  }
