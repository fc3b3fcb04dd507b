-- ===== src/Kem/Dh/X25519/Lawful.antt =====
-- src/kem/dh.rs: proofs on the group X25519, for `DhKem`.
use hpke_ng.Base.{◌≡◌, refl, ap, sym, subst, ◌∙◌, [], ==_iff, if◌then◌else◌, length, arith}
use hpke_ng.Bytes.{Bytes, literal, zeros, eq_bytes}
use hpke_ng.Bytes.Slices.{copy_array_ok, modify_fixed, copy_guarded-Returns}
use hpke_ng.Error.{
  ok, err, ok_inj, encap_error, invalid_public_key, invalid_private_key, ok-Returns, guard-Returns,
}
use hpke_ng.Kdf
use hpke_ng.Kdf.{labeled_extract, labeled_expand}
use hpke_ng.Kdf.Hkdf.{HkdfCrate, HkdfDocs, hkdf_sha256, hkdf_impl-IsLawful}
use hpke_ng.Kdf.Labeled.{labeled_expand-outcome}
use hpke_ng.Kem.{CryptoRng, kem_suite_id}
use hpke_ng.Kem.Dh
use hpke_ng.Kem.Dh.X25519.{
  DalekCrate, DalekDocs, X25519PrivateKeyWrap, X25519PublicKeyWrap, x25519, derive, key_pair, clamp,
  dh, generate, sk_to_pk, pk_from_bytes, sk_from_bytes, zeroize,
}
use hpke_ng.Kem.Dh.X25519.Canonical.{and_7f_fixed}

module _ (R : CryptoRng) (h : HkdfCrate) (hkdf : HkdfDocs h 32) (d : DalekCrate)
    (docs : DalekDocs d) where
  kdf-IsLawful : Kdf.IsLawful (hkdf_sha256 h)
  kdf-IsLawful = hkdf_impl-IsLawful h 32 hkdf 0x0001 (omega arith) (omega arith)

  -- Over crates that behave as documented, deriving an X25519 key pair neither fails nor panics:
  -- it gives the key pair of a clamped scalar of 32 bytes.
  pub derive_total :
      (ikm : Bytes)
      → (scalar : Bytes) × (length scalar ≡ 32) × (derive d h ikm ≡ ok (key_pair d (clamp scalar)))
  unfolding derive labeled_extract
  derive_total ikm =
      let (out, e, size) =
        (labeled_expand-outcome (hkdf_sha256 h) kdf-IsLawful
            (labeled_extract (hkdf_sha256 h) [] (kem_suite_id 0x0020) (literal "dkp_prk") ikm)
            (kem_suite_id 0x0020) (literal "sk") [] 32).1
          (omega arith) (omega (arith, kdf-IsLawful.length-extract [] _)) in
      (out, size, rw (e, copy_array_ok 32 out size))

  derive_pair :
      (ikm : Bytes) {sk : X25519PrivateKeyWrap d} {pk : X25519PublicKeyWrap}
      → derive d h ikm ≡ ok (sk, pk)
      → sk_to_pk d sk ≡ pk
  unfolding sk_to_pk key_pair
  derive_pair ikm e =
      let (scalar, size, made) = derive_total ikm in
      subst (λ p. sk_to_pk d p.0 ≡ p.1) (ok_inj (sym made ∙ e)) refl

  dh_comm : (a b : X25519PrivateKeyWrap d) → dh d a (sk_to_pk d b) ≡ dh d b (sk_to_pk d a)
  unfolding dh sk_to_pk
  dh_comm a b =
      ap (λ (shared : Bytes). if eq_bytes shared (zeros 32) then err encap_error else ok shared)
        (docs.dh_comm a.secret b.secret)

  read_back :
      (sk : X25519PrivateKeyWrap d) → pk_from_bytes d (sk_to_pk d sk).bytes ≡ ok (sk_to_pk d sk)
  unfolding sk_to_pk pk_from_bytes
  read_back sk =
      let size = docs.length-public_bytes sk.secret in
      rw (
        (==_iff _ _).1 size,
        copy_array_ok 32 _ size,
        modify_fixed 31 _ (d.public_bytes sk.secret)
            (λ y e. and_7f_fixed y (docs.public_bytes_last sk.secret y e)),
      )

  -- Over crates that behave as documented, the group X25519 is lawful: generated and derived keys
  -- are pairs, the Diffie-Hellman function gives both ends the same result, and a serialized
  -- public key is read back.
  pub x25519-IsLawful : Dh.IsLawful (x25519 d R h)
  unfolding generate sk_to_pk key_pair
  x25519-IsLawful = record {
    kdf_lawful = kdf-IsLawful;
    secret_len_bound = omega arith;
    generate_pair = λ rng. refl;
    derive_pair = derive_pair;
    dh_comm = dh_comm;
    pk_from_bytes-pk_to_bytes = read_back;
    pk_to_bytes-as_ref = λ pk. refl;
  }

  pub x25519-IsPanicFree : Dh.IsPanicFree (x25519 d R h)
  unfolding dh pk_from_bytes sk_from_bytes zeroize
  x25519-IsPanicFree = record {
    derive = λ ikm. let (scalar, size, made) = derive_total ikm in ok-Returns made;
    dh = λ sk pk.
        guard-Returns (eq_bytes (d.diffie_hellman sk.secret pk.bytes) (zeros 32)) encap_error
          (ok (d.diffie_hellman sk.secret pk.bytes)) λ e. tt;
    pk_from_bytes = λ b. copy_guarded-Returns 32 b invalid_public_key _ λ out. tt;
    sk_from_bytes = λ b. copy_guarded-Returns 32 b invalid_private_key _ λ out. tt;
    sk_zeroize = λ sk. tt;
  }
