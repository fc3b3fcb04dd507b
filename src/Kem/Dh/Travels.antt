-- ===== src/Kem/Dh/Travels.antt =====
-- src/kem/dh.rs: proofs on public and encapsulated keys that are serialized and read back.
use hpke_ng.Base.{◌≡◌, ◌==◌, ◌∙◌, subst, none, some, ==_iff, length, ◌+◌, ◌*◌}
use hpke_ng.Error.{ok, ok_inj, guard-eq-ok}
use hpke_ng.Kdf.Hkdf.{HkdfCrate}
use hpke_ng.Kem
use hpke_ng.Kem.{CryptoRng}
use hpke_ng.Kem.Dh.{
  DiffieHellman, IsLawful, HasWidth, generate, pk_from_bytes, enc_from_bytes, dh_kem, dh_auth_kem,
}
use hpke_ng.Kem.Dh.Correct.{encap_with-Encapped, received_key}
use hpke_ng.Kem.Dh.X25519
use hpke_ng.Kem.Dh.X25519.{DalekCrate, x25519}
use hpke_ng.Kem.Dh.X448
use hpke_ng.Kem.Dh.X448.{Ed448Crate, x448}
use hpke_ng.Kem.Dh.Nist
use hpke_ng.Kem.Dh.Nist.{CurveCrate, Curve, nist_curve}

module _ {R : CryptoRng} (D : DiffieHellman R) (lawful : IsLawful D) (sized : HasWidth D) where
  pub dh_kem-Travels : Kem.Travels (dh_kem D)
  unfolding generate pk_from_bytes enc_from_bytes
  dh_kem-Travels = record {
    pk_read_back = λ rng rng' {sk} {pk} h.
        let pair = ok_inj (λ i. (h i).0) in
        let public : D.sk_to_pk (D.generate rng).0.0 ≡ pk.key =
          lawful.generate_pair rng ∙ λ i. (pair i).1.key in
        rw (
          subst (λ k. D.pk_from_bytes (D.pk_to_bytes k) ≡ ok k) public
            (lawful.pk_from_bytes-pk_to_bytes (D.generate rng).0.0));
    enc_read_back = λ rng rng' pk {ss} {enc} h.
        let e = encap_with-Encapped D lawful rng rng' pk none h in
        rw ((==_iff _ _).1 (sized.width enc.bytes (received_key D lawful e)));
  }

  pub dh_auth_kem-AuthTravels : Kem.AuthTravels (dh_auth_kem D)
  unfolding enc_from_bytes
  dh_auth_kem-AuthTravels = record {
    travels = dh_kem-Travels;
    auth_enc_read_back = λ rng rng' pk_r sk_s {ss} {enc} h.
        let e = encap_with-Encapped D lawful rng rng' pk_r (some sk_s) h in
        rw ((==_iff _ _).1 (sized.width enc.bytes (received_key D lawful e)));
  }

module _ (R : CryptoRng) (h : HkdfCrate) where
  pub x25519-HasWidth : (d : DalekCrate) → HasWidth (x25519 d R h)
  unfolding X25519.pk_from_bytes
  x25519-HasWidth d = record { width = λ b h. (==_iff _ _).0 (guard-eq-ok (length b == 32) _ _ h) }

  pub x448-HasWidth : (e : Ed448Crate) → HasWidth (x448 e R h)
  unfolding X448.pk_from_bytes
  x448-HasWidth e = record { width = λ b h. (==_iff _ _).0 (guard-eq-ok (length b == 56) _ _ h) }

module _ {R : CryptoRng} (p : Curve) (c : CurveCrate R) where
  pub nist_curve-HasWidth : HasWidth (nist_curve p c)
  unfolding Nist.pk_from_bytes
  nist_curve-HasWidth = record {
    width = λ b h. (==_iff _ _).0 (guard-eq-ok (length b == 1 + 2 * p.nsk) _ _ h);
  }
