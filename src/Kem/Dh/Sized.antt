-- ===== src/Kem/Dh/Sized.antt =====
-- src/kem/dh.rs: proofs on the sizes of keys and secrets.
use hpke_ng.Base.{◌≡◌, ◌∙◌, ap, sym, [], ◌∷◌, none, some, ==_iff, length, arith, ◌==◌}
use hpke_ng.Bytes.{Bytes}
use hpke_ng.Bytes.Slices.{length-modify}
use hpke_ng.Error.{ok, ok_inj, >>=-eq-ok, guard-eq-ok}
use hpke_ng.Kdf.Hkdf.{HkdfCrate, HkdfDocs}
use hpke_ng.Kem
use hpke_ng.Kem.{CryptoRng}
use hpke_ng.Kem.Dh
use hpke_ng.Kem.Dh.{
  DiffieHellman, IsLawful, HasWidth, KeySizes, DhSharedSecret, generate, derive_key_pair, from_pair,
  decap, auth_decap, encap_secret, extract_and_expand, extract_and_expand_pieces, sk_from_bytes,
  pk_from_bytes, enc_from_bytes, dh_kem, dh_auth_kem,
}
use hpke_ng.Kem.Dh.X25519
use hpke_ng.Kem.Dh.X25519.{DalekCrate, DalekDocs, x25519}
use hpke_ng.Kem.Dh.X25519.Lawful as X25519Lawful
use hpke_ng.Kem.Dh.X448
use hpke_ng.Kem.Dh.X448.Lawful as X448Lawful
use hpke_ng.Kem.Dh.X448.{Ed448Crate, Ed448Docs, x448}
use hpke_ng.Kem.Dh.Nist
use hpke_ng.Kem.Dh.Nist.{CurveCrate, CurveDocs, Curve, nist_curve}
use hpke_ng.Kem.Dh.Correct.{encap_with-Encapped, received_key}
use hpke_ng.Kem.Dh.Outcome.{extract_and_expand_total, extract_and_expand_pieces_total}

module _ {R : CryptoRng} (D : DiffieHellman R) (lawful : IsLawful D) where
  expanded :
      (dh : Bytes) (a b : Bytes) {ss : Bytes}
      → extract_and_expand D dh (a ∷ b ∷ []) ≡ ok ss
      → length ss ≡ D.shared_secret_len
  expanded dh a b h =
      let (ss, given, size) =
        extract_and_expand_total D lawful.kdf_lawful lawful.secret_len_bound dh (a ∷ b ∷ [])
          (omega arith) in
      ap length (ok_inj (sym h ∙ given)) ∙ size

  expanded_pieces :
      (dh1 dh2 a b c : Bytes) {ss : Bytes}
      → extract_and_expand_pieces D (dh1 ∷ dh2 ∷ []) (a ∷ b ∷ c ∷ []) ≡ ok ss
      → length ss ≡ D.shared_secret_len
  expanded_pieces dh1 dh2 a b c h =
      let (ss, given, size) =
        extract_and_expand_pieces_total D lawful.kdf_lawful lawful.secret_len_bound (dh1 ∷ dh2 ∷ [])
          (a ∷ b ∷ c ∷ []) (omega arith) (omega arith) in
      ap length (ok_inj (sym h ∙ given)) ∙ size

  module _ (stores : Dh.Stores D) (widths : HasWidth D) (sizes : KeySizes D) where
    -- A public key that a private key makes is read back, so it has the length that is read.
    public_size :
        (sk : D.PrivateKey) (pk : D.PublicKey)
        → D.sk_to_pk sk ≡ pk
        → length (D.pk_to_bytes pk) ≡ D.public_key_len
    public_size sk pk e =
        ap (λ k. length (D.pk_to_bytes k)) (sym e)
        ∙ widths.width (D.pk_to_bytes (D.sk_to_pk sk)) (lawful.pk_from_bytes-pk_to_bytes sk)

    pub dh_kem-IsSized : Kem.IsSized (dh_kem D)
    unfolding generate derive_key_pair from_pair decap encap_secret sk_from_bytes pk_from_bytes
        enc_from_bytes
    dh_kem-IsSized = record {
      generated = λ rng rng' {sk} {pk} h.
          let pair = ok_inj (λ i. (h i).0) in
          let made = (D.generate rng).0 in
          (
            ap (λ k. length (D.sk_to_bytes k)) (λ i. (sym pair i).0.sk)
                ∙ sizes.sk_read (D.sk_to_bytes made.0) (stores.read_back rng),
            public_size made.0 pk.key (lawful.generate_pair rng ∙ λ i. (pair i).1.key),
          );
      derived = λ ikm {sk} {pk} h.
          let (made, derived, result) = >>=-eq-ok (D.derive ikm) _ h in
          let pair = ok_inj result in
          (
            ap (λ k. length (D.sk_to_bytes k)) (λ i. (sym pair i).0.sk) ∙ sizes.derived ikm derived,
            public_size made.0 pk.key (lawful.derive_pair ikm derived ∙ λ i. (pair i).1.key),
          );
      encapped = λ rng rng' pk {ss} {enc} h.
          let e = encap_with-Encapped D lawful rng rng' pk none h in
          (
            expanded e.dh1 enc.bytes (D.pk_as_ref pk.key) e.derived,
            widths.width enc.bytes (received_key D lawful e),
          );
      decapped = λ enc sk {ss} h.
          let (pk_e, read, rest) = >>=-eq-ok (D.pk_from_bytes enc.bytes) _ h in
          let (dh, agreed, rest') = >>=-eq-ok (D.dh sk.sk pk_e) _ rest in
          let (secret, given, result) =
            >>=-eq-ok (extract_and_expand D dh (enc.bytes ∷ sk.pk_bytes ∷ [])) _ rest' in
          ap (λ (s : DhSharedSecret). length s.bytes) (sym (ok_inj result))
          ∙ expanded dh enc.bytes sk.pk_bytes given;
      sk_read = λ b {sk} h.
          let (made, read, result) = >>=-eq-ok (D.sk_from_bytes b) _ h in sizes.sk_read b read;
      pk_read = λ b {pk} h.
          let (made, read, result) = >>=-eq-ok (D.pk_from_bytes b) _ h in widths.width b read;
      enc_read = λ b {enc} h. (==_iff _ _).0 (guard-eq-ok (length b == D.public_key_len) _ _ h);
    }

    pub dh_auth_kem-AuthIsSized : Kem.AuthIsSized (dh_auth_kem D)
    unfolding auth_decap encap_secret
    dh_auth_kem-AuthIsSized = record {
      is_sized = dh_kem-IsSized;
      auth_encapped = λ rng rng' pk_r sk_s {ss} {enc} h.
          let e = encap_with-Encapped D lawful rng rng' pk_r (some sk_s) h in
          let (dh2, agreed, derived) = >>=-eq-ok (D.dh sk_s.sk pk_r.key) _ e.derived in
          (
            expanded_pieces e.dh1 dh2 enc.bytes (D.pk_as_ref pk_r.key) sk_s.pk_bytes derived,
            widths.width enc.bytes (received_key D lawful e),
          );
      auth_decapped = λ enc sk_r pk_s {ss} h.
          let (pk_e, read, rest) = >>=-eq-ok (D.pk_from_bytes enc.bytes) _ h in
          let (dh1, agreed, rest') = >>=-eq-ok (D.dh sk_r.sk pk_e) _ rest in
          let (dh2, agreed', rest'') = >>=-eq-ok (D.dh sk_r.sk pk_s.key) _ rest' in
          let (secret, given, result) =
            >>=-eq-ok
              (extract_and_expand_pieces D (dh1 ∷ dh2 ∷ [])
                (enc.bytes ∷ sk_r.pk_bytes ∷ D.pk_as_ref pk_s.key ∷ []))
              _ rest'' in
          ap (λ (s : DhSharedSecret). length s.bytes) (sym (ok_inj result))
          ∙ expanded_pieces dh1 dh2 enc.bytes sk_r.pk_bytes (D.pk_as_ref pk_s.key) given;
    }

module _ (R : CryptoRng) (h : HkdfCrate) where
  pub x25519-KeySizes : HkdfDocs h 32 → (d : DalekCrate) → DalekDocs d → KeySizes (x25519 d R h)
  unfolding X25519.sk_from_bytes X25519.key_pair X25519.sk_to_bytes X25519.clamp
  x25519-KeySizes hkdf d docs = record {
    sk_read = λ b given. (==_iff _ _).0 (guard-eq-ok (length b == 32) _ _ given);
    derived = λ ikm {sk} {pk} given.
        let (scalar, size, made) = X25519Lawful.derive_total R h hkdf d docs ikm in
        let clamped : length (X25519.clamp scalar) ≡ 32 =
          rw (length-modify, length-modify, length-modify, size) in
        ap (λ p. length (d.to_bytes p.0.secret)) (ok_inj (sym given ∙ made))
        ∙ ap length (docs.to_bytes-secret_from (X25519.clamp scalar) clamped)
        ∙ clamped;
  }

  pub x448-KeySizes : HkdfDocs h 64 → (e : Ed448Crate) → Ed448Docs e → KeySizes (x448 e R h)
  unfolding X448.sk_from_bytes X448.key_pair X448.clamp
  x448-KeySizes hkdf e docs = record {
    sk_read = λ b given. (==_iff _ _).0 (guard-eq-ok (length b == 56) _ _ given);
    derived = λ ikm {sk} {pk} given.
        let (scalar, size, made) = X448Lawful.derive_total R h hkdf e docs ikm in
        let clamped : length (X448.clamp scalar) ≡ 56 = rw (length-modify, length-modify, size) in
        ap (λ p. length p.0.bytes) (ok_inj (sym given ∙ made)) ∙ clamped;
  }

module _ {R : CryptoRng} (p : Curve) (c : CurveCrate R) (docs : CurveDocs p c) where
  pub nist_curve-KeySizes : KeySizes (nist_curve p c)
  unfolding Nist.sk_from_bytes
  nist_curve-KeySizes = record {
    sk_read = λ b given. (==_iff _ _).0 (guard-eq-ok (length b == p.nsk) _ _ given);
    derived = λ ikm {sk} {pk} given. docs.length-to_bytes sk.secret;
  }
