-- ===== src/Kem/Dh/Deterministic.antt =====
-- src/kem/dh.rs: proofs on the deterministic calls of the test builds.
use hpke_ng.Base.{◌≡◌, ◌∙◌, sym, ap, subst, none, some, [], ◌∷◌}
use hpke_ng.Bytes.{Bytes}
use hpke_ng.Error.{ok, ok_inj, >>=-eq-ok}
use hpke_ng.Kem.{CryptoRng}
use hpke_ng.Kem.Dh.{
  DiffieHellman, IsLawful, DhPublicKey, DhPrivateKey, DhEncappedKey, DhSharedSecret, encap_secret,
  extract_and_expand, extract_and_expand_pieces, encap_with_ikm, auth_encap_with_ikm, decap,
  auth_decap,
}
use hpke_ng.Kem.Dh.Correct.{Paired, Encapped, decap-Encapped, auth_decap-Encapped}

module _ {R : CryptoRng} (D : DiffieHellman R) (lawful : IsLawful D) where
  encap_with_ikm-Encapped :
      (pk_r : DhPublicKey D) (ikm : Bytes) {ss : DhSharedSecret} {enc : DhEncappedKey}
      → encap_with_ikm D pk_r ikm ≡ ok (ss, enc)
      → Encapped D lawful pk_r none ss enc
  unfolding encap_with_ikm encap_secret
  encap_with_ikm-Encapped pk_r ikm {ss} {enc} h =
      let (made, derived_pair, rest) = >>=-eq-ok (D.derive ikm) _ h in
      let bytes = D.pk_to_bytes made.1 in
      let (dh, agreed, rest') = >>=-eq-ok (D.dh made.0 pk_r.key) _ rest in
      let (secret, derived, last) =
        >>=-eq-ok (extract_and_expand D dh (bytes ∷ D.pk_as_ref pk_r.key ∷ [])) _ rest' in
      let result = ok_inj last in
      let enc_eq : bytes ≡ enc.bytes = λ i. (result i).1.bytes in
      let ss_eq : secret ≡ ss.bytes = λ i. (result i).0.bytes in
      record {
        sk_e = made.0;
        enc_is = sym enc_eq ∙ ap D.pk_to_bytes (sym (lawful.derive_pair ikm derived_pair));
        dh1 = dh;
        agreed = agreed;
        derived =
            subst (λ e. encap_secret D none pk_r.key dh e ≡ ok ss.bytes) enc_eq
              (derived ∙ ap ok ss_eq);
      }

  auth_encap_with_ikm-Encapped :
      (pk_r : DhPublicKey D) (sk_s : DhPrivateKey D) (ikm : Bytes) {ss : DhSharedSecret}
      {enc : DhEncappedKey}
      → auth_encap_with_ikm D pk_r sk_s ikm ≡ ok (ss, enc)
      → Encapped D lawful pk_r (some sk_s) ss enc
  unfolding auth_encap_with_ikm encap_secret
  auth_encap_with_ikm-Encapped pk_r sk_s ikm {ss} {enc} h =
      let (made, derived_pair, rest) = >>=-eq-ok (D.derive ikm) _ h in
      let bytes = D.pk_to_bytes made.1 in
      let (dh1, agreed, rest') = >>=-eq-ok (D.dh made.0 pk_r.key) _ rest in
      let (dh2, agreed', rest'') = >>=-eq-ok (D.dh sk_s.sk pk_r.key) _ rest' in
      let (secret, derived, last) =
        >>=-eq-ok
          (extract_and_expand_pieces D (dh1 ∷ dh2 ∷ [])
            (bytes ∷ D.pk_as_ref pk_r.key ∷ sk_s.pk_bytes ∷ []))
          _ rest'' in
      let result = ok_inj last in
      let enc_eq : bytes ≡ enc.bytes = λ i. (result i).1.bytes in
      let ss_eq : secret ≡ ss.bytes = λ i. (result i).0.bytes in
      record {
        sk_e = made.0;
        enc_is = sym enc_eq ∙ ap D.pk_to_bytes (sym (lawful.derive_pair ikm derived_pair));
        dh1 = dh1;
        agreed = agreed;
        derived =
            subst (λ e. encap_secret D (some sk_s) pk_r.key dh1 e ≡ ok ss.bytes) enc_eq
              (rw agreed' (derived ∙ ap ok ss_eq));
      }

  pub decap-encap_with_ikm :
      (sk_r : DhPrivateKey D) (pk_r : DhPublicKey D) (ikm : Bytes) {ss : DhSharedSecret}
      {enc : DhEncappedKey}
      → Paired D lawful sk_r pk_r
      → encap_with_ikm D pk_r ikm ≡ ok (ss, enc)
      → decap D enc sk_r ≡ ok ss
  decap-encap_with_ikm sk_r pk_r ikm paired h =
      decap-Encapped D lawful sk_r paired (encap_with_ikm-Encapped pk_r ikm h)

  -- Over a lawful group, if the keys of both ends are pairs and the deterministic encapsulation of
  -- the test builds succeeds on some keying material, `auth_decap` gives its shared secret.
  pub auth_decap-auth_encap_with_ikm :
      (sk_r sk_s : DhPrivateKey D) (pk_r pk_s : DhPublicKey D) (ikm : Bytes) {ss : DhSharedSecret}
      {enc : DhEncappedKey}
      → Paired D lawful sk_r pk_r
      → Paired D lawful sk_s pk_s
      → auth_encap_with_ikm D pk_r sk_s ikm ≡ ok (ss, enc)
      → auth_decap D enc sk_r pk_s ≡ ok ss
  auth_decap-auth_encap_with_ikm sk_r sk_s pk_r pk_s ikm paired paired_s h =
      auth_decap-Encapped D lawful sk_r sk_s paired paired_s
        (auth_encap_with_ikm-Encapped pk_r sk_s ikm h)
