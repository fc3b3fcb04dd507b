-- ===== src/Kem/Dh/Correct.antt =====
-- src/kem/dh.rs: proofs on `DhKem` over a group.
use hpke_ng.Base.{◌≡◌, Option, none, some, sym, ap, subst, ◌∙◌, refl}
use hpke_ng.Bytes.{Bytes}
use hpke_ng.Error.{ok, >>=-eq-ok, ok_inj}
use hpke_ng.Kem.{CryptoRng, AuthIsCorrect}
use hpke_ng.Kem.Dh.{
  DiffieHellman, IsLawful, DhPublicKey, DhPrivateKey, DhEncappedKey, DhSharedSecret, encap_with,
  encap_secret, generate, derive_key_pair, from_pair, decap, auth_decap, dh_auth_kem,
}

module _ {R : CryptoRng} (D : DiffieHellman R) (lawful : IsLawful D) where
  -- The two halves of a key pair, the first with the other's bytes cached.
  pub record Paired (sk : DhPrivateKey D) (pk : DhPublicKey D) : Type 0 where
    pub public : D.sk_to_pk sk.sk ≡ pk.key
    pub cached : sk.pk_bytes ≡ D.pk_to_bytes pk.key

  from_pair-Paired :
      (sk : D.PrivateKey) (pk : D.PublicKey)
      → D.sk_to_pk sk ≡ pk
      → Paired (from_pair D sk pk) (record { key = pk })
  unfolding from_pair
  from_pair-Paired sk pk e = record { public = e; cached = refl }

  -- What an encapsulation that succeeds has done.
  pub record Encapped (pk_r : DhPublicKey D) (sender : Option (DhPrivateKey D))
      (ss : DhSharedSecret) (enc : DhEncappedKey) : Type 0 where
    pub sk_e : D.PrivateKey
    pub enc_is : enc.bytes ≡ D.pk_to_bytes (D.sk_to_pk sk_e)
    pub dh1 : Bytes
    pub agreed : D.dh sk_e pk_r.key ≡ ok dh1
    pub derived : encap_secret D sender pk_r.key dh1 enc.bytes ≡ ok ss.bytes

  pub encap_with-Encapped :
      (rng rng' : R.State) (pk_r : DhPublicKey D) (sender : Option (DhPrivateKey D))
      {ss : DhSharedSecret} {enc : DhEncappedKey}
      → encap_with D rng pk_r sender ≡ (ok (ss, enc), rng')
      → Encapped pk_r sender ss enc
  unfolding encap_with
  encap_with-Encapped rng rng' pk_r sender {ss} {enc} h =
      let made = D.generate rng in
      let bytes = D.pk_to_bytes made.0.1 in
      let (dh1, agreed, rest) = >>=-eq-ok (D.dh made.0.0 pk_r.key) _ (λ i. (h i).0) in
      let (secret, derived, last) = >>=-eq-ok (encap_secret D sender pk_r.key dh1 bytes) _ rest in
      let result = ok_inj last in
      let enc_eq : bytes ≡ enc.bytes = λ i. (result i).1.bytes in
      let ss_eq : secret ≡ ss.bytes = λ i. (result i).0.bytes in
      record {
        sk_e = made.0.0;
        enc_is = sym enc_eq ∙ ap D.pk_to_bytes (sym (lawful.generate_pair rng));
        dh1 = dh1;
        agreed = agreed;
        derived =
            subst (λ e. encap_secret D sender pk_r.key dh1 e ≡ ok ss.bytes) enc_eq
              (derived ∙ ap ok ss_eq);
      }

  -- The receiver reads the ephemeral key back and computes the sender's Diffie-Hellman value.
  pub received_key :
      {pk_r : DhPublicKey D} {sender : Option (DhPrivateKey D)} {ss : DhSharedSecret}
      {enc : DhEncappedKey} (e : Encapped pk_r sender ss enc)
      → D.pk_from_bytes enc.bytes ≡ ok (D.sk_to_pk e.sk_e)
  received_key e = ap D.pk_from_bytes e.enc_is ∙ lawful.pk_from_bytes-pk_to_bytes e.sk_e

  received_dh :
      (sk_r : DhPrivateKey D) {pk_r : DhPublicKey D} {sender : Option (DhPrivateKey D)}
      {ss : DhSharedSecret} {enc : DhEncappedKey} (e : Encapped pk_r sender ss enc)
      → Paired sk_r pk_r
      → D.dh sk_r.sk (D.sk_to_pk e.sk_e) ≡ ok e.dh1
  received_dh sk_r e paired =
      lawful.dh_comm sk_r.sk e.sk_e ∙ ap (D.dh e.sk_e) paired.public ∙ e.agreed

  pub decap-Encapped :
      (sk : DhPrivateKey D) {pk : DhPublicKey D} {ss : DhSharedSecret} {enc : DhEncappedKey}
      → Paired sk pk
      → Encapped pk none ss enc
      → decap D enc sk ≡ ok ss
  unfolding decap encap_secret
  decap-Encapped sk {pk} paired e = rw (
    received_key e,
    received_dh sk e paired,
    paired.cached,
    lawful.pk_to_bytes-as_ref pk.key,
    e.derived,
  )

  pub auth_decap-Encapped :
      (sk_r sk_s : DhPrivateKey D) {pk_r pk_s : DhPublicKey D} {ss : DhSharedSecret}
      {enc : DhEncappedKey}
      → Paired sk_r pk_r
      → Paired sk_s pk_s
      → Encapped pk_r (some sk_s) ss enc
      → auth_decap D enc sk_r pk_s ≡ ok ss
  unfolding auth_decap encap_secret
  auth_decap-Encapped sk_r sk_s {pk_r} {pk_s} paired paired_s e =
      let (dh2, agreed, derived) = >>=-eq-ok (D.dh sk_s.sk pk_r.key) _ e.derived in
      let received_dh2 : D.dh sk_r.sk pk_s.key ≡ ok dh2 =
        ap (D.dh sk_r.sk) (sym paired_s.public)
        ∙ lawful.dh_comm sk_r.sk sk_s.sk
        ∙ ap (D.dh sk_s.sk) paired.public
        ∙ agreed in
      rw (
        received_key e,
        received_dh sk_r e paired,
        received_dh2,
        paired.cached,
        lawful.pk_to_bytes-as_ref pk_r.key,
        ← lawful.pk_to_bytes-as_ref pk_s.key,
        ← paired_s.cached,
        derived,
      )

  generate-Paired :
      (rng rng' : R.State) {sk : DhPrivateKey D} {pk : DhPublicKey D}
      → generate D rng ≡ (ok (sk, pk), rng')
      → Paired sk pk
  unfolding generate
  generate-Paired rng rng' h =
      subst (λ p. Paired p.0 p.1) (ok_inj (λ i. (h i).0))
        (from_pair-Paired (D.generate rng).0.0 (D.generate rng).0.1 (lawful.generate_pair rng))

  pub derive_key_pair-Paired :
      (ikm : Bytes) {sk : DhPrivateKey D} {pk : DhPublicKey D}
      → derive_key_pair D ikm ≡ ok (sk, pk)
      → Paired sk pk
  unfolding derive_key_pair
  derive_key_pair-Paired ikm h =
      let (made, derived, result) = >>=-eq-ok (D.derive ikm) _ h in
      subst (λ p. Paired p.0 p.1) (ok_inj result)
        (from_pair-Paired made.0 made.1 (lawful.derive_pair ikm derived))

  -- Over a lawful group, `DhKem` is a correct KEM in the plain and in the authenticated mode: for
  -- some relation of pairs that holds of the keys it generates or derives, decapsulation with the
  -- private half undoes encapsulation to the public half, and so it does with both ends' pairs
  -- where the sender authenticates itself.
  pub dh_auth_kem-IsCorrect : AuthIsCorrect (dh_auth_kem D)
  dh_auth_kem-IsCorrect = record {
    is_correct = record {
      Paired = Paired;
      generate-Paired = generate-Paired;
      derive_key_pair-Paired = derive_key_pair-Paired;
      decap-encap = λ rng rng' sk pk paired h.
          decap-Encapped sk paired (encap_with-Encapped rng rng' pk none h);
    };
    auth_decap-auth_encap = λ rng rng' sk_r sk_s pk_r pk_s paired paired_s h.
        auth_decap-Encapped sk_r sk_s paired paired_s
          (encap_with-Encapped rng rng' pk_r (some sk_s) h);
  }
