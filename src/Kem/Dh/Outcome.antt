-- ===== src/Kem/Dh/Outcome.antt =====
-- src/kem/dh.rs: proofs on the outcomes of the calls of `DhKem`.
use hpke_ng.Base.{
  ◌*◌, ◌≤◌, ◌≡◌, ◌∙◌, ◌⊎◌, inl, inr, List, [], ◌∷◌, none, length, le→leb, flatten, arith,
}
use hpke_ng.Bytes.{Bytes, literal}
use hpke_ng.Error.{HpkeError, ok, err, Returns-cases}
use hpke_ng.Kdf
use hpke_ng.Kdf.{labeled_extract, labeled_extract_pieces, labeled_expand_pieces}
use hpke_ng.Kdf.Labeled.{
  labeled_extract_pieces_lem, labeled_expand_pieces_lem, labeled_expand-outcome,
}
use hpke_ng.Kem.{CryptoRng}
use hpke_ng.Kem.Dh
use hpke_ng.Kem.Dh.{
  DiffieHellman, DhPublicKey, DhPrivateKey, DhEncappedKey, DhSharedSecret, extract_and_expand,
  extract_and_expand_pieces, suite_id, encap_secret, encap_with, decap, auth_decap, derive_key_pair,
  pk_from_bytes, sk_from_bytes, enc_from_bytes, generate, zeroize, dh_auth_kem,
}

module _ {R : CryptoRng} (D : DiffieHellman R) (kdf : Kdf.IsLawful D.kdf)
    (bound : D.shared_secret_len ≤ 255 * D.kdf.hash_len) where
  -- The expansion gives a secret of the group's length.
  expand_total :
      (salt suite ikm_label ikm : Bytes) (kem_context : List Bytes)
      → length kem_context ≤ 12
      → (ss : Bytes) × (labeled_expand_pieces D.kdf
            (labeled_extract D.kdf salt suite ikm_label ikm)
            suite
            (literal "shared_secret")
            kem_context
            D.shared_secret_len
          ≡ ok ss)
        × (length ss ≡ D.shared_secret_len)
  unfolding labeled_extract
  expand_total salt suite ikm_label ikm kem_context few =
      let prk = labeled_extract D.kdf salt suite ikm_label ikm in
      let (ss, given, size) =
        (labeled_expand-outcome D.kdf kdf prk suite (literal "shared_secret") (flatten kem_context)
            D.shared_secret_len).1
          bound (omega (arith, kdf.length-extract salt _)) in
      (
        ss,
        labeled_expand_pieces_lem D.kdf kdf prk suite (literal "shared_secret") kem_context
              D.shared_secret_len
            ∙ rw (le→leb _ _ few) given,
        size,
      )

  pub extract_and_expand_total :
      (dh : Bytes) (kem_context : List Bytes)
      → length kem_context ≤ 12
      → (ss : Bytes) × (extract_and_expand D dh kem_context ≡ ok ss)
        × (length ss ≡ D.shared_secret_len)
  unfolding extract_and_expand
  extract_and_expand_total dh kem_context few =
      expand_total [] (suite_id D) (literal "eae_prk") dh kem_context few

  pub extract_and_expand_pieces_total :
      (dh_pieces kem_context : List Bytes)
      → length dh_pieces ≤ 5
      → length kem_context ≤ 12
      → (ss : Bytes) × (extract_and_expand_pieces D dh_pieces kem_context ≡ ok ss)
        × (length ss ≡ D.shared_secret_len)
  unfolding extract_and_expand_pieces
  extract_and_expand_pieces_total dh_pieces kem_context few few' =
      let (ss, given, size) =
        expand_total [] (suite_id D) (literal "eae_prk") (flatten dh_pieces) kem_context few' in
      (
        ss,
        rw (
          labeled_extract_pieces_lem D.kdf kdf [] (suite_id D) (literal "eae_prk") dh_pieces,
          le→leb _ _ few,
          given,
        ),
        size,
      )

  module _ (free : Dh.IsPanicFree D) where
    -- Over a group that does not panic, with a lawful KDF and a shared secret of at most 255
    -- blocks of the hash: `decap` gives the group's error on the encapsulated key, else its error
    -- on the Diffie-Hellman call, else a shared secret of the group's length.
    pub decap-outcome :
        (enc : DhEncappedKey) (sk_r : DhPrivateKey D)
        → ((e : HpkeError) × (D.pk_from_bytes enc.bytes ≡ err e) × (decap D enc sk_r ≡ err e))
          ⊎ ((pk_e : D.PublicKey) × (e : HpkeError) × (D.pk_from_bytes enc.bytes ≡ ok pk_e)
              × (D.dh sk_r.sk pk_e ≡ err e)
              × (decap D enc sk_r ≡ err e))
          ⊎ ((pk_e : D.PublicKey) × (dh : Bytes) × (ss : DhSharedSecret) × (D.pk_from_bytes
                  enc.bytes
                ≡ ok pk_e)
              × (D.dh sk_r.sk pk_e ≡ ok dh)
              × (decap D enc sk_r ≡ ok ss)
              × (length ss.bytes ≡ D.shared_secret_len))
    unfolding decap
    decap-outcome enc sk_r =
        elim (Returns-cases (D.pk_from_bytes enc.bytes) (free.pk_from_bytes enc.bytes)) [
          | inr (e, refused) ↦ inl (e, refused, rw refused)
          | inl (pk_e, read) ↦ elim (Returns-cases (D.dh sk_r.sk pk_e) (free.dh sk_r.sk pk_e)) [
            | inr (e, failed) ↦ inr (inl (pk_e, e, read, failed, rw (read, failed)))
            | inl (dh, agreed) ↦
                let (ss, given, size) =
                  extract_and_expand_total dh (enc.bytes ∷ sk_r.pk_bytes ∷ []) (omega arith) in
                inr (
                  inr
                    (pk_e, dh, record { bytes = ss }, read, agreed, rw (read, agreed, given), size))
          ]
        ]

    -- Over a group that does not panic, with a lawful KDF and a shared secret of at most 255
    -- blocks of the hash: `auth_decap` gives the group's error on the encapsulated key, else its
    -- error on one of the two Diffie-Hellman calls, else a shared secret of the group's length.
    pub auth_decap-outcome :
        (enc : DhEncappedKey) (sk_r : DhPrivateKey D) (pk_s : DhPublicKey D)
        → ((e : HpkeError) × (D.pk_from_bytes enc.bytes ≡ err e)
            × (auth_decap D enc sk_r pk_s ≡ err e))
          ⊎ ((pk_e : D.PublicKey) × (e : HpkeError) × (D.pk_from_bytes enc.bytes ≡ ok pk_e)
              × ((D.dh sk_r.sk pk_e ≡ err e) ⊎ (D.dh sk_r.sk pk_s.key ≡ err e))
              × (auth_decap D enc sk_r pk_s ≡ err e))
          ⊎ ((pk_e : D.PublicKey) × (dh1 : Bytes) × (dh2 : Bytes) × (ss : DhSharedSecret)
              × (D.pk_from_bytes enc.bytes ≡ ok pk_e)
              × (D.dh sk_r.sk pk_e ≡ ok dh1)
              × (D.dh sk_r.sk pk_s.key ≡ ok dh2)
              × (auth_decap D enc sk_r pk_s ≡ ok ss)
              × (length ss.bytes ≡ D.shared_secret_len))
    unfolding auth_decap
    auth_decap-outcome enc sk_r pk_s =
        elim (Returns-cases (D.pk_from_bytes enc.bytes) (free.pk_from_bytes enc.bytes)) [
          | inr (e, refused) ↦ inl (e, refused, rw refused)
          | inl (pk_e, read) ↦ elim (Returns-cases (D.dh sk_r.sk pk_e) (free.dh sk_r.sk pk_e)) [
            | inr (e, failed) ↦ inr (inl (pk_e, e, read, inl failed, rw (read, failed)))
            | inl (dh1, agreed) ↦
                elim (Returns-cases (D.dh sk_r.sk pk_s.key) (free.dh sk_r.sk pk_s.key)) [
                  | inr (e, failed) ↦
                      inr (inl (pk_e, e, read, inr failed, rw (read, agreed, failed)))
                  | inl (dh2, agreed') ↦
                      let (ss, given, size) =
                        extract_and_expand_pieces_total (dh1 ∷ dh2 ∷ [])
                          (enc.bytes ∷ sk_r.pk_bytes ∷ D.pk_as_ref pk_s.key ∷ []) (omega arith)
                          (omega arith) in
                      inr (
                        inr (
                          pk_e,
                          dh1,
                          dh2,
                          record { bytes = ss },
                          read,
                          agreed,
                          agreed',
                          rw (read, agreed, agreed', given),
                          size,
                        ))
                ]
          ]
        ]

    -- The encapsulated key of a success is that of the ephemeral pair.
    pub encap-outcome :
        (rng : R.State) (pk_r : DhPublicKey D)
        → let made = D.generate rng in
          ((e : HpkeError) × (D.dh made.0.0 pk_r.key ≡ err e)
            × (encap_with D rng pk_r none ≡ (err e, made.1)))
          ⊎ ((dh : Bytes) × (ss : DhSharedSecret) × (D.dh made.0.0 pk_r.key ≡ ok dh)
              × (encap_with D rng pk_r none
                  ≡ (ok (ss, record { bytes = D.pk_to_bytes made.0.1 }), made.1))
              × (length ss.bytes ≡ D.shared_secret_len))
    unfolding encap_with encap_secret
    encap-outcome rng pk_r =
        let made = D.generate rng in
        elim (Returns-cases (D.dh made.0.0 pk_r.key) (free.dh made.0.0 pk_r.key)) [
          | inr (e, failed) ↦ inl (e, failed, rw failed)
          | inl (dh, agreed) ↦
              let (ss, given, size) =
                extract_and_expand_total dh (D.pk_to_bytes made.0.1 ∷ D.pk_as_ref pk_r.key ∷ [])
                  (omega arith) in
              inr (dh, record { bytes = ss }, agreed, rw (agreed, given), size)
        ]
