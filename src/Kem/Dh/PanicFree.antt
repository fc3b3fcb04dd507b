-- ===== src/Kem/Dh/PanicFree.antt =====
-- src/kem/dh.rs: proofs on the returns of the calls of `DhKem`.
use hpke_ng.Base.{◌*◌, ◌≤◌, inl, inr, [], ◌∷◌, Option, none, some, ◌==◌, length, Bool-cases, arith}
use hpke_ng.Bytes.{Bytes}
use hpke_ng.Error.{Returns, >>=-Returns, ok-Returns, err-Returns}
use hpke_ng.Kdf
use hpke_ng.Kdf.{labeled_extract, labeled_extract_pieces, labeled_expand_pieces}
use hpke_ng.Kem.{CryptoRng, AuthIsPanicFree}
use hpke_ng.Kem.Dh
use hpke_ng.Kem.Dh.Outcome.{
  extract_and_expand_total, extract_and_expand_pieces_total, decap-outcome, auth_decap-outcome,
}
use hpke_ng.Kem.Dh.{
  DiffieHellman, DhPublicKey, DhPrivateKey, DhEncappedKey, DhSharedSecret, extract_and_expand,
  extract_and_expand_pieces, suite_id, encap_secret, encap_with, decap, auth_decap, derive_key_pair,
  pk_from_bytes, sk_from_bytes, enc_from_bytes, generate, zeroize, dh_auth_kem,
}

module _ {R : CryptoRng} (D : DiffieHellman R) (kdf : Kdf.IsLawful D.kdf)
    (bound : D.shared_secret_len ≤ 255 * D.kdf.hash_len) (free : Dh.IsPanicFree D) where
  encap_secret-Returns :
      (sender : Option (DhPrivateKey D)) (pk_r : D.PublicKey) (dh1 enc : Bytes)
      → Returns (encap_secret D sender pk_r dh1 enc)
  unfolding encap_secret
  encap_secret-Returns none pk_r dh1 enc =
      let (ss, given, size) =
        extract_and_expand_total D kdf bound dh1 (enc ∷ D.pk_as_ref pk_r ∷ []) (omega arith) in
      ok-Returns given
  encap_secret-Returns (some sk_s) pk_r dh1 enc =
      >>=-Returns (D.dh sk_s.sk pk_r) _ (free.dh sk_s.sk pk_r) λ dh2 agreed.
        let (ss, given, size) =
          extract_and_expand_pieces_total D kdf bound (dh1 ∷ dh2 ∷ [])
            (enc ∷ D.pk_as_ref pk_r ∷ sk_s.pk_bytes ∷ []) (omega arith) (omega arith) in
        ok-Returns given

  encap_with-Returns :
      (rng : R.State) (pk_r : DhPublicKey D) (sender : Option (DhPrivateKey D))
      → Returns (encap_with D rng pk_r sender).0
  unfolding encap_with
  encap_with-Returns rng pk_r sender =
      let made = D.generate rng in
      >>=-Returns (D.dh made.0.0 pk_r.key) _ (free.dh made.0.0 pk_r.key) λ dh1 agreed.
        >>=-Returns (encap_secret D sender pk_r.key dh1 (D.pk_to_bytes made.0.1)) _
          (encap_secret-Returns sender pk_r.key dh1 (D.pk_to_bytes made.0.1)) λ ss given. tt

  decap-Returns : (enc : DhEncappedKey) (sk_r : DhPrivateKey D) → Returns (decap D enc sk_r)
  decap-Returns enc sk_r = elim (decap-outcome D kdf bound free enc sk_r) [
    | inl (e, refused, result) ↦ err-Returns result
    | inr (inl (pk_e, e, read, failed, result)) ↦ err-Returns result
    | inr (inr (pk_e, dh, ss, read, agreed, result, size)) ↦ ok-Returns result
  ]

  auth_decap-Returns :
      (enc : DhEncappedKey) (sk_r : DhPrivateKey D) (pk_s : DhPublicKey D)
      → Returns (auth_decap D enc sk_r pk_s)
  auth_decap-Returns enc sk_r pk_s = elim (auth_decap-outcome D kdf bound free enc sk_r pk_s) [
    | inl (e, refused, result) ↦ err-Returns result
    | inr (inl (pk_e, e, read, failed, result)) ↦ err-Returns result
    | inr (inr (pk_e, dh1, dh2, ss, read, agreed, agreed', result, size)) ↦ ok-Returns result
  ]

  enc_from_bytes-Returns : (b : Bytes) → Returns (enc_from_bytes D b)
  unfolding enc_from_bytes
  enc_from_bytes-Returns b = elim (Bool-cases (length b == D.public_key_len)) [
    | inl right ↦ rw right tt
    | inr wrong ↦ rw wrong tt
  ]

  pub dh_auth_kem-AuthIsPanicFree : AuthIsPanicFree (dh_auth_kem D)
  unfolding generate derive_key_pair pk_from_bytes sk_from_bytes zeroize
  dh_auth_kem-AuthIsPanicFree = record {
    is_panic_free = record {
      generate = λ rng. tt;
      derive_key_pair = λ ikm. >>=-Returns (D.derive ikm) _ (free.derive ikm) λ made e. tt;
      encap = λ rng pk. encap_with-Returns rng pk none;
      decap = decap-Returns;
      pk_from_bytes = λ b. >>=-Returns (D.pk_from_bytes b) _ (free.pk_from_bytes b) λ pk e. tt;
      sk_from_bytes = λ b. >>=-Returns (D.sk_from_bytes b) _ (free.sk_from_bytes b) λ sk e. tt;
      enc_from_bytes = enc_from_bytes-Returns;
      sk_zeroize = λ sk. >>=-Returns (D.sk_zeroize sk.sk) _ (free.sk_zeroize sk.sk) λ s e. tt;
    };
    auth_encap = λ rng pk_r sk_s. encap_with-Returns rng pk_r (some sk_s);
    auth_decap = auth_decap-Returns;
  }
