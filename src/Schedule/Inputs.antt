-- ===== src/Schedule/Inputs.antt =====
-- src/lib.rs: the strings that the key schedule of RFC 9180 §5.1 expands, and proofs on them.
use hpke_ng.Base.{
  ℕ, ◌<◌, [], ◌∷◌, ◌++◌, ◌≡◌, refl, sym, ap, ◌∙◌, append-nil, append_inj, lt→ltb, arith,
}
use hpke_ng.Bytes.{Bytes, literal, to_be_bytes}
use hpke_ng.Bytes.BigEndian.{length-to_be_bytes}
use hpke_ng.Kdf
use hpke_ng.Kdf.{Kdf, labeled_extract, labeled_expand, hpke_v1}
use hpke_ng.Aead.{Aead}
use hpke_ng.Kem.{CryptoRng, Kem}
use hpke_ng.Suite.{ciphersuite, length-ciphersuite, ciphersuite_inj}
use hpke_ng.Schedule.Rfc.{ks_context}

-- The three outputs of a key schedule, with their labels.
pub data Output : Type 0 where
  key_output nonce_output exporter_output : Output

unfoldable pub label : Output → Bytes
label key_output = literal "key"
label nonce_output = literal "base_nonce"
label exporter_output = literal "exp"

-- The string that `labeled_expand` has expanded.
unfoldable pub expand_input : ℕ → Bytes → Bytes → Bytes → Bytes
expand_input n suite_id label info = to_be_bytes 2 n ++ (hpke_v1 ++ (suite_id ++ (label ++ info)))

pub labeled_expand-input :
    (F : Kdf)
    → Kdf.IsLawful F
    → (prk suite_id label info : Bytes) (n : ℕ) → n < 65536
    → labeled_expand F prk suite_id label info n
      ≡ F.expand prk (expand_input n suite_id label info ∷ []) n
unfolding labeled_expand expand_input
labeled_expand-input F lawful prk suite_id label info n h = rw (lt→ltb _ _ h) (
    lawful.expand-flatten prk (to_be_bytes 2 n ∷ hpke_v1 ∷ suite_id ∷ label ∷ info ∷ []) n
    ∙ rw (append-nil info))

-- The labels differ in their first letters.
abbrev first : Bytes → ℕ
first [] = 0
first (b ∷ bs) = b

label_inj :
    (o o' : Output) (rest rest' : Bytes)
    → label o ++ rest ≡ label o' ++ rest'
    → (o ≡ o') × (rest ≡ rest')
unfolding label
label_inj key_output key_output rest rest' e = (refl, cc)
label_inj nonce_output nonce_output rest rest' e = (refl, cc)
label_inj exporter_output exporter_output rest rest' e = (refl, cc)
label_inj key_output nonce_output rest rest' e =
    let h : 107 ≡ 98 = ap first e in absurd (omega (arith, h))
label_inj key_output exporter_output rest rest' e =
    let h : 107 ≡ 101 = ap first e in absurd (omega (arith, h))
label_inj nonce_output key_output rest rest' e =
    let h : 98 ≡ 107 = ap first e in absurd (omega (arith, h))
label_inj nonce_output exporter_output rest rest' e =
    let h : 98 ≡ 101 = ap first e in absurd (omega (arith, h))
label_inj exporter_output key_output rest rest' e =
    let h : 101 ≡ 107 = ap first e in absurd (omega (arith, h))
label_inj exporter_output nonce_output rest rest' e =
    let h : 101 ≡ 98 = ap first e in absurd (omega (arith, h))

module _ {R : CryptoRng} (F : Kdf) (lawful : Kdf.IsLawful F) where
  ks_context_inj :
      (K K' : Kem R) (A A' : Aead) (mode mode' : ℕ) (psk_id psk_id' info info' : Bytes)
      → ks_context K F A mode psk_id info ≡ ks_context K' F A' mode' psk_id' info'
      → (mode ≡ mode')
        × (labeled_extract F [] (ciphersuite K F A) (literal "psk_id_hash") psk_id
            ≡ labeled_extract F [] (ciphersuite K' F A') (literal "psk_id_hash") psk_id')
        × (labeled_extract F [] (ciphersuite K F A) (literal "info_hash") info
            ≡ labeled_extract F [] (ciphersuite K' F A') (literal "info_hash") info')
  unfolding ks_context labeled_extract
  ks_context_inj K K' A A' mode mode' psk_id psk_id' info info' e =
      let hashes =
        append_inj _ _ _ _ (lawful.length-extract [] _ ∙ sym (lawful.length-extract [] _)) (cc) in
      (cc, hashes.0, hashes.1)

  -- A string that a schedule expands determines the output and what the context binds.
  pub expand_input_inj :
      (K K' : Kem R) (A A' : Aead) (o o' : Output) (n n' mode mode' : ℕ)
      (psk_id psk_id' info info' : Bytes)
      → (K.id < 65536) × (F.id < 65536) × (A.id < 65536)
      → (K'.id < 65536) × (F.id < 65536) × (A'.id < 65536)
      → expand_input n (ciphersuite K F A) (label o) (ks_context K F A mode psk_id info)
        ≡ expand_input n' (ciphersuite K' F A') (label o') (ks_context K' F A' mode' psk_id' info')
      → (o ≡ o')
        × (K.id ≡ K'.id)
        × (A.id ≡ A'.id)
        × (mode ≡ mode')
        × (labeled_extract F [] (ciphersuite K F A) (literal "psk_id_hash") psk_id
            ≡ labeled_extract F [] (ciphersuite K' F A') (literal "psk_id_hash") psk_id')
        × (labeled_extract F [] (ciphersuite K F A) (literal "info_hash") info
            ≡ labeled_extract F [] (ciphersuite K' F A') (literal "info_hash") info')
  unfolding expand_input
  expand_input_inj K K' A A' o o' n n' mode mode' psk_id psk_id' info info' h h' e =
      let version =
        append_inj (to_be_bytes 2 n) (to_be_bytes 2 n') _ _
          (length-to_be_bytes 2 n ∙ sym (length-to_be_bytes 2 n')) e in
      let suites = append_inj hpke_v1 hpke_v1 _ _ refl version.1 in
      let labels =
        append_inj (ciphersuite K F A) (ciphersuite K' F A') _ _
          (length-ciphersuite K F A ∙ sym (length-ciphersuite K' F A')) suites.1 in
      let contexts = label_inj o o' _ _ labels.1 in
      let ids = ciphersuite_inj K K' F F A A' h h' labels.0 in
      let parts = ks_context_inj K K' A A' mode mode' psk_id psk_id' info info' contexts.1 in
      (contexts.0, ids.0, ids.2, parts.0, parts.1, parts.2)
