-- ===== src/Kem/Dh/Stored.antt =====
-- src/kem/dh.rs: proofs on private keys that are serialized and read back.
use hpke_ng.Base.{
  ℕ, ◌<◌, ◌≡◌, ◌==◌, refl, sym, ap, subst, ◌∙◌, none, some, get_elem?, ==_iff, bit_and, bit_or,
  length, arith,
}
use hpke_ng.Bytes.{Bytes, IsBytes, modify}
use hpke_ng.Bytes.Slices.{copy_array_ok, length-modify, modify_fixed}
use hpke_ng.Bytes.Modify.{
  all_below_lem, get_elem?-IsBytes, get_elem?-modify, get_elem?-modify_other,
}
use hpke_ng.Error.{ok, ok_inj}
use hpke_ng.Kdf.Hkdf.{HkdfCrate}
use hpke_ng.Kem
use hpke_ng.Kem.{CryptoRng, RngDocs}
use hpke_ng.Kem.Dh
use hpke_ng.Kem.Dh.{
  DiffieHellman, IsLawful, DhPublicKey, DhPrivateKey, generate, from_pair, from_sk, sk_from_bytes,
  dh_kem, dh_auth_kem,
}
use hpke_ng.Kem.Dh.Correct.{Paired, decap-Encapped, auth_decap-Encapped, encap_with-Encapped}
use hpke_ng.Kem.Dh.X25519
use hpke_ng.Kem.Dh.X25519.{DalekCrate, DalekDocs, x25519}
use hpke_ng.Kem.Dh.X25519.Canonical.{clamp-IsClamped, clamp_fixed}
use hpke_ng.Kem.Dh.X448
use hpke_ng.Kem.Dh.X448.{Ed448Crate, x448}
use hpke_ng.Kem.Dh.Nist
use hpke_ng.Kem.Dh.Nist.{CurveCrate, CurveDocs, Curve, nist_curve}

module _ {R : CryptoRng} (D : DiffieHellman R) (lawful : IsLawful D) (stores : Dh.Stores D) where
  -- The loaded key has its public key recomputed.
  from_sk-Paired :
      (rng : R.State)
      → Paired D lawful (from_sk D (D.generate rng).0.0) (record { key = (D.generate rng).0.1 })
  unfolding from_sk
  from_sk-Paired rng = record {
    public = lawful.generate_pair rng;
    cached = ap D.pk_to_bytes (lawful.generate_pair rng);
  }

  loaded_pair :
      (rng rng' : R.State) {sk : DhPrivateKey D} {pk : DhPublicKey D}
      → generate D rng ≡ (ok (sk, pk), rng')
      → (loaded : DhPrivateKey D) × (sk_from_bytes D (D.sk_to_bytes sk.sk) ≡ ok loaded)
        × Paired D lawful loaded pk
  unfolding generate sk_from_bytes from_pair
  loaded_pair rng rng' {sk} {pk} h =
      let pair = ok_inj (λ i. (h i).0) in
      let same : from_pair D (D.generate rng).0.0 (D.generate rng).0.1 ≡ sk = λ i. (pair i).0 in
      let loaded = from_sk D (D.generate rng).0.0 in
      (
        loaded,
        rw (← same, stores.read_back rng),
        subst (λ (k : DhPublicKey D). Paired D lawful loaded k) (λ i. (pair i).1)
            (from_sk-Paired rng),
      )

  pub dh_kem-Stores : Kem.Stores (dh_kem D)
  dh_kem-Stores = record {
    read_back = λ rng rng' {sk} {pk} h.
        let (loaded, read, paired) = loaded_pair rng rng' h in
        (
          loaded,
          read,
          λ rng_e rng_e' ss enc e.
              decap-Encapped D lawful loaded paired
                (encap_with-Encapped D lawful rng_e rng_e' pk none e),
        );
  }

  pub dh_auth_kem-AuthStores : Kem.AuthStores (dh_auth_kem D)
  dh_auth_kem-AuthStores = record {
    stores = dh_kem-Stores;
    auth_read_back = λ rng rng' rng_s rng_s' {pk_r = pk_r} h h_s.
        let (loaded_r, read_r, paired_r) = loaded_pair rng rng' h in
        let (loaded_s, read_s, paired_s) = loaded_pair rng_s rng_s' h_s in
        (
          loaded_r,
          loaded_s,
          read_r,
          read_s,
          λ rng_e rng_e' ss enc e.
              auth_decap-Encapped D lawful loaded_r loaded_s paired_r paired_s
                (encap_with-Encapped D lawful rng_e rng_e' pk_r (some loaded_s) e),
        );
  }

-- The masks of X448, applied twice.
and_fc_twice : (x : ℕ) → x < 256 → bit_and (bit_and x 0xfc) 0xfc ≡ bit_and x 0xfc
and_fc_twice x h =
    let t = all_below_lem 256 (λ x. bit_and (bit_and x 0xfc) 0xfc == bit_and x 0xfc) refl x h in
    ground arith

or_80_twice : (x : ℕ) → x < 256 → bit_or (bit_or x 0x80) 0x80 ≡ bit_or x 0x80
or_80_twice x h =
    let t = all_below_lem 256 (λ x. bit_or (bit_or x 0x80) 0x80 == bit_or x 0x80) refl x h in
    ground arith

x448_clamp_twice :
    (bytes : Bytes) → IsBytes bytes → X448.clamp (X448.clamp bytes) ≡ X448.clamp bytes
unfolding X448.clamp
x448_clamp_twice bytes bound =
    let low : Bytes = modify 0 (λ b. bit_and b 0xfc) bytes in
    let high : Bytes = modify 55 (λ b. bit_or b 0x80) low in
    let first =
      modify_fixed 0 (λ b. bit_and b 0xfc) high
        λ v e.
          let (b, there, is) =
            get_elem?-modify 0 (λ b. bit_and b 0xfc) bytes v
              (sym (get_elem?-modify_other 55 0 _ low (λ h. absurd (omega (arith, h)))) ∙ e) in
          subst (λ z. bit_and z 0xfc ≡ z) is
            (and_fc_twice b (get_elem?-IsBytes bytes 0 b bound there)) in
    let last =
      modify_fixed 55 (λ b. bit_or b 0x80) high
        λ v e.
          let (b, there, is) = get_elem?-modify 55 (λ b. bit_or b 0x80) low v e in
          let here : get_elem? bytes 55 ≡ some b =
            sym (get_elem?-modify_other 0 55 _ bytes (λ h. absurd (omega (arith, h)))) ∙ there in
          subst (λ z. bit_or z 0x80 ≡ z) is
            (or_80_twice b (get_elem?-IsBytes bytes 55 b bound here)) in
    rw (first, last)

module _ (R : CryptoRng) (docs : RngDocs R) (h : HkdfCrate) where
  pub x25519-Stores : (d : DalekCrate) → DalekDocs d → Dh.Stores (x25519 d R h)
  unfolding X25519.generate X25519.key_pair X25519.sk_to_bytes X25519.sk_from_bytes
  x25519-Stores d dalek = record {
    read_back = λ rng.
        let bytes = (R.fill_bytes 32 rng).0 in
        let clamped =
          clamp-IsClamped bytes (docs.length-fill_bytes 32 rng) (docs.fill_bytes-IsBytes 32 rng) in
        rw (
          dalek.to_bytes-secret_from (X25519.clamp bytes) clamped.size,
          (==_iff _ _).1 clamped.size,
          copy_array_ok 32 (X25519.clamp bytes) clamped.size,
          clamp_fixed (X25519.clamp bytes) clamped,
        );
  }

  pub x448-Stores : (e : Ed448Crate) → Dh.Stores (x448 e R h)
  unfolding X448.generate X448.key_pair X448.sk_from_bytes X448.clamp
  x448-Stores e = record {
    read_back = λ rng.
        let bytes = (R.fill_bytes 56 rng).0 in
        let size : length (X448.clamp bytes) ≡ 56 =
          length-modify 55 _ (modify 0 (λ b. bit_and b 0xfc) bytes)
          ∙ length-modify 0 _ bytes
          ∙ docs.length-fill_bytes 56 rng in
        rw (
          (==_iff _ _).1 size,
          copy_array_ok 56 (X448.clamp bytes) size,
          x448_clamp_twice bytes (docs.fill_bytes-IsBytes 56 rng),
        );
  }

module _ {R : CryptoRng} (p : Curve) (c : CurveCrate R) (docs : CurveDocs p c) where
  pub nist_curve-Stores : Dh.Stores (nist_curve p c)
  unfolding Nist.generate Nist.sk_from_bytes
  nist_curve-Stores = record {
    read_back = λ rng.
        let sk = (c.generate_from_rng rng).0 in
        rw ((==_iff _ _).1 (docs.length-to_bytes sk), docs.from_slice-to_bytes sk);
  }
