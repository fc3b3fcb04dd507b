-- ===== src/Schedule/Outputs.antt =====
-- src/lib.rs: proofs on what a context holds after a key schedule, as the test builds read it.
use hpke_ng.Base.{
  ℕ, ◌*◌, ◌≤◌, [], ◌++◌, ◌≡◌, refl, ==_iff, le→leb, length, drop, take-append, length-append,
  length-drop, arith,
}
use hpke_ng.Bytes.{Bytes, literal, zeros}
use hpke_ng.Error.{ok}
use hpke_ng.Kdf
use hpke_ng.Kdf.{Kdf, labeled_extract, labeled_expand}
use hpke_ng.Aead
use hpke_ng.Aead.{Aead}
use hpke_ng.Psk.{Psk}
use hpke_ng.Kem.{CryptoRng, Kem}
use hpke_ng.Suite.{PskFreeMode, PskMode, psk_free_mode_byte, psk_mode_byte, ciphersuite}
use hpke_ng.Context
use hpke_ng.Context.{Context, copy_prefix}
use hpke_ng.Context.Harness.{key, nonce, exporter_secret, sequence_number}
use hpke_ng.Schedule.{key_schedule_psk_free, key_schedule_psk}
use hpke_ng.Schedule.Rfc.{
  IsFresh, rfc_key_schedule, ks_context, expand_ok, key_schedule_psk_free-rfc, key_schedule_psk-rfc,
}

module _ {R : CryptoRng} (K : Kem R) (F : Kdf) (A : Aead) where
  -- The context's key, base nonce and exporter secret are the RFC's three outputs, the cipher is
  -- that of the key, and the counter is 0.
  pub record Holds (mode : ℕ) (shared_secret info psk psk_id : Bytes) (c : Context K F A)
      : Type 0 where
    pub secret : Bytes
    pub secret_is :
        secret ≡ labeled_extract F shared_secret (ciphersuite K F A) (literal "secret") psk
    pub key_is :
        labeled_expand F secret
          (ciphersuite K F A)
          (literal "key")
          (ks_context K F A mode psk_id info)
          A.key_len
        ≡ ok (key c)
    pub cipher_is : A.init (key c) ≡ ok c.cipher
    pub base_nonce : Bytes
    pub nonce_is :
        labeled_expand F secret
          (ciphersuite K F A)
          (literal "base_nonce")
          (ks_context K F A mode psk_id info)
          A.nonce_len
        ≡ ok base_nonce
    pub nonce_read : nonce c ≡ ok base_nonce
    pub exporter_is :
        labeled_expand F secret
          (ciphersuite K F A)
          (literal "exp")
          (ks_context K F A mode psk_id info)
          F.hash_len
        ≡ ok (exporter_secret c)
    pub at_start : sequence_number c ≡ 0
    pub fresh : IsFresh c

  module _ (kdf : Kdf.IsLawful F) (aead : Aead.IsLawful A) where
    rfc_key_schedule-Holds :
        (mode : ℕ) (shared_secret info psk psk_id : Bytes)
        → (c : Context K F A) × (rfc_key_schedule K F A mode shared_secret info psk psk_id ≡ ok c)
          × Holds mode shared_secret info psk psk_id c
    unfolding rfc_key_schedule Context.new key nonce exporter_secret sequence_number
    rfc_key_schedule-Holds mode shared_secret info psk psk_id =
        let suite = ciphersuite K F A in
        let context = ks_context K F A mode psk_id info in
        let expand = λ (label : Bytes) (n : ℕ) (h : n ≤ 255 * F.hash_len).
          expand_ok K F A kdf aead shared_secret suite (literal "secret") psk label context n h in
        let (raw, e, hk) =
          expand (literal "key") A.key_len (omega (arith, kdf.hash_len_pos, aead.key_len_bound)) in
        let (base, e', hn) =
          expand (literal "base_nonce") A.nonce_len
            (omega (arith, kdf.hash_len_pos, aead.nonce_len_bound)) in
        let (secret, e'', hs) = expand (literal "exp") F.hash_len (omega arith) in
        let (cipher, made) = aead.init_key raw hk in
        let tail = drop A.nonce_len (zeros 12) in
        let c : Context K F A = record {
          cipher = cipher;
          base_nonce = base ++ tail;
          exporter_secret = secret;
          seq = 0;
          raw_key = raw;
        } in
        let size : length (base ++ tail) ≡ 12 = omega (
          arith,
          length-append base tail,
          length-drop A.nonce_len (zeros 12),
          aead.nonce_len_bound,
        ) in
        let room : A.nonce_len ≤ length (base ++ tail) =
          omega (arith, length-append base tail, hn) in
        (
          c,
          rw (e, e', e'', made, le→leb _ _ aead.nonce_len_bound, (==_iff _ _).1 hn),
          record {
            secret = labeled_extract F shared_secret suite (literal "secret") psk;
            secret_is = refl;
            key_is = e;
            cipher_is = made;
            base_nonce = base;
            nonce_is = e';
            nonce_read = rw (le→leb _ _ room, take-append base tail A.nonce_len hn);
            exporter_is = e'';
            at_start = refl;
            fresh = record {
              well_formed = record { nonce_size = size; seq_bound = omega arith };
              at_start = refl;
              exporter_size = hs;
            };
          },
        )

    pub key_schedule_psk_free-Holds :
        (m : PskFreeMode) (shared_secret info : Bytes)
        → (c : Context K F A) × (key_schedule_psk_free K F A m shared_secret info ≡ ok c)
          × Holds (psk_free_mode_byte m) shared_secret info [] [] c
    key_schedule_psk_free-Holds m shared_secret info =
        rw (key_schedule_psk_free-rfc K F A kdf m shared_secret info)
          (rfc_key_schedule-Holds _ shared_secret info [] [])

    -- With a lawful KDF and a lawful AEAD, the schedule with a PSK gives a context for all inputs.
    -- Its accessors give the key, the base nonce and the exporter secret that the RFC expands from
    -- the mode's byte, the PSK and its identifier, its cipher is that of the key, its counter is
    -- 0, and it is well-formed.
    pub key_schedule_psk-Holds :
        (m : PskMode) (shared_secret info : Bytes) (psk : Psk)
        → (c : Context K F A) × (key_schedule_psk K F A m shared_secret info psk ≡ ok c)
          × Holds (psk_mode_byte m) shared_secret info psk.secret psk.id c
    key_schedule_psk-Holds m shared_secret info psk =
        rw (key_schedule_psk-rfc K F A kdf m shared_secret info psk)
          (rfc_key_schedule-Holds _ shared_secret info psk.secret psk.id)
