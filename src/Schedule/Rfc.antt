-- ===== src/Schedule/Rfc.antt =====
-- src/lib.rs: the key schedule of RFC 9180 §5.1, and proofs on the two schedules of the code beside it.
use hpke_ng.Base.{
  ℕ, ◌*◌, ◌≤◌, [], ◌∷◌, ◌++◌, ◌≡◌, refl, ◌∙◌, append-nil, ==_iff, le→leb, length, drop,
  length-append, length-drop, arith,
}
use hpke_ng.Bytes.{Bytes, literal, zeros}
use hpke_ng.Error.{Result, ok, ◌>>=◌}
use hpke_ng.Kdf
use hpke_ng.Kdf.{Kdf, labeled_extract, labeled_expand, labeled_expand_pieces}
use hpke_ng.Kdf.Labeled.{labeled_expand_pieces_lem, labeled_expand-outcome}
use hpke_ng.Aead
use hpke_ng.Aead.{Aead}
use hpke_ng.Psk.{Psk}
use hpke_ng.Kem.{CryptoRng, Kem}
use hpke_ng.Suite.{PskFreeMode, PskMode, psk_free_mode_byte, psk_mode_byte, ciphersuite}
use hpke_ng.Context
use hpke_ng.Context.{Context, copy_prefix}
use hpke_ng.Context.Nonce.{IsWellFormed}
use hpke_ng.Schedule.{key_schedule_psk_free, key_schedule_psk}

module _ {R : CryptoRng} (K : Kem R) (F : Kdf) (A : Aead) where
  unfoldable pub ks_context : ℕ → Bytes → Bytes → Bytes
  ks_context mode psk_id info =
      let suite = ciphersuite K F A in
      mode
      ∷ (labeled_extract F [] suite (literal "psk_id_hash") psk_id
          ++ labeled_extract F [] suite (literal "info_hash") info)

  -- `KeySchedule(mode, shared_secret, info, psk, psk_id)` of RFC 9180 §5.1.
  unfoldable pub rfc_key_schedule : ℕ → Bytes → Bytes → Bytes → Bytes → Result (Context K F A)
  rfc_key_schedule mode shared_secret info psk psk_id = do
    let suite = ciphersuite K F A
    let context = ks_context mode psk_id info
    let secret = labeled_extract F shared_secret suite (literal "secret") psk
    key ← labeled_expand F secret suite (literal "key") context A.key_len
    base_nonce ← labeled_expand F secret suite (literal "base_nonce") context A.nonce_len
    exporter_secret ← labeled_expand F secret suite (literal "exp") context F.hash_len
    Context.new key base_nonce exporter_secret

  module _ (lawful : Kdf.IsLawful F) where
    three_pieces :
        (prk suite label : Bytes) (m : ℕ) (h i : Bytes) (n : ℕ)
        → labeled_expand_pieces F prk suite label ((m ∷ []) ∷ h ∷ i ∷ []) n
          ≡ labeled_expand F prk suite label (m ∷ (h ++ i)) n
    three_pieces prk suite label m h i n =
        labeled_expand_pieces_lem F lawful prk suite label ((m ∷ []) ∷ h ∷ i ∷ []) n
        ∙ rw (append-nil i)

    -- With a lawful KDF, the schedule of the modes without a PSK is the key schedule of the RFC
    -- with the mode's byte, an empty PSK and an empty identifier.
    pub key_schedule_psk_free-rfc :
        (m : PskFreeMode) (shared_secret info : Bytes)
        → key_schedule_psk_free K F A m shared_secret info
          ≡ rfc_key_schedule (psk_free_mode_byte m) shared_secret info [] []
    unfolding key_schedule_psk_free rfc_key_schedule ks_context
    key_schedule_psk_free-rfc m shared_secret info = simp three_pieces

    -- With a lawful KDF, the schedule of the modes with a PSK is the key schedule of the RFC with
    -- the mode's byte, the PSK and its identifier.
    pub key_schedule_psk-rfc :
        (m : PskMode) (shared_secret info : Bytes) (psk : Psk)
        → key_schedule_psk K F A m shared_secret info psk
          ≡ rfc_key_schedule (psk_mode_byte m) shared_secret info psk.secret psk.id
    unfolding key_schedule_psk rfc_key_schedule ks_context
    key_schedule_psk-rfc m shared_secret info psk = simp three_pieces

-- A context as a key schedule leaves it: well-formed, at counter 0, with an exporter secret of the
-- hash's length.
pub record IsFresh {R : CryptoRng} {K : Kem R} {F : Kdf} {A : Aead} (c : Context K F A)
    : Type 0 where
  pub well_formed : IsWellFormed c
  pub at_start : c.seq ≡ 0
  pub exporter_size : length c.exporter_secret ≡ F.hash_len

module _ {R : CryptoRng} (K : Kem R) (F : Kdf) (A : Aead) where
  new_ok :
      (key base_nonce exporter_secret : Bytes)
      → Aead.IsLawful A
      → length key ≡ A.key_len
      → length base_nonce ≡ A.nonce_len
      → length exporter_secret ≡ F.hash_len
      → (c : Context K F A) × (Context.new key base_nonce exporter_secret ≡ ok c) × IsFresh c
  unfolding Context.new
  new_ok key base_nonce exporter_secret lawful hk hn he =
      let (cipher, made) = lawful.init_key key hk in
      let tail = drop A.nonce_len (zeros 12) in
      let size : length (base_nonce ++ tail) ≡ 12 = omega (
        arith,
        length-append base_nonce tail,
        length-drop A.nonce_len (zeros 12),
        lawful.nonce_len_bound,
      ) in
      (
        record {
          cipher = cipher;
          base_nonce = base_nonce ++ tail;
          exporter_secret = exporter_secret;
          seq = 0;
          raw_key = key;
        },
        rw (made, le→leb _ _ lawful.nonce_len_bound, (==_iff _ _).1 hn),
        record {
          well_formed = record { nonce_size = size; seq_bound = omega arith };
          at_start = refl;
          exporter_size = he;
        },
      )

  module _ (kdf : Kdf.IsLawful F) (aead : Aead.IsLawful A) where
    pub expand_ok :
        (salt suite ikm_label ikm label info : Bytes) (n : ℕ)
        → n ≤ 255 * F.hash_len
        → (out : Bytes) × (labeled_expand F
              (labeled_extract F salt suite ikm_label ikm)
              suite
              label
              info
              n
            ≡ ok out)
          × (length out ≡ n)
    unfolding labeled_extract
    expand_ok salt suite ikm_label ikm label info n fits =
        (labeled_expand-outcome F kdf _ suite label info n).1 fits
          (omega (arith, kdf.length-extract salt _))

    -- Over lawful parts, the RFC's schedule gives a fresh context for all inputs.
    pub rfc_key_schedule_total :
        (mode : ℕ) (shared_secret info psk psk_id : Bytes)
        → (c : Context K F A) × (rfc_key_schedule K F A mode shared_secret info psk psk_id ≡ ok c)
          × IsFresh c
    unfolding rfc_key_schedule
    rfc_key_schedule_total mode shared_secret info psk psk_id =
        let suite = ciphersuite K F A in
        let context = ks_context K F A mode psk_id info in
        let expand = λ (label : Bytes) (n : ℕ) (h : n ≤ 255 * F.hash_len).
          expand_ok shared_secret suite (literal "secret") psk label context n h in
        let (key, e, hk) =
          expand (literal "key") A.key_len (omega (arith, kdf.hash_len_pos, aead.key_len_bound)) in
        let (nonce, e', hn) =
          expand (literal "base_nonce") A.nonce_len
            (omega (arith, kdf.hash_len_pos, aead.nonce_len_bound)) in
        let (secret, e'', hs) = expand (literal "exp") F.hash_len (omega arith) in
        let (c, made, fresh) = new_ok key nonce secret aead hk hn hs in
        (c, rw (e, e', e'', made), fresh)

    -- With a lawful KDF and a lawful AEAD, the schedule without a PSK neither fails nor panics: it
    -- gives a well-formed context at counter 0 whose exporter secret has the hash's length.
    pub key_schedule_psk_free_total :
        (m : PskFreeMode) (shared_secret info : Bytes)
        → (c : Context K F A) × (key_schedule_psk_free K F A m shared_secret info ≡ ok c)
          × IsFresh c
    key_schedule_psk_free_total m shared_secret info =
        rw (key_schedule_psk_free-rfc K F A kdf m shared_secret info)
          (rfc_key_schedule_total _ shared_secret info [] [])

    -- With a lawful KDF and a lawful AEAD, the schedule with a PSK neither fails nor panics: it
    -- gives a well-formed context at counter 0 whose exporter secret has the hash's length.
    pub key_schedule_psk_total :
        (m : PskMode) (shared_secret info : Bytes) (psk : Psk)
        → (c : Context K F A) × (key_schedule_psk K F A m shared_secret info psk ≡ ok c) × IsFresh c
    key_schedule_psk_total m shared_secret info psk =
        rw (key_schedule_psk-rfc K F A kdf m shared_secret info psk)
          (rfc_key_schedule_total _ shared_secret info psk.secret psk.id)
