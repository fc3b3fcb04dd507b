-- ===== src/Schedule/Binding.antt =====
-- src/lib.rs: proofs on two key schedules, beside each other, and on what their outputs bind.
use hpke_ng.Base.{ℕ, inl, inr, ◌⊎◌, Bool-cases, subst, ◌<◌, [], ◌∷◌, ◌≡◌, sym, ◌∙◌, arith}
use hpke_ng.Bytes.{Bytes, eq_bytes, literal}
use hpke_ng.Bytes.Slices.{eq_bytes_iff}
use hpke_ng.Error.{Result, ok, ok_inj}
use hpke_ng.Kdf
use hpke_ng.Kdf.{Kdf, labeled_extract, labeled_expand}
use hpke_ng.Aead
use hpke_ng.Aead.{Aead}
use hpke_ng.Psk.{Psk}
use hpke_ng.Kem.{CryptoRng, Kem}
use hpke_ng.Suite.{PskFreeMode, PskMode, psk_free_mode_byte, psk_mode_byte, ciphersuite}
use hpke_ng.Context.{Context}
use hpke_ng.Context.Harness.{key, nonce, exporter_secret}
use hpke_ng.Schedule.{key_schedule_psk_free, key_schedule_psk}
use hpke_ng.Schedule.Outputs.{Holds, key_schedule_psk_free-Holds, key_schedule_psk-Holds}
use hpke_ng.Schedule.Rfc.{ks_context}
use hpke_ng.Schedule.Inputs.{
  Output, key_output, nonce_output, exporter_output, label, expand_input, labeled_expand-input,
  expand_input_inj,
}

-- What a mode adds to a key schedule: its tag and, where it has one, its PSK.
pub data Mode : Type 0 where
  psk_free : PskFreeMode → Mode
  psk_bearing : PskMode → Psk → Mode

unfoldable pub mode_byte : Mode → ℕ
mode_byte (psk_free m) = psk_free_mode_byte m
mode_byte (psk_bearing m psk) = psk_mode_byte m

unfoldable pub psk_of : Mode → Psk
psk_of (psk_free m) = record { secret = []; id = [] }
psk_of (psk_bearing m psk) = psk

module _ {R : CryptoRng} (K : Kem R) (F : Kdf) (A : Aead) where
  -- The key schedule of any of the four modes.
  unfoldable pub key_schedule : Mode → Bytes → Bytes → Result (Context K F A)
  key_schedule (psk_free m) shared_secret info = key_schedule_psk_free K F A m shared_secret info
  key_schedule (psk_bearing m psk) shared_secret info =
      key_schedule_psk K F A m shared_secret info psk

  -- An output as the test builds read it, and its length.
  unfoldable pub output : Output → Context K F A → Result Bytes
  output key_output c = ok (key c)
  output nonce_output c = nonce c
  output exporter_output c = ok (exporter_secret c)

  unfoldable pub output_len : Output → ℕ
  output_len key_output = A.key_len
  output_len nonce_output = A.nonce_len
  output_len exporter_output = F.hash_len

  abbrev pub psk_id_hash : Mode → Bytes
  psk_id_hash m = labeled_extract F [] (ciphersuite K F A) (literal "psk_id_hash") (psk_of m).id

  abbrev pub info_hash : Bytes → Bytes
  info_hash info = labeled_extract F [] (ciphersuite K F A) (literal "info_hash") info

  -- The secret that is extracted from the shared secret and the PSK.
  abbrev pub secret_of : Mode → Bytes → Bytes
  secret_of m shared_secret =
      labeled_extract F shared_secret (ciphersuite K F A) (literal "secret") (psk_of m).secret

  -- The string that RFC 9180 §5.1 expands for an output.
  unfoldable pub input_of : Mode → Bytes → Output → Bytes
  input_of m info o =
      expand_input (output_len o) (ciphersuite K F A) (label o)
        (ks_context K F A (mode_byte m) (psk_of m).id info)

  abbrev pub expansion : Mode → Bytes → Bytes → Output → Result Bytes
  expansion m shared_secret info o =
      F.expand (secret_of m shared_secret) (input_of m info o ∷ []) (output_len o)

  module _ (kdf : Kdf.IsLawful F) (aead : Aead.IsLawful A) where
    pub key_schedule-Holds :
        (m : Mode) (shared_secret info : Bytes)
        → (c : Context K F A) × (key_schedule m shared_secret info ≡ ok c)
          × Holds K F A (mode_byte m) shared_secret info (psk_of m).secret (psk_of m).id c
    unfolding key_schedule mode_byte psk_of
    key_schedule-Holds (psk_free m) shared_secret info =
        key_schedule_psk_free-Holds K F A kdf aead m shared_secret info
    key_schedule-Holds (psk_bearing m psk) shared_secret info =
        key_schedule_psk-Holds K F A kdf aead m shared_secret info psk

    output_len_bound : (o : Output) → output_len o < 65536
    unfolding output_len
    output_len_bound key_output = omega (arith, aead.key_len_bound)
    output_len_bound nonce_output = omega (arith, aead.nonce_len_bound)
    output_len_bound exporter_output = omega (arith, kdf.hash_len_bound)

    output-expand :
        (m : Mode) (shared_secret info : Bytes) (o : Output) {c : Context K F A}
        → Holds K F A (mode_byte m) shared_secret info (psk_of m).secret (psk_of m).id c
        → labeled_expand F
            (secret_of m shared_secret)
            (ciphersuite K F A)
            (label o)
            (ks_context K F A (mode_byte m) (psk_of m).id info)
            (output_len o)
          ≡ output o c
    unfolding output output_len label
    output-expand m shared_secret info key_output holds = rw (← holds.secret_is) holds.key_is
    output-expand m shared_secret info nonce_output holds =
        rw (← holds.secret_is) (holds.nonce_is ∙ sym holds.nonce_read)
    output-expand m shared_secret info exporter_output holds =
        rw (← holds.secret_is) holds.exporter_is

    output-input :
        (m : Mode) (shared_secret info : Bytes) (o : Output) {c : Context K F A}
        → key_schedule m shared_secret info ≡ ok c
        → output o c ≡ expansion m shared_secret info o
    unfolding input_of
    output-input m shared_secret info o {c} made =
        let (c', made', holds) = key_schedule-Holds m shared_secret info in
        let same : c' ≡ c = ok_inj (sym made' ∙ made) in
        subst (λ d. output o d ≡ expansion m shared_secret info o) same
          (sym (output-expand m shared_secret info o holds)
            ∙ labeled_expand-input F kdf _ _ _ _ (output_len o) (output_len_bound o))

module _ {R : CryptoRng} (F : Kdf) (K K' : Kem R) (A A' : Aead) (o o' : Output) (m m' : Mode)
    (shared_secret shared_secret' info info' : Bytes) where
  -- The two outputs are one of the three, of schedules with one KEM, one AEAD, one mode byte, one
  -- extracted secret, and one hash each of the PSK's identifier and of the info string.
  pub record Agrees : Type 0 where
    pub one_output : o ≡ o'
    pub one_kem : K.id ≡ K'.id
    pub one_aead : A.id ≡ A'.id
    pub one_mode : mode_byte m ≡ mode_byte m'
    pub one_secret : secret_of K F A m shared_secret ≡ secret_of K' F A' m' shared_secret'
    pub one_psk_id : psk_id_hash K F A m ≡ psk_id_hash K' F A' m'
    pub one_info : info_hash K F A info ≡ info_hash K' F A' info'

  -- The KDF expands alike what the RFC has the two schedules expand, although the secrets or the
  -- strings differ.
  pub record Collides : Type 0 where
    pub apart : ¬ (
        (secret_of K F A m shared_secret ≡ secret_of K' F A' m' shared_secret')
        × (input_of K F A m info o ≡ input_of K' F A' m' info' o'))
    pub one_expansion :
        expansion K F A m shared_secret info o ≡ expansion K' F A' m' shared_secret' info' o'

  module _ (lawful : Kdf.IsLawful F) where
    same_input-Agrees :
        (K.id < 65536) × (F.id < 65536) × (A.id < 65536)
        → (K'.id < 65536) × (F.id < 65536) × (A'.id < 65536)
        → secret_of K F A m shared_secret ≡ secret_of K' F A' m' shared_secret'
        → input_of K F A m info o ≡ input_of K' F A' m' info' o'
        → Agrees
    unfolding input_of
    same_input-Agrees ids ids' secret same =
        let (h, kem, aead, mode, psk_id, info) =
          expand_input_inj F lawful K K' A A' o o' _ _ _ _ _ _ _ _ ids ids' same in
        record {
          one_output = h;
          one_kem = kem;
          one_aead = aead;
          one_mode = mode;
          one_secret = secret;
          one_psk_id = psk_id;
          one_info = info;
        }

    -- With a lawful KDF and lawful AEADs, in suites whose identifiers are each a `u16`: if two key
    -- schedules, in any of the four modes, give contexts, and an output of the one, its key, base
    -- nonce or exporter secret, equals an output of the other, then the two are the same one of
    -- the three, and the schedules have the same identifiers of KEM and AEAD, mode byte, extracted
    -- secret, hash of the PSK's identifier and hash of the info string; or else the KDF expands
    -- alike what RFC 9180 has the two schedules expand, although the secrets or the strings
    -- differ.
    pub key_schedule-binds :
        {c : Context K F A} {c' : Context K' F A'}
        → Aead.IsLawful A
        → Aead.IsLawful A'
        → (K.id < 65536) × (F.id < 65536) × (A.id < 65536)
        → (K'.id < 65536) × (F.id < 65536) × (A'.id < 65536)
        → key_schedule K F A m shared_secret info ≡ ok c
        → key_schedule K' F A' m' shared_secret' info' ≡ ok c'
        → output K F A o c ≡ output K' F A' o' c'
        → Agrees ⊎ Collides
    key_schedule-binds aead aead' ids ids' made made' same =
        let one_expansion =
          sym (output-input K F A lawful aead m shared_secret info o made)
          ∙ same
          ∙ output-input K' F A' lawful aead' m' shared_secret' info' o' made' in
        let secret = secret_of K F A m shared_secret in
        let secret' = secret_of K' F A' m' shared_secret' in
        let input = input_of K F A m info o in
        let input' = input_of K' F A' m' info' o' in
        elim (Bool-cases (eq_bytes secret secret')) [
          | inl secrets ↦ elim (Bool-cases (eq_bytes input input')) [
            | inl inputs ↦ inl (
                same_input-Agrees ids ids' ((eq_bytes_iff secret secret').0 secrets)
                  ((eq_bytes_iff input input').0 inputs))
            | inr other ↦
                let apart : ¬ ((secret ≡ secret') × (input ≡ input')) =
                  λ e. ground (arith, (eq_bytes_iff input input').1 e.1) in
                inr (record { apart = apart; one_expansion = one_expansion })
          ]
          | inr other ↦
              let apart : ¬ ((secret ≡ secret') × (input ≡ input')) =
                λ e. ground (arith, (eq_bytes_iff secret secret').1 e.0) in
              inr (record { apart = apart; one_expansion = one_expansion })
        ]
