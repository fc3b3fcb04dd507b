-- ===== src/Fuzz/Returns.antt =====
-- fuzz/fuzz_targets: proofs that the targets `open` and `key_schedule` do not panic.
use hpke_ng.Base.{
  ℕ, suc, ◌-◌, ◌%◌, ◌≡◌, refl, [], ◌∷◌, inl, inr, Bool-cases, ◌==◌, ltb, length, take, drop, arith,
}
use hpke_ng.Bytes.{Bytes, literal}
use hpke_ng.Bytes.Slices.{index}
use hpke_ng.Error.{ok, Returns, ok-Returns, err-Returns}
use hpke_ng.Aead.Ciphers.{AeadCrate, AeadDocs, sealing_impl-SealsLawfully}
use hpke_ng.Psk
use hpke_ng.Psk.{Psk, new-Returns}
use hpke_ng.Kem.{CryptoRng}
use hpke_ng.Kem.Instances.{Crates, CratesDocs}
use hpke_ng.Kem.Instances.Laws.{kems-ArePanicFree, sha256-IsLawful}
use hpke_ng.Kem.Dh
use hpke_ng.Kem.Dh.X25519.{x25519, key_pair, clamp}
use hpke_ng.Kem.Dh.X25519.Lawful.{derive_total}
use hpke_ng.Suite.{
  PskFreeMode, PskMode, base_mode_tag, auth_mode_tag, psk_mode_tag, auth_psk_mode_tag,
}
use hpke_ng.Schedule.{key_schedule_psk_free, key_schedule_psk}
use hpke_ng.Schedule.Rfc.{key_schedule_psk_free_total, key_schedule_psk_total}
use hpke_ng.Hpke.Seal.{open_base}
use hpke_ng.Hpke.Outcome.{open-outcome}
use hpke_ng.Fuzz.{
  discard, if_ok, fuzz_kem, fuzz_kdf, fuzz_aead, recipient, fuzz_open, fuzz_mode, fuzz_key_schedule,
}
use hpke_ng.Fuzz.Slices.{discard_ok, if_ok_ok, split_at_ok, slice_ok, take_lp_total}

module _ {R : CryptoRng} (c : Crates R) (docs : CratesDocs c) (a : AeadCrate)
    (aead : AeadDocs a 32) where
  -- The fixed key of the receiver is there.
  recipient_total : (sk : (fuzz_kem c a).PrivateKey) × (recipient c a ≡ ok sk)
  unfolding recipient Dh.derive_key_pair
  recipient_total =
      let (scalar, size, made) =
        derive_total R c.sha256 docs.sha256 c.dalek docs.dalek (literal "hpke-ng-fuzz-recipient") in
      let pair = key_pair c.dalek (clamp scalar) in
      (Dh.from_pair (x25519 c.dalek R c.sha256) pair.0 pair.1, rw made)

  fuzz_open_returns :
      (enc : (fuzz_kem c a).EncappedKey) (sk : (fuzz_kem c a).PrivateKey) (ct : Bytes)
      → Returns (
          open_base
            (fuzz_kem c a)
            (fuzz_kdf c a)
            (fuzz_aead c a)
            enc
            sk
            (literal "info")
            (literal "aad")
            ct)
  fuzz_open_returns enc sk ct =
      elim (open-outcome (fuzz_kem c a) (fuzz_kdf c a) (fuzz_aead c a)
        (kems-ArePanicFree c docs).x25519.is_panic_free (sha256-IsLawful c docs)
        (sealing_impl-SealsLawfully a 32 aead 0x0003 (omega arith)) enc sk (literal "info")
        (literal "aad") ct (record { secret = []; id = [] })).0 [
          | inl (e, failed, result) ↦ err-Returns result
          | inr (ss, given, inl (pt, result)) ↦ ok-Returns result
          | inr (ss, given, inr result) ↦ err-Returns result
        ]

  -- Over crates that behave as documented, the fuzz target `open` runs to its end on every input:
  -- neither a panic in parsing, decapsulation, the key schedule and decryption, nor one in making
  -- its fixed key.
  pub fuzz_open-returns : (input : Bytes) → fuzz_open c a input ≡ ok tt
  unfolding fuzz_open
  fuzz_open-returns input = elim (Bool-cases (ltb (length input) 32)) [
    | inl short ↦ rw short
    | inr enough ↦
        let (sk, there) = recipient_total in
        rw (enough, split_at_ok input 32 (ground arith))
          (if_ok_ok ((fuzz_kem c a).enc_from_bytes (take 32 input)) _
            ((kems-ArePanicFree c docs).x25519.is_panic_free.enc_from_bytes (take 32 input))
            λ enc read. rw there (discard_ok _ (fuzz_open_returns enc sk (drop 32 input))))
  ]

  free_schedule :
      (m : PskFreeMode) (shared_secret info : Bytes)
      → discard (
          key_schedule_psk_free
            (fuzz_kem c a)
            (fuzz_kdf c a)
            (fuzz_aead c a).aead
            m
            shared_secret
            info)
        ≡ ok tt
  free_schedule m shared_secret info =
      let lawful = sealing_impl-SealsLawfully a 32 aead 0x0003 (omega arith) in
      let (ctx, made, fresh) =
        key_schedule_psk_free_total (fuzz_kem c a) (fuzz_kdf c a) (fuzz_aead c a).aead
          (sha256-IsLawful c docs) lawful.is_lawful m shared_secret info in
      rw made

  psk_schedule :
      (m : PskMode) (shared_secret info psk psk_id : Bytes)
      → (if_ok (Psk.new psk psk_id) λ p. discard (
          key_schedule_psk
            (fuzz_kem c a)
            (fuzz_kdf c a)
            (fuzz_aead c a).aead
            m
            shared_secret
            info
            p))
        ≡ ok tt
  psk_schedule m shared_secret info psk psk_id =
      let lawful = sealing_impl-SealsLawfully a 32 aead 0x0003 (omega arith) in
      if_ok_ok (Psk.new psk psk_id) _ (new-Returns psk psk_id) λ p e.
        let (ctx, made, fresh) =
          key_schedule_psk_total (fuzz_kem c a) (fuzz_kdf c a) (fuzz_aead c a).aead
            (sha256-IsLawful c docs) lawful.is_lawful m shared_secret info p in
        rw made

  fuzz_mode_ok :
      (mode : ℕ) (shared_secret info psk psk_id : Bytes)
      → fuzz_mode c a mode shared_secret info psk psk_id ≡ ok tt
  unfolding fuzz_mode
  fuzz_mode_ok mode shared_secret info psk psk_id = elim (Bool-cases (mode == 0)) [
    | inl base ↦ rw base (free_schedule base_mode_tag shared_secret info)
    | inr rest ↦ rw rest elim (Bool-cases (mode == 1)) [
      | inl psk_mode ↦ rw psk_mode (psk_schedule psk_mode_tag shared_secret info psk psk_id)
      | inr rest ↦ rw rest elim (Bool-cases (mode == 2)) [
        | inl auth ↦ rw auth (free_schedule auth_mode_tag shared_secret info)
        | inr rest ↦ rw rest (psk_schedule auth_psk_mode_tag shared_secret info psk psk_id)
      ]
    ]
  ]

  -- Over crates that behave as documented, the fuzz target `key_schedule` runs to its end on every
  -- input: no slice that it takes is out of range, and neither `Psk::new` nor the schedule of any
  -- of the four modes panics.
  pub fuzz_key_schedule-returns : (input : Bytes) → fuzz_key_schedule c a input ≡ ok tt
  unfolding fuzz_key_schedule index
  fuzz_key_schedule-returns [] = refl
  fuzz_key_schedule-returns (mode ∷ input) = elim (Bool-cases (ltb (suc (length input)) 33)) [
    | inl short ↦ rw short
    | inr enough ↦
        let whole = mode ∷ input in
        let secret = take 32 input in
        let rest : Bytes = take (length whole - 33) (drop 33 whole) in
        let ((info, rest1), e1) = take_lp_total rest in
        let ((psk, rest2), e2) = take_lp_total rest1 in
        let ((psk_id, rest3), e3) = take_lp_total rest2 in
        rw
          (
            enough,
            slice_ok whole 1 33 (omega arith) (ground arith),
            slice_ok whole 33 (length whole) (ground arith) (omega arith),
            e1,
            e2,
            e3,
          )
          (fuzz_mode_ok (mode % 4) secret info psk psk_id)
  ]
