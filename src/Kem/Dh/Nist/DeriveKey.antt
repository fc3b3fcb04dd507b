-- ===== src/Kem/Dh/Nist/DeriveKey.antt =====
-- src/kem/dh.rs: proofs on the loop of `derive_p_curve_sk`.
use native.Mathlib.Decide.{dec_lt}
use hpke_ng.Base.{
  ℕ, zero, suc, ◌+◌, ◌*◌, ◌≤◌, ◌<◌, ◌≡◌, refl, ◌⊎◌, inl, inr, [], ◌∷◌, true, false, none, some,
  Option-cases, ==_iff, bit_and, length, subst, ap, ◌∙◌, Bool, arith,
}
use hpke_ng.Bytes.{Bytes, literal}
use hpke_ng.Error.{Result, ok, err, ◌>>=◌, derive_key_pair_error}
use hpke_ng.Kdf
use hpke_ng.Kdf.{labeled_extract, labeled_expand}
use hpke_ng.Kdf.Labeled.{labeled_expand-outcome}
use hpke_ng.Kem.{CryptoRng, kem_suite_id}
use hpke_ng.Kem.Dh.Nist.{
  CurveCrate, Curve, candidate, mask_first, is_ok, make_pk, sk_from_bytes, try_counters,
  derive_p_curve_sk, derive,
}

module _ {R : CryptoRng} (p : Curve) (c : CurveCrate R) where
  -- The candidate of a counter value, and whether the curve takes it.
  pub Taken : Bytes → ℕ → Bytes → Type 0
  Taken prk k bytes =
      (candidate p c prk k ≡ ok bytes) × ((sk : c.SecretKey) × (c.from_slice bytes ≡ some sk))

  pub Rejected : Bytes → ℕ → Type 0
  Rejected prk k = (bytes : Bytes) × (candidate p c prk k ≡ ok bytes) × (c.from_slice bytes ≡ none)

  -- The first candidate, from a counter value on and below another, that the curve takes, or the
  -- error if it takes none.
  pub First : Bytes → ℕ → ℕ → Result Bytes → Type 0
  First prk from to result =
      ((k : ℕ) × (bytes : Bytes) × (from ≤ k)
        × (k < to)
        × Taken prk k bytes
        × ((j : ℕ) → from ≤ j → j < k → Rejected prk j)
        × (result ≡ ok bytes))
      ⊎ (((j : ℕ) → from ≤ j → j < to → Rejected prk j) × (result ≡ err derive_key_pair_error))

  module _ (kdf : Kdf.IsLawful p.kdf) (pos : 0 < p.nsk) (fits : p.nsk ≤ 255 * p.kdf.hash_len) where
    -- Every candidate is there, at the length of a private key.
    candidate_total :
        (prk : Bytes) (k : ℕ)
        → p.kdf.hash_len ≤ length prk
        → (bytes : Bytes) × (candidate p c prk k ≡ ok bytes) × (length bytes ≡ p.nsk)
    unfolding candidate mask_first
    candidate_total prk k long =
        let (out, given, size) =
          (labeled_expand-outcome p.kdf kdf prk (kem_suite_id p.id) (literal "candidate") (k ∷ [])
              p.nsk).1
            fits long in
        let (bytes, masked, same) = mask_first_total out (omega (arith, size)) in
        (bytes, rw (given, masked), same ∙ size)
      where
        mask_first_total :
            (out : Bytes)
            → 0 < length out
            → (bytes : Bytes) × (mask_first p.bitmask out ≡ ok bytes) × (length bytes ≡ length out)
        mask_first_total [] h = absurd (omega arith)
        mask_first_total (b ∷ bs) h = (bit_and b p.bitmask ∷ bs, refl, refl)

    prk_long :
        (ikm : Bytes)
        → p.kdf.hash_len
          ≤ length (labeled_extract p.kdf [] (kem_suite_id p.id) (literal "dkp_prk") ikm)
    unfolding labeled_extract
    prk_long ikm = omega (arith, kdf.length-extract [] _)

    -- One round: the candidate, whether it is a key, and the rest of the loop.
    round_of :
        (prk : Bytes) (rounds from : ℕ) {bytes : Bytes} {answer : Bool}
        → candidate p c prk from ≡ ok bytes
        → is_ok (sk_from_bytes p c bytes) ≡ answer
        → try_counters p c prk (suc rounds) from
          ≡ (elim answer [ true ↦ ok bytes | false ↦ try_counters p c prk rounds (suc from) ])
    unfolding try_counters
    round_of prk rounds from {bytes} {answer} given tested =
        let rest : Result Bytes = try_counters p c prk rounds (suc from) in
        let pick : Bytes → Bool → Result Bytes = λ b t. elim t [ true ↦ ok b | false ↦ rest ] in
        ap (λ (r : Result Bytes). r >>= λ b. pick b (is_ok (sk_from_bytes p c b))) given
        ∙ ap (pick bytes) tested

    refused_fails :
        (bytes : Bytes)
        → length bytes ≡ p.nsk
        → c.from_slice bytes ≡ none
        → is_ok (sk_from_bytes p c bytes) ≡ false
    unfolding sk_from_bytes
    refused_fails bytes size refused = rw ((==_iff _ _).1 size, refused)

    taken_passes :
        (bytes : Bytes) {sk : c.SecretKey}
        → length bytes ≡ p.nsk
        → c.from_slice bytes ≡ some sk
        → is_ok (sk_from_bytes p c bytes) ≡ true
    unfolding sk_from_bytes
    taken_passes bytes size taken = rw ((==_iff _ _).1 size, taken)

    try_counters-First :
        (prk : Bytes) (rounds from : ℕ)
        → p.kdf.hash_len ≤ length prk
        → First prk from (rounds + from) (try_counters p c prk rounds from)
    unfolding try_counters First Taken Rejected
    try_counters-First prk zero from long = inr (λ j lo hi. absurd (omega arith), refl)
    try_counters-First prk (suc rounds) from long =
        let (bytes, given, size) = candidate_total prk from long in
        elim (Option-cases (c.from_slice bytes)) [
          | inr (sk, taken) ↦ inl (
            from,
            bytes,
            omega arith,
            omega arith,
            (given, (sk, taken)),
            λ j lo hi. absurd (omega arith),
            round_of prk rounds from given (taken_passes bytes size taken),
          )
          | inl refused ↦
              let first : Rejected prk from = (bytes, given, refused) in
              let before : (j : ℕ) → from ≤ j → (suc from ≤ j → Rejected prk j) → Rejected prk j =
                λ j lo later. from_or_later prk from j first lo later in
              elim (try_counters-First prk rounds (suc from) long) [
                | inl (k, found, lo, hi, taken, rejected, result) ↦ inl (
                  k,
                  found,
                  omega arith,
                  omega arith,
                  taken,
                  λ j above below. before j above (λ more. rejected j more below),
                  round_of prk rounds from given (refused_fails bytes size refused) ∙ result,
                )
                | inr (rejected, result) ↦ inr (
                  λ j above below. before j above (λ more. rejected j more (omega arith)),
                  round_of prk rounds from given (refused_fails bytes size refused) ∙ result,
                )
              ]
        ]
      where
        from_or_later :
            (prk : Bytes) (from j : ℕ)
            → Rejected prk from
            → from ≤ j
            → (suc from ≤ j → Rejected prk j)
            → Rejected prk j
        from_or_later prk from j first lo later = elim (dec_lt from j) [
          | yes more ↦ later more
          | no same ↦ let e : from ≡ j = omega arith in subst (Rejected prk) e first
        ]

    -- For a curve with a lawful KDF and a private key length that is positive and at most 255
    -- blocks of the hash: `derive` gives the key pair of the first of the 256 candidates, in the
    -- order of their counters, that the curve takes as a private key, and it gives
    -- `DeriveKeyPairError` exactly where all 256 are refused; it never panics.
    pub derive-first :
        (ikm : Bytes)
        → let prk = labeled_extract p.kdf [] (kem_suite_id p.id) (literal "dkp_prk") ikm in
          ((k : ℕ) × (bytes : Bytes) × (sk : c.SecretKey) × (k < 256)
            × (candidate p c prk k ≡ ok bytes)
            × (c.from_slice bytes ≡ some sk)
            × ((j : ℕ) → j < k → Rejected prk j)
            × (derive p c ikm ≡ ok (record { secret = sk }, make_pk p c (c.public_key sk))))
          ⊎ (((j : ℕ) → j < 256 → Rejected prk j) × (derive p c ikm ≡ err derive_key_pair_error))
    unfolding derive derive_p_curve_sk First Taken
    derive-first ikm =
        let prk = labeled_extract p.kdf [] (kem_suite_id p.id) (literal "dkp_prk") ikm in
        elim (try_counters-First prk 256 0 (prk_long ikm)) [
          | inl (k, bytes, lo, hi, (there, (sk, taken)), rejected, result) ↦ inl (
            k,
            bytes,
            sk,
            hi,
            there,
            taken,
            λ j below. rejected j (omega arith) below,
            rw (result, taken),
          )
          | inr (rejected, result) ↦ inr (λ j below. rejected j (omega arith) below, rw result)
        ]
