-- ===== src/Tests/Nonces.antt =====
-- Examples on the nonces of a run: two messages under a cipher that shows its nonce in its tag, and
-- between them a call at fault, whose associated data the cipher does not take.
use hpke_ng.Base.{
  ℕ, ◌+◌, ◌-◌, ◌≤◌, ◌≡◌, List, [], ◌∷◌, ◌++◌, ◌==◌, refl, ap, ==_iff, inl, inr, Bool-cases, none,
  some, if◌then◌else◌, length, take, drop, take-append, drop-append, length-append, arith,
}
use hpke_ng.Bytes.{Bytes, eq_bytes, literal, zeros, xor_bytes, to_be_bytes}
use hpke_ng.Bytes.Slices.{eq_bytes_iff}
use hpke_ng.Error.{ok, err, seal_error, err-ne-ok}
use hpke_ng.Aead.{SealingAead, SealsLawfully}
use hpke_ng.Aead.Ciphers.{AeadCrate, AeadDocs, aes_256_gcm, sealing_impl-SealsLawfully, cipher_seal}
use hpke_ng.Context
use hpke_ng.Context.{Context, compute_nonce, u64_max}
use hpke_ng.Context.Nonce.{IsWellFormed}
use hpke_ng.Context.Roles
use hpke_ng.Context.Roles.{SenderContext, new_sender}
use hpke_ng.Context.Roles.Streams.{Delivery}
use hpke_ng.Context.Roles.Past.{Distinct}
use hpke_ng.Context.Roles.Uniqueness.{Run, SealedUnder, Run-Distinct, Run-counts}
use hpke_ng.Tests.Crates.{kdf}
use hpke_ng.Tests.Group.{kem}

-- The nonce and four zeros are the tag. A message with no associated data is refused.
abbrev showing_crate : AeadCrate
showing_crate = record {
  Cipher = Bytes;
  Nonce = Bytes;
  new_from_slice = λ key. if length key == 32 then some key else none;
  nonce_try_from = λ nonce. if length nonce == 12 then some nonce else none;
  encrypt = λ k n aad pt.
      if length n == 12
      then if length aad == 0 then none else some (pt ++ (n ++ zeros 4))
      else none;
  decrypt = λ k n aad ct.
      if eq_bytes (drop (length ct - 16) ct) (n ++ zeros 4)
      then some (take (length ct - 16) ct)
      else none;
}

record Shown (n pt ct : Bytes) : Type 0 where
  nonce_size : length n ≡ 12
  shown : ct ≡ pt ++ (n ++ zeros 4)

encrypted :
    (k n aad pt : Bytes) {ct : Bytes} → showing_crate.encrypt k n aad pt ≡ some ct → Shown n pt ct
encrypted k n aad pt {ct} h = elim (Bool-cases (length n == 12)) [
  | inl right ↦ elim (Bool-cases (length aad == 0)) [
    | inl bare ↦ let e : none ≡ some ct = rw (right, bare) at h in cc
    | inr given ↦
        let e : some (pt ++ (n ++ zeros 4)) ≡ some ct = rw (right, given) at h in
        record { nonce_size = (==_iff _ _).0 right; shown = cc }
  ]
  | inr wrong ↦ let e : none ≡ some ct = rw wrong at h in cc
]

tag_size : (n : Bytes) → length n ≡ 12 → length (n ++ zeros 4) ≡ 16
tag_size n h = omega (arith, length-append n (zeros 4))

cut : (n pt ct : Bytes) → Shown n pt ct → length ct - 16 ≡ length pt
cut n pt ct s =
    omega (arith, ap length s.shown, length-append pt (n ++ zeros 4), tag_size n s.nonce_size)

docs : AeadDocs showing_crate 32
docs = record {
  new_from_slice_right = λ key h. (key, rw ((==_iff _ _).1 h));
  new_from_slice_wrong = λ key h. ground arith;
  nonce_try_from_wrong = λ n h. ground arith;
  decrypt-encrypt = λ k n aad pt h.
      let s = encrypted k n aad pt h in
      let tag = n ++ zeros 4 in
      rw (
        cut n pt _ s,
        s.shown,
        take-append pt tag (length pt) refl,
        drop-append pt tag (length pt) refl,
        (eq_bytes_iff tag tag).1 refl,
      );
  length-encrypt = λ k n aad pt h.
      let s = encrypted k n aad pt h in
      omega (arith, ap length s.shown, length-append pt (n ++ zeros 4), tag_size n s.nonce_size);
}

abbrev showing : SealingAead
showing = aes_256_gcm showing_crate

showing-SealsLawfully : SealsLawfully showing
showing-SealsLawfully = sealing_impl-SealsLawfully showing_crate 32 docs 0x0002 (omega arith)

abbrev read : Bytes → Bytes
read ct = take 12 (drop (length ct - 16) ct)

abbrev sender_at : ℕ → SenderContext kem.kem kdf showing.aead
sender_at n = new_sender (record {
  cipher = zeros 32;
  base_nonce = zeros 12;
  exporter_secret = zeros 32;
  seq = n;
  raw_key = zeros 32;
})

sender-IsWellFormed : IsWellFormed (sender_at 0).inner
sender-IsWellFormed = record { nonce_size = refl; seq_bound = omega arith }

-- What was released, last first.
abbrev deliveries : List Delivery
deliveries =
    record {
      aad = literal "b";
      plain = literal "second";
      sealed = literal "second" ++ (zeros 11 ++ (1 ∷ zeros 4));
    }
    ∷ record { aad = literal "a"; plain = literal "first"; sealed = literal "first" ++ zeros 16 }
    ∷ []

first_released :
    Roles.seal showing (sender_at 0) (literal "a") (literal "first")
    ≡ (ok (literal "first" ++ zeros 16), sender_at 1)
unfolding Roles.seal Context.seal compute_nonce xor_bytes to_be_bytes cipher_seal
first_released = refl

bare_refused : Roles.seal showing (sender_at 1) [] (literal "lost") ≡ (err seal_error, sender_at 1)
unfolding Roles.seal Context.seal compute_nonce xor_bytes to_be_bytes cipher_seal
bare_refused = refl

second_released :
    Roles.seal showing (sender_at 1) (literal "b") (literal "second")
    ≡ (ok (literal "second" ++ (zeros 11 ++ (1 ∷ zeros 4))), sender_at 2)
unfolding Roles.seal Context.seal compute_nonce xor_bytes to_be_bytes cipher_seal
second_released = refl

run : Run showing (sender_at 0) (sender_at 2) deliveries
run =
    Run.released _ _ _
      (Run.failed {t = sender_at 1} [] (literal "lost") (err seal_error)
        (Run.released {t = sender_at 0} _ _ _ Run.start first_released) (λ ct. err-ne-ok)
        bare_refused)
      second_released

Run-Distinct_example :
    (nonces : List Bytes) × Distinct nonces × SealedUnder showing (zeros 32) nonces deliveries
Run-Distinct_example = Run-Distinct showing showing-SealsLawfully sender-IsWellFormed run

Run-counts_example :
    ((sender_at 2).inner ≡ (sender_at (0 + length deliveries)).inner)
    × (0 + length deliveries ≤ u64_max)
Run-counts_example = Run-counts showing showing-SealsLawfully sender-IsWellFormed run
