-- ===== src/Context/Nonce.antt =====
-- src/context.rs: the invariant of a context, and proofs on `compute_nonce` beside the nonce of RFC 9180.
use native.Mathlib.Nat.{pow-le-pow_right, le_trans}
use hpke_ng.Base.{
  ℕ, ◌+◌, ◌-◌, ◌^◌, ◌≤◌, ◌<◌, ◌++◌, ◌≡◌, sym, ap, subst, ◌∙◌, le→leb, ==_iff, length, take, drop,
  take-append, drop-append, length-append, length-replicate, length-take_le, length-drop,
  take-append-drop, append_assoc, arith,
}
use hpke_ng.Bytes.{Bytes, zeros, to_be_bytes, xor_bytes}
use hpke_ng.Bytes.BigEndian.{length-to_be_bytes, to_be_bytes_inj, to_be_bytes_pad}
use hpke_ng.Bytes.Xor.{length-xor_bytes, xor_bytes_inj, xor_bytes-append, xor_bytes-zeros}
use hpke_ng.Error.{ok}
use hpke_ng.Kdf.{Kdf}
use hpke_ng.Aead.{Aead}
use hpke_ng.Kem.{CryptoRng, Kem}
use hpke_ng.Context.{Context, u64_max, compute_nonce, mask_seq}

-- The invariant of a context: its buffer has 12 bytes and its counter is a `u64`.
pub record IsWellFormed {R : CryptoRng} {K : Kem R} {F : Kdf} {A : Aead} (c : Context K F A)
    : Type 0 where
  pub nonce_size : length c.base_nonce ≡ 12
  pub seq_bound : c.seq ≤ u64_max

-- RFC 9180 §5.2: `xor(base_nonce, I2OSP(seq, Nn))`.
unfoldable pub rfc_nonce : Bytes → ℕ → ℕ → Bytes
rfc_nonce base nn seq = xor_bytes (take nn base) (to_be_bytes nn seq)

pub length-rfc_nonce :
    (base : Bytes) (nn seq : ℕ) → nn ≤ 12 → length base ≡ 12 → length (rfc_nonce base nn seq) ≡ nn
unfolding rfc_nonce
length-rfc_nonce base nn seq hi size = omega (
  arith,
  length-xor_bytes (take nn base) (to_be_bytes nn seq),
  length-take_le nn base (omega arith),
)

-- Masking a buffer that is made of a head, eight bytes and a rest changes the eight bytes.
take-mask_seq :
    (at seq : ℕ) (p q z : Bytes)
    → length p ≡ at
    → length q ≡ 8
    → take (8 + at) (mask_seq (8 + at) seq (p ++ (q ++ z))) ≡ p ++ xor_bytes q (to_be_bytes 8 seq)
unfolding mask_seq
take-mask_seq at seq p q z hp hq =
    let masked = xor_bytes q (to_be_bytes 8 seq) in
    let back : 8 + at - 8 ≡ at = omega arith in
    let size : length (p ++ masked) ≡ 8 + at =
      omega (arith, length-append p masked, length-xor_bytes q (to_be_bytes 8 seq)) in
    rw (back, take-append p (q ++ z) at hp, drop-append p (q ++ z) at hp, take-append q z 8 hq)
      (ap (take (8 + at)) (sym (append_assoc p masked (drop (8 + at) (p ++ (q ++ z)))))
        ∙ take-append (p ++ masked) (drop (8 + at) (p ++ (q ++ z))) (8 + at) size)

rfc_nonce_parts :
    (at seq : ℕ) (p q : Bytes)
    → length p ≡ at
    → seq < 256 ^ 8
    → xor_bytes (p ++ q) (to_be_bytes (8 + at) seq) ≡ p ++ xor_bytes q (to_be_bytes 8 seq)
rfc_nonce_parts at seq p q hp h = rw (to_be_bytes_pad at 8 seq h) (
    xor_bytes-append p q (zeros at) (to_be_bytes 8 seq) (hp ∙ sym (length-replicate at 0))
    ∙ ap (λ r. r ++ xor_bytes q (to_be_bytes 8 seq))
        (subst (λ k. xor_bytes p (zeros k) ≡ p) hp (xor_bytes-zeros p)))

mask_seq_at :
    (at seq : ℕ) (b z : Bytes)
    → length b ≡ 8 + at
    → seq < 256 ^ 8
    → take (8 + at) (mask_seq (8 + at) seq (b ++ z)) ≡ xor_bytes b (to_be_bytes (8 + at) seq)
mask_seq_at at seq b z size h =
    subst
      (λ (l : Bytes).
        take (8 + at) (mask_seq (8 + at) seq (l ++ z)) ≡ xor_bytes l (to_be_bytes (8 + at) seq))
      (take-append-drop at b)
      (rw append_assoc (take-mask_seq at seq (take at b) (drop at b) z head_size tail_size)
        ∙ sym (rfc_nonce_parts at seq (take at b) (drop at b) head_size h))
  where
    head_size : length (take at b) ≡ at
    head_size = length-take_le at b (omega arith)

    tail_size : length (drop at b) ≡ 8
    tail_size = omega (arith, length-drop at b)

mask_seq-rfc :
    (nn seq : ℕ) (b z : Bytes)
    → 8 ≤ nn
    → length b ≡ nn
    → seq < 256 ^ 8
    → take nn (mask_seq nn seq (b ++ z)) ≡ xor_bytes b (to_be_bytes nn seq)
mask_seq-rfc nn seq b z lo size h =
    let e : 8 + (nn - 8) ≡ nn = omega arith in
    subst (λ k. take k (mask_seq k seq (b ++ z)) ≡ xor_bytes b (to_be_bytes k seq)) e
      (mask_seq_at (nn - 8) seq b z (omega arith) h)

-- A `u64` is written in any number of bytes from 8 on.
in_range : {nn seq : ℕ} → 8 ≤ nn → seq ≤ u64_max → seq < 256 ^ nn
in_range {nn} lo h = le_trans (omega arith) (pow-le-pow_right {n = 256} (omega arith) lo)

-- At a nonce length from 8 to 12 and over a base nonce of 12 bytes, two `u64` counter values share
-- a nonce only if they are one.
pub rfc_nonce_inj :
    (nn : ℕ) (base : Bytes) (m n : ℕ)
    → 8 ≤ nn
    → nn ≤ 12
    → length base ≡ 12
    → m ≤ u64_max
    → n ≤ u64_max
    → rfc_nonce base nn m ≡ rfc_nonce base nn n
    → m ≡ n
unfolding rfc_nonce
rfc_nonce_inj nn base m n lo hi size hm hn e =
    let taken : length (take nn base) ≡ nn = length-take_le nn base (omega arith) in
    to_be_bytes_inj nn m n (in_range lo hm) (in_range lo hn) (
      xor_bytes_inj (take nn base) _ _ (length-to_be_bytes _ _ ∙ sym taken)
        (length-to_be_bytes _ _ ∙ sym taken) e)

module _ {R : CryptoRng} {K : Kem R} {F : Kdf} {A : Aead} where
  module _ (lo : 8 ≤ A.nonce_len) (hi : A.nonce_len ≤ 12) where
    -- With a nonce length from 8 to 12, a well-formed context computes a nonce without a panic,
    -- and the part that the cipher reads is the nonce of the RFC.
    pub compute_nonce-rfc :
        (c : Context K F A)
        → IsWellFormed c
        → (nonce : Bytes) × (compute_nonce c ≡ ok nonce)
          × (take A.nonce_len nonce ≡ rfc_nonce c.base_nonce A.nonce_len c.seq)
    unfolding compute_nonce rfc_nonce
    compute_nonce-rfc c wf =
        let b = take A.nonce_len c.base_nonce in
        let size : length b ≡ A.nonce_len =
          length-take_le A.nonce_len c.base_nonce (omega (arith, wf.nonce_size)) in
        let z = drop A.nonce_len (zeros 12) in
        (
          mask_seq A.nonce_len c.seq (b ++ z),
          rw (le→leb _ _ lo, le→leb _ _ hi, (==_iff _ _).1 size),
          mask_seq-rfc A.nonce_len c.seq b z lo size (omega (arith, wf.seq_bound)),
        )

    -- With a nonce length from 8 to 12, two well-formed contexts with one base nonce compute
    -- nonces that the cipher reads as one only at one counter value.
    pub compute_nonce_inj :
        (c c' : Context K F A) {nonce nonce' : Bytes}
        → IsWellFormed c
        → IsWellFormed c'
        → c.base_nonce ≡ c'.base_nonce
        → compute_nonce c ≡ ok nonce
        → compute_nonce c' ≡ ok nonce'
        → take A.nonce_len nonce ≡ take A.nonce_len nonce'
        → c.seq ≡ c'.seq
    compute_nonce_inj c c' wf wf' same e e' h =
        let (n, given, spec) = compute_nonce-rfc c wf in
        let (n', given', spec') = compute_nonce-rfc c' wf' in
        rfc_nonce_inj A.nonce_len c.base_nonce c.seq c'.seq lo hi wf.nonce_size wf.seq_bound
          wf'.seq_bound (cc)
