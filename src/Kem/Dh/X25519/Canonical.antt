-- ===== src/Kem/Dh/X25519/Canonical.antt =====
-- src/kem/dh.rs: proofs on the stored form of X25519 keys, beside RFC 7748.
use hpke_ng.Base.{
  ℕ, ◌%◌, ◌≤◌, ◌<◌, ◌≡◌, ◌≢◌, refl, sym, ap, ◌∙◌, subst, false, some, get_elem?, ◌==◌, ==_iff, leb,
  ltb, bit_and, bit_or, length, not, ◌&&◌, ◌||◌, arith,
}
use hpke_ng.Bytes.{Bytes, IsBytes, modify}
use hpke_ng.Bytes.Slices.{copy_array_ok, length-modify, modify_fixed}
use hpke_ng.Bytes.Modify.{
  all_below_lem, get_elem?-IsBytes, get_elem?-modify, get_elem?-modify_other,
}
use hpke_ng.Error.{ok, err, invalid_public_key}
use hpke_ng.Kem.Dh.X25519.{
  DalekCrate, DalekDocs, X25519PrivateKeyWrap, X25519PublicKeyWrap, clamp, sk_from_bytes,
  sk_to_bytes, pk_from_bytes,
}

-- The masks on a byte.
and_f8_bounds : (x : ℕ) → x < 256 → (bit_and x 0xf8 % 8 ≡ 0) × (bit_and x 0xf8 < 256)
and_f8_bounds x h =
    let t =
      all_below_lem 256 (λ x. (bit_and x 0xf8 % 8 == 0) && ltb (bit_and x 0xf8) 256) refl x h in
    ground arith

and_f8_fixed : (x : ℕ) → x < 256 → x % 8 ≡ 0 → bit_and x 0xf8 ≡ x
and_f8_fixed x h m =
    let t = all_below_lem 256 (λ x. not (x % 8 == 0) || (bit_and x 0xf8 == x)) refl x h in
    ground arith

set_bit_bounds :
    (y : ℕ) → y < 256 → (64 ≤ bit_or (bit_and y 0x7f) 0x40) × (bit_or (bit_and y 0x7f) 0x40 < 128)
set_bit_bounds y h =
    let t =
      all_below_lem 256
        (λ y. leb 64 (bit_or (bit_and y 0x7f) 0x40) && ltb (bit_or (bit_and y 0x7f) 0x40) 128) refl
        y h in
    ground arith

pub and_7f_fixed : (y : ℕ) → y < 128 → bit_and y 0x7f ≡ y
and_7f_fixed y h = let t = all_below_lem 128 (λ y. bit_and y 0x7f == y) refl y h in ground arith

and_7f_bound : (y : ℕ) → y < 256 → bit_and y 0x7f < 128
and_7f_bound y h =
    let t = all_below_lem 256 (λ y. ltb (bit_and y 0x7f) 128) refl y h in ground arith

or_40_fixed : (y : ℕ) → 64 ≤ y → y < 128 → bit_or y 0x40 ≡ y
or_40_fixed y lo h =
    let t = all_below_lem 128 (λ y. ltb y 64 || (bit_or y 0x40 == y)) refl y h in ground arith

-- RFC 7748: the first byte is a multiple of 8, and the last is from 64 to 127.
pub record IsClamped (bytes : Bytes) : Type 0 where
  pub size : length bytes ≡ 32
  pub first : (x : ℕ) → get_elem? bytes 0 ≡ some x → (x % 8 ≡ 0) × (x < 256)
  pub last : (y : ℕ) → get_elem? bytes 31 ≡ some y → (64 ≤ y) × (y < 128)

pub clamp-IsClamped : (bytes : Bytes) → length bytes ≡ 32 → IsBytes bytes → IsClamped (clamp bytes)
unfolding clamp
clamp-IsClamped bytes n bound =
    let low : Bytes = modify 0 (λ b. bit_and b 0xf8) bytes in
    let mid : Bytes = modify 31 (λ b. bit_and b 0x7f) low in
    record {
      size = length-modify 31 _ mid ∙ length-modify 31 _ low ∙ length-modify 0 _ bytes ∙ n;
      first = λ x e.
          let (b, there, is) =
            get_elem?-modify 0 (λ b. bit_and b 0xf8) bytes x
              (sym (get_elem?-modify_other 31 0 _ low (λ h. absurd (omega (arith, h))))
                ∙ sym (
                    get_elem?-modify_other 31 0 (λ b. bit_or b 0x40) mid
                      (λ h. absurd (omega (arith, h))))
                ∙ e) in
          let bounds = and_f8_bounds b (get_elem?-IsBytes bytes 0 b bound there) in
          (ap (λ z. z % 8) (sym is) ∙ bounds.0, omega (arith, bounds.1, is));
      last = λ y e.
          let (m, there, is) = get_elem?-modify 31 (λ b. bit_or b 0x40) mid y e in
          let (b, there', is') = get_elem?-modify 31 (λ b. bit_and b 0x7f) low m there in
          let here : get_elem? bytes 31 ≡ some b =
            sym (get_elem?-modify_other 0 31 _ bytes (λ h. absurd (omega (arith, h)))) ∙ there' in
          let value : bit_or (bit_and b 0x7f) 0x40 ≡ y = ap (λ z. bit_or z 0x40) is' ∙ is in
          let bounds = set_bit_bounds b (get_elem?-IsBytes bytes 31 b bound here) in
          (omega (arith, bounds.0, value), omega (arith, bounds.1, value));
    }

pub clamp_fixed : (bytes : Bytes) → IsClamped bytes → clamp bytes ≡ bytes
unfolding clamp
clamp_fixed bytes c =
    let low =
      modify_fixed 0 (λ b. bit_and b 0xf8) bytes
        (λ x e. and_f8_fixed x (c.first x e).1 (c.first x e).0) in
    let mid = modify_fixed 31 (λ b. bit_and b 0x7f) bytes (λ y e. and_7f_fixed y (c.last y e).1) in
    let high =
      modify_fixed 31 (λ b. bit_or b 0x40) bytes
        (λ y e. or_40_fixed y (c.last y e).0 (c.last y e).1) in
    rw (low, mid, high)

module _ (d : DalekCrate) (docs : DalekDocs d) where
  -- Over a crate that behaves as documented, 32 bytes, each below 256, are read as an X25519
  -- private key whose serialization is their clamped form: its first byte is a multiple of 8, its
  -- last one is from 64 to 127, and reading it back gives the key.
  pub sk_from_bytes-sk_to_bytes :
      (b : Bytes)
      → length b ≡ 32
      → IsBytes b
      → (sk : X25519PrivateKeyWrap d) × (sk_from_bytes d b ≡ ok sk)
        × (sk_to_bytes d sk ≡ clamp b)
        × IsClamped (sk_to_bytes d sk)
        × (sk_from_bytes d (sk_to_bytes d sk) ≡ ok sk)
  unfolding sk_from_bytes sk_to_bytes
  sk_from_bytes-sk_to_bytes b n bound =
      let clamped = clamp-IsClamped b n bound in
      let same = docs.to_bytes-secret_from (clamp b) clamped.size in
      (
        record { secret = d.secret_from (clamp b) },
        rw ((==_iff _ _).1 n, copy_array_ok 32 b n),
        same,
        subst IsClamped (sym same) clamped,
        rw (
          same,
          (==_iff _ _).1 clamped.size,
          copy_array_ok 32 (clamp b) clamped.size,
          clamp_fixed (clamp b) clamped,
        ),
      )

-- Bytes, each below 256, are read as an X25519 public key exactly if there are 32 of them; the key
-- differs from them in the last byte at most, which is below 128 in the key, and the key's bytes
-- are read back as the key. Any other number of bytes gives `InvalidPublicKey`.
pub pk_from_bytes-outcome :
    (d : DalekCrate) (b : Bytes)
    → IsBytes b
    → (length b ≡ 32
        → (pk : X25519PublicKeyWrap) × (pk_from_bytes d b ≡ ok pk)
          × (length pk.bytes ≡ 32)
          × ((i : ℕ) → i ≢ 31 → get_elem? pk.bytes i ≡ get_elem? b i)
          × ((y : ℕ) → get_elem? pk.bytes 31 ≡ some y → y < 128)
          × (pk_from_bytes d pk.bytes ≡ ok pk))
      × (length b ≢ 32 → pk_from_bytes d b ≡ err invalid_public_key)
unfolding pk_from_bytes
pk_from_bytes-outcome d b bound = (
  λ n.
      let masked : Bytes = modify 31 (λ x. bit_and x 0x7f) b in
      let size : length masked ≡ 32 = length-modify 31 _ b ∙ n in
      let last : (y : ℕ) → get_elem? masked 31 ≡ some y → y < 128 = λ y e.
        let (x, there, is) = get_elem?-modify 31 (λ x. bit_and x 0x7f) b y e in
        omega (arith, and_7f_bound x (get_elem?-IsBytes b 31 x bound there), is) in
      (
        record { bytes = masked },
        rw ((==_iff _ _).1 n, copy_array_ok 32 b n),
        size,
        λ i other. get_elem?-modify_other 31 i _ b (λ e. other (sym e)),
        last,
        rw (
          (==_iff _ _).1 size,
          copy_array_ok 32 masked size,
          modify_fixed 31 _ masked (λ y e. and_7f_fixed y (last y e)),
        ),
      ),
  λ n. let wrong : (length b == 32) ≡ false = ground arith in rw wrong,
)
