-- ===== src/Bytes.antt =====
-- Byte strings: `&[u8]`, `Vec<u8>` and `[u8; n]` are lists of numbers. Byte-string literals,
-- `[0u8; n]`, `uN::to_be_bytes` and the exclusive or of slices.
pub mod BigEndian
pub mod Xor
pub mod Slices
pub mod Modify
use Prim.Native.Char.{code}
use Prim.Native.String
use hpke_ng.Base.{
  ℕ, zero, suc, ◌/◌, ◌%◌, ◌<◌, ◌==◌, Bool, true, false, ◌&&◌, List, [], ◌∷◌, ◌++◌, String, bit_xor,
  replicate,
}

abbrev pub Bytes : Type 0
Bytes = List ℕ

-- Each element is a `u8`.
abbrev pub IsBytes : Bytes → Type 0
IsBytes [] = Unit
IsBytes (b ∷ bs) = (b < 256) × IsBytes bs

-- The bytes of an ASCII literal `b"…"`.
abbrev pub literal : String → Bytes
literal String.[] = []
literal (String.◌∷◌ c s) = code c ∷ literal s

-- `[0u8; n]`
abbrev pub zeros : ℕ → Bytes
zeros n = replicate n 0

-- `to_be_bytes` of a number of `w` bytes: the most significant byte first.
unfoldable pub to_be_bytes : ℕ → ℕ → Bytes
to_be_bytes zero n = []
to_be_bytes (suc w) n = to_be_bytes w (n / 256) ++ n % 256 ∷ []

-- `for (dst, &b) in dst.iter_mut().zip(src) { *dst ^= b; }`: past the end of the shorter
-- slice nothing changes.
unfoldable pub xor_bytes : Bytes → Bytes → Bytes
xor_bytes [] src = []
xor_bytes (d ∷ dst) [] = d ∷ dst
xor_bytes (d ∷ dst) (b ∷ src) = bit_xor d b ∷ xor_bytes dst src

-- `==` on slices; `ct_eq` gives the same, in constant time.
unfoldable pub eq_bytes : Bytes → Bytes → Bool
eq_bytes [] [] = true
eq_bytes [] (c ∷ cs) = false
eq_bytes (b ∷ bs) [] = false
eq_bytes (b ∷ bs) (c ∷ cs) = b == c && eq_bytes bs cs

-- `bytes[i] = f(bytes[i])` in an array that has the index.
unfoldable pub modify : ℕ → (ℕ → ℕ) → Bytes → Bytes
modify i f [] = []
modify zero f (b ∷ bs) = f b ∷ bs
modify (suc i) f (b ∷ bs) = b ∷ modify i f bs
