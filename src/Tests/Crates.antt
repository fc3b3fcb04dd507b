-- ===== src/Tests/Crates.antt =====
-- Stand-ins for the crates `rand_core`, `hkdf` and `aes_gcm`, with the documented behaviour that
-- the theorems rely on.
use hpke_ng.Base.{
  zero, suc, ◌%◌, ◌<◌, ℕ, ◌+◌, ◌-◌, ◌≡◌, refl, ap, sym, ◌∙◌, ◌++◌, append_assoc, append-nil, none,
  some, if◌then◌else◌, leb, ◌==◌, le→leb, lt→leb, ==_iff, length, take, replicate, flatten,
  length-append, length-take_le, length-replicate, take-append, drop, drop-append, [], arith,
}
use hpke_ng.Bytes.{IsBytes, Bytes, zeros, eq_bytes}
use hpke_ng.Bytes.Slices.{eq_bytes_iff}
use hpke_ng.Kem.{CryptoRng, RngDocs}
use hpke_ng.Kdf
use hpke_ng.Kdf.{Kdf}
use hpke_ng.Kdf.Hkdf.{HkdfCrate, HkdfDocs, hkdf_sha256, hkdf_impl-IsLawful}
use hpke_ng.Aead.{SealingAead, SealsLawfully}
use hpke_ng.Aead.Ciphers.{AeadCrate, AeadDocs, aes_256_gcm, sealing_impl-SealsLawfully}

-- A generator that counts.
abbrev pub counting_rng : CryptoRng
counting_rng = record { State = ℕ; fill_bytes = λ n s. (replicate n (s % 256), s + 1) }

pub replicate-IsBytes : (n b : ℕ) → b < 256 → IsBytes (replicate n b)
replicate-IsBytes zero b h = tt
replicate-IsBytes (suc n) b h = (h, replicate-IsBytes n b h)

pub counting_rng_docs : RngDocs counting_rng
counting_rng_docs = record {
  length-fill_bytes = λ n s. length-replicate {A = ℕ} n (s % 256);
  fill_bytes-IsBytes = λ n s. replicate-IsBytes n (s % 256) (omega arith);
}

abbrev pub hkdf_of : ℕ → HkdfCrate
hkdf_of hash_len = record {
  Extract = Bytes;
  Prk = Bytes;
  extract_new = λ salt. salt;
  input_ikm = λ e ikm. e ++ ikm;
  finalize = λ e. take hash_len (e ++ zeros hash_len);
  from_prk = λ prk. if leb hash_len (length prk) then some prk else none;
  expand_multi_info = λ prk infos n. some (take n (flatten infos ++ (prk ++ zeros n)));
}

pub length-take_padded : (n : ℕ) (b : Bytes) → length (take n (b ++ zeros n)) ≡ n
length-take_padded n b =
    length-take_le n (b ++ zeros n)
      (omega (arith, length-append b (zeros n), length-replicate {A = ℕ} n 0))

pub hkdf_of-HkdfDocs : (hash_len : ℕ) → HkdfDocs (hkdf_of hash_len) hash_len
hkdf_of-HkdfDocs hash_len = record {
  input_ikm-append = λ e a b. append_assoc e a b;
  length-finalize = λ e. length-take_padded hash_len e;
  from_prk_long = λ prk h. (prk, rw (le→leb _ _ h));
  from_prk_short = λ prk h. rw (lt→leb _ _ h);
  expand-flatten = λ k ps n. rw (append-nil (flatten ps));
  expand_within = λ k ps n h. (
    take n (flatten ps ++ (k ++ zeros n)),
    refl,
    ap (λ b. length (take n b)) (sym (append_assoc (flatten ps) k (zeros n)))
        ∙ length-take_padded n (flatten ps ++ k),
  );
}

abbrev pub hkdf_crate : HkdfCrate
hkdf_crate = hkdf_of 32

pub hkdf_docs : HkdfDocs hkdf_crate 32
hkdf_docs = hkdf_of-HkdfDocs 32

abbrev pub kdf : Kdf
kdf = hkdf_sha256 hkdf_crate

pub kdf-IsLawful : Kdf.IsLawful kdf
kdf-IsLawful = hkdf_impl-IsLawful hkdf_crate 32 hkdf_docs 0x0001 (omega arith) (omega arith)

-- A cipher that hides nothing, and whose tag is of zeros.
abbrev pub aead_of : ℕ → AeadCrate
aead_of key_len = record {
  Cipher = Bytes;
  Nonce = Bytes;
  new_from_slice = λ key. if length key == key_len then some key else none;
  nonce_try_from = λ nonce. if length nonce == 12 then some nonce else none;
  encrypt = λ k n aad pt. some (pt ++ zeros 16);
  decrypt = λ k n aad ct.
      if eq_bytes (drop (length ct - 16) ct) (zeros 16)
      then some (take (length ct - 16) ct)
      else none;
}

some_inj : {a b : Bytes} → some a ≡ some b → a ≡ b
some_inj h = cc

decrypted :
    (pt : Bytes) {ct : Bytes} → pt ++ zeros 16 ≡ ct → (aead_of 32).decrypt [] [] [] ct ≡ some pt
decrypted pt h =
    let size : length (pt ++ zeros 16) - 16 ≡ length pt =
      omega (arith, length-append pt (zeros 16)) in
    rw (
      ← h,
      size,
      take-append pt (zeros 16) (length pt) refl,
      drop-append pt (zeros 16) (length pt) refl,
      (eq_bytes_iff (zeros 16) (zeros 16)).1 refl,
    )

pub aead_of-AeadDocs : (key_len : ℕ) → AeadDocs (aead_of key_len) key_len
aead_of-AeadDocs key_len = record {
  new_from_slice_right = λ key h. (key, rw ((==_iff _ _).1 h));
  new_from_slice_wrong = λ key h. ground arith;
  nonce_try_from_wrong = λ n h. ground arith;
  decrypt-encrypt = λ k n aad pt h. decrypted pt (some_inj h);
  length-encrypt =
      λ k n aad pt h. ap length (sym (some_inj h)) ∙ omega (arith, length-append pt (zeros 16));
}

abbrev pub aead_crate : AeadCrate
aead_crate = aead_of 32

pub aead_docs : AeadDocs aead_crate 32
aead_docs = aead_of-AeadDocs 32

abbrev pub cipher : SealingAead
cipher = aes_256_gcm aead_crate

pub cipher-SealsLawfully : SealsLawfully cipher
cipher-SealsLawfully = sealing_impl-SealsLawfully aead_crate 32 aead_docs 0x0002 (omega arith)
