-- ===== src/Kem/Pq/Derive.antt =====
-- src/kem/pq.rs: proofs on the labeled derivation.
use hpke_ng.Base.{ℕ, ◌≡◌, refl, true, ltb, length}
use hpke_ng.Bytes.{Bytes}
use hpke_ng.Error.{ok}
use hpke_ng.Kem.Pq.{ShakeCrate, ShakeDocs, shake256_labeled_derive, derive_key_pair_label}

-- Under the label of the callers, an output length that a `u16` holds is given exactly.
pub shake256_labeled_derive_total :
    (s : ShakeCrate)
    → ShakeDocs s
    → (suite_id ikm : Bytes) (n : ℕ) → ltb n 65536 ≡ true
    → (out : Bytes) × (shake256_labeled_derive s suite_id derive_key_pair_label ikm n ≡ ok out)
      × (length out ≡ n)
unfolding shake256_labeled_derive
shake256_labeled_derive_total s docs suite_id ikm n small = rw small (_, refl, docs.length-read _ n)
