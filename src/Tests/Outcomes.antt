-- ===== src/Tests/Outcomes.antt =====
-- Examples on the outcomes of the calls, over the stand-in of a group.
use hpke_ng.Base.{ℕ, [], ◌∷◌, ◌≡◌, ◌⊎◌, arith, length}
use hpke_ng.Bytes.{Bytes, zeros}
use hpke_ng.Error.{HpkeError, ok, err, Returns}
use hpke_ng.Kem.{AuthIsPanicFree}
use hpke_ng.Kem.Dh
use hpke_ng.Kem.Dh.{DhSharedSecret, decap, auth_decap}
use hpke_ng.Kem.Dh.Outcome.{auth_decap-outcome}
use hpke_ng.Kem.Dh.PanicFree.{dh_auth_kem-AuthIsPanicFree}
use hpke_ng.Hpke.Seal.{seal_base, open_base, seal_psk, open_psk, open_auth, open_auth_psk}
use hpke_ng.Hpke.Outcome.{Opens, Seals, open-outcome, open_auth-outcome, seal-outcome}
use hpke_ng.Tests.Crates.{kdf, kdf-IsLawful, cipher, cipher-SealsLawfully}
use hpke_ng.Tests.Group.{group, kem, agree, read_public, read_private}
use hpke_ng.Tests.Modes.{private_of, public_of, enc, info, aad, pt, psk}

agree-Returns : (a : ℕ) (b : Bytes) → Returns (agree a b)
agree-Returns a [] = tt
agree-Returns a (b ∷ bs) = tt

read_public-Returns : (b : Bytes) → Returns (read_public b)
read_public-Returns [] = tt
read_public-Returns (b ∷ []) = tt
read_public-Returns (b ∷ c ∷ bs) = tt

read_private-Returns : (b : Bytes) → Returns (read_private b)
read_private-Returns [] = tt
read_private-Returns (b ∷ bs) = tt

group-IsPanicFree : Dh.IsPanicFree group
group-IsPanicFree = record {
  derive = λ ikm. tt;
  dh = agree-Returns;
  pk_from_bytes = read_public-Returns;
  sk_from_bytes = read_private-Returns;
  sk_zeroize = λ sk. tt;
}

kem_free : AuthIsPanicFree kem
kem_free = dh_auth_kem-AuthIsPanicFree group kdf-IsLawful (omega arith) group-IsPanicFree

auth_decap-outcome_example :
    ((e : HpkeError) × (read_public (9 ∷ []) ≡ err e)
      × (auth_decap group enc (private_of 3) (public_of 5) ≡ err e))
    ⊎ ((pk_e : Bytes) × (e : HpkeError) × (read_public (9 ∷ []) ≡ ok pk_e)
        × ((agree 3 pk_e ≡ err e) ⊎ (agree 3 (5 ∷ []) ≡ err e))
        × (auth_decap group enc (private_of 3) (public_of 5) ≡ err e))
    ⊎ ((pk_e : Bytes) × (dh1 : Bytes) × (dh2 : Bytes) × (ss : DhSharedSecret) × (read_public
            (9 ∷ [])
          ≡ ok pk_e)
        × (agree 3 pk_e ≡ ok dh1)
        × (agree 3 (5 ∷ []) ≡ ok dh2)
        × (auth_decap group enc (private_of 3) (public_of 5) ≡ ok ss)
        × (length ss.bytes ≡ 32))
auth_decap-outcome_example =
    auth_decap-outcome group kdf-IsLawful (omega arith) group-IsPanicFree enc (private_of 3)
      (public_of 5)

open-outcome_example :
    Opens
      (kem.kem.decap enc (private_of 3))
      (open_base kem.kem kdf cipher enc (private_of 3) info aad (zeros 20))
    × Opens
        (kem.kem.decap enc (private_of 3))
        (open_psk kem.kem kdf cipher enc (private_of 3) info aad (zeros 20) psk)
open-outcome_example =
    open-outcome kem.kem kdf cipher kem_free.is_panic_free kdf-IsLawful cipher-SealsLawfully enc
      (private_of 3) info aad (zeros 20) psk

open_auth-outcome_example :
    Opens
      (kem.auth_decap enc (private_of 3) (public_of 5))
      (open_auth kem kdf cipher enc (private_of 3) info aad (zeros 20) (public_of 5))
    × Opens
        (kem.auth_decap enc (private_of 3) (public_of 5))
        (open_auth_psk kem kdf cipher enc (private_of 3) info aad (zeros 20) psk (public_of 5))
open_auth-outcome_example =
    open_auth-outcome kem kdf cipher kem_free kdf-IsLawful cipher-SealsLawfully enc (private_of 3)
      (public_of 5) info aad (zeros 20) psk

seal-outcome_example :
    Seals
      (kem.kem.encap 9 (public_of 3)).0
      (seal_base kem.kem kdf cipher 9 (public_of 3) info aad pt).0
    × Seals
        (kem.kem.encap 9 (public_of 3)).0
        (seal_psk kem.kem kdf cipher 9 (public_of 3) info aad pt psk).0
seal-outcome_example =
    seal-outcome kem.kem kdf cipher kem_free.is_panic_free kdf-IsLawful cipher-SealsLawfully 9
      (public_of 3) info aad pt psk
