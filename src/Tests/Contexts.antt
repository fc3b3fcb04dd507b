-- ===== src/Tests/Contexts.antt =====
-- Examples on the contexts: one near its limit, and a fresh one that seals.
use mathlib.Core.List.{map}
use hpke_ng.Base.{ℕ, [], ◌∷◌, List, ◌++◌, ◌≡◌, ◌≢◌, ◌+◌, ◌-◌, ==_iff, length, refl, take, arith}
use hpke_ng.Bytes.{eq_bytes, Bytes, literal, zeros, xor_bytes, to_be_bytes}
use hpke_ng.Aead.Ciphers.{cipher_seal, cipher_open}
use hpke_ng.Error.{ok, err, err-ne-ok, message_limit_reached}
use hpke_ng.Aead.{Takes}
use hpke_ng.Context.{Context, compute_nonce, seal, open_ct, u64_max}
use hpke_ng.Context.Nonce.{IsWellFormed}
use hpke_ng.Context.Steps.{rfc_seal, rfc_open, seal-rfc_seal, open_ct-rfc_open}
use hpke_ng.Context.Roles
use hpke_ng.Context.Roles.{SenderContext, new_sender, new_receiver}
use hpke_ng.Context.Roles.Streams.{send_all}
use hpke_ng.Context.Roles.Limit.{TakesAll, message, send_all-limit, send_all-exhausted}
use hpke_ng.Tests.Crates.{kdf, cipher, cipher-SealsLawfully}
use hpke_ng.Tests.Group.{kem}

abbrev pub context_at : ℕ → Context kem.kem kdf cipher.aead
context_at n = record {
  cipher = zeros 32;
  base_nonce = zeros 12;
  exporter_secret = zeros 32;
  seq = n;
  raw_key = zeros 32;
}

pub fresh-IsWellFormed : IsWellFormed (context_at 0)
fresh-IsWellFormed = record { nonce_size = refl; seq_bound = omega arith }

last-IsWellFormed : IsWellFormed (context_at u64_max)
last-IsWellFormed = record { nonce_size = refl; seq_bound = omega arith }

seal-rfc_seal_example :
    seal cipher (context_at u64_max) (literal "aad") (literal "pt")
    ≡ rfc_seal cipher (context_at u64_max) (literal "aad") (literal "pt")
seal-rfc_seal_example =
    seal-rfc_seal cipher cipher-SealsLawfully (context_at u64_max) (literal "aad") (literal "pt")
      last-IsWellFormed

open_ct-rfc_open_example :
    open_ct cipher (context_at 0) (literal "aad") (literal "ct")
    ≡ rfc_open cipher (context_at 0) (literal "aad") (literal "ct")
open_ct-rfc_open_example =
    open_ct-rfc_open cipher cipher-SealsLawfully (context_at 0) (literal "aad") (literal "ct")
      fresh-IsWellFormed

abbrev messages : List (Bytes × Bytes)
messages = (literal "a", literal "first") ∷ (literal "b", literal "second") ∷ []

any_message : (aad pt : Bytes) → Takes cipher aad pt
unfolding cipher_seal
any_message aad pt c nonce h = (pt ++ zeros 16, rw ((==_iff _ _).1 h))

-- One message before the limit.
abbrev near_limit : SenderContext kem.kem kdf cipher.aead
near_limit = new_sender (context_at (u64_max - 1))

near_limit-IsWellFormed : IsWellFormed near_limit.inner
near_limit-IsWellFormed = record { nonce_size = refl; seq_bound = omega arith }

messages_taken : TakesAll cipher messages
messages_taken = (any_message _ _, (any_message _ _, tt))

send_all-limit_example :
    let (deliveries, end) = send_all cipher near_limit messages in
    (map message deliveries ≡ take (u64_max - (u64_max - 1)) messages)
    × (end.inner.seq ≡ u64_max - 1 + length deliveries)
send_all-limit_example =
    send_all-limit cipher cipher-SealsLawfully near_limit messages near_limit-IsWellFormed
      messages_taken

send_all-exhausted_example :
    let end = (send_all cipher near_limit messages).1 in
    Roles.seal cipher end (literal "c") (literal "third") ≡ (err message_limit_reached, end)
send_all-exhausted_example =
    send_all-exhausted cipher cipher-SealsLawfully near_limit messages (literal "c")
      (literal "third") near_limit-IsWellFormed messages_taken (omega arith)

-- A forged message, and two sealed ones.
abbrev pub forged : Bytes
forged = 9 ∷ []

abbrev pub first_sealed : Bytes
first_sealed = literal "first" ++ zeros 16

abbrev pub second_sealed : Bytes
second_sealed = literal "second" ++ zeros 16

pub forged_refused :
    (pt : Bytes)
    → (Roles.open_ct cipher (new_receiver (context_at 0)) (literal "a") forged).0 ≢ ok pt
unfolding Roles.open_ct open_ct compute_nonce xor_bytes to_be_bytes cipher_open eq_bytes
forged_refused pt e = err-ne-ok e
