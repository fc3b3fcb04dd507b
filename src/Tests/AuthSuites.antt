-- ===== src/Tests/AuthSuites.antt =====
-- An example of a suite with a KEM over a group, with a sender's key pair and a PSK.
use hpke_ng.Base.{none, length, ℕ, ◌≡◌, ap, ◌+◌, ◌++◌, ◌∷◌, [], some, refl, arith, ==_iff}
use hpke_ng.Bytes.{Bytes, literal, zeros, to_be_bytes, eq_bytes}
use hpke_ng.Bytes.Slices.{index}
use hpke_ng.Error.{Result, ok}
use hpke_ng.Kdf.{Kdf, labeled_extract, labeled_extract_pieces, labeled_expand_pieces, write_pieces}
use hpke_ng.Kdf.Hkdf.{hkdf_extract, hkdf_expand, input_all}
use hpke_ng.Aead.{SealingAead, Takes, SealsLawfully}
use hpke_ng.Aead.Ciphers.{cipher_seal, sealing_impl-SealsLawfully}
use hpke_ng.Kem.{AuthKem, AuthIsCorrect, kem_suite_id}
use hpke_ng.Kem.Dh
use hpke_ng.Kem.Dh.{
  DhPrivateKey, DhPublicKey, DhEncappedKey, DhSharedSecret, encap_with, encap_secret,
  extract_and_expand, extract_and_expand_pieces, suite_id,
}
use hpke_ng.Kem.Dh.Nist
use hpke_ng.Kem.Instances.Laws.{sha256-IsLawful, kems-AreCorrect}
use hpke_ng.Schedule.Rfc.{IsFresh}
use hpke_ng.Context.{Context}
use hpke_ng.Context.Roles
use hpke_ng.Context.Roles.{SenderContext, new_sender, new_receiver}
use hpke_ng.Context.Roles.Limit.{seal_taken}
use hpke_ng.Context.Roles.Channel.{Event, delivery, sends, next, done}
use hpke_ng.Hpke.RoundTrip.{open_auth_psk-seal_auth_psk}
use hpke_ng.Hpke.Agree.{setup_auth_psk_agrees}
use hpke_ng.Hpke.Wire.{
  read_both, sent_as_bytes, received_as_bytes, seal_with, open_with, seal_auth_with, open_auth_with,
  setup_auth_sender_with, setup_auth_receiver_with,
}
use hpke_ng.Suites.{
  group_named, auth_kem_named, kdf_named, aead_named, p256_hkdf_sha256, sha256_kdf, aes_256,
}
use hpke_ng.Suites.Groups.{suites_deliver_agreed}
use hpke_ng.Suites.Delivered.{suites_deliver_auth}
use hpke_ng.Suites.Sessions.{InSession, suites_session_auth}
use hpke_ng.Tests.Crates.{counting_rng, aead_of, aead_of-AeadDocs}
use hpke_ng.Tests.Instances.{crates, crates_docs}
use hpke_ng.Tests.Modes.{psk}
use hpke_ng.Tests.Suites.{ciphers, docs}

abbrev K : AuthKem counting_rng
K = auth_kem_named crates p256_hkdf_sha256

abbrev F : Kdf
F = kdf_named crates sha256_kdf

abbrev S : SealingAead
S = aead_named ciphers aes_256

K_correct : AuthIsCorrect K
K_correct = (kems-AreCorrect crates crates_docs).p256

S-SealsLawfully : SealsLawfully S
S-SealsLawfully =
    sealing_impl-SealsLawfully (aead_of 32) 32 (aead_of-AeadDocs 32) 0x0002 (omega arith)

-- The receiver's pair is of 3, the sender's of 5, and the ephemeral one of 9.
abbrev private_of : ℕ → K.kem.PrivateKey
private_of n = record { sk = record { secret = n }; pk_bytes = 4 ∷ n ∷ zeros 63 }

abbrev public_of : ℕ → K.kem.PublicKey
public_of n = record { key = record { pk = n; encoded = 4 ∷ n ∷ zeros 63 } }

abbrev enc : K.kem.EncappedKey
enc = record { bytes = 4 ∷ 9 ∷ zeros 63 }

generated : (n : ℕ) → K.kem.generate n ≡ (ok (private_of n, public_of n), n + 1)
unfolding Dh.generate Dh.from_pair Nist.generate Nist.make_pk
generated n = refl

auth_encapped :
    (ss : K.kem.SharedSecret) × (K.auth_encap 9 (public_of 3) (private_of 5) ≡ (ok (ss, enc), 10))
unfolding encap_with encap_secret extract_and_expand extract_and_expand_pieces suite_id kem_suite_id
    labeled_extract labeled_extract_pieces labeled_expand_pieces write_pieces hkdf_extract
    hkdf_expand input_all to_be_bytes Nist.generate Nist.make_pk Nist.dh eq_bytes
auth_encapped = (_, refl)

-- The sender's keys, and the receiver's, as they read them.
abbrev sender_keys : Result (K.kem.PublicKey × K.kem.PrivateKey)
sender_keys =
    read_both (K.kem.pk_from_bytes (K.kem.pk_to_bytes (public_of 3)))
      (K.kem.sk_from_bytes (K.kem.sk_to_bytes (private_of 5)))

abbrev receiver_keys : Result (K.kem.PublicKey × K.kem.PrivateKey)
receiver_keys =
    read_both (K.kem.pk_from_bytes (K.kem.pk_to_bytes (public_of 5)))
      (K.kem.sk_from_bytes (K.kem.sk_to_bytes (private_of 3)))

keys_read : sender_keys ≡ ok (public_of 3, private_of 5)
unfolding Dh.pk_from_bytes Dh.sk_from_bytes Dh.from_sk Nist.pk_from_bytes Nist.sk_from_bytes
    Nist.sk_to_pk Nist.make_pk index
keys_read = refl

takes : Takes S (literal "aad") (literal "hello")
unfolding cipher_seal
takes c nonce h = (literal "hello" ++ zeros 16, rw ((==_iff _ _).1 h))

sealed :
    (ct : Bytes) × (sent_as_bytes K.kem sender_keys
        (seal_auth_with K F S (some psk) 9 (literal "info") (literal "aad") (literal "hello"))
      ≡ ok (enc.bytes, ct))
sealed =
    let (ct, given, _, _) =
      open_auth_psk-seal_auth_psk K F S K_correct (sha256-IsLawful crates crates_docs)
        S-SealsLawfully 9 10 (private_of 3) (private_of 5) (public_of 3) (public_of 5)
        (literal "info") psk (literal "aad") (literal "hello")
        (K_correct.is_correct.generate-Paired 3 4 (generated 3))
        (K_correct.is_correct.generate-Paired 5 6 (generated 5)) auth_encapped.1 takes in
    (ct, rw (keys_read, ap (λ p. p.0) given))

suites_deliver_auth_example :
    received_as_bytes K.kem receiver_keys
      (open_auth_with K F S (some psk) (literal "info") (literal "aad") sealed.0)
      enc.bytes
    ≡ ok (literal "hello")
suites_deliver_auth_example =
    suites_deliver_auth crates ciphers docs p256_hkdf_sha256 sha256_kdf aes_256 (some psk) 3 4 5 6 9
      (private_of 3) (private_of 5) (public_of 3) (public_of 5) (literal "info") (literal "aad")
      (literal "hello") enc.bytes sealed.0 (generated 3) (generated 5) sealed.1

-- A session in which one message is in flight.
begun :
    (c : Context K.kem F S.aead) × (sent_as_bytes K.kem sender_keys
        (setup_auth_sender_with K F S.aead (some psk) 9 (literal "info"))
      ≡ ok (enc.bytes, new_sender c))
    × IsFresh c
begun =
    let (c, given, _, fresh) =
      setup_auth_psk_agrees K F S.aead K_correct (sha256-IsLawful crates crates_docs)
        S-SealsLawfully.is_lawful 9 10 (private_of 3) (private_of 5) (public_of 3) (public_of 5)
        (literal "info") psk (K_correct.is_correct.generate-Paired 3 4 (generated 3))
        (K_correct.is_correct.generate-Paired 5 6 (generated 5)) auth_encapped.1 in
    (c, rw (keys_read, ap (λ p. p.0) given), fresh)

one_sent :
    (s : SenderContext K.kem F S.aead) × (ct : Bytes) × (Roles.seal S
        (new_sender begun.0)
        (literal "aad")
        (literal "hello")
      ≡ (ok ct, s))
unfolding Roles.seal
one_sent =
    let (ct, sealed, _) =
      seal_taken S S-SealsLawfully begun.0 (literal "aad") (literal "hello") begun.2.well_formed
        (rw begun.2.at_start) takes in
    (
      new_sender (record begun.0 { seq = begun.0.seq + 1 }),
      ct,
      ap (λ p. (p.0, new_sender p.1)) sealed,
    )

suites_session_auth_example :
    InSession S
      (received_as_bytes K.kem receiver_keys
        (setup_auth_receiver_with K F S.aead (some psk) (literal "info"))
        enc.bytes)
      (new_sender begun.0)
      (Event.sent (literal "aad") (literal "hello") ∷ [])
      (record {
        sender = one_sent.0;
        in_flight = delivery (literal "aad") (literal "hello") one_sent.1 ∷ [];
        receiver = new_receiver begun.0;
      })
suites_session_auth_example =
    suites_session_auth crates ciphers docs p256_hkdf_sha256 sha256_kdf aes_256 (some psk) 3 4 5 6 9
      (private_of 3) (private_of 5) (public_of 3) (public_of 5) (literal "info") enc.bytes
      (new_sender begun.0) (generated 3) (generated 5) begun.1
      (next (sends _ (literal "aad") (literal "hello") one_sent.1 one_sent.0 one_sent.2) done)

agreed :
    (group_named crates p256_hkdf_sha256).dh
      ((group_named crates p256_hkdf_sha256).generate 9).0.0
      ((group_named crates p256_hkdf_sha256).generate 3).0.1
    ≡ ok (12 ∷ zeros 31)
unfolding Nist.generate Nist.make_pk Nist.dh eq_bytes
agreed = refl

suites_deliver_agreed_example :
    (sk : K.kem.PrivateKey) × (pk : K.kem.PublicKey) × (rng' : ℕ) × (enc : Bytes) × (ct : Bytes)
    × (K.kem.generate 3 ≡ (ok (sk, pk), rng'))
    × (sent_as_bytes K.kem
          (K.kem.pk_from_bytes (K.kem.pk_to_bytes pk))
          (seal_with K.kem F S none 9 (literal "info") (literal "aad") (literal "hello"))
        ≡ ok (enc, ct))
    × (received_as_bytes K.kem
          (K.kem.sk_from_bytes (K.kem.sk_to_bytes sk))
          (open_with K.kem F S none (literal "info") (literal "aad") ct)
          enc
        ≡ ok (literal "hello"))
    × (length enc ≡ 65)
    × (length ct ≡ 21)
suites_deliver_agreed_example =
    suites_deliver_agreed crates ciphers docs p256_hkdf_sha256 sha256_kdf aes_256 none 3 9
      (literal "info") (literal "aad") (literal "hello") agreed takes
