-- ===== src/Tests/Suites.antt =====
-- An example of a suite, whose two ends exchange and store keys as bytes.
use hpke_ng.Base.{ℕ, length, ◌≡◌, ap, ◌+◌, ◌++◌, ◌∷◌, [], none, some, refl, arith, ==_iff}
use hpke_ng.Bytes.{Bytes, literal, zeros}
use hpke_ng.Bytes.Slices.{copy_array}
use hpke_ng.Error.{ok}
use hpke_ng.Aead.Ciphers.{cipher_seal}
use hpke_ng.Kdf.{Kdf}
use hpke_ng.Kem
use hpke_ng.Kem.{Kem}
use hpke_ng.Aead.{SealingAead, Takes, SealsLawfully}
use hpke_ng.Kem.Pq.XWing
use hpke_ng.Kem.Pq.XWing.{XWingSharedSecret, XWingEncappedKey, XWingPrivateKey, XWingPublicKey}
use hpke_ng.Kem.Pq.MlKem
use hpke_ng.Hpke.RoundTrip.{open_base-seal_base}
use hpke_ng.Hpke.Agree.{setup_base_agrees}
use hpke_ng.Schedule.Rfc.{IsFresh}
use hpke_ng.Context.{Context}
use hpke_ng.Context.Roles
use hpke_ng.Context.Roles.{SenderContext, new_sender, new_receiver}
use hpke_ng.Context.Roles.Limit.{seal_taken}
use hpke_ng.Context.Roles.Channel.{Event, delivery, sends, next, done}
use hpke_ng.Hpke.Wire.{
  sent_as_bytes, received_as_bytes, seal_with, open_with, setup_sender_with, setup_receiver_with,
}
use hpke_ng.Kem.Instances.Laws.{sha512-IsLawful, kems-AreCorrect}
use hpke_ng.Aead.Ciphers.{sealing_impl-SealsLawfully}
use hpke_ng.Suites.{
  AuthKemName, KemName, auth_kem_named, CipherCrates, SuiteDocs, kem_named, kdf_named, aead_named,
  post_quantum, x_wing_kem, sha512_kdf, chacha20,
}
use hpke_ng.Suites.Sizes.{kems-IsSized}
use hpke_ng.Suites.PostQuantum.{suites_always_deliver}
use hpke_ng.Suites.Delivered.{suites_deliver}
use hpke_ng.Suites.Sessions.{InSession, suites_session}
use hpke_ng.Tests.Crates.{counting_rng, counting_rng_docs, aead_of, aead_of-AeadDocs}
use hpke_ng.Tests.PostQuantum.{x_wing, x_wing_wire, ml_kem_of-MlKemWireDocs}
use hpke_ng.Tests.Instances.{crates, crates_docs}

abbrev pub ciphers : CipherCrates
ciphers = record {
  aes_128_gcm = aead_of 16;
  aes_256_gcm = aead_of 32;
  chacha20_poly1305 = aead_of 32;
}

pub docs : SuiteDocs crates ciphers
docs = record {
  rng = counting_rng_docs;
  crates = crates_docs;
  x_wing = x_wing_wire;
  ml_kem_768 = ml_kem_of-MlKemWireDocs MlKem.ml_kem_768 (omega arith) (omega arith);
  ml_kem_1024 = ml_kem_of-MlKemWireDocs MlKem.ml_kem_1024 (omega arith) (omega arith);
  aes_128_gcm = aead_of-AeadDocs 16;
  aes_256_gcm = aead_of-AeadDocs 32;
  chacha20_poly1305 = aead_of-AeadDocs 32;
}

abbrev K : Kem counting_rng
K = kem_named crates (post_quantum x_wing_kem)

abbrev F : Kdf
F = kdf_named crates sha512_kdf

abbrev S : SealingAead
S = aead_named ciphers chacha20

abbrev seed : Bytes
seed = (counting_rng.fill_bytes 32 5).0

abbrev private : XWingPrivateKey x_wing
private = record { seed = seed; dk = some seed }

abbrev public : XWingPublicKey x_wing
public = record { bytes = seed; parsed = seed }

generated : K.generate 5 ≡ (ok (private, public), 6)
unfolding XWing.generate XWing.keypair_from_seed
generated = refl

abbrev secret : XWingSharedSecret
secret = record { bytes = 12 ∷ zeros 31 }

abbrev enc : XWingEncappedKey
enc = record { bytes = 7 ∷ [] }

encapped : K.encap 7 public ≡ (ok (secret, enc), 8)
unfolding XWing.encap copy_array
encapped = refl

chacha20-SealsLawfully : SealsLawfully S
chacha20-SealsLawfully =
    sealing_impl-SealsLawfully (aead_of 32) 32 (aead_of-AeadDocs 32) 0x0003 (omega arith)

takes : Takes S (literal "aad") (literal "hello")
unfolding cipher_seal
takes c nonce h = (literal "hello" ++ zeros 16, rw ((==_iff _ _).1 h))

sealed :
    (ct : Bytes) × (sent_as_bytes K
        (K.pk_from_bytes public.bytes)
        (seal_with K F S none 7 (literal "info") (literal "aad") (literal "hello"))
      ≡ ok (enc.bytes, ct))
unfolding XWing.pk_from_bytes
sealed =
    let correct = (kems-AreCorrect crates crates_docs).x_wing in
    let (ct, given, _, _) =
      open_base-seal_base K F S correct (sha512-IsLawful crates crates_docs) chacha20-SealsLawfully
        7 8 private public (literal "info") (literal "aad") (literal "hello")
        (correct.generate-Paired 5 6 generated) encapped takes in
    (ct, rw (ap (λ p. p.0) given))

suites_deliver_example :
    received_as_bytes K
      (K.sk_from_bytes seed)
      (open_with K F S none (literal "info") (literal "aad") sealed.0)
      enc.bytes
    ≡ ok (literal "hello")
suites_deliver_example =
    suites_deliver crates ciphers docs (post_quantum x_wing_kem) sha512_kdf chacha20 none 5 6 7
      private public (literal "info") (literal "aad") (literal "hello") enc.bytes sealed.0 generated
      sealed.1

-- A session in which one message is in flight.
begun :
    (c : Context K F S.aead) × (sent_as_bytes K
        (K.pk_from_bytes public.bytes)
        (setup_sender_with K F S.aead none 7 (literal "info"))
      ≡ ok (enc.bytes, new_sender c))
    × IsFresh c
unfolding XWing.pk_from_bytes
begun =
    let correct = (kems-AreCorrect crates crates_docs).x_wing in
    let (c, given, _, fresh) =
      setup_base_agrees K F S.aead correct (sha512-IsLawful crates crates_docs)
        chacha20-SealsLawfully.is_lawful 7 8 private public (literal "info")
        (correct.generate-Paired 5 6 generated) encapped in
    (c, rw (ap (λ p. p.0) given), fresh)

one_sent :
    (s : SenderContext K F S.aead) × (ct : Bytes) × (Roles.seal S
        (new_sender begun.0)
        (literal "aad")
        (literal "hello")
      ≡ (ok ct, s))
unfolding Roles.seal
one_sent =
    let (ct, sealed, _) =
      seal_taken S chacha20-SealsLawfully begun.0 (literal "aad") (literal "hello")
        begun.2.well_formed (rw begun.2.at_start) takes in
    (
      new_sender (record begun.0 { seq = begun.0.seq + 1 }),
      ct,
      ap (λ p. (p.0, new_sender p.1)) sealed,
    )

suites_session_example :
    InSession S
      (received_as_bytes K
        (K.sk_from_bytes seed)
        (setup_receiver_with K F S.aead none (literal "info"))
        enc.bytes)
      (new_sender begun.0)
      (Event.sent (literal "aad") (literal "hello") ∷ [])
      (record {
        sender = one_sent.0;
        in_flight = delivery (literal "aad") (literal "hello") one_sent.1 ∷ [];
        receiver = new_receiver begun.0;
      })
suites_session_example =
    suites_session crates ciphers docs (post_quantum x_wing_kem) sha512_kdf chacha20 none 5 6 7
      private public (literal "info") enc.bytes (new_sender begun.0) generated begun.1
      (next (sends _ (literal "aad") (literal "hello") one_sent.1 one_sent.0 one_sent.2) done)

kems-IsSized_example :
    ((k : KemName) → Kem.IsSized (kem_named crates k))
    × ((n : AuthKemName) → Kem.AuthIsSized (auth_kem_named crates n))
kems-IsSized_example = kems-IsSized crates ciphers docs

suites_always_deliver_example :
    (sk : K.PrivateKey) × (pk : K.PublicKey) × (rng' : ℕ) × (enc : Bytes) × (ct : Bytes)
    × (K.generate 5 ≡ (ok (sk, pk), rng'))
    × (sent_as_bytes K
          (K.pk_from_bytes (K.pk_to_bytes pk))
          (seal_with K F S none 7 (literal "info") (literal "aad") (literal "hello"))
        ≡ ok (enc, ct))
    × (received_as_bytes K
          (K.sk_from_bytes (K.sk_to_bytes sk))
          (open_with K F S none (literal "info") (literal "aad") ct)
          enc
        ≡ ok (literal "hello"))
    × (length enc ≡ K.encapped_key_len)
    × (length ct ≡ 21)
suites_always_deliver_example =
    suites_always_deliver crates ciphers docs x_wing_kem sha512_kdf chacha20 none 5 7
      (literal "info") (literal "aad") (literal "hello") takes
