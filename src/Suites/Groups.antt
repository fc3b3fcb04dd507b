-- ===== src/Suites/Groups.antt =====
-- src/lib.rs: proofs that the single-shot calls of the suites with a KEM over a group succeed unless
-- the group refuses the ephemeral Diffie-Hellman value.
use hpke_ng.Base.{◌≡◌, ◌+◌, length, Option, refl, [], ◌∷◌, none, arith}
use hpke_ng.Bytes.{Bytes}
use hpke_ng.Error.{ok}
use hpke_ng.Aead.{Takes}
use hpke_ng.Psk.{Psk}
use hpke_ng.Kem.{CryptoRng}
use hpke_ng.Kem.Dh
use hpke_ng.Kem.Dh.{
  DiffieHellman, DhPrivateKey, DhPublicKey, DhSharedSecret, DhEncappedKey, encap_with, encap_secret,
  generate, from_pair,
}
use hpke_ng.Kem.Dh.Correct.{dh_auth_kem-IsCorrect}
use hpke_ng.Kem.Dh.Outcome.{extract_and_expand_total}
use hpke_ng.Kem.Instances.{Crates}
use hpke_ng.Hpke.Wire.{sent_as_bytes, received_as_bytes, seal_with, open_with}
use hpke_ng.Suites.{
  AuthKemName, KdfName, AeadName, CipherCrates, SuiteDocs, group_named, auth_kem_named, kdf_named,
  aead_named, over_group,
}
use hpke_ng.Suites.Laws.{group_named-IsLawful}
use hpke_ng.Suites.Encapped.{delivers_encapped}

encaps_agreed :
    {R : CryptoRng} (D : DiffieHellman R)
    → Dh.IsLawful D
    → (rng : R.State) (pk : DhPublicKey D) {dh : Bytes} → D.dh (D.generate rng).0.0 pk.key ≡ ok dh
    → (ss : DhSharedSecret) × (enc : DhEncappedKey) × (encap_with D rng pk none
        ≡ (ok (ss, enc), (D.generate rng).1))
unfolding encap_with encap_secret
encaps_agreed D lawful rng pk {dh} agreed =
    let enc = D.pk_to_bytes (D.generate rng).0.1 in
    let (ss, given, size) =
      extract_and_expand_total D lawful.kdf_lawful lawful.secret_len_bound dh
        (enc ∷ D.pk_as_ref pk.key ∷ []) (omega arith) in
    (record { bytes = ss }, record { bytes = enc }, rw (agreed, given))

module _ {R : CryptoRng} (c : Crates R) (a : CipherCrates) (docs : SuiteDocs c a) where
  -- Over crates and a generator that behave as documented, in each of the 54 suites with a KEM
  -- over a group, in base and in PSK mode, for every message that the cipher encrypts: if the
  -- group gives a Diffie-Hellman value for the sender's ephemeral and the receiver's generated
  -- pair, generating the receiver's pair succeeds, a sender that reads the public key from bytes
  -- seals the message without an error, and a receiver that reads its private key and the
  -- encapsulated key back gets the message; the encapsulated key has the KEM's declared length and
  -- the ciphertext is longer than the message by the tag.
  pub suites_deliver_agreed :
      (n : AuthKemName) (f : KdfName) (s : AeadName) (psk : Option Psk) (rng rng_s : R.State)
      (info aad pt : Bytes) {dh : Bytes}
      → let D = group_named c n in
        let K = (auth_kem_named c n).kem in
        let F = kdf_named c f in
        let S = aead_named a s in
        D.dh (D.generate rng_s).0.0 (D.generate rng).0.1 ≡ ok dh
        → Takes S aad pt
        → (sk : K.PrivateKey) × (pk : K.PublicKey) × (rng' : R.State) × (enc : Bytes) × (ct : Bytes)
          × (K.generate rng ≡ (ok (sk, pk), rng'))
          × (sent_as_bytes K
                (K.pk_from_bytes (K.pk_to_bytes pk))
                (seal_with K F S psk rng_s info aad pt)
              ≡ ok (enc, ct))
          × (received_as_bytes K
                (K.sk_from_bytes (K.sk_to_bytes sk))
                (open_with K F S psk info aad ct)
                enc
              ≡ ok pt)
          × (length enc ≡ K.encapped_key_len)
          × (length ct ≡ length pt + S.aead.tag_len)
  unfolding generate
  suites_deliver_agreed n f s psk rng rng_s info aad pt agreed takes =
      let D = group_named c n in
      let lawful = group_named-IsLawful c a docs n in
      let sk = from_pair D (D.generate rng).0.0 (D.generate rng).0.1 in
      let pk : DhPublicKey D = record { key = (D.generate rng).0.1 } in
      let (ss, enc, given) = encaps_agreed D lawful rng_s pk agreed in
      let (enc_bytes, ct, sent, received, enc_size, size) =
        delivers_encapped c a docs (over_group n) (dh_auth_kem-IsCorrect D lawful).is_correct f s
          psk rng (D.generate rng).1 rng_s (D.generate rng_s).1 info aad pt refl given takes in
      (sk, pk, (D.generate rng).1, enc_bytes, ct, refl, sent, received, enc_size, size)
