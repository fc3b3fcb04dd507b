-- ===== src/Suites/Delivered.antt =====
-- src/lib.rs: proofs that the single-shot calls of the suites that the library offers deliver.
use hpke_ng.Base.{◌≡◌, Option}
use hpke_ng.Bytes.{Bytes}
use hpke_ng.Error.{ok}
use hpke_ng.Psk.{Psk}
use hpke_ng.Kem.{CryptoRng}
use hpke_ng.Kem.Instances.{Crates}
use hpke_ng.Hpke.Wire.{
  read_both, sent_as_bytes, received_as_bytes, seal_with, open_with, seal_auth_with, open_auth_with,
}
use hpke_ng.Hpke.Wire.Modes.{delivers_bytes, auth_delivers_bytes}
use hpke_ng.Suites.{
  AuthKemName, KemName, KdfName, AeadName, CipherCrates, SuiteDocs, auth_kem_named, kem_named,
  kdf_named, aead_named,
}
use hpke_ng.Suites.Laws.{
  kdf_named-IsLawful, aead_named-SealsLawfully, auth_kem_named-AuthStores,
  auth_kem_named-AuthTravels, kem_named-Stores, kem_named-Travels,
}

module _ {R : CryptoRng} (c : Crates R) (a : CipherCrates) (docs : SuiteDocs c a) where
  -- Over crates and a generator that behave as documented, in each of the 81 suites of a KEM, a
  -- KDF and a cipher that the library offers, in base and in PSK mode: a generated key pair is
  -- stored as bytes and the public key sent as bytes; if a sender that reads it seals a message, a
  -- receiver that reads its private key and the encapsulated key back gets the message.
  pub suites_deliver :
      (k : KemName) (f : KdfName) (s : AeadName) (psk : Option Psk) (rng rng' rng_s : R.State)
      (sk : (kem_named c k).PrivateKey) (pk : (kem_named c k).PublicKey) (info aad pt : Bytes)
      (enc ct : Bytes)
      → let K = kem_named c k in
        let F = kdf_named c f in
        let S = aead_named a s in
        K.generate rng ≡ (ok (sk, pk), rng')
        → sent_as_bytes K
            (K.pk_from_bytes (K.pk_to_bytes pk))
            (seal_with K F S psk rng_s info aad pt)
          ≡ ok (enc, ct)
        → received_as_bytes K
            (K.sk_from_bytes (K.sk_to_bytes sk))
            (open_with K F S psk info aad ct)
            enc
          ≡ ok pt
  suites_deliver k f s =
      delivers_bytes (kem_named c k) (kem_named-Stores c a docs k) (kem_named-Travels c a docs k)
        (kdf_named c f) (kdf_named-IsLawful c a docs f) (aead_named a s)
        (aead_named-SealsLawfully c a docs s)

  -- Over crates and a generator that behave as documented, in each of the 54 suites with a KEM
  -- over a group, in Auth and in AuthPSK mode: two generated key pairs are stored as bytes and
  -- their public keys sent as bytes; if a sender that reads its private and the receiver's public
  -- key seals a message, a receiver that reads its private key, the sender's public key and the
  -- encapsulated key gets the message.
  pub suites_deliver_auth :
      (k : AuthKemName) (f : KdfName) (s : AeadName) (psk : Option Psk)
      (rng rng' rng_s rng_s' rng_e : R.State) (sk_r sk_s : (auth_kem_named c k).kem.PrivateKey)
      (pk_r pk_s : (auth_kem_named c k).kem.PublicKey) (info aad pt : Bytes) (enc ct : Bytes)
      → let K = auth_kem_named c k in
        let F = kdf_named c f in
        let S = aead_named a s in
        K.kem.generate rng ≡ (ok (sk_r, pk_r), rng')
        → K.kem.generate rng_s ≡ (ok (sk_s, pk_s), rng_s')
        → sent_as_bytes K.kem
            (read_both
              (K.kem.pk_from_bytes (K.kem.pk_to_bytes pk_r))
              (K.kem.sk_from_bytes (K.kem.sk_to_bytes sk_s)))
            (seal_auth_with K F S psk rng_e info aad pt)
          ≡ ok (enc, ct)
        → received_as_bytes K.kem
            (read_both
              (K.kem.pk_from_bytes (K.kem.pk_to_bytes pk_s))
              (K.kem.sk_from_bytes (K.kem.sk_to_bytes sk_r)))
            (open_auth_with K F S psk info aad ct)
            enc
          ≡ ok pt
  suites_deliver_auth k f s =
      auth_delivers_bytes (auth_kem_named c k) (auth_kem_named-AuthStores c a docs k)
        (auth_kem_named-AuthTravels c a docs k) (kdf_named c f) (kdf_named-IsLawful c a docs f)
        (aead_named a s) (aead_named-SealsLawfully c a docs s)
