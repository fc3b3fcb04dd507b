-- ===== src/Suites/PostQuantum.antt =====
-- src/lib.rs: proofs that the single-shot calls of the post-quantum suites always succeed.
use hpke_ng.Base.{◌≡◌, ◌+◌, length, Option}
use hpke_ng.Bytes.{Bytes}
use hpke_ng.Error.{ok}
use hpke_ng.Aead.{Takes}
use hpke_ng.Psk.{Psk}
use hpke_ng.Kem
use hpke_ng.Kem.{CryptoRng, Kem, IsCorrect, IsSized}
use hpke_ng.Kem.Pq.Total.{x_wing_draft06-IsTotal, ml_kem_variant-IsTotal}
use hpke_ng.Kem.Pq.MlKem
use hpke_ng.Kem.Instances.{Crates}
use hpke_ng.Kem.Instances.Laws.{kems-AreCorrect}
use hpke_ng.Hpke.Wire.{sent_as_bytes, received_as_bytes, seal_with, open_with}
use hpke_ng.Suites.{
  PqKemName, KdfName, AeadName, CipherCrates, SuiteDocs, pq_kem_named, kdf_named, aead_named,
  post_quantum, x_wing_kem, ml_kem_small, ml_kem_large,
}
use hpke_ng.Suites.Encapped.{delivers_encapped}

module _ {R : CryptoRng} (c : Crates R) (a : CipherCrates) (docs : SuiteDocs c a) where
  pub pq_kem_named-IsTotal : (q : PqKemName) → Kem.IsTotal (pq_kem_named c q)
  pq_kem_named-IsTotal x_wing_kem = x_wing_draft06-IsTotal c.shake c.x_wing docs.crates.x_wing
  pq_kem_named-IsTotal ml_kem_small =
      ml_kem_variant-IsTotal c.shake MlKem.ml_kem_768 c.ml_kem_768 docs.crates.ml_kem_768
  pq_kem_named-IsTotal ml_kem_large =
      ml_kem_variant-IsTotal c.shake MlKem.ml_kem_1024 c.ml_kem_1024 docs.crates.ml_kem_1024

  pub pq_kem_named-IsCorrect : (q : PqKemName) → IsCorrect (pq_kem_named c q)
  pq_kem_named-IsCorrect x_wing_kem = (kems-AreCorrect c docs.crates).x_wing
  pq_kem_named-IsCorrect ml_kem_small = (kems-AreCorrect c docs.crates).ml_kem_768
  pq_kem_named-IsCorrect ml_kem_large = (kems-AreCorrect c docs.crates).ml_kem_1024

  -- Over crates and a generator that behave as documented, in each of the 27 suites with a
  -- post-quantum KEM, in base and in PSK mode, for every message that the cipher encrypts:
  -- generating a key pair succeeds; a sender that reads the public key from bytes seals the
  -- message without an error; a receiver that reads its private key and the encapsulated key back
  -- gets the message; the encapsulated key has the KEM's declared length and the ciphertext is
  -- longer than the message by the tag.
  pub suites_always_deliver :
      (q : PqKemName) (f : KdfName) (s : AeadName) (psk : Option Psk) (rng rng_s : R.State)
      (info aad pt : Bytes)
      → let K = pq_kem_named c q in
        let F = kdf_named c f in
        let S = aead_named a s in
        Takes S aad pt
        → (sk : K.PrivateKey) × (pk : K.PublicKey) × (rng' : R.State) × (enc : Bytes) × (ct : Bytes)
          × (K.generate rng ≡ (ok (sk, pk), rng'))
          × (sent_as_bytes K
                (K.pk_from_bytes (K.pk_to_bytes pk))
                (seal_with K F S psk rng_s info aad pt)
              ≡ ok (enc, ct))
          × (received_as_bytes K
                (K.sk_from_bytes (K.sk_to_bytes sk))
                (open_with K F S psk info aad ct)
                enc
              ≡ ok pt)
          × (length enc ≡ K.encapped_key_len)
          × (length ct ≡ length pt + S.aead.tag_len)
  suites_always_deliver q f s psk rng rng_s info aad pt takes =
      let total = pq_kem_named-IsTotal q in
      let (sk, pk, rng', made) = total.generate_total rng in
      let (ss, enc, rng_e, given) = total.encap_total rng_s pk in
      let (enc_bytes, ct, sent, received, enc_size, size) =
        delivers_encapped c a docs (post_quantum q) (pq_kem_named-IsCorrect q) f s psk rng rng'
          rng_s rng_e info aad pt made given takes in
      (sk, pk, rng', enc_bytes, ct, made, sent, received, enc_size, size)
