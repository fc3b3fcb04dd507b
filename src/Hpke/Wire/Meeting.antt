-- ===== src/Hpke/Wire/Meeting.antt =====
-- src/lib.rs: proofs on two ends that exchange keys as bytes, in any mode.
use hpke_ng.Base.{◌≡◌, ◌∙◌, ap, sym, subst}
use hpke_ng.Bytes.{Bytes}
use hpke_ng.Error.{Result, ok, ok_inj, ◌>>=◌, >>=-eq-ok, map_ok}
use hpke_ng.Kdf.{Kdf}
use hpke_ng.Aead.{Aead}
use hpke_ng.Kem.{CryptoRng, Kem}
use hpke_ng.Schedule.Rfc.{IsFresh}
use hpke_ng.Context.{Context}
use hpke_ng.Context.Roles.{SenderContext, new_sender, new_receiver}
use hpke_ng.Hpke.Wire.{sent_as_bytes, received_as_bytes}

-- Both ends read their keys, the encapsulated key is read back, and the KEM's calls agree.
pub record Meets {R : CryptoRng} (K : Kem R) {P Q : Type 0}
    (encapped : P → Result (K.SharedSecret × K.EncappedKey))
    (decap : K.EncappedKey → Q → Result K.SharedSecret) (keys_s : Result P) (keys_r : Result Q)
    : Type 0 where
  pub p : P
  pub q : Q
  pub sender_reads : keys_s ≡ ok p
  pub receiver_reads : keys_r ≡ ok q
  pub enc_read_back :
      (ss : K.SharedSecret) (enc : K.EncappedKey)
      → encapped p ≡ ok (ss, enc)
      → K.enc_from_bytes (K.enc_as_ref enc) ≡ ok enc
  pub agrees :
      (ss : K.SharedSecret) (enc : K.EncappedKey) → encapped p ≡ ok (ss, enc) → decap enc q ≡ ok ss

module _ {R : CryptoRng} (K : Kem R) where
  -- What has been sent was made with the keys that were read.
  pub sent-read :
      {P X : Type 0} (keys : Result P) (call : P → Result (K.EncappedKey × X)) (p : P) {b : Bytes}
      {x : X}
      → keys ≡ ok p
      → sent_as_bytes K keys call ≡ ok (b, x)
      → (enc : K.EncappedKey) × (call p ≡ ok (enc, x)) × (K.enc_as_ref enc ≡ b)
  sent-read keys call p read h =
      let (out, called, last) = >>=-eq-ok (call p) _ (rw read at h) in
      let same = ok_inj last in
      (out.0, called ∙ ap (λ x. ok (out.0, x)) (λ i. (same i).1), λ i. (same i).0)

  -- The receiver's next call is made on what its first gave.
  pub received-bind :
      {Q X Y : Type 0} (keys : Result Q) (call : K.EncappedKey → Q → Result X) (g : X → Result Y)
      (b : Bytes) {x : X}
      → received_as_bytes K keys call b ≡ ok x
      → received_as_bytes K keys (λ enc q. call enc q >>= g) b ≡ g x
  received-bind keys call g b h =
      let (q, read, rest) = >>=-eq-ok keys _ h in
      let (enc, arrived, called) = >>=-eq-ok (K.enc_from_bytes b) _ rest in
      rw (read, arrived, called)

  -- The sender's first call, of two, was made on the same keys.
  pub sent-bind :
      {P X Y : Type 0} (keys : Result P) (call : P → Result (K.EncappedKey × X)) (g : X → Result Y)
      {b : Bytes} {y : Y}
      → sent_as_bytes K keys (λ p. do (enc, x) ← call p; y ← g x; ok (enc, y)) ≡ ok (b, y)
      → (x : X) × (sent_as_bytes K keys call ≡ ok (b, x)) × (g x ≡ ok y)
  sent-bind keys call g {b} {y} h =
      let (p, read, rest) = >>=-eq-ok keys _ h in
      let (out, called, last) = >>=-eq-ok (do (enc, x) ← call p; y ← g x; ok (enc, y)) _ rest in
      let (made, first, second) = >>=-eq-ok (call p) _ called in
      let (y', given, end) = >>=-eq-ok (g made.1) _ second in
      let same = ok_inj end in
      let final = ok_inj last in
      let enc_eq : K.enc_as_ref made.0 ≡ b = (λ i. K.enc_as_ref (same i).0) ∙ λ i. (final i).0 in
      let y_eq : y' ≡ y = (λ i. (same i).1) ∙ λ i. (final i).1 in
      (made.1, rw (read, first) (λ i. ok (enc_eq i, made.1)), given ∙ ap ok y_eq)

module _ {R : CryptoRng} (K : Kem R) (F : Kdf) (A : Aead) {P Q : Type 0}
    {encapped : P → Result (K.SharedSecret × K.EncappedKey)}
    {decap : K.EncappedKey → Q → Result K.SharedSecret} {keys_s : Result P}
    {keys_r : Result Q} where
  -- In a mode whose schedule gives a fresh context on every secret, the receiver's setup gives the
  -- sender's context.
  pub met :
      (meets : Meets K encapped decap keys_s keys_r)
      (schedule : K.SharedSecret → Result (Context K F A))
      → ((ss : K.SharedSecret) → (c : Context K F A) × (schedule ss ≡ ok c) × IsFresh c)
      → {b : Bytes} {s : SenderContext K F A}
      → sent_as_bytes K keys_s
          (λ p. do (ss, enc) ← encapped p; ctx ← schedule ss; ok (enc, new_sender ctx))
        ≡ ok (b, s)
      → (received_as_bytes K keys_r
            (λ enc q. decap enc q >>= λ ss. map_ok new_receiver (schedule ss))
            b
          ≡ ok (new_receiver s.inner))
        × IsFresh s.inner
  met meets schedule total {b} {s} h =
      let (enc, called, is) = sent-read K keys_s _ meets.p meets.sender_reads h in
      let (secret, given, rest) = >>=-eq-ok (encapped meets.p) _ called in
      let (c, made, begun) = >>=-eq-ok (schedule secret.0) _ rest in
      let (c', made', fresh) = total secret.0 in
      let same = ok_inj begun in
      let context : c ≡ s.inner = λ i. (same i).1.inner in
      let bytes : K.enc_as_ref secret.1 ≡ b = (λ i. K.enc_as_ref (same i).0) ∙ is in
      let arrived =
        subst (λ e. K.enc_from_bytes e ≡ ok secret.1) bytes
          (meets.enc_read_back secret.0 secret.1 given) in
      (
        rw (meets.receiver_reads, arrived, meets.agrees secret.0 secret.1 given, made)
            (ap (λ x. ok (new_receiver x)) context),
        subst (λ x. IsFresh x) (ok_inj (sym made' ∙ made) ∙ context) fresh,
      )
