-- ===== src/Context/Roles/Channel/Exports.antt =====
-- src/context.rs: proofs on the secrets that the two ends of a channel export.
use hpke_ng.Base.{ℕ, ◌==◌, ◌≡◌, List, refl, sym, ap, ◌∙◌, Bool-cases, inl, inr}
use hpke_ng.Bytes.{Bytes}
use hpke_ng.Error.{Result, ok, err, panic}
use hpke_ng.Kdf.{Kdf}
use hpke_ng.Aead.{SealingAead}
use hpke_ng.Kem.{CryptoRng, Kem}
use hpke_ng.Suite.{ciphersuite}
use hpke_ng.Kdf.{labeled_expand}
use hpke_ng.Bytes.{literal}
use hpke_ng.Context
use hpke_ng.Context.{Context, advance, u64_max}
use hpke_ng.Context.Roles
use hpke_ng.Context.Roles.{export_sender, export_receiver}
use hpke_ng.Context.Roles.Channel.{
  Event, Channel, Step, Steps, start, sends, fails_to_send, delivers, refuses, done, next,
}

module _ {R : CryptoRng} {K : Kem R} {F : Kdf} (S : SealingAead) where
  advance-exporter_secret :
      (c : Context K F S.aead) (r : Result Bytes)
      → (advance c r).1.exporter_secret ≡ c.exporter_secret
  unfolding advance
  advance-exporter_secret c (ok out) = refl
  advance-exporter_secret c (err e) = refl
  advance-exporter_secret c panic = refl

  seal-exporter_secret :
      (c : Context K F S.aead) (aad pt : Bytes)
      → (Context.seal S c aad pt).1.exporter_secret ≡ c.exporter_secret
  unfolding Context.seal
  seal-exporter_secret c aad pt = elim (Bool-cases (c.seq == u64_max)) [
    | inl full ↦ rw full
    | inr room ↦ rw room (advance-exporter_secret c _)
  ]

  open_ct-exporter_secret :
      (c : Context K F S.aead) (aad ct : Bytes)
      → (Context.open_ct S c aad ct).1.exporter_secret ≡ c.exporter_secret
  unfolding Context.open_ct
  open_ct-exporter_secret c aad ct = elim (Bool-cases (c.seq == u64_max)) [
    | inl full ↦ rw full
    | inr room ↦ rw room (advance-exporter_secret c _)
  ]

  -- No step of either end changes what it exports from.
  Step-exporter_secrets :
      {c d : Channel K F S.aead} {event : Event}
      → Step S c event d
      → (d.sender.inner.exporter_secret ≡ c.sender.inner.exporter_secret)
        × (d.receiver.inner.exporter_secret ≡ c.receiver.inner.exporter_secret)
  unfolding Roles.seal Roles.open_ct
  Step-exporter_secrets (sends c aad pt ct s sealed) = (
    sym (ap (λ p. p.1.inner.exporter_secret) sealed) ∙ seal-exporter_secret c.sender.inner aad pt,
    refl,
  )
  Step-exporter_secrets (fails_to_send c aad pt refused) =
      (seal-exporter_secret c.sender.inner aad pt, refl)
  Step-exporter_secrets (delivers s d ds r) = (refl, open_ct-exporter_secret r.inner d.aad d.sealed)
  Step-exporter_secrets (refuses c aad ct refused) =
      (refl, open_ct-exporter_secret c.receiver.inner aad ct)

  Steps-exporter_secrets :
      {c d : Channel K F S.aead} {events : List Event}
      → Steps S c events d
      → (d.sender.inner.exporter_secret ≡ c.sender.inner.exporter_secret)
        × (d.receiver.inner.exporter_secret ≡ c.receiver.inner.exporter_secret)
  Steps-exporter_secrets done = (refl, refl)
  Steps-exporter_secrets (next step rest) =
      let (s, r) = Step-exporter_secrets step in
      let (s', r') = Steps-exporter_secrets rest in (s' ∙ s, r' ∙ r)

  -- At any point of a run from a shared context, the two ends export the same.
  pub Steps-exports :
      {c : Context K F S.aead} {d : Channel K F S.aead} {events : List Event}
      → Steps S (start S c) events d
      → (exporter_context : Bytes) (n : ℕ)
      → export_sender d.sender exporter_context n ≡ export_receiver d.receiver exporter_context n
  unfolding export_sender export_receiver Context.export
  Steps-exports steps exporter_context n =
      let (s, r) = Steps-exporter_secrets steps in
      ap
        (λ secret.
          labeled_expand F secret (ciphersuite K F S.aead) (literal "sec") exporter_context n)
        (s ∙ sym r)
