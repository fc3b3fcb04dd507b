-- ===== src/Lib.antt =====
-- The crate `hpke-ng`, an implementation of HPKE (RFC 9180), modelled and verified.
--
-- An HPKE suite has three parts, a KEM, a KDF and an AEAD. A setup encapsulates a secret to the
-- receiver's public key, or decapsulates it, and the key schedule makes of it a context: a cipher
-- state, a base nonce, an exporter secret and a counter. The context then seals or opens messages,
-- each under the base nonce masked by the counter, and exports secrets. The single-shot calls do a
-- setup and one such operation. Traits are records of operations here, and what a client relies on
-- is a record of laws beside them, which an implementation's theorem fills. A fallible call gives
-- `Result`: a value, an `HpkeError`, or a panic, and a call that `Returns` does not panic. A call
-- that draws from a generator gives its result with the generator's next state; one that changes a
-- context gives the next context.
--
-- Files and the code they model (paths from the repository's root):
--   Error          src/error.rs: `HpkeError`, its messages, and `Result`
--   Kdf            src/kdf.rs: the trait `Kdf` and the labeled calls; Kdf.Hkdf has the macro
--                  `hkdf_impl!` over the crate `hkdf`; proofs in Kdf.Pieces and Kdf.Labeled
--   Aead           src/aead.rs: `Aead`, `SealingAead`, `ExportOnly`; Aead.Ciphers has the three
--                  ciphers over their crates
--   Psk            src/psk.rs: `Psk::new` and `==`
--   Kem            src/kem/mod.rs: `Kem` and `AuthKem`
--   Kem.Dh         src/kem/dh.rs: `DiffieHellman` and `DhKem`; proofs in Kem.Dh.Correct, on the
--                  calls of the test builds in Kem.Dh.Deterministic, on keys as bytes in
--                  Kem.Dh.Stored and Kem.Dh.Travels, on errors and panics in Kem.Dh.Outcome and
--                  Kem.Dh.PanicFree; the groups are in Kem.Dh.X25519, Kem.Dh.X448 and Kem.Dh.Nist
--                  (`nist_curve!`), each with its proofs in its children
--   Kem.Pq         src/kem/pq.rs: the labeled derivation; Kem.Pq.XWing and Kem.Pq.MlKem have the two
--                  KEMs, each with its proofs in its child Correct; on keys as bytes, Kem.Pq.Travels,
--                  and on sizes Kem.Pq.Sized, as Kem.Dh.Sized of the KEMs over a group
--   Kem.Instances  src/kem/dh.rs and src/kem/pq.rs: the nine KEMs over one set of crates; proofs in
--                  Kem.Instances.Laws
--   Suite          src/lib.rs: the modes and `ciphersuite`
--   Schedule       src/lib.rs: the two key schedules; Schedule.Rfc has the RFC's one schedule,
--                  Schedule.Outputs what a context holds after it, Schedule.Inputs the strings that
--                  it expands, and Schedule.Binding two schedules beside each other
--   Context        src/context.rs: `Context`; proofs in Context.Nonce, Context.Steps and
--                  Context.Inversion; Context.Roles has `SenderContext` and `ReceiverContext`, with
--                  proofs on runs of calls in its children Streams, Past, Uniqueness, Limit and Noise,
--                  and a channel between the two as a step relation, with the queue that it
--                  refines and the secrets that its ends export, in Channel, Channel.Queue and
--                  Channel.Exports; Context.Harness has the accessors of the test builds
--   Hpke           src/lib.rs: the setups; Hpke.Seal and Hpke.Export have the single-shot calls,
--                  Hpke.Agree, Hpke.RoundTrip, Hpke.Delivered, Hpke.Outcome, Hpke.Secrets and
--                  Hpke.Wire.Modes the proofs on them; Hpke.Wire has two ends that exchange keys as
--                  bytes, and Hpke.Wire.Meeting the steps that its four modes share
--   Suites         src/lib.rs: the KEMs, KDFs and ciphers that the library exports; proofs on all
--                  their combinations in Suites.Delivered, Suites.Sessions, Suites.PostQuantum,
--                  Suites.Groups and Suites.Sizes
--   Fuzz           fuzz/fuzz_targets: the five fuzz targets; proofs on the targets `open` and
--                  `key_schedule` in Fuzz.Slices and Fuzz.Returns
--   Units          src/*.rs, the modules `tests`: the library's unit tests as calls that panic where
--                  an assertion fails, with proofs in Units.Pass and in the children Pass and Offered
--   Base, Bytes    shared names and lemmas, and byte strings
--   Tests          stand-ins for the crates and the theorems at concrete inputs
--
-- Bounds: the counter is a `u64`, whose increment wraps as written; identifiers are `u16`s where a
-- statement says so. Every loop is over a list, but the one of `derive_p_curve_sk`, which is
-- over the rounds that are left of its 256.
--
-- Parameters: the crates `hkdf`, `sha2`, `aes_gcm`, `chacha20poly1305`, `x25519_dalek`,
-- `ed448_goldilocks`, `p256`, `p384`, `p521`, `k256`, `shake`, `x_wing` and `ml_kem`, and the
-- generator. Where a theorem needs their documented behaviour, it is a hypothesis (`RngDocs`,
-- `HkdfDocs`, `AeadDocs`, `DalekDocs`, `Ed448Docs`, `CurveDocs`, `ShakeDocs`, `XWingDocs`,
-- `XWingWireDocs`, `MlKemDocs`, `MlKemWireDocs`).
--
-- Not modelled: constant time and the scrubbing of memory, which have no place in a functional
-- model, except where `Zeroize` is an operation of a type; `Debug` output; the marker
-- trait `Sealed`; the directories tests and benches, and of the unit tests the vectors and those
-- that two outputs differ, which depend on the values of real cryptography or measure time, and
-- those that only compile.
pub mod Base
pub mod Bytes
pub mod Error
pub mod Kdf
pub mod Aead
pub mod Psk
pub mod Kem
pub mod Suite
pub mod Context
pub mod Schedule
pub mod Hpke
pub mod Suites
pub mod Fuzz
pub mod Units
mod Tests
