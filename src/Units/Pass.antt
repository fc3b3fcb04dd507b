-- ===== src/Units/Pass.antt =====
-- src/*.rs, the modules `tests`: a proof that the unit tests pass together.
use hpke_ng.Bytes.{Bytes}
