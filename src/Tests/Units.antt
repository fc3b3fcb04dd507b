-- ===== src/Tests/Units.antt =====
-- An example of the unit tests, over the stand-ins.
use hpke_ng.Bytes.{Bytes}
