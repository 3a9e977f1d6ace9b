-- ===== src/Sha/Blocks.antt =====
-- The two hashes as fillings of the interface: sha1 and sha2_256.
use ez.Base.{arith}
use ez.Sha.{BlockFunction}
use ez.Sha.Sha1
use ez.Sha.Sha2

abbrev pub sha1 : BlockFunction
sha1 = record {
  initial = Sha1.initial;
  transform = Sha1.transform;
  length-transform = Sha1.length-transform;
  length-digest = Sha1.length-digest;
  digest_fits = omega arith;
}

abbrev pub sha2_256 : BlockFunction
sha2_256 = record {
  initial = Sha2.initial;
  transform = Sha2.transform;
  length-transform = Sha2.length-transform;
  length-digest = Sha2.length-digest;
  digest_fits = omega arith;
}
