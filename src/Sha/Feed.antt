-- ===== src/Sha/Feed.antt =====
-- The bytes of a message fed to the block function of a hash, in blocks of 64.
use ez.Base.{ℕ, List}
use ez.Feed
use ez.Sha.{BlockFunction}

module _ (f : BlockFunction) where
  abbrev pub compress : List ℕ → List ℕ → List ℕ
  compress digest block = (f.transform digest block).0

  abbrev pub Progress : Type 0
  Progress = List ℕ × List ℕ

  abbrev pub feed : List ℕ → Progress → Progress
  feed = Feed.feed 64 compress
