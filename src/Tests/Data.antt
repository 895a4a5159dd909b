-- ===== src/Tests/Data.antt =====
-- Small media for the tests: sources of the block layer over buffers in memory.
use reclaim.Prelude.{ℕ, List, [], ◌∷◌, replicate}
use reclaim.Block.Source.{BlockSource}
use reclaim.Block.Memory.{MemorySource, source}
use reclaim.Block.BadBlock.{LbaRange, BadBlockMap}
use reclaim.Block.View.{OffsetView}
use reclaim.Block.Fault.{FaultInjector}

-- Ten bytes in sectors of four: the last sector is half there.
abbrev pub medium : MemorySource
medium = record { bytes = 10 ∷ 11 ∷ 12 ∷ 13 ∷ 20 ∷ 21 ∷ 22 ∷ 23 ∷ 30 ∷ 31 ∷ []; sector_size = 4 }

abbrev pub buffer : List ℕ
buffer = replicate 8 7

abbrev pub medium_source : BlockSource
medium_source = source medium

-- Its second sector fails.
abbrev pub failing : FaultInjector
failing = record { inner = medium_source; bad_lbas = 1 ∷ [] }

-- The second sector alone.
abbrev pub window : OffsetView
window = record { inner = medium_source; start = 4; len = 4 }

abbrev pub runs : List LbaRange
runs = record { start = 7; count = 2 } ∷ record { start = 3; count = 4 } ∷ []

abbrev pub known : BadBlockMap
known = record { sector_size = 512; bad = runs; unread = [] }
