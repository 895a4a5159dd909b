-- ===== src/Part/Scan/Extended.antt =====
-- The scan of a source whose boot sector has no primary partition.
use reclaim.Prelude.{ℕ, ◌-◌, ◌<◌, max, ◌≡◌, refl, inl, inr, [], ◌∷◌}
use reclaim.Block.Source.{BlockSource}
use reclaim.Part.Types.{volume_windows}
use reclaim.Part.Reader.{read_bytes}
use reclaim.Part.Mbr.Primary.{IsNoPrimary, parse-IsNoPrimary}
use reclaim.Part.Gpt.Absent.{LacksHeader, parse-none}
use reclaim.Part.Scan.{scan}
use reclaim.Part.Scan.Outcome.{scan_without_mbr, scan_extended_only}

-- When no header of a GPT stands in the second block or in the last, and each of the four records
-- of the boot sector is unused or of an extended partition, a scan reports no partition and the one
-- window of the whole source, whatever else the source holds, the chains of these extended
-- partitions included.
pub scan-IsNoPrimary :
    (src : BlockSource)
    → LacksHeader src (max src.sector_size 512)
    → LacksHeader src (src.len - max src.sector_size 512)
    → ((i : ℕ) → i < 4 → IsNoPrimary (read_bytes src 0 512) i)
    → ((scan src).entries ≡ []) × (volume_windows (scan src) src.len ≡ (0, src.len) ∷ [])
unfolding volume_windows
scan-IsNoPrimary src p b h =
    let g = parse-none src (max src.sector_size 512) src.len p b in
    let none_found : (scan src).entries ≡ [] =
      elim (parse-IsNoPrimary (read_bytes src 0 512) src.len h) [
        | inl unsigned ↦ scan_without_mbr src g unsigned
        | inr (m, parsed, empty) ↦ scan_extended_only src m g parsed empty
      ] in
    (none_found, rw none_found refl)
