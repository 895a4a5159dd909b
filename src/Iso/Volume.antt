-- ===== src/Iso/Volume.antt =====
-- crates/fs-iso/src/lib.rs: volume descriptors, probe and open. A confidence is in thousandths.
use reclaim.Prelude.{
  ℕ, zero, suc, ◌+◌, ◌*◌, max, Bool, true, false, not, ◌&&◌, ◌||◌, Option, none, some, List, [],
  ◌∷◌, ◌==◌, if◌then◌else◌, get_or, take, drop, slice,
}
use reclaim.Block.Source.{BlockSource}
use reclaim.FsCore.Types.{FsError}
use reclaim.FsCore.Text.{from_utf8_lossy, is_whitespace, trim_end}
use reclaim.FsCore.Reader.{read, le_u16}
use reclaim.Part.Reader.{le_u32}
use reclaim.Fat.Boot.{bytes_eq}

abbrev pub sector : ℕ
sector = 2048

pub record Iso : Type 0 where
  pub src : BlockSource
  pub block_size : ℕ
  pub root_lba : ℕ
  pub root_len : ℕ
  pub joliet : Bool
  pub label : Option (List ℕ)
  pub is_udf : Bool

abbrev pub cd001 : List ℕ
cd001 = b'C' ∷ b'D' ∷ b'0' ∷ b'0' ∷ b'1' ∷ []

pub trim_start : List ℕ → List ℕ
trim_start [] = []
trim_start (c ∷ cs) = if is_whitespace c then trim_start cs else c ∷ cs

-- A text of a descriptor: its bytes, trimmed at both ends, if any are left.
pub read_strd : List ℕ → ℕ → ℕ → Option (List ℕ)
unfolding trim_start
read_strd b off len = elim (slice off len b) [
  | none ↦ none
  | some s ↦ elim (trim_start (trim_end (from_utf8_lossy s))) [ [] ↦ none | c ∷ cs ↦ some (c ∷ cs) ]
]

-- The root directory's record in a descriptor: where it lies, and its length.
pub root_record : List ℕ → ℕ × ℕ
root_record vd = elim (slice 156 34 vd) [ none ↦ (0, 0) | some rec ↦ (le_u32 rec 2, le_u32 rec 10) ]

pub is_joliet : List ℕ → Bool
is_joliet vd = elim (slice 88 3 vd) [
  | none ↦ false
  | some esc ↦
      bytes_eq esc (b'%' ∷ b'/' ∷ b'@' ∷ [])
      || bytes_eq esc (b'%' ∷ b'/' ∷ b'C' ∷ [])
      || bytes_eq esc (b'%' ∷ b'/' ∷ b'E' ∷ [])
]

-- An "NSR0" descriptor in one of the sectors left.
pub any_nsr : BlockSource → ℕ → ℕ → Bool
any_nsr src zero sec = false
any_nsr src (suc left) sec =
    bytes_eq (take 4 (read src (sec * sector + 1) 5)) (b'N' ∷ b'S' ∷ b'R' ∷ b'0' ∷ [])
    || any_nsr src left (sec + 1)

pub detect_udf : BlockSource → Bool
unfolding any_nsr
detect_udf src = le_u16 (read src (256 * sector) 16) 0 == 2 || any_nsr src 4 16

pub has_iso : BlockSource → Bool
has_iso src = bytes_eq (read src (16 * sector + 1) 5) cd001

pub data Kind : Type 0 where
  udf iso9660_udf iso9660 : Kind

pub record Probe : Type 0 where
  pub fs_kind : Kind
  pub confidence : ℕ
  pub block_size : ℕ
  pub label : Option (List ℕ)
  pub total_bytes : ℕ

pub probe : BlockSource → Option Probe
unfolding has_iso detect_udf read_strd
probe src =
    let iso = has_iso src in
    let udf = detect_udf src in
    let pvd = read src (16 * sector) sector in
    if not iso && not udf
    then none
    else some (record {
      fs_kind = if udf then (if iso then Kind.iso9660_udf else Kind.udf) else Kind.iso9660;
      confidence = if iso then 970 else 900;
      block_size = if iso then max (le_u16 pvd 128) 2048 else sector;
      label = if iso then read_strd pvd 40 32 else none;
      total_bytes = src.len;
    })

-- What the scan of the descriptors has found.
pub record Found : Type 0 where
  pub pvd_root : Option (ℕ × ℕ)
  pub joliet_root : Option (ℕ × ℕ)
  pub block_size : ℕ
  pub label : Option (List ℕ)

-- One descriptor that does not end the set.
pub take_descriptor : List ℕ → Found → Found
unfolding root_record is_joliet read_strd
take_descriptor vd f =
    let kind = get_or vd 0 0 in
    if kind == 1
    then record f {
      pvd_root = some (root_record vd);
      block_size = max (le_u16 vd 128) 2048;
      label = read_strd vd 40 32;
    }
    else if kind == 2 && is_joliet vd
    then record f { joliet_root = some (root_record vd) }
    else f

-- The loop over the descriptors, on those that are left.
pub descriptors : BlockSource → ℕ → ℕ → Found → Found
unfolding take_descriptor
descriptors src zero i f = f
descriptors src (suc left) i f =
    let vd = read src ((16 + i) * sector) sector in
    let rest = descriptors src left (i + 1) (take_descriptor vd f) in
    if not (bytes_eq (take 5 (drop 1 vd)) cd001) || get_or vd 0 0 == 255 then f else rest

pub data Opened : Type 0 where
  ok : Iso → Opened
  err : FsError → Opened

-- The volume of these descriptors, with the root that was chosen.
pub volume_of : BlockSource → Found → Bool → ℕ × ℕ → Opened
unfolding detect_udf
volume_of src f joliet root =
    if root.0 == 0
    then Opened.err FsError.corrupt
    else Opened.ok (record {
      src = src;
      block_size = f.block_size;
      root_lba = root.0;
      root_len = root.1;
      joliet = joliet;
      label = f.label;
      is_udf = detect_udf src;
    })

-- The volume descriptors' root: that of Joliet if there is one.
pub choose_root : BlockSource → Found → Opened
unfolding volume_of
choose_root src f = elim f.joliet_root [
  | some r ↦ volume_of src f true r
  | none ↦ elim f.pvd_root [ some r ↦ volume_of src f false r | none ↦ Opened.err FsError.corrupt ]
]

unfoldable pub open_volume : BlockSource → Opened
unfolding has_iso descriptors choose_root
open_volume src =
    let start : Found = record {
      pvd_root = none;
      joliet_root = none;
      block_size = sector;
      label = none;
    } in
    if has_iso src
    then choose_root src (descriptors src 32 0 start)
    else if detect_udf src
    then Opened.ok (record {
      src = src;
      block_size = sector;
      root_lba = 0;
      root_len = 0;
      joliet = false;
      label = none;
      is_udf = true;
    })
    else Opened.err FsError.not_this_fs
