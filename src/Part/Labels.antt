-- ===== src/Part/Labels.antt =====
-- crates/reclaim-part/src/{guid.rs,lib.rs,mbr.rs}: the names of partition types.
use Prim.Native.String.{String, ◌++◌}
use text.Mathlib.Text.{◌==◌ as str_eq}
use reclaim.Prelude.{
  ℕ, ◌/◌, ◌%◌, Bool, true, ◌&&◌, ◌||◌, Option, none, some, List, [], ◌∷◌, ltb, leb, ◌==◌,
  if◌then◌else◌, length, get_or, take,
}

-- One upper-case hexadecimal digit.
pub hex_digit : ℕ → String
hex_digit d =
    if d == 0
    then "0"
    else if d == 1
    then "1"
    else if d == 2
    then "2"
    else if d == 3
    then "3"
    else if d == 4
    then "4"
    else if d == 5
    then "5"
    else if d == 6
    then "6"
    else if d == 7
    then "7"
    else if d == 8
    then "8"
    else if d == 9
    then "9"
    else if d == 10
    then "A"
    else if d == 11
    then "B"
    else if d == 12
    then "C"
    else if d == 13
    then "D"
    else if d == 14
    then "E"
    else "F"

-- The format `{:02X}` of a byte.
pub hex_byte : ℕ → String
unfolding hex_digit
hex_byte b = hex_digit (b / 16) ++ hex_digit (b % 16)

-- `{:02X}` of the bytes at the given positions, one after the other.
pub hex_bytes : List ℕ → List ℕ → String
unfolding hex_byte
hex_bytes raw [] = ""
hex_bytes raw (i ∷ is) = hex_byte (get_or raw i 0) ++ hex_bytes raw is

-- The first three groups are little-endian numbers, so their bytes are printed last to first.
pub guid_to_string : List ℕ → String
unfolding hex_bytes
guid_to_string raw =
    if ltb (length raw) 16
    then ""
    else hex_bytes raw (3 ∷ 2 ∷ 1 ∷ 0 ∷ [])
      ++ ("-"
          ++ (hex_bytes raw (5 ∷ 4 ∷ [])
              ++ ("-"
                  ++ (hex_bytes raw (7 ∷ 6 ∷ [])
                      ++ ("-"
                          ++ (hex_bytes raw (8 ∷ 9 ∷ [])
                              ++ ("-" ++ hex_bytes raw (10 ∷ 11 ∷ 12 ∷ 13 ∷ 14 ∷ 15 ∷ []))))))))

pub all_zero : List ℕ → Bool
all_zero [] = true
all_zero (b ∷ bs) = b == 0 && all_zero bs

pub is_zero_guid : List ℕ → Bool
unfolding all_zero
is_zero_guid raw = leb 16 (length raw) && all_zero (take 16 raw)

-- The first match of a table, as a `match` on text reads it.
pub find_label : String → List (String × String) → String
find_label key [] = "Unknown"
find_label key ((k, v) ∷ rows) = if str_eq key k then v else find_label key rows

abbrev pub guid_table : List (String × String)
guid_table =
    ("7C3457EF-0000-11AA-AA11-00306543ECAC", "Apple APFS")
    ∷ ("48465300-0000-11AA-AA11-00306543ECAC", "Apple HFS+")
    ∷ ("53746F72-6167-11AA-AA11-00306543ECAC", "Apple Core Storage")
    ∷ ("426F6F74-0000-11AA-AA11-00306543ECAC", "Apple Boot (Recovery)")
    ∷ ("55465300-0000-11AA-AA11-00306543ECAC", "Apple UFS")
    ∷ ("52414944-0000-11AA-AA11-00306543ECAC", "Apple RAID")
    ∷ ("52414944-5F4F-11AA-AA11-00306543ECAC", "Apple RAID offline")
    ∷ ("4C616265-6C00-11AA-AA11-00306543ECAC", "Apple Label")
    ∷ ("C12A7328-F81F-11D2-BA4B-00A0C93EC93B", "EFI System")
    ∷ ("024DEE41-33E7-11D3-9D69-0008C781F39F", "MBR partition scheme")
    ∷ ("EBD0A0A2-B9E5-4433-87C0-68B6B72699C7", "Microsoft Basic Data")
    ∷ ("E3C9E316-0B5C-4DB8-817D-F92DF00215AE", "Microsoft Reserved")
    ∷ ("DE94BBA4-06D1-4D40-A16A-BFD50179D6AC", "Windows Recovery")
    ∷ ("5808C8AA-7E8F-42E0-85D2-E1E90434CFB3", "Windows LDM metadata")
    ∷ ("AF9B60A0-1431-4F62-BC68-3311714A69AD", "Windows LDM data")
    ∷ ("0FC63DAF-8483-4772-8E79-3D69D8477DE4", "Linux filesystem")
    ∷ ("0657FD6D-A4AB-43C4-84E5-0933C84B4F4F", "Linux swap")
    ∷ ("E6D6D379-F507-44C2-A23C-238F2A3DF928", "Linux LVM")
    ∷ ("A19D880F-05FC-4D3B-A006-743F0F84911E", "Linux RAID")
    ∷ ("21686148-6449-6E6F-744E-656564454649", "BIOS boot")
    ∷ []

-- `guid::type_label`
pub guid_type_label : String → String
unfolding find_label
guid_type_label guid = find_label guid guid_table

pub gpt_fs_hint : String → Option String
gpt_fs_hint label =
    if str_eq label "Apple APFS"
    then some "apfs"
    else if str_eq label "Apple HFS+"
    then some "hfs+"
    else if str_eq label "Apple Core Storage"
    then some "core-storage"
    else if str_eq label "Microsoft Basic Data"
    then some "exfat/ntfs/fat"
    else if str_eq label "Linux filesystem"
    then some "linux"
    else if str_eq label "EFI System"
    then some "fat"
    else none

pub mbr_type_label : ℕ → String
mbr_type_label t =
    if t == 0x01
    then "FAT12"
    else if t == 0x04 || t == 0x06
    then "FAT16"
    else if t == 0x0B || t == 0x0C
    then "FAT32"
    else if t == 0x07
    then "exFAT / NTFS / HPFS"
    else if t == 0x0E
    then "FAT16 LBA"
    else if t == 0x05 || (t == 0x0F || t == 0x85)
    then "Extended"
    else if t == 0x82
    then "Linux swap"
    else if t == 0x83
    then "Linux"
    else if t == 0xAF
    then "Apple HFS/HFS+"
    else if t == 0xAB
    then "Apple Boot"
    else if t == 0xEE
    then "GPT protective"
    else if t == 0xEF
    then "EFI System"
    else "Unknown"

pub mbr_fs_hint : ℕ → Option String
mbr_fs_hint t =
    if t == 0x01 || (t == 0x04 || (t == 0x06 || t == 0x0E))
    then some "fat"
    else if t == 0x0B || t == 0x0C
    then some "fat32"
    else if t == 0x07
    then some "exfat/ntfs"
    else if t == 0xAF
    then some "hfs+"
    else if t == 0x83
    then some "linux"
    else if t == 0xEE
    then some "gpt-protective"
    else none
