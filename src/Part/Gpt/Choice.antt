-- ===== src/Part/Gpt/Choice.antt =====
-- Which of the two headers gpt.rs trusts.
use reclaim.Prelude.{
  ◌≡◌, refl, ◌↔◌, inl, inr, Bool, false, ◌&&◌, ◌||◌, Option, none, some, List, arith, if◌then◌else◌,
  Bool-cases,
}
use reclaim.Part.Types.{Note}
use reclaim.Part.Gpt.{Header, choose_header}

-- A header was read and its checksum holds.
abbrev pub checks : Option Header → Bool
checks none = false
checks (some h) = h.header_crc_ok

-- The header that is used comes from the copy that the flag names, the backup only when the primary
-- does not check, and it checks exactly when one of the two copies does.
pub choose_header_lem :
    (primary backup : Option Header) (h : Header) (used_backup : Bool) (notes : List Note)
    → choose_header primary backup ≡ some (h, used_backup, notes)
    → ((if used_backup then backup else primary) ≡ some h)
      × (h.header_crc_ok ≡ (checks primary || checks backup))
      × ((used_backup && checks primary) ≡ false)
unfolding choose_header
choose_header_lem none none h u notes e = ground arith
choose_header_lem none (some b) h u notes e = elim (Bool-cases b.header_crc_ok) [
  | inl ok ↦ ground arith
  | inr bad ↦ ground arith
]
choose_header_lem (some p) none h u notes e = elim (Bool-cases p.header_crc_ok) [
  | inl ok ↦ ground arith
  | inr bad ↦ ground arith
]
choose_header_lem (some p) (some b) h u notes e = elim (Bool-cases p.header_crc_ok) [
  | inl ok ↦ ground arith
  | inr bad ↦ elim (Bool-cases b.header_crc_ok) [ inl ok ↦ ground arith | inr bad ↦ ground arith ]
]

-- A header is missing from the outcome exactly when neither copy could be read.
pub choose_header-none :
    (primary backup : Option Header)
    → (choose_header primary backup ≡ none) ↔ ((primary ≡ none) × (backup ≡ none))
unfolding choose_header
choose_header-none none none = (λ e. (refl, refl), λ e. refl)
choose_header-none none (some b) = ground arith
choose_header-none (some p) none = ground arith
choose_header-none (some p) (some b) = ground arith
