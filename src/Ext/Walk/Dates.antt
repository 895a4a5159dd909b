-- ===== src/Ext/Walk/Dates.antt =====
-- Dates: from day to day, as the calendar goes.
use native.Mathlib.Decide.{ℕ_discrete}
use reclaim.Prelude.{
  ℕ, zero, suc, ◌+◌, ◌%◌, ◌≤◌, ◌<◌, ◌≡◌, refl, Bool, true, false, not, ◌&&◌, ◌||◌, arith, ltb, ◌==◌,
  if◌then◌else◌,
}
use reclaim.Ext.Walk.{civil_from_days}

is_leap : ℕ → Bool
is_leap y = (y % 4 == 0 && not (y % 100 == 0)) || y % 400 == 0

-- The days of a month.
month_days : ℕ → ℕ → ℕ
unfolding is_leap
month_days y m =
    if m == 2
    then (if is_leap y then 29 else 28)
    else if m == 4 || m == 6 || m == 9 || m == 11
    then 30
    else 31

-- The day after.
pub next_day : ℕ × ℕ × ℕ → ℕ × ℕ × ℕ
unfolding month_days
next_day (y, m, d) =
    if ltb d (month_days y m)
    then (y, m, d + 1)
    else if m == 12
    then (y + 1, 1, 1)
    else (y, m + 1, 1)

same_date : ℕ × ℕ × ℕ → ℕ × ℕ × ℕ → Bool
same_date (y, m, d) (y', m', d') = y == y' && m == m' && d == d'

same_date_sound : (a b : ℕ × ℕ × ℕ) → same_date a b ≡ true → a ≡ b
unfolding same_date
same_date_sound (y, m, d) (y', m', d') h = ground arith

-- The days from `k` on for `n` days, each after the one before.
days_follow : ℕ → ℕ → Bool
unfolding same_date next_day
days_follow zero k = true
days_follow (suc n) k =
    same_date (civil_from_days (k + 1)) (next_day (civil_from_days k)) && days_follow n (k + 1)

split_and : (a b : Bool) → (a && b) ≡ true → (a ≡ true) × (b ≡ true)
split_and true b h = (refl, h)
split_and false b h = cc

days_follow_sound :
    (n k i : ℕ)
    → days_follow n k ≡ true
    → k ≤ i
    → i < k + n
    → civil_from_days (i + 1) ≡ next_day (civil_from_days i)
unfolding days_follow
days_follow_sound zero k i h lo hi = absurd (omega arith)
days_follow_sound (suc n) k i h lo hi =
    let now = split_and _ _ h in
    elim (ℕ_discrete k i) [
      | yes here ↦ rw (← here) (same_date_sound _ _ now.0)
      | no later ↦ days_follow_sound n (k + 1) i now.1 (omega arith) (omega arith)
    ]

all_follow : days_follow 49_711 0 ≡ true
unfolding days_follow civil_from_days
all_follow = refl

-- For every day that a 32-bit number of seconds reaches, the date of the next day is the next date
-- of the Gregorian calendar, and day 0 is 1970-01-01.
pub civil_from_days_lem :
    (days : ℕ)
    → days < 49_711
    → (civil_from_days 0 ≡ (1970, 1, 1))
      × (civil_from_days (days + 1) ≡ next_day (civil_from_days days))
unfolding civil_from_days
civil_from_days_lem days h =
    (refl, days_follow_sound 49_711 0 days all_follow (omega arith) (omega arith))
