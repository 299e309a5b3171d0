-- ===== src/Portal/Countdown.antt =====
-- `useCountdown` of headfwd-sidecar/portal/frontend/src/components/Users.tsx. Times are milliseconds
-- since 1970; `new Date` is a parameter, and gives `none` for a text that is no date.
pub mod Label
use headfwd.Common.{
  ℕ, zero, suc, ◌+◌, ◌-◌, ◌*◌, ◌/◌, ◌%◌, Bool, true, false, Option, none, some, List, [], ◌∷◌, ◌++◌,
  Text, codes, leb, if◌then◌else◌,
}
use headfwd.Portal.Decimal.{decimal}

pub record Countdown : Type 0 where
  pub label : Text
  pub expired : Bool

-- `padStart(2, "0")`.
abbrev pub pad_start : Text → Text
pad_start [] = b'0' ∷ b'0' ∷ []
pad_start (c ∷ []) = b'0' ∷ c ∷ []
pad_start (c ∷ d ∷ s) = c ∷ d ∷ s

unfoldable pub label_of : ℕ → Text
label_of secs_left =
    decimal (secs_left / 60) ++ (codes "m " ++ (pad_start (decimal (secs_left % 60)) ++ codes "s"))

-- The difference is rounded down, and where it is not positive the key has expired.
unfoldable pub remaining : ℕ → ℕ → Countdown
unfolding label_of
remaining expires now =
    let secs_left = (expires - now) / 1000 in
    if leb secs_left 0
    then record { label = codes "Expired"; expired = true }
    else record { label = label_of secs_left; expired = false }

module _ (read_date : Text → Option ℕ) where
  -- Comparisons with NaN are false, and it prints as such.
  abbrev of_date : Option ℕ → ℕ → Countdown
  unfolding remaining
  of_date none now = record { label = codes "NaNm NaNs"; expired = false }
  of_date (some expires) now = remaining expires now

  unfoldable pub use_countdown : Option Text → ℕ → Countdown
  unfolding of_date
  use_countdown none now = record { label = []; expired = false }
  use_countdown (some []) now = record { label = []; expired = false }
  use_countdown (some (c ∷ s)) now = of_date (read_date (c ∷ s)) now
