-- ===== src/Portal/Countdown/Label.antt =====
-- What a countdown says of the time that is left.
use native.Mathlib.Decide.{dec_lt}
use headfwd.Common.{
  ◌≤◌, ◌-◌, false, leb, ℕ, zero, suc, ◌+◌, ◌*◌, ◌/◌, ◌%◌, ◌<◌, ◌≡◌, refl, ap, ◌∙◌, true, [], ◌∷◌,
  ◌++◌, Text, codes, arith,
}
use headfwd.Portal.Decimal.{decimal, write_digits, read_decimal, read-write_digits}
use headfwd.Portal.Countdown.{Countdown, pad_start, label_of, remaining}

-- The seconds of a label, read by its digits: minutes, two characters, seconds.
abbrev seconds_of : ℕ → ℕ × Text → ℕ
seconds_of m (s, rest) = m * 60 + s

abbrev after_minutes : ℕ × Text → ℕ
after_minutes (m, _ ∷ _ ∷ rest) = seconds_of m (read_decimal 0 rest)
after_minutes (m, rest) = m * 60

abbrev pub read_label : Text → ℕ
read_label s = after_minutes (read_decimal 0 s)

write_digits-append :
    (fuel n : ℕ) (out s : Text) → write_digits fuel n out ++ s ≡ write_digits fuel n (out ++ s)
unfolding write_digits
write_digits-append zero n out s = refl
write_digits-append (suc fuel) n out s =
    ground (arith, write_digits-append fuel (n / 10) ((b'0' + n % 10) ∷ out) s)

read_then : (n : ℕ) (s : Text) → read_decimal 0 (decimal n ++ s) ≡ read_decimal n s
unfolding decimal
read_then n s =
    ap (read_decimal 0) (write_digits-append (suc n) n [] s)
    ∙ read-write_digits (suc n) n s (omega arith)

-- A leading zero changes nothing.
read_padded : (t s : Text) → read_decimal 0 (pad_start t ++ s) ≡ read_decimal 0 (t ++ s)
unfolding read_decimal
read_padded [] s = refl
read_padded (c ∷ []) s = refl
read_padded (c ∷ d ∷ t) s = refl

-- A label gives back the seconds that are left.
pub read_label-label_of : (n : ℕ) → read_label (label_of n) ≡ n
unfolding label_of read_decimal
read_label-label_of n =
    let tail = pad_start (decimal (n % 60)) ++ codes "s" in
    let minutes : read_label (label_of n) ≡ seconds_of (n / 60) (read_decimal 0 tail) =
      ap after_minutes (read_then (n / 60) (codes "m " ++ tail)) in
    let seconds : read_decimal 0 tail ≡ (n % 60, codes "s") =
      read_padded (decimal (n % 60)) (codes "s") ∙ read_then (n % 60) (codes "s") in
    minutes ∙ ap (seconds_of (n / 60)) seconds ∙ omega arith

-- What a countdown shows for a time: that it has passed, or a label for the seconds that are left.
pub data Shows (expires now : ℕ) : Countdown → Type 0 where
  passed :
      expires < now + 1000 → Shows expires now (record { label = codes "Expired"; expired = true })
  left :
      (label : Text)
      → 1 ≤ read_label label
      → now + read_label label * 1000 ≤ expires
      → expires < now + (read_label label + 1) * 1000
      → Shows expires now (record { label = label; expired = false })

left_for :
    (expires now : ℕ)
    → now + 1000 ≤ expires
    → Shows expires now (record { label = label_of ((expires - now) / 1000); expired = false })
left_for expires now h =
    let back = read_label-label_of ((expires - now) / 1000) in
    left (label_of ((expires - now) / 1000)) (omega (arith, back)) (omega (arith, back))
      (omega (arith, back))

none_left : (expires now : ℕ) → expires < now + 1000 → leb ((expires - now) / 1000) 0 ≡ true
none_left expires now h = ground arith

some_left : (expires now : ℕ) → now + 1000 ≤ expires → leb ((expires - now) / 1000) 0 ≡ false
some_left expires now h = ground arith

-- A key counts as expired exactly while less than one second is left until its time, or none; before
-- that the label, read back, gives the whole seconds that are left, at least one, with less than a
-- second more.
pub remaining-Shows : (expires now : ℕ) → Shows expires now (remaining expires now)
unfolding remaining
remaining-Shows expires now = elim (dec_lt expires (now + 1000)) [
  | yes soon ↦ rw (none_left expires now soon) (passed soon)
  | no later ↦ rw (some_left expires now (omega arith)) (left_for expires now (omega arith))
]
