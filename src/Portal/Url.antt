-- ===== src/Portal/Url.antt =====
-- The path of an address as the URL parser, to which `fetch` passes it, leaves it: the segments `.`
-- and `..` are taken away. The spellings of a dot with a percent sign, which neither the program
-- nor `encodeURIComponent` writes, are left out.
pub mod Slashes
use headfwd.Common.{ℕ, Bool, List, [], ◌∷◌, ◌++◌, Text, codes, text_eq, ◌==◌, if◌then◌else◌}

abbrev pub cons_head : ℕ → List Text → List Text
cons_head c [] = (c ∷ []) ∷ []
cons_head c (s ∷ ss) = (c ∷ s) ∷ ss

unfoldable pub split_slash : Text → List Text
split_slash [] = [] ∷ []
split_slash (c ∷ s) = let rest = split_slash s in if c == b'/' then [] ∷ rest else cons_head c rest

abbrev pub shorter : List Text → List Text
shorter [] = []
shorter (s ∷ ss) = ss

abbrev pub is_dot : Text → Bool
is_dot s = text_eq s (codes ".")

abbrev pub is_double_dot : Text → Bool
is_double_dot s = text_eq s (codes "..")

-- The stack has the last segment first. A dot segment at the end leaves an empty one.
abbrev pub last_segment : List Text → Text → List Text
last_segment stack s =
    if is_double_dot s then [] ∷ shorter stack else if is_dot s then [] ∷ stack else s ∷ stack

abbrev pub segment : List Text → Text → List Text
segment stack s = if is_double_dot s then shorter stack else if is_dot s then stack else s ∷ stack

unfoldable pub remove_dots : List Text → List Text → List Text
remove_dots stack [] = stack
remove_dots stack (s ∷ []) = last_segment stack s
remove_dots stack (s ∷ t ∷ ss) = remove_dots (segment stack s) (t ∷ ss)

abbrev pub join : List Text → Text → Text
join [] path = path
join (s ∷ ss) path = join ss (b'/' ∷ (s ++ path))

unfoldable pub parse_path : Text → Text
unfolding split_slash remove_dots
parse_path [] = codes "/"
parse_path (c ∷ s) = join (remove_dots [] (split_slash s)) []
