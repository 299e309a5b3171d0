-- ===== src/Base64/RoundTrip.antt =====
-- Encoding bytes in chunks loses nothing.
use headfwd.Common.{
  ℕ, zero, suc, ◌%◌, ◌≤◌, ◌≡◌, refl, sym, ap, ◌∙◌, some, [], ◌∷◌, ◌++◌, map, Text, All, length,
  take, drop, length-drop, take-append-drop, arith,
}
use mathlib.Core.List.{append-nil, append_assoc}
use headfwd.Hex.{Bytes, IsByte}
use headfwd.Platform.{Base64}
use headfwd.Base64.{chunk_size, join_chunks, to_base64, from_base64}

-- With fuel for every byte the loop ends with the whole input.
join_chunks-append :
    (fuel : ℕ) (rest : Bytes) (binary : Text)
    → length rest ≤ fuel
    → join_chunks fuel rest binary ≡ binary ++ rest
unfolding join_chunks
join_chunks-append zero [] binary h = sym (append-nil binary)
join_chunks-append zero (b ∷ rest) binary h = absurd (omega arith)
join_chunks-append (suc fuel) [] binary h = sym (append-nil binary)
join_chunks-append (suc fuel) (b ∷ rest) binary h =
    join_chunks-append fuel (drop chunk_size (b ∷ rest)) (binary ++ take chunk_size (b ∷ rest))
      (omega (arith, length-drop chunk_size (b ∷ rest)))
    ∙ rw append_assoc (ap (◌++◌ binary) (take-append-drop chunk_size (b ∷ rest)))

map-mod : (bs : Bytes) → All IsByte bs → map (λ u. u % 256) bs ≡ bs
map-mod [] h = refl
map-mod (b ∷ bs) (p, h) = let low : b % 256 ≡ b = omega arith in cc (low, map-mod bs h)

-- Bytes of any number are encoded, without an exception, to a text that decodes to them.
pub from_base64-to_base64 :
    (c : Base64) (bs : Bytes)
    → All IsByte bs
    → (t : Text) × (to_base64 c bs ≡ some t) × (from_base64 c t ≡ some bs)
unfolding to_base64 from_base64
from_base64-to_base64 c bs h =
    let (t, e) = c.btoa_bytes bs h in
    let joined = join_chunks-append (length bs) bs [] (omega arith) in
    (t, ap c.btoa joined ∙ e, rw (c.atob-btoa bs t e) (ap some (map-mod bs h)))
