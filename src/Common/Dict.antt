-- ===== src/Common/Dict.antt =====
-- A JavaScript `Map` with string keys: an association list in the order of insertion.

use mathlib.Core.Path.{◌≡◌, refl, ap, subst}
use mathlib.Core.Logic.{inl, inr}
use mathlib.Core.Bool.{Bool}
use mathlib.Core.Option.{Option, none, some}
use mathlib.Core.List.{List, [], ◌∷◌}
use native.Mathlib.Omega.{arith}
use headfwd.Common.Tests.{if◌then◌else◌}
use headfwd.Common.Strings.{Text, text_eq, text_eq_iff, text_cases}

abbrev pub Dict {ℓ} : Type ℓ → Type ℓ
Dict V = List (Text × V)

module _ {ℓ} {V : Type ℓ} where
  -- `m.get(k)`.
  unfoldable pub lookup : Text → Dict V → Option V
  lookup k [] = none
  lookup k ((j, v) ∷ m) = if text_eq j k then some v else lookup k m

  -- `m.set(k, v)`.
  unfoldable pub insert : Text → V → Dict V → Dict V
  insert k v [] = (k, v) ∷ []
  insert k v ((j, w) ∷ m) = if text_eq j k then (j, v) ∷ m else (j, w) ∷ insert k v m

  -- `m.delete(k)`.
  unfoldable pub erase : Text → Dict V → Dict V
  erase k [] = []
  erase k ((j, w) ∷ m) = let rest = erase k m in if text_eq j k then rest else (j, w) ∷ rest

  pub lookup-insert :
      (k j : Text) (v : V) (m : Dict V)
      → lookup j (insert k v m) ≡ (if text_eq k j then some v else lookup j m)
  unfolding lookup insert
  lookup-insert k j v [] = refl
  lookup-insert k j v ((i, w) ∷ m) =
      ground (arith, text_eq_iff k j, text_eq_iff i k, text_eq_iff i j, lookup-insert k j v m)

  pub lookup-erase :
      (k j : Text) (m : Dict V) → lookup j (erase k m) ≡ (if text_eq k j then none else lookup j m)
  unfolding lookup erase
  lookup-erase k j [] = ground arith
  lookup-erase k j ((i, w) ∷ m) =
      ground (arith, text_eq_iff k j, text_eq_iff i k, text_eq_iff i j, lookup-erase k j m)

  -- A `Map` holds each key once.
  abbrev pub HasDistinctKeys : Dict V → Type ℓ
  HasDistinctKeys [] = Unit
  HasDistinctKeys ((k, v) ∷ m) = (lookup k m ≡ none) × HasDistinctKeys m

  pub insert-HasDistinctKeys :
      (k : Text) (v : V) (m : Dict V) → HasDistinctKeys m → HasDistinctKeys (insert k v m)
  unfolding insert lookup
  insert-HasDistinctKeys k v [] h = (refl, tt)
  insert-HasDistinctKeys k v ((j, w) ∷ m) (n, h) = ground (
    arith,
    lookup-insert k j v m,
    text_eq_iff j k,
    text_eq_iff k j,
    insert-HasDistinctKeys k v m h,
  )

  pub erase-HasDistinctKeys :
      (k : Text) (m : Dict V) → HasDistinctKeys m → HasDistinctKeys (erase k m)
  unfolding erase
  erase-HasDistinctKeys k [] h = tt
  erase-HasDistinctKeys k ((j, w) ∷ m) (n, h) =
      ground (arith, lookup-erase k j m, erase-HasDistinctKeys k m h)

abbrev pick {ℓ} : {A : Type ℓ} → A → A → Bool → A
pick x y b = if b then x else y

module _ {ℓ κ} {V : Type ℓ} (P : Text → V → Type κ) where
  -- What holds of each value that the map has for a key.
  abbrev pub Each : Dict V → Type (ℓ ⊔ κ)
  Each m = (k : Text) (v : V) → lookup k m ≡ some v → P k v

  pub insert-Each : (k : Text) (v : V) (m : Dict V) → P k v → Each m → Each (insert k v m)
  insert-Each k v m p h j w e = elim (text_cases k j) [
    | inl (same, test) ↦
        let read : v ≡ w = cc (e, lookup-insert k j v m, ap (pick (some v) (lookup j m)) test) in
        subst (λ x. P x w) same (subst (P k) read p)
    | inr test ↦ h j w (cc (e, lookup-insert k j v m, ap (pick (some v) (lookup j m)) test))
  ]

  pub erase-Each : (k : Text) (m : Dict V) → Each m → Each (erase k m)
  erase-Each k m h j w e = elim (text_cases k j) [
    | inl (same, test) ↦ cc (e, lookup-erase k j m, ap (pick none (lookup j m)) test)
    | inr test ↦ h j w (cc (e, lookup-erase k j m, ap (pick none (lookup j m)) test))
  ]
