-- ===== src/Portal/Users/Waiting.antt =====
-- Taking a request out of those that wait.
use headfwd.Common.{ℕ, zero, suc, ◌≡◌, refl, ap, none, some, List, [], ◌∷◌, ◌++◌}
use headfwd.Portal.Users.Steps.{take_out}

module _ {ℓ} {A : Type ℓ} where
  -- It is one of the elements, and the others keep their order.
  pub data Taken (i : ℕ) (xs : List A) : Type ℓ where
    missing : take_out i xs ≡ none → Taken i xs
    found :
        (before : List A) (x : A) (after : List A)
        → xs ≡ before ++ x ∷ after
        → take_out i xs ≡ some (x, before ++ after)
        → Taken i xs

  pub taken : (i : ℕ) (xs : List A) → Taken i xs
  taken i [] = missing refl
  taken zero (x ∷ xs) = found [] x xs refl refl
  taken (suc i) (x ∷ xs) = elim (taken i xs) [
    | missing e ↦ missing (rw e refl)
    | found before y after split e ↦ found (x ∷ before) y after (ap (λ l. x ∷ l) split) (rw e refl)
  ]
