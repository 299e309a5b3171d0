-- ===== src/Tunnel/Handles.antt =====
-- The list of pending requests: their handles rise, and their timers stand in the same order.
use headfwd.Common.{
  ℕ, suc, ◌+◌, ◌≤◌, ◌<◌, ◌≡◌, refl, Bool, true, false, none, some, List, [], ◌∷◌, ◌++◌, Text,
  text_eq_iff, ◌==◌, arith,
}
use headfwd.Common.Dict.{Dict, lookup, insert, erase, HasDistinctKeys}
use headfwd.Tunnel.State.{clear_timer}

-- The handles lie between two bounds and rise along the list.
abbrev pub Rising : ℕ → Dict ℕ → ℕ → Type 0
Rising lo [] hi = lo ≤ hi
Rising lo ((id, h) ∷ m) hi = (lo ≤ h) × Rising (suc h) m hi

-- The timers that the pending requests need.
abbrev pub timers_of : Dict ℕ → List (ℕ × Text)
timers_of [] = []
timers_of ((id, h) ∷ m) = (h, id) ∷ timers_of m

abbrev pub one_if : Bool → ℕ
one_if true = 1
one_if false = 0

-- How many pending requests have a handle.
abbrev pub count_pending : ℕ → Dict ℕ → ℕ
count_pending h [] = 0
count_pending h ((id, k) ∷ m) = one_if (k == h) + count_pending h m

abbrev pub count_settled {ℓ} : {S : Type ℓ} → ℕ → List (ℕ × S) → ℕ
count_settled h [] = 0
count_settled h ((k, s) ∷ l) = one_if (k == h) + count_settled h l

pub count_settled-append {ℓ} :
    {S : Type ℓ} (h : ℕ) (l : List (ℕ × S)) (k : ℕ) (s : S)
    → count_settled h (l ++ (k, s) ∷ []) ≡ count_settled h l + one_if (k == h)
count_settled-append h [] k s = omega arith
count_settled-append h ((j, r) ∷ l) k s = omega (arith, count_settled-append h l k s)

pub Rising-le : (m : Dict ℕ) (lo hi : ℕ) → Rising lo m hi → lo ≤ hi
Rising-le [] lo hi r = r
Rising-le ((j, k) ∷ m) lo hi (p, r) = omega (arith, Rising-le m (suc k) hi r)

pub lookup-Rising :
    (m : Dict ℕ) (lo hi h : ℕ) (id : Text)
    → Rising lo m hi
    → lookup id m ≡ some h
    → (lo ≤ h) × (h < hi)
unfolding lookup
lookup-Rising [] lo hi h id r e = cc
lookup-Rising ((j, k) ∷ m) lo hi h id (p, r) e =
    ground (arith, Rising-le m (suc k) hi r, lookup-Rising m (suc k) hi h id r)

pub insert-Rising :
    (m : Dict ℕ) (lo hi : ℕ) (id : Text)
    → lookup id m ≡ none
    → Rising lo m hi
    → Rising lo (insert id hi m) (suc hi)
unfolding lookup insert
insert-Rising [] lo hi id n r = (r, omega arith)
insert-Rising ((j, k) ∷ m) lo hi id n (p, r) = ground (arith, insert-Rising m (suc k) hi id)

Rising-weaken : (m : Dict ℕ) (lo lo' hi : ℕ) → lo' ≤ lo → Rising lo m hi → Rising lo' m hi
Rising-weaken [] lo lo' hi h r = omega arith
Rising-weaken ((j, k) ∷ m) lo lo' hi h (p, r) = (omega arith, r)

pub erase-Rising : (m : Dict ℕ) (lo hi : ℕ) (id : Text) → Rising lo m hi → Rising lo (erase id m) hi
unfolding erase
erase-Rising [] lo hi id r = r
erase-Rising ((j, k) ∷ m) lo hi id (p, r) =
    ground (arith, erase-Rising m (suc k) hi id r, Rising-weaken (erase id m) (suc k) lo hi)

pub timers_of-insert :
    (m : Dict ℕ) (id : Text) (h : ℕ)
    → lookup id m ≡ none
    → timers_of (insert id h m) ≡ timers_of m ++ (h, id) ∷ []
unfolding lookup insert
timers_of-insert [] id h n = refl
timers_of-insert ((j, k) ∷ m) id h n = ground (arith, timers_of-insert m id h)

erase_absent : (m : Dict ℕ) (id : Text) → lookup id m ≡ none → erase id m ≡ m
unfolding lookup erase
erase_absent [] id n = refl
erase_absent ((j, k) ∷ m) id n = ground (arith, erase_absent m id)

pub clear_timer_below :
    (m : Dict ℕ) (lo hi h : ℕ) → h < lo → Rising lo m hi → clear_timer h (timers_of m) ≡ timers_of m
unfolding clear_timer
clear_timer_below [] lo hi h lt r = refl
clear_timer_below ((j, k) ∷ m) lo hi h lt (p, r) =
    ground (arith, clear_timer_below m (suc k) hi h (omega arith) r)

-- Clearing the timer of a pending request, and deleting the request.
pub clear_timer-erase :
    (m : Dict ℕ) (lo hi h : ℕ) (id : Text)
    → HasDistinctKeys m
    → Rising lo m hi
    → lookup id m ≡ some h
    → clear_timer h (timers_of m) ≡ timers_of (erase id m)
unfolding lookup erase clear_timer
clear_timer-erase [] lo hi h id d r e = cc
clear_timer-erase ((j, k) ∷ m) lo hi h id (n, d) (p, r) e = ground (
  arith,
  text_eq_iff j id,
  erase_absent m j n,
  clear_timer_below m (suc k) hi h,
  lookup-Rising m (suc k) hi h id r,
  clear_timer-erase m (suc k) hi h id d r,
)

pub count_pending-insert :
    (m : Dict ℕ) (id : Text) (h k : ℕ)
    → lookup id m ≡ none
    → count_pending h (insert id k m) ≡ count_pending h m + one_if (k == h)
unfolding lookup insert
count_pending-insert [] id h k n = omega arith
count_pending-insert ((j, i) ∷ m) id h k n = ground (arith, count_pending-insert m id h k)

pub count_pending-erase :
    (m : Dict ℕ) (id : Text) (h k : ℕ)
    → HasDistinctKeys m
    → lookup id m ≡ some k
    → count_pending h (erase id m) + one_if (k == h) ≡ count_pending h m
unfolding lookup erase
count_pending-erase [] id h k d e = cc
count_pending-erase ((j, i) ∷ m) id h k (n, d) e =
    ground (arith, text_eq_iff j id, erase_absent m j n, count_pending-erase m id h k d)

pub clear_timer_head :
    (m : Dict ℕ) (id : Text) (h hi : ℕ)
    → Rising (suc h) m hi
    → clear_timer h (timers_of ((id, h) ∷ m)) ≡ timers_of m
unfolding clear_timer
clear_timer_head m id h hi r = ground (arith, clear_timer_below m (suc h) hi h (omega arith) r)
