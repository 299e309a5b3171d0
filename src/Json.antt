-- ===== src/Json.antt =====
-- The JavaScript values that `JSON.parse` and `request.json()` give, and how the handlers of
-- headfwd-proxy/src/index.ts look into them. `none` stands for `undefined`. Numbers are natural:
-- the code reads no other, and a number only decides whether a value counts as false.
use headfwd.Common.{
  ℕ, zero, suc, Bool, true, false, Option, none, some, [], ◌∷◌, Text, text_eq, if◌then◌else◌,
}

mutual
  pub data Value : Type 0 where
    null : Value
    bool : Bool → Value
    num : ℕ → Value
    str : Text → Value
    arr : Items → Value
    obj : Fields → Value

  pub data Items : Type 0 where
    nil : Items
    cons : Value → Items → Items

  pub data Fields : Type 0 where
    end : Fields
    field : Text → Value → Fields → Fields

unfoldable pub find : Text → Fields → Option Value
find k end = none
find k (field j v fs) = if text_eq j k then some v else find k fs

abbrev pub count : Items → ℕ
count nil = 0
count (cons v vs) = suc (count vs)

-- `const { k } = v`, for a name k that only objects of the program have. The outer `none` is the
-- exception on `null`.
unfoldable pub member : Text → Value → Option (Option Value)
unfolding find
member k null = none
member k (bool b) = some none
member k (num n) = some none
member k (str s) = some none
member k (arr vs) = some none
member k (obj fs) = some (find k fs)

-- Whether a value counts as true in a test.
abbrev pub truthy : Option Value → Bool
truthy none = false
truthy (some null) = false
truthy (some (bool b)) = b
truthy (some (num zero)) = false
truthy (some (num (suc n))) = true
truthy (some (str [])) = false
truthy (some (str (c ∷ s))) = true
truthy (some (arr vs)) = true
truthy (some (obj fs)) = true

-- A value on which a method of strings is called: any other throws.
abbrev pub as_string : Option Value → Option Text
as_string (some (str s)) = some s
as_string _ = none
