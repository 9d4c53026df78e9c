-- ===== src/Json.antt =====
-- The JSON values of a request as Python's objects, their truth values and `int(…)` of them.
use secure_voting_platform.Prelude.{
  Bool, true, false, not, ◌&&◌, ◌||◌, Option, none, some, if◌then◌else◌,
}
use secure_voting_platform.Prelude.Int.{ℤ, pos, is_zero}
use secure_voting_platform.Prelude.Text.{Text, is_empty, text_eq, int_of_text}

-- A float by what the program asks of it: is it zero, and what is its integer part.
pub data Float : Type 0 where
  finite : (zero_value : Bool) (trunc : ℤ) → Float
  infinite nan : Float

mutual
  pub data Json : Type 0 where
    null : Json
    bool : Bool → Json
    int : ℤ → Json
    real : Float → Json
    str : Text → Json
    arr : Items → Json
    obj : Fields → Json

  pub data Items : Type 0 where
    nil : Items
    cons : Json → Items → Items

  pub data Fields : Type 0 where
    end : Fields
    field : Text → Json → Fields → Fields

abbrev pub get : Text → Fields → Option Json
get k end = none
get k (field j v fs) = if text_eq j k then some v else get k fs

abbrev pub get_or_null : Text → Fields → Json
get_or_null k fs = elim (get k fs) [ none ↦ null | some v ↦ v ]

-- `bool(v)`
abbrev pub truthy : Json → Bool
truthy null = false
truthy (bool b) = b
truthy (int z) = not (is_zero z)
truthy (real (finite z t)) = not z
truthy (real infinite) = true
truthy (real nan) = true
truthy (str s) = not (is_empty s)
truthy (arr nil) = false
truthy (arr (cons _ _)) = true
truthy (obj end) = false
truthy (obj (field _ _ _)) = true

-- How a conversion ends: a TypeError or ValueError that the handlers catch, or another exception,
-- which they do not.
pub data Converted (A : Type 0) : Type 0 where
  value : A → Converted A
  rejected : Converted A
  crash : Converted A

abbrev or_rejected : {A : Type 0} → Option A → Converted A
or_rejected none = rejected
or_rejected (some a) = value a

-- `int(v)`: an infinite float raises an OverflowError.
unfoldable pub to_int : Json → Converted ℤ
to_int (bool b) = value (pos (if b then 1 else 0))
to_int (int z) = value z
to_int (real (finite z t)) = value t
to_int (real infinite) = crash
to_int (real nan) = rejected
to_int (str s) = or_rejected (int_of_text 10 s)
to_int _ = rejected

-- `int(v, 16)`
unfoldable pub to_int_16 : Json → Converted ℤ
to_int_16 (str s) = or_rejected (int_of_text 16 s)
to_int_16 _ = rejected

abbrev is_hashable : Json → Bool
is_hashable (arr _) = false
is_hashable (obj _) = false
is_hashable _ = true

abbrev all_hashable : Items → Bool
all_hashable nil = true
all_hashable (cons v vs) = is_hashable v && all_hashable vs

abbrev contains_str : Text → Items → Bool
contains_str k nil = false
contains_str k (cons (str s) vs) = text_eq s k || contains_str k vs
contains_str k (cons _ vs) = contains_str k vs

-- `{a, b}.issubset(v)` for two texts longer than a character.
unfoldable pub both_in : Text → Text → Json → Converted Bool
both_in a b (obj fs) =
    value
      (elim (get a fs) [ none ↦ false | some _ ↦ elim (get b fs) [ none ↦ false | some _ ↦ true ] ])
both_in a b (arr vs) =
    if all_hashable vs then value (contains_str a vs && contains_str b vs) else crash
both_in a b (str s) = value false
both_in a b _ = crash

-- `v[k]` for a value that has the key, or that is no mapping (a TypeError).
unfoldable pub subscript : Text → Json → Converted Json
subscript k (obj fs) = or_rejected (get k fs)
subscript k _ = rejected
