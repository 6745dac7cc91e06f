-- ===== src/Base/Text.antt =====
-- What the program uses of Go's strings and strconv packages: the decimal form of a number and
-- its reading, joining, prefixes and suffixes.
use Prim.Native.Nat.{ℕ, zero, suc, ◌+◌, ◌-◌, ◌*◌, ◌/◌, ◌%◌, ◌^◌}
use Prim.Native.Char.{code}
use Prim.Native.String.{String, ◌++◌, compare}
use mathlib.Core.Bool.{Bool, true, false, ◌||◌}
use mathlib.Core.List.{List, [], ◌∷◌}
use mathlib.Core.Option.{Option, none, some}
use text.Mathlib.Text.{◌==◌ as str_eq, is_lt}
use text.Mathlib.TextEquality.{eq_iff}
use mathlib.Core.Path.{◌≡◌}
use mathlib.Core.Logic.{◌≢◌, inl, inr}
use probatorium.Base.Tests.{Bool-cases, ltb, ◌==◌, if◌then◌else◌}
use probatorium.Base.Int.{ℤ, pos, negsuc}

pick : List String → ℕ → String
pick [] n = ""
pick (x ∷ xs) zero = x
pick (x ∷ xs) (suc n) = pick xs n

digit : ℕ → String
unfolding pick
digit n = pick ("0" ∷ "1" ∷ "2" ∷ "3" ∷ "4" ∷ "5" ∷ "6" ∷ "7" ∷ "8" ∷ "9" ∷ []) n

-- The digits of a number before those of `out`; a number has at most as many digits as its value.
digits : ℕ → ℕ → String → String
digits zero n out = out
digits (suc fuel) zero out = out
digits (suc fuel) (suc n) out = digits fuel (suc n / 10) (digit (suc n % 10) ++ out)

-- `strconv.Itoa` of a number that is not negative.
unfoldable pub itoa : ℕ → String
unfolding digits digit
itoa zero = "0"
itoa (suc n) = digits (suc n) (suc n) ""

-- The digits of a text after those read as `n`.
read_digits : String → ℕ → Option ℕ
read_digits String.[] n = some n
read_digits (String.◌∷◌ c s) n =
    let rest = read_digits s (n * 10 + (code c - 48)) in
    if ltb (code c) 48 || ltb 57 (code c) then none else rest

read_number : String → Option ℕ
unfolding read_digits
read_number String.[] = none
read_number (String.◌∷◌ c s) = read_digits (String.◌∷◌ c s) 0

-- The number in the range of int64, or none.
signed : Bool → Option ℕ → Option ℤ
signed negative none = none
signed false (some n) = if ltb n (2 ^ 63) then some (pos n) else none
signed true (some zero) = some (pos 0)
signed true (some (suc n)) = if ltb n (2 ^ 63) then some (negsuc n) else none

-- `strconv.Atoi`, and `strconv.ParseInt` in base ten; none stands for an error.
unfoldable pub atoi : String → Option ℤ
unfolding read_number signed
atoi String.[] = none
atoi (String.◌∷◌ c s) =
    if code c == 45
    then signed true (read_number s)
    else signed false (if code c == 43 then read_number s else read_number (String.◌∷◌ c s))

unfoldable pub join : String → List String → String
join separator [] = ""
join separator (x ∷ []) = x
join separator (x ∷ y ∷ xs) = x ++ separator ++ join separator (y ∷ xs)

unfoldable pub contains : String → List String → Bool
contains x [] = false
contains x (y ∷ ys) = str_eq x y || contains x ys

-- What follows a prefix, where it is one.
unfoldable pub cut_prefix : String → String → Option String
cut_prefix String.[] s = some s
cut_prefix (String.◌∷◌ c p) String.[] = none
cut_prefix (String.◌∷◌ c p) (String.◌∷◌ d s) =
    let rest = cut_prefix p s in if code c == code d then rest else none

unfoldable pub trim_prefix : String → String → String
trim_prefix s p = elim (cut_prefix p s) [ none ↦ s | some rest ↦ rest ]

-- What stands before a suffix, where it is one.
cut_suffix : String → String → Option String
cut_suffix p String.[] = if str_eq p "" then some "" else none
cut_suffix p (String.◌∷◌ c s) =
    let rest = cut_suffix p s in
    if str_eq p (String.◌∷◌ c s)
    then some ""
    else elim rest [ none ↦ none | some kept ↦ some (String.◌∷◌ c kept) ]

unfoldable pub trim_suffix : String → String → String
unfolding cut_suffix
trim_suffix s p = elim (cut_suffix p s) [ none ↦ s | some kept ↦ kept ]

-- What stands before the first blank, or the whole text.
unfoldable pub before_blank : String → String
before_blank String.[] = ""
before_blank (String.◌∷◌ c s) =
    let rest = before_blank s in if code c == 32 then "" else String.◌∷◌ c rest

unfoldable pub str_lt : String → String → Bool
str_lt a b = is_lt (compare a b)

-- A map from texts to texts, as the list of its entries.
abbrev pub Fields : Type 0
Fields = List (String × String)

unfoldable pub lookup : Fields → String → Option String
lookup [] key = none
lookup (f ∷ fields) key = if str_eq f.0 key then some f.1 else lookup fields key

or_empty : Option String → String
or_empty none = ""
or_empty (some v) = v

-- Indexing a map gives the empty text for a missing key.
unfoldable pub at_key : Fields → String → String
unfolding lookup or_empty
at_key fields key = or_empty (lookup fields key)

unfoldable pub itoa_ℤ : ℤ → String
unfolding itoa
itoa_ℤ (pos n) = itoa n
itoa_ℤ (negsuc n) = "-" ++ itoa (suc n)

pub differs : (s t : String) → s ≢ t → str_eq s t ≡ false
differs s t n = elim (Bool-cases (str_eq s t)) [ inl e ↦ absurd (n ((eq_iff s t).0 e)) | inr e ↦ e ]
