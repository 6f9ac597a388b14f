-- ===== src/Base/Strings.antt =====
-- The searches in a `str` and the parsing of its digits that the code uses.
use Prim.Native.Nat.{ℕ, ◌+◌, ◌*◌}
use Prim.Native.Char.{Char, code}
use Prim.Native.String.{String}
use mathlib.Core.Bool.{Bool, true, false, ◌&&◌, ◌||◌}
use mathlib.Core.Option.{Option, none, some}
use dian_service.Base.Tests.{nat_eq, ltb, if◌then◌else◌}
use dian_service.Base.Chars.{digit_value}
use dian_service.Base.Text.{codes, eq_codes, lowercase}

-- `chars().all(p)`
abbrev pub every_char : (ℕ → Bool) → String → Bool
every_char p String.[] = true
every_char p (String.◌∷◌ c s) = p (code c) && every_char p s

-- `contains(x)` of one character.
abbrev pub contains_char : ℕ → String → Bool
contains_char x String.[] = false
contains_char x (String.◌∷◌ c s) = nat_eq (code c) x || contains_char x s

abbrev pub is_empty : String → Bool
is_empty String.[] = true
is_empty (String.◌∷◌ c s) = false

-- The text split before its first character with `p`, as `find` and two slices do it.
abbrev pub more_front : Char → Option (String × String) → Option (String × String)
more_front c none = none
more_front c (some (a, b)) = some (String.◌∷◌ c a, b)

abbrev pub split_before : (ℕ → Bool) → String → Option (String × String)
split_before p String.[] = none
split_before p (String.◌∷◌ c s) =
    if p (code c) then some (String.[], String.◌∷◌ c s) else more_front c (split_before p s)

-- The text behind its first character.
abbrev pub behind : String → String
behind String.[] = String.[]
behind (String.◌∷◌ c s) = s

-- `split_once(x)` at one character.
abbrev pub split_once : ℕ → String → Option (String × String)
split_once x s = elim (split_before (λ c. nat_eq c x) s) [
  | none ↦ none
  | some (a, b) ↦ some (a, behind b)
]

-- The text round its last character `x`, by `rfind`.
abbrev pub split_last : ℕ → String → Option (String × String)
split_last x String.[] = none
split_last x (String.◌∷◌ c s) = elim (split_last x s) [
  | some (a, b) ↦ some (String.◌∷◌ c a, b)
  | none ↦ if nat_eq (code c) x then some (String.[], s) else none
]

-- `strip_prefix`
abbrev pub strip_prefix : String → String → Option String
strip_prefix String.[] s = some s
strip_prefix (String.◌∷◌ d p) String.[] = none
strip_prefix (String.◌∷◌ d p) (String.◌∷◌ c s) =
    if nat_eq (code c) (code d) then strip_prefix p s else none

abbrev pub starts_with : String → String → Bool
starts_with p s = elim (strip_prefix p s) [ none ↦ false | some _ ↦ true ]

-- The text split before the first occurrence of another one, by `find`.
abbrev pub split_before_text : String → String → Option (String × String)
split_before_text p String.[] = if is_empty p then some (String.[], String.[]) else none
split_before_text p (String.◌∷◌ c s) =
    if starts_with p (String.◌∷◌ c s)
    then some (String.[], String.◌∷◌ c s)
    else more_front c (split_before_text p s)

-- `contains`
abbrev pub contains_text : String → String → Bool
contains_text p s = elim (split_before_text p s) [ none ↦ false | some _ ↦ true ]

abbrev pub eq_ignore_case : String → String → Bool
eq_ignore_case a b = eq_codes (lowercase (codes a)) (lowercase (codes b))

-- The value of digits, on top of those before them.
unfoldable pub digits_value : ℕ → ℕ → String → Option ℕ
digits_value radix acc String.[] = some acc
digits_value radix acc (String.◌∷◌ c s) = elim (digit_value radix (code c)) [
  | none ↦ none
  | some v ↦ digits_value radix (acc * radix + v) s
]

abbrev pub without_plus : String → String
without_plus String.[] = String.[]
without_plus (String.◌∷◌ c s) = if nat_eq (code c) 43 then s else String.◌∷◌ c s

-- `from_str_radix` of an unsigned type with values below `limit`.
unfoldable pub parse_radix : ℕ → ℕ → String → Option ℕ
parse_radix limit radix s =
    let t = without_plus s in
    if is_empty t then none else elim (digits_value radix 0 t) [
      | none ↦ none
      | some n ↦ if ltb n limit then some n else none
    ]
