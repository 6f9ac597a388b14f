-- ===== src/Base/Text.antt =====
-- Text as its code points, and the operations of `str` on ASCII that the code uses.
use Prim.Native.Nat.{ℕ, ◌+◌}
use Prim.Native.String.{String}
use Prim.Native.Char.{Char, code}
use mathlib.Core.Bool.{Bool, true, false, ◌&&◌, ◌||◌, not}
use mathlib.Core.List.{List, [], ◌∷◌}
use dian_service.Base.Lists.{any}
use dian_service.Base.Tests.{nat_eq, leb, if◌then◌else◌}

abbrev pub codes : String → List ℕ
codes String.[] = []
codes (String.◌∷◌ c s) = code c ∷ codes s

-- `to_ascii_lowercase`
abbrev pub lowercase : List ℕ → List ℕ
lowercase [] = []
lowercase (c ∷ cs) = (if leb 65 c && leb c 90 then c + 32 else c) ∷ lowercase cs

-- `trim_end_matches` of one character.
abbrev pub put_unless : ℕ → ℕ → List ℕ → List ℕ
put_unless x c [] = if nat_eq c x then [] else c ∷ []
put_unless x c (d ∷ ds) = c ∷ d ∷ ds

abbrev pub trim_end : ℕ → List ℕ → List ℕ
trim_end x [] = []
trim_end x (c ∷ cs) = put_unless x c (trim_end x cs)

abbrev pub eq_codes : List ℕ → List ℕ → Bool
eq_codes [] [] = true
eq_codes (c ∷ cs) (d ∷ ds) = nat_eq c d && eq_codes cs ds
eq_codes _ _ = false

abbrev pub ends_with : List ℕ → List ℕ → Bool
ends_with [] suffix = eq_codes [] suffix
ends_with (c ∷ cs) suffix = eq_codes (c ∷ cs) suffix || ends_with cs suffix

abbrev pub contains : ℕ → List ℕ → Bool
contains x cs = any (nat_eq x) cs

-- `char::is_whitespace`: the code points with the property White_Space.
abbrev pub is_whitespace : ℕ → Bool
is_whitespace c =
    leb 9 c && leb c 13
    || nat_eq c 32
    || nat_eq c 133
    || nat_eq c 160
    || nat_eq c 5760
    || leb 8192 c && leb c 8202
    || nat_eq c 8232
    || nat_eq c 8233
    || nat_eq c 8239
    || nat_eq c 8287
    || nat_eq c 12288

abbrev pub trim_front : String → String
trim_front String.[] = String.[]
trim_front (String.◌∷◌ c s) = if is_whitespace (code c) then trim_front s else String.◌∷◌ c s

abbrev put_back : Char → String → String
put_back c String.[] = if is_whitespace (code c) then String.[] else String.◌∷◌ c String.[]
put_back c (String.◌∷◌ d s) = String.◌∷◌ c (String.◌∷◌ d s)

abbrev pub trim_back : String → String
trim_back String.[] = String.[]
trim_back (String.◌∷◌ c s) = put_back c (trim_back s)

-- `str::trim`
abbrev pub trim : String → String
trim s = trim_back (trim_front s)

abbrev pub is_ascii : String → Bool
is_ascii s = not (any (leb 128) (codes s))
