-- ===== src/Signer/C14n/References.antt =====
-- The references in a text, read back.
use Prim.Native.Char.{Char, code}
use Prim.Native.String.{◌++◌}
use package.text.Mathlib.TextLemmas.{nil-append, cons-append}
use dian_service.Base.{
  ◌≡◌, refl, false, Option, none, some, String, nat_eq, if◌then◌else◌, string_eq,
}
use dian_service.Base.Chars.{from_u32, digit_value}
use dian_service.Base.Strings.{parse_radix, digits_value}
use dian_service.Application.Xml.{resolve_reference}

abbrev pub push : Char → Option String → Option String
push c none = none
push c (some s) = some (String.◌∷◌ c s)

abbrev push_resolved : Option Char → Option String → Option String
push_resolved none later = none
push_resolved (some x) later = push x later

-- A text with references, from the start of one (its name so far) or outside of any.
unfoldable pub read_text : Option String → String → Option String
read_text none String.[] = some String.[]
read_text (some name) String.[] = none
read_text none (String.◌∷◌ c s) =
    if nat_eq (code c) 38 then read_text (some "") s else push c (read_text none s)
read_text (some name) (String.◌∷◌ c s) =
    if nat_eq (code c) 59
    then push_resolved (resolve_reference name) (read_text none s)
    else read_text (some (name ++ String.◌∷◌ c String.[])) s

pub read_amp : (t : String) → read_text none ("&amp;" ++ t) ≡ push "&" (read_text none t)
unfolding read_text resolve_reference
read_amp t =
    rw
      (
        cons-append "&" "amp;" t,
        cons-append "a" "mp;" t,
        cons-append "m" "p;" t,
        cons-append "p" ";" t,
        cons-append ";" "" t,
        nil-append t,
      )
      refl

pub read_lt : (t : String) → read_text none ("&lt;" ++ t) ≡ push "<" (read_text none t)
unfolding read_text resolve_reference
read_lt t =
    rw
      (
        cons-append "&" "lt;" t,
        cons-append "l" "t;" t,
        cons-append "t" ";" t,
        cons-append ";" "" t,
        nil-append t,
      )
      refl

pub read_gt : (t : String) → read_text none ("&gt;" ++ t) ≡ push ">" (read_text none t)
unfolding read_text resolve_reference
read_gt t =
    rw
      (
        cons-append "&" "gt;" t,
        cons-append "g" "t;" t,
        cons-append "t" ";" t,
        cons-append ";" "" t,
        nil-append t,
      )
      refl

pub read_quot : (t : String) → read_text none ("&quot;" ++ t) ≡ push "\"" (read_text none t)
unfolding read_text resolve_reference
read_quot t =
    rw
      (
        cons-append "&" "quot;" t,
        cons-append "q" "uot;" t,
        cons-append "u" "ot;" t,
        cons-append "o" "t;" t,
        cons-append "t" ";" t,
        cons-append ";" "" t,
        nil-append t,
      )
      refl

pub read_tab : (t : String) → read_text none ("&#x9;" ++ t) ≡ push "\t" (read_text none t)
unfolding read_text resolve_reference parse_radix digits_value digit_value from_u32
read_tab t =
    rw
      (
        cons-append "&" "#x9;" t,
        cons-append "#" "x9;" t,
        cons-append "x" "9;" t,
        cons-append "9" ";" t,
        cons-append ";" "" t,
        nil-append t,
      )
      refl

pub read_line_feed : (t : String) → read_text none ("&#xA;" ++ t) ≡ push "\n" (read_text none t)
unfolding read_text resolve_reference parse_radix digits_value digit_value from_u32
read_line_feed t =
    rw
      (
        cons-append "&" "#xA;" t,
        cons-append "#" "xA;" t,
        cons-append "x" "A;" t,
        cons-append "A" ";" t,
        cons-append ";" "" t,
        nil-append t,
      )
      refl

pub read_carriage_return :
    (t : String) → read_text none ("&#xD;" ++ t) ≡ push "\r" (read_text none t)
unfolding read_text resolve_reference parse_radix digits_value digit_value from_u32
read_carriage_return t =
    rw
      (
        cons-append "&" "#xD;" t,
        cons-append "#" "xD;" t,
        cons-append "x" "D;" t,
        cons-append "D" ";" t,
        cons-append ";" "" t,
        nil-append t,
      )
      refl

pub read_plain :
    (c : Char) (t : String)
    → nat_eq (code c) 38 ≡ false
    → read_text none (String.◌∷◌ c String.[] ++ t) ≡ push c (read_text none t)
unfolding read_text
read_plain c t h = rw (cons-append c String.[] t, nil-append t) (rw (h, read_text) refl)
