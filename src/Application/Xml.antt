-- ===== src/Application/Xml.antt =====
-- application/src/xml.rs: reading values from a UBL document by the path of an element.
pub mod Tags
pub mod Numbers
pub mod Trees
use Prim.Native.Nat.{ℕ, ◌+◌, ◌%◌, ◌-◌, ◌^◌}
use Prim.Native.Char.{Char}
use Prim.Native.String.{◌++◌}
use dian_service.Base.{
  Bool, true, false, ◌&&◌, List, [], ◌∷◌, reverse, Option, none, some, String, ◌⊎◌, inl, inr,
  length, nat_eq, ◌==◌, string_eq, if◌then◌else◌,
}
use dian_service.Base.Chars.{from_u32}
use dian_service.Base.Strings.{strip_prefix, parse_radix, split_last}
use dian_service.Base.Text.{trim}
use dian_service.Base.Xml.{
  Event, Reader, start, empty, end, text, cdata, general_ref, pi, doctype, other,
}

pub record XmlDoc : Type 0 where
  pub xml : String
  pub root : String

abbrev pub char_of : Option ℕ → Option Char
char_of none = none
char_of (some n) = from_u32 n

abbrev pub char_reference : String → Option Char
char_reference name = elim (strip_prefix "#x" name) [
  | some hex ↦ char_of (parse_radix (2 ^ 32) 16 hex)
  | none ↦ elim (strip_prefix "#" name) [
    | some d ↦ char_of (parse_radix (2 ^ 32) 10 d)
    | none ↦ none
  ]
]

unfoldable pub resolve_reference : String → Option Char
resolve_reference name =
    if name == "amp"
    then some "&"
    else if name == "lt"
    then some "<"
    else if name == "gt"
    then some ">"
    else if name == "quot"
    then some "\""
    else if name == "apos"
    then some "'"
    else char_reference name

-- The name after the last colon.
unfoldable pub local_name : String → String
local_name qname = elim (split_last 58 qname) [ none ↦ qname | some (_, local) ↦ local ]

-- `depth -= 1` on `usize`.
abbrev pub pred_usize : ℕ → ℕ
pred_usize n = (n + (2 ^ 64 - 1)) % 2 ^ 64

abbrev pub two_roots : String
two_roots = "XML invalido: mas de un elemento raiz"

-- One event of the loop of `XmlDoc::parse`: an error, or the root and the depth after it.
unfoldable pub root_event : Event → Option String → ℕ → String ⊎ (Option String × ℕ)
root_event (start name _) root depth =
    if nat_eq depth 0
    then elim root [ none ↦ inr (some (local_name name), depth + 1) | some _ ↦ inl two_roots ]
    else inr (root, depth + 1)
root_event (empty name _) root depth =
    if nat_eq depth 0
    then elim root [ none ↦ inr (some (local_name name), depth) | some _ ↦ inl two_roots ]
    else inr (root, depth)
root_event (end _) root depth = inr (root, pred_usize depth)
root_event doctype root depth = inl "XML invalido: no se admiten DTD"
root_event (general_ref name) root depth = elim (resolve_reference name) [
  | none ↦ inl ("XML invalido: entidad no admitida &" ++ name ++ ";")
  | some _ ↦ inr (root, depth)
]
root_event (text _) root depth = inr (root, depth)
root_event (cdata _) root depth = inr (root, depth)
root_event (pi _) root depth = inr (root, depth)
root_event other root depth = inr (root, depth)

abbrev pub complete_root : Option String → ℕ → String ⊎ String
complete_root none depth = inl "XML invalido: documento incompleto"
complete_root (some root) depth =
    if nat_eq depth 0 then inr root else inl "XML invalido: documento incompleto"

unfoldable pub find_root : Option String → ℕ → List (String ⊎ Event) → String ⊎ String
find_root root depth [] = complete_root root depth
find_root root depth (inl e ∷ es) = inl ("XML invalido: " ++ e)
find_root root depth (inr e ∷ es) = elim (root_event e root depth) [
  | inl m ↦ inl m
  | inr (r, d) ↦ find_root r d es
]

-- The stack of names, the innermost first, and what is captured: its depth and its text so far.
abbrev pub Capture : Type 0
Capture = List String × Option (ℕ × String)

abbrev pub eq_path : List String → List String → Bool
eq_path [] [] = true
eq_path (a ∷ p) (b ∷ q) = a == b && eq_path p q
eq_path _ _ = false

abbrev pub add_text : String → Capture → Capture
add_text t (stack, none) = (stack, none)
add_text t (stack, some (depth, before)) = (stack, some (depth, before ++ t))

abbrev pub pop : List String → List String
pop [] = []
pop (_ ∷ stack) = stack

abbrev pub as_text : Char → String
as_text c = String.◌∷◌ c String.[]

-- One event of the loop of `XmlDoc::text`: its result, or what goes on.
unfoldable pub text_event : List String → Event → Capture → Option String ⊎ Capture
text_event path (start name _) (stack, none) =
    let names = local_name name ∷ stack in
    inr (names, if eq_path names path then some (length names, "") else none)
text_event path (start name _) (stack, some c) = inr (local_name name ∷ stack, some c)
text_event path (empty name _) (stack, none) =
    if eq_path (local_name name ∷ stack) path then inl (some "") else inr (stack, none)
text_event path (empty name _) (stack, some c) = inr (stack, some c)
text_event path (end _) (stack, none) = inr (pop stack, none)
text_event path (end _) (stack, some (depth, captured)) =
    if nat_eq depth (length stack)
    then inl (some (trim captured))
    else inr (pop stack, some (depth, captured))
text_event path (text t) c = inr (add_text t c)
text_event path (cdata t) c = inr (add_text t c)
text_event path (general_ref name) (stack, none) = inr (stack, none)
text_event path (general_ref name) (stack, some c) = elim (resolve_reference name) [
  | none ↦ inl none
  | some x ↦ inr (add_text (as_text x) (stack, some c))
]
text_event path (pi _) c = inr c
text_event path doctype c = inr c
text_event path other c = inr c

unfoldable pub find_text : List String → Capture → List (String ⊎ Event) → Option String
find_text path c [] = none
find_text path c (inl e ∷ es) = none
find_text path c (inr e ∷ es) = elim (text_event path e c) [
  | inl found ↦ found
  | inr d ↦ find_text path d es
]

module _ (read : Reader) where
  unfoldable pub parse : String → String ⊎ XmlDoc
  parse xml = elim (find_root none 0 (read xml)) [
    | inl e ↦ inl e
    | inr root ↦ inr (record { xml = xml; root = root })
  ]

  -- The path is that of the source, the root first.
  unfoldable pub text_at : XmlDoc → List String → Option String
  text_at d path = find_text (reverse path) ([], none) (read d.xml)
