-- ===== src/Signer/C14n/Namespaces.antt =====
-- crypto-signer/src/c14n.rs: the start tag of an element, with its namespaces and attributes.
use Prim.Native.Nat.{Ordering}
use Prim.Native.String.{compare, ◌++◌}
use dian_service.Base.{
  Bool, true, false, ◌&&◌, ◌||◌, not, List, [], ◌∷◌, map, Option, none, some, String, ◌⊎◌, inl, inr,
  ◌==◌, string_eq, if◌then◌else◌,
}
use dian_service.Base.Strings.{strip_prefix, is_empty, split_once}
use dian_service.Domain.Checks.{◌>>=◌, ◌>>◌, refuse, or_error}
use dian_service.Domain.Errors.{Result, ok, err}
use dian_service.Signer.C14n.Escapes.{c14n, escape_attribute}

abbrev pub xml_namespace : String
xml_namespace = "http://www.w3.org/XML/1998/namespace"

abbrev pub before : String → String → Bool
before a b = elim (compare a b) [ Ordering.lt ↦ true | _ ↦ false ]

-- A `BTreeMap` from prefixes to namespaces, the empty prefix for the default one, and a `BTreeSet`.
abbrev pub Scope : Type 0
Scope = List (String × String)

unfoldable pub put : String → String → Scope → Scope
put p uri [] = (p, uri) ∷ []
put p uri ((q, v) ∷ scope) =
    if p == q
    then (p, uri) ∷ scope
    else if before p q
    then (p, uri) ∷ (q, v) ∷ scope
    else (q, v) ∷ put p uri scope

unfoldable pub get : String → Scope → Option String
get p [] = none
get p ((q, v) ∷ scope) = if p == q then some v else get p scope

abbrev pub or_none : Option String → String
or_none none = ""
or_none (some t) = t

abbrev pub is_in : String → Scope → Bool
is_in p scope = elim (get p scope) [ none ↦ false | some _ ↦ true ]

unfoldable pub add_to_set : String → List String → List String
add_to_set p [] = p ∷ []
add_to_set p (q ∷ qs) =
    if p == q then q ∷ qs else if before p q then p ∷ q ∷ qs else q ∷ add_to_set p qs

-- The declarations, and the other attributes in their order.
abbrev pub Read : Type 0
Read = Scope × List (String × String)

abbrev pub at_end : {A : Type 0} → List A → A → List A
at_end [] b = b ∷ []
at_end (a ∷ rest) b = a ∷ at_end rest b

unfoldable pub read_attribute : String ⊎ (String × String) → Read → Result Read
read_attribute (inl e) r = err (c14n e)
read_attribute (inr (key, value)) (scope, raw) =
    if key == "xmlns" then ok (put "" value scope, raw) else elim (strip_prefix "xmlns:" key) [
      | some prefix ↦ do
        refuse (is_empty value) (c14n "Namespace undeclaration (XML 1.1) is not supported")
        ok (put prefix value scope, raw)
      | none ↦ ok (scope, at_end raw (key, value))
    ]

unfoldable pub read_attributes : List (String ⊎ (String × String)) → Read → Result Read
read_attributes [] r = ok r
read_attributes (a ∷ rest) r = do s ← read_attribute a r; read_attributes rest s

pub record Attribute : Type 0 where
  pub namespace : String
  pub local : String
  pub qname : String
  pub value : String

unfoldable pub resolve_attribute : Scope → String × String → Result Attribute
resolve_attribute scope (qname, value) = elim (split_once 58 qname) [
  | none ↦ ok (record { namespace = ""; local = qname; qname = qname; value = value })
  | some (prefix, local) ↦ do
    namespace ←
        if prefix == "xml"
        then ok xml_namespace
        else or_error (get prefix scope) (c14n ("Undeclared prefix '" ++ prefix ++ "'"))
    ok (record { namespace = namespace; local = local; qname = qname; value = value })
]

unfoldable pub resolve_attributes : Scope → List (String × String) → Result (List Attribute)
resolve_attributes scope [] = ok []
resolve_attributes scope (a ∷ rest) = do
  b ← resolve_attribute scope a
  bs ← resolve_attributes scope rest
  ok (b ∷ bs)

-- The order of `(namespace, local name)`.
abbrev pub precedes : Attribute → Attribute → Bool
precedes a b =
    before a.namespace b.namespace || a.namespace == b.namespace && before a.local b.local

-- `sort_by` is stable: an attribute stays in front of those that are not less.
unfoldable pub sort_in : Attribute → List Attribute → List Attribute
sort_in a [] = a ∷ []
sort_in a (b ∷ bs) = if precedes b a then b ∷ sort_in a bs else a ∷ b ∷ bs

unfoldable pub sort_attributes : List Attribute → List Attribute
sort_attributes [] = []
sort_attributes (a ∷ rest) = sort_in a (sort_attributes rest)

abbrev pub prefix_of : String → String
prefix_of name = elim (split_once 58 name) [ none ↦ "" | some (p, _) ↦ p ]

abbrev pub add_prefix : String → List String → List String
add_prefix qname used = elim (split_once 58 qname) [
  | none ↦ used
  | some (p, _) ↦ if p == "xml" then used else add_to_set p used
]

unfoldable pub used_prefixes : List Attribute → List String → List String
used_prefixes [] used = used
used_prefixes (a ∷ rest) used = used_prefixes rest (add_prefix a.qname used)

unfoldable pub add_inclusive : Scope → List String → List String → List String
add_inclusive scope [] used = used
add_inclusive scope (p ∷ ps) used =
    add_inclusive scope ps (if is_in p scope then add_to_set p used else used)

-- All prefixes in scope, or those that are used and those of the list.
unfoldable pub candidates : Option (List String) → Scope → String → List Attribute → List String
candidates none scope name attributes = map (λ d. d.0) scope
candidates (some inclusive_prefixes) scope name attributes =
    add_inclusive scope inclusive_prefixes (used_prefixes attributes (prefix_of name ∷ []))

unfoldable pub undeclared : Scope → List String → Option String
undeclared scope [] = none
undeclared scope (p ∷ ps) =
    if not (is_empty p) && not (is_in p scope) then some p else undeclared scope ps

abbrev pub refuse_undeclared : Option String → Result (Unit {0})
refuse_undeclared none = ok tt
refuse_undeclared (some p) = err (c14n ("Undeclared prefix '" ++ p ++ "'"))

abbrev pub declaration : String → String → String
declaration prefix uri =
    (if is_empty prefix then " xmlns=\"" else " xmlns:" ++ prefix ++ "=\"")
    ++ escape_attribute uri
    ++ "\""

-- The declarations that differ from what the ancestors have written: what is written now, and its text.
unfoldable pub declare : Scope → Scope → List String → Scope → Scope × String
declare scope ancestors [] now = (now, "")
declare scope ancestors (p ∷ ps) now =
    let uri = or_none (get p scope) in
    if uri == or_none (get p ancestors)
    then declare scope ancestors ps now
    else let (then_rendered, later) = declare scope ancestors ps (put p uri now) in
      (then_rendered, declaration p uri ++ later)

unfoldable pub attributes_text : List Attribute → String
attributes_text [] = ""
attributes_text (a ∷ rest) =
    " " ++ a.qname ++ "=\"" ++ escape_attribute a.value ++ "\"" ++ attributes_text rest

-- An element's namespaces, those written so far, and its start tag.
pub record StartTag : Type 0 where
  pub scope : Scope
  pub rendered : Scope
  pub tag : String

abbrev pub tag_of : String → List Attribute → Scope → Scope × String → StartTag
tag_of name attributes scope (rendered, declarations) = record {
  scope = scope;
  rendered = rendered;
  tag = "<" ++ name ++ declarations ++ attributes_text attributes ++ ">";
}

-- `start_element` for the innermost scopes of the ancestors.
unfoldable pub start_tag :
    Option (List String)
    → Scope
    → Scope
    → String
    → List (String ⊎ (String × String))
    → Result StartTag
start_tag exclusive outer ancestors name raw_attributes = do
  read ← read_attributes raw_attributes (outer, [])
  resolved ← resolve_attributes read.0 read.1
  let attributes = sort_attributes resolved
  let prefixes = candidates exclusive read.0 name attributes
  refuse_undeclared (undeclared read.0 prefixes)
  ok (tag_of name attributes read.0 (declare read.0 ancestors prefixes ancestors))
