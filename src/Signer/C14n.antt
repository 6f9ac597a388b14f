-- ===== src/Signer/C14n.antt =====
-- crypto-signer/src/c14n.rs: canonical XML, written from the reader's events with a stack of scopes.
pub mod Escapes
pub mod Namespaces
pub mod Trees
pub mod References
pub mod Reading
pub mod Declared
use Prim.Native.Nat.{◌%◌, ◌^◌}
use Prim.Native.Char.{code}
use Prim.Native.String.{◌++◌}
use dian_service.Base.{
  ℕ, ◌+◌, Bool, true, false, ◌&&◌, not, List, [], ◌∷◌, Option, none, some, String, ◌⊎◌, inl, inr,
  nat_eq, if◌then◌else◌,
}
use dian_service.Base.Strings.{is_empty, split_before}
use dian_service.Base.Text.{is_whitespace, trim_front}
use dian_service.Base.Xml.{
  Event, Reader, start, empty, end, text, cdata, general_ref, pi, doctype, other,
}
use dian_service.Domain.Checks.{◌>>=◌, ◌>>◌, refuse}
use dian_service.Domain.Errors.{Result, ok, err}
use dian_service.Application.Xml.{pred_usize}
use dian_service.Signer.C14n.Escapes.{c14n, normalize_eol, escape_text, reference}
use dian_service.Signer.C14n.Namespaces.{Scope, StartTag, start_tag}

-- The innermost scope is the first one.
pub record Canonicalizer : Type 0 where
  pub out : String
  pub scopes : List Scope
  pub rendered : List Scope
  pub exclusive : Option (List String)
  pub depth : ℕ
  pub seen_root : Bool

abbrev pub last_or_default : List Scope → Scope
last_or_default [] = []
last_or_default (s ∷ ss) = s

abbrev pub pop_scope : List Scope → List Scope
pop_scope [] = []
pop_scope (s ∷ ss) = ss

abbrev pub write : String → Canonicalizer → Canonicalizer
write t c = record c { out = c.out ++ t }

-- `depth += 1` on `usize`.
abbrev pub opened : Canonicalizer → StartTag → Canonicalizer
opened c t = record c {
  out = c.out ++ t.tag;
  scopes = t.scope ∷ c.scopes;
  rendered = t.rendered ∷ c.rendered;
  depth = (c.depth + 1) % 2 ^ 64;
  seen_root = true;
}

unfoldable pub start_element :
    String → List (String ⊎ (String × String)) → Canonicalizer → Result Canonicalizer
start_element name attributes c = do
  t ← start_tag c.exclusive (last_or_default c.scopes) (last_or_default c.rendered) name attributes
  ok (opened c t)

abbrev pub end_element : String → Canonicalizer → Canonicalizer
end_element name c = record c {
  out = c.out ++ ("</" ++ name ++ ">");
  scopes = pop_scope c.scopes;
  rendered = pop_scope c.rendered;
  depth = pred_usize c.depth;
}

abbrev pub line_if : Bool → String
line_if true = "\n"
line_if false = ""

-- The target of a processing instruction and its data.
abbrev pub pi_parts : String → String × String
pi_parts raw = elim (split_before is_whitespace raw) [
  | none ↦ (raw, "")
  | some (target, rest) ↦ (target, trim_front rest)
]

abbrev pub pi_data : String → String
pi_data rest = if is_empty rest then "" else " " ++ normalize_eol rest

abbrev pub pi_text : String × String → String
pi_text (target, rest) = "<?" ++ target ++ pi_data rest ++ "?>"

abbrev pub outside : Canonicalizer → Bool
outside c = nat_eq c.depth 0

-- One event of the loop of `canonicalize`.
unfoldable pub canonical_event : Event → Canonicalizer → Result Canonicalizer
canonical_event (start name attributes) c = start_element name attributes c
canonical_event (empty name attributes) c = do
  d ← start_element name attributes c
  ok (end_element name d)
canonical_event (end name) c = ok (end_element name c)
canonical_event (text t) c = ok (if outside c then c else write (escape_text (normalize_eol t)) c)
canonical_event (cdata t) c = ok (if outside c then c else write (escape_text (normalize_eol t)) c)
canonical_event (general_ref name) c =
    if outside c
    then ok c
    else do x ← reference name; ok (write (escape_text (String.◌∷◌ x String.[])) c)
canonical_event (pi raw) c = ok (
    write
      (line_if (outside c && c.seen_root)
        ++ pi_text (pi_parts raw)
        ++ line_if (outside c && not c.seen_root))
      c)
canonical_event doctype c = err (c14n "DTDs are not allowed")
canonical_event other c = ok c

abbrev pub closed : Canonicalizer → Result String
closed c = do refuse (not (outside c)) (c14n "Unclosed elements"); ok c.out

unfoldable pub canonical_events : List (String ⊎ Event) → Canonicalizer → Result String
canonical_events [] c = closed c
canonical_events (inl e ∷ es) c = err (c14n ("Invalid XML: " ++ e))
canonical_events (inr e ∷ es) c = do d ← canonical_event e c; canonical_events es d

abbrev pub fresh : Option (List String) → Canonicalizer
fresh exclusive = record {
  out = "";
  scopes = [];
  rendered = [];
  exclusive = exclusive;
  depth = 0;
  seen_root = false;
}

module _ (read : Reader) where
  unfoldable pub canonicalize : String → Option (List String) → Result String
  canonicalize xml exclusive = canonical_events (read xml) (fresh exclusive)

  unfoldable pub canonicalize_xml : String → Result String
  canonicalize_xml xml = canonicalize xml none

  -- The prefixes in the order of a set.
  unfoldable pub canonicalize_xml_exclusive : String → List String → Result String
  canonicalize_xml_exclusive xml inclusive_prefixes = canonicalize xml (some inclusive_prefixes)
