-- ===== src/Signer/C14n/Declared.antt =====
-- Which namespaces have been written: in inclusive mode all that are in scope.
use Prim.Native.String.{◌++◌}
use dian_service.Base.{
  ◌≡◌, refl, sym, ap, ◌∙◌, ◌⊎◌, inl, inr, ◌||◌, Bool, true, false, List, [], ◌∷◌, map, none, some,
  String, ◌==◌, string_eq, eq_iff, Bool-cases, Option-cases, arith, if◌then◌else◌,
}
use dian_service.Base.Strings.{strip_prefix, is_empty}
use dian_service.Domain.Checks.{>>=-ok, refuse-ok, along_ok}
use dian_service.Domain.Errors.{ok}
use dian_service.Signer.C14n.Escapes.{escape_attribute}
use dian_service.Signer.C14n.Namespaces.{
  Scope, StartTag, put, get, or_none, declare, read_attribute, read_attributes, resolve_attributes,
  candidates, refuse_undeclared, undeclared, start_tag, Read, Attribute, attributes_text, tag_of,
  sort_attributes,
}

get-put :
    (p q v : String) (scope : Scope)
    → get p (put q v scope) ≡ (if p == q then some v else get p scope)
unfolding get put
get-put p q v [] = refl
get-put p q v ((r, w) ∷ scope) =
    ground (arith, get-put p q v scope, eq_iff p q, eq_iff q r, eq_iff p r)

-- Nothing that is in scope is lost.
get-put-none : (p q v : String) (scope : Scope) → get p (put q v scope) ≡ none → get p scope ≡ none
get-put-none p q v scope h = ground (arith, get-put p q v scope)

-- Of the result of reading attributes: a prefix that it has not, the scope before had not.
abbrev Grown : String → Scope → Read → Type 0
Grown p scope r = get p r.0 ≡ none → get p scope ≡ none

read_attribute-Grown :
    (p : String) (a : String ⊎ (String × String)) (before r : Read)
    → read_attribute a before ≡ ok r
    → Grown p before.0 r
unfolding read_attribute
read_attribute-Grown p (inl e) before r = λ h n. cc
read_attribute-Grown p (inr (key, value)) (scope, raw) r = elim (Bool-cases (key == "xmlns")) [
  | inl e ↦ rw e (λ h. along_ok (Grown p scope) _ r h (get-put-none p "" value scope))
  | inr e ↦ elim (Option-cases (strip_prefix "xmlns:" key)) [
    | inl n ↦ rw (e, n) (λ h. along_ok (Grown p scope) _ r h (λ g. g))
    | inr (prefix, f) ↦
        rw (e, f)
          (λ h.
            let (_, h) = refuse-ok (is_empty value) _ _ h in
            along_ok (Grown p scope) _ r h (get-put-none p prefix value scope))
  ]
]

read_attributes-Grown :
    (p : String) (attributes : List (String ⊎ (String × String))) (before r : Read)
    → read_attributes attributes before ≡ ok r
    → Grown p before.0 r
unfolding read_attributes
read_attributes-Grown p [] before r h = along_ok (Grown p before.0) before r h (λ g. g)
read_attributes-Grown p (a ∷ rest) before r h =
    let (between, e, h) = >>=-ok (read_attribute a before) _ h in
    λ n. read_attribute-Grown p a before between e (read_attributes-Grown p rest between r h n)

abbrev has : String → List String → Bool
has p [] = false
has p (q ∷ qs) = p == q || has p qs

keys-has :
    (p v : String) (scope : Scope) → get p scope ≡ some v → has p (map (λ d. d.0) scope) ≡ true
unfolding get
keys-has p v [] h = cc
keys-has p v ((q, w) ∷ scope) h = ground (arith, keys-has p v scope)

module _ (scope ancestors : Scope) where
  -- A namespace that is there stays, and one of the prefixes of the list gets there.
  declare-keeps :
      (p : String) (ps : List String) (now : Scope)
      → or_none (get p now) ≡ or_none (get p scope)
      → or_none (get p (declare scope ancestors ps now).0) ≡ or_none (get p scope)
  unfolding declare
  declare-keeps p [] now h = h
  declare-keeps p (q ∷ qs) now h =
      elim (Bool-cases (or_none (get q scope) == or_none (get q ancestors))) [
        | inl e ↦ rw e (declare-keeps p qs now h)
        | inr e ↦
            rw e (declare-keeps p qs (put q (or_none (get q scope)) now) (put_keeps p q now h))
      ]
    where
      put_keeps :
          (p q : String) (now : Scope)
          → or_none (get p now) ≡ or_none (get p scope)
          → or_none (get p (put q (or_none (get q scope)) now)) ≡ or_none (get p scope)
      put_keeps p q now h = ground (arith, get-put p q (or_none (get q scope)) now, eq_iff p q)

  declare-has :
      (p : String) (ps : List String) (now : Scope)
      → has p ps ≡ true
      → or_none (get p now) ≡ or_none (get p ancestors)
      → or_none (get p (declare scope ancestors ps now).0) ≡ or_none (get p scope)
  unfolding declare
  declare-has p [] now h k = cc
  declare-has p (q ∷ qs) now h k =
      elim (Bool-cases (or_none (get q scope) == or_none (get q ancestors))) [
        | inl e ↦ rw e (elim (Bool-cases (p == q)) [
          | inl same ↦ declare-keeps p qs now (k ∙ inherited p q e same)
          | inr differ ↦ declare-has p qs now (later p q qs differ h) k
        ])
        | inr e ↦ rw e (elim (Bool-cases (p == q)) [
          | inl same ↦
              declare-keeps p qs (put q (or_none (get q scope)) now) (put_here p q now same)
          | inr differ ↦
              declare-has p qs (put q (or_none (get q scope)) now) (later p q qs differ h)
                (put_elsewhere p q now differ ∙ k)
        ])
      ]
    where
      later :
          (p q : String) (qs : List String)
          → (p == q) ≡ false
          → has p (q ∷ qs) ≡ true
          → has p qs ≡ true
      later p q qs differ h = ground (arith, differ, h)

      inherited :
          (p q : String)
          → (or_none (get q scope) == or_none (get q ancestors)) ≡ true
          → (p == q) ≡ true
          → or_none (get p ancestors) ≡ or_none (get p scope)
      inherited p q e same =
          rw ((eq_iff p q).0 same)
            (sym ((eq_iff (or_none (get q scope)) (or_none (get q ancestors))).0 e))

      put_here :
          (p q : String) (now : Scope)
          → (p == q) ≡ true
          → or_none (get p (put q (or_none (get q scope)) now)) ≡ or_none (get p scope)
      put_here p q now same = ground (arith, get-put p q (or_none (get q scope)) now, eq_iff p q)

      put_elsewhere :
          (p q : String) (now : Scope)
          → (p == q) ≡ false
          → or_none (get p (put q (or_none (get q scope)) now)) ≡ or_none (get p now)
      put_elsewhere p q now differ = ground (arith, get-put p q (or_none (get q scope)) now)

-- Every prefix, also the empty one, has the same namespace in both, where none is the empty one.
abbrev pub Agree : Scope → Scope → Type 0
Agree scope rendered = (p : String) → or_none (get p scope) ≡ or_none (get p rendered)

declare-Agree :
    (outer scope ancestors : Scope)
    → ((p : String) → get p scope ≡ none → get p outer ≡ none)
    → Agree outer ancestors
    → Agree scope (declare scope ancestors (map (λ d. d.0) scope) ancestors).0
declare-Agree outer scope ancestors grown agree p = elim (Option-cases (get p scope)) [
  | inl n ↦ sym (
      declare-keeps scope ancestors p (map (λ d. d.0) scope) ancestors
        (sym (agree p) ∙ ap or_none (grown p n) ∙ sym (ap or_none n)))
  | inr (v, e) ↦
      sym
        (declare-has scope ancestors p (map (λ d. d.0) scope) ancestors (keys-has p v scope e) refl)
]

-- The text of declarations, and the namespaces after they are written.
abbrev pub texts : Scope → String
texts [] = ""
texts ((p, uri) ∷ ds) =
    ((if is_empty p then " xmlns=\"" else " xmlns:" ++ p ++ "=\"") ++ escape_attribute uri ++ "\"")
    ++ texts ds

abbrev pub put_all : Scope → Scope → Scope
put_all [] now = now
put_all ((p, uri) ∷ ds) now = put_all ds (put p uri now)

declare-written :
    (scope ancestors : Scope) (ps : List String) (now : Scope)
    → (ds : Scope) × (declare scope ancestors ps now ≡ (put_all ds now, texts ds))
unfolding declare
declare-written scope ancestors [] now = ([], refl)
declare-written scope ancestors (q ∷ qs) now =
    elim (Bool-cases (or_none (get q scope) == or_none (get q ancestors))) [
      | inl e ↦ rw e (declare-written scope ancestors qs now)
      | inr e ↦
          let (ds, w) = declare-written scope ancestors qs (put q (or_none (get q scope)) now) in
          ((q, or_none (get q scope)) ∷ ds, rw e (rw w refl))
    ]

-- A start tag that begins with declarations, after which exactly the namespaces in scope are written.
pub record IsDeclared (ancestors : Scope) (name : String) (t : StartTag) : Type 0 where
  pub declared : Scope
  pub attributes : List Attribute
  pub written : t.tag ≡ "<" ++ name ++ texts declared ++ attributes_text attributes ++ ">"
  pub rendered : t.rendered ≡ put_all declared ancestors
  pub agree : Agree t.scope t.rendered

tag_of-IsDeclared :
    (scope ancestors : Scope) (name : String) (attributes : List Attribute) (ps : List String)
    → Agree scope (declare scope ancestors ps ancestors).0
    → IsDeclared ancestors name
        (tag_of name attributes scope (declare scope ancestors ps ancestors))
tag_of-IsDeclared scope ancestors name attributes ps agree =
    let (ds, w) = declare-written scope ancestors ps ancestors in
    record {
      declared = ds;
      attributes = attributes;
      written = ap (λ d. (tag_of name attributes scope d).tag) w;
      rendered = ap (λ d. d.0) w;
      agree = agree;
    }

-- In inclusive mode, if what the ancestors have written are the namespaces that are in scope in the
-- parent, the text of an element's start tag begins with its name and the texts of declarations with
-- which, on top of the ancestors', the namespaces written are exactly those in scope in the element.
pub start_tag-Agree :
    (outer ancestors : Scope) (name : String) (attributes : List (String ⊎ (String × String)))
    (t : StartTag)
    → start_tag none outer ancestors name attributes ≡ ok t
    → Agree outer ancestors
    → IsDeclared ancestors name t
unfolding start_tag candidates
start_tag-Agree outer ancestors name attributes t h agree =
    let (r, e, h) = >>=-ok (read_attributes attributes (outer, [])) _ h in
    let (resolved, _, h) = >>=-ok (resolve_attributes r.0 r.1) _ h in
    let (_, _, h) = >>=-ok (refuse_undeclared (undeclared r.0 (map (λ d. d.0) r.0))) _ h in
    along_ok (IsDeclared ancestors name) _ t h (
      tag_of-IsDeclared r.0 ancestors name (sort_attributes resolved) (map (λ d. d.0) r.0) (
        declare-Agree outer r.0 ancestors (λ p. read_attributes-Grown p attributes (outer, []) r e)
          agree))
