-- ===== src/Application/Xml/Trees.antt =====
-- What `XmlDoc::text` finds, told of the document's tree.
use Prim.Native.String.{◌++◌}
use package.text.Mathlib.TextLemmas.{append-nil, nil-append, append_assoc}
use dian_service.Base.{
  ℕ, suc, ◌≤◌, ◌≡◌, refl, sym, ap, ◌∙◌, List, [], ◌∷◌, reverse, Option, none, some, String, ◌⊎◌,
  inl, inr, length, nat_eq, arith, Bool-cases, if◌then◌else◌,
}
use dian_service.Base.Text.{trim}
use dian_service.Base.Xml.{
  Event, Reader, empty, end, text, Node, Nodes, element, leaf, chars, raw, comment, no_more, more,
  events, events_of,
}
use dian_service.Application.Xml.{eq_path, local_name, text_event, find_text, XmlDoc, text_at}

-- All text within nodes.
unfoldable mutual
  pub text_of : Node → String
  text_of (element name attributes children) = texts children
  text_of (leaf name attributes) = ""
  text_of (chars t) = t
  text_of (raw t) = t
  text_of comment = ""

  pub texts : Nodes → String
  texts no_more = ""
  texts (more n ns) = text_of n ++ texts ns

abbrev pub or_later : Option String → Option String → Option String
or_later none found = found
or_later (some t) found = some t

-- The text of the first element at a path, the innermost name first, in document order; the stack is
-- the path of the place where the nodes stand.
unfoldable mutual
  pub first_text : List String → List String → Node → Option String
  first_text path stack (element name attributes children) =
      if eq_path (local_name name ∷ stack) path
      then some (trim (texts children))
      else first_text_in path (local_name name ∷ stack) children
  first_text path stack (leaf name attributes) =
      if eq_path (local_name name ∷ stack) path then some "" else none
  first_text path stack (chars t) = none
  first_text path stack (raw t) = none
  first_text path stack comment = none

  pub first_text_in : List String → List String → Nodes → Option String
  first_text_in path stack no_more = none
  first_text_in path stack (more n ns) =
      or_later (first_text path stack n) (first_text_in path stack ns)

or_later_assoc : (a b c : Option String) → or_later (or_later a b) c ≡ or_later a (or_later b c)
or_later_assoc none b c = refl
or_later_assoc (some t) b c = refl

module _ (path : List String) where
  -- The end of an element within the one that is captured, and the end of that one.
  end-inside :
      (name q : String) (stack : List String) (d : ℕ) (acc : String) (rest : List (String ⊎ Event))
      → d ≤ length stack
      → find_text path (name ∷ stack, some (d, acc)) (inr (end q) ∷ rest)
        ≡ find_text path (stack, some (d, acc)) rest
  unfolding find_text text_event
  end-inside name q stack d acc rest h = elim (Bool-cases (nat_eq d (suc (length stack)))) [
    | inl e ↦ absurd (ground (arith, e))
    | inr e ↦ ground (arith, e)
  ]

  end-found :
      (name q : String) (stack : List String) (acc : String) (rest : List (String ⊎ Event))
      → find_text path (name ∷ stack, some (suc (length stack), acc)) (inr (end q) ∷ rest)
        ≡ some (trim acc)
  unfolding find_text text_event
  end-found name q stack acc rest = ground arith

  -- Within the element that is captured.
  mutual
    unfolding events events_of text_of texts find_text text_event

    find_text-captured :
        (stack : List String) (d : ℕ) (acc : String) (n : Node) (rest : List (String ⊎ Event))
        → d ≤ length stack
        → find_text path (stack, some (d, acc)) (events n rest)
          ≡ find_text path (stack, some (d, acc ++ text_of n)) rest
    find_text-captured stack d acc (element name attributes children) rest h =
        find_texts-captured (local_name name ∷ stack) d acc children (inr (end name) ∷ rest)
          (omega arith)
        ∙ end-inside (local_name name) name stack d (acc ++ texts children) rest h
    find_text-captured stack d acc (leaf name attributes) rest h = rw (append-nil acc) refl
    find_text-captured stack d acc (chars t) rest h = refl
    find_text-captured stack d acc (raw t) rest h = refl
    find_text-captured stack d acc comment rest h = rw (append-nil acc) refl

    find_texts-captured :
        (stack : List String) (d : ℕ) (acc : String) (ns : Nodes) (rest : List (String ⊎ Event))
        → d ≤ length stack
        → find_text path (stack, some (d, acc)) (events_of ns rest)
          ≡ find_text path (stack, some (d, acc ++ texts ns)) rest
    find_texts-captured stack d acc no_more rest h = rw (append-nil acc) refl
    find_texts-captured stack d acc (more n ns) rest h =
        find_text-captured stack d acc n (events_of ns rest) h
        ∙ find_texts-captured stack d (acc ++ text_of n) ns rest h
        ∙ rw (append_assoc acc (text_of n) (texts ns)) refl

  -- The element at the path: all of its text is captured, and its end gives it.
  found :
      (stack : List String) (name : String) (children : Nodes) (rest : List (String ⊎ Event))
      → find_text path
          (local_name name ∷ stack, some (suc (length stack), ""))
          (events_of children (inr (end name) ∷ rest))
        ≡ some (trim (texts children))
  unfolding find_text text_event
  found stack name children rest =
      find_texts-captured (local_name name ∷ stack) (suc (length stack)) "" children
        (inr (end name) ∷ rest) (omega arith)
      ∙ rw (nil-append (texts children))
          (end-found (local_name name) name stack (texts children) rest)

  -- An element with one tag, which has no text.
  empty-first :
      (stack : List String) (name : String) (attributes : List (String ⊎ (String × String)))
      (rest : List (String ⊎ Event))
      → find_text path (stack, none) (inr (empty name attributes) ∷ rest)
        ≡ or_later
            (if eq_path (local_name name ∷ stack) path then some "" else none)
            (find_text path (stack, none) rest)
  unfolding find_text text_event
  empty-first stack name attributes rest =
      elim (Bool-cases (eq_path (local_name name ∷ stack) path)) [
        | inl here ↦ rw (here, find_text) refl
        | inr other ↦ rw (other, find_text) refl
      ]

  -- Outside of any such element.
  mutual
    unfolding events events_of first_text first_text_in find_text text_event

    find_text-first :
        (stack : List String) (n : Node) (rest : List (String ⊎ Event))
        → find_text path (stack, none) (events n rest)
          ≡ or_later (first_text path stack n) (find_text path (stack, none) rest)
    find_text-first stack (element name attributes children) rest =
        elim (Bool-cases (eq_path (local_name name ∷ stack) path)) [
          | inl here ↦ rw here (found stack name children rest)
          | inr other ↦
              rw other (find_texts-first (local_name name ∷ stack) children (inr (end name) ∷ rest))
        ]
    find_text-first stack (leaf name attributes) rest = empty-first stack name attributes rest
    find_text-first stack (chars t) rest = refl
    find_text-first stack (raw t) rest = refl
    find_text-first stack comment rest = refl

    find_texts-first :
        (stack : List String) (ns : Nodes) (rest : List (String ⊎ Event))
        → find_text path (stack, none) (events_of ns rest)
          ≡ or_later (first_text_in path stack ns) (find_text path (stack, none) rest)
    find_texts-first stack no_more rest = refl
    find_texts-first stack (more n ns) rest =
        find_text-first stack n (events_of ns rest)
        ∙ ap (or_later (first_text path stack n)) (find_texts-first stack ns rest)
        ∙ sym (
            or_later_assoc (first_text path stack n) (first_text_in path stack ns)
              (find_text path (stack, none) rest))

-- Where the reader gives the events of a document of elements with start and end tags or with one tag,
-- text, CDATA sections, comments and declarations, `text` finds the text of the first element in
-- document order whose local names from the root on are the path, if there is one.
pub text_at-first :
    (read : Reader) (d : XmlDoc) (path : List String) (document : Nodes)
    → read d.xml ≡ events_of document []
    → text_at read d path ≡ first_text_in (reverse path) [] document
unfolding text_at find_text
text_at-first read d path document e = rw e (
    find_texts-first (reverse path) [] document []
    ∙ last (first_text_in (reverse path) [] document))
  where
    last : (found : Option String) → or_later found none ≡ found
    last none = refl
    last (some t) = refl
