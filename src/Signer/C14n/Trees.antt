-- ===== src/Signer/C14n/Trees.antt =====
-- The canonical form of a document's tree, by recursion, and the loop with its stacks that writes it.
use Prim.Native.Nat.{◌%◌, ◌^◌}
use Prim.Native.String.{◌++◌}
use package.text.Mathlib.TextLemmas.{append-nil, nil-append, append_assoc}
use dian_service.Base.{
  ℕ, zero, suc, ◌+◌, ◌<◌, ◌≡◌, refl, ap, ◌∙◌, true, false, List, [], ◌∷◌, Option, String, ◌⊎◌, inl,
  inr, nat_eq, arith,
}
use dian_service.Base.Xml.{
  Event, Reader, start, empty, end, text, cdata, other, Node, Nodes, element, leaf, chars, raw,
  comment, no_more, more, events, events_of,
}
use dian_service.Domain.Checks.{◌>>=◌}
use dian_service.Domain.Errors.{Result, ok, err, DomainError, Result-cases}
use dian_service.Application.Xml.{pred_usize}
use dian_service.Signer.C14n.{
  Canonicalizer, last_or_default, opened, canonical_event, canonical_events, start_element,
  end_element, fresh, canonicalize,
}
use dian_service.Signer.C14n.Escapes.{normalize_eol, escape_text}
use dian_service.Signer.C14n.Namespaces.{Scope, StartTag, start_tag}

abbrev close_tag : String → String
close_tag name = "</" ++ name ++ ">"

-- Each element's start tag from its parent's namespaces and those that its ancestors have written, its
-- children in it, and its end tag.
unfoldable mutual
  pub canonical : Option (List String) → Scope → Scope → Node → Result String
  canonical exclusive outer ancestors (element name attributes children) = do
    t ← start_tag exclusive outer ancestors name attributes
    inner ← canonical_all exclusive t.scope t.rendered children
    ok (t.tag ++ (inner ++ close_tag name))
  canonical exclusive outer ancestors (leaf name attributes) = do
    t ← start_tag exclusive outer ancestors name attributes
    ok (t.tag ++ close_tag name)
  canonical exclusive outer ancestors (chars t) = ok (escape_text (normalize_eol t))
  canonical exclusive outer ancestors (raw t) = ok (escape_text (normalize_eol t))
  canonical exclusive outer ancestors comment = ok ""

  pub canonical_all : Option (List String) → Scope → Scope → Nodes → Result String
  canonical_all exclusive outer ancestors no_more = ok ""
  canonical_all exclusive outer ancestors (more n ns) = do
    t ← canonical exclusive outer ancestors n
    ts ← canonical_all exclusive outer ancestors ns
    ok (t ++ ts)

-- The number of elements, a bound on the depth.
unfoldable mutual
  pub elements : Node → ℕ
  elements (element name attributes children) = suc (elements_of children)
  elements (leaf name attributes) = 1
  elements (chars t) = 0
  elements (raw t) = 0
  elements comment = 0

  pub elements_of : Nodes → ℕ
  elements_of no_more = 0
  elements_of (more n ns) = elements n + elements_of ns

module _ (exclusive : Option (List String)) where
  -- In an element with scopes `s` and `r`, of whose ancestors the stacks are `ss` and `rs`.
  abbrev within : Scope → Scope → List Scope → List Scope → ℕ → String → Canonicalizer
  within s r ss rs d out = record {
    out = out;
    scopes = s ∷ ss;
    rendered = r ∷ rs;
    exclusive = exclusive;
    depth = suc d;
    seen_root = true;
  }

  start-ok :
      (name : String) (attributes : List (String ⊎ (String × String))) (es : List (String ⊎ Event))
      (c : Canonicalizer) (t : StartTag)
      → start_tag c.exclusive
          (last_or_default c.scopes)
          (last_or_default c.rendered)
          name
          attributes
        ≡ ok t
      → canonical_events (inr (start name attributes) ∷ es) c ≡ canonical_events es (opened c t)
  unfolding canonical_events canonical_event start_element
  start-ok name attributes es c t e = rw (e, canonical_events) refl

  start-err :
      (name : String) (attributes : List (String ⊎ (String × String))) (es : List (String ⊎ Event))
      (c : Canonicalizer) (x : DomainError)
      → start_tag c.exclusive
          (last_or_default c.scopes)
          (last_or_default c.rendered)
          name
          attributes
        ≡ err x
      → canonical_events (inr (start name attributes) ∷ es) c ≡ err x
  unfolding canonical_events canonical_event start_element
  start-err name attributes es c x e = rw (e, canonical_events) refl

  opened-within :
      (s r : Scope) (ss rs : List Scope) (d : ℕ) (out : String) (t : StartTag)
      → suc (suc d) < 2 ^ 64
      → opened (within s r ss rs d out) t
        ≡ within t.scope t.rendered (s ∷ ss) (r ∷ rs) (suc d) (out ++ t.tag)
  opened-within s r ss rs d out t h =
      ap
        (λ n. record (within t.scope t.rendered (s ∷ ss) (r ∷ rs) (suc d) (out ++ t.tag)) {
          depth = n;
        })
        deeper
    where
      deeper : (suc d + 1) % 2 ^ 64 ≡ suc (suc d)
      deeper = omega (arith, h)

  end-within :
      (name : String) (s r s' r' : Scope) (ss rs : List Scope) (d : ℕ) (out : String)
      (es : List (String ⊎ Event))
      → suc (suc d) < 2 ^ 64
      → canonical_events (inr (end name) ∷ es) (within s' r' (s ∷ ss) (r ∷ rs) (suc d) out)
        ≡ canonical_events es (within s r ss rs d (out ++ close_tag name))
  unfolding canonical_events canonical_event
  end-within name s r s' r' ss rs d out es h =
      ap
        (λ n.
          canonical_events es (record (within s r ss rs d (out ++ close_tag name)) { depth = n }))
        less_deep
    where
      less_deep : pred_usize (suc (suc d)) ≡ suc d
      less_deep = omega (arith, h)

  -- The end of an element, whatever became of its children.
  ending :
      (name : String) (s r : Scope) (t : StartTag) (ss rs : List Scope) (d : ℕ) (out : String)
      (rest : List (String ⊎ Event))
      → suc (suc d) < 2 ^ 64
      → (m : Result String)
      → (m >>= λ inner.
          canonical_events
            (inr (end name) ∷ rest)
            (within t.scope t.rendered (s ∷ ss) (r ∷ rs) (suc d) ((out ++ t.tag) ++ inner)))
        ≡ ((m >>= λ inner. ok (t.tag ++ (inner ++ close_tag name))) >>= λ x.
            canonical_events rest (within s r ss rs d (out ++ x)))
  ending name s r t ss rs d out rest h (err e) = refl
  ending name s r t ss rs d out rest h (ok inner) =
      end-within name s r t.scope t.rendered ss rs d ((out ++ t.tag) ++ inner) rest h
      ∙ ap (λ o. canonical_events rest (within s r ss rs d o))
          (append_assoc (out ++ t.tag) inner (close_tag name)
            ∙ append_assoc out t.tag (inner ++ close_tag name))

  characters :
      (s r : Scope) (ss rs : List Scope) (d : ℕ) (out t : String) (rest : List (String ⊎ Event))
      → canonical_events (inr (text t) ∷ rest) (within s r ss rs d out)
        ≡ canonical_events rest (within s r ss rs d (out ++ escape_text (normalize_eol t)))
  unfolding canonical_events canonical_event
  characters s r ss rs d out t rest = rw (inside, canonical_events) refl
    where
      inside : nat_eq (suc d) 0 ≡ false
      inside = ground arith

  section_text :
      (s r : Scope) (ss rs : List Scope) (d : ℕ) (out t : String) (rest : List (String ⊎ Event))
      → canonical_events (inr (cdata t) ∷ rest) (within s r ss rs d out)
        ≡ canonical_events rest (within s r ss rs d (out ++ escape_text (normalize_eol t)))
  unfolding canonical_events canonical_event
  section_text s r ss rs d out t rest = rw (inside, canonical_events) refl
    where
      inside : nat_eq (suc d) 0 ≡ false
      inside = ground arith

  skipped :
      (s r : Scope) (ss rs : List Scope) (d : ℕ) (out : String) (rest : List (String ⊎ Event))
      → canonical_events (inr other ∷ rest) (within s r ss rs d out)
        ≡ canonical_events rest (within s r ss rs d out)
  unfolding canonical_events canonical_event
  skipped s r ss rs d out rest = refl

  leaf-ok :
      (name : String) (attributes : List (String ⊎ (String × String))) (es : List (String ⊎ Event))
      (c : Canonicalizer) (t : StartTag)
      → start_tag c.exclusive
          (last_or_default c.scopes)
          (last_or_default c.rendered)
          name
          attributes
        ≡ ok t
      → canonical_events (inr (empty name attributes) ∷ es) c
        ≡ canonical_events es (end_element name (opened c t))
  unfolding canonical_events canonical_event start_element
  leaf-ok name attributes es c t e = rw (e, canonical_events) refl

  leaf-err :
      (name : String) (attributes : List (String ⊎ (String × String))) (es : List (String ⊎ Event))
      (c : Canonicalizer) (x : DomainError)
      → start_tag c.exclusive
          (last_or_default c.scopes)
          (last_or_default c.rendered)
          name
          attributes
        ≡ err x
      → canonical_events (inr (empty name attributes) ∷ es) c ≡ err x
  unfolding canonical_events canonical_event start_element
  leaf-err name attributes es c x e = rw (e, canonical_events) refl

  -- An element with one tag leaves the scopes as they were.
  closed_again :
      (name : String) (s r : Scope) (ss rs : List Scope) (d : ℕ) (out : String) (t : StartTag)
      → suc (suc d) < 2 ^ 64
      → end_element name (opened (within s r ss rs d out) t)
        ≡ within s r ss rs d (out ++ (t.tag ++ close_tag name))
  closed_again name s r ss rs d out t h =
      ap (λ n. record (within s r ss rs d ((out ++ t.tag) ++ close_tag name)) { depth = n }) same
      ∙ ap (within s r ss rs d) (append_assoc out t.tag (close_tag name))
    where
      same : pred_usize ((suc d + 1) % 2 ^ 64) ≡ suc d
      same = omega (arith, h)

  -- Two texts, one after the other.
  joined :
      (R : String → Result String) (out t : String) (m : Result String)
      → (m >>= λ u. R ((out ++ t) ++ u)) ≡ ((m >>= λ u. ok (t ++ u)) >>= λ x. R (out ++ x))
  joined R out t (err e) = refl
  joined R out t (ok u) = ap R (append_assoc out t u)

  both :
      (R S : String → Result String) (out : String) (m k : Result String)
      → ((t : String) → S (out ++ t) ≡ (k >>= λ u. R ((out ++ t) ++ u)))
      → (m >>= λ t. S (out ++ t)) ≡ ((m >>= λ t. k >>= λ u. ok (t ++ u)) >>= λ x. R (out ++ x))
  both R S out (err e) k h = refl
  both R S out (ok t) k h = h t ∙ joined R out t k

  -- The text in an element is written by the loop as the recursion has it.
  mutual
    unfolding events events_of canonical canonical_all elements elements_of

    events-canonical :
        (s r : Scope) (ss rs : List Scope) (d : ℕ) (out : String) (n : Node)
        (rest : List (String ⊎ Event))
        → suc d + elements n < 2 ^ 64
        → canonical_events (events n rest) (within s r ss rs d out) ≡ (
            canonical exclusive s r n >>= λ t.
            canonical_events rest (within s r ss rs d (out ++ t)))
    events-canonical s r ss rs d out (element name attributes children) rest h =
        elim (Result-cases (start_tag exclusive s r name attributes)) [
          | inl (t, e) ↦
              start-ok name attributes _ (within s r ss rs d out) t e
              ∙ ap (canonical_events (events_of children (inr (end name) ∷ rest)))
                  (opened-within s r ss rs d out t (omega arith))
              ∙ events_of-canonical t.scope t.rendered (s ∷ ss) (r ∷ rs) (suc d) (out ++ t.tag)
                  children (inr (end name) ∷ rest) (omega arith)
              ∙ rw e (
                  ending name s r t ss rs d out rest (omega arith)
                    (canonical_all exclusive t.scope t.rendered children))
          | inr (x, e) ↦ start-err name attributes _ (within s r ss rs d out) x e ∙ rw e refl
        ]
    events-canonical s r ss rs d out (leaf name attributes) rest h =
        elim (Result-cases (start_tag exclusive s r name attributes)) [
          | inl (t, e) ↦
              leaf-ok name attributes rest (within s r ss rs d out) t e
              ∙ ap (canonical_events rest) (closed_again name s r ss rs d out t (omega (arith, h)))
              ∙ rw e refl
          | inr (x, e) ↦ leaf-err name attributes rest (within s r ss rs d out) x e ∙ rw e refl
        ]
    events-canonical s r ss rs d out (chars t) rest h = characters s r ss rs d out t rest
    events-canonical s r ss rs d out (raw t) rest h = section_text s r ss rs d out t rest
    events-canonical s r ss rs d out comment rest h =
        skipped s r ss rs d out rest ∙ rw (append-nil out) refl

    events_of-canonical :
        (s r : Scope) (ss rs : List Scope) (d : ℕ) (out : String) (ns : Nodes)
        (rest : List (String ⊎ Event))
        → suc d + elements_of ns < 2 ^ 64
        → canonical_events (events_of ns rest) (within s r ss rs d out) ≡ (
            canonical_all exclusive s r ns >>= λ t.
            canonical_events rest (within s r ss rs d (out ++ t)))
    events_of-canonical s r ss rs d out no_more rest h = rw (append-nil out) refl
    events_of-canonical s r ss rs d out (more n ns) rest h =
        events-canonical s r ss rs d out n (events_of ns rest) (omega (arith, h))
        ∙ both (λ o. canonical_events rest (within s r ss rs d o))
            (λ o. canonical_events (events_of ns rest) (within s r ss rs d o)) out
            (canonical exclusive s r n) (canonical_all exclusive s r ns)
            (λ t. events_of-canonical s r ss rs d (out ++ t) ns rest (omega (arith, h)))

-- The declaration and comments.
abbrev pub others : ℕ → List (String ⊎ Event) → List (String ⊎ Event)
others zero es = es
others (suc n) es = inr other ∷ others n es

module _ (read : Reader) (exclusive : Option (List String)) where
  -- The end of the document.
  end-document :
      (name : String) (t : StartTag) (m : Result String)
      → (m >>= λ inner.
          canonical_events
            (inr (end name) ∷ [])
            (within exclusive t.scope t.rendered [] [] 0 (("" ++ t.tag) ++ inner)))
        ≡ (m >>= λ inner. ok (t.tag ++ (inner ++ close_tag name)))
  unfolding canonical_events canonical_event
  end-document name t (err e) = refl
  end-document name t (ok inner) =
      ap (λ o. Result.ok o)
        (append_assoc ("" ++ t.tag) inner (close_tag name)
          ∙ ap (λ o. o ++ (inner ++ close_tag name)) (nil-append t.tag))

  others-skipped :
      (n : ℕ) (es : List (String ⊎ Event))
      → canonical_events (others n es) (fresh exclusive) ≡ canonical_events es (fresh exclusive)
  unfolding canonical_events canonical_event
  others-skipped zero es = refl
  others-skipped (suc n) es = others-skipped n es

  -- For a document of fewer than 2 ^ 64 elements, with start and end tags or with one tag, text, CDATA
  -- sections and comments, and with a declaration and comments before its root, whose events the
  -- reader gives: `canonicalize` writes the canonical form of its tree and fails where that form does.
  -- In that form every start tag is the one that `start_tag` gives for the element's own attributes, the
  -- namespaces of its parent and those that its ancestors have written, whatever stands before it; and
  -- every element has an end tag.
  pub canonicalize-canonical :
      (xml name : String) (attributes : List (String ⊎ (String × String))) (children : Nodes)
      (before : ℕ)
      → read xml ≡ others before (events (element name attributes children) [])
      → elements (element name attributes children) < 2 ^ 64
      → canonicalize read xml exclusive
        ≡ canonical exclusive [] [] (element name attributes children)
  unfolding canonicalize events canonical elements
  canonicalize-canonical xml name attributes children before given h =
      ap (λ es. canonical_events es (fresh exclusive)) given
      ∙ others-skipped before (events (element name attributes children) [])
      ∙ (elim (Result-cases (start_tag exclusive [] [] name attributes)) [
        | inl (t, e) ↦
            start-ok exclusive name attributes (events_of children (inr (end name) ∷ []))
              (fresh exclusive) t e
            ∙ events_of-canonical exclusive t.scope t.rendered [] [] 0 ("" ++ t.tag) children
                (inr (end name) ∷ []) (omega arith)
            ∙ rw e (end-document name t (canonical_all exclusive t.scope t.rendered children))
        | inr (x, e) ↦
            start-err exclusive name attributes (events_of children (inr (end name) ∷ []))
              (fresh exclusive) x e
            ∙ rw e refl
      ])
