-- ===== src/Tests/Canonical.antt =====
-- The theorems on canonical XML at work on one small document.
use dian_service.Base.{◌≡◌, refl, true, List, [], ◌∷◌, none, some, String, ◌⊎◌, inr, arith}
use dian_service.Base.Strings.{every_char}
use dian_service.Base.Xml.{Reader, Nodes, element, leaf, raw, comment, no_more, more, events}
use dian_service.Domain.Errors.{ok}
use dian_service.Signer.C14n.Escapes.{escape_text, escape_attribute}
use dian_service.Signer.C14n.{canonicalize}
use dian_service.Signer.C14n.Trees.{
  canonical, elements, elements_of, others, canonicalize-canonical,
}
use dian_service.Signer.C14n.Namespaces.{
  StartTag, start_tag, put, get, read_attribute, read_attributes, resolve_attribute,
  resolve_attributes, sort_in, sort_attributes, candidates, undeclared, declare, attributes_text,
}
use dian_service.Signer.C14n.References.{read_text}
use dian_service.Signer.C14n.Reading.{is_content, is_quoted, read_text-escape}
use dian_service.Signer.C14n.Declared.{IsDeclared, start_tag-Agree}

abbrev children : Nodes
children =
    more (element "n:c" (inr ("n:k", "1") ∷ inr ("xmlns:n", "urn:n") ∷ []) no_more)
      (more (leaf "e" []) (more comment (more (raw "a < b") no_more)))

abbrev attributes : List (String ⊎ (String × String))
attributes = inr ("id", "7") ∷ inr ("xmlns", "urn:a") ∷ []

abbrev reader : Reader
reader xml = others 1 (events (element "a" attributes children) [])

canonicalize-canonical_example :
    canonicalize reader "document" none ≡ canonical none [] [] (element "a" attributes children)
unfolding elements elements_of
canonicalize-canonical_example =
    canonicalize-canonical reader none "document" "a" attributes children 1 refl (omega arith)

read_text-escape_example :
    (read_text none (escape_text "\"1\" < 2 & 3\r\n") ≡ some "\"1\" < 2 & 3\r\n")
    × (every_char is_content (escape_text "\"1\" < 2 & 3\r\n") ≡ true)
    × (read_text none (escape_attribute "\"1\" < 2 & 3\r\n") ≡ some "\"1\" < 2 & 3\r\n")
    × (every_char is_quoted (escape_attribute "\"1\" < 2 & 3\r\n") ≡ true)
read_text-escape_example = read_text-escape "\"1\" < 2 & 3\r\n"

abbrev start : StartTag
start = record {
  scope = ("", "urn:a") ∷ [];
  rendered = ("", "urn:a") ∷ [];
  tag = "<a xmlns=\"urn:a\" id=\"7\">";
}

started : start_tag none [] [] "a" attributes ≡ ok start
unfolding start_tag put get read_attribute read_attributes resolve_attribute resolve_attributes
    sort_in sort_attributes candidates undeclared declare attributes_text escape_attribute
started = refl

start_tag-Agree_example : IsDeclared [] "a" start
start_tag-Agree_example = start_tag-Agree [] [] "a" attributes start started (λ p. refl)
