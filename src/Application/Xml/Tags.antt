-- ===== src/Application/Xml/Tags.antt =====
-- application/src/xml.rs: the textual search for tags, and the numbers of documents.
use Prim.Native.Nat.{ℕ, ◌^◌}
use Prim.Native.Char.{code}
use dian_service.Base.{
  Bool, ◌||◌, not, Option, none, some, String, nat_eq, ◌==◌, string_eq, if◌then◌else◌,
}
use dian_service.Base.Chars.{is_digit}
use dian_service.Base.Int.{ℤ, pos}
use dian_service.Base.Strings.{
  behind, split_before, split_before_text, split_last, is_empty, every_char, parse_radix,
}
use dian_service.Base.Text.{trim, is_whitespace}
use dian_service.Application.Xml.{local_name}

-- Where a tag's name ends.
abbrev pub ends_name : ℕ → Bool
ends_name c = nat_eq c 32 || nat_eq c 62 || nat_eq c 47 || is_whitespace c

-- From behind a tag's `<` on, what stands between its `>` and the next `</`.
unfoldable pub content : String → Option String
content tag_rest = elim (split_before (λ c. nat_eq c 62) tag_rest) [
  | none ↦ none
  | some (_, from) ↦ elim (split_before_text "</" (behind from)) [
    | none ↦ none
    | some (inside, _) ↦ some (trim inside)
  ]
]

-- A tag's name and what follows the whole search from behind its `<`.
abbrev pub tag_found : String → String → Option (String × String) → Option String → Option String
tag_found tag_name tag_rest none next = none
tag_found tag_name tag_rest (some (full_tag, _)) next =
    if local_name full_tag == tag_name then content tag_rest else next

unfoldable pub tag_content : String → String → Option String
tag_content String.[] tag_name = none
tag_content (String.◌∷◌ c s) tag_name =
    let next = tag_content s tag_name in
    if nat_eq (code c) 60 then tag_found tag_name s (split_before ends_name s) next else next

unfoldable pub tag_in_section : String → String → String → String → Option String
tag_in_section xml section_start section_end tag_name = elim (split_before_text section_start xml) [
  | none ↦ none
  | some (_, from) ↦ elim (split_before_text section_end from) [
    | none ↦ none
    | some (section, _) ↦ tag_content section tag_name
  ]
]

abbrev pub prefix_and_digits : String → Option (String × String)
prefix_and_digits document_id = elim (split_last 45 document_id) [
  | some parts ↦ some parts
  | none ↦ split_before is_digit document_id
]

-- The digits as an `i32`, which is then not negative.
abbrev pub numbered : String → String → Option (String × ℤ)
numbered prefix digits =
    if is_empty digits || not (every_char is_digit digits)
    then none
    else elim (parse_radix (2 ^ 31) 10 digits) [ none ↦ none | some n ↦ some (prefix, pos n) ]

unfoldable pub split_document_id : String → Option (String × ℤ)
split_document_id document_id = elim (prefix_and_digits document_id) [
  | none ↦ none
  | some (prefix, digits) ↦ numbered prefix digits
]
