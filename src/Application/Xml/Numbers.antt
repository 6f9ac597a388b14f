-- ===== src/Application/Xml/Numbers.antt =====
-- A document's number, written and read back.
use Prim.Native.Nat.{ℕ, ◌<◌, ◌^◌}
use Prim.Native.Char.{Char, code}
use text.Mathlib.TextLemmas.{nil-append, cons-append}
use Prim.Native.String.{◌++◌}
use dian_service.Base.{
  ◌≡◌, refl, ◌∙◌, ◌&&◌, Bool, true, false, not, none, some, String, nat_eq, lt→ltb, arith,
}
use dian_service.Base.Chars.{is_digit}
use dian_service.Base.Decimal.{decimal, decimal-digits}
use dian_service.Base.Int.{pos}
use dian_service.Base.Strings.{
  split_before, split_last, is_empty, every_char, parse_radix, without_plus,
}
use dian_service.Application.Xml.Tags.{split_document_id, prefix_and_digits, numbered}

-- No digit and no dash.
abbrev pub is_plain : ℕ → Bool
is_plain c = not (is_digit c) && not (nat_eq c 45)

split_last-none :
    (x : ℕ) (s : String) → every_char (λ c. not (nat_eq c x)) s ≡ true → split_last x s ≡ none
split_last-none x String.[] h = refl
split_last-none x (String.◌∷◌ c s) h = ground (arith, split_last-none x s)

pub every_char-append :
    (p : ℕ → Bool) (s t : String) → every_char p (s ++ t) ≡ every_char p s && every_char p t
every_char-append p String.[] t = rw (nil-append t) refl
every_char-append p (String.◌∷◌ c s) t =
    rw (cons-append c s t) (ground (arith, every_char-append p s t))

every_char_mono :
    (p q : ℕ → Bool) (s : String)
    → ((c : ℕ) → p c ≡ true → q c ≡ true)
    → every_char p s ≡ true
    → every_char q s ≡ true
every_char_mono p q String.[] f h = refl
every_char_mono p q (String.◌∷◌ c s) f h = ground (arith, f (code c), every_char_mono p q s f)

-- Behind a text with no digit the digits are found.
split_before-append :
    (p s : String)
    → every_char is_plain p ≡ true
    → is_empty s ≡ false
    → every_char is_digit s ≡ true
    → split_before is_digit (p ++ s) ≡ some (p, s)
split_before-append String.[] String.[] h e d = cc
split_before-append String.[] (String.◌∷◌ c s) h e d =
    rw (nil-append (String.◌∷◌ c s)) (ground arith)
split_before-append (String.◌∷◌ c p) s h e d =
    rw (cons-append c p s) (ground (arith, split_before-append p s))

split_last-append :
    (x : ℕ) (p : String) (d : Char) (s : String)
    → code d ≡ x
    → every_char (λ c. not (nat_eq c x)) s ≡ true
    → split_last x (p ++ String.◌∷◌ d s) ≡ some (p, s)
split_last-append x String.[] d s e h =
    rw (nil-append (String.◌∷◌ d s), split_last-none x s h) (ground arith)
split_last-append x (String.◌∷◌ c p) d s e h =
    rw (cons-append c p (String.◌∷◌ d s)) (rw (split_last-append x p d s e h, split_last) refl)

digit-plus : (c : ℕ) → is_digit c ≡ true → nat_eq c 43 ≡ false
digit-plus c h = ground arith

without_plus-digits : (s : String) → every_char is_digit s ≡ true → without_plus s ≡ s
without_plus-digits String.[] h = refl
without_plus-digits (String.◌∷◌ c s) h = ground arith

numbered-decimal :
    (prefix : String) (n : ℕ) → n < 2 ^ 31 → numbered prefix (decimal n) ≡ some (prefix, pos n)
unfolding parse_radix
numbered-decimal prefix n h =
    let (some_digit, digits, value) = decimal-digits n in
    rw
      (
        some_digit,
        digits,
        without_plus-digits (decimal n) digits,
        some_digit,
        value,
        lt→ltb n (2 ^ 31) h,
      )
      refl

split_document_id-parts :
    (s prefix digits : String)
    → prefix_and_digits s ≡ some (prefix, digits)
    → split_document_id s ≡ numbered prefix digits
unfolding split_document_id
split_document_id-parts s prefix digits e = rw (e, split_document_id) refl

no_dash : (n : ℕ) → every_char (λ c. not (nat_eq c 45)) (decimal n) ≡ true
no_dash n =
    every_char_mono is_digit (λ c. not (nat_eq c 45)) (decimal n) (λ c h. ground arith)
      (decimal-digits n).1

no_dash-plain :
    (prefix : String) (n : ℕ)
    → every_char is_plain prefix ≡ true
    → every_char (λ c. not (nat_eq c 45)) (prefix ++ decimal n) ≡ true
no_dash-plain prefix n plain = ground (
  arith,
  every_char-append (λ c. not (nat_eq c 45)) prefix (decimal n),
  every_char_mono is_plain (λ c. not (nat_eq c 45)) prefix (λ c h. ground arith) plain,
  no_dash n,
)

-- The number of a document as an invoice carries it, the prefix and then the number, is read back as
-- these two, if the prefix has neither a digit nor a dash. The number is one of an `i32` that is not
-- negative.
pub split_document_id-decimal :
    (prefix : String) (n : ℕ)
    → every_char is_plain prefix ≡ true
    → n < 2 ^ 31
    → split_document_id (prefix ++ decimal n) ≡ some (prefix, pos n)
split_document_id-decimal prefix n plain h =
    let (some_digit, digits, _) = decimal-digits n in
    split_document_id-parts (prefix ++ decimal n) prefix (decimal n) (
      rw
        (split_last-none 45 (prefix ++ decimal n) (no_dash-plain prefix n plain), prefix_and_digits)
        (split_before-append prefix (decimal n) plain some_digit digits))
    ∙ numbered-decimal prefix n h

-- With a dash between them, the prefix and the number are read back for every prefix, also one with
-- digits or dashes.
pub split_document_id-dash :
    (prefix : String) (n : ℕ)
    → n < 2 ^ 31
    → split_document_id (prefix ++ String.◌∷◌ "-" (decimal n)) ≡ some (prefix, pos n)
split_document_id-dash prefix n h =
    split_document_id-parts (prefix ++ String.◌∷◌ "-" (decimal n)) prefix (decimal n)
      (rw (split_last-append 45 prefix "-" (decimal n) refl (no_dash n), prefix_and_digits) refl)
    ∙ numbered-decimal prefix n h
