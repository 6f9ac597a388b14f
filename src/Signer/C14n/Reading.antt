-- ===== src/Signer/C14n/Reading.antt =====
-- What is written is read back: the references in a canonical text.
use Prim.Native.Char.{Char, code}
use Prim.Native.String.{◌++◌}
use package.text.Mathlib.TextEquality.{Char-path}
use dian_service.Base.{
  ℕ, ◌≡◌, refl, ap, ◌∙◌, Bool, true, false, ◌&&◌, not, none, some, String, nat_eq, arith,
  if◌then◌else◌, string_eq,
}
use dian_service.Base.Strings.{every_char}
use dian_service.Application.Xml.Numbers.{every_char-append}
use dian_service.Signer.C14n.Escapes.{escape_text, escape_attribute, text_char, attribute_char}
use dian_service.Signer.C14n.References.{
  push, read_text, read_amp, read_lt, read_gt, read_quot, read_tab, read_line_feed,
  read_carriage_return, read_plain,
}

-- The character of a code.
is : (x c : Char) → nat_eq (code c) (code x) ≡ true → x ≡ c
is x c h = Char-path x c (ground arith)

-- What holds of both branches.
pub branch {ℓ} :
    (P : String → Type ℓ) (b : Bool) (u v : String)
    → (b ≡ true → P u)
    → (b ≡ false → P v)
    → P (if b then u else v)
branch P true u v f g = f refl
branch P false u v f g = g refl

module _ (c : Char) (t : String) where
  abbrev pub ReadAs : String → Type 0
  ReadAs e = read_text none (e ++ t) ≡ push c (read_text none t)

  pub at_char :
      (x : Char) (h : nat_eq (code c) (code x) ≡ true) (e : String)
      → read_text none (e ++ t) ≡ push x (read_text none t)
      → ReadAs e
  at_char x h e r = r ∙ ap (λ y. push y (read_text none t)) (is x c h)

  read-text_char : ReadAs (text_char c)
  read-text_char =
      branch ReadAs _ _ _ (λ h. at_char "&" h _ (read_amp t))
        (λ a.
          branch ReadAs _ _ _ (λ h. at_char "<" h _ (read_lt t))
            (λ _.
              branch ReadAs _ _ _ (λ h. at_char ">" h _ (read_gt t))
                (λ _.
                  branch ReadAs _ _ _ (λ h. at_char "\r" h _ (read_carriage_return t))
                    (λ _. read_plain c t a))))

  read-attribute_char : ReadAs (attribute_char c)
  read-attribute_char =
      branch ReadAs _ _ _ (λ h. at_char "&" h _ (read_amp t))
        (λ a.
          branch ReadAs _ _ _ (λ h. at_char "<" h _ (read_lt t))
            (λ _.
              branch ReadAs _ _ _ (λ h. at_char "\"" h _ (read_quot t))
                (λ _.
                  branch ReadAs _ _ _ (λ h. at_char "\t" h _ (read_tab t))
                    (λ _.
                      branch ReadAs _ _ _ (λ h. at_char "\n" h _ (read_line_feed t))
                        (λ _.
                          branch ReadAs _ _ _ (λ h. at_char "\r" h _ (read_carriage_return t))
                            (λ _. read_plain c t a))))))

read-escape_text : (s : String) → read_text none (escape_text s) ≡ some s
unfolding escape_text read_text
read-escape_text String.[] = refl
read-escape_text (String.◌∷◌ c s) =
    read-text_char c (escape_text s) ∙ ap (push c) (read-escape_text s)

read-escape_attribute : (s : String) → read_text none (escape_attribute s) ≡ some s
unfolding escape_attribute read_text
read-escape_attribute String.[] = refl
read-escape_attribute (String.◌∷◌ c s) =
    read-attribute_char c (escape_attribute s) ∙ ap (push c) (read-escape_attribute s)

-- Neither markup nor a carriage return in a text; in an attribute no markup, no quote, and none of the
-- white space that a parser would read as a space: tab, line feed, carriage return.
abbrev pub is_content : ℕ → Bool
is_content x = not (nat_eq x 60) && not (nat_eq x 62) && not (nat_eq x 13)

abbrev pub is_quoted : ℕ → Bool
is_quoted x =
    not (nat_eq x 60)
    && not (nat_eq x 34)
    && not (nat_eq x 9)
    && not (nat_eq x 10)
    && not (nat_eq x 13)

pub record IsEvery (p : ℕ → Bool) (s : String) : Type 0 where
  pub every : every_char p s ≡ true

text_char-IsEvery : (c : Char) → IsEvery is_content (text_char c)
text_char-IsEvery c =
    branch P (nat_eq (code c) 38) "&amp;" _ (λ _. record { every = refl })
      (λ _.
        branch P (nat_eq (code c) 60) "&lt;" _ (λ _. record { every = refl })
          (λ b.
            branch P (nat_eq (code c) 62) "&gt;" _ (λ _. record { every = refl })
              (λ d.
                branch P (nat_eq (code c) 13) "&#xD;" _ (λ _. record { every = refl })
                  (plain b d))))
  where
    P : String → Type 0
    P e = IsEvery is_content e

    plain :
        nat_eq (code c) 60 ≡ false
        → nat_eq (code c) 62 ≡ false
        → nat_eq (code c) 13 ≡ false
        → P (String.◌∷◌ c String.[])
    plain b d e = record { every = rw (b, d, e) refl }

attribute_char-IsEvery : (c : Char) → IsEvery is_quoted (attribute_char c)
attribute_char-IsEvery c =
    branch P (nat_eq (code c) 38) "&amp;" _ (λ _. record { every = refl })
      (λ _.
        branch P (nat_eq (code c) 60) "&lt;" _ (λ _. record { every = refl })
          (λ b.
            branch P (nat_eq (code c) 34) "&quot;" _ (λ _. record { every = refl })
              (λ d.
                branch P (nat_eq (code c) 9) "&#x9;" _ (λ _. record { every = refl })
                  (λ tab.
                    branch P (nat_eq (code c) 10) "&#xA;" _ (λ _. record { every = refl })
                      (λ line_feed.
                        branch P (nat_eq (code c) 13) "&#xD;" _ (λ _. record { every = refl })
                          (plain b d tab line_feed))))))
  where
    P : String → Type 0
    P e = IsEvery is_quoted e

    plain :
        nat_eq (code c) 60 ≡ false
        → nat_eq (code c) 34 ≡ false
        → nat_eq (code c) 9 ≡ false
        → nat_eq (code c) 10 ≡ false
        → nat_eq (code c) 13 ≡ false
        → P (String.◌∷◌ c String.[])
    plain b d tab line_feed r = record { every = rw (b, d, tab, line_feed, r) refl }

escape_text-content : (s : String) → every_char is_content (escape_text s) ≡ true
unfolding escape_text
escape_text-content String.[] = refl
escape_text-content (String.◌∷◌ c s) =
    every_char-append is_content (text_char c) (escape_text s)
    ∙ rw ((text_char-IsEvery c).every) (escape_text-content s)

escape_attribute-quoted : (s : String) → every_char is_quoted (escape_attribute s) ≡ true
unfolding escape_attribute
escape_attribute-quoted String.[] = refl
escape_attribute-quoted (String.◌∷◌ c s) =
    every_char-append is_quoted (attribute_char c) (escape_attribute s)
    ∙ rw ((attribute_char-IsEvery c).every) (escape_attribute-quoted s)

-- Every text, written as content or as an attribute's value and with its references resolved, is read
-- back as it was. As content it has no angle bracket and no carriage return. As a value it has no `<`
-- and no quote, so that it ends where the writer ends it, and no tab, line feed or carriage return,
-- which a parser would turn into spaces.
pub read_text-escape :
    (s : String)
    → (read_text none (escape_text s) ≡ some s)
      × (every_char is_content (escape_text s) ≡ true)
      × (read_text none (escape_attribute s) ≡ some s)
      × (every_char is_quoted (escape_attribute s) ≡ true)
read_text-escape s =
    (read-escape_text s, escape_text-content s, read-escape_attribute s, escape_attribute-quoted s)
