-- ===== src/Soap/Envelope/Reading.antt =====
-- What is escaped for a request is read back as it was.
use Prim.Native.Char.{Char, code}
use Prim.Native.String.{◌++◌}
use package.text.Mathlib.TextLemmas.{nil-append, cons-append}
use dian_service.Base.{
  ℕ, ◌≡◌, refl, ap, ◌∙◌, Bool, true, false, ◌&&◌, not, none, some, String, nat_eq, string_eq,
}
use dian_service.Base.Strings.{every_char}
use dian_service.Application.Xml.{resolve_reference}
use dian_service.Application.Xml.Numbers.{every_char-append}
use dian_service.Signer.C14n.References.{
  read_text, push, read_amp, read_lt, read_gt, read_quot, read_plain,
}
use dian_service.Signer.C14n.Reading.{branch, ReadAs, at_char, IsEvery}
use dian_service.Soap.Envelope.{escaped_char, xml_escape}

read_apos : (t : String) → read_text none ("&apos;" ++ t) ≡ push "'" (read_text none t)
unfolding read_text resolve_reference
read_apos t =
    rw
      (
        cons-append "&" "apos;" t,
        cons-append "a" "pos;" t,
        cons-append "p" "os;" t,
        cons-append "o" "s;" t,
        cons-append "s" ";" t,
        cons-append ";" "" t,
        nil-append t,
      )
      refl

read-escaped_char : (c : Char) (t : String) → ReadAs c t (escaped_char c)
read-escaped_char c t =
    branch (ReadAs c t) _ _ _ (λ h. at_char c t "&" h _ (read_amp t))
      (λ a.
        branch (ReadAs c t) _ _ _ (λ h. at_char c t "<" h _ (read_lt t))
          (λ _.
            branch (ReadAs c t) _ _ _ (λ h. at_char c t ">" h _ (read_gt t))
              (λ _.
                branch (ReadAs c t) _ _ _ (λ h. at_char c t "\"" h _ (read_quot t))
                  (λ _.
                    branch (ReadAs c t) _ _ _ (λ h. at_char c t "'" h _ (read_apos t))
                      (λ _. read_plain c t a)))))

read-xml_escape : (s : String) → read_text none (xml_escape s) ≡ some s
unfolding xml_escape read_text
read-xml_escape String.[] = refl
read-xml_escape (String.◌∷◌ c s) =
    read-escaped_char c (xml_escape s) ∙ ap (push c) (read-xml_escape s)

-- Neither an angle bracket nor a quote of either kind.
abbrev pub is_neutral : ℕ → Bool
is_neutral x = not (nat_eq x 60) && not (nat_eq x 62) && not (nat_eq x 34) && not (nat_eq x 39)

escaped_char-IsEvery : (c : Char) → IsEvery is_neutral (escaped_char c)
escaped_char-IsEvery c =
    branch P (nat_eq (code c) 38) "&amp;" _ (λ _. record { every = refl })
      (λ _.
        branch P (nat_eq (code c) 60) "&lt;" _ (λ _. record { every = refl })
          (λ a.
            branch P (nat_eq (code c) 62) "&gt;" _ (λ _. record { every = refl })
              (λ b.
                branch P (nat_eq (code c) 34) "&quot;" _ (λ _. record { every = refl })
                  (λ d.
                    branch P (nat_eq (code c) 39) "&apos;" _ (λ _. record { every = refl })
                      (plain a b d)))))
  where
    P : String → Type 0
    P e = IsEvery is_neutral e

    plain :
        nat_eq (code c) 60 ≡ false
        → nat_eq (code c) 62 ≡ false
        → nat_eq (code c) 34 ≡ false
        → nat_eq (code c) 39 ≡ false
        → P (String.◌∷◌ c String.[])
    plain a b d e = record { every = rw (a, b, d, e) refl }

xml_escape-neutral : (s : String) → every_char is_neutral (xml_escape s) ≡ true
unfolding xml_escape
xml_escape-neutral String.[] = refl
xml_escape-neutral (String.◌∷◌ c s) =
    every_char-append is_neutral (escaped_char c) (xml_escape s)
    ∙ rw ((escaped_char-IsEvery c).every) (xml_escape-neutral s)

-- A text that is put into a request, as a file's name, a test set or a track id, has no angle bracket
-- and no quote there, so that it neither ends its element nor opens another one, and with its
-- references resolved it is read as it was.
pub read_text-xml_escape :
    (s : String)
    → (read_text none (xml_escape s) ≡ some s) × (every_char is_neutral (xml_escape s) ≡ true)
read_text-xml_escape s = (read-xml_escape s, xml_escape-neutral s)
