-- ===== src/Signer/C14n/Escapes.antt =====
-- crypto-signer/src/c14n.rs: the text functions.
use Prim.Native.String.{◌++◌}
use Prim.Native.Char.{Char, code}
use dian_service.Base.{Bool, false, ◌&&◌, String, nat_eq, if◌then◌else◌}
use dian_service.Domain.Checks.{or_error}
use dian_service.Domain.Errors.{Result, DomainError, crypto, in_context, fixed}
use dian_service.Application.Xml.{resolve_reference}

-- `CryptoError::C14n` as the error that it becomes.
abbrev pub c14n : String → DomainError
c14n m = crypto (in_context "C14n" (fixed m))

abbrev pub starts_line : String → Bool
starts_line String.[] = false
starts_line (String.◌∷◌ c s) = nat_eq (code c) 10

-- `replace("\r\n", "\n")`: a carriage return goes if a line feed follows.
unfoldable pub replace_crlf : String → String
replace_crlf String.[] = String.[]
replace_crlf (String.◌∷◌ c s) =
    let rest = replace_crlf s in
    if nat_eq (code c) 13 && starts_line s then rest else String.◌∷◌ c rest

-- `replace('\r', "\n")`
unfoldable pub replace_cr : String → String
replace_cr String.[] = String.[]
replace_cr (String.◌∷◌ c s) =
    let rest = replace_cr s in
    if nat_eq (code c) 13 then String.◌∷◌ "\n" rest else String.◌∷◌ c rest

unfoldable pub normalize_eol : String → String
normalize_eol t = replace_cr (replace_crlf t)

abbrev pub text_char : Char → String
text_char c =
    if nat_eq (code c) 38
    then "&amp;"
    else if nat_eq (code c) 60
    then "&lt;"
    else if nat_eq (code c) 62
    then "&gt;"
    else if nat_eq (code c) 13
    then "&#xD;"
    else String.◌∷◌ c String.[]

unfoldable pub escape_text : String → String
escape_text String.[] = String.[]
escape_text (String.◌∷◌ c s) = text_char c ++ escape_text s

abbrev pub attribute_char : Char → String
attribute_char c =
    if nat_eq (code c) 38
    then "&amp;"
    else if nat_eq (code c) 60
    then "&lt;"
    else if nat_eq (code c) 34
    then "&quot;"
    else if nat_eq (code c) 9
    then "&#x9;"
    else if nat_eq (code c) 10
    then "&#xA;"
    else if nat_eq (code c) 13
    then "&#xD;"
    else String.◌∷◌ c String.[]

unfoldable pub escape_attribute : String → String
escape_attribute String.[] = String.[]
escape_attribute (String.◌∷◌ c s) = attribute_char c ++ escape_attribute s

-- `resolve_reference` of c14n.rs, which has the table of the one of application/src/xml.rs.
unfoldable pub reference : String → Result Char
reference name =
    or_error (resolve_reference name) (c14n ("Unsupported entity reference &" ++ name ++ ";"))
