-- ===== src/Application/Requests/Ranges.antt =====
-- application/src/admin.rs: the request that registers a numbering range.
use dian_service.Base.{
  ℕ, ◌&&◌, ◌||◌, not, Option, none, some, String, leb, ltb, ◌==◌, string_eq, if◌then◌else◌,
}
use Prim.Native.String.{len, ◌++◌}
use dian_service.Base.Int.{ℤ, pos, ltb_ℤ, sub32}
use dian_service.Base.Chars.{is_alphanumeric}
use dian_service.Base.Text.{codes, trim}
use dian_service.Domain.Enums.{DocumentType, invoice, document_type_eq}
use dian_service.Domain.EnumText.{document_type_of_str}
use dian_service.Domain.Errors.{Result, ok}
use dian_service.Domain.Models.{NumberingRange}
use dian_service.Application.Requests.{invalid, passed, every}

pub record RegisterNumberingRange : Type 0 where
  pub document_type : String
  pub prefix : String
  pub from_number : ℤ
  pub to_number : ℤ
  pub technical_key : String
  pub valid_date_from : ℕ
  pub valid_date_to : ℕ
  pub last_issued_number : Option ℤ

-- `request.document_type.parse()`
abbrev pub parsed_type : String → Option DocumentType → Result DocumentType
parsed_type text none = invalid ("document_type '" ++ text ++ "' no es valido")
parsed_type text (some t) = ok t

-- Where the range goes on from.
unfoldable pub first_counter : ℤ → ℤ → Option ℤ → Result ℤ
first_counter from to none = ok (pos 0)
first_counter from to (some n) =
    if not (ltb_ℤ n (sub32 from (pos 1))) && not (ltb_ℤ to n)
    then ok n
    else invalid "last_issued_number debe estar dentro del rango"

-- The numbers of the range.
unfoldable pub checked_numbers : RegisterNumberingRange → Result ℤ → Result ℤ
checked_numbers r rest =
    if ltb_ℤ r.from_number (pos 1) || ltb_ℤ r.to_number r.from_number
    then invalid "El rango debe cumplir 1 <= from_number <= to_number"
    else rest

-- The dates and the technical key, which follow the numbers.
unfoldable pub checked_resolution : DocumentType → RegisterNumberingRange → Result ℤ
checked_resolution t r =
    let technical_key = trim r.technical_key in
    if leb r.valid_date_to r.valid_date_from
    then invalid "valid_date_from debe ser anterior a valid_date_to"
    else if t == invoice && technical_key == ""
    then invalid "Las facturas requieren la technical_key de la resolucion"
    else if ltb 255 (len technical_key)
    then invalid "technical_key es demasiado larga"
    else first_counter r.from_number r.to_number r.last_issued_number

unfoldable pub checked_range : ℕ → ℕ → RegisterNumberingRange → Result NumberingRange
checked_range id tenant r =
    passed (parsed_type r.document_type (document_type_of_str r.document_type)) (λ t.
      let prefix = trim r.prefix in
      if ltb 4 (len prefix) || not (every is_alphanumeric (codes prefix))
      then invalid "prefix admite hasta 4 caracteres alfanumericos"
      else passed (checked_numbers r (checked_resolution t r)) (λ counter. ok (record {
        id = id;
        tenant_id = tenant;
        document_type = t;
        prefix = prefix;
        from_number = r.from_number;
        to_number = r.to_number;
        technical_key = trim r.technical_key;
        valid_date_from = r.valid_date_from;
        valid_date_to = r.valid_date_to;
        current_counter = counter;
      })))
