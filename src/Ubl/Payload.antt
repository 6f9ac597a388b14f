-- ===== src/Ubl/Payload.antt =====
-- ubl-engine/src/payload.rs: the payloads and their validation. `F` stands for `f64`; `UblError::Validation`,
-- the only error here, is `validation`.
pub mod Valid
pub mod Others
use Prim.Native.Nat.{Ordering}
use Prim.Native.Char.{code}
use Prim.Native.String.{len, compare, ◌++◌}
use dian_service.Base.{
  ℕ, zero, suc, ◌≡◌, Bool, true, false, ◌&&◌, ◌||◌, not, List, [], ◌∷◌, Option, none, some, String,
  ltb, leb, nat_eq, ◌==◌, string_eq, if◌then◌else◌,
}
use dian_service.Base.Chars.{is_digit, is_alphanumeric, is_hex_digit}
use dian_service.Base.Decimal.{decimal}
use dian_service.Base.Int.{ℤ}
use dian_service.Base.Strings.{is_empty, every_char, parse_radix, contains_char}
use dian_service.Base.Text.{trim}
use dian_service.Domain.Checks.{◌>>=◌, ◌>>◌, refuse, or_error, map_error}
use dian_service.Domain.Errors.{Result, ok, err, DomainError, validation, fixed, shown}
use dian_service.Ubl.Money.{Decimals, to_amount, require_equal}
use dian_service.Ubl.Lines.{LinePayload, compute_lines}

pub record BillingReferencePayload : Type 0 where
  pub number : String
  pub cufe : String
  pub issue_date : String

pub record DiscrepancyPayload : Type 0 where
  pub code : String
  pub description : String

pub record InvoicePayload (F : Type 0) : Type 0 where
  pub prefix : String
  pub number : ℤ
  pub issue_date : String
  pub issue_time : String
  pub company_nit : String
  pub company_name : String
  pub customer_id_type : String
  pub customer_id : String
  pub customer_name : String
  pub customer_email : String
  pub net_amount : F
  pub tax_amount : F
  pub total_amount : F
  pub environment : String
  pub technical_key : Option String
  pub document_type : String
  pub test_set_id : Option String
  pub lines : Option (List (LinePayload F))
  pub billing_reference : Option BillingReferencePayload
  pub discrepancy : Option DiscrepancyPayload
  pub software_pin : Option String

abbrev pub invalid : String → DomainError
invalid m = validation (fixed m)

-- `chars().nth(i) == Some(c)`
abbrev pub has_at : ℕ → ℕ → String → Bool
has_at i c String.[] = false
has_at zero c (String.◌∷◌ d s) = nat_eq (code d) c
has_at (suc i) c (String.◌∷◌ d s) = has_at i c s

-- `enumerate().all(..)` of `valid_date`, from an index on.
unfoldable pub date_chars : ℕ → String → Bool
date_chars i String.[] = true
date_chars i (String.◌∷◌ c s) =
    (if nat_eq i 4 || nat_eq i 7 then nat_eq (code c) 45 else is_digit (code c))
    && date_chars (suc i) s

unfoldable pub valid_date : String → Bool
valid_date value = nat_eq (len value) 10 && date_chars 0 value

-- The tests on dates and times in the three `validate`s.
unfoldable pub has_date_form : String → Bool
has_date_form date = nat_eq (len date) 10 && has_at 4 45 date && has_at 7 45 date

unfoldable pub has_time_form : String → Bool
has_time_form time =
    nat_eq (len time) 14 && has_at 2 58 time && has_at 5 58 time && has_at 8 45 time

unfoldable pub is_numeric : String → Bool
is_numeric nit = not (is_empty nit) && every_char is_digit nit

-- The order of texts, by their characters.
unfoldable pub is_after : String → String → Bool
is_after a b = elim (compare a b) [ Ordering.gt ↦ true | _ ↦ false ]

abbrev pub is_concept : ℕ → Option ℕ → Bool
is_concept max_code none = false
is_concept max_code (some c) = leb 1 c && leb c max_code

abbrev pub is_blank : Option String → Bool
is_blank none = true
is_blank (some pin) = is_empty (trim pin)

abbrev pub bad_test_set : Option String → Bool
bad_test_set none = false
bad_test_set (some id) =
    is_empty id || ltb 64 (len id) || not (every_char (λ c. is_alphanumeric c || nat_eq c 45) id)

unfoldable pub is_environment : String → Bool
is_environment environment = environment == "1" || environment == "2"

module _ {F : Type 0} where
  unfoldable pub is_note : InvoicePayload F → Bool
  is_note p = p.document_type == "credit_note" || p.document_type == "debit_note"

  unfoldable pub check_reference : InvoicePayload F → Result (Unit {0})
  check_reference p = do
    reference ←
        or_error p.billing_reference
          (invalid "Las notas requieren billing_reference (factura que corrigen)")
    refuse (is_empty (trim reference.number)) (invalid "billing_reference.number es obligatorio")
    refuse (not (nat_eq (len reference.cufe) 96) || not (every_char is_hex_digit reference.cufe))
        (invalid "billing_reference.cufe debe ser el CUFE de 96 caracteres hexadecimales")
    refuse (not (valid_date reference.issue_date))
        (invalid "billing_reference.issue_date debe tener formato YYYY-MM-DD")
    refuse (is_after reference.issue_date p.issue_date)
        (invalid "La factura referenciada no puede ser posterior a la nota")

  unfoldable pub check_discrepancy : InvoicePayload F → Result (Unit {0})
  check_discrepancy p = do
    discrepancy ←
        or_error p.discrepancy (invalid "Las notas requieren discrepancy (concepto de corrección)")
    let max_code : ℕ = if p.document_type == "credit_note" then 6 else 4
    refuse
        (not (is_concept max_code (parse_radix 256 10 discrepancy.code))
          || not (nat_eq (len discrepancy.code) 1))
        (invalid
          ("discrepancy.code debe ser un concepto de corrección entre 1 y " ++ decimal max_code))
    refuse (is_empty (trim discrepancy.description))
        (invalid "discrepancy.description es obligatoria")

  unfoldable pub validate_note_fields : InvoicePayload F → Result (Unit {0})
  validate_note_fields p = do
    check_reference p
    check_discrepancy p
    refuse (is_blank p.software_pin)
        (invalid "Las notas requieren software_pin para calcular el CUDE")

  unfoldable pub check_type : InvoicePayload F → Result (Unit {0})
  check_type p =
      if p.document_type == "invoice"
      then ok tt
      else if is_note p
      then validate_note_fields p
      else err
          (invalid "Tipo de documento inválido. Debe ser 'invoice', 'credit_note' o 'debit_note'")

  -- What `validate` asks of the texts before it looks at the amounts.
  unfoldable pub check_header : InvoicePayload F → Result (Unit {0})
  check_header p = do
    refuse (not (has_date_form p.issue_date)) (invalid "La fecha debe tener el formato YYYY-MM-DD")
    refuse (not (has_time_form p.issue_time))
        (invalid "La hora debe tener el formato HH:MM:SS-05:00")
    refuse (not (is_numeric p.company_nit)) (
        invalid
          "El NIT de la empresa debe ser únicamente numérico (sin puntos ni dígito de verificación)")
    refuse (is_empty p.customer_id)
        (invalid "La identificación del adquiriente no puede estar vacía")
    refuse (not (contains_char 64 p.customer_email))
        (invalid "El correo del adquiriente debe ser válido")

module _ {F D : Type 0} (N : Decimals F D) where
  -- `amount` and `equal`: the error's text becomes that of another error.
  unfoldable pub amount : String → F → Result D
  amount field value = map_error (λ e. validation (shown e)) (to_amount N field value)

  unfoldable pub equal : String → D → D → Result (Unit {0})
  equal description expected actual =
      map_error (λ e. validation (shown e)) (require_equal N description expected actual)

  -- The net amount and the tax, which have the total as their sum.
  unfoldable pub check_amounts : F → F → F → Result (D × D)
  check_amounts net_amount tax_amount total_amount = do
    net ← amount "net_amount" net_amount
    tax ← amount "tax_amount" tax_amount
    total ← amount "total_amount" total_amount
    equal "total_amount debe ser net_amount + tax_amount" (N.add net tax) total
    ok (net, tax)

  unfoldable pub validate : InvoicePayload F → Result (Unit {0})
  validate p = do
    check_header p
    amounts ← check_amounts p.net_amount p.tax_amount p.total_amount
    check_type p
    _ ← compute_lines N p.lines amounts.0 amounts.1
    refuse (bad_test_set p.test_set_id)
        (invalid "El test_set_id solo puede contener letras, números y guiones (máximo 64)")
    refuse (not (is_environment p.environment))
        (invalid "El ambiente debe ser '1' (producción) o '2' (habilitación)")
