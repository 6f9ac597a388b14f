-- ===== src/Ubl/Payload/Others.antt =====
-- ubl-engine/src/payload.rs: the payroll and support document payloads.
use dian_service.Base.{not, List, Option, String}
use dian_service.Base.Int.{ℤ}
use dian_service.Base.Strings.{is_empty}
use dian_service.Domain.Checks.{◌>>=◌, ◌>>◌, refuse}
use dian_service.Domain.Errors.{Result}
use dian_service.Ubl.Money.{Decimals}
use dian_service.Ubl.Lines.{LinePayload, compute_lines}
use dian_service.Ubl.Payload.{
  invalid, has_date_form, has_time_form, is_numeric, is_environment, amount, equal, check_amounts,
}

pub record PayrollPayload (F : Type 0) : Type 0 where
  pub prefix : String
  pub number : ℤ
  pub issue_date : String
  pub issue_time : String
  pub employer_nit : String
  pub employer_name : String
  pub employee_id_type : String
  pub employee_id : String
  pub employee_name : String
  pub devengado : F
  pub deducido : F
  pub total : F
  pub software_pin : String
  pub environment : String

pub record SupportDocumentPayload (F : Type 0) : Type 0 where
  pub prefix : String
  pub number : ℤ
  pub issue_date : String
  pub issue_time : String
  pub seller_nit : String
  pub seller_name : String
  pub buyer_nit : String
  pub buyer_name : String
  pub net_amount : F
  pub tax_amount : F
  pub total_amount : F
  pub software_pin : String
  pub environment : String
  pub lines : Option (List (LinePayload F))

module _ {F D : Type 0} (N : Decimals F D) where
  unfoldable pub validate_payroll : PayrollPayload F → Result (Unit {0})
  validate_payroll p = do
    refuse (not (has_date_form p.issue_date))
        (invalid "La fecha de nomina debe tener el formato YYYY-MM-DD")
    refuse (is_empty p.issue_time) (invalid "La hora de nomina no puede estar vacia")
    refuse (not (is_numeric p.employer_nit)) (invalid "El NIT del empleador debe ser numerico")
    refuse (is_empty p.employee_id) (invalid "La identificacion del empleado no puede estar vacia")
    devengado ← amount N "devengado" p.devengado
    deducido ← amount N "deducido" p.deducido
    total ← amount N "total" p.total
    equal N "total debe ser devengado - deducido" (N.sub devengado deducido) total
    refuse (not (is_environment p.environment))
        (invalid "El ambiente debe ser '1' (produccion) o '2' (habilitacion)")

  unfoldable pub validate_support : SupportDocumentPayload F → Result (Unit {0})
  validate_support p = do
    refuse (not (has_date_form p.issue_date))
        (invalid "La fecha del documento soporte debe tener el formato YYYY-MM-DD")
    refuse (not (has_time_form p.issue_time))
        (invalid "La hora del documento soporte debe tener el formato HH:MM:SS-05:00")
    refuse (not (is_numeric p.seller_nit))
        (invalid "La identificacion del vendedor debe ser numerica")
    refuse (not (is_numeric p.buyer_nit)) (invalid "El NIT del comprador debe ser numerico")
    amounts ← check_amounts N p.net_amount p.tax_amount p.total_amount
    _ ← compute_lines N p.lines amounts.0 amounts.1
    refuse (not (is_environment p.environment))
        (invalid "El ambiente debe ser '1' (produccion) o '2' (habilitacion)")
