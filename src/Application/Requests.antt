-- ===== src/Application/Requests.antt =====
-- application/src/admin.rs: the requests of the administration and their checks.
pub mod Ranges
pub mod Admitted
use dian_service.Base.{
  ℕ, ◌+◌, Bool, true, false, ◌&&◌, ◌||◌, not, List, [], ◌∷◌, Option, none, some, String, any, ltb,
  leb, nat_eq, ◌==◌, string_eq, min, max, if◌then◌else◌,
}
use Prim.Native.String.{len, count, ◌++◌, slice}
use dian_service.Base.Chars.{is_digit, is_alphanumeric}
use dian_service.Base.Int.{ℤ, pos, ltb_ℤ, pos_part}
use dian_service.Base.Text.{codes, trim, contains, eq_codes}
use dian_service.Domain.Enums.{CertificateStatus}
use dian_service.Domain.Errors.{
  Result, ok, err, Message, validation, not_found, fixed, text_length, tenant_id, api_key_id,
  dead_job_id, dead_delivery_id,
}
use dian_service.Domain.Json.{Json}
use dian_service.Domain.Models.{
  Tenant, Certificate, NewTenant, ApiKeyRecord, DeadJob, DeadDelivery, AuditEntry,
}
use dian_service.Store.Admin.{
  find_tenant, create_tenant as store_tenant, create_api_key as store_api_key,
  list_api_keys as stored_api_keys, revoke_api_key as revoke_stored_key, activate_certificate,
  list_dead_jobs, list_dead_deliveries, retry_dead_job as retry_stored_job,
  retry_dead_delivery as retry_stored_delivery,
}
use dian_service.Application.World.{
  Outside, Action, give, ◌>>=◌, and_then, port, case_option, case_result,
}

abbrev pub invalid : {A : Type 0} → String → Result A
invalid m = err (validation (fixed m))

-- The next check, if this one passed.
abbrev pub passed : {A B : Type 0} → Result A → (A → Result B) → Result B
passed (ok a) f = f a
passed (err e) f = err e

unfoldable pub checked_text : String → String → ℕ → Result String
checked_text field value most =
    let t = trim value in
    if t == "" || ltb most (count t) then err (validation (text_length field most)) else ok t

pub record CreateTenant : Type 0 where
  pub tax_id : String
  pub registration_name : String
  pub tax_regime : String
  pub reception_email : String

pub record IssuedApiKey : Type 0 where
  pub id : ℕ
  pub name : String
  pub prefix : String
  pub key : String

pub record RegisterCertificate : Type 0 where
  pub vault_reference_path : String
  pub thumbprint : String
  pub expiration_date : ℕ

abbrev pub every : (ℕ → Bool) → List ℕ → Bool
every p cs = not (any (λ c. not (p c)) cs)

unfoldable pub checked_tenant : ℕ → CreateTenant → Result NewTenant
checked_tenant id r =
    let tax_id = trim r.tax_id in
    if not (leb 5 (len tax_id) && leb (len tax_id) 15) || not (every is_digit (codes tax_id))
    then invalid "tax_id debe ser el NIT numerico sin digito de verificacion"
    else passed (checked_text "reception_email" r.reception_email 255) (λ email.
      if not (contains 64 (codes email))
      then invalid "reception_email no es un correo valido"
      else passed (checked_text "registration_name" r.registration_name 255) (λ name.
        passed (checked_text "tax_regime" r.tax_regime 100) (λ regime. ok (record {
          id = id;
          tax_id = tax_id;
          registration_name = name;
          tax_regime = regime;
          reception_email = email;
        }))))

-- `path.split('/')`
abbrev pub put_front : ℕ → List (List ℕ) → List (List ℕ)
put_front c [] = (c ∷ []) ∷ []
put_front c (p ∷ ps) = (c ∷ p) ∷ ps

abbrev pub split : ℕ → List ℕ → List (List ℕ)
split x [] = [] ∷ []
split x (c ∷ cs) = if nat_eq c x then [] ∷ split x cs else put_front c (split x cs)

abbrev pub is_segment : List ℕ → Bool
is_segment cs =
    not (eq_codes cs [])
    && not (eq_codes cs (46 ∷ []))
    && not (eq_codes cs (46 ∷ 46 ∷ []))
    && every (λ c. is_alphanumeric c || nat_eq c 45 || nat_eq c 95 || nat_eq c 46) cs

unfoldable pub is_vault_path : String → Bool
is_vault_path path =
    not (path == "")
    && leb (len path) 500
    && not (any (λ segment. not (is_segment segment)) (split 47 (codes path)))

unfoldable pub checked_certificate : ℕ → ℕ → ℕ → RegisterCertificate → Result Certificate
checked_certificate id now tenant r =
    let path = trim r.vault_reference_path in
    if not (is_vault_path path)
    then invalid "vault_reference_path no es una ruta de Vault valida"
    else if leb r.expiration_date now
    then invalid "El certificado ya esta vencido"
    else passed (checked_text "thumbprint" r.thumbprint 255) (λ thumbprint. ok (record {
      id = id;
      tenant_id = tenant;
      vault_reference_path = path;
      thumbprint = thumbprint;
      expiration_date = r.expiration_date;
      status = CertificateStatus.active;
    }))
