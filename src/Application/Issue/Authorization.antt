-- ===== src/Application/Issue/Authorization.antt =====
-- Who may issue.
use dian_service.Base.{ℕ, ◌≡◌, ◌≢◌, refl, Option, String, inl, inr, arith, eq_iff, Sum-cases}
use dian_service.Domain.Errors.{
  Result, err, DomainError, validation, forbidden, payload_error, foreign_nit,
}
use dian_service.Domain.Json.{Json}
use dian_service.Domain.Models.{Tenant}
use dian_service.Domain.Ports.{IssueOutcome}
use dian_service.Application.World.{World, Outside, Action, give, case_result}
use dian_service.Application.Issue.{
  Payload, Hashing, require_issuer, authorized, issue_invoice, issue_payroll,
  issue_support_document,
}

-- The call is refused, and the world is as it was: nothing was stored, no number was used.
abbrev pub Refuses : {V : Type 0} → Action V (Result IssueOutcome) → Type 0
Refuses {V} m = (w : World V) → (e : DomainError) × (m w ≡ (err e, w))

module _ {V P : Type 0} (J : Json V) (H : Hashing V) (O : Outside V) (attempts : ℕ)
    (Q : Payload V P) where
  authorized-Refuses :
      (tenant : Tenant V) (p : P) (role : String) (rest : Action V (Result IssueOutcome))
      → Q.nit p ≢ tenant.tax_id
      → Refuses (authorized J H O attempts Q tenant p role rest)
  unfolding authorized require_issuer give
  authorized-Refuses tenant p role rest foreign w = elim (Sum-cases (Q.validate p)) [
    | inl (e, bad) ↦ (validation (payload_error e), rw (bad, authorized) refl)
    | inr (_, good) ↦
        (forbidden (foreign_nit role), rw (good, authorized) (rw (refused, case_result) refl))
  ]
    where
      refused : require_issuer tenant (Q.nit p) role ≡ err (forbidden (foreign_nit role))
      refused = ground (arith, foreign, eq_iff (Q.nit p) tenant.tax_id)

  -- A payload in the name of another NIT than the authenticated tenant's is refused by all three entry
  -- points, whatever else it holds, and changes nothing.
  pub foreign-Refuses :
      (tenant : Tenant V) (p : P) (key : Option String)
      → Q.nit p ≢ tenant.tax_id
      → Refuses (issue_invoice J H O attempts Q tenant p key)
        × Refuses (issue_payroll J H O attempts Q tenant p key)
        × Refuses (issue_support_document J H O attempts Q tenant p key)
  unfolding issue_invoice issue_payroll issue_support_document
  foreign-Refuses tenant p key foreign = (
    authorized-Refuses tenant p _ _ foreign,
    authorized-Refuses tenant p _ _ foreign,
    authorized-Refuses tenant p _ _ foreign,
  )
