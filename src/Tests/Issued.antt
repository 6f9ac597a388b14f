-- ===== src/Tests/Issued.antt =====
-- An invoice of the engine, issued.
use dian_service.Base.{ℕ, ◌≡◌, refl, none, inr}
use dian_service.Base.Int.{pos}
use dian_service.Domain.Errors.{ok}
use dian_service.Domain.Ports.{IssuedDocument, created}
use dian_service.Application.World.{World, port}
use dian_service.Base.{insert, adjust}
use dian_service.Base.Int.{max_ℤ, add32, sub32}
use dian_service.Domain.Numbering.{next_number, check_requested, candidate}
use dian_service.Domain.Jobs.{new_transmit}
use dian_service.Store.State.{has_active_job, insert_job}
use dian_service.Store.Documents.{
  issue_outbound, replay, issue_new, pick_range, latest, latest_from, issue_number, remember,
}
use dian_service.Ubl.Money.{to_amount, require_equal}
use dian_service.Ubl.Lines.{
  compute_lines, compute, compute_all, compute_line, decimal_of, check_sums,
}
use dian_service.Application.Issue.{
  issue, issue_invoice, type_of, authorized, require_issuer, idempotency, store_document,
}
use dian_service.Application.Issue.Payloads.{invoice_payload, IsStored, issue_invoice-IsValid}
use dian_service.Ubl.Payload.{
  InvoicePayload, validate, check_header, has_date_form, has_time_form, is_numeric, check_amounts,
  amount, equal, check_type, is_environment,
}
use dian_service.Ubl.Payload.Valid.{IsValid}
use dian_service.Tests.Samples.{Sample, sample_json, empty, text}
use dian_service.Tests.Requests.{issuer, hashing}
use dian_service.Tests.Processing.{outside, world}
use dian_service.Tests.Ubl.{hundredths, payload}

abbrev first : InvoicePayload ℕ
first = record payload { prefix = "FE"; number = pos 1 }

abbrev start : World Sample
start = record world { store = empty }

abbrev told : IssuedDocument
told = record { document_id = 1000; document_number = pos 1 }

issued :
    (issue_invoice sample_json hashing outside 10
      (invoice_payload hundredths (λ e. "") (λ p. inr (text "")))
      issuer
      first
      none
      start).0
    ≡ ok (created told)
unfolding issue_invoice invoice_payload authorized require_issuer issue idempotency store_document
    port type_of validate check_header has_date_form has_time_form is_numeric check_amounts amount
    to_amount equal require_equal check_type is_environment compute_lines compute compute_all
    compute_line decimal_of check_sums issue_outbound replay issue_new pick_range latest latest_from
    next_number check_requested candidate max_ℤ add32 sub32 issue_number
    dian_service.Store.Documents.numbered remember has_active_job insert_job insert adjust
    new_transmit
issued = refl

issue_invoice-IsValid_example :
    IsValid hundredths first
    × ("900" ≡ issuer.tax_id)
    × IsStored hundredths sample_json hashing outside 10
        (λ e. "")
        (λ p. inr (text ""))
        issuer
        first
        told
        (issue_invoice sample_json hashing outside 10
          (invoice_payload hundredths (λ e. "") (λ p. inr (text "")))
          issuer
          first
          none
          start).1.store
issue_invoice-IsValid_example =
    issue_invoice-IsValid hundredths sample_json hashing outside 10 (λ e. "") (λ p. inr (text ""))
      issuer first none start told issued
