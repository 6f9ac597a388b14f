-- ===== src/Application/Inbound/Verified.antt =====
-- What a verified registration has checked.
use dian_service.Base.{
  ◌≡◌, ◌∙◌, ap, true, false, not, List, [], ◌∷◌, Option, none, some, String, ◌⊎◌, inl, inr, ◌==◌,
  string_eq, eq_iff, arith,
}
use dian_service.Base.Int.{ℤ}
use dian_service.Base.Strings.{eq_ignore_case}
use dian_service.Base.Xml.{Reader}
use dian_service.Domain.Checks.{not-false, >>=-ok, refuse-ok, or_error-ok, along_ok}
use dian_service.Domain.Errors.{ok}
use dian_service.Domain.Models.{Tenant}
use dian_service.Application.Xml.{XmlDoc, parse, text_at}
use dian_service.Application.Xml.Tags.{split_document_id}
use dian_service.Application.Inbound.{
  Attached, InvoiceFacts, InvoiceIds, open_as, read_invoice, check_addressed, facts_of, parsed,
  not_blank, required, same_text, check_response, facts, supplier, customer, document_response,
}

-- The facts are those of the invoice, which is the tenant's, and which the DIAN's response accepts.
pub record IsGenuine {V : Type 0} (read : Reader) (tenant : Tenant V) (a : Attached)
    (f : InvoiceFacts) : Type 0 where
  pub inv : XmlDoc
  pub response : XmlDoc
  pub validated_cufe : String
  pub invoice_parsed : parse read a.invoice_xml ≡ inr inv
  pub is_invoice : inv.root ≡ "Invoice"
  pub response_parsed : parse read a.response_xml ≡ inr response
  pub is_response : response.root ≡ "ApplicationResponse"
  pub of_invoice :
      (text_at read inv ("Invoice" ∷ "ID" ∷ []) ≡ some f.ids.invoice_id)
      × (text_at read inv ("Invoice" ∷ "UUID" ∷ []) ≡ some f.ids.cufe)
      × (text_at read inv (supplier "CompanyID") ≡ some f.ids.sender_nit)
  pub addressed : text_at read inv (customer "CompanyID") ≡ some tenant.tax_id
  pub accepted :
      text_at read response (document_response ("Response" ∷ "ResponseCode" ∷ [])) ≡ some "02"
  pub about_it :
      (text_at read response (document_response ("DocumentReference" ∷ "UUID" ∷ []))
        ≡ some validated_cufe)
      × (eq_ignore_case validated_cufe f.ids.cufe ≡ true)
  pub in_container :
      text_at read a.container ("AttachedDocument" ∷ "ParentDocumentID" ∷ [])
      ≡ some f.ids.invoice_id
  pub numbered : split_document_id f.ids.invoice_id ≡ some (f.prefix, f.number)

same-eq : (s t : String) → not (s == t) ≡ false → s ≡ t
same-eq s t h = (eq_iff s t).0 (not-false (s == t) h)

parsed-ok : {A : Type 0} (what : String) (x : String ⊎ A) {a : A} → parsed what x ≡ ok a → x ≡ inr a
parsed-ok what (inl e) h = cc
parsed-ok what (inr b) h = cc

not_blank-some : (o : Option String) (t : String) → not_blank o ≡ some t → o ≡ some t
not_blank-some none t h = cc
not_blank-some (some v) t h = ground arith

same_text-eq : (o : Option String) (t : String) → not (same_text o t) ≡ false → o ≡ some t
same_text-eq none t h = cc
same_text-eq (some s) t h = ap some (same-eq s t h)

module _ (read : Reader) where
  required-ok :
      (d : XmlDoc) (path : List String) (what : String) {t : String}
      → required read d path what ≡ ok t
      → text_at read d path ≡ some t
  unfolding required
  required-ok d path what {t} h =
      not_blank-some (text_at read d path) t (or_error-ok (not_blank (text_at read d path)) _ h)

  pub check_response-ok :
      (response : XmlDoc) (cufe : String)
      → check_response read response cufe ≡ ok tt
      → (c : String) × (text_at read response (document_response ("Response" ∷ "ResponseCode" ∷ []))
          ≡ some "02")
        × (text_at read response (document_response ("DocumentReference" ∷ "UUID" ∷ [])) ≡ some c)
        × (eq_ignore_case c cufe ≡ true)
  unfolding check_response
  check_response-ok response cufe h =
      let (code, e1, h) = >>=-ok (required read response _ _) _ h in
      let (c, e2, h) = >>=-ok (required read response _ _) _ h in
      let (e3, h) = refuse-ok (not (code == "02")) _ _ h in
      let (e4, _) = refuse-ok (not (eq_ignore_case c cufe)) _ _ h in
      (
        c,
        required-ok response _ _ e1 ∙ ap some (same-eq code "02" e3),
        required-ok response _ _ e2,
        not-false _ e4,
      )

  open_as-ok :
      (what root message xml : String) {d : XmlDoc}
      → open_as read what root message xml ≡ ok d
      → (parse read xml ≡ inr d) × (d.root ≡ root)
  unfolding open_as
  open_as-ok what root message xml {d} h =
      let (c, e, h) = >>=-ok (parsed what (parse read xml)) _ h in
      let (r, h) = refuse-ok (not (c.root == root)) _ (ok c) h in
      along_ok (λ d. (parse read xml ≡ inr d) × (d.root ≡ root)) c d h
        (parsed-ok what (parse read xml) e, same-eq c.root root r)

  -- What `read_invoice` reads.
  abbrev ReadFrom : XmlDoc → InvoiceIds → Type 0
  ReadFrom inv ids =
      (text_at read inv ("Invoice" ∷ "ID" ∷ []) ≡ some ids.invoice_id)
      × (text_at read inv ("Invoice" ∷ "UUID" ∷ []) ≡ some ids.cufe)
      × (text_at read inv (supplier "CompanyID") ≡ some ids.sender_nit)
      × (text_at read inv (customer "CompanyID") ≡ some ids.receiver_nit)

  read_invoice-ok :
      (inv : XmlDoc) {ids : InvoiceIds} → read_invoice read inv ≡ ok ids → ReadFrom inv ids
  unfolding read_invoice
  read_invoice-ok inv {ids} h =
      let (id, e1, h) = >>=-ok (required read inv _ _) _ h in
      let (cufe, e2, h) = >>=-ok (required read inv _ _) _ h in
      let (sender, e3, h) = >>=-ok (required read inv _ _) _ h in
      let (name, _, h) = >>=-ok (required read inv _ _) _ h in
      let (receiver, e4, h) = >>=-ok (required read inv _ _) _ h in
      along_ok (ReadFrom inv) _ ids h (
        required-ok inv _ _ e1,
        required-ok inv _ _ e2,
        required-ok inv _ _ e3,
        required-ok inv _ _ e4,
      )

  check_addressed-ok :
      {V : Type 0} (tenant : Tenant V) (container : XmlDoc) (ids : InvoiceIds) {parts : String × ℤ}
      → check_addressed read tenant container ids ≡ ok parts
      → (text_at read container ("AttachedDocument" ∷ "ParentDocumentID" ∷ [])
          ≡ some ids.invoice_id)
        × (ids.receiver_nit ≡ tenant.tax_id)
        × (split_document_id ids.invoice_id ≡ some parts)
  unfolding check_addressed
  check_addressed-ok tenant container ids h =
      let (e1, h) = refuse-ok (not (same_text _ ids.invoice_id)) _ _ h in
      let (e2, h) = refuse-ok (not (ids.receiver_nit == tenant.tax_id)) _ _ h in
      (same_text-eq _ ids.invoice_id e1, same-eq _ _ e2, or_error-ok _ _ h)

  genuine :
      {V : Type 0} (tenant : Tenant V) (a : Attached) (inv response : XmlDoc) (ids : InvoiceIds)
      (parts : String × ℤ)
      → ((parse read a.invoice_xml ≡ inr inv) × (inv.root ≡ "Invoice"))
      → ((parse read a.response_xml ≡ inr response) × (response.root ≡ "ApplicationResponse"))
      → ReadFrom inv ids
      → check_response read response ids.cufe ≡ ok tt
      → check_addressed read tenant a.container ids ≡ ok parts
      → IsGenuine read tenant a (facts_of read inv ids parts)
  genuine tenant a inv response ids parts (p, r) (q, t) (id, cufe, sender, receiver) h k =
      let (c, code, about, same) = check_response-ok response ids.cufe h in
      let (inside, to, numbered) = check_addressed-ok tenant a.container ids k in
      record {
        inv = inv;
        response = response;
        validated_cufe = c;
        invoice_parsed = p;
        is_invoice = r;
        response_parsed = q;
        is_response = t;
        of_invoice = (id, cufe, sender);
        addressed = receiver ∙ ap some to;
        accepted = code;
        about_it = (about, same);
        in_container = inside;
        numbered = numbered;
      }

  pub facts-IsGenuine :
      {V : Type 0} (tenant : Tenant V) (a : Attached) {f : InvoiceFacts}
      → facts read tenant a ≡ ok f
      → IsGenuine read tenant a f
  unfolding facts
  facts-IsGenuine tenant a {f} h =
      let (inv, e1, h) = >>=-ok (open_as read _ _ _ a.invoice_xml) _ h in
      let (response, e2, h) = >>=-ok (open_as read _ _ _ a.response_xml) _ h in
      let (ids, e3, h) = >>=-ok (read_invoice read inv) _ h in
      let (_, e4, h) = >>=-ok (check_response read response ids.cufe) _ h in
      let (parts, e5, h) = >>=-ok (check_addressed read tenant a.container ids) _ h in
      along_ok (IsGenuine read tenant a) (facts_of read inv ids parts) f h (
        genuine tenant a inv response ids parts (open_as-ok _ _ _ a.invoice_xml e1)
          (open_as-ok _ _ _ a.response_xml e2) (read_invoice-ok inv e3) e4 e5)
