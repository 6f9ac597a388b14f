-- ===== src/Ubl/Documents/Generated.antt =====
-- What a generated invoice or note holds.
use Prim.Native.String.{◌++◌}
use dian_service.Base.{
  ◌≡◌, refl, ap, ◌⊎◌, inl, inr, false, not, Option, none, some, String, eq_iff, ◌==◌, string_eq,
  ltb, arith, Bool-cases,
}
use dian_service.Domain.Checks.{or_error, >>=-ok, refuse-ok, or_error-ok, along_ok}
use dian_service.Domain.Errors.{ok}
use dian_service.Ubl.Cufe.{calculate_cufe_cude}
use dian_service.Ubl.Lines.{compute_lines, tax_subtotals}
use dian_service.Ubl.Money.{Decimals, to_amount, format_amount as format_decimal_amount}
use dian_service.Ubl.Parties.{new_party}
use dian_service.Ubl.Payload.{InvoicePayload, validate, amount, is_blank}
use dian_service.Ubl.Payload.Valid.{IsValid, validate-IsValid, amount-ok}
use dian_service.Ubl.Documents.{
  Floats, CommercialDocument, CommercialInput, InvoiceKind, kind_of, rendered, number_text,
  format_amount, commercial_document, invoice_code, invoice_input, generate_invoice_xml,
}

-- The document types and what belongs to each: the key of the code is the technical key for an
-- invoice, and the PIN for a note.
abbrev pub IsKind : {F : Type 0} → InvoicePayload F → String → InvoiceKind → Type 0
IsKind p technical_key kind =
    ((p.document_type ≡ "invoice")
      × (kind ≡ record {
        template = "invoice.xml";
        customization_id = "10";
        type_code = "01";
        uuid_scheme = "CUFE-SHA384";
        key = technical_key;
      }))
    ⊎ (pin : String) × (p.software_pin ≡ some pin)
      × (((p.document_type ≡ "credit_note")
            × (kind ≡ record {
              template = "credit_note.xml";
              customization_id = "20";
              type_code = "91";
              uuid_scheme = "CUDE-SHA384";
              key = pin;
            }))
          ⊎ ((p.document_type ≡ "debit_note")
              × (kind ≡ record {
                template = "debit_note.xml";
                customization_id = "30";
                type_code = "92";
                uuid_scheme = "CUDE-SHA384";
                key = pin;
              })))

pin_of : (o : Option String) → is_blank o ≡ false → (pin : String) × (o ≡ some pin)
pin_of none h = cc
pin_of (some pin) h = (pin, refl)

-- A payload that is not an invoice and is valid has a PIN.
valid-pin :
    {F D : Type 0} (N : Decimals F D) (p : InvoicePayload F)
    → IsValid N p
    → (p.document_type == "invoice") ≡ false
    → (pin : String) × (p.software_pin ≡ some pin)
valid-pin N p v other = elim v.kind [
  | inl e ↦ ground (arith, other, e, eq_iff p.document_type "invoice")
  | inr (_, c) ↦ pin_of p.software_pin c.signed
]

kind_of-IsKind :
    {F D : Type 0} (N : Decimals F D) (p : InvoicePayload F) (technical_key : String)
    (kind : InvoiceKind)
    → IsValid N p
    → kind_of p technical_key ≡ ok kind
    → IsKind p technical_key kind
unfolding kind_of
kind_of-IsKind N p technical_key kind v = elim (Bool-cases (p.document_type == "invoice")) [
  | inl e ↦ rw e (λ h.
      along_ok (IsKind p technical_key) _ kind h
        (inl ((eq_iff p.document_type "invoice").0 e, refl)))
  | inr e ↦ elim (Bool-cases (p.document_type == "credit_note")) [
    | inl c ↦
        let (pin, q) = valid-pin N p v e in
        rw (e, c)
          (λ h.
            along_ok (IsKind p technical_key) _ kind h
              (inr (pin, q, inl ((eq_iff p.document_type "credit_note").0 c, rw q refl))))
    | inr c ↦ elim (Bool-cases (p.document_type == "debit_note")) [
      | inl d ↦
          let (pin, q) = valid-pin N p v e in
          rw (e, c, d)
            (λ h.
              along_ok (IsKind p technical_key) _ kind h
                (inr (pin, q, inr ((eq_iff p.document_type "debit_note").0 d, rw q refl))))
      | inr d ↦ rw (e, c, d) (λ h. cc)
    ]
  ]
]

rendered-ok : (r : String ⊎ String) (xml : String) → rendered r ≡ ok xml → r ≡ inr xml
rendered-ok (inl e) xml h = cc
rendered-ok (inr x) xml h = ap inr (along_ok (λ y. x ≡ y) x xml h refl)

-- What a document takes from its input as it is, and its amounts and lines.
pub record IsDocumentOf {F D : Type 0} (N : Decimals F D) (i : CommercialInput F)
    (document : CommercialDocument) : Type 0 where
  pub net : D
  pub tax : D
  pub total : D
  pub labels :
      (document.customization_id ≡ i.customization_id)
      × (document.type_code ≡ i.type_code)
      × (document.uuid_scheme ≡ i.uuid_scheme)
      × (document.profile_execution_id ≡ i.environment)
  pub id : document.id ≡ i.id
  pub uuid : document.uuid ≡ i.uuid
  pub customer : document.customer ≡ i.customer
  pub supplier : document.supplier ≡ i.supplier
  pub reference : document.billing_reference ≡ i.billing_reference
  pub amounts :
      (amount N "net_amount" i.net_amount ≡ ok net)
      × (amount N "tax_amount" i.tax_amount ≡ ok tax)
      × (amount N "total_amount" i.total_amount ≡ ok total)
  pub texts :
      (document.net ≡ format_decimal_amount N net)
      × (document.tax ≡ format_decimal_amount N tax)
      × (document.total ≡ format_decimal_amount N total)
  pub lines : compute_lines N i.lines net tax ≡ ok document.lines
  pub subtotals : tax_subtotals N i.lines net tax ≡ ok document.tax_subtotals

commercial_document-IsDocumentOf :
    {F D : Type 0} (N : Decimals F D) (R : Floats F) (i : CommercialInput F)
    (document : CommercialDocument)
    → commercial_document N R i ≡ ok document
    → IsDocumentOf N i document
unfolding commercial_document
commercial_document-IsDocumentOf N R i document h =
    let (net, en, h) = >>=-ok (amount N "net_amount" i.net_amount) _ h in
    let (tax, ex, h) = >>=-ok (amount N "tax_amount" i.tax_amount) _ h in
    let (total, et, h) = >>=-ok (amount N "total_amount" i.total_amount) _ h in
    let (lines, el, h) = >>=-ok (compute_lines N i.lines net tax) _ h in
    let (subtotals, es, h) = >>=-ok (tax_subtotals N i.lines net tax) _ h in
    along_ok (IsDocumentOf N i) _ document h (record {
      net = net;
      tax = tax;
      total = total;
      labels = (refl, refl, refl, refl);
      id = refl;
      uuid = refl;
      customer = refl;
      supplier = refl;
      reference = refl;
      amounts = (en, ex, et);
      texts = (refl, refl, refl);
      lines = el;
      subtotals = es;
    })

module _ {F D : Type 0} (N : Decimals F D) (R : Floats F) where
  -- The field's name is in the error only.
  to_amount-other :
      (field other : String) (value : F) (d : D)
      → to_amount N field value ≡ ok d
      → to_amount N other value ≡ ok d
  unfolding to_amount
  to_amount-other field other value d h =
      let (f, h) = refuse-ok (not (N.is_finite value)) _ _ h in
      let (a, e, h) = >>=-ok (or_error (N.of_float value) _) _ h in
      let (g, h) = refuse-ok (N.is_negative a) _ _ h in
      let (k, h) = refuse-ok (ltb 2 (N.scale a)) _ _ h in
      rw (f, or_error-ok (N.of_float value) _ e) (rw (g, k) h)

  format_amount-eq :
      (field : String) (value : F) (d : D)
      → amount N field value ≡ ok d
      → format_amount N R value ≡ format_decimal_amount N d
  unfolding format_amount
  format_amount-eq field value d h =
      rw (to_amount-other field "amount" value d (amount-ok N field value d h), format_amount) refl

module _ {F D : Type 0} (N : Decimals F D) (R : Floats F) (sha384 : String → String)
    (render : String → CommercialDocument → String ⊎ String) where
  -- What is generated from a payload: the text of a document whose code is the one that is returned.
  pub record IsGenerated (p : InvoicePayload F) (technical_key xml code : String) : Type 0 where
    pub kind : InvoiceKind
    pub document : CommercialDocument
    pub is_kind : IsKind p technical_key kind
    pub rendering : render kind.template document ≡ inr xml
    pub content : IsDocumentOf N (invoice_input N R sha384 p kind) document
    pub labels :
        (document.customization_id ≡ kind.customization_id)
        × (document.type_code ≡ kind.type_code)
        × (document.uuid_scheme ≡ kind.uuid_scheme)
        × (document.profile_execution_id ≡ p.environment)
    pub id : document.id ≡ p.prefix ++ number_text p.number
    pub parties :
        (document.supplier ≡ new_party "31" p.company_nit p.company_name)
        × (document.customer ≡ new_party p.customer_id_type p.customer_id p.customer_name)
    pub reference : document.billing_reference ≡ p.billing_reference
    pub carried : document.uuid ≡ code
    pub computed :
        code
        ≡ sha384 (
            document.id
            ++ p.issue_date
            ++ p.issue_time
            ++ document.net
            ++ "01"
            ++ document.tax
            ++ "04"
            ++ format_amount N R R.zero_float
            ++ "03"
            ++ format_amount N R R.zero_float
            ++ document.total
            ++ p.company_nit
            ++ p.customer_id
            ++ kind.key
            ++ p.environment)

  code-eq :
      (p : InvoicePayload F) (kind : InvoiceKind) (document : CommercialDocument)
      → IsDocumentOf N (invoice_input N R sha384 p kind) document
      → invoice_code N R sha384 p kind.key
        ≡ sha384 (
            document.id
            ++ p.issue_date
            ++ p.issue_time
            ++ document.net
            ++ "01"
            ++ document.tax
            ++ "04"
            ++ format_amount N R R.zero_float
            ++ "03"
            ++ format_amount N R R.zero_float
            ++ document.total
            ++ p.company_nit
            ++ p.customer_id
            ++ kind.key
            ++ p.environment)
  unfolding invoice_code calculate_cufe_cude
  code-eq p kind document c =
      let (net, tax, total) = c.amounts in
      let (net_text, tax_text, total_text) = c.texts in
      rw
        (
          c.id,
          net_text,
          tax_text,
          total_text,
          format_amount-eq N R "net_amount" p.net_amount c.net net,
          format_amount-eq N R "tax_amount" p.tax_amount c.tax tax,
          format_amount-eq N R "total_amount" p.total_amount c.total total,
        )
        refl

  -- If an invoice or a note is generated, its payload is valid, and its XML is the rendering, by the
  -- template of its type, of a document that carries the code returned beside it, the labels of its
  -- type, the payload's number, parties, amounts, lines and reference. The code is the digest of the
  -- document's number, date, time, amounts and taxes, the two NITs, the technical key for an invoice or
  -- the payload's PIN for a note, and the environment, in this order.
  pub generate_invoice_xml-IsGenerated :
      (p : InvoicePayload F) (technical_key xml code : String)
      → generate_invoice_xml N R sha384 render p technical_key ≡ ok (xml, code)
      → IsValid N p × IsGenerated p technical_key xml code
  unfolding generate_invoice_xml
  generate_invoice_xml-IsGenerated p technical_key xml code h =
      let (_, v, h) = >>=-ok (validate N p) _ h in
      let (kind, k, h) = >>=-ok (kind_of p technical_key) _ h in
      let (document, d, h) =
        >>=-ok (commercial_document N R (invoice_input N R sha384 p kind)) _ h in
      let (text, r, h) = >>=-ok (rendered (render kind.template document)) _ h in
      let content =
        commercial_document-IsDocumentOf N R (invoice_input N R sha384 p kind) document d in
      let valid = validate-IsValid N p v in
      (
        valid,
        along_ok (λ (x : String × String). IsGenerated p technical_key x.0 x.1)
            (text, invoice_code N R sha384 p kind.key) (xml, code) h
            (record {
              kind = kind;
              document = document;
              is_kind = kind_of-IsKind N p technical_key kind valid k;
              rendering = rendered-ok (render kind.template document) text r;
              content = content;
              labels = content.labels;
              id = content.id;
              parties = (content.supplier, content.customer);
              reference = content.reference;
              carried = content.uuid;
              computed = code-eq p kind document content;
            }),
      )
