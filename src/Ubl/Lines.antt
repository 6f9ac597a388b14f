-- ===== src/Ubl/Lines.antt =====
-- ubl-engine/src/model.rs: the lines of a document and its tax subtotals. `UblError::Validation`, the
-- only error here, is `validation`.
pub mod Totals
use Prim.Native.String.{len, count, ◌++◌}
use dian_service.Base.{
  ℕ, suc, ◌+◌, Bool, true, false, ◌&&◌, ◌||◌, not, List, [], ◌∷◌, map, Option, none, some, String,
  ltb, leb, length, ◌==◌, string_eq, if◌then◌else◌,
}
use dian_service.Base.Chars.{is_alphanumeric}
use dian_service.Base.Decimal.{decimal}
use dian_service.Base.Strings.{is_empty, every_char}
use dian_service.Base.Text.{trim}
use dian_service.Domain.Checks.{◌>>=◌, ◌>>◌, refuse, or_error}
use dian_service.Domain.Errors.{Result, ok, err, validation, fixed}
use dian_service.Ubl.Money.{Decimals, format_amount, same_decimal, sum}

abbrev pub max_lines : ℕ
max_lines = 500

abbrev pub default_unit_code : String
default_unit_code = "94"

-- payload.rs
pub record LinePayload (F : Type 0) : Type 0 where
  pub description : String
  pub quantity : F
  pub unit_price : F
  pub tax_percent : F
  pub unit_code : Option String

pub record LineData : Type 0 where
  pub id : ℕ
  pub description : String
  pub quantity : String
  pub unit_code : String
  pub unit_price : String
  pub line_extension : String
  pub tax_percent : String
  pub tax_amount : String

pub record TaxSubtotalData : Type 0 where
  pub taxable : String
  pub tax : String
  pub percent : String

pub record ComputedLine (D : Type 0) : Type 0 where
  pub line : LineData
  pub line_extension : D
  pub tax_amount : D
  pub tax_percent : D

-- `lines[{}].{}`
abbrev pub line_field : ℕ → String → String
line_field n field = "lines[" ++ decimal n ++ "]." ++ field

module _ {F D : Type 0} (N : Decimals F D) where
  unfoldable pub decimal_of : String → F → ℕ → Bool → Result D
  decimal_of field value most allow_zero = do
    refuse (not (N.is_finite value)) (validation (fixed (field ++ " no es un numero valido")))
    d ← or_error (N.of_float value) (validation (fixed (field ++ " no es representable")))
    refuse (N.is_negative d || not allow_zero && same_decimal N d (N.of_int 0)) (
        validation (
          fixed (
            field
            ++ " debe ser "
            ++ (if allow_zero then "mayor o igual a cero" else "mayor que cero"))))
    refuse (ltb most (N.scale d))
        (validation (fixed (field ++ " admite como maximo " ++ decimal most ++ " decimales")))
    ok d

  unfoldable pub format_decimal : D → String
  format_decimal d = if ltb (N.scale d) 2 then format_amount N d else N.text d

  abbrev pub synthetic_line : D → D → D → ComputedLine D
  synthetic_line net tax percent = record {
    line = record {
      id = 1;
      description = "Venta de bienes y/o servicios";
      quantity = "1";
      unit_code = default_unit_code;
      unit_price = format_amount N net;
      line_extension = format_amount N net;
      tax_percent = format_amount N percent;
      tax_amount = format_amount N tax;
    };
    line_extension = net;
    tax_amount = tax;
    tax_percent = percent;
  }

  abbrev pub unit_code_of : Option String → String
  unit_code_of none = default_unit_code
  unit_code_of (some code) = code

  abbrev pub line_of : ℕ → LinePayload F → String → D → D → D → ComputedLine D
  line_of n l unit_code quantity unit_price percent =
      let line_extension = N.round2 (N.mul quantity unit_price) in
      let tax_amount = N.round2 (N.div (N.mul line_extension percent) (N.of_int 100)) in
      record {
        line = record {
          id = n;
          description = l.description;
          quantity = N.text quantity;
          unit_code = unit_code;
          unit_price = format_decimal unit_price;
          line_extension = format_amount N line_extension;
          tax_percent = format_amount N percent;
          tax_amount = format_amount N tax_amount;
        };
        line_extension = line_extension;
        tax_amount = tax_amount;
        tax_percent = percent;
      }

  -- One round of the loop of `compute`, for the `n`-th line.
  unfoldable pub compute_line : ℕ → LinePayload F → Result (ComputedLine D)
  compute_line n l = do
    refuse (is_empty (trim l.description) || ltb 300 (count l.description))
        (validation (fixed (line_field n "description" ++ " debe tener entre 1 y 300 caracteres")))
    quantity ← decimal_of (line_field n "quantity") l.quantity 6 false
    unit_price ← decimal_of (line_field n "unit_price") l.unit_price 4 true
    percent ← decimal_of (line_field n "tax_percent") l.tax_percent 2 true
    refuse (N.less (N.of_int 100) percent)
        (validation (fixed (line_field n "tax_percent" ++ " no puede superar 100")))
    let unit_code = unit_code_of l.unit_code
    refuse
        (is_empty unit_code || ltb 3 (len unit_code) || not (every_char is_alphanumeric unit_code))
        (validation (fixed (line_field n "unit_code" ++ " no es un codigo valido")))
    ok (line_of n l unit_code quantity unit_price percent)

  unfoldable pub compute_all : ℕ → List (LinePayload F) → Result (List (ComputedLine D))
  compute_all n [] = ok []
  compute_all n (l ∷ ls) = do c ← compute_line n l; cs ← compute_all (suc n) ls; ok (c ∷ cs)

  -- The sums of the lines are the totals.
  unfoldable pub check_sums : List (ComputedLine D) → D → D → Result (Unit {0})
  check_sums computed net tax = do
    let lines_net = sum N (λ l. l.line_extension) computed
    let lines_tax = sum N (λ l. l.tax_amount) computed
    refuse (not (same_decimal N lines_net net)) (
        validation (
          fixed (
            "La suma de las lineas ("
            ++ format_amount N lines_net
            ++ ") no coincide con net_amount ("
            ++ format_amount N net
            ++ ")")))
    refuse (not (same_decimal N lines_tax tax)) (
        validation (
          fixed (
            "La suma del IVA de las lineas ("
            ++ format_amount N lines_tax
            ++ ") no coincide con tax_amount ("
            ++ format_amount N tax
            ++ ")")))
    ok tt

  unfoldable pub compute : Option (List (LinePayload F)) → D → D → Result (List (ComputedLine D))
  compute none net tax =
      let percent =
        if same_decimal N net (N.of_int 0)
        then N.of_int 0
        else N.round2 (N.div (N.mul tax (N.of_int 100)) net) in
      ok (synthetic_line net tax percent ∷ [])
  compute (some lines) net tax = do
    refuse (leb (length lines) 0 || ltb max_lines (length lines))
        (validation (fixed "lines debe tener entre 1 y 500 elementos"))
    computed ← compute_all 1 lines
    check_sums computed net tax
    ok computed

  unfoldable pub compute_lines : Option (List (LinePayload F)) → D → D → Result (List LineData)
  compute_lines lines net tax = do computed ← compute lines net tax; ok (map (λ l. l.line) computed)

  -- The groups in the order of their rates, as the `BTreeMap` keeps them: rate, taxable amount, tax.
  abbrev pub Groups : Type 0
  Groups = List (D × D × D)

  unfoldable pub add_to_group : ComputedLine D → Groups → Groups
  add_to_group l [] =
      (l.tax_percent, N.add (N.of_int 0) l.line_extension, N.add (N.of_int 0) l.tax_amount) ∷ []
  add_to_group l ((percent, taxable, tax) ∷ groups) =
      if same_decimal N l.tax_percent percent
      then (percent, N.add taxable l.line_extension, N.add tax l.tax_amount) ∷ groups
      else if N.less l.tax_percent percent
      then (l.tax_percent, N.add (N.of_int 0) l.line_extension, N.add (N.of_int 0) l.tax_amount)
        ∷ (percent, taxable, tax)
        ∷ groups
      else (percent, taxable, tax) ∷ add_to_group l groups

  unfoldable pub grouped : List (ComputedLine D) → Groups → Groups
  grouped [] groups = groups
  grouped (l ∷ ls) groups = grouped ls (add_to_group l groups)

  abbrev pub subtotal_of : D × D × D → TaxSubtotalData
  subtotal_of (percent, taxable, tax) = record {
    taxable = format_amount N taxable;
    tax = format_amount N tax;
    percent = format_amount N percent;
  }

  unfoldable pub tax_subtotals :
      Option (List (LinePayload F)) → D → D → Result (List TaxSubtotalData)
  tax_subtotals lines net tax = do
    computed ← compute lines net tax
    ok (map subtotal_of (grouped computed []))
