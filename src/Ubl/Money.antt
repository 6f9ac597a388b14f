-- ===== src/Ubl/Money.antt =====
-- core-domain/src/money.rs. The package rust_decimal is an interface: its numbers are values, so two are
-- equal if `==` says so; `scale` and `text` are those of the normalised number. `F` stands for `f64`.
use Prim.Native.String.{◌++◌}
use dian_service.Base.{ℕ, Bool, not, List, [], ◌∷◌, Option, String, ltb, Eq}
use dian_service.Domain.Checks.{◌>>=◌, ◌>>◌, refuse, or_error}
use dian_service.Domain.Errors.{Result, ok, validation, fixed}

pub record Decimals (F D : Type 0) : Type 0 where
  pub is_finite : F → Bool
  -- `Decimal::from_str(&value.to_string())`
  pub of_float : F → Option D
  pub eq : Eq D
  pub less : D → D → Bool
  pub of_int : ℕ → D
  pub add : D → D → D
  pub sub : D → D → D
  pub mul : D → D → D
  pub div : D → D → D
  pub is_negative : D → Bool
  pub scale : D → ℕ
  pub text : D → String
  -- `round_dp_with_strategy(2, MidpointAwayFromZero)`, and `{:.2}` of `round_dp(2)`.
  pub round2 : D → D
  pub format2 : D → String

abbrev pub max_scale : ℕ
max_scale = 2

module _ {F D : Type 0} (N : Decimals F D) where
  abbrev pub same_decimal : D → D → Bool
  same_decimal a b = N.eq.test a b

  -- `iter().map(f).sum()`
  abbrev pub sum_from : {A : Type 0} → (A → D) → D → List A → D
  sum_from f acc [] = acc
  sum_from f acc (x ∷ xs) = sum_from f (N.add acc (f x)) xs

  abbrev pub sum : {A : Type 0} → (A → D) → List A → D
  sum f xs = sum_from f (N.of_int 0) xs

  unfoldable pub to_amount : String → F → Result D
  to_amount field value = do
    refuse (not (N.is_finite value))
        (validation (fixed ("El monto '" ++ field ++ "' no es un numero valido")))
    amount ←
        or_error (N.of_float value)
          (validation (fixed ("El monto '" ++ field ++ "' no es representable")))
    refuse (N.is_negative amount)
        (validation (fixed ("El monto '" ++ field ++ "' no puede ser negativo")))
    refuse (ltb max_scale (N.scale amount))
        (validation (fixed ("El monto '" ++ field ++ "' admite como maximo 2 decimales")))
    ok amount

  unfoldable pub format_amount : D → String
  format_amount amount = N.format2 amount

  unfoldable pub require_equal : String → D → D → Result (Unit {0})
  require_equal description expected actual = refuse (not (same_decimal expected actual)) (
      validation (
        fixed (
          description
          ++ ": se esperaba "
          ++ format_amount expected
          ++ " pero se recibio "
          ++ format_amount actual)))
