-- ===== src/Domain/Json.antt =====
-- What the code uses of `serde_json::Value` and `json!`, a package: a parameter of the model. A
-- `Uuid` is written as text, `None` as null.
use dian_service.Base.{
  ℕ, ◌≡◌, Bool, List, [], ◌∷◌, Option, none, some, String, str_eq, if◌then◌else◌,
}
use dian_service.Base.Int.{ℤ}

pub record Json (V : Type 0) : Type 0 where
  pub null : V
  pub of_str : String → V
  pub of_int : ℤ → V
  pub of_bool : Bool → V
  pub of_uuid : ℕ → V
  -- `json!({"k": v, ...})`, and a JSON array of texts is not needed.
  pub object : List (String × V) → V
  -- `v.get(k)`, `v.as_str()` and `v.as_bool()`.
  pub get : V → String → Option V
  pub as_str : V → Option String
  pub as_bool : V → Option Bool
  -- `v[k] = w`.
  pub set : V → String → V → V

module _ {V : Type 0} where
  abbrev pub or_else : Option V → Option V → Option V
  or_else none w = w
  or_else (some v) w = some v

  -- The last value of a key, which replaces those before it.
  abbrev pub field : String → List (String × V) → Option V
  field k [] = none
  field k ((j, v) ∷ fs) = or_else (field k fs) (if str_eq j k then some v else none)

  -- The documented behaviour of `json!` and of the readers.
  pub record IsJson (J : Json V) : Type 0 where
    pub as_str-of_str : (s : String) → J.as_str (J.of_str s) ≡ some s
    pub as_bool-of_bool : (b : Bool) → J.as_bool (J.of_bool b) ≡ some b
    pub get-object : (k : String) (fs : List (String × V)) → J.get (J.object fs) k ≡ field k fs
