-- ===== src/Domain/Checks.antt =====
-- Chains of checks: `?` on results, and what a chain that succeeds says of each of its links.
use dian_service.Base.{◌≡◌, refl, Bool, true, false, not, Option, none, some}
use dian_service.Domain.Errors.{Result, ok, err, DomainError}

-- `?`, and the same where the value is not used.
infixl 5 ◌>>=◌ ◌>>◌
abbrev pub ◌>>=◌ {ℓ κ} :
    {X : Type ℓ} {Y : Type κ} → (checked : Result X) → (next : X → Result Y) → Result Y
err failure >>= next = err failure
ok value >>= next = next value

-- `if b { return Err(e) }`
abbrev pub refuse : Bool → DomainError → Result (Unit {0})
refuse true e = err e
refuse false e = ok tt

abbrev pub ◌>>◌ {κ} : {Y : Type κ} → (checked : Result (Unit {0})) → (rest : Result Y) → Result Y
checked >> rest = checked >>= (λ _. rest)

-- `ok_or`
abbrev pub or_error {ℓ} : {A : Type ℓ} → Option A → DomainError → Result A
or_error none e = err e
or_error (some a) e = ok a

-- `map_err`
abbrev pub map_error {ℓ} : {A : Type ℓ} → (DomainError → DomainError) → Result A → Result A
map_error f (ok a) = ok a
map_error f (err e) = err (f e)

pub >>=-ok {ℓ κ} :
    {X : Type ℓ} {Y : Type κ} (checked : Result X) (next : X → Result Y) {y : Y}
    → (checked >>= next) ≡ ok y
    → (x : X) × (checked ≡ ok x) × (next x ≡ ok y)
>>=-ok (err failure) next h = cc
>>=-ok (ok value) next h = (value, refl, h)

pub refuse-ok {ℓ} :
    {A : Type ℓ} (b : Bool) (e : DomainError) (m : Result A) {a : A}
    → (refuse b e >> m) ≡ ok a
    → (b ≡ false) × (m ≡ ok a)
refuse-ok true e m h = cc
refuse-ok false e m h = (refl, h)

pub or_error-ok {ℓ} :
    {A : Type ℓ} (o : Option A) (e : DomainError) {a : A} → or_error o e ≡ ok a → o ≡ some a
or_error-ok none e h = cc
or_error-ok (some a) e h = cc

pub map_error-ok {ℓ} :
    {A : Type ℓ} (f : DomainError → DomainError) (r : Result A) {a : A}
    → map_error f r ≡ ok a
    → r ≡ ok a
map_error-ok f (ok a) h = h
map_error-ok f (err e) h = cc

-- What holds of the value that a chain returns holds of its result.
pub along_ok {ℓ κ} : {A : Type ℓ} (P : A → Type κ) (a b : A) → Result.ok a ≡ ok b → P a → P b
along_ok P a b e p = rw same p
  where
    same : b ≡ a
    same = cc

pub refuse-false : (b : Bool) (e : DomainError) → refuse b e ≡ ok tt → b ≡ false
refuse-false true e h = cc
refuse-false false e h = refl

pub not-false : (b : Bool) → not b ≡ false → b ≡ true
not-false true h = refl
not-false false h = cc
