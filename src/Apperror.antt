-- ===== src/Apperror.antt =====
-- pkg/apperror: the errors that every layer returns, and the sequencing of fallible steps.
-- A kind is a constructor and a code is the source's text; the display message, which is a
-- constant beside each code, is left out. `fault` is the error of a dependency (database,
-- storage, sandbox, cache), which the code passes on unread.
use training_center_back.Prelude.{
  ℕ, String, List, Bool, true, false, ◌≡◌, refl, Option, none, some, ◌⊎◌, inl, inr,
}

pub data Error : Type 0 where
  validation : List String → Error
  conflict not_found forbidden unauthorized bad_request : String → Error
  too_many_requests : String → ℕ → Error
  internal : Error
  fault : ℕ → Error

pub data Result {κ} (T : Type κ) : Type κ where
  err : Error → Result T
  ok : T → Result T

abbrev pub is_ok {κ} : {T : Type κ} → Result T → Bool
is_ok (err _) = false
is_ok (ok _) = true

-- `if err != nil { return err }` between one step and the next, which may use the value.
infixl 5 ◌>>=◌ ◌>>◌
abbrev pub ◌>>=◌ {κ μ} : {T : Type κ} {U : Type μ} → Result T → (T → Result U) → Result U
err failure >>= next = err failure
ok value >>= next = next value

abbrev pub ◌>>◌ {μ} : {U : Type μ} → Result (Unit {0}) → Result U → Result U
step >> next = step >>= λ nothing. next

-- `if bad { return err }`.
abbrev pub fail_if : Bool → Error → Result (Unit {0})
fail_if true e = err e
fail_if false e = ok tt

-- `if x == nil { return err }`.
abbrev pub require {ℓ} : {A : Type ℓ} → Option A → Error → Result A
require none e = err e
require (some a) e = ok a

pub Result-cases {ℓ} :
    {A : Type ℓ} (r : Result A) → ((e : Error) × (r ≡ err e)) ⊎ ((a : A) × (r ≡ ok a))
Result-cases (err e) = inl (e, refl)
Result-cases (ok a) = inr (a, refl)

-- What a sequence that succeeds went through.
pub >>=-ok {κ μ} :
    {T : Type κ} {U : Type μ} (m : Result T) {next : T → Result U} {u : U}
    → (m >>= next) ≡ ok u
    → (t : T) × (m ≡ ok t) × (next t ≡ ok u)
>>=-ok (ok value) h = (value, refl, h)
>>=-ok (err failure) h = cc
