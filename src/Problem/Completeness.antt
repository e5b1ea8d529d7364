-- ===== src/Problem/Completeness.antt =====
-- What publishing requires of a problem, and how the code moves it.
use training_center_back.Prelude.{
  String, Bool, true, false, Option, none, some, List, [], ◌∷◌, ◌≡◌, arith, ◌++◌, ◌&&◌, ◌↔◌,
  is_some, not, ◌||◌,
}
use training_center_back.Apperror.{ok}
use training_center_back.Problem.Aggregate.{Problem, is_published}
use training_center_back.Problem.Store.{Store, Lookup, locate, find_by_slug}
use training_center_back.Problem.Publishing.{required_fields_for_publish, absent, absent_all}

abbrev has_any {ℓ} : {A : Type ℓ} → List A → Bool
has_any [] = false
has_any (x ∷ xs) = true

-- Every field that publishing requires is there.
unfoldable pub is_complete : Problem → Bool
is_complete p =
    is_some p.statement
    && is_some p.time_limit
    && is_some p.memory_limit
    && is_some p.test_cases_key
    && has_any p.solutions

abbrev tail3 : Problem → List String
tail3 p = absent "testCases" p.test_cases_key ++ absent_all "solution" p.solutions

abbrev tail2 : Problem → List String
tail2 p = absent "memoryLimit" p.memory_limit ++ tail3 p

abbrev tail1 : Problem → List String
tail1 p = absent "timeLimit" p.time_limit ++ tail2 p

absent-none {ℓ} :
    {A : Type ℓ} (field : String) (o : Option A) (rest : List String)
    → ((absent field o ++ rest) ≡ []) ↔ ((is_some o ≡ true) × (rest ≡ []))
absent-none field none rest = ground arith
absent-none field (some a) rest = ground arith

absent_all-none {ℓ} :
    {A : Type ℓ} (field : String) (xs : List A) → (absent_all field xs ≡ []) ↔ (has_any xs ≡ true)
absent_all-none field [] = ground arith
absent_all-none field (x ∷ xs) = ground arith

-- It is what the code's own test finds.
pub is_complete_iff : (p : Problem) → (required_fields_for_publish p ≡ []) ↔ (is_complete p ≡ true)
unfolding is_complete required_fields_for_publish
is_complete_iff p = ground (
  arith,
  absent-none "statement" p.statement (tail1 p),
  absent-none "timeLimit" p.time_limit (tail2 p),
  absent-none "memoryLimit" p.memory_limit (tail3 p),
  absent-none "testCases" p.test_cases_key (absent_all "solution" p.solutions),
  absent_all-none "solution" p.solutions,
)

-- From one state of the problem to another, no required field is lost, and it is published only if
-- it was before or the flag allows it.
pub record Advances (allowed : Bool) (p q : Problem) : Type 0 where
  pub complete : (not (is_complete p) || is_complete q) ≡ true
  pub shown : (not (is_published q) || (is_published p || allowed)) ≡ true

pub Advances-refl : (allowed : Bool) (p : Problem) → Advances allowed p p
Advances-refl allowed p = record { complete = ground arith; shown = ground arith }

pub Advances-trans :
    (allowed : Bool) (p q r : Problem)
    → Advances allowed p q
    → Advances allowed q r
    → Advances allowed p r
Advances-trans allowed p q r a b = record { complete = ground arith; shown = ground arith }

pub locate-ok :
    (env : Lookup) (raw : String) (s : Store) (q : Problem)
    → locate env raw s ≡ ok q
    → q ≡ s.problem
unfolding locate find_by_slug
locate-ok env raw s q h = ground arith
