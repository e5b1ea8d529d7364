-- ===== src/Problem/Overrides.antt =====
-- The limits that a problem sets for a language.
use training_center_back.Prelude.{
  String, Bool, true, false, Option, none, some, List, [], ◌∷◌, ◌≡◌, refl, arith, ℤ, ltb_ℤ, str_eq,
  str_eq_iff, not, ◌&&◌, ◌⊎◌, inl, inr, if-cases, subst, sym,
}
use training_center_back.Apperror.{is_ok}
use training_center_back.Problem.Aggregate.{LanguageOverride, has_id}
use training_center_back.Problem.Fields.{
  positive, LanguageLimit, OverrideInput, PlatformSettings, override_exceeds, new_language_override,
  OverrideRound, rejected, accepted, seen_after, override_round, check_overrides,
}
use training_center_back.Problem.Modifiers.{distinct}

-- A limit that is given is positive and within the maximum.
abbrev pub within : Option ℤ → ℤ → Bool
within none maximum = true
within (some v) maximum = positive v && not (ltb_ℤ maximum v)

abbrev pub time_maximum : Option LanguageLimit → ℤ → ℤ
time_maximum none platform = platform
time_maximum (some l) platform = l.max_time_limit

abbrev pub memory_maximum : Option LanguageLimit → ℤ → ℤ
memory_maximum none platform = platform
memory_maximum (some l) platform = l.max_memory_limit

-- An override is accepted exactly if it names a language and each limit that it gives is positive
-- and at most the maximum of the language, or that of the platform if the language has none.
pub new_language_override-within :
    (language : String) (time memory : Option ℤ) (limit : Option LanguageLimit)
    (platform_time platform_memory : ℤ)
    → is_ok (new_language_override language time memory limit platform_time platform_memory) ≡ (
        not (str_eq language "")
        && (within time (time_maximum limit platform_time)
            && within memory (memory_maximum limit platform_memory)))
unfolding new_language_override override_exceeds
new_language_override-within language none none none pt pm = ground arith
new_language_override-within language none none (some l) pt pm = ground arith
new_language_override-within language none (some m) none pt pm = ground arith
new_language_override-within language none (some m) (some l) pt pm = ground arith
new_language_override-within language (some t) none none pt pm = ground arith
new_language_override-within language (some t) none (some l) pt pm = ground arith
new_language_override-within language (some t) (some m) none pt pm = ground arith
new_language_override-within language (some t) (some m) (some l) pt pm = ground arith

unfoldable pub languages : List LanguageOverride → List String
languages [] = []
languages (o ∷ os) = o.language ∷ languages os

Round-cases :
    (r : OverrideRound)
    → ((fields : List String) × (r ≡ rejected fields))
      ⊎ ((lo : LanguageOverride) × (r ≡ accepted lo))
Round-cases (rejected fields) = inl (fields, refl)
Round-cases (accepted lo) = inr (lo, refl)

unfoldable apart : List String → List String → Bool
apart seen [] = true
apart seen (l ∷ ls) = not (has_id l seen) && apart seen ls

apart-cons :
    (x : String) (seen ls : List String)
    → apart (x ∷ seen) ls ≡ true
    → (apart seen ls ≡ true) × (has_id x ls ≡ false)
unfolding apart has_id
apart-cons x seen [] h = (refl, refl)
apart-cons x seen (l ∷ ls) h = (
  ground (arith, h, apart-cons x seen ls),
  ground (arith, h, str_eq_iff x l, str_eq_iff l x, apart-cons x seen ls),
)

apart-seen_after :
    (env : PlatformSettings) (o : OverrideInput) (seen ls : List String)
    → apart (seen_after env o seen) ls ≡ true
    → apart seen ls ≡ true
apart-seen_after env o seen ls =
    if-cases (λ s. apart s ls ≡ true → apart seen ls ≡ true)
      (not (str_eq o.language "") && env.is_language_supported o.language)
      (λ t h. (apart-cons o.language seen ls h).0) (λ t h. h)

-- A round that accepts an override marks its language, which no earlier round has marked.
round-accepted :
    (env : PlatformSettings) (o : OverrideInput) (seen : List String) (lo : LanguageOverride)
    → override_round env o seen ≡ accepted lo
    → (lo.language ≡ o.language)
      × (has_id o.language seen ≡ false)
      × (seen_after env o seen ≡ o.language ∷ seen)
unfolding override_round new_language_override
round-accepted env o seen lo h = (ground arith, ground arith, ground arith)

unfoldable Distinct : List String → List String → Type 0
Distinct seen ls = (apart seen ls ≡ true) × (distinct ls ≡ true)

-- One more language in front.
Distinct-cons :
    (x : String) (seen ls : List String)
    → has_id x seen ≡ false
    → Distinct (x ∷ seen) ls
    → Distinct seen (x ∷ ls)
unfolding Distinct
Distinct-cons x seen ls h d =
    unfold apart distinct in
    (ground (arith, h, apart-cons x seen ls d.0), ground (arith, d.1, apart-cons x seen ls d.0))

check_step :
    (env : PlatformSettings) (o : OverrideInput) (os : List OverrideInput) (seen : List String)
    → Distinct
        (seen_after env o seen)
        (languages (check_overrides env os (seen_after env o seen)).1)
    → Distinct seen (languages (check_overrides env (o ∷ os) seen).1)
unfolding Distinct check_overrides languages
check_step env o os seen rest = elim (Round-cases (override_round env o seen)) [
  | inl (fields, h) ↦ rw (h, languages) (apart-seen_after env o seen _ rest.0, rest.1)
  | inr (lo, h) ↦ rw (h, languages) (joins lo (round-accepted env o seen lo h))
]
  where
    ls : List String
    ls = languages (check_overrides env os (seen_after env o seen)).1

    joins :
        (lo : LanguageOverride)
        → (lo.language ≡ o.language)
          × (has_id o.language seen ≡ false)
          × (seen_after env o seen ≡ o.language ∷ seen)
        → Distinct seen (lo.language ∷ ls)
    joins lo f =
        subst (λ x. Distinct seen (x ∷ ls)) (sym f.0)
          (Distinct-cons o.language seen ls f.1 (subst (λ s. Distinct s ls) f.2 rest))

check_overrides-Distinct :
    (env : PlatformSettings) (os : List OverrideInput) (seen : List String)
    → Distinct seen (languages (check_overrides env os seen).1)
unfolding Distinct check_overrides languages
check_overrides-Distinct env [] seen = unfold apart distinct in (refl, refl)
check_overrides-Distinct env (o ∷ os) seen =
    check_step env o os seen (check_overrides-Distinct env os (seen_after env o seen))

-- The overrides that the loop keeps are of languages that differ from one another.
pub check_overrides-distinct :
    (env : PlatformSettings) (os : List OverrideInput)
    → distinct (languages (check_overrides env os []).1) ≡ true
check_overrides-distinct env os = unfold Distinct in (check_overrides-Distinct env os []).1
