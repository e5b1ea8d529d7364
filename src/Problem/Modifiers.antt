-- ===== src/Problem/Modifiers.antt =====
-- Who may edit a problem, as its modifiers come and go.
use training_center_back.Prelude.{
  ℕ, ◌≤◌, String, Bool, true, false, List, [], ◌∷◌, ◌++◌, ◌≡◌, refl, arith, str_eq, str_eq_iff,
  str_eq_refl, ◌||◌, ◌&&◌, not, length, ◌⊎◌, inl, inr, length-append,
}
use training_center_back.Apperror.{ok}
use training_center_back.Problem.Aggregate.{
  Problem, has_id, without_id, add_modifier, remove_modifier, can_be_edited_by, max_modifiers,
}

unfoldable pub distinct : List String → Bool
distinct [] = true
distinct (m ∷ ms) = not (has_id m ms) && distinct ms

-- No user is listed twice, and there are at most as many as the limit.
pub record IsRoster (ms : List String) : Type 0 where
  pub once : distinct ms ≡ true
  pub bounded : length ms ≤ max_modifiers

has_id-snoc :
    (u v : String) (ms : List String) → has_id u (ms ++ v ∷ []) ≡ (has_id u ms || str_eq v u)
unfolding has_id
has_id-snoc u v [] = ground arith
has_id-snoc u v (m ∷ ms) = ground (arith, has_id-snoc u v ms)

distinct-snoc :
    (v : String) (ms : List String)
    → has_id v ms ≡ false
    → distinct ms ≡ true
    → distinct (ms ++ v ∷ []) ≡ true
unfolding has_id distinct
distinct-snoc v [] h d = refl
distinct-snoc v (m ∷ ms) h d =
    ground (arith, has_id-snoc m v ms, str_eq_iff m v, str_eq_iff v m, distinct-snoc v ms)

has_id-without_id :
    (u v : String) (ms : List String)
    → has_id u (without_id v ms) ≡ (has_id u ms && not (str_eq v u))
unfolding has_id without_id
has_id-without_id u v [] = refl
has_id-without_id u v (m ∷ ms) =
    ground (arith, str_eq_iff m v, str_eq_iff m u, str_eq_iff v u, has_id-without_id u v ms)

distinct-without_id :
    (v : String) (ms : List String) → distinct ms ≡ true → distinct (without_id v ms) ≡ true
unfolding without_id distinct
distinct-without_id v [] d = refl
distinct-without_id v (m ∷ ms) d =
    ground (arith, has_id-without_id m v ms, distinct-without_id v ms)

length-without_id : (v : String) (ms : List String) → length (without_id v ms) ≤ length ms
unfolding without_id
length-without_id v [] = omega arith
length-without_id v (m ∷ ms) = ground (arith, length-without_id v ms)

-- Adding a modifier and removing one keep the list free of duplicates and within the limit of 20.
pub modifiers-IsRoster :
    (u : String) (now : ℕ) (p q : Problem)
    → IsRoster p.modifier_ids
    → (add_modifier u now p ≡ ok q) ⊎ (remove_modifier u now p ≡ ok q)
    → IsRoster q.modifier_ids
unfolding add_modifier remove_modifier
modifiers-IsRoster u now p q r (inl h) = record {
  once = ground (arith, r.once, distinct-snoc u p.modifier_ids);
  bounded = ground (arith, r.bounded, length-append p.modifier_ids (u ∷ []));
}
modifiers-IsRoster u now p q r (inr h) = record {
  once = ground (arith, r.once, distinct-without_id u p.modifier_ids);
  bounded = ground (arith, r.bounded, length-without_id u p.modifier_ids);
}

without_id-absent : (u : String) (ms : List String) → has_id u ms ≡ false → without_id u ms ≡ ms
unfolding has_id without_id
without_id-absent u [] h = refl
without_id-absent u (m ∷ ms) h = ground (arith, h, without_id-absent u ms)

without_id-snoc :
    (u : String) (ms : List String) → has_id u ms ≡ false → without_id u (ms ++ u ∷ []) ≡ ms
unfolding has_id without_id
without_id-snoc u [] h = ground (arith, str_eq_refl u)
without_id-snoc u (m ∷ ms) h = ground (arith, h, without_id-snoc u ms)

-- A modifier who is added may edit the problem, and removing them again gives back the problem as
-- it was, but for the time of its update.
pub remove_modifier-add_modifier :
    (u : String) (now later : ℕ) (p q : Problem)
    → add_modifier u now p ≡ ok q
    → (can_be_edited_by u false q ≡ true)
      × (remove_modifier u later q ≡ ok (record p { updated_at = later }))
unfolding add_modifier remove_modifier can_be_edited_by
remove_modifier-add_modifier u now later p q a = (
  ground (arith, has_id-snoc u u p.modifier_ids, str_eq_refl u),
  ground (arith, has_id-snoc u u p.modifier_ids, str_eq_refl u, without_id-snoc u p.modifier_ids),
)
