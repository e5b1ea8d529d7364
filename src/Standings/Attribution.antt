-- ===== src/Standings/Attribution.antt =====
-- Whose standing a submission counts for, and what the rebuilt table holds.
use training_center_back.Prelude.{
  ℕ, String, Bool, true, false, Option, none, some, List, [], ◌∷◌, ◌≡◌, refl, ap, ◌∙◌, ◌⊎◌, inl,
  inr, arith, str_eq, str_eq_iff, if◌then◌else◌, ◌||◌, is_some, Bool-cases,
}
use training_center_back.Contest.Settings.{ContestProblem}
use training_center_back.Standings.Ranking.{ParticipantStanding, ParticipantType, individual, team}
use training_center_back.Standings.Rebuild.{
  ContestSubmissionData, lookup, insert, no_attempt, Standings, Table, no_table, fresh_standing,
  add_members, add_teams, add_registration, add_registrations, attribute, tally,
}
use training_center_back.Standings.Tally.{
  counts_for, first_accepted, wrong_before, select, cell, lookup-insert, cell-tally-replay, replay,
  replay-official,
}

abbrev pub contains : String → List String → Bool
contains u [] = false
contains u (x ∷ xs) = str_eq x u || contains u xs

-- The last of the teams that selected the user.
abbrev pub team_of : String → List (String × List String) → Option String
team_of u [] = none
team_of u ((t, members) ∷ teams) =
    let later = team_of u teams in
    if is_some later then later else if contains u members then some t else none

-- Whom the submissions of a user count for.
abbrev or_individual : Option String → Bool → String → Option String
or_individual (some t) registered u = some t
or_individual none registered u = if registered then some u else none

abbrev pub contestant_of : String → List (String × List String) → List String → Option String
contestant_of u teams registered = or_individual (team_of u teams) (contains u registered) u

lookup-add_members :
    (u t : String) (us : List String) (m : List (String × String))
    → lookup u (add_members t us m) ≡ (if contains u us then some t else lookup u m)
unfolding add_members
lookup-add_members u t [] m = refl
lookup-add_members u t (x ∷ us) m =
    lookup-add_members u t us (insert x t m) ∙ ground (arith, lookup-insert x u t m)

abbrev or_lookup : Option String → Option String → Option String
or_lookup (some t) o = some t
or_lookup none o = o

lookup-add_teams :
    (u : String) (teams : List (String × List String)) (t : Table)
    → lookup u (add_teams teams t).user_to_contestant
      ≡ or_lookup (team_of u teams) (lookup u t.user_to_contestant)
unfolding add_teams
lookup-add_teams u [] t = refl
lookup-add_teams u ((id, members) ∷ teams) t =
    lookup-add_teams u teams (record {
      user_to_contestant = add_members id members t.user_to_contestant;
      standings = insert id (fresh_standing id team) t.standings;
    })
    ∙ ground (arith, lookup-add_members u id members t.user_to_contestant)

lookup-add_registration :
    (u x : String) (t : Table)
    → lookup u (add_registration x t).user_to_contestant
      ≡ or_lookup (lookup u t.user_to_contestant) (if str_eq x u then some u else none)
unfolding add_registration
lookup-add_registration u x t = elim (Bool-cases (str_eq x u)) [
  | inl same ↦ ground (arith, (str_eq_iff x u).0 same, lookup-insert x u x t.user_to_contestant)
  | inr other ↦ ground (arith, lookup-insert x u x t.user_to_contestant)
]

lookup-add_registrations :
    (u : String) (us : List String) (t : Table)
    → lookup u (add_registrations us t).user_to_contestant
      ≡ or_lookup (lookup u t.user_to_contestant) (if contains u us then some u else none)
unfolding add_registrations
lookup-add_registrations u [] t = ground arith
lookup-add_registrations u (x ∷ us) t =
    lookup-add_registrations u us (add_registration x t)
    ∙ ground (arith, lookup-add_registration u x t)

-- A submission counts for the team that selected its author (the last one, if several did), also if
-- the author is registered too; else for the author, if registered; and else for nobody.
pub attribute-contestant_of :
    (u : String) (teams : List (String × List String)) (registered : List String)
    → lookup u (attribute teams registered).user_to_contestant ≡ contestant_of u teams registered
unfolding attribute
attribute-contestant_of u teams registered =
    lookup-add_registrations u registered (add_teams teams no_table)
    ∙ ground (arith, lookup-add_teams u teams no_table)

-- The tables that the first two loops build: contestants have standings, which are empty.
record IsFresh (t : Table) : Type 0 where
  reachable :
      (u c : String)
      → lookup u t.user_to_contestant ≡ some c
      → is_some (lookup c t.standings) ≡ true
  empty : (c q : String) → cell c q t.standings ≡ no_attempt

listed-insert :
    (id c : String) (p : ParticipantStanding) (m : Standings)
    → (str_eq id c ≡ true) ⊎ (is_some (lookup c m) ≡ true)
    → is_some (lookup c (insert id p m)) ≡ true
listed-insert id c p m (inl hit) = ground (arith, lookup-insert id c p m)
listed-insert id c p m (inr old) = ground (arith, lookup-insert id c p m)

cell-insert_fresh :
    (id c q : String) (type : ParticipantType) (m : Standings)
    → cell c q m ≡ no_attempt
    → cell c q (insert id (fresh_standing id type) m) ≡ no_attempt
cell-insert_fresh id c q type m h = elim (Bool-cases (str_eq id c)) [
  | inl hit ↦ rw (lookup-insert id c (fresh_standing id type) m, hit)
  | inr miss ↦ rw (lookup-insert id c (fresh_standing id type) m, miss) h
]

add_teams-IsFresh :
    (teams : List (String × List String)) (t : Table) → IsFresh t → IsFresh (add_teams teams t)
unfolding add_teams
add_teams-IsFresh [] t v = v
add_teams-IsFresh ((id, members) ∷ teams) t v =
    add_teams-IsFresh teams
      (record {
        user_to_contestant = add_members id members t.user_to_contestant;
        standings = insert id (fresh_standing id team) t.standings;
      })
      (record {
        reachable = λ u c h. listed-insert id c (fresh_standing id team) t.standings (found u c h);
        empty = λ c q. cell-insert_fresh id c q team t.standings (v.empty c q);
      })
  where
    found :
        (u c : String)
        → lookup u (add_members id members t.user_to_contestant) ≡ some c
        → (str_eq id c ≡ true) ⊎ (is_some (lookup c t.standings) ≡ true)
    found u c h = elim (Bool-cases (contains u members)) [
      | inl member ↦
          inl
            (ground (arith, lookup-add_members u id members t.user_to_contestant, str_eq_iff id c))
      | inr other ↦
          inr
            (v.reachable u c (ground (arith, lookup-add_members u id members t.user_to_contestant)))
    ]

add_registration-IsFresh : (x : String) (t : Table) → IsFresh t → IsFresh (add_registration x t)
unfolding add_registration
add_registration-IsFresh x t v = elim (Bool-cases (is_some (lookup x t.user_to_contestant))) [
  | inl known ↦ rw known v
  | inr new ↦ rw new (record {
    reachable = λ u c h. listed-insert x c (fresh_standing x individual) t.standings (found u c h);
    empty = λ c q. cell-insert_fresh x c q individual t.standings (v.empty c q);
  })
]
  where
    found :
        (u c : String)
        → lookup u (insert x x t.user_to_contestant) ≡ some c
        → (str_eq x c ≡ true) ⊎ (is_some (lookup c t.standings) ≡ true)
    found u c h = elim (Bool-cases (str_eq x u)) [
      | inl itself ↦ inl (ground (arith, lookup-insert x u x t.user_to_contestant, str_eq_iff x c))
      | inr other ↦ inr (v.reachable u c (ground (arith, lookup-insert x u x t.user_to_contestant)))
    ]

add_registrations-IsFresh :
    (us : List String) (t : Table) → IsFresh t → IsFresh (add_registrations us t)
unfolding add_registrations
add_registrations-IsFresh [] t v = v
add_registrations-IsFresh (x ∷ us) t v =
    add_registrations-IsFresh us (add_registration x t) (add_registration-IsFresh x t v)

attribute-IsFresh :
    (teams : List (String × List String)) (registered : List String)
    → IsFresh (attribute teams registered)
unfolding attribute
attribute-IsFresh teams registered =
    add_registrations-IsFresh registered (add_teams teams no_table)
      (add_teams-IsFresh teams no_table (record { reachable = λ u c h. cc; empty = λ c q. refl }))

-- In the rebuilt table the cell of a contestant whom some user's submissions count for, and of a
-- problem, holds the official result of the submissions, in their order, that are not late, are to
-- that problem, a problem of the contest, and count for that contestant: the times of the wrong ones
-- before the first accepted one, and the time of that one.
pub rebuilt_cell :
    (end_time : ℕ) (problems : List ContestProblem) (teams : List (String × List String))
    (registered : List String) (subs : List ContestSubmissionData) (u c q : String)
    → contestant_of u teams registered ≡ some c
    → let t = attribute teams registered in
      let official = select (counts_for end_time problems t.user_to_contestant c q) subs in
      cell c q (tally end_time problems t.user_to_contestant subs t.standings) ≡ record {
        wrong_attempt_times = wrong_before official;
        accepted_at = first_accepted official;
      }
rebuilt_cell end_time problems teams registered subs u c q h =
    let t = attribute teams registered in
    let v = attribute-IsFresh teams registered in
    let official = select (counts_for end_time problems t.user_to_contestant c q) subs in
    cell-tally-replay end_time problems t.user_to_contestant subs c q t.standings
      (v.reachable u c (attribute-contestant_of u teams registered ∙ h))
    ∙ ap (λ a. replay a official) (v.empty c q)
    ∙ replay-official [] official
