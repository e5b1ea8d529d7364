-- ===== src/Standings/Tally.antt =====
-- What the loop over the submissions leaves in each cell of the table, for a contestant and a problem.
use training_center_back.Prelude.{
  ℕ, String, Bool, true, false, Option, none, some, List, [], ◌∷◌, ◌++◌, ◌≡◌, refl, sym, ap, ◌∙◌,
  inl, inr, arith, str_eq, str_eq_iff, ltb, if◌then◌else◌, ◌&&◌, not, is_some, Bool-cases,
  Option-cases,
}
use mathlib.Core.List.{append_assoc, append-nil}
use training_center_back.Contest.Settings.{ContestProblem}
use training_center_back.Contest.Aggregate.{has_problem}
use training_center_back.Standings.Ranking.{ProblemAttempt, ParticipantStanding}
use training_center_back.Standings.Rebuild.{
  ContestSubmissionData, lookup, insert, attempt_in, Standings, is_accepted, is_wrong,
  record_submission, score, modify, tally_one, tally, stores,
}

-- Whether a submission counts for a contestant and a problem.
abbrev pub is_for : Option String → String → Bool
is_for none c = false
is_for (some d) c = str_eq d c

unfoldable pub counts_for :
    ℕ
    → List ContestProblem
    → List (String × String)
    → String
    → String
    → ContestSubmissionData
    → Bool
counts_for end_time problems users c q sub =
    not (ltb end_time sub.submitted_at)
    && has_problem sub.problem_id problems
    && is_for (lookup sub.user_id users) c
    && str_eq sub.problem_id q

-- The official result of a sequence of submissions that count.
abbrev pub first_accepted : List ContestSubmissionData → Option ℕ
first_accepted [] = none
first_accepted (s ∷ ss) = if is_accepted s.status then some s.submitted_at else first_accepted ss

abbrev pub wrong_before : List ContestSubmissionData → List ℕ
wrong_before [] = []
wrong_before (s ∷ ss) =
    if is_accepted s.status
    then []
    else if is_wrong s.status
    then s.submitted_at ∷ wrong_before ss
    else wrong_before ss

abbrev pub select {ℓ} : {A : Type ℓ} → (A → Bool) → List A → List A
select keep [] = []
select keep (x ∷ xs) = if keep x then x ∷ select keep xs else select keep xs

-- The attempt that the table holds for a contestant and a problem.
abbrev problems_in : Option ParticipantStanding → List (String × ProblemAttempt)
problems_in none = []
problems_in (some p) = p.problems

abbrev pub cell : String → String → Standings → ProblemAttempt
cell c q standings = attempt_in (lookup q (problems_in (lookup c standings)))

pub replay : ProblemAttempt → List ContestSubmissionData → ProblemAttempt
replay a [] = a
replay a (s ∷ ss) = replay (record_submission a s) ss

module _ {ℓ} {V : Type ℓ} where
  pub lookup-insert :
      (k j : String) (v : V) (m : List (String × V))
      → lookup j (insert k v m) ≡ (if str_eq k j then some v else lookup j m)
  unfolding insert
  lookup-insert k j v [] = refl
  lookup-insert k j v ((i, w) ∷ m) =
      ground (arith, str_eq_iff i k, str_eq_iff i j, str_eq_iff k j, lookup-insert k j v m)

lookup-modify :
    (c d : String) (f : ParticipantStanding → ParticipantStanding) (m : Standings)
    → lookup c (modify d f m)
      ≡ elim (lookup c m) [ none ↦ none | some p ↦ some (if str_eq d c then f p else p) ]
unfolding modify
lookup-modify c d f [] = refl
lookup-modify c d f ((i, p) ∷ m) =
    ground (arith, str_eq_iff i c, str_eq_iff i d, str_eq_iff d c, lookup-modify c d f m)

record_submission-not_stored :
    (a : ProblemAttempt) (sub : ContestSubmissionData)
    → stores a sub.status ≡ false
    → record_submission a sub ≡ a
unfolding record_submission
record_submission-not_stored a sub h = ground arith

-- Scoring changes the cell of its own problem only.
cell-score :
    (sub : ContestSubmissionData) (q : String) (p : ParticipantStanding)
    → attempt_in (lookup q (score sub p).problems) ≡ (
        if str_eq sub.problem_id q
        then record_submission (attempt_in (lookup q p.problems)) sub
        else attempt_in (lookup q p.problems))
unfolding score
cell-score sub q p = elim (Bool-cases (stores a sub.status)) [
  | inl stored ↦
      rw (stored, lookup-insert sub.problem_id q (record_submission a sub) p.problems)
        (elim (Bool-cases (str_eq sub.problem_id q)) [
          | inl hit ↦ rw (hit, (str_eq_iff sub.problem_id q).0 hit)
          | inr miss ↦ rw miss
        ])
  | inr skipped ↦ rw skipped (elim (Bool-cases (str_eq sub.problem_id q)) [
    | inl hit ↦ rw hit (
        sym (
          record_submission-not_stored (attempt_in (lookup q p.problems)) sub
            (rw (← (str_eq_iff sub.problem_id q).0 hit) skipped)))
    | inr miss ↦ rw miss
  ])
]
  where
    a : ProblemAttempt
    a = attempt_in (lookup sub.problem_id p.problems)

cell-modify :
    (sub : ContestSubmissionData) (c d q : String) (m : Standings) {p : ParticipantStanding}
    → lookup c m ≡ some p
    → cell c q (modify d (score sub) m) ≡ (
        if str_eq d c && str_eq sub.problem_id q
        then record_submission (cell c q m) sub
        else cell c q m)
cell-modify sub c d q m {p} h = elim (Bool-cases (str_eq d c)) [
  | inl hit ↦ rw (lookup-modify c d (score sub) m, h, hit) (cell-score sub q p)
  | inr miss ↦ rw (lookup-modify c d (score sub) m, h, miss)
]

listed-modify :
    (c d : String) (f : ParticipantStanding → ParticipantStanding) (m : Standings)
    → is_some (lookup c (modify d f m)) ≡ is_some (lookup c m)
listed-modify c d f m = rw (lookup-modify c d f m) (either (lookup c m))
  where
    either :
        (o : Option ParticipantStanding)
        → is_some (elim o [ none ↦ none | some p ↦ some (if str_eq d c then f p else p) ])
          ≡ is_some o
    either none = refl
    either (some p) = refl

is_some-get {ℓ} : {A : Type ℓ} (o : Option A) → is_some o ≡ true → (a : A) × (o ≡ some a)
is_some-get none h = cc
is_some-get (some a) h = (a, refl)

module _ (end_time : ℕ) (problems : List ContestProblem) (users : List (String × String)) where
  -- One round of the loop, seen at one cell of a contestant of the table.
  cell-tally_one :
      (sub : ContestSubmissionData) (c q : String) (m : Standings) {p : ParticipantStanding}
      → lookup c m ≡ some p
      → cell c q (tally_one end_time problems users sub m) ≡ (
          if counts_for end_time problems users c q sub
          then record_submission (cell c q m) sub
          else cell c q m)
  unfolding tally_one counts_for
  cell-tally_one sub c q m {p} h = elim (Bool-cases (ltb end_time sub.submitted_at)) [
    | inl late ↦ rw late
    | inr timely ↦ elim (Bool-cases (has_problem sub.problem_id problems)) [
      | inl has ↦ elim (Option-cases (lookup sub.user_id users)) [
        | inl stranger ↦ rw (timely, has, stranger)
        | inr (d, e) ↦ rw (timely, has, e) (cell-modify sub c d q m h)
      ]
      | inr removed ↦ rw (timely, removed)
    ]
  ]

  listed-tally_one :
      (sub : ContestSubmissionData) (c : String) (m : Standings)
      → is_some (lookup c (tally_one end_time problems users sub m)) ≡ is_some (lookup c m)
  unfolding tally_one
  listed-tally_one sub c m = elim (Bool-cases (ltb end_time sub.submitted_at)) [
    | inl late ↦ rw late
    | inr timely ↦ elim (Bool-cases (has_problem sub.problem_id problems)) [
      | inl has ↦ elim (Option-cases (lookup sub.user_id users)) [
        | inl stranger ↦ rw (timely, has, stranger)
        | inr (d, e) ↦ rw (timely, has, e) (listed-modify c d (score sub) m)
      ]
      | inr removed ↦ rw (timely, removed)
    ]
  ]

  pub listed-tally :
      (subs : List ContestSubmissionData) (c : String) (m : Standings)
      → is_some (lookup c (tally end_time problems users subs m)) ≡ is_some (lookup c m)
  unfolding tally
  listed-tally [] c m = refl
  listed-tally (s ∷ ss) c m =
      listed-tally ss c (tally_one end_time problems users s m) ∙ listed-tally_one s c m

  pub cell-tally-replay :
      (subs : List ContestSubmissionData) (c q : String) (m : Standings)
      → is_some (lookup c m) ≡ true
      → cell c q (tally end_time problems users subs m)
        ≡ replay (cell c q m) (select (counts_for end_time problems users c q) subs)
  unfolding tally replay
  cell-tally-replay [] c q m h = refl
  cell-tally-replay (s ∷ ss) c q m h =
      let (p, e) = is_some-get (lookup c m) h in
      let rest =
        cell-tally-replay ss c q (tally_one end_time problems users s m)
          (listed-tally_one s c m ∙ h) in
      step (cell-tally_one s c q m {p = p} e) rest
    where
      step :
          cell c q (tally_one end_time problems users s m) ≡ (
            if counts_for end_time problems users c q s
            then record_submission (cell c q m) s
            else cell c q m)
          → cell c q (tally end_time problems users ss (tally_one end_time problems users s m))
            ≡ replay
                (cell c q (tally_one end_time problems users s m))
                (select (counts_for end_time problems users c q) ss)
          → cell c q (tally end_time problems users ss (tally_one end_time problems users s m))
            ≡ replay (cell c q m) (select (counts_for end_time problems users c q) (s ∷ ss))
      step one rest = elim (Bool-cases (counts_for end_time problems users c q s)) [
        | inl counted ↦ rw counted (rest ∙ ap (λ a. replay a chosen) (rw counted at one))
        | inr skipped ↦ rw skipped (rest ∙ ap (λ a. replay a chosen) (rw skipped at one))
      ]
        where
          chosen : List ContestSubmissionData
          chosen = select (counts_for end_time problems users c q) ss

replay_solved :
    (a : ProblemAttempt) (ss : List ContestSubmissionData)
    → is_some a.accepted_at ≡ true
    → replay a ss ≡ a
unfolding replay record_submission
replay_solved a [] h = refl
replay_solved a (s ∷ ss) h = rw h (replay_solved a ss h)

pub replay-official :
    (wrong : List ℕ) (ss : List ContestSubmissionData)
    → replay (record { wrong_attempt_times = wrong; accepted_at = none }) ss
      ≡ record { wrong_attempt_times = wrong ++ wrong_before ss; accepted_at = first_accepted ss }
unfolding replay record_submission
replay-official wrong [] = rw (append-nil wrong)
replay-official wrong (s ∷ ss) = elim (Bool-cases (is_accepted s.status)) [
  | inl solved ↦
      rw (solved, append-nil wrong)
        (replay_solved (record { wrong_attempt_times = wrong; accepted_at = some s.submitted_at })
          ss refl)
  | inr unsolved ↦ elim (Bool-cases (is_wrong s.status)) [
    | inl wrong_one ↦
        rw (unsolved, wrong_one)
          (replay-official (wrong ++ s.submitted_at ∷ []) ss
            ∙ rw (append_assoc wrong (s.submitted_at ∷ []) (wrong_before ss)))
    | inr ignored ↦ rw (unsolved, ignored) (replay-official wrong ss)
  ]
]
