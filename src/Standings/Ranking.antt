-- ===== src/Standings/Ranking.antt =====
-- internal/application/contest/icpc_ranking.go and domain/contest/participant_standing.go. A map
-- keyed by problem is an association list, whose order stands for the order of the source's loop.
use training_center_back.Prelude.{
  ℕ, suc, ◌+◌, ◌*◌, String, Bool, true, false, Option, none, some, List, [], ◌∷◌, map, ltb, ◌==◌,
  if◌then◌else◌, ◌&&◌, not, ℤ, pos, negsuc, ◌+ℤ◌, ltb_ℤ, eqb_ℤ, sub_ℕ, quot,
}
use training_center_back.Contest.Settings.{minute}

pub record ProblemAttempt : Type 0 where
  pub wrong_attempt_times : List ℕ
  pub accepted_at : Option ℕ

pub data ParticipantType : Type 0 where
  individual team : ParticipantType

pub record ParticipantStanding : Type 0 where
  pub contestant_id : String
  pub participant_type : ParticipantType
  pub problems : List (String × ProblemAttempt)

pub record RankedProblem : Type 0 where
  pub attempts : ℕ
  pub accepted_at : Option ℕ
  pub penalty : ℤ

pub record RankedEntry : Type 0 where
  pub rank : ℕ
  pub contestant_id : String
  pub participant_type : ParticipantType
  pub problems_solved : ℕ
  pub total_penalty : ℤ
  pub last_accepted_at : Option ℕ
  pub problems : List (String × RankedProblem)

-- `freezeTime == nil || !t.After(*freezeTime)`.
abbrev pub is_visible : Option ℕ → ℕ → Bool
is_visible none t = true
is_visible (some f) t = not (ltb f t)

-- The wrong attempts that count.
unfoldable pub pre_freeze : Option ℕ → List ℕ → ℕ
pre_freeze freeze [] = 0
pre_freeze freeze (t ∷ ts) =
    if is_visible freeze t then suc (pre_freeze freeze ts) else pre_freeze freeze ts

-- `preFreeze * contestPenalty`, where the penalty is a signed number.
abbrev pub scale : ℕ → ℤ → ℤ
scale n (pos m) = pos (n * m)
scale n (negsuc m) = sub_ℕ 0 (n * suc m)

-- `int(t.Sub(start).Minutes())`: the minutes from the start, rounded towards zero.
abbrev pub minutes_since : ℕ → ℕ → ℤ
minutes_since start t = quot (sub_ℕ t start) minute

abbrev pub shown : Option ℕ → Option ℕ → Option ℕ
shown freeze none = none
shown freeze (some t) = if is_visible freeze t then some t else none

abbrev pub penalty_of : ℕ → ℤ → ℕ → Option ℕ → ℤ
penalty_of start contest_penalty wrong none = pos 0
penalty_of start contest_penalty wrong (some t) =
    minutes_since start t +ℤ scale wrong contest_penalty

-- The body of the loop over the problems of a participant, up to the sums.
unfoldable pub rank_problem : ℕ → ℤ → Option ℕ → ProblemAttempt → RankedProblem
rank_problem start contest_penalty freeze a = record {
  attempts = pre_freeze freeze a.wrong_attempt_times;
  accepted_at = shown freeze a.accepted_at;
  penalty =
      penalty_of start contest_penalty (pre_freeze freeze a.wrong_attempt_times)
        (shown freeze a.accepted_at);
}

-- `lastAccepted == nil || acceptedAt.After(*lastAccepted)`.
abbrev pub later_of : Option ℕ → ℕ → Option ℕ
later_of none t = some t
later_of (some l) t = if ltb l t then some t else some l

-- What one ranked problem adds to its row.
unfoldable pub count_problem : RankedEntry → String → RankedProblem → RankedEntry
count_problem e problem_id rp = elim rp.accepted_at [
  | none ↦ record e { problems = (problem_id, rp) ∷ e.problems }
  | some t ↦ record e {
    problems_solved = e.problems_solved + 1;
    total_penalty = e.total_penalty +ℤ rp.penalty;
    last_accepted_at = later_of e.last_accepted_at t;
    problems = (problem_id, rp) ∷ e.problems;
  }
]

unfoldable pub count_problems :
    ℕ → ℤ → Option ℕ → RankedEntry → List (String × ProblemAttempt) → RankedEntry
count_problems start contest_penalty freeze e [] = e
count_problems start contest_penalty freeze e ((problem_id, a) ∷ ps) =
    count_problems start contest_penalty freeze
      (count_problem e problem_id (rank_problem start contest_penalty freeze a)) ps

unfoldable pub build_entry : ℕ → ℤ → Option ℕ → ParticipantStanding → RankedEntry
build_entry start contest_penalty freeze p =
    count_problems start contest_penalty freeze
      (record {
        rank = 0;
        contestant_id = p.contestant_id;
        participant_type = p.participant_type;
        problems_solved = 0;
        total_penalty = pos 0;
        last_accepted_at = none;
        problems = [];
      })
      p.problems

abbrev pub before : Option ℕ → Option ℕ → Bool
before none b = false
before (some a) none = true
before (some a) (some b) = ltb a b

-- The comparison that the sort is given.
unfoldable pub less : RankedEntry → RankedEntry → Bool
less a b =
    if not (a.problems_solved == b.problems_solved)
    then ltb b.problems_solved a.problems_solved
    else if not (eqb_ℤ a.total_penalty b.total_penalty)
    then ltb_ℤ a.total_penalty b.total_penalty
    else before a.last_accepted_at b.last_accepted_at

-- `sort.SliceStable`: of equal entries the one that stood first stays first.
unfoldable pub insert_sorted : RankedEntry → List RankedEntry → List RankedEntry
insert_sorted e [] = e ∷ []
insert_sorted e (x ∷ xs) = if less x e then x ∷ insert_sorted e xs else e ∷ x ∷ xs

unfoldable pub stable_sort : List RankedEntry → List RankedEntry
stable_sort [] = []
stable_sort (e ∷ es) = insert_sorted e (stable_sort es)

abbrev pub last_accepted_equal : Option ℕ → Option ℕ → Bool
last_accepted_equal none none = true
last_accepted_equal none (some b) = false
last_accepted_equal (some a) none = false
last_accepted_equal (some a) (some b) = a == b

unfoldable pub same_tie : RankedEntry → RankedEntry → Bool
same_tie prev curr =
    prev.problems_solved == curr.problems_solved
    && eqb_ℤ prev.total_penalty curr.total_penalty
    && last_accepted_equal prev.last_accepted_at curr.last_accepted_at

-- The loop that assigns ranks, at index `i` and behind the entry `prev`, which has its rank.
unfoldable pub assign_behind : ℕ → RankedEntry → List RankedEntry → List RankedEntry
assign_behind i prev [] = []
assign_behind i prev (e ∷ es) =
    let ranked = record e { rank = if same_tie prev e then prev.rank else i + 1 } in
    ranked ∷ assign_behind (suc i) ranked es

unfoldable pub assign_ranks : List RankedEntry → List RankedEntry
assign_ranks [] = []
assign_ranks (e ∷ es) = record e { rank = 1 } ∷ assign_behind 1 (record e { rank = 1 }) es

unfoldable pub rank_standings : List ParticipantStanding → ℕ → ℤ → Option ℕ → List RankedEntry
rank_standings participants start contest_penalty freeze =
    assign_ranks (stable_sort (map (build_entry start contest_penalty freeze) participants))
