-- ===== src/Standings/Freeze.antt =====
-- The table under a freeze.
use training_center_back.Prelude.{ℕ, String, Option, none, some, List, [], ◌∷◌, ltb, if◌then◌else◌}
use training_center_back.Standings.Ranking.{ProblemAttempt, ParticipantStanding}

-- The wrong attempts up to the freeze.
abbrev pub up_to : ℕ → List ℕ → List ℕ
up_to f [] = []
up_to f (t ∷ ts) = if ltb f t then up_to f ts else t ∷ up_to f ts

abbrev pub accepted_up_to : ℕ → Option ℕ → Option ℕ
accepted_up_to f none = none
accepted_up_to f (some t) = if ltb f t then none else some t

-- What a participant had done when the freeze began.
abbrev pub attempt_up_to : ℕ → ProblemAttempt → ProblemAttempt
attempt_up_to f a = record {
  wrong_attempt_times = up_to f a.wrong_attempt_times;
  accepted_at = accepted_up_to f a.accepted_at;
}

abbrev pub problems_up_to : ℕ → List (String × ProblemAttempt) → List (String × ProblemAttempt)
problems_up_to f [] = []
problems_up_to f ((x, a) ∷ ps) = (x, attempt_up_to f a) ∷ problems_up_to f ps

abbrev pub standing_up_to : ℕ → ParticipantStanding → ParticipantStanding
standing_up_to f p = record p { problems = problems_up_to f p.problems }
