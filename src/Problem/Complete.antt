-- ===== src/Problem/Complete.antt =====
-- The invariant of Problem/Sound along the steps of Problem/Steps.
use training_center_back.Problem.Aggregate.{Problem}
use training_center_back.Problem.Orderly.{Orderly}
use training_center_back.Problem.Sound.{Sound}
