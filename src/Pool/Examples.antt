-- ===== src/Pool/Examples.antt =====
-- The theorems on the pool at a concrete one: two idle containers and room for no third.
use training_center_back.Prelude.{
  none, subst, ◌<◌, String, true, false, Option, some, [], ◌∷◌, ◌++◌, ◌≡◌, refl, arith,
}
use training_center_back.Pool.Containers.{
  Container, idle, busy, find, idle_of_language, oldest_idle_container, oldest_from,
}
use training_center_back.Pool.Operations.{
  evict_expired, Pool, LanguageConfig, Docker, claim_limit, claim, new_container, create_container,
}
use training_center_back.Pool.Budget.{IsSound, FreshIds}
use training_center_back.Pool.Evictions.{claim-IsSound}
use training_center_back.Pool.Claims.{Answers, claim-Answers}
use training_center_back.Pool.Reaper.{evict_expired-IsSound}
use training_center_back.Pool.Races.{World, Reach, quiet, claims_exceed_budget}

abbrev go_image : LanguageConfig
go_image = record { image = "go"; cpu = "1"; memory_bytes = 60 }

abbrev languages : String → Option LanguageConfig
languages l = some go_image

abbrev first : Container
first = record {
  id = "a";
  language = "go";
  memory_bytes = 60;
  limit_bytes = 60;
  state = idle;
  last_used_at = 10;
}

abbrev second : Container
second = record first { id = "b"; last_used_at = 5 }

abbrev third : Container
third = record first { id = "c"; state = busy }

abbrev pool : Pool
pool = record {
  budget_bytes = 150;
  idle_timeout = 100;
  languages = languages;
  containers = first ∷ second ∷ [];
  allocated_bytes = 120;
  released = false;
}

abbrev docker : Docker
docker = record {
  remove = λ id. true;
  create = some "c";
  start = λ id. true;
  update_limit = λ id n. true;
}

pool-IsSound : IsSound pool
pool-IsSound = record {
  distinct = (refl, (refl, tt));
  accounted = refl;
  capped = (
    record { charge = refl; within = omega arith },
    (record { charge = refl; within = omega arith }, tt),
  );
  budgeted = omega arith;
}

docker-FreshIds : FreshIds docker pool
docker-FreshIds id e = subst (λ x. find x pool.containers ≡ none) named refl
  where
    named : "c" ≡ id
    named = cc

claim-IsSound_example : IsSound (claim docker "java" 40 20 pool).1
claim-IsSound_example = claim-IsSound docker "java" 40 20 pool docker-FreshIds pool-IsSound

claim-Answers_example :
    Answers "java" go_image (claim_limit go_image 40) pool (claim docker "java" 40 20 pool)
claim-Answers_example =
    claim-Answers docker "java" 40 20 pool go_image refl docker-FreshIds pool-IsSound

second_oldest : oldest_idle_container (first ∷ second ∷ []) ≡ some second
unfolding oldest_idle_container oldest_from
second_oldest = refl

-- One container of the language, in use.
abbrev nearly_full : Pool
nearly_full = record pool { containers = third ∷ []; allocated_bytes = 60 }

abbrev other_docker : Docker
other_docker = record docker { create = some "d" }

claims_exceed_budget_example :
    (w : World) × Reach (quiet nearly_full) w
    × (w.creating ≡ [])
    × (w.pool.containers
        ≡ (third ∷ new_container "b" "go" go_image (claim_limit go_image 40) 12 ∷ [])
          ++ new_container "d" "go" go_image (claim_limit go_image 0) 13 ∷ [])
    × (w.pool.budget_bytes < w.pool.allocated_bytes)
unfolding idle_of_language create_container
claims_exceed_budget_example =
    claims_exceed_budget nearly_full "go" go_image (record docker { create = some "b" }) 40 0 "b"
      "d" other_docker 12 13 refl refl refl refl (omega arith) (omega arith)

-- The second container has been idle for longer than the timeout.
evict_expired-IsSound_example : IsSound (evict_expired docker 107 pool)
evict_expired-IsSound_example = evict_expired-IsSound docker 107 pool pool-IsSound
