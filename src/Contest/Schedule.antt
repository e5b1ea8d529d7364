-- ===== src/Contest/Schedule.antt =====
-- The schedule of a contest: its times, its freeze, and the status that follows from them.
use training_center_back.Prelude.{
  ◌^◌, pos_part, int64-fits, ℕ, zero, suc, ◌+◌, ◌*◌, ◌≤◌, ◌<◌, String, Bool, true, false, Option,
  none, some, [], ◌≡◌, ◌⊎◌, inl, inr, ◌↔◌, arith, ℤ, pos, negsuc, sub_ℕ, is_some, subst,
}
use training_center_back.Apperror.{ok}
use training_center_back.Contest.Settings.{
  Status, scheduled, active, finished, ParticipationMode, TeamSize, minute, validate_freeze_minutes,
}
use training_center_back.Contest.Aggregate.{
  Contest, Changes, new_contest, status, update, or_else, check_freeze,
}

-- The freeze is not negative, and shorter than the contest.
abbrev pub FreezeFits : ℤ → ℕ → ℕ → Type 0
FreezeFits (negsuc n) start_time end_time = ⊥
FreezeFits (pos zero) start_time end_time = Unit
FreezeFits (pos (suc n)) start_time end_time = start_time + suc n * minute < end_time

pub record IsWellTimed (c : Contest) : Type 0 where
  pub ordered : c.start_time < c.end_time
  pub freeze : FreezeFits c.freeze_minutes c.start_time c.end_time

validate-FreezeFits :
    (v : ℤ) (start_time end_time : ℕ)
    → start_time < end_time
    → pos_part v * minute < 2 ^ 63
    → validate_freeze_minutes v (sub_ℕ end_time start_time) ≡ ok tt
    → FreezeFits v start_time end_time
unfolding validate_freeze_minutes
validate-FreezeFits (negsuc n) s e o w h = cc
validate-FreezeFits (pos zero) s e o w h = tt
validate-FreezeFits (pos (suc n)) s e o w h = ground (arith, h, int64-fits (suc n * minute) w)

module _ (id name : String) (description : Option String) (start_time end_time : ℕ)
    (penalty freeze_minutes : ℤ) (enable_post_contest show_team_members : Bool)
    (group_id owner_id : String) (mode : ParticipationMode) (team_size : TeamSize) (now : ℕ)
    {c : Contest} (fits_word : pos_part freeze_minutes * minute < 2 ^ 63)
    (made : new_contest id name description start_time end_time penalty freeze_minutes
        enable_post_contest show_team_members group_id owner_id mode team_size now
      ≡ ok c) where
  -- A new contest whose freeze fits the word of a duration is well timed, has not started when it is made, is unlocked and has no problem.
  pub new_contest-IsWellTimed :
      IsWellTimed c × (status c now ≡ scheduled) × (c.locked ≡ false) × (c.problems ≡ [])
  unfolding new_contest status
  new_contest-IsWellTimed =
      ground (arith, fits_word, validate-FreezeFits freeze_minutes start_time end_time)

-- How far a status is along the life of a contest.
abbrev pub rank : Status → ℕ
rank scheduled = 0
rank active = 1
rank finished = 2

-- As time goes on the status of a contest never goes back, and it is active exactly from its start
-- to before its end.
pub status_mono :
    (c : Contest) (now later : ℕ)
    → now ≤ later
    → (rank (status c now) ≤ rank (status c later))
      × ((status c now ≡ active) ↔ ((c.start_time ≤ now) × (now < c.end_time)))
unfolding status
status_mono c now later h = (ground arith, (λ e. (ground arith, ground arith), λ e. ground arith))

-- The new times of an update.
abbrev pub start_after : Contest → Changes → ℕ
start_after c ch = or_else ch.start_time c.start_time

abbrev pub end_after : Contest → Changes → ℕ
end_after c ch = or_else ch.end_time c.end_time

-- What an update that succeeds has checked and stored.
record Updated (c : Contest) (ch : Changes) (now : ℕ) (c' : Contest) : Type 0 where
  start_is : c'.start_time ≡ start_after c ch
  end_is : c'.end_time ≡ end_after c ch
  freeze_is : c'.freeze_minutes ≡ or_else ch.freeze_minutes c.freeze_minutes
  start_ahead : is_some ch.start_time ≡ true → now < start_after c ch
  end_ahead : is_some ch.end_time ≡ true → now < end_after c ch
  in_order : c.start_time < c.end_time → start_after c ch < end_after c ch
  freeze_checked :
      check_freeze ch.freeze_minutes (sub_ℕ (end_after c ch) (start_after c ch)) ≡ ok tt

update-Updated :
    (c : Contest) (ch : Changes) (now : ℕ) {c' : Contest}
    → update c ch now ≡ ok c'
    → Updated c ch now c'
unfolding update
update-Updated c ch now h = record {
  start_is = ground arith;
  end_is = ground arith;
  freeze_is = ground arith;
  start_ahead = λ s. ground arith;
  end_ahead = λ e. ground arith;
  in_order = λ o. ground arith;
  freeze_checked = ground arith;
}

checked-FreezeFits :
    (change : Option ℤ) (old : ℤ) (s e s' e' : ℕ)
    → s' < e'
    → FreezeFits old s e
    → pos_part (or_else change (pos 0)) * minute < 2 ^ 63
    → check_freeze change (sub_ℕ e' s') ≡ ok tt
    → (is_some change ≡ true) ⊎ (e + s' ≤ e' + s)
    → FreezeFits (or_else change old) s' e'
checked-FreezeFits (some v) old s e s' e' o f w h long = validate-FreezeFits v s' e' o w h
checked-FreezeFits none (negsuc n) s e s' e' o f w h long = f
checked-FreezeFits none (pos zero) s e s' e' o f w h long = tt
checked-FreezeFits none (pos (suc n)) s e s' e' o f w h (inl set) = cc
checked-FreezeFits none (pos (suc n)) s e s' e' o f w h (inr long) = omega arith

-- An update whose new freeze, if it has one, fits the word of a duration, and that sets the freeze or
-- does not shorten the contest, keeps a well-timed contest well timed; and a new start or end lies
-- in the future.
pub update-IsWellTimed :
    (c : Contest) (ch : Changes) (now : ℕ) {c' : Contest}
    → IsWellTimed c
    → pos_part (or_else ch.freeze_minutes (pos 0)) * minute < 2 ^ 63
    → update c ch now ≡ ok c'
    → (is_some ch.freeze_minutes ≡ true)
      ⊎ (c.end_time + start_after c ch ≤ end_after c ch + c.start_time)
    → IsWellTimed c'
      × (is_some ch.start_time ≡ true → now < c'.start_time)
      × (is_some ch.end_time ≡ true → now < c'.end_time)
update-IsWellTimed c ch now v w h long =
    let u = update-Updated c ch now h in
    let ordered = u.in_order v.ordered in
    (
      record {
        ordered = rw (u.start_is, u.end_is) ordered;
        freeze =
            rw (u.start_is, u.end_is, u.freeze_is)
              (checked-FreezeFits ch.freeze_minutes c.freeze_minutes c.start_time c.end_time
                (start_after c ch) (end_after c ch) ordered v.freeze w u.freeze_checked long);
      },
      (λ s. rw u.start_is (u.start_ahead s)),
      (λ e. rw u.end_is (u.end_ahead e)),
    )

-- The changes that only move the end.
abbrev pub end_moved : ℕ → Changes
end_moved t = record {
  name = none;
  description = none;
  start_time = none;
  end_time = some t;
  penalty = none;
  freeze_minutes = none;
  enable_post_contest = none;
}

-- The freeze is checked only when it is itself updated: on every frozen contest, moving the end to
-- a future instant that comes no later than start plus freeze succeeds, and leaves a freeze that is
-- at least as long as the contest.
pub update_stale_freeze :
    (c : Contest) (n new_end now : ℕ)
    → c.freeze_minutes ≡ pos (suc n)
    → now < new_end
    → c.start_time < new_end
    → new_end ≤ c.start_time + suc n * minute
    → (c' : Contest) × (update c (end_moved new_end) now ≡ ok c') × ¬ IsWellTimed c'
unfolding update
update_stale_freeze c n new_end now frozen future ordered short = (
  record c { end_time = new_end; updated_at = some now },
  ground arith,
  λ v. not_fitting (subst (λ z. FreezeFits z c.start_time new_end) frozen v.freeze),
)
  where
    not_fitting : ¬ FreezeFits (pos (suc n)) c.start_time new_end
    not_fitting f = omega arith
