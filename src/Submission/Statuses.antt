-- ===== src/Submission/Statuses.antt =====
-- internal/domain/submission/status.go. A status is a text in the source; the constructors are the
-- ten known values, and `unrecognised` is a text that `RestoreStatus` took from storage unchecked.
use training_center_back.Prelude.{
  String, Bool, true, false, ◌≡◌, refl, sym, ap, ◌∙◌, ◌↔◌, str_eq, str_eq_iff, if◌then◌else◌, [],
  ◌∷◌, arith,
}
use training_center_back.Apperror.{Result, ok, err, validation}

pub data Status : Type 0 where
  pending running accepted wrong_answer time_limit_exceeded memory_limit_exceeded : Status
  output_limit_exceeded runtime_error compilation_error system_error : Status
  unrecognised : String → Status

pub to_string : Status → String
to_string pending = "PENDING"
to_string running = "RUNNING"
to_string accepted = "ACCEPTED"
to_string wrong_answer = "WRONG_ANSWER"
to_string time_limit_exceeded = "TIME_LIMIT_EXCEEDED"
to_string memory_limit_exceeded = "MEMORY_LIMIT_EXCEEDED"
to_string output_limit_exceeded = "OUTPUT_LIMIT_EXCEEDED"
to_string runtime_error = "RUNTIME_ERROR"
to_string compilation_error = "COMPILATION_ERROR"
to_string system_error = "SYSTEM_ERROR"
to_string (unrecognised s) = s

pub restore_status : String → Status
restore_status s =
    if str_eq s "PENDING"
    then pending
    else if str_eq s "RUNNING"
    then running
    else if str_eq s "ACCEPTED"
    then accepted
    else if str_eq s "WRONG_ANSWER"
    then wrong_answer
    else if str_eq s "TIME_LIMIT_EXCEEDED"
    then time_limit_exceeded
    else if str_eq s "MEMORY_LIMIT_EXCEEDED"
    then memory_limit_exceeded
    else if str_eq s "OUTPUT_LIMIT_EXCEEDED"
    then output_limit_exceeded
    else if str_eq s "RUNTIME_ERROR"
    then runtime_error
    else if str_eq s "COMPILATION_ERROR"
    then compilation_error
    else if str_eq s "SYSTEM_ERROR"
    then system_error
    else unrecognised s

accept_known : Status → Result Status
accept_known (unrecognised s) = err (validation ("status" ∷ []))
accept_known st = ok st

pub new_status : String → Result Status
unfolding accept_known
new_status raw = accept_known (restore_status raw)

abbrev pub is_pending : Status → Bool
is_pending pending = true
is_pending _ = false

abbrev pub is_running : Status → Bool
is_running running = true
is_running _ = false

abbrev pub is_final : Status → Bool
is_final pending = false
is_final running = false
is_final (unrecognised s) = false
is_final _ = true

-- Reading a stored status and writing it back gives the stored text, known or not.
pub to_string-restore_status : (s : String) → to_string (restore_status s) ≡ s
unfolding to_string restore_status
to_string-restore_status s = ground (
  arith,
  str_eq_iff s "PENDING",
  str_eq_iff s "RUNNING",
  str_eq_iff s "ACCEPTED",
  str_eq_iff s "WRONG_ANSWER",
  str_eq_iff s "TIME_LIMIT_EXCEEDED",
  str_eq_iff s "MEMORY_LIMIT_EXCEEDED",
  str_eq_iff s "OUTPUT_LIMIT_EXCEEDED",
  str_eq_iff s "RUNTIME_ERROR",
  str_eq_iff s "COMPILATION_ERROR",
  str_eq_iff s "SYSTEM_ERROR",
)

-- The ten statuses that the source names.
abbrev pub is_known : Status → Bool
is_known (unrecognised s) = false
is_known _ = true

new_status-to_string : (st : Status) → is_known st ≡ true → new_status (to_string st) ≡ ok st
unfolding new_status restore_status to_string
new_status-to_string (unrecognised s) k = cc
new_status-to_string _ k = refl

accept_known-ok : (a b : Status) → accept_known a ≡ ok b → a ≡ b
unfolding accept_known
accept_known-ok a b h = ground arith

-- Validating a text gives a known status exactly when the text is that status's own.
pub new_status_iff :
    (raw : String) (st : Status)
    → is_known st ≡ true
    → (new_status raw ≡ ok st) ↔ (raw ≡ to_string st)
unfolding new_status
new_status_iff raw st k = (
  λ h.
      sym (to_string-restore_status raw) ∙ ap to_string (accept_known-ok (restore_status raw) st h),
  λ e. rw e (new_status-to_string st k),
)
