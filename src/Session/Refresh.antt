-- ===== src/Session/Refresh.antt =====
-- application/user/refresh.go. A call returns its answer and the table of tokens that it leaves.
-- `meanwhile` is what other requests do to the table between the read and the rotation.
use training_center_back.Prelude.{
  ℕ, String, Bool, true, false, Option, none, some, List, str_eq, if◌then◌else◌, not,
}
use training_center_back.Apperror.{
  Error, Result, ok, err, internal, unauthorized, forbidden, too_many_requests,
}
use training_center_back.Session.Tokens.{
  RefreshToken, is_revoked, is_expired, within_grace_window, successor, find_by_token_hash,
  find_active_by_family_id, rotate, revoke_by_family_id,
}

pub record RefreshInput : Type 0 where
  pub refresh_token : String
  pub user_agent : Option String
  pub ip_address : Option String

pub record RefreshOutput : Type 0 where
  pub token : String
  pub refresh_token : String
  pub session_expires_at : ℕ

-- What the codec, the rate limiter, the users, the token service and the cache answer, and which
-- queries on the tokens fail. `find_user` says of a user who exists whether the account is active;
-- `cached` is nothing also when the cache fails.
pub record Services : Type 0 where
  pub unwrap : String → Result (String × String)
  pub allow : String → Result Bool
  pub hash : String → String
  pub find_user : String → Result (Option Bool)
  pub new_secret : Option String
  pub new_id : String
  pub generate_token : String → String → Result String
  pub wrap : String → String → Result String
  pub cached : String → Option RefreshOutput
  pub find_fault : Option Error
  pub rotate_fault : Option Error
  pub find_again_fault : Option Error
  pub revoke_fault : Option Error
  pub find_active_fault : Option Error
  pub meanwhile : List RefreshToken → List RefreshToken

abbrev pub Answer : Type 0
Answer = Result RefreshOutput × List RefreshToken

-- A query that fails ends the call with its error.
abbrev pub unless_fault : Option Error → List RefreshToken → Answer → Answer
unless_fault none ts answer = answer
unless_fault (some e) ts answer = (err e, ts)

abbrev pub refused : Error
refused = unauthorized "UNAUTHORIZED"

unfoldable pub check_rate_limit : Services → String → Result (Unit {0})
check_rate_limit env key = elim (env.allow key) [
  | err e ↦ err e
  | ok true ↦ ok tt
  | ok false ↦ err (too_many_requests "TOO_MANY_REQUESTS" 60)
]

-- Inside the grace window: a new access token for the session that is still active.
unfoldable pub replay_in_grace :
    Services → String → String → List RefreshToken → Result RefreshOutput
replay_in_grace env family user_id ts = elim env.find_active_fault [
  | some e ↦ err e
  | none ↦ elim (find_active_by_family_id family ts) [
    | none ↦ err refused
    | some active ↦ elim (env.generate_token user_id family) [
      | err e ↦ err e
      | ok access ↦ ok (record {
        token = access;
        refresh_token = "";
        session_expires_at = active.absolute_expires_at;
      })
    ]
  ]
]

-- From the token that was read again on.
unfoldable pub judge_reuse :
    Services → String → ℕ → String → Option RefreshToken → List RefreshToken → Answer
judge_reuse env family now user_id none ts = (err refused, ts)
judge_reuse env family now user_id (some current) ts =
    if not (is_revoked current)
    then (err refused, ts)
    else if within_grace_window current now
    then (replay_in_grace env family user_id ts, ts)
    else unless_fault env.revoke_fault ts (err refused, revoke_by_family_id family now ts)

unfoldable pub handle_already_revoked :
    Services → String → String → ℕ → String → List RefreshToken → Answer
handle_already_revoked env hash family now user_id ts = elim (env.cached hash) [
  | some out ↦ (ok out, ts)
  | none ↦
      unless_fault env.find_again_fault ts
        (judge_reuse env family now user_id (find_by_token_hash hash ts) ts)
]

-- What the rotation decided: `false` means that another request was faster.
unfoldable pub conclude_rotation :
    Services → RefreshToken → RefreshToken → String → String → ℕ → Bool × List RefreshToken → Answer
conclude_rotation env token next access wrapped now (true, ts) = (
  ok (record {
    token = access;
    refresh_token = wrapped;
    session_expires_at = next.absolute_expires_at;
  }),
  ts,
)
conclude_rotation env token next access wrapped now (false, ts) =
    handle_already_revoked env token.token_hash token.family_id now token.user_id ts

-- From the successor on; the table may have changed since the token was read.
unfoldable pub exchange :
    Services → RefreshToken → RefreshToken → String → ℕ → List RefreshToken → Answer
exchange env token next secret now ts = elim (env.generate_token token.user_id token.family_id) [
  | err e ↦ (err e, ts)
  | ok access ↦ elim (env.wrap secret token.user_id) [
    | err e ↦ (err e, ts)
    | ok wrapped ↦ unless_fault env.rotate_fault (env.meanwhile ts) (
        conclude_rotation env token next access wrapped now
          (rotate token.token_hash next (env.meanwhile ts)))
  ]
]

-- From the token of an active user on.
unfoldable pub refresh_token_found :
    Services → RefreshInput → RefreshToken → ℕ → List RefreshToken → Answer
refresh_token_found env input token now ts =
    if is_revoked token
    then handle_already_revoked env token.token_hash token.family_id now token.user_id ts
    else if is_expired token now
    then (err refused, ts)
    else elim env.new_secret [
      | none ↦ (err internal, ts)
      | some secret ↦
          elim (successor token env.new_id (env.hash secret) input.user_agent input.ip_address
            now) [ err e ↦ (err refused, ts) | ok next ↦ exchange env token next secret now ts ]
    ]

unfoldable pub refresh_for_user :
    Services → RefreshInput → RefreshToken → Result (Option Bool) → ℕ → List RefreshToken → Answer
refresh_for_user env input token (err e) now ts = (err e, ts)
refresh_for_user env input token (ok (some true)) now ts =
    refresh_token_found env input token now ts
refresh_for_user env input token (ok _) now ts = (err (forbidden "ACCOUNT_DEACTIVATED"), ts)

unfoldable pub refresh_stored :
    Services → RefreshInput → Option RefreshToken → ℕ → List RefreshToken → Answer
refresh_stored env input none now ts = (err refused, ts)
refresh_stored env input (some token) now ts =
    refresh_for_user env input token (env.find_user token.user_id) now ts

-- From the unwrapped secret on.
unfoldable pub refresh_secret : Services → RefreshInput → String → ℕ → List RefreshToken → Answer
refresh_secret env input secret now ts =
    unless_fault env.find_fault ts
      (refresh_stored env input (find_by_token_hash (env.hash secret) ts) now ts)

unfoldable pub refresh : Services → RefreshInput → ℕ → List RefreshToken → Answer
refresh env input now ts =
    if str_eq input.refresh_token ""
    then (err refused, ts)
    else elim (env.unwrap input.refresh_token) [
      | err e ↦ (err refused, ts)
      | ok (secret, user_id) ↦ elim (check_rate_limit env user_id) [
        | err e ↦ (err e, ts)
        | ok _ ↦ refresh_secret env input secret now ts
      ]
    ]
