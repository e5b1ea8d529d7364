-- ===== src/Session/Replays.antt =====
-- What a stolen or replayed refresh token sets off.
use training_center_back.Prelude.{
  ℕ, ◌+◌, ◌<◌, String, true, false, Option, none, some, List, [], ◌∷◌, ◌≡◌, refl, sym, ◌∙◌, ap,
  arith, str_eq, str_eq_iff, is_some, subst,
}
use training_center_back.Apperror.{ok, err}
use training_center_back.Session.Tokens.{
  RefreshToken, refresh_grace_window, is_revoked, in_grace, find_by_token_hash,
  find_active_by_family_id, revoke_by_family_id,
}
use training_center_back.Session.Refresh.{
  RefreshInput, Services, unless_fault, refresh_stored, refused, check_rate_limit, judge_reuse,
  handle_already_revoked, refresh_token_found, refresh_for_user, refresh_secret, refresh,
}

-- A well-formed request with the token `t` of an active user, where every query succeeds.
pub record Presents (env : Services) (input : RefreshInput) (secret user_id : String)
    (t : RefreshToken) (ts : List RefreshToken) : Type 0 where
  pub given : str_eq input.refresh_token "" ≡ false
  pub unwrapped : env.unwrap input.refresh_token ≡ ok (secret, user_id)
  pub allowed : env.allow user_id ≡ ok true
  pub read : env.find_fault ≡ none
  pub read_again : env.find_again_fault ≡ none
  pub written : env.revoke_fault ≡ none
  pub stored : find_by_token_hash (env.hash secret) ts ≡ some t
  pub active : env.find_user t.user_id ≡ ok (some true)

find-token_hash :
    (hash : String) (ts : List RefreshToken) {t : RefreshToken}
    → find_by_token_hash hash ts ≡ some t
    → t.token_hash ≡ hash
unfolding find_by_token_hash
find-token_hash hash [] h = cc
find-token_hash hash (x ∷ ts) {t} h =
    ground (arith, str_eq_iff x.token_hash hash, find-token_hash hash ts {t = t})

revoke-family :
    (family : String) (now : ℕ) (ts : List RefreshToken)
    → find_active_by_family_id family (revoke_by_family_id family now ts) ≡ none
unfolding find_active_by_family_id revoke_by_family_id
revoke-family family now [] = refl
revoke-family family now (x ∷ ts) = ground (arith, revoke-family family now ts)

revoke-family_other :
    (family other : String) (now : ℕ) (ts : List RefreshToken)
    → str_eq family other ≡ false
    → find_active_by_family_id other (revoke_by_family_id family now ts)
      ≡ find_active_by_family_id other ts
unfolding find_active_by_family_id revoke_by_family_id
revoke-family_other family other now [] h = refl
revoke-family_other family other now (x ∷ ts) h = ground (
  arith,
  str_eq_iff x.family_id family,
  str_eq_iff x.family_id other,
  str_eq_iff family other,
  revoke-family_other family other now ts h,
)

-- When a token that was revoked longer ago than the grace window is presented again, and the cache
-- has no answer for it, the request is refused and the whole family is revoked: it has no active
-- token left. Every other family keeps its active token.
pub refresh-replayed :
    (env : Services) (input : RefreshInput) (secret user_id : String) (t : RefreshToken)
    (at now : ℕ) (ts : List RefreshToken)
    → Presents env input secret user_id t ts
    → t.revoked_at ≡ some at
    → at + refresh_grace_window < now
    → env.cached t.token_hash ≡ none
    → let after = refresh env input now ts in
      (after.0 ≡ err refused)
      × (find_active_by_family_id t.family_id after.1 ≡ none)
      × ((other : String)
          → str_eq t.family_id other ≡ false
          → find_active_by_family_id other after.1 ≡ find_active_by_family_id other ts)
unfolding refresh check_rate_limit refresh_secret refresh_stored refresh_for_user
    refresh_token_found handle_already_revoked judge_reuse
refresh-replayed env input secret user_id t at now ts p revoked late miss =
    subst
      (λ after.
        (after.0 ≡ err refused)
        × (find_active_by_family_id t.family_id after.1 ≡ none)
        × ((other : String)
            → str_eq t.family_id other ≡ false
            → find_active_by_family_id other after.1 ≡ find_active_by_family_id other ts))
      (sym (reaches ∙ read ∙ found ∙ handled))
      (
        refl,
        revoke-family t.family_id now ts,
        λ other e. revoke-family_other t.family_id other now ts e,
      )
  where
    again : find_by_token_hash t.token_hash ts ≡ some t
    again =
        ap (λ h. find_by_token_hash h ts) (find-token_hash (env.hash secret) ts {t = t} p.stored)
        ∙ p.stored

    too_late : in_grace (some at) now ≡ false
    too_late = ground arith

    reaches : refresh env input now ts ≡ refresh_secret env input secret now ts
    reaches = rw (p.given, p.unwrapped, p.allowed) refl

    read : refresh_secret env input secret now ts ≡ refresh_stored env input (some t) now ts
    read =
        ap
          (λ o.
            unless_fault o ts
              (refresh_stored env input (find_by_token_hash (env.hash secret) ts) now ts))
          p.read
        ∙ ap (λ o. refresh_stored env input o now ts) p.stored

    was_revoked : is_revoked t ≡ true
    was_revoked = ap (λ (o : Option ℕ). is_some o) revoked

    already_revoked :
        refresh_token_found env input t now ts
        ≡ handle_already_revoked env t.token_hash t.family_id now t.user_id ts
    already_revoked = rw (was_revoked, refresh_token_found) refl

    found :
        refresh_stored env input (some t) now ts
        ≡ handle_already_revoked env t.token_hash t.family_id now t.user_id ts
    found = ap (λ u. refresh_for_user env input t u now ts) p.active ∙ already_revoked

    judged :
        judge_reuse env t.family_id now t.user_id (some t) ts
        ≡ (err refused, revoke_by_family_id t.family_id now ts)
    judged =
        rw (revoked, too_late)
          (ap (λ o. unless_fault o ts (err refused, revoke_by_family_id t.family_id now ts))
            p.written)

    handled :
        handle_already_revoked env t.token_hash t.family_id now t.user_id ts
        ≡ (err refused, revoke_by_family_id t.family_id now ts)
    handled =
        rw (miss, handle_already_revoked)
          (ap
              (λ o.
                unless_fault o ts (
                  judge_reuse env t.family_id now t.user_id (find_by_token_hash t.token_hash ts)
                    ts))
              p.read_again
            ∙ ap (λ o. judge_reuse env t.family_id now t.user_id o ts) again
            ∙ judged)
