-- ===== src/Session/Tokens.antt =====
-- domain/user/refresh_token.go, and the queries of adapter/user/refresh_token_repository.go on the
-- table of tokens. Instants are nanoseconds; a copied pointer is the value.
use training_center_back.Prelude.{
  ℕ, ◌+◌, String, Bool, true, false, Option, none, some, List, [], ◌∷◌, str_eq, ltb, leb,
  if◌then◌else◌, ◌&&◌, ◌||◌, not, is_some,
}
use training_center_back.Apperror.{Result, ok, err, internal, conflict}

abbrev pub default_session_ceiling : ℕ
default_session_ceiling = 86400000000000

abbrev pub remember_session_ceiling : ℕ
remember_session_ceiling = 2592000000000000

abbrev pub refresh_grace_window : ℕ
refresh_grace_window = 10000000000

pub record RefreshToken : Type 0 where
  pub id : String
  pub user_id : String
  pub family_id : String
  pub token_hash : String
  pub issued_at : ℕ
  pub absolute_expires_at : ℕ
  pub revoked_at : Option ℕ
  pub replaced_by_id : Option String
  pub user_agent : Option String
  pub ip_address : Option String

unfoldable pub new_refresh_token_with_ceiling :
    (id user_id family_id token_hash : String) (user_agent ip_address : Option String)
    (absolute_expires_at now : ℕ)
    → Result RefreshToken
new_refresh_token_with_ceiling id user_id family_id token_hash user_agent ip_address expires now =
    if str_eq id "" || str_eq user_id "" || str_eq family_id "" || str_eq token_hash ""
    then err internal
    else ok (record {
      id = id;
      user_id = user_id;
      family_id = family_id;
      token_hash = token_hash;
      issued_at = now;
      absolute_expires_at = expires;
      revoked_at = none;
      replaced_by_id = none;
      user_agent = user_agent;
      ip_address = ip_address;
    })

unfoldable pub new_refresh_token :
    (id user_id family_id token_hash : String) (user_agent ip_address : Option String)
    (remember_session : Bool) (now : ℕ)
    → Result RefreshToken
new_refresh_token id user_id family_id token_hash user_agent ip_address remember_session now =
    new_refresh_token_with_ceiling id user_id family_id token_hash user_agent ip_address
      (now + (if remember_session then remember_session_ceiling else default_session_ceiling)) now

abbrev pub is_revoked : RefreshToken → Bool
is_revoked t = is_some t.revoked_at

abbrev pub is_expired : RefreshToken → ℕ → Bool
is_expired t now = ltb t.absolute_expires_at now

abbrev pub in_grace : Option ℕ → ℕ → Bool
in_grace none now = false
in_grace (some at) now = leb now (at + refresh_grace_window)

abbrev pub within_grace_window : RefreshToken → ℕ → Bool
within_grace_window t now = in_grace t.revoked_at now

unfoldable pub revoke : RefreshToken → ℕ → Option String → RefreshToken
revoke t now replaced_by_id =
    if is_revoked t then t else record t { revoked_at = some now; replaced_by_id = replaced_by_id }

unfoldable pub successor :
    RefreshToken → String → String → Option String → Option String → ℕ → Result RefreshToken
successor t new_id token_hash user_agent ip_address now =
    if is_revoked t
    then err (conflict "REFRESH_TOKEN_ALREADY_REVOKED")
    else if is_expired t now
    then err (conflict "REFRESH_TOKEN_EXPIRED")
    else new_refresh_token_with_ceiling new_id t.user_id t.family_id token_hash user_agent
        ip_address t.absolute_expires_at now

-- `WHERE token_hash = $1`.
unfoldable pub find_by_token_hash : String → List RefreshToken → Option RefreshToken
find_by_token_hash hash [] = none
find_by_token_hash hash (t ∷ ts) =
    if str_eq t.token_hash hash then some t else find_by_token_hash hash ts

abbrev newer : RefreshToken → Option RefreshToken → Option RefreshToken
newer t none = some t
newer t (some best) = if ltb t.issued_at best.issued_at then some best else some t

-- `WHERE family_id = $1 AND revoked_at IS NULL ORDER BY issued_at DESC LIMIT 1`.
unfoldable pub find_active_by_family_id : String → List RefreshToken → Option RefreshToken
find_active_by_family_id family [] = none
find_active_by_family_id family (t ∷ ts) =
    let rest = find_active_by_family_id family ts in
    if str_eq t.family_id family && not (is_revoked t) then newer t rest else rest

abbrev pub is_rotated : String → RefreshToken → Bool
is_rotated hash t = str_eq t.token_hash hash && not (is_revoked t)

-- The update of `Rotate`, and whether a row matched it.
unfoldable pub rotate_rows : String → RefreshToken → List RefreshToken → List RefreshToken
rotate_rows hash next [] = []
rotate_rows hash next (t ∷ ts) =
    (if is_rotated hash t
      then record t { revoked_at = some next.issued_at; replaced_by_id = some next.id }
      else t)
    ∷ rotate_rows hash next ts

unfoldable pub any_rotated : String → List RefreshToken → Bool
any_rotated hash [] = false
any_rotated hash (t ∷ ts) = is_rotated hash t || any_rotated hash ts

-- `Rotate`: one statement revokes the token and inserts its successor, if there was one to revoke.
unfoldable pub rotate : String → RefreshToken → List RefreshToken → Bool × List RefreshToken
rotate hash next ts =
    if any_rotated hash ts then (true, next ∷ rotate_rows hash next ts) else (false, ts)

unfoldable pub revoke_by_family_id : String → ℕ → List RefreshToken → List RefreshToken
revoke_by_family_id family now [] = []
revoke_by_family_id family now (t ∷ ts) =
    (if str_eq t.family_id family && not (is_revoked t)
      then record t { revoked_at = some now }
      else t)
    ∷ revoke_by_family_id family now ts
