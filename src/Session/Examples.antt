-- ===== src/Session/Examples.antt =====
-- The theorems on sessions at a concrete table: a token that was rotated, and its successor.
use training_center_back.Prelude.{
  String, true, false, none, some, List, [], ◌∷◌, ◌≡◌, refl, str_eq, arith,
}
use training_center_back.Apperror.{ok, err}
use training_center_back.Session.Tokens.{RefreshToken, find_by_token_hash, find_active_by_family_id}
use training_center_back.Session.Refresh.{RefreshInput, Services, refused, refresh}
use training_center_back.Session.Ceilings.{WithinCeiling, refresh-WithinCeiling}
use training_center_back.Session.Replays.{Presents, refresh-replayed}

abbrev current : RefreshToken
current = record {
  id = "t2";
  user_id = "u1";
  family_id = "f1";
  token_hash = "h2";
  issued_at = 5000000000;
  absolute_expires_at = 86400000000000;
  revoked_at = none;
  replaced_by_id = none;
  user_agent = none;
  ip_address = none;
}

abbrev rotated : RefreshToken
rotated = record current {
  id = "t1";
  token_hash = "h1";
  issued_at = 0;
  revoked_at = some 5000000000;
  replaced_by_id = some "t2";
}

abbrev tokens : List RefreshToken
tokens = current ∷ rotated ∷ []

abbrev env : Services
env = record {
  unwrap = λ t. ok (t, "u1");
  allow = λ k. ok true;
  hash = λ s. s;
  find_user = λ u. ok (some true);
  new_secret = some "h3";
  new_id = "t3";
  generate_token = λ u f. ok "access";
  wrap = λ s u. ok s;
  cached = λ h. none;
  find_fault = none;
  rotate_fault = none;
  find_again_fault = none;
  revoke_fault = none;
  find_active_fault = none;
  meanwhile = λ ts. ts;
}

abbrev asks : String → RefreshInput
asks t = record { refresh_token = t; user_agent = none; ip_address = none }

refresh-WithinCeiling_example :
    WithinCeiling "f1" 86400000000000 (refresh env (asks "h2") 60000000000 tokens).1
refresh-WithinCeiling_example =
    refresh-WithinCeiling "f1" 86400000000000 env (λ us w. w) (asks "h2") 60000000000 tokens
      ((λ e. omega arith), ((λ e. omega arith), tt))

replay : Presents env (asks "h1") "h1" "u1" rotated tokens
unfolding find_by_token_hash
replay = record {
  given = refl;
  unwrapped = refl;
  allowed = refl;
  read = refl;
  read_again = refl;
  written = refl;
  stored = refl;
  active = refl;
}

refresh-replayed_example :
    let after = refresh env (asks "h1") 60000000000 tokens in
    (after.0 ≡ err refused)
    × (find_active_by_family_id "f1" after.1 ≡ none)
    × ((other : String)
        → str_eq "f1" other ≡ false
        → find_active_by_family_id other after.1 ≡ find_active_by_family_id other tokens)
refresh-replayed_example =
    refresh-replayed env (asks "h1") "h1" "u1" rotated 5000000000 60000000000 tokens replay refl
      (omega arith) refl
