-- ===== src/Session/Ceilings.antt =====
-- The ceiling of a session, which a login sets, under refreshes.
use training_center_back.Prelude.{
  ℕ, ◌≤◌, String, Bool, true, false, Option, none, some, List, [], ◌∷◌, ◌≡◌, refl, sym, ◌∙◌, subst,
  arith, str_eq, Bool-cases, Option-cases, inl, inr, All,
}
use training_center_back.Apperror.{Error, Result, ok, err, Result-cases}
use training_center_back.Session.Tokens.{
  RefreshToken, is_revoked, is_expired, within_grace_window, new_refresh_token_with_ceiling,
  successor, find_by_token_hash, rotate, rotate_rows, any_rotated, is_rotated, revoke_by_family_id,
}
use training_center_back.Session.Refresh.{
  RefreshInput, Services, Answer, unless_fault, refresh_stored, check_rate_limit, judge_reuse,
  handle_already_revoked, conclude_rotation, exchange, refresh_token_found, refresh_for_user,
  refresh_secret, refresh,
}

-- The tokens of a family end at `b` at the latest.
abbrev pub EndsBy : String → ℕ → RefreshToken → Type 0
EndsBy f b t = t.family_id ≡ f → t.absolute_expires_at ≤ b

abbrev pub WithinCeiling : String → ℕ → List RefreshToken → Type 0
WithinCeiling f b ts = All (EndsBy f b) ts

module _ (f : String) (b : ℕ) where
  find-EndsBy :
      (hash : String) (ts : List RefreshToken) {t : RefreshToken}
      → WithinCeiling f b ts
      → find_by_token_hash hash ts ≡ some t
      → EndsBy f b t
  unfolding find_by_token_hash
  find-EndsBy hash [] w h = cc
  find-EndsBy hash (x ∷ ts) {t} (e, w) h = elim (Bool-cases (str_eq x.token_hash hash)) [
    | inl hit ↦ subst (EndsBy f b) (the_first hit) e
    | inr miss ↦ find-EndsBy hash ts {t = t} w (ground arith)
  ]
    where
      the_first : str_eq x.token_hash hash ≡ true → x ≡ t
      the_first hit = ground arith

  successor-EndsBy :
      (t : RefreshToken) (id hash : String) (agent ip : Option String) (now : ℕ) {n : RefreshToken}
      → successor t id hash agent ip now ≡ ok n
      → EndsBy f b t
      → EndsBy f b n
  unfolding successor new_refresh_token_with_ceiling
  successor-EndsBy t id hash agent ip now {n} h e same =
      subst (λ x. x ≤ b) (sym kept.1) (e (sym kept.0 ∙ same))
    where
      kept : (n.family_id ≡ t.family_id) × (n.absolute_expires_at ≡ t.absolute_expires_at)
      kept = ground arith

  rotate_rows-WithinCeiling :
      (hash : String) (n : RefreshToken) (ts : List RefreshToken)
      → WithinCeiling f b ts
      → WithinCeiling f b (rotate_rows hash n ts)
  unfolding rotate_rows
  rotate_rows-WithinCeiling hash n [] w = tt
  rotate_rows-WithinCeiling hash n (x ∷ ts) (e, w) = elim (Bool-cases (is_rotated hash x)) [
    | inl hit ↦ rw hit (e, rotate_rows-WithinCeiling hash n ts w)
    | inr miss ↦ rw miss (e, rotate_rows-WithinCeiling hash n ts w)
  ]

  rotate-WithinCeiling :
      (hash : String) (n : RefreshToken) (ts : List RefreshToken)
      → EndsBy f b n
      → WithinCeiling f b ts
      → WithinCeiling f b (rotate hash n ts).1
  unfolding rotate
  rotate-WithinCeiling hash n ts e w = elim (Bool-cases (any_rotated hash ts)) [
    | inl hit ↦ rw hit (e, rotate_rows-WithinCeiling hash n ts w)
    | inr miss ↦ rw miss w
  ]

  revoke-WithinCeiling :
      (family : String) (now : ℕ) (ts : List RefreshToken)
      → WithinCeiling f b ts
      → WithinCeiling f b (revoke_by_family_id family now ts)
  unfolding revoke_by_family_id
  revoke-WithinCeiling family now [] w = tt
  revoke-WithinCeiling family now (x ∷ ts) (e, w) = elim (Bool-cases (str_eq x.family_id family)) [
    | inr miss ↦ rw miss (e, revoke-WithinCeiling family now ts w)
    | inl hit ↦ elim (Bool-cases (is_revoked x)) [
      | inl old ↦ rw (hit, old) (e, revoke-WithinCeiling family now ts w)
      | inr live ↦ rw (hit, live) (e, revoke-WithinCeiling family now ts w)
    ]
  ]

  unless_fault-WithinCeiling :
      (fault : Option Error) (ts : List RefreshToken) (answer : Answer)
      → WithinCeiling f b ts
      → WithinCeiling f b answer.1
      → WithinCeiling f b (unless_fault fault ts answer).1
  unless_fault-WithinCeiling none ts answer w v = v
  unless_fault-WithinCeiling (some e) ts answer w v = w

  module _ (env : Services) where
    judge_reuse-WithinCeiling :
        (family : String) (now : ℕ) (user_id : String) (current : Option RefreshToken)
        (ts : List RefreshToken)
        → WithinCeiling f b ts
        → WithinCeiling f b (judge_reuse env family now user_id current ts).1
    unfolding judge_reuse
    judge_reuse-WithinCeiling family now user_id none ts w = w
    judge_reuse-WithinCeiling family now user_id (some c) ts w = elim (Bool-cases (is_revoked c)) [
      | inr live ↦ rw live w
      | inl old ↦ elim (Bool-cases (within_grace_window c now)) [
        | inl soon ↦ rw (old, soon) w
        | inr late ↦
            rw (old, late)
              (unless_fault-WithinCeiling env.revoke_fault ts _ w
                (revoke-WithinCeiling family now ts w))
      ]
    ]

    handle-WithinCeiling :
        (hash family : String) (now : ℕ) (user_id : String) (ts : List RefreshToken)
        → WithinCeiling f b ts
        → WithinCeiling f b (handle_already_revoked env hash family now user_id ts).1
    unfolding handle_already_revoked
    handle-WithinCeiling hash family now user_id ts w = elim (Option-cases (env.cached hash)) [
      | inr (out, e) ↦ rw (e, handle_already_revoked) w
      | inl miss ↦
          rw (miss, handle_already_revoked)
            (unless_fault-WithinCeiling env.find_again_fault ts _ w
              (judge_reuse-WithinCeiling family now user_id (find_by_token_hash hash ts) ts w))
    ]

    conclude-WithinCeiling :
        (t n : RefreshToken) (access wrapped : String) (now : ℕ) (r : Bool × List RefreshToken)
        → WithinCeiling f b r.1
        → WithinCeiling f b (conclude_rotation env t n access wrapped now r).1
    unfolding conclude_rotation
    conclude-WithinCeiling t n access wrapped now (true, ts) w = w
    conclude-WithinCeiling t n access wrapped now (false, ts) w =
        handle-WithinCeiling t.token_hash t.family_id now t.user_id ts w

    module _
        (others : (us : List RefreshToken)
          → WithinCeiling f b us
          → WithinCeiling f b (env.meanwhile us)) where
      exchange-WithinCeiling :
          (t n : RefreshToken) (secret : String) (now : ℕ) (ts : List RefreshToken)
          → EndsBy f b n
          → WithinCeiling f b ts
          → WithinCeiling f b (exchange env t n secret now ts).1
      unfolding exchange
      exchange-WithinCeiling t n secret now ts e w =
          elim (Result-cases (env.generate_token t.user_id t.family_id)) [
            | inl (x, p) ↦ rw (p, exchange) w
            | inr (access, p) ↦ elim (Result-cases (env.wrap secret t.user_id)) [
              | inl (x, q) ↦ rw (p, exchange, q) w
              | inr (wrapped, q) ↦
                  rw (p, exchange, q)
                    (unless_fault-WithinCeiling env.rotate_fault (env.meanwhile ts) _ (others ts w)
                      (conclude-WithinCeiling t n access wrapped now
                        (rotate t.token_hash n (env.meanwhile ts))
                        (rotate-WithinCeiling t.token_hash n (env.meanwhile ts) e (others ts w))))
            ]
          ]

      found-WithinCeiling :
          (input : RefreshInput) (t : RefreshToken) (now : ℕ) (ts : List RefreshToken)
          → EndsBy f b t
          → WithinCeiling f b ts
          → WithinCeiling f b (refresh_token_found env input t now ts).1
      unfolding refresh_token_found
      found-WithinCeiling input t now ts e w = elim (Bool-cases (is_revoked t)) [
        | inl old ↦ rw old (handle-WithinCeiling t.token_hash t.family_id now t.user_id ts w)
        | inr live ↦ elim (Bool-cases (is_expired t now)) [
          | inl over ↦ rw (live, over) w
          | inr valid ↦ elim (Option-cases env.new_secret) [
            | inl p ↦ rw (live, valid, p) w
            | inr (secret, p) ↦
                elim (Result-cases (
                  successor t env.new_id (env.hash secret) input.user_agent input.ip_address now)) [
                    | inl (x, q) ↦ rw (live, valid, p, q) w
                    | inr (n, q) ↦
                        rw (live, valid, p, q)
                          (exchange-WithinCeiling t n secret now ts
                            (successor-EndsBy t env.new_id (env.hash secret) input.user_agent
                              input.ip_address now q e)
                            w)
                  ]
          ]
        ]
      ]

      user-WithinCeiling :
          (input : RefreshInput) (t : RefreshToken) (u : Result (Option Bool)) (now : ℕ)
          (ts : List RefreshToken)
          → EndsBy f b t
          → WithinCeiling f b ts
          → WithinCeiling f b (refresh_for_user env input t u now ts).1
      unfolding refresh_for_user
      user-WithinCeiling input t (err x) now ts e w = w
      user-WithinCeiling input t (ok none) now ts e w = w
      user-WithinCeiling input t (ok (some false)) now ts e w = w
      user-WithinCeiling input t (ok (some true)) now ts e w =
          found-WithinCeiling input t now ts e w

      secret-WithinCeiling :
          (input : RefreshInput) (secret : String) (now : ℕ) (ts : List RefreshToken)
          → WithinCeiling f b ts
          → WithinCeiling f b (refresh_secret env input secret now ts).1
      unfolding refresh_secret refresh_stored
      secret-WithinCeiling input secret now ts w =
          unless_fault-WithinCeiling env.find_fault ts _ w (
            stored (find_by_token_hash (env.hash secret) ts)
              (λ t q. find-EndsBy (env.hash secret) ts {t = t} w q))
        where
          stored :
              (o : Option RefreshToken)
              → ((t : RefreshToken) → o ≡ some t → EndsBy f b t)
              → WithinCeiling f b (refresh_stored env input o now ts).1
          stored none k = w
          stored (some t) k =
              user-WithinCeiling input t (env.find_user t.user_id) now ts (k t refl) w

      -- If the other requests keep the ceiling of a family of tokens, a refresh keeps it on every
      -- branch: no token of the family, old or new, expires after it.
      pub refresh-WithinCeiling :
          (input : RefreshInput) (now : ℕ) (ts : List RefreshToken)
          → WithinCeiling f b ts
          → WithinCeiling f b (refresh env input now ts).1
      unfolding refresh
      refresh-WithinCeiling input now ts w = elim (Bool-cases (str_eq input.refresh_token "")) [
        | inl p ↦ rw p w
        | inr p ↦ elim (Result-cases (env.unwrap input.refresh_token)) [
          | inl (x, q) ↦ rw (p, q) w
          | inr ((secret, u), q) ↦ elim (Result-cases (check_rate_limit env u)) [
            | inl (x, r) ↦ rw (p, q, r) w
            | inr (_, r) ↦ rw (p, q, r) (secret-WithinCeiling input secret now ts w)
          ]
        ]
      ]
