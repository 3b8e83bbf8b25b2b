-- ===== src/Accounts.antt =====
-- backend/app/services/auth.py and backend/app/api/auth.py: refresh tokens, their rotation and logout.
pub mod Rotation
mod Tests
use cohort_switch.Prelude.{
  ℕ, ◌+◌, suc, String, Option, none, some, Bool, true, false, not, ◌&&◌, ◌||◌, List, [], ◌∷◌, ◌++◌,
  any, ◌==◌, leb, str_eq, if◌then◌else◌,
}
use cohort_switch.Errors.{
  Error, Result, ok, err, api, api_error, integrity_error, raise_if, ◌>>=◌, ◌>>◌,
}
use cohort_switch.Access.{User}
use cohort_switch.Flags.Tables.{find_where, update_where, or_raise, is_none}

pub record RefreshToken : Type 0 where
  pub id : ℕ
  pub user_id : ℕ
  pub token_hash : String
  pub expires_at : ℕ
  pub revoked_at : Option ℕ
  pub replaced_by_id : Option ℕ

pub record TokenPair : Type 0 where
  pub access_token : String
  pub refresh_token : String
  pub expires_in : ℕ

-- The tables of the accounts. `next_id` is above every id that has been drawn.
pub record Tokens : Type 0 where
  pub users : List User
  pub tokens : List RefreshToken
  pub next_id : ℕ

-- What the settings, `hash_secret` (SHA-256) and `create_access_token` are.
pub record Issuer : Type 0 where
  pub hash_secret : String → String
  pub access_token : ℕ → ℕ → String
  pub access_ttl : ℕ
  pub refresh_ttl : ℕ

abbrev pub reused : Error
reused = api 401 "refresh_token_reused" "Refresh token reuse was detected."

abbrev pub expired : Error
expired = api 401 "refresh_token_expired" "Refresh token has expired."

module _ (issuer : Issuer) (now : ℕ) where
  abbrev pub has_hash : String → RefreshToken → Bool
  has_hash raw t = str_eq t.token_hash (issuer.hash_secret raw)

  abbrev pub new_token : ℕ → ℕ → String → RefreshToken
  new_token id user_id raw = record {
    id = id;
    user_id = user_id;
    token_hash = issuer.hash_secret raw;
    expires_at = now + issuer.refresh_ttl;
    revoked_at = none;
    replaced_by_id = none;
  }

  abbrev pub pair_for : ℕ → String → TokenPair
  pair_for user_id raw = record {
    access_token = issuer.access_token user_id now;
    refresh_token = raw;
    expires_in = issuer.access_ttl;
  }

  -- the unique hash, which the flush of a new token tests
  abbrev pub add_token : ℕ → String → Tokens → Result Tokens
  add_token user_id raw s =
      raise_if (any (has_hash raw) s.tokens) integrity_error
      >> ok (record s {
        tokens = s.tokens ++ (new_token s.next_id user_id raw ∷ []);
        next_id = suc s.next_id;
      })

  -- `raw` is what `new_refresh_token()` draws.
  unfoldable pub issue_tokens : User → String → Tokens → Result (TokenPair × Tokens)
  issue_tokens user raw s = do s' ← add_token user.id raw s; ok (pair_for user.id raw, s')

  abbrev pub revoke : RefreshToken → RefreshToken
  revoke t = record t { revoked_at = some now }

  -- `UPDATE refresh_tokens SET revoked_at = now WHERE user_id = ... AND revoked_at IS NULL`
  unfoldable pub revoke_user : ℕ → Tokens → Tokens
  revoke_user user_id s = record s {
    tokens = update_where (λ t. t.user_id == user_id && is_none t.revoked_at) revoke s.tokens;
  }

  unfoldable pub replace_token : RefreshToken → ℕ → Tokens → Tokens
  replace_token token replacement s = record s {
    tokens =
        update_where (λ t. t.id == token.id)
          (λ t. record t { revoked_at = some now; replaced_by_id = some replacement }) s.tokens;
  }

  -- what follows the tests of the token
  unfoldable pub rotate_active : RefreshToken → String → Tokens → Result (TokenPair × Tokens)
  unfolding replace_token
  rotate_active token raw s = do
    user ←
        or_raise (find_where (λ u. u.id == token.user_id) s.users)
          (api 401 "account_inactive" "The account is inactive.")
    raise_if (not user.is_active) (api 401 "account_inactive" "The account is inactive.")
    s' ← add_token user.id raw s
    ok (pair_for user.id raw, replace_token token s.next_id s')

  -- An error leaves the rows as they were.
  abbrev pub keep_on_error : Tokens → Result (TokenPair × Tokens) → Result TokenPair × Tokens
  keep_on_error s (err e) = (err e, s)
  keep_on_error s (ok (answer, s')) = (ok answer, s')

  -- the tests of a token that was found, by `revoked_at`
  unfoldable pub rotate_found :
      Option ℕ → RefreshToken → String → Tokens → Result TokenPair × Tokens
  unfolding revoke_user rotate_active
  rotate_found (some t) token raw s = (err reused, revoke_user token.user_id s)
  rotate_found none token raw s =
      if leb token.expires_at now
      then (err expired, record s { tokens = update_where (λ t. t.id == token.id) revoke s.tokens })
      else keep_on_error s (rotate_active token raw s)

  unfoldable pub rotate_by : Option RefreshToken → String → Tokens → Result TokenPair × Tokens
  unfolding rotate_found
  rotate_by none raw s = (err (api 401 "invalid_refresh_token" "Refresh token is invalid."), s)
  rotate_by (some token) raw s = rotate_found token.revoked_at token raw s

  -- What is written before an error is raised comes back beside it. `new_raw` is what
  -- `new_refresh_token()` draws.
  unfoldable pub rotate_refresh_token : String → String → Tokens → Result TokenPair × Tokens
  unfolding rotate_by
  rotate_refresh_token raw_token new_raw s =
      rotate_by (find_where (has_hash raw_token) s.tokens) new_raw s

  -- the endpoint's commit, or rollback to the rows before the request
  unfoldable pub commit_refresh : Tokens → Result TokenPair × Tokens → Result TokenPair × Tokens
  commit_refresh before (ok answer, after) = (ok answer, after)
  commit_refresh before (err (api_error status code message info), after) =
      if str_eq code "refresh_token_reused" || str_eq code "refresh_token_expired"
      then (err (api_error status code message info), after)
      else (err (api_error status code message info), before)
  commit_refresh before (err e, after) = (err e, before)

  unfoldable pub refresh : String → String → Tokens → Result TokenPair × Tokens
  unfolding rotate_refresh_token commit_refresh
  refresh raw_token new_raw s = commit_refresh s (rotate_refresh_token raw_token new_raw s)

  -- `revoke_refresh_token`, which logout commits
  unfoldable pub revoke_refresh_token : String → Tokens → Tokens
  revoke_refresh_token raw_token s = elim (find_where (has_hash raw_token) s.tokens) [
    | none ↦ s
    | some token ↦
        if is_none token.revoked_at
        then record s { tokens = update_where (λ t. t.id == token.id) revoke s.tokens }
        else s
  ]
