-- ===== src/Accounts/Tests.antt =====
-- The theorems on refresh tokens at concrete inputs.
use cohort_switch.Prelude.{◌≡◌, refl, true, none, some, [], ◌∷◌}
use cohort_switch.Errors.{ok, err}
use cohort_switch.Flags.Tables.{find_where}
use cohort_switch.Accounts.{RefreshToken, TokenPair, Tokens, Issuer, reused, has_hash, refresh}
use cohort_switch.Accounts.Rotation.{HasNoActive, refresh_twice}

abbrev plain_issuer : Issuer
plain_issuer = record {
  hash_secret = λ s. s;
  access_token = λ user now. "access";
  access_ttl = 900;
  refresh_ttl = 1000;
}

abbrev first_token : RefreshToken
first_token = record {
  id = 1;
  user_id = 7;
  token_hash = "a";
  expires_at = 500;
  revoked_at = none;
  replaced_by_id = none;
}

abbrev session_rows : Tokens
session_rows = record {
  users = record { id = 7; email = "alice@example.com"; is_active = true } ∷ [];
  tokens = first_token ∷ [];
  next_id = 2;
}

exchanged :
    (pair : TokenPair) × (s : Tokens) × (refresh plain_issuer 100 "a" "b" session_rows
      ≡ (ok pair, s))
unfolding refresh
exchanged = (_, _, refl)

refresh_twice_example :
    (token : RefreshToken) × (s : Tokens) × (find_where
        (has_hash plain_issuer 100 "a")
        session_rows.tokens
      ≡ some token)
    × (refresh plain_issuer 200 "a" "c" exchanged.1 ≡ (err reused, s))
    × HasNoActive token.user_id s
refresh_twice_example =
    refresh_twice plain_issuer 100 200 "a" "b" "c" session_rows exchanged.1 exchanged.0 exchanged.2

abbrev revoked_token : RefreshToken
revoked_token = record first_token { revoked_at = some 50 }
