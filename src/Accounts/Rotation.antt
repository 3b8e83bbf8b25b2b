-- ===== src/Accounts/Rotation.antt =====
-- backend/app/services/auth.py and backend/app/api/auth.py: tokens that are presented again.
use cohort_switch.Prelude.{
  ℕ, ◌≡◌, refl, sym, ◌∙◌, ap, subst, String, Option, none, some, Bool, true, false, not, ◌&&◌, ◌||◌,
  List, [], ◌∷◌, ◌++◌, any, inl, inr, arith, All, Bool-cases, ◌==◌, leb, str_eq, if◌then◌else◌,
}
use cohort_switch.Errors.{
  Result, ok, err, ok-injective, api, api_error, integrity_error, value_error, type_error,
  key_error, overflow_error, raise_if, >>=-eq-ok,
}
use cohort_switch.Flags.Tables.{find_where, update_where, or_raise, is_none}
use cohort_switch.Flags.Store.Lists.{All-update_where, find_where-update_where}
use cohort_switch.Accounts.{
  RefreshToken, TokenPair, Tokens, Issuer, reused, has_hash, new_token, add_token, revoke,
  revoke_user, replace_token, rotate_active, keep_on_error, rotate_found, rotate_by,
  rotate_refresh_token, commit_refresh, refresh,
}

-- No token of the user is active.
abbrev pub HasNoActive : ℕ → Tokens → Type 0
HasNoActive user_id s = All (λ t. t.user_id ≡ user_id → is_none t.revoked_at ≡ false) s.tokens

All-unit {ℓ} : {A : Type ℓ} (xs : List A) → All (λ _. Unit {0}) xs
All-unit [] = tt
All-unit (x ∷ xs) = (tt, All-unit xs)

revoke_user-HasNoActive :
    (issuer : Issuer) (now user_id : ℕ) (s : Tokens)
    → HasNoActive user_id (revoke_user issuer now user_id s)
unfolding revoke_user
revoke_user-HasNoActive issuer now user_id s =
    All-update_where (λ _. Unit {0})
      (λ (t : RefreshToken). t.user_id ≡ user_id → is_none t.revoked_at ≡ false)
      (λ t. t.user_id == user_id && is_none t.revoked_at) (revoke issuer now) (λ t _ _ _. refl)
      (λ t _ miss own. ground arith) s.tokens (All-unit s.tokens)

module _ (issuer : Issuer) (now : ℕ) where
  -- Presenting a token that is revoked is refused, and leaves its user without an active token.
  pub refresh-reused :
      (raw new_raw : String) (s : Tokens) (token : RefreshToken) (at : ℕ)
      → find_where (has_hash issuer now raw) s.tokens ≡ some token
      → token.revoked_at ≡ some at
      → (s' : Tokens) × (refresh issuer now raw new_raw s ≡ (err reused, s'))
        × HasNoActive token.user_id s'
  unfolding refresh rotate_refresh_token commit_refresh rotate_by rotate_found
  refresh-reused raw new_raw s token at found revoked = (
    revoke_user issuer now token.user_id s,
    ap (λ o. commit_refresh issuer now s (rotate_by issuer now o new_raw s)) found
        ∙ ap (λ r. commit_refresh issuer now s (rotate_found issuer now r token new_raw s)) revoked,
    revoke_user-HasNoActive issuer now token.user_id s,
  )

  commit_refresh-ok :
      (before : Tokens) (r : Result TokenPair × Tokens) (pair : TokenPair) (after : Tokens)
      → commit_refresh issuer now before r ≡ (ok pair, after)
      → r ≡ (ok pair, after)
  unfolding commit_refresh
  commit_refresh-ok before (ok p, s) pair after h = h
  commit_refresh-ok before (err (api_error status code message info), s) pair after h =
      elim (Bool-cases
        (str_eq code "refresh_token_reused" || str_eq code "refresh_token_expired")) [
          | inl kept ↦ absurd (let e = ap (λ x. x.0) (rw kept at h) in cc)
          | inr undone ↦ absurd (let e = ap (λ x. x.0) (rw undone at h) in cc)
        ]
  commit_refresh-ok before (err integrity_error, s) pair after h =
      absurd (let e = ap (λ x. x.0) h in cc)
  commit_refresh-ok before (err value_error, s) pair after h =
      absurd (let e = ap (λ x. x.0) h in cc)
  commit_refresh-ok before (err type_error, s) pair after h = absurd (let e = ap (λ x. x.0) h in cc)
  commit_refresh-ok before (err key_error, s) pair after h = absurd (let e = ap (λ x. x.0) h in cc)
  commit_refresh-ok before (err overflow_error, s) pair after h =
      absurd (let e = ap (λ x. x.0) h in cc)

  -- A rotation adds a token and marks the old one.
  abbrev Rotated : RefreshToken → Tokens → Tokens → Type 0
  Rotated token s s' =
      (added : RefreshToken) × (replacement : ℕ) × (s'.tokens
        ≡ update_where (λ t. t.id == token.id)
            (λ t. record t { revoked_at = some now; replaced_by_id = some replacement })
            (s.tokens ++ (added ∷ [])))

  rotate_active_rotates :
      (token : RefreshToken) (raw : String) (s : Tokens) (pair : TokenPair) (s' : Tokens)
      → rotate_active issuer now token raw s ≡ ok (pair, s')
      → Rotated token s s'
  unfolding rotate_active replace_token
  rotate_active_rotates token raw s pair s' h =
      let inactive = api 401 "account_inactive" "The account is inactive." in
      let (user, h₁, r₁) =
        >>=-eq-ok (or_raise (find_where (λ u. u.id == token.user_id) s.users) inactive) _ h in
      let (u, h₂, r₂) = >>=-eq-ok (raise_if (not user.is_active) inactive) _ r₁ in
      let (s₃, h₃, r₃) = >>=-eq-ok (add_token issuer now user.id raw s) _ r₂ in
      let (v, h₄, r₄) =
        >>=-eq-ok (raise_if (any (has_hash issuer now raw) s.tokens) integrity_error) _ h₃ in
      let same : replace_token issuer now token s.next_id s₃ ≡ s' =
        ap (λ x. x.1) (ok-injective r₃) in
      let rows = ap (λ (x : Tokens). x.tokens) (ok-injective r₄) in
      (
        new_token issuer now s.next_id user.id raw,
        s.next_id,
        ap (λ (x : Tokens). x.tokens) (sym same)
            ∙ ap
                (update_where (λ t. t.id == token.id)
                  (λ t. record t { revoked_at = some now; replaced_by_id = some s.next_id }))
                (sym rows),
      )

  keep_on_error-ok :
      (s : Tokens) (r : Result (TokenPair × Tokens)) (pair : TokenPair) (s' : Tokens)
      → keep_on_error issuer now s r ≡ (ok pair, s')
      → r ≡ ok (pair, s')
  keep_on_error-ok s (ok (p, t)) pair s' h =
      ap (λ (x : TokenPair). ok (x, t)) (ok-injective (ap (λ x. x.0) h))
      ∙ ap (λ (x : Tokens). ok (pair, x)) (ap (λ x. x.1) h)
  keep_on_error-ok s (err e) pair s' h = absurd (let e' = ap (λ x. x.0) h in cc)

  rotate_found_rotates :
      (r : Option ℕ) (token : RefreshToken) (raw : String) (s : Tokens) (pair : TokenPair)
      (s' : Tokens)
      → rotate_found issuer now r token raw s ≡ (ok pair, s')
      → Rotated token s s'
  unfolding rotate_found
  rotate_found_rotates (some at) token raw s pair s' h = absurd (let e = ap (λ x. x.0) h in cc)
  rotate_found_rotates none token raw s pair s' h = elim (Bool-cases (leb token.expires_at now)) [
    | inl late ↦ absurd (let e = ap (λ x. x.0) (rw late at h) in cc)
    | inr alive ↦
        rotate_active_rotates token raw s pair s'
          (keep_on_error-ok s (rotate_active issuer now token raw s) pair s' (rw alive at h))
  ]

  rotate_by_rotates :
      (o : Option RefreshToken) (raw : String) (s : Tokens) (pair : TokenPair) (s' : Tokens)
      → rotate_by issuer now o raw s ≡ (ok pair, s')
      → (token : RefreshToken) × (o ≡ some token) × Rotated token s s'
  unfolding rotate_by
  rotate_by_rotates none raw s pair s' h = absurd (let e = ap (λ x. x.0) h in cc)
  rotate_by_rotates (some token) raw s pair s' h =
      (token, refl, rotate_found_rotates token.revoked_at token raw s pair s' h)

find_where-append {ℓ} :
    {A : Type ℓ} (p : A → Bool) (xs ys : List A) {a : A}
    → find_where p xs ≡ some a
    → find_where p (xs ++ ys) ≡ some a
find_where-append p [] ys h = absurd (cc)
find_where-append p (x ∷ xs) ys h = elim (Bool-cases (p x)) [
  | inl hit ↦ rw hit (rw hit at h)
  | inr miss ↦ rw miss (find_where-append p xs ys (rw miss at h))
]

module _ (issuer : Issuer) (now later : ℕ) (raw new_raw other_raw : String) (s s' : Tokens)
    (pair : TokenPair) where
  spent :
      (token : RefreshToken)
      → find_where (has_hash issuer now raw) s.tokens ≡ some token
      → Rotated issuer now token s s'
      → (old : RefreshToken) × (find_where (has_hash issuer later raw) s'.tokens ≡ some old)
        × (old.user_id ≡ token.user_id)
        × (old.revoked_at ≡ some now)
  spent token found (added, replacement, rows) =
      let mark = λ (t : RefreshToken). record t {
        revoked_at = some now;
        replaced_by_id = some replacement;
      } in
      let own : (token.id == token.id) ≡ true = ground arith in
      (
        mark token,
        ap (find_where (has_hash issuer later raw)) rows
            ∙ find_where-update_where (has_hash issuer later raw) (λ t. t.id == token.id)
                (λ t. record t { revoked_at = some now; replaced_by_id = some replacement })
                (λ t. refl) _
                (find_where-append (has_hash issuer later raw) s.tokens (added ∷ []) found)
            ∙ ap
                (λ b. some (
                  if b
                  then record token { revoked_at = some now; replaced_by_id = some replacement }
                  else token))
                own,
        refl,
        refl,
      )

  -- A token that was exchanged is refused when it is presented again, and its user is then left
  -- without an active token, the replacement included.
  pub refresh_twice :
      refresh issuer now raw new_raw s ≡ (ok pair, s')
      → (token : RefreshToken) × (s'' : Tokens) × (find_where (has_hash issuer now raw) s.tokens
          ≡ some token)
        × (refresh issuer later raw other_raw s' ≡ (err reused, s''))
        × HasNoActive token.user_id s''
  unfolding refresh rotate_refresh_token
  refresh_twice h =
      let (token, found, rotated) =
        rotate_by_rotates issuer now (find_where (has_hash issuer now raw) s.tokens) new_raw s pair
          s' (commit_refresh-ok issuer now s _ pair s' h) in
      let (old, found', same, revoked) = spent token found rotated in
      let (s'', refused, quiet) =
        refresh-reused issuer later raw other_raw s' old now found' revoked in
      (token, s'', found, refused, subst (λ u. HasNoActive u s'') same quiet)
