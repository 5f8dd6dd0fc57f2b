-- ===== src/Dashboard/Sessions/Rotation.antt =====
-- A refresh token works once: it is replaced when it is used, and using it again ends the user's
-- sessions.
use promptmeter.Prelude.{
  hex_encode, ◌+◌, ◌++◌, not, ◌&&◌, ℕ, ◌≡◌, ◌≢◌, refl, sym, ap, ◌∙◌, inl, inr, true, false, Option,
  none, some, List, [], ◌∷◌, Str, str_eq, str_eq_refl, str_eq_iff, is_some, All, map, Bool-cases,
  Option-cases,
}
use promptmeter.Auth.Jwt.{Codec}
use promptmeter.Auth.RefreshText.{refresh_token_prefix, generate_refresh_token, hash_refresh_token}
use promptmeter.Domain.Account.{User, RefreshToken}
use promptmeter.Domain.Time.{Time}
use promptmeter.Storage.Redis.{Got}
use promptmeter.Storage.RefreshTokens.{
  NewToken, create_refresh_token, get_refresh_token_by_hash, token_with_hash, revoke_one,
  revoke_of_user, revoke_all_user_tokens,
}
use promptmeter.Dashboard.Sessions.{
  refresh_expiry, World, RefreshOutcome, store_pair, refresh_stored, handle_refresh,
}

-- Every token of a user is revoked.
abbrev pub IsSignedOut : Str → List RefreshToken → Type 0
IsSignedOut user_id rows = All (λ row. row.user_id ≡ user_id → is_some row.revoked_at ≡ true) rows

revoke_of_user-user_id :
    (user_id : Str) (now : Time) (row : RefreshToken)
    → (revoke_of_user user_id now row).user_id ≡ row.user_id
unfolding revoke_of_user
revoke_of_user-user_id user_id now row =
    elim (Bool-cases (str_eq row.user_id user_id && not (is_some row.revoked_at))) [
      | inl e ↦ rw e refl
      | inr e ↦ rw e refl
    ]

revoke_of_user-token_hash :
    (user_id : Str) (now : Time) (row : RefreshToken)
    → (revoke_of_user user_id now row).token_hash ≡ row.token_hash
unfolding revoke_of_user
revoke_of_user-token_hash user_id now row =
    elim (Bool-cases (str_eq row.user_id user_id && not (is_some row.revoked_at))) [
      | inl e ↦ rw e refl
      | inr e ↦ rw e refl
    ]

revoke_of_user-revoked :
    (user_id : Str) (now : Time) (row : RefreshToken)
    → (revoke_of_user user_id now row).user_id ≡ user_id
    → is_some (revoke_of_user user_id now row).revoked_at ≡ true
unfolding revoke_of_user
revoke_of_user-revoked user_id now row mine =
    let same =
      (str_eq_iff row.user_id user_id).1 (sym (revoke_of_user-user_id user_id now row) ∙ mine) in
    elim (Bool-cases (is_some row.revoked_at)) [
      | inl used ↦ rw (same, used) used
      | inr unused ↦ rw (same, unused) refl
    ]

map-revoke_of_user-IsSignedOut :
    (user_id : Str) (now : Time) (rows : List RefreshToken)
    → IsSignedOut user_id (map (revoke_of_user user_id now) rows)
map-revoke_of_user-IsSignedOut user_id now [] = tt
map-revoke_of_user-IsSignedOut user_id now (row ∷ rows) =
    (revoke_of_user-revoked user_id now row, map-revoke_of_user-IsSignedOut user_id now rows)

revoke_one-token_hash :
    (id : Str) (now : Time) (row : RefreshToken)
    → (revoke_one id now row).token_hash ≡ row.token_hash
unfolding revoke_one
revoke_one-token_hash id now row = elim (Bool-cases (str_eq row.id id)) [
  | inl e ↦ rw e refl
  | inr e ↦ rw e refl
]

abbrev found_or : RefreshToken → Got RefreshToken → RefreshToken
found_or row (Got.found t) = t
found_or row _ = row

revoke_one-id :
    (now : Time) (t : RefreshToken) → revoke_one t.id now t ≡ record t { revoked_at = some now }
unfolding revoke_one
revoke_one-id now t = rw (str_eq_refl t.id) refl

-- Revoking the row that a hash finds leaves it found, and revoked.
pub token_with_hash-map-revoke_one :
    (h : Str) (now : Time) (rows : List RefreshToken) (t : RefreshToken)
    → token_with_hash h rows ≡ Got.found t
    → token_with_hash h (map (revoke_one t.id now) rows)
      ≡ Got.found (record t { revoked_at = some now })
unfolding token_with_hash
token_with_hash-map-revoke_one h now [] t e = absurd (cc)
token_with_hash-map-revoke_one h now (row ∷ rows) t e =
    elim (Bool-cases (str_eq row.token_hash h)) [
      | inl hit ↦
          let reads : token_with_hash h (row ∷ rows) ≡ Got.found row =
            rw (token_with_hash, hit) refl in
          let same : row ≡ t = ap (found_or row) (sym reads ∙ e) in
          let again : str_eq (revoke_one t.id now row).token_hash h ≡ true =
            ap (λ x. str_eq x h) (revoke_one-token_hash t.id now row) ∙ hit in
          rw again (ap Got.found (ap (revoke_one t.id now) same ∙ revoke_one-id now t))
      | inr miss ↦
          rw (revoke_one-token_hash t.id now row, miss)
            (token_with_hash-map-revoke_one h now rows t
              (sym (rw (token_with_hash, miss) refl) ∙ e))
    ]

-- What the presentation of a refresh token that is revoked leaves.
pub handle_refresh-revoked :
    (codec : Codec) (sha256 : Str → List ℕ) (secret : Str) (w : World) (value : Str)
    (rows : List RefreshToken) (t : RefreshToken)
    → value ≢ []
    → get_refresh_token_by_hash w.select_fails rows (hash_refresh_token sha256 value) ≡ Got.found t
    → is_some t.revoked_at ≡ true
    → w.revoke_all_fails ≡ false
    → handle_refresh codec sha256 secret w (some value) rows
      ≡ (RefreshOutcome.reuse_detected, map (revoke_of_user t.user_id w.now) rows)
unfolding handle_refresh refresh_stored revoke_all_user_tokens
handle_refresh-revoked codec sha256 secret w [] rows t sent found used works = absurd (sent refl)
handle_refresh-revoked codec sha256 secret w (c ∷ value) rows t sent found used works =
    rw (found, used, works) refl

-- Whoever presents a refresh token that is revoked is told so, and where the UPDATE succeeds every
-- token of its user is revoked then.
pub handle_refresh-reuse :
    (codec : Codec) (sha256 : Str → List ℕ) (secret : Str) (w : World) (value : Str)
    (rows : List RefreshToken) (t : RefreshToken)
    → value ≢ []
    → get_refresh_token_by_hash w.select_fails rows (hash_refresh_token sha256 value) ≡ Got.found t
    → is_some t.revoked_at ≡ true
    → w.revoke_all_fails ≡ false
    → ((handle_refresh codec sha256 secret w (some value) rows).0 ≡ RefreshOutcome.reuse_detected)
      × IsSignedOut t.user_id (handle_refresh codec sha256 secret w (some value) rows).1
handle_refresh-reuse codec sha256 secret w value rows t sent found used works =
    rw (handle_refresh-revoked codec sha256 secret w value rows t sent found used works)
      (refl, map-revoke_of_user-IsSignedOut t.user_id w.now rows)

-- The token that stands first, if it is of the user, is found by its hash as revoked.
pub found_revoked :
    (user_id : Str) (now : Time) (new : RefreshToken) (rows : List RefreshToken)
    → new.user_id ≡ user_id
    → (gone : RefreshToken) × (token_with_hash new.token_hash
          (map (revoke_of_user user_id now) (new ∷ rows))
        ≡ Got.found gone)
      × (is_some gone.revoked_at ≡ true)
unfolding token_with_hash
found_revoked user_id now new rows mine =
    let same_hash : (revoke_of_user user_id now new).token_hash ≡ new.token_hash =
      revoke_of_user-token_hash user_id now new in
    (
      revoke_of_user user_id now new,
      rw (ap (λ h. str_eq h new.token_hash) same_hash, str_eq_refl new.token_hash) refl,
      revoke_of_user-revoked user_id now new (revoke_of_user-user_id user_id now new ∙ mine),
    )

-- A table that holds one more token, of the user and with the hash of the plaintext.
abbrev pub IsReplaced : (Str → List ℕ) → Str → Str → List RefreshToken → List RefreshToken → Type 0
IsReplaced sha256 user_id plaintext rows rows' =
    (new : RefreshToken) × (rows' ≡ new ∷ rows)
    × (new.token_hash ≡ hash_refresh_token sha256 plaintext)
    × (new.user_id ≡ user_id)

abbrev pair_or : Option (Str × Str × List RefreshToken) → Str × Str × List RefreshToken
pair_or none = ([], [], [])
pair_or (some r) = r

abbrev stored_row : World → NewToken → User → Str → RefreshToken
stored_row w given user hash = record {
  id = given.id;
  user_id = user.id;
  token_hash = hash;
  expires_at = w.now + refresh_expiry;
  revoked_at = none;
  created_at = given.created_at;
}

unissued : {r : Str × Str × List RefreshToken} → none ≢ some r
unissued e = cc

module _ (codec : Codec) (sha256 : Str → List ℕ) (secret : Str) (w : World) where
  pub store_pair-IsReplaced :
      (user : User) (rows rows' : List RefreshToken) (j : Option Str) (random : Option (List ℕ))
      (jwt p : Str)
      → store_pair codec sha256 secret w user rows j (generate_refresh_token sha256 random)
        ≡ some (jwt, p, rows')
      → IsReplaced sha256 user.id p rows rows'
  unfolding store_pair generate_refresh_token create_refresh_token
  store_pair-IsReplaced user rows rows' none random jwt p e = absurd (cc)
  store_pair-IsReplaced user rows rows' (some x) none jwt p e = absurd (cc)
  store_pair-IsReplaced user rows rows' (some x) (some buf) jwt p e =
      elim (Option-cases w.inserted) [
        | inl failed ↦
            absurd (unissued (sym (rw (store_pair, create_refresh_token, failed) refl) ∙ e))
        | inr (given, ok) ↦
            let text = refresh_token_prefix ++ hex_encode buf in
            let new = stored_row w given user (hash_refresh_token sha256 text) in
            let gives : store_pair codec sha256 secret w user rows (some x)
                  (generate_refresh_token sha256 (some buf))
                ≡ some (x, text, new ∷ rows) =
              rw (store_pair, create_refresh_token, ok) refl in
            let issued = sym e ∙ gives in
            (
              new,
              ap (λ o. (pair_or o).2) issued,
              ap (hash_refresh_token sha256) (sym (ap (λ o. (pair_or o).1) issued)),
              refl,
            )
      ]
