-- ===== src/Dashboard/Sessions/Replay.antt =====
-- A refresh token that was exchanged is known as used when it comes again.
use promptmeter.Prelude.{
  ℕ, ◌≡◌, ◌≢◌, refl, sym, ap, ◌∙◌, inl, inr, Bool, true, false, some, List, [], ◌∷◌, Str, str_eq,
  str_eq_iff, is_some, ltb, map, Bool-cases, Option-cases,
}
use promptmeter.Auth.Jwt.{Codec, sign_jwt}
use promptmeter.Auth.RefreshText.{hash_refresh_token}
use promptmeter.Domain.Account.{User, Organization, RefreshToken}
use promptmeter.Storage.Redis.{Got, Got-cases}
use promptmeter.Storage.RefreshTokens.{
  get_refresh_token_by_hash, token_with_hash, revoke_one, revoke_of_user, revoke_all_user_tokens,
  revoke_refresh_token,
}
use promptmeter.Dashboard.Sessions.{
  World, RefreshOutcome, issue_token_pair, refresh_pair, refresh_org, refresh_user, refresh_stored,
  handle_refresh, session_claims,
}
use promptmeter.Dashboard.Sessions.Rotation.{
  IsReplaced, store_pair-IsReplaced, token_with_hash-map-revoke_one, handle_refresh-reuse,
  handle_refresh-revoked, found_revoked, IsSignedOut,
}

-- GetUserByID gives the user with the id that is asked for.
abbrev pub IsUserById : World → Type 0
IsUserById w = (id : Str) (user : User) → w.user_by_id id ≡ Got.found user → user.id ≡ id

abbrev outcome_pair : RefreshOutcome → Str × Str
outcome_pair (RefreshOutcome.refreshed jwt p) = (jwt, p)
outcome_pair _ = ([], [])

module _ (codec : Codec) (sha256 : Str → List ℕ) (secret : Str) (w : World)
    (rows rows' : List RefreshToken) (jwt p : Str) where
  refresh_pair-IsReplaced :
      (user : User) (org : Organization)
      → refresh_pair codec sha256 secret w user org rows ≡ (RefreshOutcome.refreshed jwt p, rows')
      → IsReplaced sha256 user.id p rows rows'
  unfolding refresh_pair issue_token_pair
  refresh_pair-IsReplaced user org e =
      elim (Option-cases (issue_token_pair codec sha256 secret w user org rows)) [
        | inl failed ↦
            let gives : refresh_pair codec sha256 secret w user org rows
                ≡ (RefreshOutcome.internal_error, rows) =
              rw (refresh_pair, failed) refl in
            absurd (cc)
        | inr ((jwt', p', rows''), made) ↦
            let gives : refresh_pair codec sha256 secret w user org rows
                ≡ (RefreshOutcome.refreshed jwt' p', rows'') =
              rw (refresh_pair, made) refl in
            let issued : issue_token_pair codec sha256 secret w user org rows
                ≡ some (jwt, p, rows') =
              cc in
            store_pair-IsReplaced codec sha256 secret w user rows rows'
              (sign_jwt codec w.unix_now w.unix_now (session_claims user org) secret) w.random jwt p
              issued
      ]

  refresh_org-IsReplaced :
      (user : User) (g : Got Organization)
      → refresh_org codec sha256 secret w user rows g ≡ (RefreshOutcome.refreshed jwt p, rows')
      → IsReplaced sha256 user.id p rows rows'
  unfolding refresh_org
  refresh_org-IsReplaced user Got.failed e = absurd (cc)
  refresh_org-IsReplaced user Got.missing e = absurd (cc)
  refresh_org-IsReplaced user (Got.found org) e = refresh_pair-IsReplaced user org e

  refresh_user-IsReplaced :
      (id : Str) (g : Got User)
      → ((user : User) → g ≡ Got.found user → user.id ≡ id)
      → refresh_user codec sha256 secret w rows g ≡ (RefreshOutcome.refreshed jwt p, rows')
      → IsReplaced sha256 id p rows rows'
  unfolding refresh_user
  refresh_user-IsReplaced id Got.failed own e = absurd (cc)
  refresh_user-IsReplaced id Got.missing own e = absurd (cc)
  refresh_user-IsReplaced id (Got.found user) own e =
      let (new, table, hashed, mine) = refresh_org-IsReplaced user (w.org_by_user_id user.id) e in
      (new, table, hashed, mine ∙ own user refl)

-- A refresh that succeeds has found a token that was not revoked, and has revoked and replaced it.
module _ (codec : Codec) (sha256 : Str → List ℕ) (secret : Str) (w : World)
    (rows rows' : List RefreshToken) (jwt p : Str) (works : w.revoke_fails ≡ false)
    (own : IsUserById w) where
  refresh_found-IsReplaced :
      (t : RefreshToken)
      → refresh_stored codec sha256 secret w rows (Got.found t)
        ≡ (RefreshOutcome.refreshed jwt p, rows')
      → IsReplaced sha256 t.user_id p (map (revoke_one t.id w.now) rows) rows'
  unfolding refresh_stored
  refresh_found-IsReplaced t e = elim (Bool-cases (is_some t.revoked_at)) [
    | inl used ↦
        let gives : refresh_stored codec sha256 secret w rows (Got.found t) ≡ (
          RefreshOutcome.reuse_detected,
          revoke_all_user_tokens w.revoke_all_fails t.user_id w.now rows,
        ) =
          rw (refresh_stored, used) refl in
        absurd (cc)
    | inr unused ↦ elim (Bool-cases (ltb t.expires_at w.now)) [
      | inl late ↦
          let gives : refresh_stored codec sha256 secret w rows (Got.found t)
              ≡ (RefreshOutcome.expired, rows) =
            rw (refresh_stored, unused, late) refl in
          absurd (cc)
      | inr timely ↦
          let gives : refresh_stored codec sha256 secret w rows (Got.found t)
              ≡ refresh_user codec sha256 secret w (map (revoke_one t.id w.now) rows)
                  (w.user_by_id t.user_id) =
            rw (refresh_stored, revoke_refresh_token, unused, timely, works) refl in
          refresh_user-IsReplaced codec sha256 secret w (map (revoke_one t.id w.now) rows) rows' jwt
            p t.user_id (w.user_by_id t.user_id) (own t.user_id) (sym gives ∙ e)
    ]
  ]

found_in_table :
    (fails : Bool) (rows : List RefreshToken) (h : Str) (t : RefreshToken)
    → get_refresh_token_by_hash fails rows h ≡ Got.found t
    → token_with_hash h rows ≡ Got.found t
unfolding get_refresh_token_by_hash
found_in_table true rows h t e = absurd (cc)
found_in_table false rows h t e = e

module _ (h : Str) (rows rows' : List RefreshToken) (t : RefreshToken) (now : ℕ)
    (found : token_with_hash h rows ≡ Got.found t) where
  token_with_hash-replaced :
      (sha256 : Str → List ℕ) (id p : Str)
      → IsReplaced sha256 id p (map (revoke_one t.id now) rows) rows'
      → hash_refresh_token sha256 p ≢ h
      → get_refresh_token_by_hash false rows' h ≡ Got.found (record t { revoked_at = some now })
  unfolding get_refresh_token_by_hash token_with_hash
  token_with_hash-replaced sha256 id p (new, table, hashed, mine) apart =
      elim (Bool-cases (str_eq new.token_hash h)) [
        | inl same ↦ absurd (apart (sym hashed ∙ (str_eq_iff new.token_hash h).0 same))
        | inr other ↦
            let passed : token_with_hash h (new ∷ map (revoke_one t.id now) rows)
                ≡ token_with_hash h (map (revoke_one t.id now) rows) =
              rw (token_with_hash, other) refl in
            ap (token_with_hash h) table
            ∙ passed
            ∙ token_with_hash-map-revoke_one h now rows t found
      ]

module _ {jwt p : Str} {rows' : List RefreshToken} where
  refused :
      (codec : Codec) (sha256 : Str → List ℕ) (secret : Str) (w : World) (table : List RefreshToken)
      → refresh_stored codec sha256 secret w table Got.failed
        ≢ (RefreshOutcome.refreshed jwt p, rows')
  unfolding refresh_stored
  refused codec sha256 secret w table e = cc

  unknown :
      (codec : Codec) (sha256 : Str → List ℕ) (secret : Str) (w : World) (table : List RefreshToken)
      → refresh_stored codec sha256 secret w table Got.missing
        ≢ (RefreshOutcome.refreshed jwt p, rows')
  unfolding refresh_stored
  unknown codec sha256 secret w table e = cc

-- What the first of two requests with one refresh token has found, when it was exchanged.
refreshed-found :
    (codec : Codec) (sha256 : Str → List ℕ) (secret : Str) (w : World) (value : Str)
    (rows rows' : List RefreshToken) (jwt p : Str)
    → handle_refresh codec sha256 secret w (some value) rows
      ≡ (RefreshOutcome.refreshed jwt p, rows')
    → (value ≢ [])
      × ((t : RefreshToken) × (get_refresh_token_by_hash w.select_fails rows
              (hash_refresh_token sha256 value)
            ≡ Got.found t)
          × (refresh_stored codec sha256 secret w rows (Got.found t)
              ≡ (RefreshOutcome.refreshed jwt p, rows')))
unfolding handle_refresh
refreshed-found codec sha256 secret w [] rows rows' jwt p e = absurd (cc)
refreshed-found codec sha256 secret w (c ∷ value) rows rows' jwt p e =
    let stored = refresh_stored codec sha256 secret w rows in
    elim (Got-cases
      (get_refresh_token_by_hash w.select_fails rows (hash_refresh_token sha256 (c ∷ value)))) [
        | inl g ↦ absurd (refused codec sha256 secret w rows (sym (ap stored g) ∙ e))
        | inr (inl g) ↦ absurd (unknown codec sha256 secret w rows (sym (ap stored g) ∙ e))
        | inr (inr (t, g)) ↦ ((λ h. cc), (t, g, sym (ap stored g) ∙ e))
      ]

-- A refresh token that HandleRefresh exchanged, with an UPDATE that succeeded, is known as used when
-- it is presented again, whatever the time: the request is refused and, if the statements succeed,
-- every token of its user is revoked, and the one that replaced it is found in the table as revoked.
-- The new token's hash must not be that of the old one, and GetUserByID gives the user asked for.
pub handle_refresh-replay :
    (codec : Codec) (sha256 : Str → List ℕ) (secret : Str) (w w' : World) (value : Str)
    (rows rows' : List RefreshToken) (jwt p : Str)
    → IsUserById w
    → w.revoke_fails ≡ false
    → w'.select_fails ≡ false
    → w'.revoke_all_fails ≡ false
    → hash_refresh_token sha256 p ≢ hash_refresh_token sha256 value
    → handle_refresh codec sha256 secret w (some value) rows
      ≡ (RefreshOutcome.refreshed jwt p, rows')
    → (t : RefreshToken) × (get_refresh_token_by_hash w.select_fails rows
          (hash_refresh_token sha256 value)
        ≡ Got.found t)
      × ((handle_refresh codec sha256 secret w' (some value) rows').0
          ≡ RefreshOutcome.reuse_detected)
      × IsSignedOut t.user_id (handle_refresh codec sha256 secret w' (some value) rows').1
      × ((gone : RefreshToken) × (token_with_hash
              (hash_refresh_token sha256 p)
              (handle_refresh codec sha256 secret w' (some value) rows').1
            ≡ Got.found gone)
          × (is_some gone.revoked_at ≡ true))
handle_refresh-replay codec sha256 secret w w' value rows rows' jwt p own revokes selects all apart
      e =
    let h = hash_refresh_token sha256 value in
    let (sent, (t, found, exchanged)) =
      refreshed-found codec sha256 secret w value rows rows' jwt p e in
    let replaced =
      refresh_found-IsReplaced codec sha256 secret w rows rows' jwt p revokes own t exchanged in
    let used =
      token_with_hash-replaced h rows rows' t w.now (found_in_table w.select_fails rows h t found)
        sha256 t.user_id p replaced apart in
    let again = ap (λ b. get_refresh_token_by_hash b rows' h) selects ∙ used in
    let reused : RefreshToken = record t { revoked_at = some w.now } in
    let (told, out) =
      handle_refresh-reuse codec sha256 secret w' value rows' reused sent again refl all in
    let left =
      handle_refresh-revoked codec sha256 secret w' value rows' reused sent again refl all in
    let (new, table, hashed, mine) = replaced in
    let (gone, there, revoked) =
      found_revoked t.user_id w'.now new (map (revoke_one t.id w.now) rows) mine in
    (
      t,
      found,
      told,
      out,
      (
        gone,
        ap (λ r. token_with_hash (hash_refresh_token sha256 p) r.1) left
            ∙ ap
                (λ l.
                  token_with_hash (hash_refresh_token sha256 p)
                    (map (revoke_of_user t.user_id w'.now) l))
                table
            ∙ ap
                (λ k.
                  token_with_hash k (
                    map (revoke_of_user t.user_id w'.now) (new ∷ map (revoke_one t.id w.now) rows)))
                (sym hashed)
            ∙ there,
        revoked,
      ),
    )
