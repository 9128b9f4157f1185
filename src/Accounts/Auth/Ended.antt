-- ===== src/Accounts/Auth/Ended.antt =====
-- packages/api/src/services/auth.service.ts: what a new password and a change of an administrator
-- end, through the repositories of accounts and sessions.
use self_rss.Prelude.{
  ℕ, ◌/◌, ◌≡◌, refl, sym, ap, ◌∙◌, inl, inr, Bool, true, false, not, ◌||◌, none, some, List,
  if◌then◌else◌, is_none, is_some, Option-cases,
}
use self_rss.Prelude.Text.{Text, codes, same_text}
use self_rss.AppError.{Failure, Result, ok, fail, unauthorized, bad_request}
use self_rss.Accounts.{User, Db}
use self_rss.Accounts.Users.{
  Changes, find_by_id, update_for_admin, update_password_hash, deactivates,
  assert_admin_update_allowed,
}
use self_rss.Accounts.Sessions.{LifetimePolicy, Metadata, CreateInput, create}
use self_rss.Accounts.Sessions.Calls.{Call, run}
use self_rss.Accounts.Sessions.Revocation.{Ends}
use self_rss.Accounts.Auth.{
  Platform, Cache, Drawn, Tokens, auth_lost_message, ◌then◌, transact, parse_refresh_token,
  prepare_user_session_revocation, finish_revocation, issue_tokens, create_refresh_token,
  sanitize_device_name, revoke_cached_sessions,
}
use self_rss.Accounts.Auth.Passwords.{change_password, admin_update_user, admin_reset_password}

-- An operation that succeeds did its first part.
then_ok {ℓ κ} :
    {A : Type ℓ} {B : Type κ} (r : Db × Result A) (f : Db → A → Db × Result B) {after : Db} {b : B}
    → (r then f) ≡ (after, ok b)
    → (db : Db) × (a : A) × (r ≡ (db, ok a)) × (f db a ≡ (after, ok b))
then_ok (db, ok a) f h = (db, a, refl, h)
then_ok (db, fail e) f h = cc

after_check {ℓ κ} :
    {A : Type ℓ} {B : Type κ} (db : Db) (r : Result A) (f : Db → A → Db × Result B) {after : Db}
    {b : B}
    → ((db, r) then f) ≡ (after, ok b)
    → (a : A) × (f db a ≡ (after, ok b))
after_check db (ok a) f h = (a, h)
after_check db (fail e) f h = cc

transact_ok {ℓ} :
    {A : Type ℓ} (db : Db) (r : Result (Db × A)) {after : Db} {a : A}
    → transact db r ≡ (after, ok a)
    → r ≡ ok (after, a)
transact_ok db (ok (db', a)) h = cc
transact_ok db (fail e) h = cc

then-db {ℓ κ} :
    {A : Type ℓ} {B : Type κ} (db : Db) (r : Result A) (f : Db → A → Db × Result B)
    → ((a : A) → (f db a).0 ≡ db)
    → ((db, r) then f).0 ≡ db
then-db db (ok a) f h = h a
then-db db (fail e) f h = refl

unless_ok {ℓ} :
    {A : Type ℓ} (b : Bool) (e : Failure) (db : Db) (r : Db × Result A) {after : Db} {a : A}
    → (if b then (db, fail e) else r) ≡ (after, ok a)
    → r ≡ (after, ok a)
unless_ok true e db r h = cc
unless_ok false e db r h = h

eq_of_pair {ℓ} : {A : Type ℓ} (x y : Db × A) → x ≡ y → x.0 ≡ y.0
eq_of_pair x y h = ap (λ z. z.0) h

abbrev second : Db × Result (User × Tokens) → Db × Result Tokens
second (db, ok (user, tokens)) = (db, ok tokens)
second (db, fail e) = (db, fail e)

abbrev issued_id : Db × Result Tokens → ℕ
issued_id (db, ok tokens) = tokens.session_id
issued_id (db, fail e) = 0

module _ (platform : Platform) (policy : LifetimePolicy) (cache : Cache) where
  finish-db :
      (db : Db) (r : User × List ℕ) {after : Db} {user : User}
      → finish_revocation platform policy cache db r ≡ (after, ok user)
      → db ≡ after
  unfolding revoke_cached_sessions
  finish-db db (user, revoked) h =
      let (_, same) =
        after_check db (revoke_cached_sessions platform policy cache 1 revoked)
          (λ db _. (db, ok user)) h in
      eq_of_pair (db, ok user) _ same

  -- A transaction that revokes sessions, after and before the marks in the cache.
  revoking_ok :
      (q : Db × Result (Unit {0})) (change : Db → Result (Db × (User × List ℕ))) {after : Db}
      {user : User}
      → (q then (λ db _. transact db (change db)) then finish_revocation platform policy cache)
        ≡ (after, ok user)
      → (r : User × List ℕ) × (change q.0 ≡ ok (after, r))
  revoking_ok (db, prepared) change h =
      let revoking : Db → Unit {0} → Db × Result (User × List ℕ) =
        λ db _. transact db (change db) in
      let (later, r, first, last) =
        then_ok ((db, prepared) then revoking) (finish_revocation platform policy cache) h in
      let (_, changed) = after_check db prepared revoking first in
      (r, transact_ok db (change db) changed ∙ ap (λ d. ok (d, r)) (finish-db later r last))

  pub reset-Ends :
      (target_id password_hash now_ms : ℕ) (db : Db) {after : Db} {user : User}
      → admin_reset_password platform policy cache target_id password_hash now_ms db
        ≡ (after, ok user)
      → Ends target_id db after
  unfolding admin_reset_password
  reset-Ends target_id password_hash now_ms db {after} h =
      let (r, done) =
        revoking_ok (db, prepare_user_session_revocation platform policy cache target_id now_ms db)
          (update_password_hash target_id password_hash none (now_ms / 1000)) h in
      Ends.password password_hash none (now_ms / 1000) (after, r) done

  pub update-Ends :
      (actor target_id : ℕ) (changes : Changes) (now_ms : ℕ) (db : Db) {after : Db} {user : User}
      → (deactivates changes.is_active || is_some changes.role) ≡ true
      → admin_update_user platform policy cache actor target_id changes now_ms db ≡ (after, ok user)
      → Ends target_id db after
  unfolding admin_update_user
  update-Ends actor target_id changes now_ms db {after} revoking h =
      let prepare : Db → Unit {0} → Db × Result (Unit {0}) = λ db _. (
        db,
        if deactivates changes.is_active || is_some changes.role
            then prepare_user_session_revocation platform policy cache target_id now_ms db
            else ok tt,
      ) in
      let allowed = assert_admin_update_allowed actor target_id changes db in
      let (r, done) =
        revoking_ok ((db, allowed) then prepare)
          (update_for_admin actor target_id changes (now_ms / 1000)) h in
      let same : ((db, allowed) then prepare).0 ≡ db = then-db db allowed prepare (λ u. refl) in
      Ends.change actor changes (now_ms / 1000) (after, r) revoking
        (ap (update_for_admin actor target_id changes (now_ms / 1000)) (sym same) ∙ done)

  -- The new session of an operation.
  pub issue-run :
      (drawn : Drawn) (user : User) (metadata : Metadata) (now_ms : ℕ) (db : Db) {after : Db}
      {tokens : Tokens}
      → issue_tokens platform policy cache drawn user metadata now_ms db ≡ (after, ok tokens)
      → (input : CreateInput) × (input.id ≡ tokens.session_id)
        × (run policy (Call.creation input user now_ms) db ≡ after)
  unfolding issue_tokens run
  issue-run drawn user metadata now_ms db {after} {tokens} h =
      elim (Option-cases (parse_refresh_token (create_refresh_token drawn drawn.session_id))) [
        | inl e ↦ cc (rw (e, issue_tokens) at h)
        | inr ((session_id, secret), e) ↦
            let input : CreateInput = record {
              id = platform.identifier session_id;
              user_id = user.id;
              refresh_token_hash =
                  platform.hash_refresh_token (create_refresh_token drawn drawn.session_id);
              client_id = metadata.client_id;
              device_name = sanitize_device_name metadata.device_name;
              user_agent = metadata.user_agent;
              ip_address = metadata.ip_address;
            } in
            let h1 = rw (e, issue_tokens) at h in
            let created = create policy input user now_ms db in
            let same =
              unless_ok (is_none created.1) (unauthorized auth_lost_message) created.0 _ h1 in
            (input, ap issued_id same, eq_of_pair _ _ same)
      ]

  pub change-Ends :
      (user_id : ℕ) (current new : Text) (password_hash : ℕ) (drawn : Drawn) (metadata : Metadata)
      (now_ms : ℕ) (db : Db) {after : Db} {r : User × Tokens}
      → change_password platform policy cache user_id current new password_hash drawn metadata
          now_ms db
        ≡ (after, ok r)
      → (between : Db) × (user : User) × Ends user_id db between
        × (issue_tokens platform policy cache drawn user metadata now_ms between ≡ (after, ok r.1))
  unfolding change_password
  change-Ends user_id current new password_hash drawn metadata now_ms db {after} {r} h =
      elim (Option-cases (find_by_id user_id db.users)) [
        | inl e ↦ cc (rw (e, change_password) at h)
        | inr (user, e) ↦
            let lost = unauthorized auth_lost_message in
            let wrong = bad_request (codes "Current password is incorrect") in
            let equal =
              bad_request (codes "New password must be different from the current password") in
            let h1 = unless_ok (not user.is_active) lost db _ (rw (e, change_password) at h) in
            let h2 =
              unless_ok (not (platform.verify_password current user.password_hash)) wrong db _ h1 in
            let h3 = unless_ok (same_text current new) equal db _ h2 in
            let prepared =
              prepare_user_session_revocation platform policy cache user_id now_ms db in
            let change : Db → Result (Db × (User × List ℕ)) =
              update_password_hash user_id password_hash (some user.password_hash)
                (now_ms / 1000) in
            let revoking : Db → Unit {0} → Db × Result (User × List ℕ) =
              λ db _. transact db (change db) in
            let issue : Db → User → Db × Result (User × Tokens) = λ db updated.
              issue_tokens platform policy cache drawn updated metadata now_ms db
              then (λ db tokens. (db, ok (updated, tokens))) in
            let (between, updated, first, last) =
              then_ok ((db, prepared) then revoking then finish_revocation platform policy cache)
                issue h3 in
            let (revoked, done) = revoking_ok (db, prepared) change first in
            let answer : Db → Tokens → Db × Result (User × Tokens) =
              λ db tokens. (db, ok (updated, tokens)) in
            let (later, tokens, issued, same) =
              then_ok (issue_tokens platform policy cache drawn updated metadata now_ms between)
                answer last in
            (
              between,
              updated,
              Ends.password password_hash (some user.password_hash) (now_ms / 1000)
                  (between, revoked) done,
              issued ∙ ap second same,
            )
      ]
