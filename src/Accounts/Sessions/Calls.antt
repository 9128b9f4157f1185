-- ===== src/Accounts/Sessions/Calls.antt =====
-- packages/api/src/repositories/auth-session.repository.ts and
-- packages/api/src/repositories/user.repository.ts: the calls that write sessions, in any order.
use self_rss.Prelude.{
  ℕ, ◌/◌, ◌≡◌, subst, arith, update_where, inl, inr, Bool, true, false, not, ◌&&◌, ◌||◌, Option,
  none, some, List, [], ◌∷◌, ◌==◌, if◌then◌else◌, is_some, is_none, contains, find, All,
  All-update_where, Option-cases, select, take, map,
}
use self_rss.Prelude.Rows.{All-select, All-append}
use self_rss.Prelude.Text.{codes}
use self_rss.AppError.{Result, ok, fail, ◌>>◌, unauthorized, not_found}
use self_rss.Accounts.{User, Session, Db}
use self_rss.Accounts.Users.{
  Changes, find_by_id, apply_changes, update_for_admin, update_password_hash, with_password,
  may_set_password, revoke_sessions, is_open, deactivates, assert_admin_mutation_allowed,
}
use self_rss.Accounts.Sessions.{
  LifetimePolicy, Metadata, CreateInput, create, rotate, touch, revoke_for_user, revoke,
  cleanup_expired, is_active, is_disposable, revoked, same_role,
}

pub data Call : Type 0 where
  creation : CreateInput → User → ℕ → Call
  rotation : ℕ → ℕ → ℕ → Metadata → ℕ → ℕ → Call
  visit : ℕ → Metadata → ℕ → ℕ → Call
  revocation : ℕ → ℕ → Call
  revocation_for : ℕ → ℕ → ℕ → Call
  cleanup : ℕ → ℕ → Call
  admin_change : ℕ → ℕ → Changes → ℕ → Call
  password_change : ℕ → ℕ → Option ℕ → ℕ → Call

-- A call that throws leaves the database as it was.
abbrev pub committed {ℓ} : {A : Type ℓ} → Db → Result (Db × A) → Db
committed db (ok r) = r.0
committed db (fail e) = db

module _ (policy : LifetimePolicy) where
  unfoldable pub run : Call → Db → Db
  run (Call.creation input verified now_ms) db = (create policy input verified now_ms db).0
  run (Call.rotation id current next metadata now_ms checked_ms) db =
      (rotate policy id current next metadata now_ms checked_ms db).0
  run (Call.visit id metadata now_ms checked_ms) db =
      (touch policy id metadata now_ms checked_ms db).0
  run (Call.revocation id now_ms) db = (revoke id now_ms db).0
  run (Call.revocation_for user_id id now_ms) db = (revoke_for_user user_id id now_ms db).0
  run (Call.cleanup batch_size now_ms) db = (cleanup_expired batch_size now_ms db).0
  run (Call.admin_change actor target_id changes now) db =
      committed db (update_for_admin actor target_id changes now db)
  run (Call.password_change user_id password_hash verified now) db =
      committed db (update_password_hash user_id password_hash verified now db)

  unfoldable pub run_all : List Call → Db → Db
  unfolding run
  run_all [] db = db
  run_all (c ∷ calls) db = run_all calls (run c db)

-- What a call has to keep for a property of the key, the hash and the revocation of each session.
abbrev pub Allowed : (ℕ → ℕ → Option ℕ → Type 0) → Call → Type 0
Allowed Q (Call.creation input verified now_ms) = Q input.id input.refresh_token_hash none
Allowed Q (Call.rotation id current next metadata now_ms checked_ms) =
    (i : ℕ) (r : Option ℕ) → Q i current r → Q i next r
Allowed Q _ = Unit {0}

module _ (policy : LifetimePolicy) (Q : ℕ → ℕ → Option ℕ → Type 0)
    (revocable : (i h t : ℕ) (r : Option ℕ) → Q i h r → Q i h (some t)) where
  abbrev Holds : Session → Type 0
  Holds s = Q s.id s.refresh_token_hash s.revoked_at

  abbrev pub AllHold : Db → Type 0
  AllHold db = All Holds db.sessions

  create-AllHold :
      (input : CreateInput) (verified : User) (now_ms : ℕ) (db : Db)
      → Q input.id input.refresh_token_hash none
      → AllHold db
      → AllHold (create policy input verified now_ms db).0
  unfolding create
  create-AllHold input verified now_ms db new h =
      elim (Option-cases (
        find
          (λ (u : User).
            u.id == input.user_id
            && (u.password_hash == verified.password_hash
                && (same_role u.role verified.role && u.is_active)))
          db.users)) [
            | inl e ↦ rw (e, create) h
            | inr (u, e) ↦ rw (e, create) (All-append Holds db.sessions _ h (new, tt))
          ]

  rotate-AllHold :
      (id current next : ℕ) (metadata : Metadata) (now_ms checked_ms : ℕ) (db : Db)
      → ((i : ℕ) (r : Option ℕ) → Q i current r → Q i next r)
      → AllHold db
      → AllHold (rotate policy id current next metadata now_ms checked_ms db).0
  unfolding rotate
  rotate-AllHold id current next metadata now_ms checked_ms db step h =
      All-update_where Holds
        (λ s. s.id == id && (s.refresh_token_hash == current && is_active policy id checked_ms s)) _
        (λ s e k.
          let same : s.refresh_token_hash ≡ current = ground arith in
          step s.id s.revoked_at (subst (λ i. Q s.id i s.revoked_at) same k))
        db.sessions h

  revoke_sessions-AllHold :
      (user_id now : ℕ) (db : Db) → AllHold db → AllHold (revoke_sessions user_id now db).0
  unfolding revoke_sessions
  revoke_sessions-AllHold user_id now db h =
      All-update_where Holds (is_open user_id) _
        (λ s e k. revocable s.id s.refresh_token_hash now s.revoked_at k) db.sessions h

  change-AllHold :
      (actor target_id : ℕ) (changes : Changes) (now : ℕ) (db : Db)
      → AllHold db
      → AllHold (committed db (update_for_admin actor target_id changes now db))
  unfolding update_for_admin
  change-AllHold actor target_id changes now db h =
      elim (Option-cases (find_by_id target_id db.users)) [
        | inl e ↦ rw (e, update_for_admin) h
        | inr (target, e) ↦
            rw (e, update_for_admin)
              (allowed (assert_admin_mutation_allowed actor target changes db.users) target
                (deactivates changes.is_active || is_some changes.role))
      ]
    where
      allowed :
          (r : Result (Unit {0})) (target : User) (b : Bool)
          → AllHold (
              committed {A = User × List ℕ} db (
                r
                >> (let updated = record db {
                  users =
                      update_where (λ u. u.id == target_id) (apply_changes changes now) db.users;
                } in
                    let (db', revoked) =
                      if b then revoke_sessions target_id now updated else (updated, []) in
                    ok (db', (apply_changes changes now target, revoked)))))
      allowed (fail f) target b = h
      allowed (ok u) target true =
          revoke_sessions-AllHold target_id now
            (record db {
              users = update_where (λ u. u.id == target_id) (apply_changes changes now) db.users;
            })
            h
      allowed (ok u) target false = h

  password-AllHold :
      (user_id password_hash : ℕ) (verified : Option ℕ) (now : ℕ) (db : Db)
      → AllHold db
      → AllHold (committed db (update_password_hash user_id password_hash verified now db))
  unfolding update_password_hash
  password-AllHold user_id password_hash verified now db h =
      elim (Option-cases (find (may_set_password user_id verified) db.users)) [
        | inl e ↦ rw (e, update_password_hash) (refused (is_some verified))
        | inr (row, e) ↦
            rw (e, update_password_hash)
              (revoke_sessions-AllHold user_id now
                (record db {
                  users =
                      update_where (may_set_password user_id verified)
                        (with_password password_hash now) db.users;
                })
                h)
      ]
    where
      refused :
          (b : Bool)
          → AllHold (
              committed {A = User × List ℕ} db (
                if b
                then fail (unauthorized (codes "Authentication was lost. Please sign in again."))
                else fail (not_found (codes "User not found"))))
      refused true = h
      refused false = h

  pub run-AllHold : (c : Call) (db : Db) → Allowed Q c → AllHold db → AllHold (run policy c db)
  unfolding run touch revoke revoke_for_user cleanup_expired
  run-AllHold (Call.creation input verified now_ms) db new h =
      create-AllHold input verified now_ms db new h
  run-AllHold (Call.rotation id current next metadata now_ms checked_ms) db step h =
      rotate-AllHold id current next metadata now_ms checked_ms db step h
  run-AllHold (Call.visit id metadata now_ms checked_ms) db _ h =
      All-update_where Holds (is_active policy id checked_ms) _ (λ s e k. k) db.sessions h
  run-AllHold (Call.revocation id now_ms) db _ h =
      All-update_where Holds (λ s. s.id == id && is_none s.revoked_at) (revoked now_ms)
        (λ s e k. revocable s.id s.refresh_token_hash (now_ms / 1000) s.revoked_at k) db.sessions h
  run-AllHold (Call.revocation_for user_id id now_ms) db _ h =
      All-update_where Holds (λ s. s.user_id == user_id && (s.id == id && is_none s.revoked_at))
        (revoked now_ms)
        (λ s e k. revocable s.id s.refresh_token_hash (now_ms / 1000) s.revoked_at k) db.sessions h
  run-AllHold (Call.cleanup batch_size now_ms) db _ h =
      All-select Holds
        (λ s. not (
          contains s.id
            (map (λ s. s.id) (take batch_size (select (is_disposable now_ms) db.sessions)))))
        db.sessions h
  run-AllHold (Call.admin_change actor target_id changes now) db _ h =
      change-AllHold actor target_id changes now db h
  run-AllHold (Call.password_change user_id password_hash verified now) db _ h =
      password-AllHold user_id password_hash verified now db h

  pub run_all-AllHold :
      (calls : List Call) (db : Db)
      → All (Allowed Q) calls
      → AllHold db
      → AllHold (run_all policy calls db)
  unfolding run_all
  run_all-AllHold [] db allowed h = h
  run_all-AllHold (c ∷ calls) db allowed h =
      run_all-AllHold calls (run policy c db) allowed.1 (run-AllHold c db allowed.0 h)
