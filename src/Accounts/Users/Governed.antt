-- ===== src/Accounts/Users/Governed.antt =====
-- packages/api/src/repositories/user.repository.ts: whatever calls are made, an active
-- administrator remains.
use mathlib.Core.Option.{none-ne-some}
use self_rss.Prelude.{
  ℕ, ◌≡◌, ◌≢◌, refl, sym, ap, subst, ◌∙◌, ◌⊎◌, inl, inr, Bool, true, false, not, ◌&&◌, ◌||◌, Option,
  some, List, [], ◌∷◌, ◌==◌, if◌then◌else◌, is_none, is_some, length, any, find, update_where,
  Unique, Bool-cases, Option-cases,
}
use self_rss.Prelude.Text.{Text}
use self_rss.AppError.{Failure, ok, fail, require, >>=_ok, >>_ok, eq_of_ok, fail-ne-ok}
use self_rss.Accounts.{Role, User, Db}
use self_rss.Accounts.Users.{
  is_admin, find_by_id, find_by_email, insert_user, create_with_preferences, register_user, Changes,
  is_active_admin, deactivates, assert_admin_mutation_allowed, apply_changes, revoke_sessions,
  update_for_admin, may_set_password, update_password_hash,
}
use self_rss.Accounts.Users.Admins.{Governed, ids_kept, allowed-Governed, inserted-Governed}

-- The calls that change accounts. A caller of the two administrators' operations has an account; so has
-- one who makes an account for another.
pub data Step : Db → Db → Type 0 where
  register :
      (id : ℕ) (email : Text) (password_hash : ℕ) (locked : Bool) (now : ℕ) {db : Db}
      (r : Db × (User × Bool))
      → register_user id email password_hash locked now db ≡ ok r
      → Step db r.0
  create :
      (caller : User) (id : ℕ) (email : Text) (password_hash : ℕ) (role : Role) (now : ℕ) {db : Db}
      (r : Db × User)
      → find_by_id caller.id db.users ≡ some caller
      → create_with_preferences id email password_hash role now db ≡ ok r
      → Step db r.0
  change :
      (actor target_id : ℕ) (changes : Changes) (now : ℕ) {db : Db} (r : Db × (User × List ℕ))
      → update_for_admin actor target_id changes now db ≡ ok r
      → Step db r.0
  password :
      (user_id password_hash : ℕ) (verified : Option ℕ) (now : ℕ) {db : Db}
      (r : Db × (User × List ℕ))
      → update_password_hash user_id password_hash verified now db ≡ ok r
      → Step db r.0

pub data Reachable : Db → Type 0 where
  start : {db : Db} → db.users ≡ [] → Reachable db
  next : {db later : Db} → Reachable db → Step db later → Reachable later

register-Governed :
    (id : ℕ) (email : Text) (password_hash : ℕ) (locked : Bool) (now : ℕ) (db : Db)
    (r : Db × (User × Bool))
    → register_user id email password_hash locked now db ≡ ok r
    → Governed db.users
    → Governed r.0.users
unfolding register_user
register-Governed id email password_hash locked now db r h g =
    let (_, _, h1) = >>_ok (require (is_none (find_by_email email db.users)) _) _ h in
    let bootstrap = length db.users == 0 in
    let (_, _, h2) = >>_ok (require (not (locked && not bootstrap)) _) _ h1 in
    let role = if bootstrap then Role.admin else Role.user in
    let ((db', row), made, h3) = >>=_ok (insert_user id email password_hash role now db) _ h2 in
    subst Governed (ap (λ x. x.0.users) (eq_of_ok _ r h3))
      (inserted-Governed id email password_hash role now db made (governed-admin db.users g.1) g)
  where
    governed-admin :
        (users : List User)
        → (any is_active_admin users ≡ true) ⊎ (users ≡ [])
        → (any is_active_admin users
            || is_admin (if length users == 0 then Role.admin else Role.user))
          ≡ true
    governed-admin users (inl e) = rw e refl
    governed-admin users (inr e) = rw e refl

create-Governed :
    (caller : User) (id : ℕ) (email : Text) (password_hash : ℕ) (role : Role) (now : ℕ) (db : Db)
    (r : Db × User)
    → find_by_id caller.id db.users ≡ some caller
    → create_with_preferences id email password_hash role now db ≡ ok r
    → Governed db.users
    → Governed r.0.users
unfolding create_with_preferences
create-Governed caller id email password_hash role now db r found h g =
    let ((db', row), made, h1) = >>=_ok (insert_user id email password_hash role now db) _ h in
    subst Governed (ap (λ x. x.0.users) (eq_of_ok _ r h1))
      (inserted-Governed id email password_hash role now db made (has_admin g.1) g)
  where
    has_admin :
        (any is_active_admin db.users ≡ true) ⊎ (db.users ≡ [])
        → (any is_active_admin db.users || is_admin role) ≡ true
    has_admin (inl e) = rw e refl
    has_admin (inr e) = absurd (none-ne-some caller (ap (find_by_id caller.id) (sym e) ∙ found))

revoked-users : (user_id now : ℕ) (db : Db) → (revoke_sessions user_id now db).0.users ≡ db.users
unfolding revoke_sessions
revoked-users user_id now db = refl

change-Governed :
    (actor target_id : ℕ) (changes : Changes) (now : ℕ) (db : Db) (r : Db × (User × List ℕ))
    → update_for_admin actor target_id changes now db ≡ ok r
    → Governed db.users
    → Governed r.0.users
unfolding update_for_admin revoke_sessions
change-Governed actor target_id changes now db r h g =
    elim (Option-cases (find_by_id target_id db.users)) [
      | inl e ↦ absurd (fail-ne-ok (rw (e, update_for_admin) at h))
      | inr (target, e) ↦
          let (_, allowed, h1) =
            >>_ok (assert_admin_mutation_allowed actor target changes db.users) _
              (rw (e, update_for_admin) at h) in
          let after = allowed-Governed target_id changes now db.users actor target e allowed g in
          subst Governed (ap (λ x. x.0.users) (eq_of_ok _ r h1))
            (branches (deactivates changes.is_active || is_some changes.role) after)
    ]
  where
    branches :
        (b : Bool)
        → Governed (update_where (λ u. u.id == target_id) (apply_changes changes now) db.users)
        → Governed
            (if b
              then revoke_sessions target_id now (record db {
                users = update_where (λ u. u.id == target_id) (apply_changes changes now) db.users;
              })
              else (
                record db {
                  users =
                      update_where (λ u. u.id == target_id) (apply_changes changes now) db.users;
                },
                [],
              )).0.users
    branches true k = k
    branches false k = k

admins_kept :
    (q : User → Bool) (f : User → User)
    → ((u : User) → is_active_admin (f u) ≡ is_active_admin u)
    → (users : List User) → any is_active_admin (update_where q f users) ≡ any is_active_admin users
admins_kept q f same [] = refl
admins_kept q f same (u ∷ users) = elim (Bool-cases (q u)) [
  | inl e ↦ rw (e, same u, admins_kept q f same users) refl
  | inr e ↦ rw (e, admins_kept q f same users) refl
]

password-Governed :
    (user_id password_hash : ℕ) (verified : Option ℕ) (now : ℕ) (db : Db) (r : Db × (User × List ℕ))
    → update_password_hash user_id password_hash verified now db ≡ ok r
    → Governed db.users
    → Governed r.0.users
unfolding update_password_hash revoke_sessions
password-Governed user_id password_hash verified now db r h (uniq, governed) =
    elim (Option-cases (find (may_set_password user_id verified) db.users)) [
      | inl e ↦ absurd (refused (is_some verified) _ _ (rw (e, update_password_hash) at h))
      | inr (row, e) ↦
          let q = may_set_password user_id verified in
          subst Governed (ap (λ x. x.0.users) (eq_of_ok _ r (rw (e, update_password_hash) at h))) (
            subst Unique (sym (ids_kept q _ (λ u. refl) db.users)) uniq,
            elim governed [
              | inl some_one ↦ inl (admins_kept q _ (λ u. refl) db.users ∙ some_one)
              | inr empty ↦ inr (rw empty refl)
            ],
          )
    ]
  where
    refused : (b : Bool) (x y : Failure) → (if b then fail x else fail y) ≢ ok r
    refused true x y k = fail-ne-ok k
    refused false x y k = fail-ne-ok k

-- From a database without accounts, whatever successful calls register accounts, create them for somebody,
-- change roles and activity, or set passwords, in any order: no two accounts have one key, and
-- as soon as there is an account, an active administrator is among them. The caller who creates an account
-- has one.
pub Reachable-Governed : (db : Db) → Reachable db → Governed db.users
Reachable-Governed db (Reachable.start e) = subst Governed (sym e) (tt, inr refl)
Reachable-Governed db
      (Reachable.next before (Step.register id email password_hash locked now r h)) =
    register-Governed id email password_hash locked now _ r h (Reachable-Governed _ before)
Reachable-Governed db
      (Reachable.next before (Step.create caller id email password_hash role now r found h)) =
    create-Governed caller id email password_hash role now _ r found h (Reachable-Governed _ before)
Reachable-Governed db (Reachable.next before (Step.change actor target_id changes now r h)) =
    change-Governed actor target_id changes now _ r h (Reachable-Governed _ before)
Reachable-Governed db
      (Reachable.next before (Step.password user_id password_hash verified now r h)) =
    password-Governed user_id password_hash verified now _ r h (Reachable-Governed _ before)
