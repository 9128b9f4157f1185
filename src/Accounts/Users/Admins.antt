-- ===== src/Accounts/Users/Admins.antt =====
-- packages/api/src/repositories/user.repository.ts: the accounts are never left without an administrator.
use self_rss.Prelude.{
  ℕ, ◌+◌, ◌≤◌, ◌≡◌, refl, sym, ap, subst, ◌∙◌, ◌⊎◌, inl, inr, Bool, true, false, not, ◌&&◌, ◌||◌,
  Option, none, some, List, [], ◌∷◌, ◌++◌, map, arith, ltb, leb, ◌==◌, ==_iff, if◌then◌else◌,
  or_else, contains, any, find, count, update_where, Unique, any-count, Bool-cases, eq_of_some,
}
use self_rss.Prelude.Text.{Text, same_text}
use self_rss.Prelude.Upsert.{any-append}
use self_rss.Prelude.Keys.{Unique-append}
use self_rss.AppError.{ok, require, >>_ok, eq_of_ok, require_ok, fail-ne-ok}
use self_rss.Accounts.{Role, User, Db}
use self_rss.Accounts.Users.{
  is_admin, find_by_id, insert_user, Changes, is_active_admin, demotes, deactivates, removes_admin,
  assert_admin_mutation_allowed, apply_changes,
}

abbrev pub ids_of : List User → List ℕ
ids_of = map λ u. u.id

-- No two accounts have one key, and one of them is an active administrator if there are any.
abbrev pub Governed : List User → Type 0
Governed users = Unique (ids_of users) × ((any is_active_admin users ≡ true) ⊎ (users ≡ []))

module _ (p : User → Bool) (k : ℕ) (f : User → User) where
  absent_same :
      (users : List User)
      → contains k (ids_of users) ≡ false
      → update_where (λ u. u.id == k) f users ≡ users
  absent_same [] h = refl
  absent_same (u ∷ users) h =
      let miss : (u.id == k) ≡ false = ground arith in
      rw miss (ap (◌∷◌ u) (absent_same users (ground arith)))

  count_drop :
      (users : List User)
      → Unique (ids_of users)
      → count p users ≤ count p (update_where (λ u. u.id == k) f users) + 1
  count_drop [] uniq = omega arith
  count_drop (u ∷ users) uniq = elim (Bool-cases (u.id == k)) [
    | inl e ↦
        let same : u.id ≡ k = (==_iff u.id k).0 e in
        rw (e, absent_same users (subst (λ i. contains i (ids_of users) ≡ false) same uniq.0))
          (ground arith)
    | inr e ↦ let ih = count_drop users uniq.1 in rw e (omega (arith, ih))
  ]

  count_keep :
      (users : List User) (target : User)
      → Unique (ids_of users)
      → find (λ u. u.id == k) users ≡ some target
      → (p target ≡ true → p (f target) ≡ true)
      → count p users ≤ count p (update_where (λ u. u.id == k) f users)
  count_keep [] target uniq h keep = cc
  count_keep (u ∷ users) target uniq h keep = elim (Bool-cases (u.id == k)) [
    | inl e ↦
        let same : u.id ≡ k = (==_iff u.id k).0 e in
        let here : u ≡ target = eq_of_some u target (rw e at h) in
        rw (e, absent_same users (subst (λ i. contains i (ids_of users) ≡ false) same uniq.0))
          (head (subst (λ u. p u ≡ true → p (f u) ≡ true) (sym here) keep))
    | inr e ↦ let ih = count_keep users target uniq.1 (rw e at h) keep in rw e (omega (arith, ih))
  ]
    where
      head :
          (p u ≡ true → p (f u) ≡ true)
          → (if p u then 1 else 0) + count p users ≤ (if p (f u) then 1 else 0) + count p users
      head keep = elim (Bool-cases (p u)) [
        | inl t ↦ rw (t, keep t) (omega arith)
        | inr t ↦ rw t (ground arith)
      ]

-- An update of one row keeps the keys.
pub ids_kept :
    (q : User → Bool) (f : User → User)
    → ((u : User) → (f u).id ≡ u.id)
    → (users : List User) → ids_of (update_where q f users) ≡ ids_of users
ids_kept q f same [] = refl
ids_kept q f same (u ∷ users) = elim (Bool-cases (q u)) [
  | inl e ↦ rw (e, same u, ids_kept q f same users) refl
  | inr e ↦ rw (e, ids_kept q f same users) refl
]

some_admin :
    (users users' : List User)
    → any is_active_admin users ≡ true
    → count is_active_admin users ≤ count is_active_admin users'
    → any is_active_admin users' ≡ true
some_admin users users' h le =
    let positive : ltb 0 (count is_active_admin users) ≡ true =
      sym (any-count is_active_admin users) ∙ h in
    any-count is_active_admin users' ∙ ground arith

option_kept :
    (r : Option Role) (a : Option Bool) (role : Role) (active : Bool)
    → ((is_admin role && active) && (demotes r || deactivates a)) ≡ false
    → (is_admin role && active) ≡ true
    → (is_admin (or_else r role) && or_else a active) ≡ true
option_kept none none role active h k = k
option_kept none (some b) role active h k = ground arith
option_kept (some r) none role active h k = ground arith
option_kept (some r) (some b) role active h k = ground arith

kept_changes :
    (changes : Changes) (now : ℕ) (target : User)
    → removes_admin target changes ≡ false
    → is_active_admin target ≡ true
    → is_active_admin (apply_changes changes now target) ≡ true
unfolding removes_admin
kept_changes changes now target h a =
    option_kept changes.role changes.is_active target.role target.is_active h a

module _ (k : ℕ) (changes : Changes) (now : ℕ) (users : List User) where
  abbrev changed : List User
  changed = update_where (λ u. u.id == k) (apply_changes changes now) users

  -- What the test allows leaves an administrator.
  pub allowed-Governed :
      (actor : ℕ) (target : User) {u : Unit {0}}
      → find_by_id k users ≡ some target
      → assert_admin_mutation_allowed actor target changes users ≡ ok u
      → Governed users
      → Governed changed
  unfolding assert_admin_mutation_allowed
  allowed-Governed actor target found h (uniq, governed) =
      let (_, _, h1) =
        >>_ok (require (not (target.id == actor && removes_admin target changes)) _) _ h in
      let last =
        require_ok (not (removes_admin target changes && leb (count is_active_admin users) 1)) _
          h1 in
      (
        subst Unique (sym (ids_kept (λ u. u.id == k) (apply_changes changes now) (λ u. refl) users))
            uniq,
        elim governed [
          | inr e ↦ inr (rw e refl)
          | inl some_one ↦ inl (elim (Bool-cases (removes_admin target changes)) [
            | inr keeps ↦ some_admin users changed some_one (
                count_keep is_active_admin k (apply_changes changes now) users target uniq found
                  (kept_changes changes now target keeps))
            | inl removes ↦
                let drop = count_drop is_active_admin k (apply_changes changes now) users uniq in
                any-count is_active_admin changed ∙ ground arith
          ])
        ],
      )

absent-id :
    (id : ℕ) (email : Text) (users : List User)
    → any (λ u. u.id == id || same_text u.email email) users ≡ false
    → contains id (ids_of users) ≡ false
absent-id id email [] h = refl
absent-id id email (u ∷ users) h = let ih = absent-id id email users (ground arith) in ground arith

ids-append :
    (users : List User) (u : User) → ids_of (users ++ (u ∷ [])) ≡ ids_of users ++ (u.id ∷ [])
ids-append [] u = refl
ids-append (v ∷ users) u = ap (◌∷◌ v.id) (ids-append users u)

-- A new account.
pub inserted-Governed :
    (id : ℕ) (email : Text) (password_hash : ℕ) (role : Role) (now : ℕ) (db : Db) {r : Db × User}
    → insert_user id email password_hash role now db ≡ ok r
    → (any is_active_admin db.users || is_admin role) ≡ true
    → Governed db.users
    → Governed r.0.users
unfolding insert_user
inserted-Governed id email password_hash role now db {r} h admin (uniq, governed) =
    elim (Bool-cases (any (λ u. u.id == id || same_text u.email email) db.users)) [
      | inl e ↦ absurd (fail-ne-ok (rw (e, insert_user) at h))
      | inr e ↦
          let row : User = record {
            id = id;
            email = email;
            password_hash = password_hash;
            role = role;
            is_active = true;
            created_at = now;
            updated_at = now;
          } in
          let users : List User = db.users ++ (row ∷ []) in
          let same : users ≡ r.0.users =
            ap (λ x. x.0.users) (eq_of_ok _ r (rw (e, insert_user) at h)) in
          subst Governed same (
            subst Unique (sym (ids-append db.users row))
                (Unique-append id (ids_of db.users) uniq (absent-id id email db.users e)),
            inl (any-append is_active_admin db.users (row ∷ []) ∙ ground arith),
          )
    ]
