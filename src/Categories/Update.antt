-- ===== src/Categories/Update.antt =====
-- packages/api/src/services/category.service.ts: an update keeps the hierarchy of a user a forest.
use mathlib.Core.Option
use mathlib.Core.Option.{none-ne-some}
use self_rss.Prelude.{
  ℕ, ◌+◌, ◌≡◌, refl, sym, ◌∙◌, ◌⊎◌, inl, inr, Option, none, some, List, [], ◌∷◌, ◌&&◌, ◌==◌, find,
  subst, ap, Bool-cases, Option-cases, ==_iff, arith, false, true, Bool, length, select, is_some,
  or_else, update_where, ltb,
}
use self_rss.Prelude.Text.{Text, codes, trim}
pub use self_rss.AppError.{>>=_ok, >>_ok, eq_of_ok}
use self_rss.Categories.{
  Category, Result, Failure, bad_request, ok, fail, require, is_descendant, find_all_by_user,
  find_by_id, Changes, check_parent, apply, slug_for, update,
}
use self_rss.Categories.Slug.{Platform}
use self_rss.Categories.Chains.{Grounded, Avoids}
use self_rss.Categories.Descends.{descends-Avoids, empty-Avoids}
use self_rss.Categories.Forest.{
  IsForest, select-update, found-after, changed-Grounded, kept-Grounded,
}

pub find-select :
    (q p : Category → Bool) (rows : List Category)
    → find p (select q rows) ≡ find (λ c. q c && p c) rows
find-select q p [] = refl
find-select q p (c ∷ rows) = elim (Bool-cases (q c)) [
  | inl e ↦ rw (e, find-select q p rows) refl
  | inr e ↦ rw (e, find-select q p rows) refl
]

-- The tests of `check_parent` that a new parent passed.
parent-checked :
    (user_id category_id p : ℕ) (table : List Category)
    → check_parent user_id category_id (some (some p)) table ≡ ok tt
    → ((p == category_id) ≡ false)
      × (((p == 0) ≡ true) ⊎ (is_descendant user_id category_id p table ≡ false))
unfolding check_parent
parent-checked user_id category_id p table h = elim (Bool-cases (p == category_id)) [
  | inl e ↦ absurd (failed (rw (e, check_parent) at h))
  | inr e ↦ elim (Bool-cases (p == 0)) [
    | inl z ↦ (e, inl z)
    | inr z ↦ elim (Bool-cases (is_some (find_by_id p user_id table))) [
      | inr k ↦ absurd (failed (rw (e, z, k) at h))
      | inl k ↦ elim (Bool-cases (is_descendant user_id category_id p table)) [
        | inl d ↦ absurd (failed (rw (e, z, k, d) at h))
        | inr d ↦ (e, inr d)
      ]
    ]
  ]
]
  where
    failed : {e : Failure} → ◌≡◌ {A = Result (Unit {0})} (fail e) (ok tt) → ⊥
    failed h = cc

module _ (user_id category_id : ℕ) (table : List Category) where
  abbrev own : List Category
  own = find_all_by_user user_id table

  -- The category is one of the user's, and so its identifier is not the empty one.
  not_empty :
      (c : Category)
      → find (λ c. c.id == 0) own ≡ none
      → find (λ c. c.id == category_id) own ≡ some c
      → (category_id == 0) ≡ false
  not_empty c no_empty found = elim (Bool-cases (category_id == 0)) [
    | inr e ↦ e
    | inl e ↦ absurd (
        none-ne-some c (
          sym no_empty
          ∙ subst (λ k. find (λ c. c.id == k) own ≡ some c) ((==_iff category_id 0).0 e) found))
  ]

  -- A parent that is checked is none, or one whose chain does not meet the category.
  checked-Avoids :
      (c : Category)
      → IsForest user_id table
      → find (λ c. c.id == category_id) own ≡ some c
      → (parent : Option ℕ) → check_parent user_id category_id (some parent) table ≡ ok tt
      → (parent ≡ none) ⊎ ((p : ℕ) × (parent ≡ some p) × Avoids own category_id p)
  unfolding is_descendant
  checked-Avoids c forest found none h = inl refl
  checked-Avoids c forest found (some p) h =
      inr (p, refl, avoids (parent-checked user_id category_id p table h))
    where
      apart : (p == category_id) ≡ false → p ≡ category_id → ⊥
      apart e k = ground arith

      avoids :
          ((p == category_id) ≡ false)
            × (((p == 0) ≡ true) ⊎ (is_descendant user_id category_id p table ≡ false))
          → Avoids own category_id p
      avoids (_, inl z) =
          empty-Avoids own category_id forest.1 (not_empty c forest.1 found) forest.0 p z
      avoids (e, inr d) =
          descends-Avoids own category_id forest.1 (not_empty c forest.1 found) forest.0
            (length own + 2) [] p (tt, λ s m. absurd (nothing m)) (omega arith) (apart e) d
        where
          nothing : false ≡ true → ⊥
          nothing h = ground arith

  -- The parts of an update that succeeds.
  updated :
      (platform : Platform) (changes : Changes) (now : ℕ) (c : Category) (table' : List Category)
      → find_by_id category_id user_id table ≡ some c
      → update platform user_id category_id changes now table ≡ ok table'
      → (check_parent user_id category_id changes.parent_category_id table ≡ ok tt)
        × ((slug : Option Text) × (name : Text) × (table'
              ≡ update_where
                  (λ c. c.user_id == user_id && c.id == category_id)
                  (apply changes slug name now)
                  table))
  unfolding update
  updated platform changes now c table' found h =
      let (_, checked, h1) =
        >>_ok (check_parent user_id category_id changes.parent_category_id table) _
          (rw (found, update) at h) in
      let name : Text = elim changes.name [ none ↦ c.name | some name ↦ trim name ] in
      let (_, _, h2) =
        >>_ok (require (ltb 0 (length name)) (bad_request (codes "Category name is required"))) _
          h1 in
      let (slug, _, h3) =
        >>=_ok
          (slug_for platform user_id category_id changes
            (or_else changes.parent_category_id c.parent_category_id) name table)
          _ h2 in
      (checked, (slug, name, sym (eq_of_ok _ _ h3)))

  -- The parent of the category after the changes.
  new_parent :
      (changes : Changes) (slug : Option Text) (name : Text) (now : ℕ) (c : Category)
      → IsForest user_id table
      → find (λ c. c.id == category_id) own ≡ some c
      → check_parent user_id category_id changes.parent_category_id table ≡ ok tt
      → (x : ℕ)
      → Grounded (update_where (λ c. c.id == category_id) (apply changes slug name now) own) x
  new_parent changes slug name now c forest found checked x =
      elim (Option-cases changes.parent_category_id) [
        | inl e ↦
            kept-Grounded own category_id (apply changes slug name now) (λ c. refl) c found
              (rw e refl) x (forest.0 x)
        | inr (parent, e) ↦
            changed-Grounded own category_id (apply changes slug name now) (λ c. refl) c found
              forest.0
              (subst (λ q. (q ≡ none) ⊎ ((p : ℕ) × (q ≡ some p) × Avoids own category_id p))
                (sym (ap (λ o. or_else o c.parent_category_id) e))
                (checked-Avoids c forest found parent (rw e at checked)))
              x
      ]

update-unknown :
    (platform : Platform) (user_id category_id : ℕ) (changes : Changes) (now : ℕ)
    (table table' : List Category)
    → find_by_id category_id user_id table ≡ none
    → update platform user_id category_id changes now table ≡ ok table'
    → ⊥
unfolding update
update-unknown platform user_id category_id changes now table table' e h =
    failed (rw (e, update) at h)
  where
    failed : {e : Failure} → ◌≡◌ {A = Result (List Category)} (fail e) (ok table') → ⊥
    failed h = cc

-- No update makes a cycle: where every chain of parents of a user's categories ends and none of
-- them has the empty identifier, the same holds after an update that succeeds, whatever it changes
-- and under whichever parent it puts the category.
pub update-IsForest :
    (platform : Platform) (user_id category_id : ℕ) (changes : Changes) (now : ℕ)
    (table table' : List Category)
    → IsForest user_id table
    → update platform user_id category_id changes now table ≡ ok table'
    → IsForest user_id table'
update-IsForest platform user_id category_id changes now table table' forest h =
    elim (Option-cases (find_by_id category_id user_id table)) [
      | inl e ↦ absurd (update-unknown platform user_id category_id changes now table table' e h)
      | inr (c, e) ↦
          let (checked, (slug, name, written)) =
            updated user_id category_id table platform changes now c table' e h in
          let found =
            find-select (λ c. c.user_id == user_id) (λ c. c.id == category_id) table ∙ e in
          let rows =
            ap (find_all_by_user user_id) written
            ∙ select-update user_id category_id (apply changes slug name now) (λ c. refl) table in
          (
            λ x.
                subst (λ rows. Grounded rows x) (sym rows)
                  (new_parent user_id category_id table changes slug name now c forest found checked
                    x),
            ap (find (λ c. c.id == 0)) rows
                ∙ found-after (find_all_by_user user_id table) category_id
                    (apply changes slug name now) (λ c. refl) 0
                ∙ ap (Option.map _) forest.1,
          )
    ]
