-- ===== src/Categories/Hierarchy.antt =====
-- packages/api/src/services/category.service.ts: the hierarchy of a user through any sequence of
-- operations.
use mathlib.Core.Option
use self_rss.Prelude.{
  ℕ, ◌≡◌, refl, sym, ◌∙◌, inl, inr, Option, none, some, List, [], ◌&&◌, ◌||◌, not, map, ◌==◌, find,
  subst, ap, Option-cases, ==_refl, arith, false, true, Bool, length, is_some, or_else,
  update_where, ltb, all, distinct, find-update_other, if-both, find-holds, if◌then◌else◌, same,
}
use self_rss.Prelude.Text.{Text, codes, trim}
use self_rss.Prelude.Rows.{Has-All, find-Has}
use self_rss.Categories.{
  Category, Failure, ok, not_found, require, is_truthy, find_all_by_user, find_by_id, Changes,
  SortOrder, feed_count, child_count, unique_slug_for_parent, create, update, delete, reorder,
}
use self_rss.Categories.Slug.{Platform}
use self_rss.Categories.Chains.{parent_of, Grounded}
use self_rss.Categories.Descends.{parent_of-none, parent_of-some}
use self_rss.Categories.Forest.{IsForest}
use self_rss.Categories.Update.{update-IsForest, >>_ok, >>=_ok, eq_of_ok, find-select}
use self_rss.Categories.Removal.{removed-IsForest, same-Grounded}
use self_rss.Categories.Creation.{IsNew, added-IsForest}

require-holds : (b : Bool) (e : Failure) {a : Unit {0}} → require b e ≡ ok a → b ≡ true
require-holds true e h = refl
require-holds false e h = cc

-- A parent that was found is not the new category.
parent_ne_new :
    (id user_id : ℕ) (table : List Category)
    → IsNew id table
    → (id == 0) ≡ false
    → (p : ℕ) → (not (is_truthy (some p)) || is_some (find_by_id p user_id table)) ≡ true
    → p ≡ id
    → ⊥
parent_ne_new id user_id table fresh not_empty p h same =
    elim (Option-cases (find_by_id p user_id table)) [
      | inl e ↦ empty (rw e at h)
      | inr (c, e) ↦
          found c (find-holds (λ c. c.user_id == user_id && c.id == p) table e)
            (Has-All _ c table (find-Has _ c table e) fresh).0
    ]
  where
    empty : (not (is_truthy (some p)) || false) ≡ true → ⊥
    empty h = ground arith

    found : (c : Category) → (c.user_id == user_id && c.id == p) ≡ true → (c.id == id) ≡ false → ⊥
    found c h k = ground arith

module _ (platform : Platform) (user_id : ℕ) where
  -- A successful call about the user's categories, or one that leaves them alone.
  pub data Step : List Category → List Category → Type 0 where
    creation :
        (id : ℕ) (given : Text) (parent sort_order : Option ℕ) (now : ℕ)
        {table table' : List Category}
        → IsNew id table
        → (id == 0) ≡ false
        → create platform id user_id given parent sort_order now table ≡ ok table'
        → Step table table'
    alteration :
        (category_id : ℕ) (changes : Changes) (now : ℕ) {table table' : List Category}
        → update platform user_id category_id changes now table ≡ ok table'
        → Step table table'
    deletion :
        (feed_categories : List ℕ) (category_id : ℕ) {table table' : List Category}
        → delete feed_categories user_id category_id table ≡ ok table'
        → Step table table'
    reordering :
        (orders : List SortOrder) (now changed : ℕ) {table table' : List Category}
        → reorder user_id orders now table ≡ ok (table', changed)
        → Step table table'
    elsewhere :
        {table table' : List Category}
        → find_all_by_user user_id table' ≡ find_all_by_user user_id table
        → Step table table'

  pub data History : List Category → Type 0 where
    start : {table : List Category} → find_all_by_user user_id table ≡ [] → History table
    next :
        (table : List Category) {table' : List Category}
        → History table
        → Step table table'
        → History table'

  create-IsForest :
      (id : ℕ) (given : Text) (parent sort_order : Option ℕ) (now : ℕ)
      (table table' : List Category)
      → IsNew id table
      → (id == 0) ≡ false
      → create platform id user_id given parent sort_order now table ≡ ok table'
      → IsForest user_id table
      → IsForest user_id table'
  unfolding create
  create-IsForest id given parent sort_order now table table' fresh not_empty h forest =
      let (_, _, h1) = >>_ok (require (ltb 0 (length (trim given))) _) _ h in
      let (_, known, h2) =
        >>_ok
          (require (not (is_truthy parent) || is_some (find_by_id (or_else parent 0) user_id table))
            _)
          _ h1 in
      let (slug, _, h3) =
        >>=_ok (unique_slug_for_parent platform user_id parent (trim given) none table) _ h2 in
      subst (IsForest user_id) (eq_of_ok _ table' h3) (
        added-IsForest user_id _ table (==_refl user_id) fresh not_empty
          (λ p e same.
            parent_ne_new id user_id table fresh not_empty p
              (require-holds _ _ (
                subst
                  (λ o.
                    require (not (is_truthy o) || is_some (find_by_id (or_else o 0) user_id table))
                      (not_found (codes "Parent category not found"))
                    ≡ ok _)
                  e known))
              same)
          forest)

  delete-IsForest :
      (feed_categories : List ℕ) (category_id : ℕ) (table table' : List Category)
      → delete feed_categories user_id category_id table ≡ ok table'
      → IsForest user_id table
      → IsForest user_id table'
  unfolding delete
  delete-IsForest feed_categories category_id table table' h forest =
      let (_, _, h1) = >>_ok (require (is_some (find_by_id category_id user_id table)) _) _ h in
      let (_, _, h2) = >>_ok (require (feed_count category_id feed_categories == 0) _) _ h1 in
      let (_, _, h3) = >>_ok (require (child_count category_id user_id table == 0) _) _ h2 in
      subst (IsForest user_id) (eq_of_ok _ table' h3)
        (removed-IsForest user_id category_id table forest)

  -- An update of rows that keeps their parents keeps the forest.
  rows_kept-IsForest :
      (p : Category → Bool) (f : Category → Category) (table : List Category)
      → ((c : Category)
          → f c ≡ record c { sort_order = (f c).sort_order; updated_at = (f c).updated_at })
      → IsForest user_id table
      → IsForest user_id (update_where p f table)
  rows_kept-IsForest p f table keeps forest = (
    λ x.
        same-Grounded (find_all_by_user user_id table)
          (find_all_by_user user_id (update_where p f table))
          (λ x. parents x (find (λ c. c.user_id == user_id && c.id == x) table) refl) x
          (forest.0 x),
    found 0 ∙ ap (Option.map _) (sym (find-select _ (λ c. c.id == 0) table) ∙ forest.1),
  )
    where
      found :
          (x : ℕ)
          → find (λ c. c.id == x) (find_all_by_user user_id (update_where p f table))
            ≡ Option.map
                (λ c. if p c then f c else c)
                (find (λ c. c.user_id == user_id && c.id == x) table)
      found x =
          find-select (λ c. c.user_id == user_id) (λ c. c.id == x) (update_where p f table)
          ∙ find-update_other (λ c. c.user_id == user_id && c.id == x) p f
              (λ c. ap (λ k. k.user_id == user_id && k.id == x) (keeps c)) table

      parents :
          (x : ℕ) (o : Option Category)
          → find (λ c. c.user_id == user_id && c.id == x) table ≡ o
          → parent_of (find_all_by_user user_id (update_where p f table)) x
            ≡ parent_of (find_all_by_user user_id table) x
      parents x none e =
          parent_of-none _ 0 x (found x ∙ ap (Option.map _) e)
          ∙ sym (parent_of-none _ 0 x (find-select _ (λ c. c.id == x) table ∙ e))
      parents x (some c) e =
          parent_of-some _ 0 x (if p c then f c else c) (found x ∙ ap (Option.map _) e)
          ∙ if-both (λ k. k.parent_category_id ≡ c.parent_category_id) (p c) (f c) c
              (ap (λ k. k.parent_category_id) (keeps c)) refl
          ∙ sym (parent_of-some _ 0 x c (find-select _ (λ c. c.id == x) table ∙ e))

  reorder-IsForest :
      (orders : List SortOrder) (now changed : ℕ) (table table' : List Category)
      → reorder user_id orders now table ≡ ok (table', changed)
      → IsForest user_id table
      → IsForest user_id table'
  unfolding reorder
  reorder-IsForest orders now changed table table' h forest =
      let (_, _, h1) =
        >>_ok (require (length (distinct (map (λ u. u.id) orders)) == length orders) _) _ h in
      let (_, _, h2) = >>_ok (require (all _ orders) _) _ h1 in
      let (_, _, h3) = >>_ok (require (all _ orders) _) _ h2 in
      subst (IsForest user_id) (ap (λ r. r.0) (eq_of_ok _ (table', changed) h3))
        (rows_kept-IsForest _ _ table (λ c. refl) forest)

  step-IsForest :
      (table table' : List Category)
      → Step table table'
      → IsForest user_id table
      → IsForest user_id table'
  step-IsForest table table' (Step.creation id given parent sort_order now fresh not_empty h)
        forest =
      create-IsForest id given parent sort_order now table table' fresh not_empty h forest
  step-IsForest table table' (Step.alteration category_id changes now h) forest =
      update-IsForest platform user_id category_id changes now table table' forest h
  step-IsForest table table' (Step.deletion feed_categories category_id h) forest =
      delete-IsForest feed_categories category_id table table' h forest
  step-IsForest table table' (Step.reordering orders now changed h) forest =
      reorder-IsForest orders now changed table table' h forest
  step-IsForest table table' (Step.elsewhere e) forest =
      subst (λ rows. ((x : ℕ) → Grounded rows x) × (find (λ c. c.id == 0) rows ≡ none)) (sym e)
        forest

  -- The categories of a user are a forest at any time. From a table without any of them, whatever
  -- successful calls create, update, delete or reorder the user's categories, in any order, and
  -- whatever else happens that leaves them alone, every chain of parents ends. The identifier of a new
  -- category is not empty, and no category has it or names it as its parent.
  pub History-IsForest : (table : List Category) → History table → IsForest user_id table
  History-IsForest table (History.start e) =
      subst (λ rows. ((x : ℕ) → Grounded rows x) × (find (λ c. c.id == 0) rows ≡ none)) (sym e)
        (λ x. Grounded.root x refl, refl)
  History-IsForest table (History.next before path step) =
      step-IsForest before table step (History-IsForest before path)
