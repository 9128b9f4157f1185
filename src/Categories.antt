-- ===== src/Categories.antt =====
-- packages/api/src/services/category.service.ts and
-- packages/api/src/repositories/category.repository.ts: the categories of a user, which form
-- a hierarchy. `findAllByUser` also sorts its rows, which no operation here depends on.
pub mod Slug
pub mod Free
pub mod Chains
pub mod Descends
pub mod Forest
pub mod Update
pub mod Ancestors
pub mod Removal
pub mod Creation
pub mod Hierarchy
mod Tests
use mathlib.Core.Option
use self_rss.Prelude.{
  ℕ, zero, suc, ◌+◌, Bool, true, false, not, ◌&&◌, ◌||◌, Option, none, some, List, [], ◌∷◌, ◌++◌,
  map, ltb, ◌==◌, if◌then◌else◌, is_none, is_some, or_else, same, length, select, find, any, all,
  contains, count, update_where, distinct,
}
use self_rss.Prelude.Text.{same_text, Text, codes, trim}
pub use self_rss.AppError.{
  Failure, bad_request, not_found, conflict, Result, ok, fail, ◌>>=◌, ◌>>◌, require,
}
use self_rss.Categories.Slug.{Platform, unique_category_slug}

-- A row of `categories`.
pub record Category : Type 0 where
  pub id : ℕ
  pub user_id : ℕ
  pub parent_category_id : Option ℕ
  pub name : Text
  pub slug : Text
  pub sort_order : ℕ
  pub created_at : ℕ
  pub updated_at : ℕ

abbrev pub is_truthy : Option ℕ → Bool
is_truthy none = false
is_truthy (some a) = not (a == 0)

abbrev pub find_all_by_user : ℕ → List Category → List Category
find_all_by_user user_id = select λ c. c.user_id == user_id

abbrev pub find_by_id : ℕ → ℕ → List Category → Option Category
find_by_id id user_id = find λ c. c.user_id == user_id && c.id == id

-- The loop of `isDescendant`: `by_id` are the rows of the map, `seen` the parents it met.
unfoldable pub descends : List Category → ℕ → ℕ → List ℕ → Option Category → Bool
descends by_id ancestor_id zero seen current = false
descends by_id ancestor_id (suc fuel) seen none = false
descends by_id ancestor_id (suc fuel) seen (some current) = elim current.parent_category_id [
  | none ↦ false
  | some parent ↦
      if parent == 0
      then false
      else if parent == ancestor_id
      then true
      else if contains parent seen
      then false
      else descends by_id ancestor_id fuel (parent ∷ seen) (find (λ c. c.id == parent) by_id)
]

-- The loop meets each of the user's categories once at most, and one parent that is none of them.
unfoldable pub is_descendant : ℕ → ℕ → ℕ → List Category → Bool
unfolding descends
is_descendant user_id ancestor_id candidate_id table =
    let by_id = find_all_by_user user_id table in
    descends by_id ancestor_id (length by_id + 2) [] (find (λ c. c.id == candidate_id) by_id)

module _ (platform : Platform) where
  abbrev pub normalized : Text → Text
  normalized name = platform.to_locale_lower_case (trim name)

  unfoldable pub unique_slug_for_parent :
      ℕ → Option ℕ → Text → Option ℕ → List Category → Result Text
  unfolding unique_category_slug trim
  unique_slug_for_parent user_id parent name exclude table =
      let siblings =
        select (λ c. same c.parent_category_id parent && not (same (some c.id) exclude))
          (find_all_by_user user_id table) in
      if any (λ c. same_text (normalized c.name) (normalized name)) siblings
      then fail (conflict (codes "Category already exists in this parent"))
      else ok (unique_category_slug platform name (map (λ c. c.slug) siblings))

-- The changes of an update; `none` is a field that is left out, and `some none` a parent of null.
pub record Changes : Type 0 where
  pub name : Option Text
  pub parent_category_id : Option (Option ℕ)
  pub sort_order : Option ℕ

-- The new parent must be one of the user's categories, and none below the category.
unfoldable pub check_parent : ℕ → ℕ → Option (Option ℕ) → List Category → Result (Unit {0})
unfolding is_descendant
check_parent user_id category_id none table = ok tt
check_parent user_id category_id (some none) table = ok tt
check_parent user_id category_id (some (some parent)) table =
    if parent == category_id
    then fail (bad_request (codes "Category cannot be its own parent"))
    else if parent == 0
    then ok tt
    else do
      require (is_some (find_by_id parent user_id table))
          (not_found (codes "Parent category not found"))
      require (not (is_descendant user_id category_id parent table))
          (bad_request (codes "Category cannot be moved under one of its descendants."))

abbrev pub apply : Changes → Option Text → Text → ℕ → Category → Category
apply changes slug name now c = record c {
  name = if is_some changes.name then name else c.name;
  slug = or_else slug c.slug;
  parent_category_id = or_else changes.parent_category_id c.parent_category_id;
  sort_order = or_else changes.sort_order c.sort_order;
  updated_at = now;
}

module _ (platform : Platform) where
  -- `updates.slug`, if the name or the parent changes.
  unfoldable pub slug_for : ℕ → ℕ → Changes → Option ℕ → Text → List Category → Result (Option Text)
  unfolding unique_slug_for_parent
  slug_for user_id category_id changes parent name table =
      if is_none changes.name && is_none changes.parent_category_id then ok none else do
        slug ← unique_slug_for_parent platform user_id parent name (some category_id) table
        ok (some slug)

  unfoldable pub update : ℕ → ℕ → Changes → ℕ → List Category → Result (List Category)
  unfolding check_parent slug_for trim
  update user_id category_id changes now table = elim (find_by_id category_id user_id table) [
    | none ↦ fail (not_found (codes "Category not found"))
    | some cat ↦ do
      check_parent user_id category_id changes.parent_category_id table
      let name : Text = elim changes.name [ none ↦ cat.name | some name ↦ trim name ]
      require (ltb 0 (length name)) (bad_request (codes "Category name is required"))
      slug ←
          slug_for user_id category_id changes
            (or_else changes.parent_category_id cat.parent_category_id) name table
      ok (
          update_where (λ c. c.user_id == user_id && c.id == category_id)
            (apply changes slug name now) table)
  ]

  unfoldable pub create :
      ℕ → ℕ → Text → Option ℕ → Option ℕ → ℕ → List Category → Result (List Category)
  unfolding unique_slug_for_parent trim
  create id user_id given parent sort_order now table = do
    let name = trim given
    require (ltb 0 (length name)) (bad_request (codes "Category name is required"))
    require (not (is_truthy parent) || is_some (find_by_id (or_else parent 0) user_id table))
        (not_found (codes "Parent category not found"))
    slug ← unique_slug_for_parent platform user_id parent name none table
    ok (
        table
        ++ (record {
          id = id;
          user_id = user_id;
          parent_category_id = parent;
          name = name;
          slug = slug;
          sort_order = or_else sort_order 0;
          created_at = now;
          updated_at = now;
        }
            ∷ []))

-- `feedCount`, over the category of each feed, and `childCount`.
abbrev pub feed_count : ℕ → List ℕ → ℕ
feed_count category_id = count λ c. c == category_id

abbrev pub child_count : ℕ → ℕ → List Category → ℕ
child_count category_id user_id =
    count λ c. same c.parent_category_id (some category_id) && c.user_id == user_id

unfoldable pub delete : List ℕ → ℕ → ℕ → List Category → Result (List Category)
delete feed_categories user_id category_id table = do
  require (is_some (find_by_id category_id user_id table)) (not_found (codes "Category not found"))
  require (feed_count category_id feed_categories == 0)
      (bad_request (codes "Cannot delete category with feeds. Move or delete feeds first."))
  require (child_count category_id user_id table == 0) (
      bad_request
        (codes "Cannot delete category with subcategories. Move or delete subcategories first."))
  ok (select (λ c. not (c.user_id == user_id && c.id == category_id)) table)

pub record SortOrder : Type 0 where
  pub id : ℕ
  pub sort_order : ℕ

-- `CASE WHEN id = … THEN … ELSE sort_order END`.
abbrev pub case_of : List SortOrder → Category → ℕ
case_of [] c = c.sort_order
case_of (u ∷ us) c = if c.id == u.id then u.sort_order else case_of us c

unfoldable pub reorder : ℕ → List SortOrder → ℕ → List Category → Result (List Category × ℕ)
unfolding distinct
reorder user_id updates now table = do
  let ids = map (λ u. u.id) updates
  require (length (distinct ids) == length updates)
      (bad_request (codes "Category reorder contains duplicate category ids"))
  let found = λ (u : SortOrder). find (λ c. c.id == u.id) (find_all_by_user user_id table)
  require (all (λ u. is_some (found u)) updates) (not_found (codes "Category not found"))
  let parent : SortOrder → Option ℕ =
      λ u. elim (found u) [ none ↦ none | some c ↦ c.parent_category_id ]
  require (all (λ u. all (λ v. same (parent u) (parent v)) (first_of updates)) updates)
      (bad_request (codes "Categories can only be reordered within the same parent"))
  let moved = λ (c : Category). c.user_id == user_id && contains c.id ids
  ok (
    update_where moved (λ c. record c { sort_order = case_of updates c; updated_at = now }) table,
    count moved table,
  )
  where
    first_of : List SortOrder → List SortOrder
    first_of [] = []
    first_of (u ∷ us) = u ∷ []
