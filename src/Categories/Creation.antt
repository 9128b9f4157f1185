-- ===== src/Categories/Creation.antt =====
-- packages/api/src/services/category.service.ts: the hierarchy with a new category.
use mathlib.Core.Option.{none-ne-some}
use self_rss.Prelude.{
  ℕ, ◌≡◌, ◌≢◌, refl, sym, ◌∙◌, ◌⊎◌, inl, inr, none, some, List, [], ◌∷◌, ◌++◌, ◌==◌, find, subst,
  ap, Bool-cases, Option-cases, ==_iff, ==_refl, arith, false, true, Bool, is_eq, All, find-last,
}
use self_rss.Prelude.Rows.{find-Has, Has-All}
use self_rss.Categories.{Category, find_all_by_user}
use self_rss.Categories.Chains.{parent_of, Grounded, Avoids, Avoids-Grounded, Grounded-after}
use self_rss.Categories.Descends.{parent_of-none, parent_of-some}
use self_rss.Categories.Forest.{IsForest}

-- No category has the identifier, or has it as its parent.
abbrev pub IsNew : ℕ → List Category → Type 0
IsNew id rows = All (λ c. ((c.id == id) ≡ false) × (is_eq c.parent_category_id id ≡ false)) rows

select-last :
    (user_id : ℕ) (c : Category)
    → (c.user_id == user_id) ≡ true
    → (table : List Category)
    → find_all_by_user user_id (table ++ (c ∷ [])) ≡ find_all_by_user user_id table ++ (c ∷ [])
select-last user_id c own [] = rw own refl
select-last user_id c own (x ∷ table) = elim (Bool-cases (x.user_id == user_id)) [
  | inl e ↦ rw (e, select-last user_id c own table) refl
  | inr e ↦ rw (e, select-last user_id c own table) refl
]

select-IsNew :
    (id user_id : ℕ) (table : List Category)
    → IsNew id table
    → IsNew id (find_all_by_user user_id table)
select-IsNew id user_id [] h = tt
select-IsNew id user_id (c ∷ table) h = elim (Bool-cases (c.user_id == user_id)) [
  | inl e ↦ rw e (h.0, select-IsNew id user_id table h.1)
  | inr e ↦ rw e (select-IsNew id user_id table h.1)
]

find-append_other :
    (p : Category → Bool) (c : Category) (rows : List Category)
    → p c ≡ false
    → find p (rows ++ (c ∷ [])) ≡ find p rows
find-append_other p c [] h = rw h refl
find-append_other p c (x ∷ rows) h = elim (Bool-cases (p x)) [
  | inl e ↦ rw e refl
  | inr e ↦ rw e (find-append_other p c rows h)
]

absent-id : (id : ℕ) (rows : List Category) → IsNew id rows → find (λ c. c.id == id) rows ≡ none
absent-id id [] h = refl
absent-id id (c ∷ rows) h = rw h.0.0 (absent-id id rows h.1)

module _ (rows : List Category) (new : Category) (fresh : IsNew new.id rows) where
  abbrev grown : List Category
  grown = rows ++ (new ∷ [])

  apart : (x : ℕ) → x ≢ new.id → (new.id == x) ≡ false
  apart x ne = elim (Bool-cases (new.id == x)) [
    | inl e ↦ absurd (ne (sym ((==_iff new.id x).0 e)))
    | inr e ↦ e
  ]

  parent-grown : (x : ℕ) → x ≢ new.id → parent_of grown x ≡ parent_of rows x
  parent-grown x ne =
      ap (λ o. elim o [ none ↦ none | some c ↦ c.parent_category_id ])
        (find-append_other (λ c. c.id == x) new rows (apart x ne))

  parent-new : parent_of grown new.id ≡ new.parent_category_id
  parent-new =
      parent_of-some grown 0 new.id new
        (find-last (λ c. c.id == new.id) rows new (absent-id new.id rows fresh) (==_refl new.id))

  -- A chain that begins elsewhere does not meet the new category.
  parent-ne : (x p : ℕ) → parent_of rows x ≡ some p → p ≢ new.id
  parent-ne x p e same = elim (Option-cases (find (λ c. c.id == x) rows)) [
    | inl f ↦ none-ne-some p (sym (parent_of-none rows 0 x f) ∙ e)
    | inr (c, f) ↦
        let no = (Has-All _ c rows (find-Has _ c rows f) fresh).1 in
        clash (subst (λ o. is_eq o new.id ≡ false) (sym (parent_of-some rows 0 x c f) ∙ e) no) same
  ]
    where
      clash : is_eq (some p) new.id ≡ false → p ≡ new.id → ⊥
      clash h k = ground arith

  elsewhere-Avoids : (x : ℕ) → x ≢ new.id → Grounded rows x → Avoids rows new.id x
  elsewhere-Avoids x ne (Grounded.root _ e) = Avoids.stop x ne e
  elsewhere-Avoids x ne (Grounded.up _ p e g) =
      Avoids.next x p ne e (elsewhere-Avoids p (parent-ne x p e) g)

  pub grown-Grounded :
      ((x : ℕ) → Grounded rows x)
      → ((p : ℕ) → new.parent_category_id ≡ some p → p ≢ new.id)
      → (x : ℕ) → Grounded grown x
  grown-Grounded forest other x =
      Grounded-after rows grown new.id parent-grown (top (Option-cases new.parent_category_id)) x
        (forest x)
    where
      top :
          (new.parent_category_id ≡ none) ⊎ ((p : ℕ) × (new.parent_category_id ≡ some p))
          → Grounded grown new.id
      top (inl e) = Grounded.root new.id (parent-new ∙ e)
      top (inr (p, e)) = Grounded.up new.id p (parent-new ∙ e) (
          Avoids-Grounded rows grown new.id parent-grown p
            (elsewhere-Avoids p (other p e) (forest p)))

-- The hierarchy of a user with a category that is added.
pub added-IsForest :
    (user_id : ℕ) (new : Category) (table : List Category)
    → (new.user_id == user_id) ≡ true
    → IsNew new.id table
    → (new.id == 0) ≡ false
    → ((p : ℕ) → new.parent_category_id ≡ some p → p ≢ new.id)
    → IsForest user_id table
    → IsForest user_id (table ++ (new ∷ []))
added-IsForest user_id new table own fresh not_empty other forest =
    let rows = find_all_by_user user_id table in
    subst (λ rows. ((x : ℕ) → Grounded rows x) × (find (λ c. c.id == 0) rows ≡ none))
      (sym (select-last user_id new own table))
      (
        grown-Grounded rows new (select-IsNew new.id user_id table fresh) forest.0 other,
        find-append_other (λ c. c.id == 0) new rows not_empty ∙ forest.1,
      )
