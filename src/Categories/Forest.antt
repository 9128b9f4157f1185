-- ===== src/Categories/Forest.antt =====
-- packages/api/src/services/category.service.ts: the categories of a user stay a forest.
use mathlib.Core.Option
use mathlib.Core.Option.{none-ne-some}
use self_rss.Prelude.{
  subst, arith, ℕ, ◌≡◌, ◌≢◌, refl, sym, ◌∙◌, ◌⊎◌, inl, inr, none, some, List, [], ◌∷◌, ◌&&◌, ◌==◌,
  find, ap, Bool-cases, Option-cases, ==_iff, false, true, update_where, find-update_other,
  find-holds, if◌then◌else◌,
}
use self_rss.Categories.{Category, find_all_by_user}
use self_rss.Categories.Chains.{parent_of, Grounded, Avoids, Avoids-Grounded, Grounded-after}
use self_rss.Categories.Descends.{parent_of-none, parent_of-some}

-- Every chain of parents of the user's categories ends, and no category has the empty identifier.
abbrev pub IsForest : ℕ → List Category → Type 0
IsForest user_id table =
    ((x : ℕ) → Grounded (find_all_by_user user_id table) x)
    × (find (λ c. c.id == 0) (find_all_by_user user_id table) ≡ none)

-- The user's categories after an update are the user's categories updated.
pub select-update :
    (user_id id : ℕ) (f : Category → Category)
    → ((c : Category) → (f c).user_id ≡ c.user_id)
    → (table : List Category)
    → find_all_by_user user_id (update_where (λ c. c.user_id == user_id && c.id == id) f table)
      ≡ update_where (λ c. c.id == id) f (find_all_by_user user_id table)
select-update user_id id f same [] = refl
select-update user_id id f same (c ∷ table) = elim (Bool-cases (c.user_id == user_id)) [
  | inl e ↦ elim (Bool-cases (c.id == id)) [
    | inl k ↦
        let own : ((f c).user_id == user_id) ≡ true = ap (λ u. u == user_id) (same c) ∙ e in
        rw (e, k, own, select-update user_id id f same table) refl
    | inr k ↦ rw (e, k, e, select-update user_id id f same table) refl
  ]
  | inr e ↦ rw (e, e, select-update user_id id f same table) refl
]

module _ (rows : List Category) (id : ℕ) (f : Category → Category)
    (same : (c : Category) → (f c).id ≡ c.id) where
  abbrev pub after : List Category
  after = update_where (λ c. c.id == id) f rows

  pub found-after :
      (x : ℕ)
      → find (λ c. c.id == x) after
        ≡ Option.map (λ c. if c.id == id then f c else c) (find (λ c. c.id == x) rows)
  found-after x =
      find-update_other (λ c. c.id == x) (λ c. c.id == id) f (λ c. ap (λ i. i == x) (same c)) rows

  apart : (i x : ℕ) → i ≡ x → x ≢ id → (i == id) ≡ false
  apart i x e ne = elim (Bool-cases (i == id)) [
    | inl h ↦ absurd (ne (sym e ∙ (==_iff i id).0 h))
    | inr h ↦ h
  ]

  parent-other : (x : ℕ) → x ≢ id → parent_of after x ≡ parent_of rows x
  parent-other x ne = elim (Option-cases (find (λ c. c.id == x) rows)) [
    | inl e ↦
        parent_of-none after 0 x (found-after x ∙ ap (Option.map _) e)
        ∙ sym (parent_of-none rows 0 x e)
    | inr (c, e) ↦
        let key = (==_iff c.id x).0 (find-holds _ rows e) in
        parent_of-some after 0 x c
          (found-after x ∙ ap (Option.map _) e ∙ rw (apart c.id x key ne) refl)
        ∙ sym (parent_of-some rows 0 x c e)
  ]

  parent-changed :
      (c : Category)
      → find (λ c. c.id == id) rows ≡ some c
      → parent_of after id ≡ (f c).parent_category_id
  parent-changed c e =
      parent_of-some after 0 id (f c)
        (found-after id ∙ ap (Option.map _) e ∙ rw (find-holds (λ c. c.id == id) rows e) refl)

  -- Changing the parent of one category to one whose chain does not meet it leaves all chains ended.
  pub changed-Grounded :
      (c : Category)
      → find (λ c. c.id == id) rows ≡ some c
      → ((x : ℕ) → Grounded rows x)
      → ((f c).parent_category_id ≡ none)
        ⊎ ((p : ℕ) × ((f c).parent_category_id ≡ some p) × Avoids rows id p)
      → (x : ℕ) → Grounded after x
  changed-Grounded c e forest parent x =
      Grounded-after rows after id parent-other (top parent) x (forest x)
    where
      top :
          ((f c).parent_category_id ≡ none)
            ⊎ ((p : ℕ) × ((f c).parent_category_id ≡ some p) × Avoids rows id p)
          → Grounded after id
      top (inl h) = Grounded.root id (parent-changed c e ∙ h)
      top (inr (p, h, v)) =
          Grounded.up id p (parent-changed c e ∙ h) (Avoids-Grounded rows after id parent-other p v)

  parent-kept :
      (c : Category)
      → find (λ c. c.id == id) rows ≡ some c
      → (f c).parent_category_id ≡ c.parent_category_id
      → (x : ℕ) → parent_of after x ≡ parent_of rows x
  parent-kept c e kept x = elim (Bool-cases (x == id)) [
    | inl h ↦
        subst (λ k. parent_of after k ≡ parent_of rows k) (sym ((==_iff x id).0 h))
          (parent-changed c e ∙ kept ∙ sym (parent_of-some rows 0 id c e))
    | inr h ↦ parent-other x (λ k. clash h k)
  ]
    where
      clash : (x == id) ≡ false → x ≡ id → ⊥
      clash h k = ground arith

  -- An update that keeps the parent keeps the chains.
  pub kept-Grounded :
      (c : Category)
      → find (λ c. c.id == id) rows ≡ some c
      → (f c).parent_category_id ≡ c.parent_category_id
      → (x : ℕ) → Grounded rows x
      → Grounded after x
  kept-Grounded c e kept x (Grounded.root _ h) = Grounded.root x (parent-kept c e kept x ∙ h)
  kept-Grounded c e kept x (Grounded.up _ p h g) =
      Grounded.up x p (parent-kept c e kept x ∙ h) (kept-Grounded c e kept p g)
