-- ===== src/Categories/Removal.antt =====
-- packages/api/src/services/category.service.ts: the hierarchy without one of its categories.
use self_rss.Prelude.{
  ℕ, ◌≡◌, ◌≢◌, refl, sym, ◌∙◌, inl, inr, none, some, List, [], ◌∷◌, ◌&&◌, not, ◌==◌, find, subst,
  ap, Bool-cases, ==_iff, arith, false, true, Bool, select,
}
use self_rss.Categories.{Category, find_all_by_user}
use self_rss.Categories.Chains.{parent_of, Grounded, Grounded-after}
use self_rss.Categories.Descends.{parent_of-none}
use self_rss.Categories.Forest.{IsForest}

module _ (rows after : List Category) (same : (x : ℕ) → parent_of after x ≡ parent_of rows x) where
  pub same-Grounded : (x : ℕ) → Grounded rows x → Grounded after x
  same-Grounded x (Grounded.root _ e) = Grounded.root x (same x ∙ e)
  same-Grounded x (Grounded.up _ p e g) = Grounded.up x p (same x ∙ e) (same-Grounded p g)

-- A search after rows are removed that it does not look for.
find-select_other :
    (q p : Category → Bool)
    → ((c : Category) → p c ≡ true → q c ≡ true)
    → (rows : List Category) → find p (select q rows) ≡ find p rows
find-select_other q p keep [] = refl
find-select_other q p keep (c ∷ rows) = elim (Bool-cases (p c)) [
  | inl e ↦ rw (keep c e, e) refl
  | inr e ↦ elim (Bool-cases (q c)) [
    | inl k ↦ rw (k, e, find-select_other q p keep rows) refl
    | inr k ↦ rw (k, e, find-select_other q p keep rows) refl
  ]
]

find-select_gone :
    (q p : Category → Bool)
    → ((c : Category) → p c ≡ true → q c ≡ false)
    → (rows : List Category) → find p (select q rows) ≡ none
find-select_gone q p gone [] = refl
find-select_gone q p gone (c ∷ rows) = elim (Bool-cases (q c)) [
  | inl k ↦ elim (Bool-cases (p c)) [
    | inl e ↦ absurd (clash k (gone c e))
    | inr e ↦ rw (k, e, find-select_gone q p gone rows) refl
  ]
  | inr k ↦ rw (k, find-select_gone q p gone rows) refl
]
  where
    clash : {b : Bool} → b ≡ true → b ≡ false → ⊥
    clash h k = ground arith

-- Removing a category leaves the chains of the others as they are, or shorter.
module _ (user_id category_id : ℕ) (table : List Category) where
  abbrev pub kept : Category → Bool
  kept c = not (c.user_id == user_id && c.id == category_id)

  select-swap :
      (table : List Category)
      → find_all_by_user user_id (select kept table)
        ≡ select (λ c. not (c.id == category_id)) (find_all_by_user user_id table)
  select-swap [] = refl
  select-swap (c ∷ table) = elim (Bool-cases (c.user_id == user_id)) [
    | inl e ↦ elim (Bool-cases (c.id == category_id)) [
      | inl k ↦ rw (e, k, select-swap table) refl
      | inr k ↦ rw (e, k, e, select-swap table) refl
    ]
    | inr e ↦ rw (e, e, select-swap table) refl
  ]

  pub removed-IsForest : IsForest user_id table → IsForest user_id (select kept table)
  removed-IsForest forest =
      let rows = find_all_by_user user_id table in
      let after = select (λ c. not (c.id == category_id)) rows in
      let other = λ (x : ℕ) (ne : x ≢ category_id).
        find-select_other (λ c. not (c.id == category_id)) (λ c. c.id == x)
          (λ c h. stays c.id x h ne) rows in
      subst (λ rows. ((x : ℕ) → Grounded rows x) × (find (λ c. c.id == 0) rows ≡ none))
        (sym (select-swap table))
        (
          λ x.
              Grounded-after rows after category_id
                (λ x ne.
                  ap (λ o. elim o [ none ↦ none | some c ↦ c.parent_category_id ]) (other x ne))
                (Grounded.root category_id (
                  parent_of-none after 0 category_id (
                    find-select_gone (λ c. not (c.id == category_id)) (λ c. c.id == category_id)
                      (λ c h. rw h refl) rows)))
                x (forest.0 x),
          elim (Bool-cases (0 == category_id)) [
            | inl e ↦
                find-select_gone (λ c. not (c.id == category_id)) (λ c. c.id == 0)
                  (λ c h. goes c.id h e) rows
            | inr e ↦ other 0 (λ k. apart e k) ∙ forest.1
          ],
        )
    where
      stays : (i x : ℕ) → (i == x) ≡ true → x ≢ category_id → not (i == category_id) ≡ true
      stays i x h ne = elim (Bool-cases (i == category_id)) [
        | inl e ↦ absurd (ne (sym ((==_iff i x).0 h) ∙ (==_iff i category_id).0 e))
        | inr e ↦ rw e refl
      ]

      goes : (i : ℕ) → (i == 0) ≡ true → (0 == category_id) ≡ true → not (i == category_id) ≡ false
      goes i h e = ground arith

      apart : (0 == category_id) ≡ false → 0 ≡ category_id → ⊥
      apart e k = ground arith
