-- ===== src/Categories/Ancestors.antt =====
-- packages/api/src/repositories/category.repository.ts: what `isDescendant` answers.
use mathlib.Core.Option.{none-ne-some}
use self_rss.Prelude.{
  ℕ, zero, suc, ◌+◌, ◌≡◌, ◌↔◌, sym, ◌∙◌, ◌⊎◌, inl, inr, none, some, List, [], ◌∷◌, ◌==◌, find,
  contains, subst, ap, Bool-cases, Option-cases, ==_iff, arith, false, true, eq_of_some, length,
}
use self_rss.Categories.{Category, descends, is_descendant, find_all_by_user}
use self_rss.Categories.Chains.{Grounded-acyclic, Below, Avoids}
use self_rss.Categories.Descends.{descends-Avoids, parent_of-some}
use self_rss.Categories.Forest.{IsForest}

module _ (rows : List Category) (a : ℕ) where
  descends-step :
      (fuel : ℕ) (seen : List ℕ) (c : Category) (p : ℕ)
      → c.parent_category_id ≡ some p
      → descends rows a (suc fuel) seen (some c) ≡ true
      → (p ≡ a) ⊎ (descends rows a fuel (p ∷ seen) (find (λ c. c.id == p) rows) ≡ true)
  unfolding descends
  descends-step fuel seen c p e h = elim (Bool-cases (p == 0)) [
    | inl z ↦ absurd (clash (rw (e, z) at h))
    | inr z ↦ elim (Bool-cases (p == a)) [
      | inl f ↦ inl ((==_iff p a).0 f)
      | inr f ↦ elim (Bool-cases (contains p seen)) [
        | inl g ↦ absurd (clash (rw (e, z, f, g) at h))
        | inr g ↦ inr (rw (e, z, f, g) at h)
      ]
    ]
  ]
    where
      clash : false ≡ true → ⊥
      clash h = ground arith

  descends-stuck :
      (fuel : ℕ) (seen : List ℕ) (c : Category)
      → c.parent_category_id ≡ none
      → descends rows a (suc fuel) seen (some c) ≡ true
      → ⊥
  unfolding descends
  descends-stuck fuel seen c e h = clash (rw e at h)
    where
      clash : false ≡ true → ⊥
      clash h = ground arith

  -- If the loop answers yes, the category is above the one that it began with.
  descends-Below :
      (fuel : ℕ) (seen : List ℕ) (x : ℕ)
      → descends rows a fuel seen (find (λ c. c.id == x) rows) ≡ true
      → Below rows x a
  unfolding descends
  descends-Below zero seen x h = absurd (ground arith)
  descends-Below (suc fuel) seen x h = elim (Option-cases (find (λ c. c.id == x) rows)) [
    | inl f ↦ absurd (clash (rw f at h))
    | inr (c, f) ↦ elim (Option-cases c.parent_category_id) [
      | inl e ↦ absurd (descends-stuck fuel seen c e (rw f at h))
      | inr (p, e) ↦
          let above = parent_of-some rows 0 x c f ∙ e in
          elim (descends-step fuel seen c p e (rw f at h)) [
            | inl here ↦ Below.one x a (above ∙ ap some here)
            | inr on ↦ Below.more x p a above (descends-Below fuel (p ∷ seen) p on)
          ]
    ]
  ]
    where
      clash : false ≡ true → ⊥
      clash h = ground arith

  Avoids-not_Below : (x : ℕ) → Avoids rows a x → Below rows x a → ⊥
  Avoids-not_Below x (Avoids.stop _ ne e) (Below.one _ _ h) = none-ne-some a (sym e ∙ h)
  Avoids-not_Below x (Avoids.stop _ ne e) (Below.more _ p _ h b) = none-ne-some p (sym e ∙ h)
  Avoids-not_Below x (Avoids.next _ p ne e v) (Below.one _ _ h) =
      not_first p v (eq_of_some p a (sym e ∙ h))
    where
      not_first : (p : ℕ) → Avoids rows a p → p ≡ a → ⊥
      not_first p (Avoids.stop _ ne _) k = ne k
      not_first p (Avoids.next _ _ ne _ _) k = ne k
  Avoids-not_Below x (Avoids.next _ p ne e v) (Below.more _ q _ h b) =
      Avoids-not_Below p v (subst (λ k. Below rows k a) (eq_of_some q p (sym h ∙ e)) b)

-- `isDescendant` answers yes exactly if the candidate stands below the ancestor, where the user's
-- categories are a forest and the ancestor's identifier is not the empty one.
pub is_descendant_iff :
    (user_id ancestor_id candidate_id : ℕ) (table : List Category)
    → IsForest user_id table
    → (ancestor_id == 0) ≡ false
    → (is_descendant user_id ancestor_id candidate_id table ≡ true)
      ↔ Below (find_all_by_user user_id table) candidate_id ancestor_id
unfolding is_descendant
is_descendant_iff user_id ancestor_id candidate_id table forest not_empty = (
  descends-Below rows ancestor_id (length rows + 2) [] candidate_id,
  λ below. elim (Bool-cases (is_descendant user_id ancestor_id candidate_id table)) [
    | inl e ↦ e
    | inr e ↦ absurd (
        Avoids-not_Below rows ancestor_id candidate_id
          (descends-Avoids rows ancestor_id forest.1 not_empty forest.0 (length rows + 2) []
            candidate_id (tt, λ s m. absurd (nothing m)) (omega arith)
            (λ same.
              Grounded-acyclic rows ancestor_id (forest.0 ancestor_id)
                (subst (λ k. Below rows k ancestor_id) same below))
            e)
          below)
  ],
)
  where
    rows : List Category
    rows = find_all_by_user user_id table

    nothing : false ≡ true → ⊥
    nothing h = ground arith
