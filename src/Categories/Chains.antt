-- ===== src/Categories/Chains.antt =====
-- packages/api/src/repositories/category.repository.ts: the chain of parents above a category.
use self_rss.Prelude.{
  ℕ, ◌≡◌, ◌≢◌, sym, ◌∙◌, inl, inr, Option, none, some, List, ◌==◌, find, subst, Bool-cases, ==_iff,
  arith, false, eq_of_some,
}
use mathlib.Core.Option.{none-ne-some}
use self_rss.Categories.{Category}

-- The parent of a category among these rows; that of an unknown one is none.
abbrev pub parent_of : List Category → ℕ → Option ℕ
parent_of rows x = elim (find (λ c. c.id == x) rows) [ none ↦ none | some c ↦ c.parent_category_id ]

-- The chain of parents ends.
pub data Grounded (rows : List Category) : ℕ → Type 0 where
  root : (x : ℕ) → parent_of rows x ≡ none → Grounded rows x
  up : (x p : ℕ) → parent_of rows x ≡ some p → Grounded rows p → Grounded rows x

-- The second category is above the first.
pub data Below (rows : List Category) : ℕ → ℕ → Type 0 where
  one : (x y : ℕ) → parent_of rows x ≡ some y → Below rows x y
  more : (x p y : ℕ) → parent_of rows x ≡ some p → Below rows p y → Below rows x y

-- The chain from the second category on ends, and does not meet the first.
pub data Avoids (rows : List Category) (a : ℕ) : ℕ → Type 0 where
  stop : (x : ℕ) → x ≢ a → parent_of rows x ≡ none → Avoids rows a x
  next : (x p : ℕ) → x ≢ a → parent_of rows x ≡ some p → Avoids rows a p → Avoids rows a x

module _ (rows : List Category) where
  pub Below-up : (x y z : ℕ) → Below rows x y → parent_of rows y ≡ some z → Below rows x z
  Below-up x y z (Below.one _ _ e) h = Below.more x y z e (Below.one y z h)
  Below-up x y z (Below.more _ p _ e b) h = Below.more x p z e (Below-up p y z b h)

  -- A category on a chain that ends is not above itself.
  pub Grounded-acyclic : (x : ℕ) → Grounded rows x → Below rows x x → ⊥
  Grounded-acyclic x (Grounded.root _ e) (Below.one _ _ h) = none-ne-some x (sym e ∙ h)
  Grounded-acyclic x (Grounded.root _ e) (Below.more _ p _ h b) = none-ne-some p (sym e ∙ h)
  Grounded-acyclic x (Grounded.up _ p e g) b = Grounded-acyclic p g (lowered b)
    where
      lowered : Below rows x x → Below rows p p
      lowered (Below.one _ _ h) =
          let same : x ≡ p = eq_of_some x p (sym h ∙ e) in
          Below.one p p (subst (λ k. parent_of rows k ≡ some p) same e)
      lowered (Below.more _ q _ h b) =
          let same : q ≡ p = eq_of_some q p (sym h ∙ e) in
          subst (λ k. Below rows k p) same (Below-up q x p b e)

module _ (rows after : List Category) (a : ℕ)
    (same : (x : ℕ) → x ≢ a → parent_of after x ≡ parent_of rows x) where
  -- A chain that does not meet the changed category is the same afterwards.
  pub Avoids-Grounded : (x : ℕ) → Avoids rows a x → Grounded after x
  Avoids-Grounded x (Avoids.stop _ ne e) = Grounded.root x (same x ne ∙ e)
  Avoids-Grounded x (Avoids.next _ p ne e v) = Grounded.up x p (same x ne ∙ e) (Avoids-Grounded p v)

  changed_or_same : (x : ℕ) → Grounded after a → (x ≢ a → Grounded after x) → Grounded after x
  changed_or_same x top other = elim (Bool-cases (x == a)) [
    | inl e ↦ subst (Grounded after) (sym ((==_iff x a).0 e)) top
    | inr e ↦ other (λ k. apart x e k)
  ]
    where
      apart : (x : ℕ) → (x == a) ≡ false → x ≡ a → ⊥
      apart x e k = ground arith

  pub Grounded-after : Grounded after a → (x : ℕ) → Grounded rows x → Grounded after x
  Grounded-after top x (Grounded.root _ h) =
      changed_or_same x top (λ ne. Grounded.root x (same x ne ∙ h))
  Grounded-after top x (Grounded.up _ p h g) =
      let rest = Grounded-after top p g in
      changed_or_same x top (λ ne. Grounded.up x p (same x ne ∙ h) rest)
