-- ===== src/Categories/Descends.antt =====
-- packages/api/src/repositories/category.repository.ts: the loop of `isDescendant` tells whether
-- a category is above another.
use self_rss.Prelude.{
  ℕ, zero, suc, ◌+◌, ◌≤◌, ◌≡◌, ◌≢◌, refl, sym, ◌∙◌, ◌⊎◌, inl, inr, none, some, List, [], ◌∷◌, map,
  ◌==◌, find, contains, subst, Bool-cases, Option-cases, ==_iff, arith, false, true, length, Unique,
  pigeonhole, find-holds,
}
use self_rss.Prelude.Rows.{Has-contains, find-Has}
use self_rss.Categories.{Category, descends}
use self_rss.Categories.Chains.{parent_of, Grounded, Grounded-acyclic, Below, Below-up, Avoids}

module _ (rows : List Category) (a : ℕ) where
  ids : List ℕ
  ids = map (λ c. c.id) rows

  -- What the loop knows of the parents that it met before it came to `x`.
  abbrev Seen : List ℕ → ℕ → Type 0
  Seen seen x =
      Unique seen
      × ((s : ℕ)
          → contains s seen ≡ true
          → (s ≡ x) ⊎ (Below rows s x × (contains s (map (λ c. c.id) rows) ≡ true)))

  -- The loop has turns left.
  enough : (seen : List ℕ) (x : ℕ) → Seen seen x → length rows + 2 ≤ length seen → ⊥
  enough seen x known h =
      let bound =
        pigeonhole seen (x ∷ map (λ c. c.id) rows) known.0 (λ z m. listed z (known.1 z m)) in
      too_many bound (length-map rows)
    where
      listed :
          (z : ℕ)
          → (z ≡ x) ⊎ (Below rows z x × (contains z (map (λ c. c.id) rows) ≡ true))
          → contains z (x ∷ map (λ c. c.id) rows) ≡ true
      listed z (inl e) = ground (arith, e)
      listed z (inr (_, m)) = ground arith

      length-map : (rows : List Category) → length (map (λ c. c.id) rows) ≡ length rows
      length-map [] = refl
      length-map (c ∷ rows) = omega (arith, length-map rows)

      too_many :
          length seen ≤ suc (length (map (λ c. c.id) rows))
          → length (map (λ c. c.id) rows) ≡ length rows
          → ⊥
      too_many b e = omega (arith, b, e, h)

  descends-parent :
      (fuel : ℕ) (seen : List ℕ) (c : Category) (p : ℕ)
      → c.parent_category_id ≡ some p
      → (p == 0) ≡ false
      → descends rows a (suc fuel) seen (some c) ≡ false
      → ((p == a) ≡ false)
        × ((contains p seen ≡ true)
            ⊎ (descends rows a fuel (p ∷ seen) (find (λ c. c.id == p) rows) ≡ false))
  unfolding descends
  descends-parent fuel seen c p e z h = elim (Bool-cases (p == a)) [
    | inl f ↦ absurd (clash (rw (e, z, f) at h))
    | inr f ↦ elim (Bool-cases (contains p seen)) [
      | inl g ↦ (f, inl g)
      | inr g ↦ (f, inr (rw (e, z, f, g) at h))
    ]
  ]
    where
      clash : true ≡ false → ⊥
      clash h = ground arith

  -- The next category's parents are the ones met before and the next category itself.
  Seen-next :
      (seen : List ℕ) (x p : ℕ) (c : Category)
      → Seen seen x
      → find (λ c. c.id == x) rows ≡ some c
      → parent_of rows x ≡ some p
      → contains p seen ≡ false
      → Seen (p ∷ seen) p
  Seen-next seen x p c known found e new = ((new, known.0), met)
    where
      here : contains x (map (λ c. c.id) rows) ≡ true
      here =
          subst (λ n. contains n (map (λ c. c.id) rows) ≡ true)
            ((==_iff _ _).0 (find-holds _ rows found))
            (Has-contains (λ c. c.id) c rows (find-Has _ c rows found))

      before :
          (s : ℕ)
          → contains s seen ≡ true
          → Below rows s p × (contains s (map (λ c. c.id) rows) ≡ true)
      before s m = elim (known.1 s m) [
        | inl same ↦ (
          subst (λ k. Below rows k p) (sym same) (Below.one x p e),
          subst (λ k. contains k (map (λ c. c.id) rows) ≡ true) (sym same) here,
        )
        | inr (b, l) ↦ (Below-up rows s x p b e, l)
      ]

      met :
          (s : ℕ)
          → contains s (p ∷ seen) ≡ true
          → (s ≡ p) ⊎ (Below rows s p × (contains s (map (λ c. c.id) rows) ≡ true))
      met s m = elim (Bool-cases (p == s)) [
        | inl f ↦ inl (sym ((==_iff p s).0 f))
        | inr f ↦ inr (before s (ground arith))
      ]

  pub parent_of-none : (x : ℕ) → find (λ c. c.id == x) rows ≡ none → parent_of rows x ≡ none
  parent_of-none x e = rw (e, parent_of) refl

  pub parent_of-some :
      (x : ℕ) (c : Category)
      → find (λ c. c.id == x) rows ≡ some c
      → parent_of rows x ≡ c.parent_category_id
  parent_of-some x c e = rw (e, parent_of) refl

  module _ (no_empty : find (λ c. c.id == 0) rows ≡ none) (not_empty : (a == 0) ≡ false)
      (forest : (x : ℕ) → Grounded rows x) where
    -- A parent that was met before would close a cycle.
    no_return :
        (seen : List ℕ) (x p : ℕ)
        → Seen seen x
        → parent_of rows x ≡ some p
        → contains p seen ≡ true
        → ⊥
    no_return seen x p known e m = elim (known.1 p m) [
      | inl same ↦
          Grounded-acyclic rows p (forest p)
            (Below.one p p (subst (λ k. parent_of rows k ≡ some p) (sym same) e))
      | inr (b, _) ↦ Grounded-acyclic rows p (forest p) (Below-up rows p x p b e)
    ]

    pub empty-Avoids : (p : ℕ) → (p == 0) ≡ true → Avoids rows a p
    empty-Avoids p z =
        let zero_id = (==_iff p 0).0 z in
        Avoids.stop p (λ e. apart zero_id e)
          (subst (λ k. parent_of rows k ≡ none) (sym zero_id) (parent_of-none 0 no_empty))
      where
        apart : p ≡ 0 → p ≡ a → ⊥
        apart z e = ground arith

    apart : (p : ℕ) → (p == a) ≡ false → p ≡ a → ⊥
    apart p h k = ground arith

    went_on :
        (fuel p : ℕ) (seen : List ℕ)
        → contains p seen ≡ false
        → (contains p seen ≡ true)
          ⊎ (descends rows a fuel (p ∷ seen) (find (λ c. c.id == p) rows) ≡ false)
        → descends rows a fuel (p ∷ seen) (find (λ c. c.id == p) rows) ≡ false
    went_on fuel p seen new (inr h) = h
    went_on fuel p seen new (inl m) = absurd (clash (sym m ∙ new))
      where
        clash : true ≡ false → ⊥
        clash h = ground arith

    -- If the loop answers no, the category is not on the chain.
    pub descends-Avoids :
        (fuel : ℕ) (seen : List ℕ) (x : ℕ)
        → Seen seen x
        → length rows + 2 ≤ fuel + length seen
        → x ≢ a
        → descends rows a fuel seen (find (λ c. c.id == x) rows) ≡ false
        → Avoids rows a x
    descends-Avoids zero seen x known turns ne h =
        absurd (enough seen x known (omega (arith, turns)))
    descends-Avoids (suc fuel) seen x known turns ne h =
        elim (Option-cases (find (λ c. c.id == x) rows)) [
          | inl f ↦ Avoids.stop x ne (parent_of-none x f)
          | inr (c, f) ↦ elim (Option-cases c.parent_category_id) [
            | inl e ↦ Avoids.stop x ne (parent_of-some x c f ∙ e)
            | inr (p, e) ↦
                let above = parent_of-some x c f ∙ e in
                elim (Bool-cases (p == 0)) [
                  | inl z ↦ Avoids.next x p ne above (empty-Avoids p z)
                  | inr z ↦
                      let (other, went) = descends-parent fuel seen c p e z (rw f at h) in
                      elim (Bool-cases (contains p seen)) [
                        | inl m ↦ absurd (no_return seen x p known above m)
                        | inr new ↦ Avoids.next x p ne above (
                            descends-Avoids fuel (p ∷ seen) p
                              (Seen-next seen x p c known f above new) (omega (arith, turns))
                              (λ k. apart p other k) (went_on fuel p seen new went))
                      ]
                ]
          ]
        ]
