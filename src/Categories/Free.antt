-- ===== src/Categories/Free.antt =====
-- packages/api/src/utils/category-slug.ts and packages/api/src/services/category.service.ts: the
-- slug that a category gets is free.
use self_rss.Prelude.{
  Bool, subst, map, Option, some, same, ◌&&◌, any, ℕ, zero, suc, ◌+◌, ◌≤◌, ◌≡◌, ◌≢◌, refl, sym, ◌∙◌,
  ap, inl, inr, true, false, not, List, [], ◌∷◌, select, length, arith, Bool-cases,
}
use self_rss.Prelude.Text.{same_text, Text}
use self_rss.Categories.{
  Category, Result, Failure, ok, fail, normalized, unique_slug_for_parent, find_all_by_user,
}
use self_rss.Categories.Update.{eq_of_ok}
use self_rss.Categories.Slug.{
  Platform, has, numbered, next_free, base_category_slug, unique_category_slug,
}
use self_rss.Categories.Slug.Numbers.{numbered_injective, same_text_iff}

-- The slugs other than one.
abbrev without : Text → List Text → List Text
without t = select λ s. not (same_text t s)

without-length : (t : Text) (used : List Text) → length (without t used) ≤ length used
without-length t [] = omega arith
without-length t (s ∷ used) = elim (Bool-cases (same_text t s)) [
  | inl e ↦ let ih = without-length t used in rw e (omega (arith, ih))
  | inr e ↦ let ih = without-length t used in rw e (omega (arith, ih))
]

without-shorter :
    (t : Text) (used : List Text) → has used t ≡ true → suc (length (without t used)) ≤ length used
without-shorter t [] h = cc
without-shorter t (s ∷ used) h = elim (Bool-cases (same_text t s)) [
  | inl e ↦ let ih = without-length t used in rw e (omega (arith, ih))
  | inr e ↦ let ih = without-shorter t used (rw e at h) in rw e (omega (arith, ih))
]

without-other : (t x : Text) (used : List Text) → x ≢ t → has (without t used) x ≡ has used x
without-other t x [] ne = refl
without-other t x (s ∷ used) ne = elim (Bool-cases (same_text t s)) [
  | inr e ↦ rw (e, without-other t x used ne) refl
  | inl e ↦ elim (Bool-cases (same_text x s)) [
    | inl f ↦ absurd (ne ((same_text_iff x s).0 f ∙ sym ((same_text_iff t s).0 e)))
    | inr f ↦ rw (e, f, without-other t x used ne) refl
  ]
]

module _ (base : Text) where
  -- The loop answers one of the numbered slugs from the counter on.
  next_free-numbered :
      (used : List Text) (fuel counter : ℕ)
      → (m : ℕ) × (counter ≤ m) × (next_free used base fuel counter ≡ numbered base m)
  unfolding next_free
  next_free-numbered used zero counter = (counter, omega arith, refl)
  next_free-numbered used (suc fuel) counter =
      elim (Bool-cases (has used (numbered base counter))) [
        | inr e ↦ (counter, omega arith, rw (e, next_free) refl)
        | inl e ↦
            let (m, le, h) = next_free-numbered used fuel (counter + 1) in
            (m, omega (arith, le), rw (e, next_free) h)
      ]

  -- The loop looks at the numbered slugs from the counter on only.
  next_free-ext :
      (used used' : List Text) (fuel counter : ℕ)
      → ((m : ℕ) → counter ≤ m → has used (numbered base m) ≡ has used' (numbered base m))
      → next_free used base fuel counter ≡ next_free used' base fuel counter
  unfolding next_free
  next_free-ext used used' zero counter h = refl
  next_free-ext used used' (suc fuel) counter h =
      let here = h counter (omega arith) in
      let rest = next_free-ext used used' fuel (counter + 1) (λ m le. h m (omega (arith, le))) in
      elim (Bool-cases (has used' (numbered base counter))) [
        | inl e ↦ rw (here ∙ e, next_free) (rw (e, next_free) rest)
        | inr e ↦ rw (here ∙ e, next_free) (rw (e, next_free) refl)
      ]

  -- With a turn for each slug in use the loop finds a free one.
  next_free-fresh :
      (fuel : ℕ) (used : List Text) (counter : ℕ)
      → length used ≤ fuel
      → has used (next_free used base fuel counter) ≡ false
  unfolding next_free
  next_free-fresh zero [] counter h = refl
  next_free-fresh zero (s ∷ used) counter h = absurd (omega (arith, h))
  next_free-fresh (suc fuel) used counter h = elim (Bool-cases (has used (numbered base counter))) [
    | inr e ↦ rw (e, next_free) e
    | inl e ↦
        let t = numbered base counter in
        let shorter : length (without t used) ≤ fuel = within (without-shorter t used e) h in
        let apart = λ (m : ℕ) (le : counter + 1 ≤ m) (k : numbered base m ≡ t).
          later m le (numbered_injective base m counter k) in
        let same_answer =
          next_free-ext used (without t used) fuel (counter + 1)
            (λ m le. sym (without-other t (numbered base m) used (apart m le))) in
        let (m, le, answer) = next_free-numbered (without t used) fuel (counter + 1) in
        let free = next_free-fresh fuel (without t used) (counter + 1) shorter in
        rw (e, next_free)
          (ap (has used) (same_answer ∙ answer)
            ∙ sym (without-other t (numbered base m) used (apart m le))
            ∙ ap (has (without t used)) (sym answer)
            ∙ free)
  ]
    where
      within : {a b : ℕ} → suc a ≤ b → b ≤ suc fuel → a ≤ fuel
      within p q = omega (arith, p, q)

      later : (m : ℕ) → counter + 1 ≤ m → m ≡ counter → ⊥
      later m p q = omega (arith, p, q)

unique_category_slug-free :
    (platform : Platform) (name : Text) (used : List Text)
    → has used (unique_category_slug platform name used) ≡ false
unfolding unique_category_slug
unique_category_slug-free platform name used =
    elim (Bool-cases (has used (base_category_slug platform name))) [
      | inl e ↦
          rw (e, unique_category_slug)
            (next_free-fresh (base_category_slug platform name) (length used) used 2 (omega arith))
      | inr e ↦ rw (e, unique_category_slug) e
    ]

any-map :
    (p : Text → Bool) (f : Category → Text) (rows : List Category)
    → any p (map f rows) ≡ any (λ c. p (f c)) rows
any-map p f [] = refl
any-map p f (c ∷ rows) = rw (any-map p f rows) refl

-- The user's other categories under a parent.
abbrev pub siblings : ℕ → Option ℕ → Option ℕ → List Category → List Category
siblings user_id parent exclude table =
    select (λ c. same c.parent_category_id parent && not (same (some c.id) exclude))
      (find_all_by_user user_id table)

-- A category gets a name and a slug of its own: where a slug is answered, no other category of the
-- user under that parent has it, and none has the name, up to case and the spaces around it. So the
-- loop over numbered slugs has ended with a free one.
pub unique_slug_for_parent-free :
    (platform : Platform) (user_id : ℕ) (parent : Option ℕ) (name : Text) (exclude : Option ℕ)
    (table : List Category) (slug : Text)
    → unique_slug_for_parent platform user_id parent name exclude table ≡ ok slug
    → (any (λ c. same_text slug c.slug) (siblings user_id parent exclude table) ≡ false)
      × (any
            (λ c. same_text (normalized platform c.name) (normalized platform name))
            (siblings user_id parent exclude table)
          ≡ false)
unfolding unique_slug_for_parent
unique_slug_for_parent-free platform user_id parent name exclude table slug h =
    let others = siblings user_id parent exclude table in
    elim (Bool-cases
      (any (λ c. same_text (normalized platform c.name) (normalized platform name)) others)) [
        | inl e ↦ absurd (refused (rw (e, unique_slug_for_parent) at h))
        | inr e ↦
            let answer = eq_of_ok _ slug (rw (e, unique_slug_for_parent) at h) in
            (
              sym (any-map (same_text slug) (λ c. c.slug) others)
                  ∙ subst (λ s. has (map (λ c. c.slug) others) s ≡ false) answer
                      (unique_category_slug-free platform name (map (λ c. c.slug) others)),
              e,
            )
      ]
  where
    refused : {e : Failure} → ◌≡◌ {A = Result Text} (fail e) (ok slug) → ⊥
    refused h = cc
