-- ===== src/Prelude/Upsert.antt =====
-- Insertions with a conflict clause: what a search finds after them.
use self_rss.Prelude.Tests.{Bool-cases, if◌then◌else◌}
use self_rss.Prelude.Lists.{
  any, find, select, update_where, find-none, find-last, find-update_where, any-find,
}
use mathlib.Core.Path.{◌≡◌, refl, ap, ◌∙◌}
use mathlib.Core.Logic.{inl, inr}
use mathlib.Core.Bool.{Bool, true, false, not, ◌||◌}
use mathlib.Core.List.{List, [], ◌∷◌, ◌++◌}
use mathlib.Core.Option
use mathlib.Core.Option.{Option, none, some}
use native.Mathlib.Omega.{arith}

-- `insert … on conflict do update` by a unique index: the rows of the key are updated, or a row is added.
abbrev pub upsert {ℓ} : {A : Type ℓ} → (A → Bool) → (A → A) → A → List A → List A
upsert p f new rows = if any p rows then update_where p f rows else rows ++ (new ∷ [])

module _ {ℓ} {A : Type ℓ} (p : A → Bool) where
  pub any-append : (xs ys : List A) → any p (xs ++ ys) ≡ (any p xs || any p ys)
  any-append [] ys = refl
  any-append (x ∷ xs) ys = ground (arith, any-append xs ys)

  pub any-select_none : (xs : List A) → any p (select (λ x. not (p x)) xs) ≡ false
  any-select_none [] = refl
  any-select_none (x ∷ xs) = elim (Bool-cases (p x)) [
    | inl e ↦ rw e (any-select_none xs)
    | inr e ↦ rw (e, e) (any-select_none xs)
  ]

  module _ (f : A → A) (new : A) (keeps : (x : A) → p (f x) ≡ p x) (has : p new ≡ true) where
    any-update : (xs : List A) → any p (update_where p f xs) ≡ any p xs
    any-update [] = refl
    any-update (x ∷ xs) = elim (Bool-cases (p x)) [
      | inl e ↦ rw (e, keeps x, e) refl
      | inr e ↦ rw (e, e) (any-update xs)
    ]

    pub any-upsert : (xs : List A) → any p (upsert p f new xs) ≡ true
    any-upsert xs = elim (Bool-cases (any p xs)) [
      | inl e ↦ rw e (any-update xs ∙ e)
      | inr e ↦ rw e (any-append xs (new ∷ []) ∙ rw (e, has) refl)
    ]

    -- The row of the key is the one that was there, updated, or the new one.
    pub find-upsert :
        (xs : List A)
        → find p (upsert p f new xs) ≡ some (elim (find p xs) [ none ↦ new | some x ↦ f x ])
    find-upsert xs = elim (Bool-cases (any p xs)) [
      | inl e ↦
          let (x, h) = any-find p xs e in
          rw (e, h) (find-update_where p f keeps xs ∙ ap (Option.map f) h)
      | inr e ↦ let h = find-none p xs e in rw (e, h) (find-last p xs new h has)
    ]

-- A key of which the insertion is not.
module _ {ℓ} {A : Type ℓ} (q p : A → Bool) (apart : (x : A) → q x ≡ true → p x ≡ false) where
  pub any-select_other : (xs : List A) → any q (select (λ x. not (p x)) xs) ≡ any q xs
  any-select_other [] = refl
  any-select_other (x ∷ xs) = elim (Bool-cases (q x)) [
    | inl e ↦ rw (apart x e, e) refl
    | inr e ↦ elim (Bool-cases (p x)) [
      | inl h ↦ rw (h, e) (any-select_other xs)
      | inr h ↦ rw (h, e) (any-select_other xs)
    ]
  ]

  module _ (f : A → A) (new : A) (keeps : (x : A) → q (f x) ≡ q x) (not_new : q new ≡ false) where
    find-update : (xs : List A) → find q (update_where p f xs) ≡ find q xs
    find-update [] = refl
    find-update (x ∷ xs) = elim (Bool-cases (q x)) [
      | inl e ↦ rw (apart x e, e) refl
      | inr e ↦ elim (Bool-cases (p x)) [
        | inl h ↦ rw (h, keeps x, e) (find-update xs)
        | inr h ↦ rw (h, e) (find-update xs)
      ]
    ]

    find-append : (xs : List A) → find q (xs ++ (new ∷ [])) ≡ find q xs
    find-append [] = rw not_new refl
    find-append (x ∷ xs) = ap (λ r. if q x then some x else r) (find-append xs)

    pub find-upsert_other : (xs : List A) → find q (upsert p f new xs) ≡ find q xs
    find-upsert_other xs = elim (Bool-cases (any p xs)) [
      | inl e ↦ rw e (find-update xs)
      | inr e ↦ rw e (find-append xs)
    ]

    any-update_other : (xs : List A) → any q (update_where p f xs) ≡ any q xs
    any-update_other [] = refl
    any-update_other (x ∷ xs) = elim (Bool-cases (p x)) [
      | inl h ↦ rw (h, keeps x, any-update_other xs) refl
      | inr h ↦ rw (h, any-update_other xs) refl
    ]

    pub any-upsert_other : (xs : List A) → any q (upsert p f new xs) ≡ any q xs
    any-upsert_other xs = elim (Bool-cases (any p xs)) [
      | inl e ↦ rw e (any-update_other xs)
      | inr e ↦ rw e (any-append q xs (new ∷ []) ∙ rw not_new (ground arith))
    ]
