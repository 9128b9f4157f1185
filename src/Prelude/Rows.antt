-- ===== src/Prelude/Rows.antt =====
-- Tables as lists of rows with a key: what updates, selections and single-row reads do to them.
use mathlib.Core.Option.{none-ne-some}
use self_rss.Prelude.{
  Unique, if◌then◌else◌, ◌++◌, ◌∙◌, ap, eq_of_some, ==_iff, ℕ, ◌≡◌, refl, sym, ap, subst, ◌⊎◌, inl,
  inr, Bool, true, false, ◌&&◌, none, some, List, [], ◌∷◌, map, arith, ◌==◌, ==_refl, select, find,
  contains, update_where, All, first_by, Bool-cases, Option-cases,
}

module _ {A : Type 0} where
  -- The row is in the table.
  abbrev pub Has : A → List A → Type 0
  Has a [] = ⊥
  Has a (x ∷ xs) = (a ≡ x) ⊎ Has a xs

  -- Two versions of a table, row by row.
  abbrev pub All₂ : (A → A → Type 0) → List A → List A → Type 0
  All₂ R [] [] = Unit {0}
  All₂ R [] (y ∷ ys) = ⊥
  All₂ R (x ∷ xs) [] = ⊥
  All₂ R (x ∷ xs) (y ∷ ys) = R x y × All₂ R xs ys

  pub Has-All {κ} : (P : A → Type κ) (a : A) (xs : List A) → Has a xs → All P xs → P a
  Has-All P a [] m h = elim m [ ]
  Has-All P a (x ∷ xs) (inl e) h = subst P (sym e) h.0
  Has-All P a (x ∷ xs) (inr m) h = Has-All P a xs m h.1

  pub All-mono {κ} :
      {P Q : A → Type κ} → ((x : A) → P x → Q x) → (xs : List A) → All P xs → All Q xs
  All-mono imp [] h = tt
  All-mono imp (x ∷ xs) h = (imp x h.0, All-mono imp xs h.1)

  pub All-select {κ} :
      (P : A → Type κ) (p : A → Bool) (xs : List A) → All P xs → All P (select p xs)
  All-select P p [] h = tt
  All-select P p (x ∷ xs) h = elim (Bool-cases (p x)) [
    | inl e ↦ rw e (h.0, All-select P p xs h.1)
    | inr e ↦ rw e (All-select P p xs h.1)
  ]

  select_first :
      (p : A → Bool) (a x : A) (xs : List A)
      → p x ≡ true
      → (a ≡ x) ⊎ Has a (select p xs)
      → (Has a (select p xs) → Has a xs × (p a ≡ true))
      → ((a ≡ x) ⊎ Has a xs) × (p a ≡ true)
  select_first p a x xs e (inl same) ih = (inl same, rw same e)
  select_first p a x xs e (inr m) ih = (inr (ih m).0, (ih m).1)

  -- What a selection finds is in the table and passes the test.
  pub select_sound :
      (p : A → Bool) (a : A) (xs : List A) → Has a (select p xs) → Has a xs × (p a ≡ true)
  select_sound p a [] h = elim h [ ]
  select_sound p a (x ∷ xs) h = elim (Bool-cases (p x)) [
    | inl e ↦ select_first p a x xs e (rw e at h) (select_sound p a xs)
    | inr e ↦ let r = select_sound p a xs (rw e at h) in (inr r.0, r.1)
  ]

  pub first_by-Has :
      (before : A → A → Bool) (a : A) (xs : List A) → first_by before xs ≡ some a → Has a xs
  unfolding first_by
  first_by-Has before a [] h = absurd (none-ne-some a h)
  first_by-Has before a (x ∷ xs) h = elim (Option-cases (first_by before xs)) [
    | inl e ↦ inl (ground arith)
    | inr (y, e) ↦ elim (Bool-cases (before y x)) [
      | inl b ↦ inr (first_by-Has before a xs (ground arith))
      | inr b ↦ inl (ground arith)
    ]
  ]

  module _ (before : A → A → Bool)
      (trans : (a b c : A) → before a b ≡ false → before b c ≡ false → before a c ≡ false)
      (asym : (a b : A) → before a b ≡ true → before b a ≡ false)
      (irrefl : (a : A) → before a a ≡ false) where
    first_by-none : (P : A → Type 0) (xs : List A) → first_by before xs ≡ none → All P xs
    unfolding first_by
    first_by-none P [] h = tt
    first_by-none P (x ∷ xs) h = absurd (ground arith)

    -- No row comes before the one that is taken.
    pub first_by-first :
        (a : A) (xs : List A) → first_by before xs ≡ some a → All (λ k. before k a ≡ false) xs
    unfolding first_by
    first_by-first a [] h = tt
    first_by-first a (x ∷ xs) h = elim (Option-cases (first_by before xs)) [
      | inl e ↦
          let here : x ≡ a = ground arith in
          (subst (λ k. before k a ≡ false) (sym here) (irrefl a), first_by-none _ xs e)
      | inr (y, e) ↦ elim (Bool-cases (before y x)) [
        | inl b ↦
            let here : y ≡ a = ground arith in
            (
              subst (λ k. before x k ≡ false) here (asym y x b),
              first_by-first a xs (e ∙ ap some here),
            )
        | inr b ↦
            let here : x ≡ a = ground arith in
            (
              subst (λ k. before k a ≡ false) (sym here) (irrefl a),
              All-mono (λ k r. subst (λ z. before k z ≡ false) here (trans k y x r b)) xs
                  (first_by-first y xs e),
            )
      ]
    ]

  pub find-Has : (p : A → Bool) (a : A) (xs : List A) → find p xs ≡ some a → Has a xs
  find-Has p a [] h = absurd (none-ne-some a h)
  find-Has p a (x ∷ xs) h = elim (Bool-cases (p x)) [
    | inl e ↦ inl (ground arith)
    | inr e ↦ inr (find-Has p a xs (rw e at h))
  ]

  pub update_where-none :
      (p : A → Bool) (f : A → A) (xs : List A) → find p xs ≡ none → update_where p f xs ≡ xs
  update_where-none p f [] h = refl
  update_where-none p f (x ∷ xs) h = elim (Bool-cases (p x)) [
    | inl e ↦ absurd (ground arith)
    | inr e ↦ rw (e, update_where-none p f xs (rw e at h)) refl
  ]

  pub All₂-refl : (R : A → A → Type 0) → ((x : A) → R x x) → (xs : List A) → All₂ R xs xs
  All₂-refl R same [] = tt
  All₂-refl R same (x ∷ xs) = (same x, All₂-refl R same xs)

  pub All₂-update_where :
      (R : A → A → Type 0) (p : A → Bool) (f : A → A)
      → ((x : A) → R x x)
      → ((x : A) → p x ≡ true → R x (f x))
      → (xs : List A) → All₂ R xs (update_where p f xs)
  All₂-update_where R p f same changed [] = tt
  All₂-update_where R p f same changed (x ∷ xs) = elim (Bool-cases (p x)) [
    | inl e ↦ (rw e (changed x e), All₂-update_where R p f same changed xs)
    | inr e ↦ (rw e (same x), All₂-update_where R p f same changed xs)
  ]

  pub All₂-trans :
      (R : A → A → Type 0)
      → ((x y z : A) → R x y → R y z → R x z)
      → (xs ys zs : List A) → All₂ R xs ys
      → All₂ R ys zs
      → All₂ R xs zs
  All₂-trans R t [] [] zs h k = k
  All₂-trans R t [] (y ∷ ys) zs h k = elim h [ ]
  All₂-trans R t (x ∷ xs) [] zs h k = elim h [ ]
  All₂-trans R t (x ∷ xs) (y ∷ ys) [] h k = elim k [ ]
  All₂-trans R t (x ∷ xs) (y ∷ ys) (z ∷ zs) h k = (t x y z h.0 k.0, All₂-trans R t xs ys zs h.1 k.1)

module _ {A : Type 0} (key : A → ℕ) where
  pub Has-contains : (a : A) (xs : List A) → Has a xs → contains (key a) (map key xs) ≡ true
  Has-contains a [] m = elim m [ ]
  Has-contains a (x ∷ xs) (inl e) = ground (arith, ap key e)
  Has-contains a (x ∷ xs) (inr m) = ground (arith, Has-contains a xs m)

  -- A read by key finds the row.
  pub find-key :
      (p : A → Bool) (a : A) (xs : List A)
      → Has a xs
      → Unique (map key xs)
      → p a ≡ true
      → find (λ x. key x == key a && p x) xs ≡ some a
  find-key p a [] m u h = elim m [ ]
  find-key p a (x ∷ xs) (inl e) u h = rw (← e, ==_refl (key a), h) refl
  find-key p a (x ∷ xs) (inr m) u h = ground (arith, Has-contains a xs m, find-key p a xs m u.1 h)

  pub map-update_where :
      (p : A → Bool) (f : A → A)
      → ((x : A) → key (f x) ≡ key x)
      → (xs : List A) → map key (update_where p f xs) ≡ map key xs
  map-update_where p f same [] = refl
  map-update_where p f same (x ∷ xs) = elim (Bool-cases (p x)) [
    | inl e ↦ rw (e, same x, map-update_where p f same xs) refl
    | inr e ↦ rw (e, map-update_where p f same xs) refl
  ]

module _ {A : Type 0} (key : A → ℕ) where
  -- The rows of that key in a table are this one.
  abbrev pub IsOnly : ℕ → A → List A → Type 0
  IsOnly i a xs = Has a xs × All (λ x. ((key x == i) ≡ false) ⊎ (x ≡ a)) xs

  pub All-absent :
      (i : ℕ) (xs : List A) → contains i (map key xs) ≡ false → All (λ x. (key x == i) ≡ false) xs
  All-absent i [] h = tt
  All-absent i (x ∷ xs) h = (ground arith, All-absent i xs (ground arith))

module _ {A : Type 0} (key : A → ℕ) (f : A → A) (same : (x : A) → key (f x) ≡ key x) where
  -- No row has the key.
  absent-update :
      (i : ℕ) (p : A → Bool) (xs : List A)
      → contains i (map key xs) ≡ false
      → update_where (λ x. key x == i && p x) f xs ≡ xs
  absent-update i p [] h = refl
  absent-update i p (x ∷ xs) h =
      let other : (key x == i) ≡ false = ground arith in
      rw (other, absent-update i p xs (ground arith)) refl

  absent-find :
      (i : ℕ) (p : A → Bool) (xs : List A)
      → contains i (map key xs) ≡ false
      → find (λ x. key x == i && p x) xs ≡ none
  absent-find i p [] h = refl
  absent-find i p (x ∷ xs) h =
      let other : (key x == i) ≡ false = ground arith in
      rw other (absent-find i p xs (ground arith))

  -- An update by key writes one row, and after it that row alone has the key.
  pub update-IsOnly :
      (i : ℕ) (p : A → Bool) (a : A) (xs : List A)
      → Unique (map key xs)
      → find (λ x. key x == i && p x) xs ≡ some a
      → IsOnly key i (f a) (update_where (λ x. key x == i && p x) f xs)
  update-IsOnly i p a [] u h = absurd (none-ne-some a h)
  update-IsOnly i p a (x ∷ xs) u h = elim (Bool-cases (key x == i)) [
    | inl e ↦ elim (Bool-cases (p x)) [
      | inl q ↦
          let here : x ≡ a = eq_of_some x a (rw (e, q) at h) in
          let gone = subst (λ k. contains k (map key xs) ≡ false) ((==_iff (key x) i).0 e) u.0 in
          rw (e, q, absent-update i p xs gone)
            (
              inl (ap f (sym here)),
              (inr (ap f here), All-mono (λ _ h. inl h) xs (All-absent key i xs gone)),
            )
      | inr q ↦
          let gone = subst (λ k. contains k (map key xs) ≡ false) ((==_iff (key x) i).0 e) u.0 in
          absurd (none-ne-some a (rw (e, q, absent-find i p xs gone) at h))
    ]
    | inr e ↦ let ih = update-IsOnly i p a xs u.1 (rw e at h) in rw e (inr ih.0, (inl e, ih.1))
  ]

module _ {A : Type 0} where
  pub Has-append : (a : A) (xs ys : List A) → Has a xs → Has a (xs ++ ys)
  Has-append a [] ys m = elim m [ ]
  Has-append a (x ∷ xs) ys (inl e) = inl e
  Has-append a (x ∷ xs) ys (inr m) = inr (Has-append a xs ys m)

  pub Has-last : (a : A) (xs : List A) → Has a (xs ++ (a ∷ []))
  Has-last a [] = inl refl
  Has-last a (x ∷ xs) = inr (Has-last a xs)

  pub Has-update_where :
      (p : A → Bool) (f : A → A) (a : A) (xs : List A)
      → Has a xs
      → Has (if p a then f a else a) (update_where p f xs)
  Has-update_where p f a [] m = elim m [ ]
  Has-update_where p f a (x ∷ xs) (inl e) = inl (ap (λ x. if p x then f x else x) e)
  Has-update_where p f a (x ∷ xs) (inr m) = inr (Has-update_where p f a xs m)

  pub All-append {κ} : (P : A → Type κ) (xs ys : List A) → All P xs → All P ys → All P (xs ++ ys)
  All-append P [] ys h k = k
  All-append P (x ∷ xs) ys h k = (h.0, All-append P xs ys h.1 k)

  pub All-map {κ} :
      {B : Type 0} (P : A → Type κ) (f : B → A)
      → ((b : B) → P (f b))
      → (bs : List B) → All P (map f bs)
  All-map P f h [] = tt
  All-map P f h (b ∷ bs) = (h b, All-map P f h bs)

  pub All-Has {κ} : (P : A → Type κ) (xs : List A) → ((x : A) → Has x xs → P x) → All P xs
  All-Has P [] h = tt
  All-Has P (x ∷ xs) h = (h x (inl refl), All-Has P xs (λ y m. h y (inr m)))
