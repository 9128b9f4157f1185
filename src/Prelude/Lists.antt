-- ===== src/Prelude/Lists.antt =====
-- Lists measured and indexed by native numbers, and searched by Boolean tests.
use Prim.Native.Nat.{ℕ, zero, suc, ◌+◌, ◌≤◌}
use mathlib.Core.Path.{◌≡◌, refl, subst}
use mathlib.Core.Bool.{Bool, true, false, not, ◌&&◌, ◌||◌}
use mathlib.Core.List.{List, [], ◌∷◌, ◌++◌}
use mathlib.Core.Option
use mathlib.Core.Option.{Option, none, some}
use native.Mathlib.Omega.{arith}
use mathlib.Core.Logic.{inl, inr}
use self_rss.Prelude.Tests.{if-both, ==_iff, ltb, Bool-cases, if◌then◌else◌, ◌==◌}

module _ {ℓ} {A : Type ℓ} where
  abbrev pub length : List A → ℕ
  length [] = 0
  length (x ∷ xs) = suc (length xs)

  abbrev pub get_or : List A → ℕ → A → A
  get_or [] i d = d
  get_or (x ∷ xs) zero d = x
  get_or (x ∷ xs) (suc i) d = get_or xs i d

  pub length-append : (xs ys : List A) → length (xs ++ ys) ≡ length xs + length ys
  length-append [] ys = omega arith
  length-append (x ∷ xs) ys = omega (arith, length-append xs ys)

  -- `filter`, `find`, `some`, and the number of elements that a query counts.
  abbrev pub select : (A → Bool) → List A → List A
  select p [] = []
  select p (x ∷ xs) = if p x then x ∷ select p xs else select p xs

  abbrev pub find : (A → Bool) → List A → Option A
  find p [] = none
  find p (x ∷ xs) = if p x then some x else find p xs

  abbrev pub is_empty : List A → Bool
  is_empty [] = true
  is_empty (x ∷ xs) = false

  abbrev pub any : (A → Bool) → List A → Bool
  any p [] = false
  any p (x ∷ xs) = p x || any p xs

  abbrev pub all : (A → Bool) → List A → Bool
  all p [] = true
  all p (x ∷ xs) = p x && all p xs

  abbrev pub count : (A → Bool) → List A → ℕ
  count p [] = 0
  count p (x ∷ xs) = (if p x then 1 else 0) + count p xs

  -- `update … set … where`.
  abbrev pub update_where : (A → Bool) → (A → A) → List A → List A
  update_where p f [] = []
  update_where p f (x ∷ xs) = (if p x then f x else x) ∷ update_where p f xs

  abbrev pub All {κ} : (A → Type κ) → List A → Type κ
  All P [] = Unit
  All P (x ∷ xs) = P x × All P xs

abbrev pub contains : ℕ → List ℕ → Bool
contains a [] = false
contains a (x ∷ xs) = x == a || contains a xs

-- `[...new Set(xs)]`.
unfoldable pub distinct : List ℕ → List ℕ
distinct [] = []
distinct (x ∷ xs) = x ∷ select (λ y. not (y == x)) (distinct xs)

module _ {ℓ κ} {A : Type ℓ} (P : A → Type κ) (p : A → Bool) (f : A → A) where
  -- An update keeps a property of the rows if it keeps it on the rows that it changes.
  pub All-update_where :
      ((x : A) → p x ≡ true → P x → P (f x))
      → (xs : List A) → All P xs
      → All P (update_where p f xs)
  All-update_where keep [] h = tt
  All-update_where keep (x ∷ xs) h = elim (Bool-cases (p x)) [
    | inl e ↦ (rw e (keep x e h.0), All-update_where keep xs h.1)
    | inr e ↦ (rw e h.0, All-update_where keep xs h.1)
  ]

module _ {ℓ} {A : Type ℓ} (p : A → Bool) where
  pub find-holds : (xs : List A) {x : A} → find p xs ≡ some x → p x ≡ true
  find-holds [] h = cc
  find-holds (y ∷ xs) {x} h = elim (Bool-cases (p y)) [
    | inl e ↦ ground arith
    | inr e ↦ find-holds xs (rw e at h)
  ]

  pub find-All {κ} : (P : A → Type κ) (xs : List A) {x : A} → All P xs → find p xs ≡ some x → P x
  find-All P [] a h = cc
  find-All P (y ∷ xs) {x} a h = elim (Bool-cases (p y)) [
    | inl e ↦ let same : y ≡ x = ground arith in subst P same a.0
    | inr e ↦ find-All P xs a.1 (rw e at h)
  ]

module _ {ℓ} {A : Type ℓ} (p : A → Bool) (f : A → A) (same : (x : A) → p (f x) ≡ p x) where
  pub find-update_where : (xs : List A) → find p (update_where p f xs) ≡ Option.map f (find p xs)
  find-update_where [] = refl
  find-update_where (x ∷ xs) = elim (Bool-cases (p x)) [
    | inl e ↦ rw (e, same x, e) refl
    | inr e ↦ rw (e, e) (find-update_where xs)
  ]

  -- An update is done once: another one that changes no row that it wrote changes nothing.
  pub update_where_again :
      (g : A → A)
      → ((x : A) → g (f x) ≡ f x)
      → (xs : List A) → update_where p g (update_where p f xs) ≡ update_where p f xs
  update_where_again g fixed [] = refl
  update_where_again g fixed (x ∷ xs) = elim (Bool-cases (p x)) [
    | inl e ↦ rw (e, same x, e, fixed x, update_where_again g fixed xs) refl
    | inr e ↦ rw (e, e, update_where_again g fixed xs) refl
  ]

pub any-count {ℓ} : {A : Type ℓ} (p : A → Bool) (xs : List A) → any p xs ≡ ltb 0 (count p xs)
any-count p [] = refl
any-count p (x ∷ xs) = ground (arith, any-count p xs)

-- `update … where … returning`, of which the caller takes the first row.
abbrev pub update_returning {ℓ} : {A : Type ℓ} → (A → Bool) → (A → A) → List A → List A × Option A
update_returning p f xs = (update_where p f xs, Option.map f (find p xs))

-- `order by … limit 1`: the row that comes before all others, the first of them where two tie.
unfoldable pub first_by {ℓ} : {A : Type ℓ} → (A → A → Bool) → List A → Option A
first_by before [] = none
first_by before (x ∷ xs) = elim (first_by before xs) [
  | none ↦ some x
  | some y ↦ some (if before y x then y else x)
]

module _ {ℓ} {A : Type ℓ} (p : A → Bool) where
  pub find-none : (xs : List A) → any p xs ≡ false → find p xs ≡ none
  find-none [] h = refl
  find-none (x ∷ xs) h = elim (Bool-cases (p x)) [
    | inl e ↦ absurd (ground arith)
    | inr e ↦ rw e (find-none xs (rw e at h))
  ]

  pub find-any : (xs : List A) {x : A} → find p xs ≡ some x → any p xs ≡ true
  find-any [] h = cc
  find-any (y ∷ xs) {x} h = elim (Bool-cases (p y)) [
    | inl e ↦ rw e refl
    | inr e ↦ rw e (find-any xs (rw e at h))
  ]

  -- A row that is added last is found if no other is.
  pub find-last :
      (xs : List A) (x : A) → find p xs ≡ none → p x ≡ true → find p (xs ++ (x ∷ [])) ≡ some x
  find-last [] x h e = rw e refl
  find-last (y ∷ xs) x h e = elim (Bool-cases (p y)) [
    | inl f ↦ absurd (ground arith)
    | inr f ↦ rw f (find-last xs x (rw f at h) e)
  ]

module _ {ℓ} {A : Type ℓ} (q p : A → Bool) (f : A → A) (same : (x : A) → q (f x) ≡ q x) where
  -- A search after an update that the test does not see.
  pub find-update_other :
      (xs : List A)
      → find q (update_where p f xs) ≡ Option.map (λ x. if p x then f x else x) (find q xs)
  find-update_other [] = refl
  find-update_other (x ∷ xs) =
      let h : q (if p x then f x else x) ≡ q x =
        if-both (λ k. q k ≡ q x) (p x) (f x) x (same x) refl in
      elim (Bool-cases (q x)) [ inl e ↦ rw (h, e) refl | inr e ↦ rw (h, e) (find-update_other xs) ]

pub any-find {ℓ} :
    {A : Type ℓ} (p : A → Bool) (xs : List A) → any p xs ≡ true → (x : A) × (find p xs ≡ some x)
any-find p [] h = cc
any-find p (x ∷ xs) h = elim (Bool-cases (p x)) [
  | inl e ↦ (x, rw e refl)
  | inr e ↦ let (y, f) = any-find p xs (rw e at h) in (y, rw e f)
]

-- A list without repetitions that lies in another is not longer.
remove_length :
    (x : ℕ) (ys : List ℕ)
    → contains x ys ≡ true
    → suc (length (select (λ y. not (y == x)) ys)) ≤ length ys
remove_length x [] h = cc
remove_length x (y ∷ ys) h = elim (Bool-cases (y == x)) [
  | inl e ↦ let shorter = select_length x ys in rw e (omega (arith, shorter))
  | inr e ↦ let ih = remove_length x ys (rw e at h) in rw e (omega (arith, ih))
]
  where
    select_length : (x : ℕ) (ys : List ℕ) → length (select (λ y. not (y == x)) ys) ≤ length ys
    select_length x [] = omega arith
    select_length x (y ∷ ys) = elim (Bool-cases (y == x)) [
      | inl e ↦ let ih = select_length x ys in rw e (omega (arith, ih))
      | inr e ↦ let ih = select_length x ys in rw e (omega (arith, ih))
    ]

remove_contains :
    (x z : ℕ) (ys : List ℕ)
    → contains z ys ≡ true
    → (x == z) ≡ false
    → contains z (select (λ y. not (y == x)) ys) ≡ true
remove_contains x z [] h k = cc
remove_contains x z (y ∷ ys) h k = elim (Bool-cases (y == x)) [
  | inl e ↦ rw e (remove_contains x z ys (ground arith) k)
  | inr e ↦ elim (Bool-cases (y == z)) [
    | inl f ↦ rw (e, f) refl
    | inr f ↦ let ih = remove_contains x z ys (ground arith) k in rw (e, f, ih) refl
  ]
]

-- No two elements are equal.
abbrev pub Unique : List ℕ → Type 0
Unique [] = Unit {0}
Unique (x ∷ xs) = (contains x xs ≡ false) × Unique xs

pub pigeonhole :
    (xs ys : List ℕ)
    → Unique xs
    → ((z : ℕ) → contains z xs ≡ true → contains z ys ≡ true)
    → length xs ≤ length ys
pigeonhole [] ys u h = omega arith
pigeonhole (x ∷ xs) ys u h =
    let here = h x (ground arith) in
    let rest =
      pigeonhole xs (select (λ y. not (y == x)) ys) u.1
        (λ z m. remove_contains x z ys (h z (ground arith)) (other x z u.0 m)) in
    omega (arith, rest, remove_length x ys here)
  where
    other : (x z : ℕ) → contains x xs ≡ false → contains z xs ≡ true → (x == z) ≡ false
    other x z absent there = elim (Bool-cases (x == z)) [
      | inr e ↦ e
      | inl e ↦ let there' : contains x xs ≡ true = rw ((==_iff x z).0 e) there in ground arith
    ]

-- `order by`, and `limit`.
unfoldable pub insert_by {ℓ} : {A : Type ℓ} → (A → A → Bool) → A → List A → List A
insert_by before a [] = a ∷ []
insert_by before a (x ∷ xs) = if before x a then x ∷ insert_by before a xs else a ∷ x ∷ xs

unfoldable pub sort_by {ℓ} : {A : Type ℓ} → (A → A → Bool) → List A → List A
unfolding insert_by
sort_by before [] = []
sort_by before (x ∷ xs) = insert_by before x (sort_by before xs)

unfoldable pub take {ℓ} : {A : Type ℓ} → ℕ → List A → List A
take zero xs = []
take (suc n) [] = []
take (suc n) (x ∷ xs) = x ∷ take n xs
