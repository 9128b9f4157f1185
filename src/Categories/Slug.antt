-- ===== src/Categories/Slug.antt =====
-- packages/api/src/utils/category-slug.ts
pub mod Numbers
use mathlib.Core.List.{reverse}
use self_rss.Prelude.{
  List, [], ◌∷◌, ℕ, zero, suc, ◌-◌, ◌+◌, ◌*◌, ◌/◌, ◌%◌, ◌^◌, Bool, true, false, ◌++◌, any, length,
  ◌&&◌, ◌||◌, [], ◌∷◌, ltb, leb, ◌==◌, if◌then◌else◌,
}
use self_rss.Prelude.Digits.{to_string}
use self_rss.Prelude.Text.{same_text, codes, trim, Text, is_space, is_digit}

-- What the platform does to texts.
pub record Platform : Type 0 where
  pub normalize_nfd : Text → Text
  pub to_lower_case : Text → Text
  pub to_locale_lower_case : Text → Text

-- `/[\u0300-\u036f]/g` removed.
unfoldable pub strip_marks : Text → Text
strip_marks [] = []
strip_marks (c ∷ s) = let rest = strip_marks s in if leb 768 c && leb c 879 then rest else c ∷ rest

-- `/[^a-z0-9\s-]/g` as spaces.
unfoldable pub blank_others : Text → Text
unfolding is_space is_digit
blank_others [] = []
blank_others (c ∷ s) =
    (if leb b'a' c && leb c b'z' || is_digit c || is_space c || c == b'-' then c else 32)
    ∷ blank_others s

-- A run of characters of a class as one dash; `inside` if the last one was of the class.
unfoldable pub dash_runs : (ℕ → Bool) → Bool → Text → Text
dash_runs of_class inside [] = []
dash_runs of_class inside (c ∷ s) =
    let rest = dash_runs of_class (of_class c) s in
    if of_class c then if inside then rest else b'-' ∷ rest else c ∷ rest

unfoldable pub skip_dashes : Text → Text
skip_dashes [] = []
skip_dashes (c ∷ s) = if c == b'-' then skip_dashes s else c ∷ s

unfoldable pub stable_hash : ℕ → Text → ℕ
stable_hash hash [] = hash
stable_hash hash (c ∷ s) = stable_hash ((hash * 31 + c) % 2 ^ 32) s

unfoldable pub slice : ℕ → Text → Text
slice zero s = []
slice (suc n) [] = []
slice (suc n) (c ∷ s) = c ∷ slice n s

unfoldable pub is_dash : ℕ → Bool
is_dash c = c == b'-'

module _ (platform : Platform) where
  unfoldable pub base_category_slug : Text → Text
  unfolding strip_marks blank_others dash_runs skip_dashes is_dash trim is_space stable_hash
      to_string slice
  base_category_slug name =
      let plain =
        blank_others (platform.to_lower_case (strip_marks (platform.normalize_nfd name))) in
      let dashed = dash_runs is_dash false (dash_runs is_space false (trim plain)) in
      let slug = reverse (skip_dashes (reverse (skip_dashes dashed))) in
      if ltb 0 (length slug)
      then slug
      else codes "cat-" ++ slice 6 (to_string 36 (stable_hash 0 name))

abbrev pub has : List Text → Text → Bool
has used s = any (same_text s) used

abbrev pub numbered : Text → ℕ → Text
numbered base counter = base ++ codes "-" ++ to_string 10 counter

-- The `while` loop.
unfoldable pub next_free : List Text → Text → ℕ → ℕ → Text
unfolding to_string
next_free used base zero counter = numbered base counter
next_free used base (suc fuel) counter = elim (has used (numbered base counter)) [
  | true ↦ next_free used base fuel (counter + 1)
  | false ↦ numbered base counter
]

module _ (platform : Platform) where
  -- One of the candidates is free: there is one more of them than slugs in use.
  unfoldable pub unique_category_slug : Text → List Text → Text
  unfolding base_category_slug next_free
  unique_category_slug name used =
      let base = base_category_slug platform name in
      if has used base then next_free used base (length used) 2 else base
