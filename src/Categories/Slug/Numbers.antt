-- ===== src/Categories/Slug/Numbers.antt =====
-- packages/api/src/utils/category-slug.ts: numbers are written differently, and so are the numbered
-- slugs.
use mathlib.Core.List.{append_cancel_left}
use self_rss.Prelude.{ℕ, ◌≡◌, ◌↔◌, refl, true, [], ◌∷◌, ◌++◌, arith}
use self_rss.Prelude.Text.{same_text, Text, codes}
use self_rss.Prelude.Digits.{to_string, to_string_injective}
use self_rss.Categories.Slug.{numbered}

-- Two numbered slugs of one base differ.
pub numbered_injective : (base : Text) (m n : ℕ) → numbered base m ≡ numbered base n → m ≡ n
numbered_injective base m n h =
    to_string_injective m n
      (append_cancel_left (base ++ codes "-") (to_string 10 m) (to_string 10 n) h)

pub same_text_iff : (s t : Text) → (same_text s t ≡ true) ↔ (s ≡ t)
same_text_iff [] [] = (λ _. refl, λ _. refl)
same_text_iff [] (c ∷ t) = ground arith
same_text_iff (c ∷ s) [] = ground arith
same_text_iff (c ∷ s) (d ∷ t) = ground (arith, same_text_iff s t)
