-- ===== src/Categories/Tests.antt =====
-- packages/api/src/services/category.service.ts: runs on a small table.
use self_rss.Prelude.{
  any, false, subst, sym, inl, inr, arith, ◌==◌, ==_iff, Bool-cases, ℕ, ◌≡◌, ◌↔◌, refl, true, none,
  some, List, [], ◌∷◌, distinct,
}
use self_rss.Prelude.Text.{same_text, codes, trim, trim_start, is_space, is_digit}
use self_rss.Categories.Free.{siblings, unique_slug_for_parent-free}
use self_rss.Categories.{
  normalized, create, Category, ok, fail, bad_request, Changes, descends, is_descendant,
  find_all_by_user, unique_slug_for_parent, check_parent, slug_for, update, delete, reorder,
}
use self_rss.Prelude.Digits.{to_string, digits_of}
use self_rss.Categories.Slug.{
  Platform, strip_marks, blank_others, dash_runs, is_dash, skip_dashes, stable_hash, slice,
  base_category_slug, next_free, unique_category_slug,
}
use self_rss.Categories.Chains.{Grounded, Below}
use self_rss.Categories.Forest.{IsForest}
use self_rss.Categories.Hierarchy.{Step, History, History-IsForest}
use self_rss.Categories.Update.{update-IsForest}
use self_rss.Categories.Ancestors.{is_descendant_iff}

-- A platform for texts of small letters.
abbrev platform : Platform
platform = record { normalize_nfd = λ s. s; to_lower_case = λ s. s; to_locale_lower_case = λ s. s }

abbrev news : Category
news = record {
  id = 1;
  user_id = 9;
  parent_category_id = none;
  name = codes "news";
  slug = codes "news";
  sort_order = 0;
  created_at = 0;
  updated_at = 0;
}

abbrev world : Category
world = record news {
  id = 2;
  parent_category_id = some 1;
  name = codes "world";
  slug = codes "world";
}

abbrev europe : Category
europe = record news {
  id = 3;
  parent_category_id = some 2;
  name = codes "europe";
  slug = codes "europe";
}

-- The last one is another user's.
abbrev table : List Category
table = news ∷ world ∷ europe ∷ record news { id = 4; user_id = 8 } ∷ []

abbrev move : ℕ → Changes
move parent = record {
  name = some (codes " the  world ");
  parent_category_id = some (some parent);
  sort_order = none;
}

slug : base_category_slug platform (codes " the  big - world! ") ≡ codes "the-big-world"
unfolding base_category_slug strip_marks blank_others dash_runs is_dash skip_dashes stable_hash
    to_string slice trim trim_start is_space is_digit
slug = refl

numbered_slug :
    unique_category_slug platform (codes "a") (codes "a" ∷ codes "a-2" ∷ []) ≡ codes "a-3"
unfolding unique_category_slug base_category_slug next_free strip_marks blank_others dash_runs
    is_dash skip_dashes stable_hash to_string digits_of slice trim trim_start is_space is_digit
numbered_slug = refl

abbrev moved : List Category
moved =
    news
    ∷ world
    ∷ record europe {
      parent_category_id = some 1;
      name = codes "the  world";
      slug = codes "the-world";
      updated_at = 50;
    }
    ∷ record news { id = 4; user_id = 8 }
    ∷ []

-- A category moves up, and none moves below itself.
moves : update platform 9 3 (move 1) 50 table ≡ ok moved
unfolding update check_parent is_descendant descends slug_for unique_slug_for_parent
    unique_category_slug base_category_slug next_free strip_marks blank_others dash_runs is_dash
    skip_dashes stable_hash to_string digits_of slice trim trim_start is_space is_digit
moves = refl

no_cycle :
    update platform 9 1 (move 3) 50 table
    ≡ fail (bad_request (codes "Category cannot be moved under one of its descendants."))
unfolding update check_parent is_descendant descends
no_cycle = refl

deletes : delete [] 9 3 table ≡ ok (news ∷ world ∷ record news { id = 4; user_id = 8 } ∷ [])
unfolding delete
deletes = refl

reorders :
    reorder 9 (record { id = 2; sort_order = 5 } ∷ []) 50 table
    ≡ ok (
      news
          ∷ record world { sort_order = 5; updated_at = 50 }
          ∷ europe
          ∷ record news { id = 4; user_id = 8 }
          ∷ [],
      1,
    )
unfolding reorder distinct
reorders = refl

forest : IsForest 9 table
forest = (ended, refl)
  where
    rows : List Category
    rows = find_all_by_user 9 table

    at_1 : Grounded rows 1
    at_1 = Grounded.root 1 refl

    at_2 : Grounded rows 2
    at_2 = Grounded.up 2 1 refl at_1

    ended : (x : ℕ) → Grounded (find_all_by_user 9 table) x
    ended x = elim (Bool-cases (x == 1)) [
      | inl e ↦ subst (Grounded rows) (sym ((==_iff x 1).0 e)) at_1
      | inr e ↦ elim (Bool-cases (x == 2)) [
        | inl f ↦ subst (Grounded rows) (sym ((==_iff x 2).0 f)) at_2
        | inr f ↦ elim (Bool-cases (x == 3)) [
          | inl g ↦ subst (Grounded rows) (sym ((==_iff x 3).0 g)) (Grounded.up 3 2 refl at_2)
          | inr g ↦ Grounded.root x (ground arith)
        ]
      ]
    ]

update-IsForest_example : IsForest 9 moved
update-IsForest_example = update-IsForest platform 9 3 (move 1) 50 table moved forest moves

is_descendant_iff_example :
    (is_descendant 9 1 3 table ≡ true) ↔ Below (find_all_by_user 9 table) 3 1
is_descendant_iff_example = is_descendant_iff 9 1 3 table forest refl

creates_root : create platform 1 9 (codes "news") none none 0 [] ≡ ok (news ∷ [])
unfolding create unique_slug_for_parent unique_category_slug base_category_slug next_free
    strip_marks blank_others dash_runs is_dash skip_dashes stable_hash to_string digits_of slice
    trim trim_start is_space is_digit
creates_root = refl

creates_child :
    create platform 2 9 (codes "world") (some 1) none 0 (news ∷ []) ≡ ok (news ∷ world ∷ [])
unfolding create unique_slug_for_parent unique_category_slug base_category_slug next_free
    strip_marks blank_others dash_runs is_dash skip_dashes stable_hash to_string digits_of slice
    trim trim_start is_space is_digit
creates_child = refl

History-IsForest_example : IsForest 9 (news ∷ world ∷ [])
History-IsForest_example = History-IsForest platform 9 (news ∷ world ∷ []) (
    History.next (news ∷ [])
      (History.next [] (History.start refl)
        (Step.creation 1 (codes "news") none none 0 tt refl creates_root))
      (Step.creation 2 (codes "world") (some 1) none 0 ((refl, refl), tt) refl creates_child))

-- Another category with the slug of one that is there gets a slug of its own.
another : unique_slug_for_parent platform 9 none (codes "news!") none table ≡ ok (codes "news-2")
unfolding unique_slug_for_parent unique_category_slug base_category_slug next_free strip_marks
    blank_others dash_runs is_dash skip_dashes stable_hash to_string digits_of slice trim trim_start
    is_space is_digit
another = refl

unique_slug_for_parent-free_example :
    (any (λ c. same_text (codes "news-2") c.slug) (siblings 9 none none table) ≡ false)
    × (any
          (λ c. same_text (normalized platform c.name) (normalized platform (codes "news!")))
          (siblings 9 none none table)
        ≡ false)
unique_slug_for_parent-free_example =
    unique_slug_for_parent-free platform 9 none (codes "news!") none table (codes "news-2") another
