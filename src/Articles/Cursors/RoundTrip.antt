-- ===== src/Articles/Cursors/RoundTrip.antt =====
-- packages/api/src/utils/article-cursor.ts: what a cursor that was written is read as.
use mathlib.Core.List.{reverse, reverse-cons}
use self_rss.Prelude.{
  is_empty, ℕ, suc, ◌+◌, ◌/◌, ◌%◌, ◌≡◌, refl, ap, ◌∙◌, inl, inr, Bool, true, false, not, ◌&&◌, ◌||◌,
  Option, none, some, List, [], ◌∷◌, ◌++◌, arith, ltb, ◌==◌, leb, if◌then◌else◌, or_else, ◌>>=◌,
  Bool-cases,
}
use self_rss.Prelude.Text.{Text, codes, same_text, split}
use self_rss.Prelude.Splits.{lacks, split-first, split-lacks}
use self_rss.Prelude.Digits.{
  to_string-numeral, numeral-lacks, digits_of, to_string, digits_of-last, digits_of-more,
}
use self_rss.Prelude.Integers.{ℤ, pos, negsuc}
use self_rss.Articles.Cursors.{
  Numbers, Slot, fits, matches, uuid_regex, is_valid_article_cursor_id, direction_of, is_empty,
  accepts, integer_text, Timestamp, timestamp_seconds, ArticleCursor, ArticleCursorItem,
  normalize_fts_rank, in_range, parse_cursor_seconds, decode_parts, decode_article_cursor,
  encode_article_cursor_from_timestamp, encode_article_cursor,
}

-- A part of a cursor: a text that is not empty and has no colon.
abbrev pub is_part : Text → Bool
is_part s = not (is_empty s) && lacks b':' s

fits-lacks : (slot : Slot) (c : ℕ) → fits slot c ≡ true → (c == b':') ≡ false
fits-lacks Slot.hex c h = ground arith
fits-lacks Slot.dash c h = ground arith

matches-lacks : (slots : List Slot) (s : Text) → matches slots s ≡ true → lacks b':' s ≡ true
matches-lacks [] [] h = refl
matches-lacks [] (c ∷ s) h = cc
matches-lacks (slot ∷ slots) [] h = refl
matches-lacks (slot ∷ slots) (c ∷ s) h =
    let first : fits slot c ≡ true = ground arith in
    let rest : matches slots s ≡ true = ground arith in
    let e = fits-lacks slot c first in let ih = matches-lacks slots s rest in ground arith

id-part : (id : Text) → is_valid_article_cursor_id id ≡ true → is_part id ≡ true
unfolding is_valid_article_cursor_id
id-part [] h = cc
id-part (c ∷ s) h = matches-lacks uuid_regex (c ∷ s) h

direction-part : (sort : Option Text) → is_part (direction_of sort) ≡ true
direction-part none = refl
direction-part (some sort) = elim (Bool-cases (same_text sort (codes "oldest"))) [
  | inl e ↦ rw e refl
  | inr e ↦ rw e refl
]

direction-known :
    (sort : Option Text)
    → (same_text (direction_of sort) (codes "a") || same_text (direction_of sort) (codes "d"))
      ≡ true
direction-known none = refl
direction-known (some sort) = elim (Bool-cases (same_text sort (codes "oldest"))) [
  | inl e ↦ rw e refl
  | inr e ↦ rw e refl
]

append-is_empty : (s : Text) (c : ℕ) → is_empty (s ++ (c ∷ [])) ≡ false
append-is_empty [] c = refl
append-is_empty (x ∷ s) c = refl

digits_of-first : (fuel n : ℕ) → (c : ℕ) × (s : Text) × (digits_of 10 (suc fuel) n ≡ c ∷ s)
digits_of-first fuel n = elim (Bool-cases (ltb n 10)) [
  | inl last ↦ (b'0' + n % 10, [], digits_of-last fuel n last)
  | inr more ↦ (b'0' + n % 10, digits_of 10 fuel (n / 10), digits_of-more fuel n more)
]

to_string-part : (n : ℕ) → is_part (to_string 10 n) ≡ true
unfolding to_string
to_string-part n =
    let (c, s, first) = digits_of-first n n in
    let full : is_empty (to_string 10 n) ≡ false =
      ap (λ ds. is_empty (reverse ds)) first
      ∙ ap is_empty (reverse-cons c s)
      ∙ append-is_empty (reverse s) c in
    rw (full, numeral-lacks b':' (to_string 10 n) refl (to_string-numeral n)) refl

integer_text-part : (n : ℤ) → is_part (integer_text n) ≡ true
unfolding integer_text
integer_text-part (pos n) = to_string-part n
integer_text-part (negsuc n) = let h = to_string-part (n + 1) in ground arith

part-lacks : (s : Text) → is_part s ≡ true → lacks b':' s ≡ true
part-lacks s h = ground arith

part-first : (s t : Text) → is_part s ≡ true → is_empty (s ++ t) ≡ false
part-first [] t h = cc
part-first (c ∷ s) t h = refl

part-split : (s t : Text) → is_part s ≡ true → split b':' (s ++ (b':' ∷ t)) ≡ s ∷ split b':' t
part-split s t h = split-first b':' s t (part-lacks s h)

three-split :
    (a b c : Text)
    → is_part a ≡ true
    → is_part b ≡ true
    → is_part c ≡ true
    → split b':' (a ++ (b':' ∷ b ++ (b':' ∷ c))) ≡ a ∷ b ∷ c ∷ []
three-split a b c ha hb hc =
    part-split a (b ++ (b':' ∷ c)) ha
    ∙ ap (◌∷◌ a)
        (part-split b c hb ∙ ap (λ parts. b ∷ parts) (split-lacks b':' c (part-lacks c hc)))

module _ (numbers : Numbers) where
  -- What a cursor says of an item: its second has to be from 1970 to 2100.
  abbrev pub read_as :
      Text → ℤ → Option Text → Option numbers.Double → Option (ArticleCursor numbers)
  read_as id (pos n) sort fts_rank =
      if leb n 4102444800
      then some
          (record { id = id; seconds = n; direction = direction_of sort; fts_rank = fts_rank })
      else none
  read_as id (negsuc n) sort fts_rank = none

  in_range-read :
      (id : Text) (seconds : ℤ) (sort : Option Text) (fts_rank : Option numbers.Double)
      → (in_range numbers seconds >>= (λ n.
          some
            (record { id = id; seconds = n; direction = direction_of sort; fts_rank = fts_rank })))
        ≡ read_as id seconds sort fts_rank
  in_range-read id (pos n) sort fts_rank = elim (Bool-cases (leb n 4102444800)) [
    | inl e ↦ rw e refl
    | inr e ↦ rw e refl
  ]
  in_range-read id (negsuc n) sort fts_rank = refl

  -- The platform reads the text that it wrote for a rank, if there is one, and the rank is at most
  -- 500000000.
  abbrev pub RankRead : Option numbers.Double → Type 0
  RankRead none = Unit
  RankRead (some r) =
      (is_part (numbers.to_text r) ≡ true)
      × (numbers.number (numbers.to_text r) ≡ some r)
      × (numbers.greater r (numbers.over (numbers.literal 1000000000) (numbers.literal 2)) ≡ false)

  rank_kept :
      (r : numbers.Double)
      → numbers.greater r (numbers.over (numbers.literal 1000000000) (numbers.literal 2)) ≡ false
      → normalize_fts_rank numbers r ≡ r
  unfolding normalize_fts_rank
  rank_kept r small = rw small refl

  accepted :
      (id seconds_raw : Text) (sort sort' : Option Text)
      → is_valid_article_cursor_id id ≡ true
      → is_part seconds_raw ≡ true
      → accepts (direction_of sort') id seconds_raw (direction_of sort)
        ≡ same_text (direction_of sort) (direction_of sort')
  unfolding accepts
  accepted id seconds_raw sort sort' valid seconds_part =
      let id_part = id-part id valid in
      let direction_part = direction-part sort in
      let a : is_empty seconds_raw ≡ false = ground arith in
      let b : is_empty id ≡ false = ground arith in
      let c : is_empty (direction_of sort) ≡ false = ground arith in
      rw (a, b, c, valid, direction-known sort) refl

  seconds-read :
      (seconds : ℤ)
      → (numbers.number (integer_text seconds) >>= numbers.whole) ≡ some seconds
      → parse_cursor_seconds numbers (integer_text seconds) ≡ in_range numbers seconds
  unfolding parse_cursor_seconds
  seconds-read seconds read = rw read refl

  encoded-read :
      (id : Text) (timestamp : Timestamp) (sort sort' : Option Text)
      (fts_rank : Option numbers.Double) {seconds : ℤ}
      → timestamp_seconds timestamp ≡ seconds
      → is_valid_article_cursor_id id ≡ true
      → (numbers.number (integer_text seconds) >>= numbers.whole) ≡ some seconds
      → RankRead fts_rank
      → decode_article_cursor numbers
          (some (encode_article_cursor_from_timestamp numbers id timestamp sort fts_rank))
          sort'
        ≡ (if same_text (direction_of sort) (direction_of sort')
            then read_as id seconds sort fts_rank
            else none)
  unfolding decode_article_cursor encode_article_cursor_from_timestamp decode_parts
  encoded-read id timestamp sort sort' none {seconds} at valid read _ =
      let written = integer_text seconds in
      let rest = written ++ (b':' ∷ direction_of sort) in
      let full = part-first id (b':' ∷ rest) (id-part id valid) in
      let parts =
        three-split id written (direction_of sort) (id-part id valid) (integer_text-part seconds)
          (direction-part sort) in
      rw (at, full, parts, accepted id written sort sort' valid (integer_text-part seconds))
        (rw (seconds-read seconds read) (
          ap (λ r. if same_text (direction_of sort) (direction_of sort') then r else none)
            (in_range-read id seconds sort none)))
  encoded-read id timestamp sort sort' (some r) {seconds} at valid read (part, rank_read, small) =
      let written = integer_text seconds in
      let rest = written ++ (b':' ∷ id ++ (b':' ∷ direction_of sort)) in
      let full = part-first (numbers.to_text r) (b':' ∷ rest) part in
      let filled : is_empty (numbers.to_text r) ≡ false = ground arith in
      let parts =
        part-split (numbers.to_text r) rest part
        ∙ ap (◌∷◌ (numbers.to_text r)) (
            three-split written id (direction_of sort) (integer_text-part seconds)
              (id-part id valid) (direction-part sort)) in
      rw (at, full, parts, filled, accepted id written sort sort' valid (integer_text-part seconds))
        (rw (rank_read, rank_kept r small, seconds-read seconds read)
          (ap (λ r. if same_text (direction_of sort) (direction_of sort') then r else none)
            (in_range-read id seconds sort (some r))))

  -- A cursor that was written for an item is read, under a sort of the same direction, as the item's
  -- identifier, second and rank, if its second is from 0 to the limit; under a sort of the other direction,
  -- or with a second out of range, it is refused. The identifier is a valid one, the rank, if the item has
  -- one, is at most 500000000, as the ranks of a search are, and the platform reads the texts that it
  -- writes for the second and the rank.
  pub cursor_read :
      (item : ArticleCursorItem numbers) (sort sort' : Option Text) {seconds : ℤ}
      → timestamp_seconds (or_else item.published_at item.fetched_at) ≡ seconds
      → is_valid_article_cursor_id item.id ≡ true
      → (numbers.number (integer_text seconds) >>= numbers.whole) ≡ some seconds
      → RankRead item.fts_rank
      → decode_article_cursor numbers (encode_article_cursor numbers (some item) sort) sort' ≡ (
          if same_text (direction_of sort) (direction_of sort')
          then read_as item.id seconds sort item.fts_rank
          else none)
  unfolding encode_article_cursor
  cursor_read item sort sort' at valid read rank =
      encoded-read item.id (or_else item.published_at item.fetched_at) sort sort' item.fts_rank at
        valid read rank
