-- ===== src/Articles/Cursors.antt =====
-- packages/api/src/utils/article-cursor.ts: the texts that say where a page of articles ended.
-- The cursor of a page is the identifier, the second and the direction of its last article, and the
-- rank in front of them where the articles were searched for.
pub mod RoundTrip
mod Tests
use mathlib.Core.List.{replicate}
use self_rss.Prelude.{
  is_empty, ℕ, suc, ◌+◌, ◌/◌, Bool, true, false, not, ◌&&◌, ◌||◌, Option, none, some, List, [], ◌∷◌,
  ◌++◌, ltb, leb, ◌==◌, if◌then◌else◌, is_none, or_else, ◌>>=◌,
}
use self_rss.Prelude.Text.{is_hex, Text, codes, same_text, split}
use self_rss.Prelude.Digits.{to_string}
use self_rss.Prelude.Integers.{ℤ, pos, negsuc}

-- The numbers of the platform that are finite. `number` is `Number(text)`, or nothing where that is
-- not finite; `whole` is the integer that a number is, if it is one.
pub record Numbers : Type 1 where
  pub Double : Type 0
  pub to_text : Double → Text
  pub number : Text → Option Double
  pub whole : Double → Option ℤ
  pub literal : ℕ → Double
  pub greater : Double → Double → Bool
  pub minus : Double → Double → Double
  pub over : Double → Double → Double

abbrev pub max_reasonable_timestamp : ℕ
max_reasonable_timestamp = 4102444800

pub data Slot : Type 0 where
  hex dash : Slot

abbrev pub fits : Slot → ℕ → Bool
fits Slot.hex c = is_hex c
fits Slot.dash c = c == b'-'

-- A text that has a character for each slot.
abbrev pub matches : List Slot → Text → Bool
matches [] [] = true
matches [] (c ∷ s) = false
matches (slot ∷ slots) [] = false
matches (slot ∷ slots) (c ∷ s) = fits slot c && matches slots s

abbrev pub uuid_regex : List Slot
uuid_regex =
    let four = Slot.dash ∷ replicate 4 Slot.hex in
    replicate 8 Slot.hex ++ four ++ four ++ four ++ (Slot.dash ∷ replicate 12 Slot.hex)

unfoldable pub is_valid_article_cursor_id : Text → Bool
is_valid_article_cursor_id value = matches uuid_regex value

-- `sort === 'oldest' ? 'a' : 'd'`.
abbrev pub direction_of : Option Text → Text
direction_of none = codes "d"
direction_of (some sort) = if same_text sort (codes "oldest") then codes "a" else codes "d"

-- The tests that the cursors with and without a rank share, on the parts that both have.
unfoldable pub accepts : Text → Text → Text → Text → Bool
unfolding is_valid_article_cursor_id
accepts expected id seconds_raw direction =
    not (is_empty seconds_raw || is_empty id || is_empty direction)
    && is_valid_article_cursor_id id
    && (same_text direction (codes "a") || same_text direction (codes "d"))
    && same_text direction expected

-- `Math.floor(milliseconds / 1000)`.
unfoldable pub floor_seconds : ℤ → ℤ
floor_seconds (pos n) = pos (n / 1000)
floor_seconds (negsuc n) = negsuc (n / 1000)

-- `String(n)`.
unfoldable pub integer_text : ℤ → Text
unfolding to_string
integer_text (pos n) = to_string 10 n
integer_text (negsuc n) = b'-' ∷ to_string 10 (n + 1)

-- A date by its milliseconds, or a number of seconds or milliseconds.
pub data Timestamp : Type 0 where
  date number : ℤ → Timestamp

unfoldable pub timestamp_seconds : Timestamp → ℤ
unfolding floor_seconds
timestamp_seconds (Timestamp.date milliseconds) = floor_seconds milliseconds
timestamp_seconds (Timestamp.number (pos n)) =
    if ltb 1000000000000 n then floor_seconds (pos n) else pos n
timestamp_seconds (Timestamp.number (negsuc n)) = negsuc n

module _ (numbers : Numbers) where
  pub record ArticleCursor : Type 0 where
    pub id : Text
    pub seconds : ℕ
    pub direction : Text
    pub fts_rank : Option numbers.Double

  pub record ArticleCursorItem : Type 0 where
    pub id : Text
    pub published_at : Option Timestamp
    pub fetched_at : Timestamp
    pub fts_rank : Option numbers.Double

  unfoldable pub normalize_fts_rank : numbers.Double → numbers.Double
  normalize_fts_rank raw_rank =
      if numbers.greater raw_rank (numbers.over (numbers.literal 1000000000) (numbers.literal 2))
      then numbers.over (numbers.minus raw_rank (numbers.literal 1000000000))
          (numbers.literal 10000)
      else raw_rank

  abbrev pub in_range : ℤ → Option ℕ
  in_range (pos n) = if leb n max_reasonable_timestamp then some n else none
  in_range (negsuc n) = none

  unfoldable pub parse_cursor_seconds : Text → Option ℕ
  parse_cursor_seconds value = numbers.number value >>= numbers.whole >>= in_range

  -- The parts of a cursor, by their number.
  unfoldable pub decode_parts : Text → List Text → Option ArticleCursor
  unfolding accepts normalize_fts_rank parse_cursor_seconds
  decode_parts expected (rank_raw ∷ seconds_raw ∷ id ∷ direction ∷ []) =
      if not (is_empty rank_raw) && accepts expected id seconds_raw direction
      then numbers.number rank_raw >>= (λ raw_rank. parse_cursor_seconds seconds_raw >>= (λ seconds.
        some (record {
          id = id;
          seconds = seconds;
          direction = direction;
          fts_rank = some (normalize_fts_rank raw_rank);
        })))
      else none
  decode_parts expected (id ∷ seconds_raw ∷ direction ∷ []) =
      if accepts expected id seconds_raw direction
      then parse_cursor_seconds seconds_raw >>= (λ seconds.
        some (record { id = id; seconds = seconds; direction = direction; fts_rank = none }))
      else none
  decode_parts expected _ = none

  unfoldable pub decode_article_cursor : Option Text → Option Text → Option ArticleCursor
  unfolding decode_parts split
  decode_article_cursor none sort = none
  decode_article_cursor (some cursor) sort =
      if is_empty cursor then none else decode_parts (direction_of sort) (split b':' cursor)

  unfoldable pub encode_article_cursor_from_timestamp :
      Text → Timestamp → Option Text → Option numbers.Double → Text
  unfolding timestamp_seconds integer_text
  encode_article_cursor_from_timestamp id timestamp sort none =
      id ++ (b':' ∷ integer_text (timestamp_seconds timestamp) ++ (b':' ∷ direction_of sort))
  encode_article_cursor_from_timestamp id timestamp sort (some fts_rank) =
      numbers.to_text fts_rank
      ++ (b':' ∷ integer_text (timestamp_seconds timestamp)
          ++ (b':' ∷ id ++ (b':' ∷ direction_of sort)))

  unfoldable pub encode_article_cursor : Option ArticleCursorItem → Option Text → Option Text
  unfolding encode_article_cursor_from_timestamp
  encode_article_cursor none sort = none
  encode_article_cursor (some item) sort = some (
      encode_article_cursor_from_timestamp item.id (or_else item.published_at item.fetched_at) sort
        item.fts_rank)

  -- The item is its identifier and the text of its date, which `get_time` reads.
  unfoldable pub encode_cached_article_cursor :
      (Text → Option ℤ) → Option (Text × Text) → Option Text → Option Text
  unfolding encode_article_cursor_from_timestamp
  encode_cached_article_cursor get_time none sort = none
  encode_cached_article_cursor get_time (some (id, displayed_at)) sort =
      get_time displayed_at
      >>= (λ time. some (encode_article_cursor_from_timestamp id (Timestamp.date time) sort none))
