-- ===== src/Articles/Cursors/Tests.antt =====
-- packages/api/src/utils/article-cursor.ts: cursors over numbers that are written in decimal digits.
use self_rss.Prelude.{ℕ, ◌-◌, ◌/◌, ◌≡◌, refl, none, some, [], ◌++◌, ltb}
use self_rss.Prelude.Text.{Text, codes, digits_from}
use self_rss.Prelude.Digits.{to_string}
use self_rss.Prelude.Integers.{pos, negsuc}
use self_rss.Articles.Cursors.{
  Numbers, Timestamp, ArticleCursorItem, decode_article_cursor, encode_article_cursor,
  encode_cached_article_cursor, is_valid_article_cursor_id, timestamp_seconds, integer_text,
}
use self_rss.Articles.Cursors.RoundTrip.{cursor_read, read_as}

abbrev naturals : Numbers
naturals = record {
  Double = ℕ;
  to_text = to_string 10;
  number = λ s. some (digits_from 0 s);
  whole = λ n. some (pos n);
  literal = λ n. n;
  greater = λ a b. ltb b a;
  minus = λ a b. a - b;
  over = λ a b. a / b;
}

abbrev uuid : Text
uuid = codes "0123abcd-0000-4000-8000-0123456789ab"

abbrev item : ArticleCursorItem naturals
item = record {
  id = uuid;
  published_at = none;
  fetched_at = Timestamp.date (pos 1700000000123);
  fts_rank = some 7;
}

encode_test :
    encode_article_cursor naturals (some item) (some (codes "oldest"))
    ≡ some (codes "7:1700000000:" ++ uuid ++ codes ":a")
unfolding encode_article_cursor to_string
encode_test = refl

cached_test :
    encode_cached_article_cursor naturals (λ _. some (pos 1999)) (some (uuid, [])) none
    ≡ some (uuid ++ codes ":1:d")
unfolding encode_cached_article_cursor to_string
cached_test = refl

-- Half a second before 1970 is in the second before.
early_test : timestamp_seconds (Timestamp.date (negsuc 499)) ≡ negsuc 0
unfolding timestamp_seconds
early_test = refl

decode_test : decode_article_cursor naturals (some (codes "1:2")) none ≡ none
unfolding decode_article_cursor
decode_test = refl

cursor_read_example :
    decode_article_cursor naturals
      (encode_article_cursor naturals (some item) none)
      (some (codes "newest"))
    ≡ read_as naturals uuid (pos 1700000000) none (some 7)
unfolding to_string digits_from timestamp_seconds is_valid_article_cursor_id integer_text
cursor_read_example =
    cursor_read naturals item none (some (codes "newest")) refl refl refl (refl, refl, refl)
