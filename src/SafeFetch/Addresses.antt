-- ===== src/SafeFetch/Addresses.antt =====
-- packages/api/src/utils/safe-fetch.ts: the addresses that are private.
pub mod Blocks
mod Numerals
use self_rss.Prelude.{
  is_empty, ℕ, zero, suc, ◌+◌, ◌-◌, ◌*◌, ◌/◌, ◌%◌, ◌^◌, Bool, true, false, not, ◌&&◌, ◌||◌, Option,
  none, some, List, [], ◌∷◌, ◌++◌, map, ltb, leb, ◌==◌, if◌then◌else◌, or_else, ◌>>=◌, length,
  select,
}
use self_rss.Prelude.Text.{
  Text, codes, same_text, split, onto_first, includes, to_lower_case, trim_start, starts_with,
}
use self_rss.Prelude.Integers.{ℤ, pos, negsuc}

-- The value of a digit of any radix up to 36.
abbrev pub digit_value : ℕ → Option ℕ
digit_value c =
    if leb b'0' c && leb c b'9'
    then some (c - b'0')
    else if leb b'a' c && leb c b'z'
    then some (c - b'a' + 10)
    else if leb b'A' c && leb c b'Z'
    then some (c - b'A' + 10)
    else none

abbrev pub next_digit : ℕ → ℕ → Option ℕ
next_digit radix c = digit_value c >>= (λ d. if ltb d radix then some d else none)

-- The longest run of digits, after those that make `acc`.
unfoldable pub digits_value : ℕ → Option ℕ → Text → Option ℕ
digits_value radix acc [] = acc
digits_value radix acc (c ∷ s) = elim (next_digit radix c) [
  | none ↦ acc
  | some d ↦ digits_value radix (some (or_else acc 0 * radix + d)) s
]

abbrev pub negated : ℕ → ℤ
negated zero = pos 0
negated (suc n) = negsuc n

unfoldable pub skip_prefix : ℕ → Text → Text
skip_prefix radix (c ∷ d ∷ s) =
    if radix == 16 && c == b'0' && (d == b'x' || d == b'X') then s else c ∷ d ∷ s
skip_prefix radix s = s

abbrev pub unsigned : ℕ → Text → Option ℕ
unfolding digits_value skip_prefix
unsigned radix s = digits_value radix none (skip_prefix radix s)

unfoldable pub signed : ℕ → Text → Option ℤ
unfolding digits_value skip_prefix
signed radix [] = none
signed radix (c ∷ s) =
    if c == b'-'
    then unsigned radix s >>= (λ n. some (negated n))
    else unsigned radix (if c == b'+' then s else c ∷ s) >>= (λ n. some (pos n))

-- `Number.parseInt(s, radix)`, or nothing for NaN.
unfoldable pub parse_int : ℕ → Text → Option ℤ
unfolding signed trim_start
parse_int radix s = signed radix (trim_start s)

-- A part of an address that passes the test on parts.
abbrev pub octet : Option ℤ → Option ℕ
octet none = none
octet (some (pos n)) = if ltb 255 n then none else some n
octet (some (negsuc n)) = none

abbrev pub is_private_block : ℕ → ℕ → Bool
is_private_block a b =
    if a == 0 || a == 10 || a == 127
    then true
    else if a == 169 && b == 254
    then true
    else if a == 172 && leb 16 b && leb b 31
    then true
    else if a == 192 && b == 168
    then true
    else if a == 100 && leb 64 b && leb b 127
    then true
    else if a == 198 && (b == 18 || b == 19)
    then true
    else leb 224 a

unfoldable pub is_private_parts : List (Option ℤ) → Bool
is_private_parts (p ∷ q ∷ r ∷ s ∷ []) =
    or_else
      (octet p >>= (λ a.
        octet q >>= (λ b. octet r >>= (λ c. octet s >>= (λ d. some (is_private_block a b))))))
      false
is_private_parts _ = false

unfoldable pub is_private_ipv4 : Text → Bool
unfolding is_private_parts parse_int split
is_private_ipv4 ip = is_private_parts (map (parse_int 10) (split b'.' ip))

-- `s.split('::')`.
unfoldable pub split_pairs : Text → List Text
split_pairs [] = [] ∷ []
split_pairs (c ∷ []) = (c ∷ []) ∷ []
split_pairs (c ∷ d ∷ s) =
    if c == b':' && d == b':' then [] ∷ split_pairs s else onto_first c (split_pairs (d ∷ s))

-- `s.split(':').filter(Boolean)`, for the part with an index.
abbrev pub groups_of : List Text → ℕ → List Text
unfolding split
groups_of [] i = []
groups_of (part ∷ parts) zero = select (λ s. not (is_empty s)) (split b':' part)
groups_of (part ∷ parts) (suc i) = groups_of parts i

abbrev pub zeros : ℕ → List Text
zeros zero = []
zeros (suc n) = codes "0" ∷ zeros n

unfoldable pub expand_ipv6 : Text → List Text
unfolding split_pairs to_lower_case includes split
expand_ipv6 ip =
    let parts = split_pairs (to_lower_case ip) in
    let head = groups_of parts 0 in
    let tail = groups_of parts 1 in
    if includes (codes "::") ip
    then head ++ zeros (8 - (length head + length tail)) ++ tail
    else head

abbrev pub last_of : List Text → Text
last_of [] = []
last_of (part ∷ []) = part
last_of (part ∷ next ∷ parts) = last_of (next ∷ parts)

unfoldable pub parse_ipv4_mapped_ipv6 : Text → Option Text
unfolding to_lower_case includes split
parse_ipv4_mapped_ipv6 ip =
    let normalized = to_lower_case ip in
    if includes (codes ".") normalized && includes (codes ":") normalized
    then some (last_of (split b':' normalized))
    else none

-- The lowest sixteen bits of the two's complement.
abbrev pub low_bits : ℤ → ℕ
low_bits (pos n) = n % 2 ^ 16
low_bits (negsuc n) = 2 ^ 16 - 1 - n % 2 ^ 16

-- `(first & mask) === bits`, where the mask has all of the sixteen bits but the lowest `shift`.
abbrev pub has_prefix : ℕ → ℕ → ℤ → Bool
has_prefix shift bits first = low_bits first / 2 ^ shift * 2 ^ shift == bits

abbrev pub first_or_zero : List Text → Text
first_or_zero [] = codes "0"
first_or_zero (part ∷ parts) = part

abbrev pub is_private_group : Option ℤ → Bool
is_private_group none = false
is_private_group (some first) =
    has_prefix 9 0xfc00 first || has_prefix 6 0xfe80 first || has_prefix 8 0xff00 first

abbrev pub is_private_mapped : Option Text → Bool → Bool
unfolding is_private_ipv4
is_private_mapped none otherwise = otherwise
is_private_mapped (some []) otherwise = otherwise
is_private_mapped (some (c ∷ s)) otherwise = is_private_ipv4 (c ∷ s)

unfoldable pub is_private_ipv6 : Text → Bool
unfolding to_lower_case is_private_ipv4 parse_ipv4_mapped_ipv6 expand_ipv6 parse_int
is_private_ipv6 ip =
    let normalized = to_lower_case ip in
    if same_text normalized (codes "::") || same_text normalized (codes "::1")
    then true
    else is_private_mapped (parse_ipv4_mapped_ipv6 normalized)
        (is_private_group (parse_int 16 (first_or_zero (expand_ipv6 normalized))))

-- `is_ip` is the version of an address, or 0 for another text.
unfoldable pub is_private_ip_address : (Text → ℕ) → Text → Bool
unfolding is_private_ipv4 is_private_ipv6
is_private_ip_address is_ip ip =
    if is_ip ip == 4
    then is_private_ipv4 ip
    else if is_ip ip == 6
    then is_private_ipv6 ip
    else false
