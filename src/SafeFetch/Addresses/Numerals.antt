-- ===== src/SafeFetch/Addresses/Numerals.antt =====
-- packages/api/src/utils/safe-fetch.ts: `parseInt` reads the digits of a number as the number.
use mathlib.Core.List.{reverse, reverse-cons}
use self_rss.Prelude.{
  ℕ, zero, suc, ◌+◌, ◌-◌, ◌*◌, ◌/◌, ◌%◌, ◌≤◌, ◌<◌, ◌≡◌, refl, ap, ◌∙◌, inl, inr, true, false,
  Option, none, some, [], ◌∷◌, ◌++◌, arith, ltb, ◌==◌, or_else, Bool-cases,
}
use self_rss.Prelude.Text.{Text, trim_start, is_space}
use self_rss.Prelude.Integers.{pos}
use self_rss.Prelude.Digits.{
  decimal, numeral, numeral-reverse, digits_of-numeral, to_string-numeral, digits_of, to_string,
  digits_of-last, digits_of-more,
}
use self_rss.SafeFetch.Addresses.{next_digit, digits_value, skip_prefix, signed, parse_int}

next_digit-decimal : (c : ℕ) → decimal c ≡ true → next_digit 10 c ≡ some (c - b'0')
next_digit-decimal c h = let small : ltb (c - b'0') 10 ≡ true = ground arith in rw (h, small) refl

digits_value-append :
    (acc : Option ℕ) (s t : Text)
    → numeral s ≡ true
    → digits_value 10 acc (s ++ t) ≡ digits_value 10 (digits_value 10 acc s) t
unfolding digits_value
digits_value-append acc [] t h = refl
digits_value-append acc (c ∷ s) t h =
    let first : decimal c ≡ true = ground arith in
    let rest : numeral s ≡ true = ground arith in
    rw (digits_value, next_digit-decimal c first)
      (digits_value-append (some (or_else acc 0 * 10 + (c - b'0'))) s t rest)

digits_value-one :
    (acc : Option ℕ) (d : ℕ)
    → d < 10
    → digits_value 10 acc ((b'0' + d) ∷ []) ≡ some (or_else acc 0 * 10 + d)
unfolding digits_value
digits_value-one acc d small =
    let e : decimal (b'0' + d) ≡ true = ground arith in
    let back : (b'0' + d) - b'0' ≡ d = omega arith in
    rw (digits_value, next_digit-decimal (b'0' + d) e)
      (ap (λ n. some (or_else acc 0 * 10 + n)) back)

digits_value-read :
    (fuel n : ℕ) → n < fuel → digits_value 10 none (reverse (digits_of 10 fuel n)) ≡ some n
digits_value-read zero n h = absurd (omega (arith, h))
digits_value-read (suc fuel) n h =
    let bound : n % 10 < 10 = omega arith in
    elim (Bool-cases (ltb n 10)) [
      | inl e ↦
          let short : n < 10 = ground arith in
          let whole : 0 * 10 + n % 10 ≡ n = omega (arith, short) in
          ap (λ ds. digits_value 10 none (reverse ds)) (digits_of-last fuel n e)
          ∙ ap (digits_value 10 none) (reverse-cons (b'0' + n % 10) [])
          ∙ digits_value-one none (n % 10) bound
          ∙ ap some whole
      | inr e ↦
          let long : 10 ≤ n = ground arith in
          let less : n / 10 < fuel = omega (arith, long, h) in
          let whole : n / 10 * 10 + n % 10 ≡ n = omega arith in
          let rest = digits_of 10 fuel (n / 10) in
          ap (λ ds. digits_value 10 none (reverse ds)) (digits_of-more fuel n e)
          ∙ ap (digits_value 10 none) (reverse-cons (b'0' + n % 10) rest)
          ∙ digits_value-append none (reverse rest) ((b'0' + n % 10) ∷ [])
              (numeral-reverse rest (digits_of-numeral fuel (n / 10)))
          ∙ ap (λ acc. digits_value 10 acc ((b'0' + n % 10) ∷ []))
              (digits_value-read fuel (n / 10) less)
          ∙ digits_value-one (some (n / 10)) (n % 10) bound
          ∙ ap some whole
    ]

skip_prefix-ten : (s : Text) → skip_prefix 10 s ≡ s
unfolding skip_prefix
skip_prefix-ten [] = refl
skip_prefix-ten (c ∷ []) = refl
skip_prefix-ten (c ∷ d ∷ s) = refl

-- A numeral that has a value is read as that.
parse_int-numeral :
    (s : Text) (n : ℕ)
    → numeral s ≡ true
    → digits_value 10 none s ≡ some n
    → parse_int 10 s ≡ some (pos n)
unfolding parse_int signed trim_start is_space digits_value
parse_int-numeral [] n h v = absurd (let no : digits_value 10 none [] ≡ none = refl in cc)
parse_int-numeral (c ∷ s) n h v =
    let first : decimal c ≡ true = ground arith in
    let spaces : is_space c ≡ false = ground arith in
    let minus : (c == b'-') ≡ false = ground arith in
    let plus : (c == b'+') ≡ false = ground arith in
    rw (spaces, minus, plus, skip_prefix-ten (c ∷ s), v) refl

pub parse_int-to_string : (n : ℕ) → parse_int 10 (to_string 10 n) ≡ some (pos n)
unfolding to_string
parse_int-to_string n =
    parse_int-numeral (to_string 10 n) n (to_string-numeral n)
      (digits_value-read (suc n) n (omega arith))
