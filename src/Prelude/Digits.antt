-- ===== src/Prelude/Digits.antt =====
-- The texts of numbers: what `toString` writes, and that it writes numbers differently.
use mathlib.Core.List.{[], ◌∷◌, reverse, reverse-reverse, reverse-cons, ◌++◌}
use mathlib.Core.Path.{◌≡◌, refl, sym, ap, ◌∙◌}
use mathlib.Core.Logic.{inl, inr}
use mathlib.Core.Bool.{Bool, ◌&&◌, true, false}
use Prim.Native.Nat.{ℕ, zero, suc, ◌+◌, ◌-◌, ◌*◌, ◌/◌, ◌%◌, ◌≤◌, ◌<◌}
use native.Mathlib.Omega.{arith}
use self_rss.Prelude.Tests.{◌==◌, leb, ltb, if◌then◌else◌, Bool-cases}
use self_rss.Prelude.Splits.{lacks}
use self_rss.Prelude.Text.{Text}

-- `toString(radix)`: the digits from the last one, while the number is not used up.
unfoldable pub digits_of : ℕ → ℕ → ℕ → Text
digits_of radix zero n = []
digits_of radix (suc fuel) n =
    let d = n % radix in
    let digit = if ltb d 10 then b'0' + d else b'a' + (d - 10) in
    elim (ltb n radix) [ true ↦ digit ∷ [] | false ↦ digit ∷ digits_of radix fuel (n / radix) ]

-- A number has fewer digits than its successor counts.
unfoldable pub to_string : ℕ → ℕ → Text
unfolding digits_of
to_string radix n = reverse (digits_of radix (suc n) n)

-- The number that the digits write, the last digit first.
value : Text → ℕ
value [] = 0
value (c ∷ s) = (c - b'0') + 10 * value s

small : (n : ℕ) → ltb (n % 10) 10 ≡ true
small n = let bound : n % 10 < 10 = omega arith in ground arith

pub digits_of-last :
    (fuel n : ℕ) → ltb n 10 ≡ true → digits_of 10 (suc fuel) n ≡ (b'0' + n % 10) ∷ []
unfolding digits_of
digits_of-last fuel n e = rw (e, digits_of) (rw (small n) refl)

pub digits_of-more :
    (fuel n : ℕ)
    → ltb n 10 ≡ false
    → digits_of 10 (suc fuel) n ≡ (b'0' + n % 10) ∷ digits_of 10 fuel (n / 10)
unfolding digits_of
digits_of-more fuel n e = rw (e, digits_of) (rw (small n) refl)

digits_of-value : (fuel n : ℕ) → n < fuel → value (digits_of 10 fuel n) ≡ n
unfolding value
digits_of-value zero n h = absurd (omega (arith, h))
digits_of-value (suc fuel) n h = elim (Bool-cases (ltb n 10)) [
  | inl e ↦
      let short : n < 10 = ground arith in
      let whole : (b'0' + n % 10) - b'0' + 10 * 0 ≡ n = omega (arith, short) in
      ap value (digits_of-last fuel n e) ∙ whole
  | inr e ↦
      let long : 10 ≤ n = ground arith in
      let less : n / 10 < fuel = omega (arith, long, h) in
      let whole : (b'0' + n % 10) - b'0' + 10 * (n / 10) ≡ n = omega arith in
      ap value (digits_of-more fuel n e)
      ∙ ap (λ v. (b'0' + n % 10) - b'0' + 10 * v) (digits_of-value fuel (n / 10) less)
      ∙ whole
]

pub to_string_injective : (m n : ℕ) → to_string 10 m ≡ to_string 10 n → m ≡ n
unfolding to_string
to_string_injective m n h =
    let same =
      sym (reverse-reverse (digits_of 10 (suc m) m))
      ∙ ap reverse h
      ∙ reverse-reverse (digits_of 10 (suc n) n) in
    sym (digits_of-value (suc m) m (omega arith))
    ∙ ap value same
    ∙ digits_of-value (suc n) n (omega arith)

-- Decimal digits only.
abbrev pub decimal : ℕ → Bool
decimal c = leb b'0' c && leb c b'9'

abbrev pub numeral : Text → Bool
numeral [] = true
numeral (c ∷ s) = decimal c && numeral s

numeral-append : (s t : Text) → numeral s ≡ true → numeral t ≡ true → numeral (s ++ t) ≡ true
numeral-append [] t h k = k
numeral-append (c ∷ s) t h k =
    let rest : numeral s ≡ true = ground arith in let ih = numeral-append s t rest k in ground arith

pub numeral-reverse : (s : Text) → numeral s ≡ true → numeral (reverse s) ≡ true
numeral-reverse [] h = refl
numeral-reverse (c ∷ s) h =
    let rest : numeral s ≡ true = ground arith in
    let one : numeral (c ∷ []) ≡ true = ground arith in
    ap numeral (reverse-cons c s) ∙ numeral-append (reverse s) (c ∷ []) (numeral-reverse s rest) one

pub digits_of-numeral : (fuel n : ℕ) → numeral (digits_of 10 fuel n) ≡ true
unfolding digits_of
digits_of-numeral zero n = refl
digits_of-numeral (suc fuel) n =
    let bound : n % 10 < 10 = omega arith in
    let e : decimal (b'0' + n % 10) ≡ true = ground arith in
    elim (Bool-cases (ltb n 10)) [
      | inl last ↦ ap numeral (digits_of-last fuel n last) ∙ rw e refl
      | inr more ↦
          ap numeral (digits_of-more fuel n more) ∙ rw (e, digits_of-numeral fuel (n / 10)) refl
    ]

pub to_string-numeral : (n : ℕ) → numeral (to_string 10 n) ≡ true
unfolding to_string
to_string-numeral n = numeral-reverse (digits_of 10 (suc n) n) (digits_of-numeral (suc n) n)

-- A numeral has no code unit but digits.
pub numeral-lacks : (c : ℕ) (s : Text) → decimal c ≡ false → numeral s ≡ true → lacks c s ≡ true
numeral-lacks c [] other h = refl
numeral-lacks c (x ∷ s) other h =
    let first : decimal x ≡ true = ground arith in
    let differs : (x == c) ≡ false = ground arith in
    let rest : numeral s ≡ true = ground arith in rw (differs, numeral-lacks c s other rest) refl
