-- ===== src/SafeFetch/Addresses/Blocks.antt =====
-- packages/api/src/utils/safe-fetch.ts: the private addresses of version 4 are those of some blocks.
use self_rss.Prelude.{
  ℕ, ◌+◌, ◌-◌, ◌*◌, ◌/◌, ◌^◌, ◌≤◌, ◌≡◌, refl, sym, ap, ◌∙◌, Bool, true, false, ◌&&◌, ◌||◌, some,
  List, [], ◌∷◌, ◌++◌, arith, ltb, leb, ◌==◌, if◌then◌else◌, any,
}
use self_rss.Prelude.Text.{Text, split}
use self_rss.Prelude.Splits.{lacks, split-first, split-lacks}
use self_rss.Prelude.Integers.{pos}
use self_rss.Prelude.Digits.{to_string, to_string-numeral, numeral-lacks}
use self_rss.SafeFetch.Addresses.{is_private_block, is_private_parts, is_private_ipv4, octet}
use self_rss.SafeFetch.Addresses.Numerals.{parse_int-to_string}

-- An address as a number of 32 bits, and as a text.
abbrev pub address : ℕ → ℕ → ℕ → ℕ → ℕ
address a b c d = ((a * 256 + b) * 256 + c) * 256 + d

abbrev pub dotted : ℕ → ℕ → ℕ → ℕ → Text
dotted a b c d =
    to_string 10 a ++ (b'.' ∷ to_string 10 b ++ (b'.' ∷ to_string 10 c ++ (b'.' ∷ to_string 10 d)))

-- The networks, with the lengths of their prefixes.
abbrev pub private_blocks : List (ℕ × ℕ)
private_blocks =
    (address 0 0 0 0, 8)
    ∷ (address 10 0 0 0, 8)
    ∷ (address 127 0 0 0, 8)
    ∷ (address 169 254 0 0, 16)
    ∷ (address 172 16 0 0, 12)
    ∷ (address 192 168 0 0, 16)
    ∷ (address 100 64 0 0, 10)
    ∷ (address 198 18 0 0, 15)
    ∷ (address 224 0 0 0, 3)
    ∷ []

abbrev pub in_block : ℕ → ℕ × ℕ → Bool
in_block n (network, length) = n / 2 ^ (32 - length) == network / 2 ^ (32 - length)

-- A chain of conditionals is a disjunction.
chain-or :
    (p q r s t u v w x : Bool)
    → (if p || q || r
        then true
        else if s
        then true
        else if t
        then true
        else if u
        then true
        else if v
        then true
        else if w
        then true
        else x)
      ≡ (p || (q || (r || (s || (t || (u || (v || (w || (x || false)))))))))
chain-or true q r s t u v w x = refl
chain-or false true r s t u v w x = refl
chain-or false false true s t u v w x = refl
chain-or false false false true t u v w x = refl
chain-or false false false false true u v w x = refl
chain-or false false false false false true v w x = refl
chain-or false false false false false false true w x = refl
chain-or false false false false false false false true x = refl
chain-or false false false false false false false false true = refl
chain-or false false false false false false false false false = refl

module _ (a b c d : ℕ) (ha : a ≤ 255) (hb : b ≤ 255) (hc : c ≤ 255) (hd : d ≤ 255) where
  n : ℕ
  n = address a b c d

  first-block : (k : ℕ) → (n / 2 ^ 24 == k) ≡ (a == k)
  unfolding n
  first-block k = let e : address a b c d / 2 ^ 24 ≡ a = omega (arith, ha, hb, hc, hd) in rw e refl

  pair-block : (x y : ℕ) → y ≤ 255 → (n / 2 ^ 16 == x * 256 + y) ≡ (a == x && b == y)
  unfolding n
  pair-block x y hy =
      let e : address a b c d / 2 ^ 16 ≡ a * 256 + b = omega (arith, ha, hb, hc, hd) in
      rw e (ground arith)

  block-20 : (n / 2 ^ 20 == 2753) ≡ (a == 172 && leb 16 b && leb b 31)
  unfolding n
  block-20 =
      let e : address a b c d / 2 ^ 20 ≡ a * 16 + b / 16 = omega (arith, ha, hb, hc, hd) in
      rw e (ground arith)

  block-22 : (n / 2 ^ 22 == 401) ≡ (a == 100 && leb 64 b && leb b 127)
  unfolding n
  block-22 =
      let e : address a b c d / 2 ^ 22 ≡ a * 4 + b / 64 = omega (arith, ha, hb, hc, hd) in
      rw e (ground arith)

  block-17 : (n / 2 ^ 17 == 25353) ≡ (a == 198 && (b == 18 || b == 19))
  unfolding n
  block-17 =
      let e : address a b c d / 2 ^ 17 ≡ a * 128 + b / 2 = omega (arith, ha, hb, hc, hd) in
      rw e (ground arith)

  block-29 : (n / 2 ^ 29 == 7) ≡ leb 224 a
  unfolding n
  block-29 =
      let e : address a b c d / 2 ^ 29 ≡ a / 32 = omega (arith, ha, hb, hc, hd) in
      rw e (ground arith)

  blocks-any : is_private_block a b ≡ any (in_block n) private_blocks
  blocks-any =
      chain-or (a == 0) (a == 10) (a == 127) (a == 169 && b == 254)
        (a == 172 && leb 16 b && leb b 31) (a == 192 && b == 168)
        (a == 100 && leb 64 b && leb b 127) (a == 198 && (b == 18 || b == 19)) (leb 224 a)
      ∙ sym (
          rw
            (
              first-block 0,
              first-block 10,
              first-block 127,
              pair-block 169 254 (omega arith),
              block-20,
              pair-block 192 168 (omega arith),
              block-22,
              block-17,
              block-29,
            )
            refl)

number-lacks : (n : ℕ) → lacks b'.' (to_string 10 n) ≡ true
number-lacks n = numeral-lacks b'.' (to_string 10 n) refl (to_string-numeral n)

dotted-split :
    (a b c d : ℕ)
    → split b'.' (dotted a b c d)
      ≡ to_string 10 a ∷ to_string 10 b ∷ to_string 10 c ∷ to_string 10 d ∷ []
dotted-split a b c d =
    let part : (m : ℕ) (t : Text)
        → split b'.' (to_string 10 m ++ (b'.' ∷ t)) ≡ to_string 10 m ∷ split b'.' t =
      λ m t. split-first b'.' (to_string 10 m) t (number-lacks m) in
    part a (to_string 10 b ++ (b'.' ∷ to_string 10 c ++ (b'.' ∷ to_string 10 d)))
    ∙ ap (λ parts. to_string 10 a ∷ parts)
        (part b (to_string 10 c ++ (b'.' ∷ to_string 10 d))
          ∙ ap (λ parts. to_string 10 b ∷ parts)
              (part c (to_string 10 d)
                ∙ ap (λ parts. to_string 10 c ∷ parts)
                    (split-lacks b'.' (to_string 10 d) (number-lacks d))))

octet-small : (n : ℕ) → n ≤ 255 → octet (some (pos n)) ≡ some n
octet-small n h = let e : ltb 255 n ≡ false = ground arith in rw e refl

-- The text of an address of version 4, each of whose four numbers is at most 255, is private just if
-- the address is in one of the private networks.
pub is_private_ipv4-blocks :
    (a b c d : ℕ)
    → a ≤ 255
    → b ≤ 255
    → c ≤ 255
    → d ≤ 255
    → is_private_ipv4 (dotted a b c d) ≡ any (in_block (address a b c d)) private_blocks
unfolding is_private_ipv4 is_private_parts n
is_private_ipv4-blocks a b c d ha hb hc hd = rw (dotted-split a b c d) (
    rw (parse_int-to_string a, parse_int-to_string b, parse_int-to_string c, parse_int-to_string d)
      (rw (octet-small a ha, octet-small b hb, octet-small c hc, octet-small d hd)
        (blocks-any a b c d ha hb hc hd)))
