-- ===== src/Redis/RateLimits/Identity.antt =====
-- packages/api/src/utils/rate-limit.ts: a client cannot choose its identity.
use self_rss.Prelude.{
  ℕ, suc, ◌+◌, ◌-◌, ◌<◌, ◌≡◌, refl, ap, ◌∙◌, inl, inr, Bool, true, some, List, [], ◌∷◌, ◌++◌, map,
  arith, ltb, select, length, length-append, Bool-cases,
}
use self_rss.Prelude.Splits.{split-append}
use self_rss.Prelude.Text.{Text, trim, split}
use self_rss.Redis.RateLimits.{nth, forwarded_addresses, get_forwarded_identity}

map-append : (xs ys : List Text) → map trim (xs ++ ys) ≡ map trim xs ++ map trim ys
map-append [] ys = refl
map-append (x ∷ xs) ys = ap (◌∷◌ (trim x)) (map-append xs ys)

select-append :
    (p : Text → Bool) (xs ys : List Text) → select p (xs ++ ys) ≡ select p xs ++ select p ys
select-append p [] ys = refl
select-append p (x ∷ xs) ys = elim (Bool-cases (p x)) [
  | inl e ↦ rw (e, select-append p xs ys) refl
  | inr e ↦ rw (e, select-append p xs ys) refl
]

nth-append : (xs ys : List Text) (i : ℕ) → nth (xs ++ ys) (length xs + i) ≡ nth ys i
nth-append [] ys i = let e : 0 + i ≡ i = omega arith in ap (nth ys) e
nth-append (x ∷ xs) ys i =
    let e : suc (length xs) + i ≡ suc (length xs + i) = omega arith in
    ap (nth (x ∷ xs ++ ys)) e ∙ nth-append xs ys i

module _ (is_ip : Text → Bool) where
  forwarded-append :
      (before rest : Text)
      → forwarded_addresses is_ip (before ++ (b',' ∷ rest))
        ≡ forwarded_addresses is_ip before ++ forwarded_addresses is_ip rest
  unfolding forwarded_addresses
  forwarded-append before rest =
      ap (λ parts. select is_ip (map trim parts)) (split-append b',' before rest)
      ∙ ap (select is_ip) (map-append (split b',' before) (split b',' rest))
      ∙ select-append is_ip (map trim (split b',' before)) (map trim (split b',' rest))

  -- Whatever a client puts in front of the header that the trusted proxies wrote, the identity is the same: the
  -- part that they wrote has an address for each of them, and one more for the client.
  pub forwarded_trusted :
      (before rest : Text) (trusted_proxy_hops : ℕ)
      → trusted_proxy_hops < length (forwarded_addresses is_ip rest)
      → get_forwarded_identity is_ip (some (before ++ (b',' ∷ rest))) trusted_proxy_hops
        ≡ get_forwarded_identity is_ip (some rest) trusted_proxy_hops
  unfolding get_forwarded_identity
  forwarded_trusted before rest hops enough =
      let xs = forwarded_addresses is_ip before in
      let ys = forwarded_addresses is_ip rest in
      let total = length-append xs ys in
      let long : ltb hops (length (xs ++ ys)) ≡ true = ground arith in
      let short : ltb hops (length ys) ≡ true = ground arith in
      rw (forwarded-append before rest) (
        rw (long, short)
          (ap (nth (xs ++ ys)) (
              let e : length (xs ++ ys) - hops - 1 ≡ length xs + (length ys - hops - 1) =
                omega (arith, total) in
              e)
            ∙ nth-append xs ys (length ys - hops - 1)))
