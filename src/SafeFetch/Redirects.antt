-- ===== src/SafeFetch/Redirects.antt =====
-- packages/api/src/utils/safe-fetch.ts: how many redirects a fetch follows.
use self_rss.Prelude.{
  ℕ, zero, suc, ◌+◌, ◌≤◌, ◌≡◌, refl, inl, inr, not, ◌&&◌, ◌||◌, none, List, [], ◌∷◌, arith, or_else,
  All, Option-cases, if-both,
}
use self_rss.Prelude.Text.{Text}
use self_rss.SafeFetch.Loop.{Outcome-cases, follow-each}
use self_rss.SafeFetch.{
  Thrown, Outcome, LookupAddressRecord, ValidatedRemoteUrl, Response, RemoteFetchSecurityOptions,
  Contact, Deps, validate_remote_url, try_addresses, fetch_with_pinned_lookup, send, next_url,
  redirected, follow, fetch_with_validated_redirects,
}

module _ (deps : Deps) (options : RemoteFetchSecurityOptions) where
  -- A contact of one of the hops up to a limit.
  abbrev pub IsWithin : ℕ → Contact → Type 0
  IsWithin limit contact = contact.hop ≤ limit

  try-Within :
      (limit hop attempt : ℕ) (v : ValidatedRemoteUrl) (last_error : Thrown)
      (entries : List LookupAddressRecord)
      → hop ≤ limit
      → All (IsWithin limit) (try_addresses deps options hop attempt v last_error entries).0
  unfolding try_addresses
  try-Within limit hop attempt v last_error [] within = tt
  try-Within limit hop attempt v last_error (entry ∷ entries) within =
      elim (Option-cases (deps.aborted_before hop attempt)) [
        | inr (reason, e) ↦ rw (try_addresses, e) tt
        | inl e ↦ elim (Outcome-cases (deps.pinned_fetch hop attempt v entry)) [
          | inl (response, f) ↦ rw (try_addresses, e, f) (within, tt)
          | inr (error, f) ↦ elim (Option-cases (deps.aborted_after hop attempt)) [
            | inr (reason, g) ↦ rw (try_addresses, e, f, g) (within, tt)
            | inl g ↦
                rw (try_addresses, e, f, g)
                  (within, try-Within limit hop (suc attempt) v error entries within)
          ]
        ]
      ]

  send-Within :
      (limit hop : ℕ) (v : ValidatedRemoteUrl)
      → hop ≤ limit
      → All (IsWithin limit) (send deps options hop v).0
  unfolding send fetch_with_pinned_lookup
  send-Within limit hop v h =
      if-both (λ (r : List Contact × Outcome Response). All (IsWithin limit) r.0)
        (deps.has_fetch_impl || options.allow_private_hosts && not deps.has_pinned_fetch_impl) _ _
        (h, tt) (try-Within limit hop 0 v _ v.addresses h)

  follow-final :
      (left hop : ℕ) (v : ValidatedRemoteUrl) → redirected (follow deps options left hop v).1 ≡ none
  unfolding follow redirected
  follow-final zero hop v = elim (Option-cases (redirected (send deps options hop v).1)) [
    | inl e ↦ rw (follow, e) e
    | inr (response, e) ↦ rw (follow, e) refl
  ]
  follow-final (suc left) hop v = elim (Option-cases (redirected (send deps options hop v).1)) [
    | inl e ↦ rw (follow, e) e
    | inr (response, e) ↦ elim (Outcome-cases (next_url deps options hop v response)) [
      | inr (error, f) ↦ rw (follow, e, f) refl
      | inl (next, f) ↦ rw (follow, e, f) (follow-final left (suc hop) next)
    ]
  ]

  -- A fetch makes its requests in the first hop and in one more for each redirect that is allowed, whatever the
  -- servers answer, and it never gives back a redirect: its response has another status, or it throws.
  pub fetch-bounded :
      (input : Text)
      → All
          (IsWithin (or_else options.max_redirects 3))
          (fetch_with_validated_redirects deps options input).0
        × (redirected (fetch_with_validated_redirects deps options input).1 ≡ none)
  unfolding fetch_with_validated_redirects redirected
  fetch-bounded input =
      let limit = or_else options.max_redirects 3 in
      elim (Outcome-cases (validate_remote_url deps options 0 input)) [
        | inr (error, e) ↦ rw (fetch_with_validated_redirects, e) (tt, refl)
        | inl (v, e) ↦
            rw (fetch_with_validated_redirects, e)
              (
                follow-each deps options (IsWithin limit) (λ left hop v. hop + left ≤ limit)
                    (λ left hop v h. send-Within limit hop v (omega (arith, h)))
                    (λ left hop v response next h _. omega (arith, h)) limit 0 v (omega arith),
                follow-final limit 0 v,
              )
      ]
