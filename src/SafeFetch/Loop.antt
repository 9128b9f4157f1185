-- ===== src/SafeFetch/Loop.antt =====
-- packages/api/src/utils/safe-fetch.ts: what all the turns of the loop over redirects have.
use self_rss.Prelude.{
  ℕ, zero, suc, ◌≡◌, refl, inl, inr, ◌⊎◌, List, [], ◌∷◌, ◌++◌, All, Option-cases,
}
use self_rss.SafeFetch.{
  Thrown, Outcome, ValidatedRemoteUrl, Response, RemoteFetchSecurityOptions, Contact, Deps, send,
  next_url, redirected, follow,
}

pub Outcome-cases :
    {A : Type 0} (o : Outcome A)
    → ((a : A) × (o ≡ Outcome.done a)) ⊎ ((e : Thrown) × (o ≡ Outcome.threw e))
Outcome-cases (Outcome.done a) = inl (a, refl)
Outcome-cases (Outcome.threw e) = inr (e, refl)

All-append : {A : Type 0} (P : A → Type 0) (xs ys : List A) → All P xs → All P ys → All P (xs ++ ys)
All-append P [] ys h k = k
All-append P (x ∷ xs) ys h k = (h.0, All-append P xs ys h.1 k)

module _ (deps : Deps) (options : RemoteFetchSecurityOptions) where
  -- What each request and each redirect has, all the requests of the loop have.
  pub follow-each :
      (P : Contact → Type 0) (V : ℕ → ℕ → ValidatedRemoteUrl → Type 0)
      → ((left hop : ℕ) (v : ValidatedRemoteUrl) → V left hop v → All P (send deps options hop v).0)
      → ((left hop : ℕ) (v : ValidatedRemoteUrl) (response : Response) (next : ValidatedRemoteUrl)
          → V (suc left) hop v
          → next_url deps options hop v response ≡ Outcome.done next
          → V left (suc hop) next)
      → (left hop : ℕ) (v : ValidatedRemoteUrl) → V left hop v
      → All P (follow deps options left hop v).0
  unfolding follow
  follow-each P V sent moved zero hop v h =
      elim (Option-cases (redirected (send deps options hop v).1)) [
        | inl e ↦ rw (follow, e) (sent zero hop v h)
        | inr (response, e) ↦ rw (follow, e) (sent zero hop v h)
      ]
  follow-each P V sent moved (suc left) hop v h =
      elim (Option-cases (redirected (send deps options hop v).1)) [
        | inl e ↦ rw (follow, e) (sent (suc left) hop v h)
        | inr (response, e) ↦ elim (Outcome-cases (next_url deps options hop v response)) [
          | inr (error, f) ↦ rw (follow, e, f) (sent (suc left) hop v h)
          | inl (next, f) ↦
              let later =
                follow-each P V sent moved left (suc hop) next
                  (moved left hop v response next h f) in
              rw (follow, e, f)
                (All-append P (send deps options hop v).0
                  (follow deps options left (suc hop) next).0 (sent (suc left) hop v h) later)
        ]
      ]
