-- ===== src/SafeFetch/Contacts.antt =====
-- packages/api/src/utils/safe-fetch.ts: where the requests of a fetch go.
use self_rss.Prelude.{
  is_empty, ℕ, suc, ◌≡◌, refl, subst, inl, inr, Bool, true, false, not, ◌&&◌, ◌||◌, some, List, [],
  ◌∷◌, arith, if◌then◌else◌, or_else, any, All, Option-cases,
}
use self_rss.Prelude.Text.{Text, codes, same_text, to_lower_case}
use self_rss.SafeFetch.Addresses.{is_private_ip_address}
use self_rss.SafeFetch.Loop.{Outcome-cases, follow-each}
use self_rss.SafeFetch.{
  Thrown, Outcome, ◌>>=◌, bad_request, Url, LookupAddressRecord, ValidatedRemoteUrl, Response,
  RemoteFetchSecurityOptions, Contact, Deps, is_private_target, find_addresses, check_addresses,
  validate_remote_url, try_addresses, fetch_with_pinned_lookup, send, next_url, follow,
  fetch_with_validated_redirects,
}

>>=_done :
    {A B : Type 0} (o : Outcome A) (f : A → Outcome B) {b : B}
    → (o >>= f) ≡ Outcome.done b
    → (a : A) × (o ≡ Outcome.done a) × (f a ≡ Outcome.done b)
>>=_done (Outcome.done a) f h = (a, refl, h)
>>=_done (Outcome.threw e) f h = cc

eq_of_done : {A : Type 0} (a b : A) → Outcome.done a ≡ Outcome.done b → a ≡ b
eq_of_done a b h = cc

or_false : (a b : Bool) → (a || b) ≡ false → b ≡ false
or_false true b h = cc
or_false false b h = h

-- A test that throws was not met.
unless_done :
    {A : Type 0} (b : Bool) (message : Text) (o : Outcome A) {a : A}
    → (if b then bad_request message else o) ≡ Outcome.done a
    → (b ≡ false) × (o ≡ Outcome.done a)
unless_done true message o h = cc
unless_done false message o h = (refl, h)

any-All : {A : Type 0} (p : A → Bool) (xs : List A) → any p xs ≡ false → All (λ x. p x ≡ false) xs
any-All p [] h = tt
any-All p (x ∷ xs) h =
    let first : p x ≡ false = ground arith in
    let rest : any p xs ≡ false = ground arith in (first, any-All p xs rest)

-- The URL is of the web and has no credentials.
abbrev pub is_web_url : Url → Bool
is_web_url url =
    (same_text url.protocol (codes "http:") || same_text url.protocol (codes "https:"))
    && is_empty url.username
    && is_empty url.password

abbrev missing : Outcome ValidatedRemoteUrl
missing = bad_request (codes "Feed URL returned a redirect without a location")

module _ (deps : Deps) (options : RemoteFetchSecurityOptions) where
  -- The request goes to an address, which is not private, for a URL of the web.
  abbrev pub IsPublic : Contact → Type 0
  IsPublic contact =
      (address : Text) × (contact.address ≡ some address)
      × (is_private_ip_address deps.is_ip address ≡ false)
      × (is_web_url contact.url ≡ true)

  abbrev HasPublicAddresses : ValidatedRemoteUrl → Type 0
  HasPublicAddresses v =
      All (λ entry. is_private_ip_address deps.is_ip entry.address ≡ false) v.addresses
      × (is_web_url v.url ≡ true)

  module _ (closed : options.allow_private_hosts ≡ false) where
    check-Public :
        (url : Url) (hostname : Text) (addresses : List LookupAddressRecord)
        {v : ValidatedRemoteUrl}
        → is_web_url url ≡ true
        → check_addresses deps options url hostname addresses ≡ Outcome.done v
        → HasPublicAddresses v
    unfolding check_addresses is_private_target
    check-Public url hostname addresses {v} web h =
        let (public, some_found) =
          unless_done (is_private_target deps options hostname addresses) _ _ (rw closed at h) in
        let (found, same) = unless_done (is_empty addresses) _ _ some_found in
        let none_private = or_false _ _ public in
        subst HasPublicAddresses (eq_of_done _ _ same) (
          any-All (λ entry. is_private_ip_address deps.is_ip entry.address) addresses none_private,
          web,
        )

    validate-Public :
        (hop : ℕ) (raw_url : Text) {v : ValidatedRemoteUrl}
        → validate_remote_url deps options hop raw_url ≡ Outcome.done v
        → HasPublicAddresses v
    unfolding validate_remote_url
    validate-Public hop raw_url {v} h = elim (Option-cases (deps.parse raw_url)) [
      | inl e ↦ absurd (
          let no : bad_request (codes "Invalid remote URL") ≡ Outcome.done v =
            rw (e, validate_remote_url) at h in
          cc)
      | inr (url, e) ↦
          let hostname = to_lower_case url.hostname in
          let other =
            not
              (same_text url.protocol (codes "http:") || same_text url.protocol (codes "https:")) in
          let credentials = not (is_empty url.username) || not (is_empty url.password) in
          let (web, h1) =
            unless_done other (codes "Only HTTP and HTTPS feed URLs are allowed") _
              (rw (e, validate_remote_url) at h) in
          let (anonymous, h2) =
            unless_done credentials (codes "Feed URLs must not include credentials") _ h1 in
          let (named, h3) =
            unless_done (is_empty hostname) (codes "Remote URL must include a hostname") _ h2 in
          let (addresses, found, checked) =
            >>=_done (find_addresses deps options hop hostname)
              (check_addresses deps options url hostname) h3 in
          let web_url : is_web_url url ≡ true = ground arith in
          check-Public url hostname addresses web_url checked
    ]

    -- Each contact of the attempts goes to one of the addresses.
    try-Public :
        (hop attempt : ℕ) (v : ValidatedRemoteUrl) (last_error : Thrown)
        (entries : List LookupAddressRecord)
        → is_web_url v.url ≡ true
        → All (λ entry. is_private_ip_address deps.is_ip entry.address ≡ false) entries
        → All IsPublic (try_addresses deps options hop attempt v last_error entries).0
    unfolding try_addresses
    try-Public hop attempt v last_error [] web h = tt
    try-Public hop attempt v last_error (entry ∷ entries) web (first, rest) =
        let contact : Contact = record { hop = hop; url = v.url; address = some entry.address } in
        let public : IsPublic contact = (entry.address, refl, first, web) in
        elim (Option-cases (deps.aborted_before hop attempt)) [
          | inr (reason, e) ↦ rw (try_addresses, e) tt
          | inl e ↦ elim (Outcome-cases (deps.pinned_fetch hop attempt v entry)) [
            | inl (response, f) ↦ rw (try_addresses, e, f) (public, tt)
            | inr (error, f) ↦ elim (Option-cases (deps.aborted_after hop attempt)) [
              | inr (reason, g) ↦ rw (try_addresses, e, f, g) (public, tt)
              | inl g ↦
                  rw (try_addresses, e, f, g)
                    (public, try-Public hop (suc attempt) v error entries web rest)
            ]
          ]
        ]

    module _ (pinned : deps.has_fetch_impl ≡ false) where
      send-Public :
          (hop : ℕ) (v : ValidatedRemoteUrl)
          → HasPublicAddresses v
          → All IsPublic (send deps options hop v).0
      unfolding send fetch_with_pinned_lookup
      send-Public hop v (addresses, web) =
          rw (pinned, closed) (try-Public hop 0 v _ v.addresses web addresses)

      next-Public :
          (hop : ℕ) (v : ValidatedRemoteUrl) (response : Response) {next : ValidatedRemoteUrl}
          → next_url deps options hop v response ≡ Outcome.done next
          → HasPublicAddresses next
      unfolding next_url
      next-Public hop v response {next} h = elim (Option-cases response.location) [
        | inl e ↦ absurd (let no : missing ≡ Outcome.done next = rw (e, next_url) at h in cc)
        | inr ([], e) ↦ absurd (let no : missing ≡ Outcome.done next = rw (e, next_url) at h in cc)
        | inr (c ∷ s, e) ↦
            let (target, resolved, validated) =
              >>=_done (deps.resolve (c ∷ s) v.url) (validate_remote_url deps options (suc hop))
                (rw (e, next_url) at h) in
            validate-Public (suc hop) target validated
      ]

      follow-Public :
          (left hop : ℕ) (v : ValidatedRemoteUrl)
          → HasPublicAddresses v
          → All IsPublic (follow deps options left hop v).0
      follow-Public left hop v h =
          follow-each deps options IsPublic (λ left hop v. HasPublicAddresses v)
            (λ left hop v. send-Public hop v)
            (λ left hop v response next h. next-Public hop v response) left hop v h

      -- Where private hosts are not allowed and no other way to fetch is given, every request of a fetch, and so
      -- of each redirect that it follows, goes to an address that is not private, for a URL of the web without
      -- credentials.
      pub contacts-Public :
          (input : Text) → All IsPublic (fetch_with_validated_redirects deps options input).0
      unfolding fetch_with_validated_redirects
      contacts-Public input = elim (Outcome-cases (validate_remote_url deps options 0 input)) [
        | inr (error, e) ↦ rw (fetch_with_validated_redirects, e) tt
        | inl (v, e) ↦
            rw (fetch_with_validated_redirects, e)
              (follow-Public (or_else options.max_redirects 3) 0 v (validate-Public 0 input e))
      ]
