-- ===== src/SafeFetch.antt =====
-- packages/api/src/utils/safe-fetch.ts: documents are fetched from public addresses only.
-- What the network, the resolver and the signals do is a function of the hop and of the attempt, so
-- that a host may resolve differently each time. A fetch lists the contacts that it makes. The
-- deadlines of a lookup or a connection are errors of the resolver and of the network.
pub mod Addresses
mod Loop
pub mod Contacts
pub mod Redirects
mod Tests
use self_rss.Prelude.{
  is_empty, ℕ, zero, suc, ◌+◌, Bool, true, false, not, ◌&&◌, ◌||◌, Option, none, some, List, [],
  ◌∷◌, ◌++◌, ◌==◌, if◌then◌else◌, or_else, any,
}
use self_rss.Prelude.Text.{Text, codes, same_text, starts_with, to_lower_case}
use self_rss.AppError.{Failure}
use self_rss.SafeFetch.Addresses.{is_private_ip_address}
use mathlib.Core.List.{reverse}

-- What is thrown: an `AppError`, or an error of the platform by its number.
pub data Thrown : Type 0 where
  app_error : Failure → Thrown
  platform_error : ℕ → Thrown

pub data Outcome (A : Type 0) : Type 0 where
  done : A → Outcome A
  threw : Thrown → Outcome A

abbrev pub bad_request : {A : Type 0} → Text → Outcome A
bad_request message = Outcome.threw (Thrown.app_error (Failure.bad_request message))

infixl 5 ◌>>=◌
abbrev pub ◌>>=◌ : {A B : Type 0} → Outcome A → (A → Outcome B) → Outcome B
Outcome.done a >>= f = f a
Outcome.threw e >>= f = Outcome.threw e

-- A `URL`.
pub record Url : Type 0 where
  pub href : Text
  pub protocol : Text
  pub username : Text
  pub password : Text
  pub hostname : Text

pub record LookupAddressRecord : Type 0 where
  pub address : Text
  pub family : ℕ

pub record ValidatedRemoteUrl : Type 0 where
  pub url : Url
  pub addresses : List LookupAddressRecord

pub record Response : Type 0 where
  pub status : ℕ
  pub location : Option Text

pub record RemoteFetchSecurityOptions : Type 0 where
  pub allow_private_hosts : Bool
  pub max_redirects : Option ℕ

-- Where a request goes: straight to an address, or to the host of the URL.
pub record Contact : Type 0 where
  pub hop : ℕ
  pub url : Url
  pub address : Option Text

-- The platform and the dependencies of a call. `parse` is `new URL(text)`, `resolve` what
-- `new URL(location, base).toString()` gives; either may throw. `aborted_before` and `aborted_after`
-- are the reasons of an aborted signal around an attempt.
pub record Deps : Type 0 where
  pub parse : Text → Option Url
  pub resolve : Text → Url → Outcome Text
  pub is_ip : Text → ℕ
  pub lookup : ℕ → Text → Outcome (List LookupAddressRecord)
  pub has_fetch_impl : Bool
  pub has_pinned_fetch_impl : Bool
  pub fetch : ℕ → Url → Outcome Response
  pub pinned_fetch : ℕ → ℕ → ValidatedRemoteUrl → LookupAddressRecord → Outcome Response
  pub aborted_before : ℕ → ℕ → Option Thrown
  pub aborted_after : ℕ → ℕ → Option Thrown

unfoldable pub is_redirect_status : ℕ → Bool
is_redirect_status status =
    status == 301 || status == 302 || status == 303 || status == 307 || status == 308

-- `s.endsWith(end)`.
abbrev pub ends_with : Text → Text → Bool
unfolding starts_with
ends_with end s = starts_with (reverse end) (reverse s)

-- The response, if it is a redirect.
unfoldable pub redirected : Outcome Response → Option Response
unfolding is_redirect_status
redirected (Outcome.done response) =
    if is_redirect_status response.status then some response else none
redirected (Outcome.threw error) = none

module _ (deps : Deps) (options : RemoteFetchSecurityOptions) where
  -- The host or one of its addresses is private.
  unfoldable pub is_private_target : Text → List LookupAddressRecord → Bool
  unfolding is_private_ip_address starts_with
  is_private_target hostname addresses =
      (same_text hostname (codes "localhost") || ends_with (codes ".localhost") hostname)
      || is_private_ip_address deps.is_ip hostname
      || any (λ entry. is_private_ip_address deps.is_ip entry.address) addresses

  unfoldable pub find_addresses : ℕ → Text → Outcome (List LookupAddressRecord)
  find_addresses hop hostname =
      let version = deps.is_ip hostname in
      if version == 4 || version == 6
      then Outcome.done (record { address = hostname; family = version } ∷ [])
      else deps.lookup hop hostname

  -- What follows once the addresses are known.
  unfoldable pub check_addresses :
      Url → Text → List LookupAddressRecord → Outcome ValidatedRemoteUrl
  unfolding is_private_target
  check_addresses url hostname addresses =
      if not options.allow_private_hosts && is_private_target hostname addresses
      then bad_request (codes "Feed URL must not target a local or private network host")
      else if is_empty addresses
      then bad_request (codes "Remote URL hostname did not resolve")
      else Outcome.done (record { url = url; addresses = addresses })

  unfoldable pub validate_remote_url : ℕ → Text → Outcome ValidatedRemoteUrl
  unfolding to_lower_case find_addresses check_addresses
  validate_remote_url hop raw_url = elim (deps.parse raw_url) [
    | none ↦ bad_request (codes "Invalid remote URL")
    | some url ↦
        let hostname = to_lower_case url.hostname in
        if not (same_text url.protocol (codes "http:") || same_text url.protocol (codes "https:"))
        then bad_request (codes "Only HTTP and HTTPS feed URLs are allowed")
        else if not (is_empty url.username) || not (is_empty url.password)
        then bad_request (codes "Feed URLs must not include credentials")
        else if is_empty hostname
        then bad_request (codes "Remote URL must include a hostname")
        else find_addresses hop hostname >>= check_addresses url hostname
  ]

  -- `assertSafeRemoteUrl`, whose one lookup is that of hop 0.
  unfoldable pub assert_safe_remote_url : Text → Outcome Text
  unfolding validate_remote_url
  assert_safe_remote_url raw_url =
      validate_remote_url 0 raw_url >>= (λ validated. Outcome.done validated.url.href)

  -- The attempts at the addresses that are left, with the last error.
  unfoldable pub try_addresses :
      ℕ
      → ℕ
      → ValidatedRemoteUrl
      → Thrown
      → List LookupAddressRecord
      → List Contact × Outcome Response
  try_addresses hop attempt validated last_error [] = ([], Outcome.threw last_error)
  try_addresses hop attempt validated last_error (entry ∷ entries) =
      let contact : Contact = record {
        hop = hop;
        url = validated.url;
        address = some entry.address;
      } in
      elim (deps.aborted_before hop attempt) [
        | some reason ↦ ([], Outcome.threw reason)
        | none ↦ elim (deps.pinned_fetch hop attempt validated entry) [
          | Outcome.done response ↦ (contact ∷ [], Outcome.done response)
          | Outcome.threw error ↦ elim (deps.aborted_after hop attempt) [
            | some reason ↦ (contact ∷ [], Outcome.threw reason)
            | none ↦
                let (contacts, outcome) = try_addresses hop (suc attempt) validated error entries in
                (contact ∷ contacts, outcome)
          ]
        ]
      ]

  unfoldable pub fetch_with_pinned_lookup : ℕ → ValidatedRemoteUrl → List Contact × Outcome Response
  unfolding try_addresses
  fetch_with_pinned_lookup hop validated =
      try_addresses hop 0 validated
        (Thrown.app_error (Failure.bad_request (codes "Remote URL hostname did not resolve")))
        validated.addresses

  unfoldable pub send : ℕ → ValidatedRemoteUrl → List Contact × Outcome Response
  unfolding fetch_with_pinned_lookup
  send hop current =
      if deps.has_fetch_impl || options.allow_private_hosts && not deps.has_pinned_fetch_impl
      then (
        record { hop = hop; url = current.url; address = none } ∷ [],
        deps.fetch hop current.url,
      )
      else fetch_with_pinned_lookup hop current

  -- The URL that a redirect leads to.
  unfoldable pub next_url : ℕ → ValidatedRemoteUrl → Response → Outcome ValidatedRemoteUrl
  unfolding validate_remote_url
  next_url hop current response = elim response.location [
    | none ↦ bad_request (codes "Feed URL returned a redirect without a location")
    | some [] ↦ bad_request (codes "Feed URL returned a redirect without a location")
    | some (c ∷ s) ↦ deps.resolve (c ∷ s) current.url >>= validate_remote_url (suc hop)
  ]

  -- The loop, with the number of redirects that are still allowed.
  unfoldable pub follow : ℕ → ℕ → ValidatedRemoteUrl → List Contact × Outcome Response
  unfolding send redirected next_url
  follow zero hop current =
      let (contacts, outcome) = send hop current in
      elim (redirected outcome) [
        | none ↦ (contacts, outcome)
        | some response ↦
            (contacts, bad_request (codes "Feed URL exceeded the maximum number of redirects"))
      ]
  follow (suc left) hop current =
      let (contacts, outcome) = send hop current in
      elim (redirected outcome) [
        | none ↦ (contacts, outcome)
        | some response ↦ elim (next_url hop current response) [
          | Outcome.threw error ↦ (contacts, Outcome.threw error)
          | Outcome.done next ↦
              let (later, result) = follow left (suc hop) next in (contacts ++ later, result)
        ]
      ]

  unfoldable pub fetch_with_validated_redirects : Text → List Contact × Outcome Response
  unfolding validate_remote_url follow
  fetch_with_validated_redirects input = elim (validate_remote_url 0 input) [
    | Outcome.threw error ↦ ([], Outcome.threw error)
    | Outcome.done current ↦ follow (or_else options.max_redirects 3) 0 current
  ]
