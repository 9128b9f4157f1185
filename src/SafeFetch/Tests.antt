-- ===== src/SafeFetch/Tests.antt =====
-- packages/api/src/utils/safe-fetch.ts: fetches over a small network.
use self_rss.Prelude.{
  ◌≡◌, refl, true, false, none, some, List, [], ◌∷◌, arith, All, any, ◌==◌, if◌then◌else◌,
}
use self_rss.Prelude.Text.{Text, codes, includes, trim_start, is_space}
use self_rss.Prelude.Integers.{negsuc}
use self_rss.SafeFetch.Addresses.{
  is_private_ipv4, is_private_ipv6, parse_int, expand_ipv6, digits_value, skip_prefix,
}
use self_rss.SafeFetch.Addresses.Blocks.{
  is_private_ipv4-blocks, dotted, address, in_block, private_blocks,
}
use self_rss.SafeFetch.Contacts.{contacts-Public, IsPublic}
use self_rss.SafeFetch.Redirects.{fetch-bounded, IsWithin}
use self_rss.SafeFetch.{
  Outcome, Url, Response, Deps, RemoteFetchSecurityOptions, Contact, fetch_with_validated_redirects,
  redirected,
}

parse_test : parse_int 16 (codes " -Fez") ≡ some (negsuc 253)
unfolding parse_int trim_start is_space digits_value skip_prefix
parse_test = refl

expand_test :
    expand_ipv6 (codes "A::1:2")
    ≡ codes "a"
      ∷ codes "0"
      ∷ codes "0"
      ∷ codes "0"
      ∷ codes "0"
      ∷ codes "0"
      ∷ codes "1"
      ∷ codes "2"
      ∷ []
unfolding expand_ipv6
expand_test = refl

local_test : is_private_ipv6 (codes "FE9F::1") ≡ true
unfolding is_private_ipv6
local_test = refl

mapped_test : is_private_ipv6 (codes "::ffff:127.0.0.1") ≡ true
unfolding is_private_ipv6
mapped_test = refl

public_test : is_private_ipv6 (codes "2001:db8::1") ≡ false
unfolding is_private_ipv6
public_test = refl

is_private_ipv4-blocks_example :
    is_private_ipv4 (dotted 172 31 0 1) ≡ any (in_block (address 172 31 0 1)) private_blocks
is_private_ipv4-blocks_example =
    is_private_ipv4-blocks 172 31 0 1 (omega arith) (omega arith) (omega arith) (omega arith)

abbrev url_of : Text → Url
url_of host = record {
  href = host;
  protocol = codes "http:";
  username = [];
  password = [];
  hostname = host;
}

-- Each host has one address; the first hop is answered by a redirect.
abbrev network : Text → Deps
network address = record {
  parse = λ s. some (url_of s);
  resolve = λ s base. Outcome.done s;
  is_ip = λ s. if includes (codes ".") s then 4 else 0;
  lookup = λ hop host. Outcome.done (record { address = address; family = 4 } ∷ []);
  has_fetch_impl = false;
  has_pinned_fetch_impl = false;
  fetch = λ hop url. Outcome.done (record { status = 200; location = none });
  pinned_fetch = λ hop attempt v entry. Outcome.done (
      if hop == 0
      then record { status = 302; location = some (codes "next") }
      else record { status = 200; location = none });
  aborted_before = λ hop attempt. none;
  aborted_after = λ hop attempt. none;
}

abbrev options : RemoteFetchSecurityOptions
options = record { allow_private_hosts = false; max_redirects = some 1 }

abbrev fetched : Text → List Contact × Outcome Response
unfolding fetch_with_validated_redirects
fetched address = fetch_with_validated_redirects (network address) options (codes "start")

redirect_test :
    (fetched (codes "93.184.216.34")).1 ≡ Outcome.done (record { status = 200; location = none })
unfolding fetched
redirect_test = refl

private_test : (fetched (codes "10.0.0.1")).0 ≡ []
unfolding fetched
private_test = refl

contacts-Public_example :
    All
      (IsPublic (network (codes "93.184.216.34")) options)
      (fetch_with_validated_redirects (network (codes "93.184.216.34")) options (codes "start")).0
contacts-Public_example =
    contacts-Public (network (codes "93.184.216.34")) options refl refl (codes "start")

fetch-bounded_example :
    All
      (IsWithin (network (codes "93.184.216.34")) options 1)
      (fetch_with_validated_redirects (network (codes "93.184.216.34")) options (codes "start")).0
    × (redirected
          (fetch_with_validated_redirects
            (network (codes "93.184.216.34"))
            options
            (codes "start")).1
        ≡ none)
fetch-bounded_example = fetch-bounded (network (codes "93.184.216.34")) options (codes "start")
