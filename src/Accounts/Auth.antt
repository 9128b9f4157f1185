-- ===== src/Accounts/Auth.antt =====
-- packages/api/src/services/auth.service.ts: accounts sign in, keep signed in and sign out.
-- An operation answers with the database that it leaves, whether it succeeds or throws, as it is no
-- transaction. It reads one clock, in milliseconds.
pub mod SignIn
pub mod Passwords
mod Ended
pub mod Refused
mod Tests
use mathlib.Core.List.{replicate}
use self_rss.Prelude.{
  is_empty, ℕ, ◌+◌, ◌-◌, ◌/◌, max, Bool, true, false, not, ◌&&◌, ◌||◌, Option, none, some, List, [],
  ◌∷◌, ◌++◌, map, ◌==◌, if◌then◌else◌, is_none, is_some, or_else, all, ltb, leb, take,
}
use self_rss.Prelude.Text.{is_hex, Text, codes, split, trim, same_text}
use self_rss.AppError.{
  Failure, Result, ok, fail, require, not_found, conflict, forbidden, bad_request, unauthorized,
  internal,
}
use self_rss.Accounts.{Role, User, Session, Db}
use self_rss.Accounts.Users.{
  Changes, find_by_id, find_by_email, register_user, create_with_preferences,
  assert_admin_update_allowed, update_for_admin, update_password_hash, deactivates,
}
use self_rss.Accounts.Sessions.{
  LifetimePolicy, Metadata, create, rotate, revoke, revoke_for_user, find_active_by_id,
  list_active_by_user_id,
}

-- The payload of a refresh token of the old kind, as far as it is read.
pub record TokenPayload : Type 0 where
  pub sub : ℕ
  pub is_refresh : Bool
  pub jti : Option ℕ
  pub exp : Option ℕ

-- `identifier` is the number that stands for the text of a key, `verify_refresh_token` is nothing for
-- a token that is refused.
pub record Platform : Type 0 where
  pub identifier : Text → ℕ
  pub hash_refresh_token : Text → ℕ
  pub verify_password : Text → ℕ → Bool
  pub verify_refresh_token : Text → Option TokenPayload

-- What Redis does while an operation runs. `tombstone round id` is whether the script that marks a
-- session as revoked succeeds, in the first or the second round of an operation; `set_nx` is
-- whether the key of an old token was new, or nothing where the command fails.
pub record Cache : Type 0 where
  pub tombstone : ℕ → ℕ → Bool
  pub set_nx : ℕ → Option Bool

-- What an operation draws.
pub record Drawn : Type 0 where
  pub session_id : Text
  pub secret : Text

pub record Tokens : Type 0 where
  pub session_id : ℕ
  pub refresh_token : Text

abbrev pub auth_lost_message : Text
auth_lost_message = codes "Authentication was lost. Please sign in again."

-- The lifetime that is left to an old token, in seconds.
unfoldable pub get_revocation_ttl_seconds : TokenPayload → ℕ → ℕ
get_revocation_ttl_seconds payload now_ms =
    if or_else payload.exp 0 == 0 then 0 else max 1 (or_else payload.exp 0 - now_ms / 1000)

-- An operation that goes on with the database and the value of another one.
infixl 5 ◌then◌
abbrev pub ◌then◌ {ℓ κ} :
    {A : Type ℓ} {B : Type κ} → Db × Result A → (Db → A → Db × Result B) → Db × Result B
(db, ok a) then f = f db a
(db, fail e) then f = (db, fail e)

-- A transaction, or a test, of an operation.
abbrev pub transact {ℓ} : {A : Type ℓ} → Db → Result (Db × A) → Db × Result A
transact db (ok (db', a)) = (db', ok a)
transact db (fail e) = (db, fail e)

abbrev pub create_refresh_token : Drawn → Text → Text
create_refresh_token drawn session_id = session_id ++ (b'.' ∷ drawn.secret)

abbrev pub two_parts : List Text → Option (Text × Text)
two_parts (session_id ∷ secret ∷ []) =
    if is_empty session_id || is_empty secret then none else some (session_id, secret)
two_parts _ = none

abbrev is_variant : ℕ → Bool
is_variant c = c == b'8' || c == b'9' || c == b'a' || c == b'b' || c == b'A' || c == b'B'

abbrev fits_all : List (ℕ → Bool) → Text → Bool
fits_all [] [] = true
fits_all [] (c ∷ s) = false
fits_all (p ∷ ps) [] = false
fits_all (p ∷ ps) (c ∷ s) = p c && fits_all ps s

-- The regular expression of a session's identifier, with a version from 1 to 5 and a variant.
unfoldable pub is_session_id : Text → Bool
is_session_id session_id =
    let dash : ℕ → Bool = λ c. c == b'-' in
    let version : ℕ → Bool = λ c. leb b'1' c && leb c b'5' in
    let three = replicate 3 is_hex in
    fits_all
      (replicate 8 is_hex
        ++ (dash ∷ replicate 4 is_hex)
        ++ (dash ∷ version ∷ three)
        ++ (dash ∷ is_variant ∷ three)
        ++ (dash ∷ replicate 12 is_hex))
      session_id

abbrev pub checked : Option (Text × Text) → Option (Text × Text)
unfolding is_session_id
checked none = none
checked (some (session_id, secret)) =
    if is_session_id session_id then some (session_id, secret) else none

unfoldable pub sanitize_device_name : Option Text → Text
unfolding trim
sanitize_device_name device_name =
    let trimmed = trim (or_else device_name []) in
    if is_empty trimmed then codes "Unknown device" else take 120 trimmed

unfoldable pub parse_refresh_token : Text → Option (Text × Text)
unfolding split is_session_id
parse_refresh_token token = checked (two_parts (split b'.' token))

-- `session?.userId === userId`.
abbrev pub owner : Option Session → ℕ → Bool
owner none user_id = false
owner (some session) user_id = session.user_id == user_id

-- The read answers that the session is marked as revoked.
abbrev pub is_marked : Option (Option ℕ) → Bool
is_marked none = false
is_marked (some answer) = is_some answer

module _ (platform : Platform) (policy : LifetimePolicy) (cache : Cache) where
  unfoldable pub prepare_session_revocation : ℕ → ℕ → Result (Unit {0})
  prepare_session_revocation round id =
      require (cache.tombstone round id)
        (internal (codes "Unable to revoke session. Please try again."))

  unfoldable pub revoke_cached_sessions : ℕ → List ℕ → Result (Unit {0})
  revoke_cached_sessions round ids =
      require (all (cache.tombstone round) ids)
        (internal (codes "Unable to revoke session. Please try again."))

  unfoldable pub prepare_user_session_revocation : ℕ → ℕ → Db → Result (Unit {0})
  unfolding revoke_cached_sessions
  prepare_user_session_revocation user_id now_ms db =
      revoke_cached_sessions 0 (map (λ s. s.id) (list_active_by_user_id policy user_id now_ms db))

  unfoldable pub issue_tokens : Drawn → User → Metadata → ℕ → Db → Db × Result Tokens
  unfolding sanitize_device_name parse_refresh_token create
  issue_tokens drawn user metadata now_ms db =
      let token = create_refresh_token drawn drawn.session_id in
      elim (parse_refresh_token token) [
        | none ↦ (db, fail (internal (codes "Failed to create auth session")))
        | some (session_id, _) ↦
            let (db', session) =
              create policy
                (record {
                  id = platform.identifier session_id;
                  user_id = user.id;
                  refresh_token_hash = platform.hash_refresh_token token;
                  client_id = metadata.client_id;
                  device_name = sanitize_device_name metadata.device_name;
                  user_agent = metadata.user_agent;
                  ip_address = metadata.ip_address;
                })
                user now_ms db in
            if is_none session then (db', fail (unauthorized auth_lost_message)) else (
              db',
              ok (record { session_id = platform.identifier session_id; refresh_token = token }),
            )
      ]

  unfoldable pub rotate_session_tokens : Drawn → Text → ℕ → Metadata → ℕ → Db → Db × Result Tokens
  unfolding sanitize_device_name rotate
  rotate_session_tokens drawn session_id current metadata now_ms db =
      let token = create_refresh_token drawn session_id in
      let id = platform.identifier session_id in
      let (db', session) =
        rotate policy id current (platform.hash_refresh_token token)
          (record metadata { device_name = some (sanitize_device_name metadata.device_name) })
          now_ms now_ms db in
      if is_none session
      then (db', fail (unauthorized auth_lost_message))
      else (db', ok (record { session_id = id; refresh_token = token }))

  -- What follows a transaction that revoked sessions.
  abbrev pub finish_revocation : Db → User × List ℕ → Db × Result User
  unfolding revoke_cached_sessions
  finish_revocation db (user, revoked) =
      (db, revoke_cached_sessions 1 revoked) then (λ db _. (db, ok user))
