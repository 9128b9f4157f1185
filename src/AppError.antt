-- ===== src/AppError.antt =====
-- packages/api/src/middleware/errors.ts: the errors that services throw, as values.
use self_rss.Prelude.{Bool, true, false, ◌≡◌, ◌≢◌, refl}
use self_rss.Prelude.Text.{Text}

-- `AppError`, by the status that it gives the response.
pub data Failure : Type 0 where
  bad_request unauthorized forbidden not_found conflict internal : Text → Failure
  too_many_requests : Failure

pub data Result {ℓ} (A : Type ℓ) : Type ℓ where
  ok : A → Result A
  fail : Failure → Result A

infixl 5 ◌>>=◌ ◌>>◌
abbrev pub ◌>>=◌ {ℓ κ} : {A : Type ℓ} {B : Type κ} → Result A → (A → Result B) → Result B
ok a >>= f = f a
fail e >>= f = fail e

abbrev pub ◌>>◌ {ℓ κ} : {A : Type ℓ} {B : Type κ} → Result A → Result B → Result B
ok a >> r = r
fail e >> r = fail e

-- `if (!test) throw failure`.
abbrev pub require : Bool → Failure → Result (Unit {0})
require true e = ok tt
require false e = fail e

pub >>=_ok {ℓ κ} :
    {A : Type ℓ} {B : Type κ} (r : Result A) (f : A → Result B) {b : B}
    → (r >>= f) ≡ ok b
    → (a : A) × (r ≡ ok a) × (f a ≡ ok b)
>>=_ok (ok a) f h = (a, refl, h)
>>=_ok (fail e) f h = cc

pub >>_ok {ℓ κ} :
    {A : Type ℓ} {B : Type κ} (r : Result A) (s : Result B) {b : B}
    → (r >> s) ≡ ok b
    → (a : A) × (r ≡ ok a) × (s ≡ ok b)
>>_ok (ok a) s h = (a, refl, h)
>>_ok (fail e) s h = cc

pub eq_of_ok {ℓ} : {A : Type ℓ} (a b : A) → ok a ≡ ok b → a ≡ b
eq_of_ok a b h = cc

-- A test that was passed.
pub require_ok : (b : Bool) (e : Failure) {u : Unit {0}} → require b e ≡ ok u → b ≡ true
require_ok true e h = refl
require_ok false e h = cc

pub fail-ne-ok {ℓ} : {A : Type ℓ} {e : Failure} {a : A} → fail e ≢ ok a
fail-ne-ok h = cc
