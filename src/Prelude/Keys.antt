-- ===== src/Prelude/Keys.antt =====
-- Lists of keys without repetitions.
use mathlib.Core.Path.{◌≡◌, refl}
use mathlib.Core.Bool.{false}
use mathlib.Core.List.{List, [], ◌∷◌, ◌++◌}
use Prim.Native.Nat.{ℕ}
use native.Mathlib.Omega.{arith}
use self_rss.Prelude.Tests.{◌==◌}
use self_rss.Prelude.Lists.{contains, Unique}

-- A key that is new.
pub Unique-append :
    (id : ℕ) (ids : List ℕ) → Unique ids → contains id ids ≡ false → Unique (ids ++ (id ∷ []))
Unique-append id [] u h = (refl, tt)
Unique-append id (x ∷ ids) u h =
    (apart x ids u.0 (ground arith), Unique-append id ids u.1 (ground arith))
  where
    apart :
        (x : ℕ) (ids : List ℕ)
        → contains x ids ≡ false
        → (id == x) ≡ false
        → contains x (ids ++ (id ∷ [])) ≡ false
    apart x [] h k = rw k refl
    apart x (y ∷ ids) h k = let ih = apart x ids (ground arith) k in ground arith
