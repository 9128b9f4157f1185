-- ===== src/Prelude/Splits.antt =====
-- What `split` gives for a text that is joined from parts.
use self_rss.Prelude.Tests.{◌==◌, ==_refl, Bool-cases}
use self_rss.Prelude.Text.{Text, split}
use Prim.Native.Nat.{ℕ}
use mathlib.Core.Path.{◌≡◌, refl, ap, ◌∙◌}
use mathlib.Core.Logic.{inl, inr}
use mathlib.Core.Bool.{Bool, true, false, ◌&&◌, not}
use mathlib.Core.List.{List, [], ◌∷◌, ◌++◌}
use native.Mathlib.Omega.{arith}

pub split-ne : (c : ℕ) (s : Text) → (part : Text) × (parts : List Text) × (split c s ≡ part ∷ parts)
unfolding split
split-ne c [] = ([], [], refl)
split-ne c (x ∷ s) = elim (Bool-cases (x == c)) [
  | inl e ↦ ([], split c s, rw e refl)
  | inr e ↦ let (part, parts, h) = split-ne c s in (x ∷ part, parts, rw (e, h) refl)
]

-- A separator splits a text into its two sides.
pub split-append : (c : ℕ) (s t : Text) → split c (s ++ (c ∷ t)) ≡ split c s ++ split c t
unfolding split
split-append c [] t = rw (==_refl c) refl
split-append c (x ∷ s) t = elim (Bool-cases (x == c)) [
  | inl e ↦ rw e (ap (◌∷◌ []) (split-append c s t))
  | inr e ↦ let (part, parts, h) = split-ne c s in rw (e, split-append c s t, h) refl
]

-- The text does not have the code unit.
abbrev pub lacks : ℕ → Text → Bool
lacks c [] = true
lacks c (x ∷ s) = not (x == c) && lacks c s

pub split-lacks : (c : ℕ) (s : Text) → lacks c s ≡ true → split c s ≡ s ∷ []
unfolding split
split-lacks c [] h = refl
split-lacks c (x ∷ s) h =
    let e : (x == c) ≡ false = ground arith in
    let rest : lacks c s ≡ true = ground arith in rw (e, split-lacks c s rest) refl

pub lacks-append :
    (c : ℕ) (s t : Text) → lacks c s ≡ true → lacks c t ≡ true → lacks c (s ++ t) ≡ true
lacks-append c [] t h k = k
lacks-append c (x ∷ s) t h k =
    let rest : lacks c s ≡ true = ground arith in let ih = lacks-append c s t rest k in ground arith

-- The first part, without a separator in it, is split off.
pub split-first : (c : ℕ) (s t : Text) → lacks c s ≡ true → split c (s ++ (c ∷ t)) ≡ s ∷ split c t
split-first c s t h = split-append c s t ∙ ap (λ parts. parts ++ split c t) (split-lacks c s h)
