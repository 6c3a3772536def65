-- ===== src/Base/Lines.antt =====
-- Texts as lines.
use Prim.Native.Nat.{ℕ}
use mathlib.Core.Path.{◌≡◌, refl, ap}
use mathlib.Core.Bool.{false}
use mathlib.Core.List.{List, [], ◌∷◌, ◌++◌}
use native.Mathlib.Omega.{arith}
use go_tiny_claw.Base.Tests.{◌==◌, if◌then◌else◌, ==_iff, Bool-cases}
use mathlib.Core.Logic.{inl, inr}
use go_tiny_claw.Base.Lists.{All}
use go_tiny_claw.Base.Strings.{Text, is_empty}

abbrev prepend : ℕ → List Text → List Text
prepend b [] = (b ∷ []) ∷ []
prepend b (l ∷ ls) = (b ∷ l) ∷ ls

-- `strings.Split(s, "\n")`
unfoldable pub split_lines : Text → List Text
split_lines [] = [] ∷ []
split_lines (b ∷ bs) = let rest = split_lines bs in if b == b'\n' then [] ∷ rest else prepend b rest

-- `strings.Join(lines, "\n")`
unfoldable pub join_lines : List Text → Text
join_lines [] = []
join_lines (l ∷ []) = l
join_lines (l ∷ k ∷ ls) = l ++ b'\n' ∷ join_lines (k ∷ ls)

abbrev pub IsLine : Text → Type 0
IsLine = All (λ b. (b == b'\n') ≡ false)

-- A line and its newline come off the front.
pub split_lines-line :
    (l rest : Text) → IsLine l → split_lines (l ++ b'\n' ∷ rest) ≡ l ∷ split_lines rest
unfolding split_lines
split_lines-line [] rest h = refl
split_lines-line (b ∷ l) rest h = rw (h.0, split_lines-line l rest h.1)

-- A text without a newline is its only line.
pub split_lines-last : (l : Text) → IsLine l → split_lines l ≡ l ∷ []
unfolding split_lines
split_lines-last [] h = refl
split_lines-last (b ∷ l) h = rw (h.0, split_lines-last l h.1)

IsLine-prepend :
    (b : ℕ) (ls : List Text) → (b == b'\n') ≡ false → All IsLine ls → All IsLine (prepend b ls)
IsLine-prepend b [] h k = ((h, tt), tt)
IsLine-prepend b (l ∷ ls) h k = ((h, k.0), k.1)

pub split_lines-nonempty : (s : Text) → is_empty (split_lines s) ≡ false
unfolding split_lines
split_lines-nonempty [] = refl
split_lines-nonempty (b ∷ s) = ground (arith, split_lines-nonempty s)

join_lines-newline :
    (ls : List Text) → is_empty ls ≡ false → join_lines ([] ∷ ls) ≡ b'\n' ∷ join_lines ls
unfolding join_lines
join_lines-newline [] h = ground arith
join_lines-newline (l ∷ ls) h = refl

join_lines-prepend :
    (b : ℕ) (ls : List Text) → is_empty ls ≡ false → join_lines (prepend b ls) ≡ b ∷ join_lines ls
unfolding join_lines
join_lines-prepend b [] h = ground arith
join_lines-prepend b (l ∷ []) h = refl
join_lines-prepend b (l ∷ k ∷ ls) h = refl

-- The lines of a text.
pub split_lines-IsLine : (s : Text) → All IsLine (split_lines s)
unfolding split_lines
split_lines-IsLine [] = (tt, tt)
split_lines-IsLine (b ∷ s) = elim (Bool-cases (b == b'\n')) [
  | inl e ↦ rw e (tt, split_lines-IsLine s)
  | inr e ↦ rw e (IsLine-prepend b (split_lines s) e (split_lines-IsLine s))
]

-- The lines of a text, joined, are the text.
pub join_lines-split_lines : (s : Text) → join_lines (split_lines s) ≡ s
unfolding split_lines join_lines
join_lines-split_lines [] = refl
join_lines-split_lines (b ∷ s) = elim (Bool-cases (b == b'\n')) [
  | inl e ↦
      rw (e, join_lines-newline (split_lines s) (split_lines-nonempty s))
        (ground (arith, ==_iff b b'\n', join_lines-split_lines s))
  | inr e ↦
      rw (e, join_lines-prepend b (split_lines s) (split_lines-nonempty s))
        (ap (◌∷◌ b) (join_lines-split_lines s))
]
