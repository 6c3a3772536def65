-- ===== src/Base/Runes.antt =====
-- How Go reads a string as runes (UTF-8, an invalid byte standing for U+FFFD).
use Prim.Native.Nat.{ℕ, zero, suc}
use mathlib.Core.Path.{◌≡◌, refl}
use mathlib.Core.Bool.{Bool, ◌&&◌}
use mathlib.Core.List.{List, [], ◌∷◌}
use go_tiny_claw.Base.Tests.{leb, ◌==◌, if◌then◌else◌}
use go_tiny_claw.Base.Lists.{take}
use go_tiny_claw.Base.Strings.{Text}

abbrev in_range : ℕ → ℕ → ℕ → Bool
in_range lo hi b = leb lo b && leb b hi

abbrev is_cont : ℕ → Bool
is_cont = in_range 0x80 0xbf

-- A second byte that the first allows in a rune of three bytes, and in one of four.
abbrev second_of_three : ℕ → ℕ → Bool
second_of_three a b =
    if a == 0xe0
    then in_range 0xa0 0xbf b
    else if a == 0xed
    then in_range 0x80 0x9f b
    else is_cont b

abbrev second_of_four : ℕ → ℕ → Bool
second_of_four a b =
    if a == 0xf0
    then in_range 0x90 0xbf b
    else if a == 0xf4
    then in_range 0x80 0x8f b
    else is_cont b

abbrev is_two : ℕ → ℕ → Bool
is_two a b = in_range 0xc2 0xdf a && is_cont b

abbrev is_three : ℕ → ℕ → ℕ → Bool
is_three a b c = in_range 0xe0 0xef a && second_of_three a b && is_cont c

-- The bytes after the first in the rune at the head of a text; none for an invalid byte.
pub more_bytes : Text → ℕ
more_bytes [] = 0
more_bytes (a ∷ []) = 0
more_bytes (a ∷ b ∷ []) = if is_two a b then 1 else 0
more_bytes (a ∷ b ∷ c ∷ []) = if is_two a b then 1 else if is_three a b c then 2 else 0
more_bytes (a ∷ b ∷ c ∷ d ∷ r) =
    if is_two a b
    then 1
    else if is_three a b c
    then 2
    else if in_range 0xf0 0xf4 a && second_of_four a b && is_cont c && is_cont d
    then 3
    else 0

-- The rune at the head, as its bytes.
pub first_rune : ℕ → Text → ℕ → Text
first_rune a r zero = if leb a 0x7f then a ∷ [] else 0xef ∷ 0xbf ∷ 0xbd ∷ []
first_rune a r (suc n) = a ∷ take (suc n) r

unfoldable pub runes_from : ℕ → Text → List Text
unfolding first_rune more_bytes
runes_from skip [] = []
runes_from (suc k) (a ∷ r) = runes_from k r
runes_from zero (a ∷ r) = let n = more_bytes (a ∷ r) in first_rune a r n ∷ runes_from n r

-- `[]rune(s)`, each rune as the bytes that encode it.
abbrev pub runes : Text → List Text
runes s = runes_from 0 s

runes_test :
    runes (b'a' ∷ 0xe2 ∷ 0x82 ∷ 0xac ∷ 0xff ∷ [])
    ≡ (b'a' ∷ []) ∷ (0xe2 ∷ 0x82 ∷ 0xac ∷ []) ∷ (0xef ∷ 0xbf ∷ 0xbd ∷ []) ∷ []
unfolding runes_from
runes_test = refl
