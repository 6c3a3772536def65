-- ===== src/Base/Strings.antt =====
-- Go strings as their bytes, with the parts of package strings that the program calls.
use Prim.Native.Nat.{ℕ, zero, suc}
use Prim.Native.Char.{code}
use Prim.Native.String.{String}
use mathlib.Core.Path.{◌≡◌, refl}
use mathlib.Core.Bool.{Bool, true, false, ◌&&◌, ◌||◌}
use mathlib.Core.List.{List, [], ◌∷◌, reverse}
use go_tiny_claw.Base.Tests.{leb, ◌==◌, if◌then◌else◌}
use go_tiny_claw.Base.Equality.{Eq, nat_eq, list_beq, list_beq_iff}

abbrev pub Text : Type 0
Text = List ℕ

instance abbrev pub text_eq : Eq Text
text_eq = record { beq = list_beq; beq_iff = list_beq_iff }

-- The bytes of an ASCII literal.
abbrev pub codes : String → Text
codes String.[] = []
codes (String.◌∷◌ c s) = code c ∷ codes s

abbrev pub is_empty {ℓ} : {A : Type ℓ} → List A → Bool
is_empty [] = true
is_empty (b ∷ bs) = false

-- '\t', '\n', '\v', '\f', '\r' and ' '.
abbrev pub is_ascii_space : ℕ → Bool
is_ascii_space b = (b == 32) || (leb 9 b && leb b 13)

-- The last byte of the three-byte spaces U+2000 to U+200A, U+2028, U+2029, U+202F (E2 80 xx).
abbrev is_e280_space : ℕ → Bool
is_e280_space b = (leb 0x80 b && leb b 0x8a) || (b == 0xa8) || (b == 0xa9) || (b == 0xaf)

-- The other three-byte spaces: U+1680, U+205F and U+3000.
abbrev is_wide_space : ℕ → ℕ → ℕ → Bool
is_wide_space a b c =
    ((a == 0xe2) && (b == 0x80) && is_e280_space c)
    || ((a == 0xe1) && (b == 0x9a) && (c == 0x80))
    || ((a == 0xe2) && (b == 0x81) && (c == 0x9f))
    || ((a == 0xe3) && (b == 0x80) && (c == 0x80))

-- U+0085 and U+00A0.
abbrev is_latin_space : ℕ → ℕ → Bool
is_latin_space a b = (a == 0xc2) && ((b == 0x85) || (b == 0xa0))

-- How many bytes the space has with which the text begins (`unicode.IsSpace`, in UTF-8); 0 if none.
pub space_width : Text → ℕ
space_width [] = 0
space_width (a ∷ []) = if is_ascii_space a then 1 else 0
space_width (a ∷ b ∷ []) = if is_ascii_space a then 1 else if is_latin_space a b then 2 else 0
space_width (a ∷ b ∷ c ∷ r) =
    if is_ascii_space a
    then 1
    else if is_latin_space a b
    then 2
    else if is_wide_space a b c
    then 3
    else 0

-- The same for the bytes of a text in reverse order.
pub space_width_rev : Text → ℕ
space_width_rev [] = 0
space_width_rev (a ∷ []) = if is_ascii_space a then 1 else 0
space_width_rev (b ∷ a ∷ []) = if is_ascii_space b then 1 else if is_latin_space a b then 2 else 0
space_width_rev (c ∷ b ∷ a ∷ r) =
    if is_ascii_space c
    then 1
    else if is_latin_space b c
    then 2
    else if is_wide_space a b c
    then 3
    else 0

-- Drop `skip` bytes, then spaces by their widths.
pub strip : (Text → ℕ) → ℕ → Text → Text
strip width skip [] = []
strip width (suc k) (b ∷ bs) = strip width k bs
strip width zero (b ∷ bs) = elim (width (b ∷ bs)) [ zero ↦ b ∷ bs | suc k ↦ strip width k bs ]

-- `strings.TrimSpace`
unfoldable pub trim_space : Text → Text
unfolding space_width space_width_rev strip
trim_space s = reverse (strip space_width_rev 0 (reverse (strip space_width 0 s)))

-- `strings.TrimSpace(s) == ""`
abbrev pub is_blank : Text → Bool
is_blank s = is_empty (trim_space s)

-- The loop of `strings.Fields`: `current` is the field being read, reversed.
unfoldable pub fields_from : ℕ → Text → Text → List Text
unfolding space_width
fields_from skip current [] = if is_empty current then [] else reverse current ∷ []
fields_from (suc k) current (b ∷ bs) = fields_from k current bs
fields_from zero current (b ∷ bs) = elim (space_width (b ∷ bs)) [
  | zero ↦ fields_from zero (b ∷ current) bs
  | suc k ↦
      let rest = fields_from k [] bs in if is_empty current then rest else reverse current ∷ rest
]

-- `strings.Fields`
abbrev pub fields : Text → List Text
fields s = fields_from 0 [] s

trim_space_test : trim_space (codes "  a b \n") ≡ codes "a b"
unfolding trim_space
trim_space_test = refl

fields_test : fields (codes " approve  7 ") ≡ codes "approve" ∷ codes "7" ∷ []
unfolding fields_from
fields_test = refl
