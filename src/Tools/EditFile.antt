-- ===== src/Tools/EditFile.antt =====
-- internal/tools/edit_file.go: how `edit_file` replaces a text in a file's content. Texts are bytes;
-- the functions of Go's `strings` that the code calls are written out. The proofs are in Laws.
pub mod Laws
use go_tiny_claw.Base.{
  ℕ, suc, zero, ◌+◌, ◌-◌, Bool, true, false, ◌&&◌, ◌||◌, not, List, [], ◌∷◌, ◌++◌, if◌then◌else◌,
  ◌==◌, ltb, Text, text_eq, ◌≟◌, is_empty, Result, ok, err, length, take, drop, map, trim_space,
  runes, split_lines, join_lines,
}

pub data EditError : Type 0 where
  ambiguous : ℕ → EditError
  snippet_missing not_in_file : EditError
  similar : ℕ → EditError

-- `strings.HasPrefix`
unfoldable pub has_prefix : Text → Text → Bool
has_prefix [] s = true
has_prefix (x ∷ xs) [] = false
has_prefix (x ∷ xs) (b ∷ bs) = x == b && has_prefix xs bs

unfoldable pub count_from : Text → ℕ → Text → ℕ
unfolding has_prefix
count_from sub skip [] = 0
count_from sub (suc k) (b ∷ bs) = count_from sub k bs
count_from sub zero (b ∷ bs) =
    let found = has_prefix sub (b ∷ bs) in
    let rest = count_from sub (if found then length sub - 1 else 0) bs in
    if found then suc rest else rest

-- `strings.Count`: matches that do not overlap; the empty text matches around every rune.
unfoldable pub count : Text → Text → ℕ
unfolding count_from
count s sub = if is_empty sub then suc (length (runes s)) else count_from sub 0 s

-- `strings.Replace` of one match.
unfoldable pub replace_first : Text → Text → Text → Text
unfolding has_prefix
replace_first [] old new = if is_empty old then new else []
replace_first (b ∷ bs) old new =
    let rest = replace_first bs old new in
    if has_prefix old (b ∷ bs) then new ++ drop (length old) (b ∷ bs) else b ∷ rest

abbrev starts_line : Text → Bool
starts_line [] = false
starts_line (b ∷ bs) = b == b'\n'

-- `strings.ReplaceAll(s, "\r\n", "\n")`: the carriage return before a newline goes.
unfoldable pub normalize : Text → Text
normalize [] = []
normalize (b ∷ bs) =
    let rest = normalize bs in if b == b'\r' && starts_line bs then rest else b ∷ rest

-- The inner loop: the lines start with the wanted ones, but for the space around them.
unfoldable pub window_matches : List Text → List Text → Bool
window_matches [] ls = true
window_matches (o ∷ os) [] = false
window_matches (o ∷ os) (l ∷ ls) = trim_space l ≟ o && window_matches os ls

-- The outer loop, from line `i`: how often the window matched, and where it did last. A window that
-- does not fit in the lines left is passed over.
unfoldable pub find_window : List Text → ℕ → List Text → ℕ × ℕ → ℕ × ℕ
unfolding window_matches
find_window old i [] found = found
find_window old i (l ∷ ls) (n, last) =
    find_window old (suc i) ls (if window_matches old (l ∷ ls) then (suc n, i) else (n, last))

-- The lines wanted by `lineByLineReplace`.
abbrev pub wanted_lines : Text → List Text
wanted_lines old = map trim_space (split_lines (trim_space old))

-- The rest of `lineByLineReplace`, which knows how often the window matched and where.
unfoldable pub replace_window : List Text → ℕ → Text → ℕ × ℕ → Result EditError Text
replace_window lines size new (n, at) =
    if n == 0
    then err not_in_file
    else if ltb 1 n
    then err (similar n)
    else ok (join_lines (take at lines ++ new ∷ drop (at + size) lines))

-- `lineByLineReplace`
unfoldable pub line_by_line_replace : Text → Text → Text → Result EditError Text
unfolding find_window replace_window
line_by_line_replace content old new =
    let lines = split_lines content in
    let wanted = wanted_lines old in
    if is_empty wanted || ltb (length lines) (length wanted)
    then err snippet_missing
    else replace_window lines (length wanted) new (find_window wanted 0 lines (0, 0))

-- The third and the fourth step of `fuzzyReplace`, on texts with their newlines normalized.
unfoldable pub loose_replace : Text → Text → Text → Result EditError Text
unfolding line_by_line_replace
loose_replace content old new =
    let trimmed = trim_space old in
    if not (is_empty trimmed) && count content trimmed == 1
    then ok (replace_first content trimmed new)
    else line_by_line_replace content old new

-- `fuzzyReplace`
unfoldable pub fuzzy_replace : Text → Text → Text → Result EditError Text
unfolding loose_replace normalize
fuzzy_replace content old new =
    let n = count content old in
    if n == 1
    then ok (replace_first content old new)
    else if ltb 1 n
    then err (ambiguous n)
    else if count (normalize content) (normalize old) == 1
    then ok (replace_first (normalize content) (normalize old) new)
    else loose_replace (normalize content) (normalize old) new
