-- ===== src/Tools/EditFile/Laws.antt =====
-- internal/tools/edit_file.go: the laws of `fuzzyReplace`.
use go_tiny_claw.Base.{
  ℕ, suc, zero, ◌+◌, ◌<◌, ◌≤◌, true, false, ◌&&◌, not, List, [], ◌∷◌, ◌++◌, ◌==◌, ==_iff, Text,
  text_eq, is_empty, ok, err, length, take, drop, trim_space, runes_from, ◌≡◌, ◌⊎◌, inl, inr, refl,
  arith, ap, sym, subst, append-nil, Bool-cases, split_lines, join_lines,
}
use go_tiny_claw.Tools.EditFile.{
  ambiguous, has_prefix, count_from, count, replace_first, normalize, window_matches, find_window,
  wanted_lines, replace_window, line_by_line_replace, loose_replace, fuzzy_replace,
}

has_prefix-drop : (old s : Text) → has_prefix old s ≡ true → s ≡ old ++ drop (length old) s
unfolding has_prefix
has_prefix-drop [] s h = refl
has_prefix-drop (x ∷ xs) [] h = ground arith
has_prefix-drop (x ∷ xs) (b ∷ bs) h = ground (arith, ==_iff x b, has_prefix-drop xs bs)

-- The text cut around a part, with the part replaced.
abbrev pub Replaced : Text → Text → Text → Text → Type 0
Replaced s part new r =
    (before : Text) × (after : Text) × (s ≡ before ++ part ++ after) × (r ≡ before ++ new ++ after)

replace_first-found :
    (s old new : Text) → 0 < count_from old 0 s → Replaced s old new (replace_first s old new)
unfolding count_from replace_first
replace_first-found [] old new h = ground arith
replace_first-found (b ∷ bs) old new h = elim (Bool-cases (has_prefix old (b ∷ bs))) [
  | inl e ↦ ([], drop (length old) (b ∷ bs), has_prefix-drop old (b ∷ bs) e, ground arith)
  | inr e ↦
      let (before, after, p, q) = replace_first-found bs old new (ground arith) in
      (b ∷ before, after, ap (◌∷◌ b) p, ground arith)
]

replace_first-once :
    (s old new : Text) → count s old ≡ 1 → Replaced s old new (replace_first s old new)
unfolding count replace_first runes_from
replace_first-once [] [] new h = ([], [], refl, sym (append-nil new))
replace_first-once (b ∷ bs) [] new h = ground arith
replace_first-once s (x ∷ xs) new h = replace_first-found s (x ∷ xs) new (ground arith)

find_window-grows :
    (old : List Text) (i : ℕ) (ls : List Text) (n last : ℕ) → n ≤ (find_window old i ls (n, last)).0
unfolding find_window
find_window-grows old i [] n last = omega arith
find_window-grows old i (l ∷ ls) n last = elim (Bool-cases (window_matches old (l ∷ ls))) [
  | inl e ↦ ground (arith, find_window-grows old (suc i) ls (suc n) i)
  | inr e ↦ ground (arith, find_window-grows old (suc i) ls n last)
]

find_window-none :
    (old : List Text) (i : ℕ) (ls : List Text) (n last : ℕ)
    → (find_window old i ls (n, last)).0 ≡ n
    → ((find_window old i ls (n, last)).1 ≡ last)
      × ((j : ℕ) → j < length ls → window_matches old (drop j ls) ≡ false)
unfolding find_window
find_window-none old i [] n last h = (refl, λ j p. ground arith)
find_window-none old i (l ∷ ls) n last h = elim (Bool-cases (window_matches old (l ∷ ls))) [
  | inl e ↦ ground (arith, find_window-grows old (suc i) ls (suc n) i)
  | inr e ↦
      let (same, none_match) = find_window-none old (suc i) ls n last (ground arith) in
      (ground arith, elim [ zero ↦ λ p. e | suc j ↦ λ p. none_match j (omega arith) ])
]

-- A window that matched once: where it did, and nowhere else.
abbrev pub Unique : List Text → List Text → ℕ → Type 0
Unique old ls j =
    (j < length ls)
    × (window_matches old (drop j ls) ≡ true)
    × ((k : ℕ) → k < length ls → window_matches old (drop k ls) ≡ true → k ≡ j)

find_window-once :
    (old : List Text) (i : ℕ) (ls : List Text) (last : ℕ)
    → (find_window old i ls (0, last)).0 ≡ 1
    → (j : ℕ) × ((find_window old i ls (0, last)).1 ≡ i + j) × Unique old ls j
unfolding find_window
find_window-once old i [] last h = ground arith
find_window-once old i (l ∷ ls) last h = elim (Bool-cases (window_matches old (l ∷ ls))) [
  | inl e ↦
      let (same, none_match) = find_window-none old (suc i) ls 1 i (ground arith) in
      (
        0,
        ground arith,
        (omega arith, e, elim [ zero ↦ λ p q. refl | suc k ↦ λ p q. ground (arith, none_match k) ]),
      )
  | inr e ↦
      let (j, at, (less, match, only)) = find_window-once old (suc i) ls last (ground arith) in
      (
        suc j,
        ground arith,
        (
          omega arith,
          match,
          elim [ zero ↦ λ p q. ground arith | suc k ↦ λ p q. ap suc (only k (omega arith) q) ],
        ),
      )
]

-- What an edit that succeeds has done to the text `s`, which is the content or, where only that
-- matched, the content with its newlines normalized: the one match of the old text (as it is,
-- normalized, or without the space around it) became the new text; or else the one run of lines that
-- are the old lines but for the space around each became the new text. All other text is kept.
abbrev pub Edited : Text → Text → Text → Text → Type 0
Edited s old new r =
    ((part : Text) × ((part ≡ old) ⊎ ((part ≡ normalize old) ⊎ (part ≡ trim_space (normalize old))))
      × (count s part ≡ 1)
      × Replaced s part new r)
    ⊎ ((j : ℕ) × Unique (wanted_lines (normalize old)) (split_lines s) j
        × (r
            ≡ join_lines (
                take j (split_lines s)
                ++ new ∷ drop (j + length (wanted_lines (normalize old))) (split_lines s))))

replace_window-once :
    (wanted lines : List Text) (new r : Text)
    → replace_window lines (length wanted) new (find_window wanted 0 lines (0, 0)) ≡ ok r
    → (j : ℕ) × Unique wanted lines j
      × (r ≡ join_lines (take j lines ++ new ∷ drop (j + length wanted) lines))
unfolding replace_window
replace_window-once wanted lines new r h =
    let (j, at, unique) = find_window-once wanted 0 lines 0 (ground arith) in
    (j, unique, ground (arith, at))

loose_replace-Edited :
    (s old new r : Text) → loose_replace s (normalize old) new ≡ ok r → Edited s old new r
unfolding loose_replace line_by_line_replace
loose_replace-Edited s old new r h =
    let trimmed = trim_space (normalize old) in
    elim (Bool-cases (not (is_empty trimmed) && count s trimmed == 1)) [
      | inl e ↦
          let once : count s trimmed ≡ 1 = ground (arith, ==_iff (count s trimmed) 1) in
          inl (
            trimmed,
            inr (inr refl),
            once,
            subst (Replaced s trimmed new) (ground arith) (replace_first-once s trimmed new once),
          )
      | inr e ↦
          inr (
            replace_window-once (wanted_lines (normalize old)) (split_lines s) new r (ground arith))
    ]

fuzzy_replace-Edited :
    (content old new r : Text)
    → fuzzy_replace content old new ≡ ok r
    → Edited content old new r ⊎ Edited (normalize content) old new r
unfolding fuzzy_replace
fuzzy_replace-Edited content old new r h =
    let c = normalize content in
    let o = normalize old in
    elim (Bool-cases (count content old == 1)) [
      | inl e ↦
          let once : count content old ≡ 1 = ground (arith, ==_iff (count content old) 1) in
          inl (
            inl (
              old,
              inl refl,
              once,
              subst (Replaced content old new) (ground arith)
                  (replace_first-once content old new once),
            ))
      | inr e ↦ elim (Bool-cases (count c o == 1)) [
        | inl f ↦
            let once : count c o ≡ 1 = ground (arith, ==_iff (count c o) 1) in
            inr (
              inl (
                o,
                inr (inl refl),
                once,
                subst (Replaced c o new) (ground arith) (replace_first-once c o new once),
              ))
        | inr f ↦ inr (loose_replace-Edited c old new r (ground arith))
      ]
    ]

-- An edit that succeeds touches one place and keeps all other text (but for carriage returns before
-- newlines, where only the normalized content matched). Occurrences are counted from left to right
-- without overlaps, as `strings.Count` does: an old text that is counted more than once is refused, and
-- one that is counted exactly once is replaced in one place, with no other change.
pub fuzzy_replace_edits_once :
    (content old new : Text)
    → ((r : Text)
        → fuzzy_replace content old new ≡ ok r
        → Edited content old new r ⊎ Edited (normalize content) old new r)
      × (1 < count content old
          → fuzzy_replace content old new ≡ err (ambiguous (count content old)))
      × (count content old ≡ 1
          → (r : Text) × (fuzzy_replace content old new ≡ ok r) × Replaced content old new r)
unfolding fuzzy_replace
fuzzy_replace_edits_once content old new = (
  λ r h. fuzzy_replace-Edited content old new r h,
  λ h. ground (arith, ==_iff (count content old) 1),
  λ h. (
    replace_first content old new,
    ground (arith, ==_iff (count content old) 1),
    replace_first-once content old new h,
  ),
)
