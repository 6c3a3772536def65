-- ===== src/Approval/Patterns.antt =====
-- internal/approval/policy.go: the commands that the four regular expressions match, described as texts.
use go_tiny_claw.Base.{
  ℕ, Bool, true, false, ◌||◌, [], ◌∷◌, ◌++◌, ◌==◌, ==_iff, Text, codes, ◌≟◌, ≟_iff, text_eq, All,
  ◌≡◌, ◌↔◌, ◌⊎◌, inl, inr, refl, ap, ◌∙◌, arith, Bool-cases,
}
use go_tiny_claw.Approval.Danger.{
  is_re_space, somewhere, starts_with, spaces_then, word_then, line_has_go, dangerous_patterns,
  is_dangerous_command,
}

-- White space, and at least one of it.
abbrev pub IsGap : Text → Type 0
IsGap [] = ⊥
IsGap (b ∷ []) = is_re_space b ≡ true
IsGap (b ∷ c ∷ bs) = (is_re_space b ≡ true) × IsGap (c ∷ bs)

-- A word, a gap and another word, somewhere in a text.
abbrev pub HasWords : Text → Text → Text → Type 0
HasWords u v s =
    (l : Text) × (gap : Text) × (r : Text) × IsGap gap × (s ≡ l ++ (u ++ (gap ++ (v ++ r))))

-- The sign `>`, and on the same line the ending `.go`.
abbrev pub WritesGo : Text → Type 0
WritesGo s =
    (l : Text) × (line : Text) × (r : Text) × All (λ b. (b == 10) ≡ false) line
    × (s ≡ l ++ (codes ">" ++ (line ++ (codes ".go" ++ r))))

-- What the four patterns describe.
abbrev pub Dangerous : Text → Type 0
Dangerous s =
    HasWords (codes "rm") (codes "-r") s
    ⊎ HasWords (codes "sudo") [] s
    ⊎ HasWords (codes "drop") [] s
    ⊎ WritesGo s

somewhere_parts :
    (p : Text → Bool) (s : Text)
    → somewhere p s ≡ true
    → (l : Text) × (r : Text) × (s ≡ l ++ r) × (p r ≡ true)
unfolding somewhere
somewhere_parts p [] h = ([], [], refl, h)
somewhere_parts p (b ∷ s) h = elim (Bool-cases (p (b ∷ s))) [
  | inl e ↦ ([], b ∷ s, refl, e)
  | inr e ↦
      let (l, r, same, f) = somewhere_parts p s (ground arith) in
      (b ∷ l, r, ap (λ x. b ∷ x) same, f)
]

somewhere_join : (p : Text → Bool) (l r : Text) → p r ≡ true → somewhere p (l ++ r) ≡ true
unfolding somewhere
somewhere_join p [] [] h = h
somewhere_join p [] (b ∷ r) h = ground arith
somewhere_join p (b ∷ l) r h = ground (arith, somewhere_join p l r h)

starts_with_parts : (w s : Text) → starts_with w s ≡ true → (r : Text) × (s ≡ w ++ r)
unfolding starts_with
starts_with_parts [] s h = (s, refl)
starts_with_parts (a ∷ w) [] h = ground arith
starts_with_parts (a ∷ w) (b ∷ s) h =
    let (r, same) = starts_with_parts w s (ground arith) in
    let head : b ≡ a = ground (arith, ==_iff a b) in (r, rw (head, same))

starts_with_join : (w r : Text) → starts_with w (w ++ r) ≡ true
unfolding starts_with
starts_with_join [] r = refl
starts_with_join (a ∷ w) r = ground (arith, ==_iff a a, starts_with_join w r)

word_then_parts :
    (w : Text) (p : Text → Bool) (s : Text)
    → word_then w p s ≡ true
    → (r : Text) × (s ≡ w ++ r) × (p r ≡ true)
unfolding word_then
word_then_parts [] p s h = (s, refl, h)
word_then_parts (a ∷ w) p [] h = ground arith
word_then_parts (a ∷ w) p (b ∷ s) h =
    let (r, same, f) = word_then_parts w p s (ground arith) in
    let head : b ≡ a = ground (arith, ==_iff a b) in (r, rw (head, same), f)

word_then_join :
    (w : Text) (p : Text → Bool) (r : Text) → p r ≡ true → word_then w p (w ++ r) ≡ true
unfolding word_then
word_then_join [] p r h = h
word_then_join (a ∷ w) p r h = ground (arith, ==_iff a a, word_then_join w p r h)

cons-IsGap : (b : ℕ) (gap : Text) → is_re_space b ≡ true → IsGap gap → IsGap (b ∷ gap)
cons-IsGap b [] h g = h
cons-IsGap b (c ∷ gap) h g = (h, g)

spaces_then_parts :
    (v s : Text)
    → spaces_then v s ≡ true
    → (gap : Text) × (r : Text) × IsGap gap × (s ≡ gap ++ (v ++ r))
unfolding spaces_then
spaces_then_parts v [] h = ground arith
spaces_then_parts v (b ∷ s) h =
    let space : is_re_space b ≡ true = ground (arith, Bool-cases (is_re_space b)) in
    elim (Bool-cases (starts_with v s)) [
      | inl e ↦ let (r, same) = starts_with_parts v s e in (b ∷ [], r, space, ap (λ x. b ∷ x) same)
      | inr e ↦
          let later : spaces_then v s ≡ true = ground (arith, space) in
          let (gap, r, g, same) = spaces_then_parts v s later in
          (b ∷ gap, r, cons-IsGap b gap space g, ap (λ x. b ∷ x) same)
    ]

spaces_then_join : (v gap r : Text) → IsGap gap → spaces_then v (gap ++ (v ++ r)) ≡ true
unfolding spaces_then
spaces_then_join v [] r h = ground arith
spaces_then_join v (b ∷ []) r h = ground (arith, starts_with_join v r)
spaces_then_join v (b ∷ c ∷ gap) r (h, g) = ground (arith, h, spaces_then_join v (c ∷ gap) r g)

line_has_go_parts :
    (s : Text)
    → line_has_go s ≡ true
    → (line : Text) × (r : Text) × All (λ b. (b == 10) ≡ false) line
      × (s ≡ line ++ (codes ".go" ++ r))
unfolding line_has_go
line_has_go_parts [] h = ground arith
line_has_go_parts (b ∷ s) h = elim (Bool-cases (starts_with (codes ".go") (b ∷ s))) [
  | inl e ↦ let (r, same) = starts_with_parts (codes ".go") (b ∷ s) e in ([], r, tt, same)
  | inr e ↦
      let (line, r, on_line, same) = line_has_go_parts s (ground arith) in
      (b ∷ line, r, (ground arith, on_line), ap (λ x. b ∷ x) same)
]

line_has_go_join :
    (line r : Text)
    → All (λ b. (b == 10) ≡ false) line
    → line_has_go (line ++ (codes ".go" ++ r)) ≡ true
unfolding line_has_go starts_with
line_has_go_join [] r h = refl
line_has_go_join (b ∷ line) r (h, hs) = ground (arith, line_has_go_join line r hs)

HasWords-iff : (u v s : Text) → (somewhere (word_then u (spaces_then v)) s ≡ true) ↔ HasWords u v s
HasWords-iff u v s = (
  λ h.
      let (l, t, same, found) = somewhere_parts (word_then u (spaces_then v)) s h in
      let (q, same', spaced) = word_then_parts u (spaces_then v) t found in
      let (gap, r, g, same'') = spaces_then_parts v q spaced in
      (l, gap, r, g, rw (same, same', same'')),
  λ (l, gap, r, g, same).
      ap (somewhere (word_then u (spaces_then v))) same
      ∙ somewhere_join (word_then u (spaces_then v)) l (u ++ (gap ++ (v ++ r)))
          (word_then_join u (spaces_then v) (gap ++ (v ++ r)) (spaces_then_join v gap r g)),
)

WritesGo-iff : (s : Text) → (somewhere (word_then (codes ">") line_has_go) s ≡ true) ↔ WritesGo s
WritesGo-iff s = (
  λ h.
      let (l, t, same, found) = somewhere_parts (word_then (codes ">") line_has_go) s h in
      let (q, same', ended) = word_then_parts (codes ">") line_has_go t found in
      let (line, r, on_line, same'') = line_has_go_parts q ended in
      (l, line, r, on_line, rw (same, same', same'')),
  λ (l, line, r, on_line, same).
      ap (somewhere (word_then (codes ">") line_has_go)) same
      ∙ somewhere_join (word_then (codes ">") line_has_go) l
          (codes ">" ++ (line ++ (codes ".go" ++ r)))
          (word_then_join (codes ">") line_has_go (line ++ (codes ".go" ++ r))
            (line_has_go_join line r on_line)),
)

-- The tool calls that need an approval are exactly those of the tool "bash" whose arguments have, in any
-- place: "rm", white space and "-r"; or "sudo" or "drop" and white space; or ">" and, on the same line,
-- ".go".
pub is_dangerous_command_exactly :
    (name args : Text)
    → (is_dangerous_command name args ≡ true) ↔ ((name ≡ codes "bash") × Dangerous args)
unfolding is_dangerous_command dangerous_patterns
is_dangerous_command_exactly name args =
    let rm = HasWords-iff (codes "rm") (codes "-r") args in
    let sudo = HasWords-iff (codes "sudo") [] args in
    let drop = HasWords-iff (codes "drop") [] args in
    let to_go = WritesGo-iff args in
    let has_rm = somewhere (word_then (codes "rm") (spaces_then (codes "-r"))) args in
    let has_sudo = somewhere (word_then (codes "sudo") (spaces_then [])) args in
    let has_drop = somewhere (word_then (codes "drop") (spaces_then [])) args in
    let has_go = somewhere (word_then (codes ">") line_has_go) args in
    (
      λ h.
          let found : (has_rm || has_sudo || has_drop || has_go) ≡ true =
            ground (arith, Bool-cases (name ≟ codes "bash")) in
          (
            (≟_iff name (codes "bash")).0 (ground (arith, Bool-cases (name ≟ codes "bash"))),
            elim (Bool-cases has_rm) [
              | inl e ↦ inl (rm.0 e)
              | inr e ↦ elim (Bool-cases has_sudo) [
                | inl f ↦ inr (inl (sudo.0 f))
                | inr f ↦ elim (Bool-cases has_drop) [
                  | inl g ↦ inr (inr (inl (drop.0 g)))
                  | inr g ↦ inr (inr (inr (to_go.0 (ground (arith, found)))))
                ]
              ]
            ],
          ),
      λ (bash, dangerous).
          let named = (≟_iff name (codes "bash")).1 bash in
          elim dangerous [
            | inl x ↦ let e = rm.1 x in ground (arith, e, named)
            | inr (inl x) ↦ let e = sudo.1 x in ground (arith, e, named)
            | inr (inr (inl x)) ↦ let e = drop.1 x in ground (arith, e, named)
            | inr (inr (inr x)) ↦ let e = to_go.1 x in ground (arith, e, named)
          ],
    )
