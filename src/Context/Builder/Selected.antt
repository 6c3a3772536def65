-- ===== src/Context/Builder/Selected.antt =====
-- internal/context/builder.go: what the selection of turns keeps.
use go_tiny_claw.Base.{
  any, ◌∙◌, ℕ, suc, ◌+◌, ◌≤◌, Bool, true, false, ◌||◌, List, [], ◌∷◌, ltb, ok, length, is_empty,
  flatten, All, ◌≡◌, ◌⊎◌, inl, inr, refl, arith, Bool-cases, Result-cases, length-append, ap, subst,
  sym,
}
use go_tiny_claw.Schema.{Message}
use go_tiny_claw.Context.Budget.{estimate_messages, estimate_messages-append}
use go_tiny_claw.Context.Units.Laws.{Legal, Legal-append, waits}
use go_tiny_claw.Context.Builder.{Selection, opens_ordinary, anchors, pick, select, select_group}

-- Flags that keep whatever the others keep.
unfoldable pub Keeps : List Bool → List Bool → Type 0
Keeps [] bs = Unit
Keeps (k ∷ ks) [] = Unit
Keeps (k ∷ ks) (b ∷ bs) = (k ≡ true → b ≡ true) × Keeps ks bs

pub pick-Legal : (bs : List Bool) (gs : List (List Message)) → All Legal gs → Legal (pick bs gs)
unfolding pick waits
pick-Legal [] gs h = refl
pick-Legal (b ∷ bs) [] h = refl
pick-Legal (true ∷ bs) (g ∷ gs) h = Legal-append g (pick bs gs) h.0 (pick-Legal bs gs h.1)
pick-Legal (false ∷ bs) (g ∷ gs) h = pick-Legal bs gs h.1

pub pick-length :
    (bs : List Bool) (gs : List (List Message)) → length (pick bs gs) ≤ length (flatten gs)
unfolding pick flatten
pick-length [] gs = omega arith
pick-length (b ∷ bs) [] = omega arith
pick-length (true ∷ bs) (g ∷ gs) =
    omega (arith, pick-length bs gs, length-append g (pick bs gs), length-append g (flatten gs))
pick-length (false ∷ bs) (g ∷ gs) = omega (arith, pick-length bs gs, length-append g (flatten gs))

module _ (estimate : Message → ℕ) (limit : ℕ) where
  -- What a turn of the loop does: the group is kept as the anchor says, at no cost, or is selected.
  select_group-cases :
      (s : Selection) (g : List Message) (k last : Bool) (t : Selection)
      → select_group estimate limit s g k last ≡ ok t
      → (b : Bool) × (t.flags ≡ b ∷ s.flags)
        × (((b ≡ k) × (t.used ≡ s.used))
            ⊎ ((k ≡ false)
                × (b ≡ true)
                × (t.used ≡ s.used + estimate_messages estimate g)
                × (t.used ≤ limit)))
  unfolding select_group
  select_group-cases s g k last t h = elim (Bool-cases (k || s.stopped)) [
    | inl e ↦ (k, ground arith, inl (refl, ground arith))
    | inr e ↦ elim (Bool-cases (ltb limit (s.used + estimate_messages estimate g))) [
      | inl f ↦ (k, ground (arith, Bool-cases last), inl (refl, ground (arith, Bool-cases last)))
      | inr f ↦ (true, ground arith, inr (ground arith, refl, ground arith, ground arith))
    ]
  ]

  -- What the flags pick beyond the anchor is what was used beyond the start, within the limit.
  pub select_sound :
      (start : ℕ) (gs : List (List Message)) (ks : List Bool) (s : Selection)
      → length ks ≡ length gs
      → start ≤ limit
      → select estimate limit start gs ks ≡ ok s
      → (s.used + estimate_messages estimate (pick ks gs)
          ≡ start + estimate_messages estimate (pick s.flags gs))
        × (s.used ≤ limit)
        × Keeps ks s.flags
        × (length s.flags ≡ length gs)
  unfolding select select_group pick Keeps
  select_sound start [] [] s n h e = ground arith
  select_sound start [] (k ∷ ks) s n h e = ground arith
  select_sound start (g ∷ gs) [] s n h e = ground arith
  select_sound start (g ∷ gs) (k ∷ ks) s n h e =
      elim (Result-cases (select estimate limit start gs ks)) [
        | inr (x, f) ↦ ground arith
        | inl (t, f) ↦
            let ih = select_sound start gs ks t (ground arith) h f in
            let u = estimate_messages-append estimate g (pick ks gs) in
            let v = estimate_messages-append estimate g (pick t.flags gs) in
            let (b, flags, how) = select_group-cases t g k (is_empty gs) s (ground arith) in
            let (sum, within, keeps, size) = ih in
            let counted : estimate_messages estimate (pick s.flags (g ∷ gs))
                ≡ estimate_messages estimate (pick (b ∷ t.flags) (g ∷ gs)) =
              ap (λ x. estimate_messages estimate (pick x (g ∷ gs))) flags in
            let long : length s.flags ≡ suc (length gs) = ground arith in
            elim how [
              | inl (x, y) ↦ (
                elim (Bool-cases k) [
                  | inl p ↦ ground (arith, counted, u, v, sum)
                  | inr p ↦ ground (arith, counted, u, v, sum)
                ],
                omega arith,
                subst (Keeps (k ∷ ks)) (sym flags) ((λ p. ground arith), keeps),
                long,
              )
              | inr (x, y, z, w) ↦ (
                ground (arith, counted, u, v, sum),
                w,
                subst (Keeps (k ∷ ks)) (sym flags) ((λ p. y), keeps),
                long,
              )
            ]
      ]

-- The last turn is kept.
abbrev pub KeepsLast : List Bool → Type 0
KeepsLast [] = Unit
KeepsLast (b ∷ []) = b ≡ true
KeepsLast (b ∷ c ∷ bs) = KeepsLast (c ∷ bs)

select-flags :
    (estimate : Message → ℕ) (limit start : ℕ) (gs : List (List Message)) (ks : List Bool)
    (s : Selection)
    → length ks ≡ length gs
    → select estimate limit start gs ks ≡ ok s
    → length s.flags ≡ length gs
unfolding select
select-flags estimate limit start [] [] s n e = ground arith
select-flags estimate limit start [] (k ∷ ks) s n e = ground arith
select-flags estimate limit start (g ∷ gs) [] s n e = ground arith
select-flags estimate limit start (g ∷ gs) (k ∷ ks) s n e =
    elim (Result-cases (select estimate limit start gs ks)) [
      | inr (x, f) ↦ ground arith
      | inl (t, f) ↦
          let (b, flags, how) =
            select_group-cases estimate limit t g k (is_empty gs) s (ground arith) in
          ap length flags ∙ ap suc (select-flags estimate limit start gs ks t (ground arith) f)
    ]

cons-KeepsLast :
    (b : Bool) (bs : List Bool) (n : ℕ) → length bs ≡ suc n → KeepsLast bs → KeepsLast (b ∷ bs)
cons-KeepsLast b [] n e h = ground arith
cons-KeepsLast b (c ∷ bs) n e h = h

pub select-KeepsLast :
    (estimate : Message → ℕ) (limit start : ℕ) (gs : List (List Message)) (ks : List Bool)
    (s : Selection)
    → length ks ≡ length gs
    → select estimate limit start gs ks ≡ ok s
    → KeepsLast s.flags
unfolding select select_group
select-KeepsLast estimate limit start [] [] s n e =
    subst KeepsLast {x = []} {y = s.flags} (ground arith) tt
select-KeepsLast estimate limit start [] (k ∷ ks) s n e = ground arith
select-KeepsLast estimate limit start (g ∷ gs) [] s n e = ground arith
select-KeepsLast estimate limit start (g ∷ []) (k ∷ []) s n e =
    let flags : s.flags ≡ true ∷ [] =
      ground (arith, Bool-cases k, Bool-cases (ltb limit (start + estimate_messages estimate g))) in
    subst KeepsLast (sym flags) refl
select-KeepsLast estimate limit start (g ∷ []) (k ∷ l ∷ ks) s n e = ground arith
select-KeepsLast estimate limit start (g ∷ h ∷ gs) (k ∷ ks) s n e =
    elim (Result-cases (select estimate limit start (h ∷ gs) ks)) [
      | inr (x, f) ↦ ground arith
      | inl (t, f) ↦
          let (b, flags, how) = select_group-cases estimate limit t g k false s (ground arith) in
          subst KeepsLast (sym flags) (
            cons-KeepsLast b t.flags (length gs)
              (select-flags estimate limit start (h ∷ gs) ks t (ground arith) f)
              (select-KeepsLast estimate limit start (h ∷ gs) ks t (ground arith) f))
    ]

-- The last turn that opens with an ordinary message of the user, if there is one, is kept.
abbrev pub KeepsRequest : List (List Message) → List Bool → Type 0
KeepsRequest [] bs = Unit
KeepsRequest (g ∷ gs) [] = ⊥
KeepsRequest (g ∷ gs) (b ∷ bs) =
    ((any opens_ordinary gs ≡ true) × KeepsRequest gs bs)
    ⊎ ((any opens_ordinary gs ≡ false) × ((opens_ordinary g ≡ false) ⊎ (b ≡ true)))

any-anchors : (gs : List (List Message)) → any (λ b. b) (anchors gs) ≡ any opens_ordinary gs
unfolding anchors
any-anchors [] = refl
any-anchors (g ∷ gs) = ground (arith, any-anchors gs)

pub anchors-KeepsRequest :
    (gs : List (List Message)) (bs : List Bool)
    → Keeps (anchors gs) bs
    → length bs ≡ length gs
    → KeepsRequest gs bs
unfolding Keeps anchors
anchors-KeepsRequest [] bs h n = tt
anchors-KeepsRequest (g ∷ gs) [] h n = ground arith
anchors-KeepsRequest (g ∷ gs) (b ∷ bs) (k, ks) n =
    let same = any-anchors gs in
    elim (Bool-cases (any opens_ordinary gs)) [
      | inl e ↦ inl (e, anchors-KeepsRequest gs bs ks (ground arith))
      | inr e ↦ inr (
        e,
        elim (Bool-cases (opens_ordinary g)) [
          | inl f ↦ inr (k (ground (arith, same)))
          | inr f ↦ inl f
        ],
      )
    ]
