-- ===== src/Context/Truncate.antt =====
-- internal/context/builder.go, `truncate`: the largest head and tail of a tool result that fit, found
-- by halving. A text is cut between its runes, and runs that the code joins are joined texts here.
-- The code's upper bound `hi` may fall to -1; here it is one more.
use go_tiny_claw.Base.{
  ℕ, suc, zero, ◌+◌, ◌-◌, ◌/◌, ◌≤◌, ◌<◌, Bool, true, false, ◌||◌, List, [], ◌∷◌, ◌++◌,
  if◌then◌else◌, ltb, leb, Text, codes, is_empty, runes, take, drop, flatten, length, ◌≡◌, ◌⊎◌, inl,
  inr, refl, arith, append-nil, ◌≢◌, subst, sym, Bool-cases,
}
use go_tiny_claw.Schema.{Message}

-- `truncationMarker`
abbrev pub truncation_marker : Text
truncation_marker =
    b'\n' ∷ codes "[tool output truncated for context; full output in session history]"
    ++ b'\n' ∷ []

-- The content that keeps `n` of the runes, at both ends.
unfoldable pub cut_content : List Text → ℕ → Text
cut_content rs n =
    flatten (take ((n + 1) / 2) rs) ++ truncation_marker ++ flatten (drop (length rs - n / 2) rs)

-- The message that keeps `n` runes of its content.
unfoldable pub candidate : Message → ℕ → Message
unfolding cut_content
candidate m n = record m { content = cut_content (runes m.content) n }

drop-all : (n : ℕ) (rs : List Text) → length rs ≤ n → drop n rs ≡ []
drop-all zero [] h = refl
drop-all (suc n) [] h = refl
drop-all zero (r ∷ rs) h = ground arith
drop-all (suc n) (r ∷ rs) h = drop-all n rs (omega arith)

empty-cases : (t : Text) → (t ≡ []) ⊎ (is_empty t ≡ false)
empty-cases [] = inl refl
empty-cases (b ∷ t) = inr refl

module _ (estimate : Message → ℕ) where
  -- The loop, with `fuel` for its turns.
  unfoldable pub halve : Message → ℕ → ℕ → ℕ → ℕ → Message → Message
  unfolding candidate
  halve m limit zero lo hi best = best
  halve m limit (suc fuel) lo hi best =
      let n = (lo + (hi - 1)) / 2 in
      let fits = leb (estimate (candidate m n)) limit in
      let rest =
        halve m limit fuel (if fits then suc n else lo) (if fits then hi else n)
          (if fits then candidate m n else best) in
      if ltb lo hi then rest else best

  -- `truncate`: the message, and whether it was cut.
  unfoldable pub truncate : Message → ℕ → Message × Bool
  unfolding halve
  truncate m limit =
      let size = length (runes m.content) in
      if is_empty m.tool_call_id || leb (estimate m) limit
      then (m, false)
      else (halve m limit (suc size) 0 (suc size) (record m { content = truncation_marker }), true)

  -- What the loop promises of the message that it finds: it keeps `n` runes and fits, or keeps none;
  -- and it is the whole of the `size` runes or one rune more did not fit.
  abbrev pub Best : Message → ℕ → ℕ → ℕ → Message → Type 0
  Best m limit size n t =
      (t ≡ candidate m n)
      × (n ≤ size)
      × ((n ≡ 0) ⊎ (estimate t ≤ limit))
      × ((n ≡ size) ⊎ ((limit < estimate (candidate m (suc n))) ⊎ (limit < estimate t)))

  -- The bounds in the loop: `n` runes are the best so far, below `lo`; at `hi` they do not fit.
  abbrev Bounds : Message → ℕ → ℕ → ℕ → ℕ → ℕ → Message → Type 0
  Bounds m limit size lo hi n t =
      (t ≡ candidate m n)
      × (((lo ≡ 0) × (n ≡ 0)) ⊎ ((lo ≡ suc n) × (estimate t ≤ limit)))
      × (lo ≤ hi)
      × (hi ≤ suc size)
      × ((hi ≡ suc size) ⊎ (limit < estimate (candidate m hi)))

  -- Where the bounds meet, the message is the best.
  halved :
      (m : Message) (limit size lo hi n : ℕ) (best : Message)
      → hi ≤ lo
      → Bounds m limit size lo hi n best
      → Best m limit size n best
  halved m limit size lo hi n best h (e, inl (a, b), le, top, inl f) = ground arith
  halved m limit size lo hi n best h (e, inl (a, b), le, top, inr f) = (
    e,
    omega arith,
    inl b,
    inr (
        inr (
          subst (λ x. limit < estimate x) (sym e)
            (subst (λ i. limit < estimate (candidate m i)) (omega arith) f))),
  )
  halved m limit size lo hi n best h (e, inr (a, b), le, top, inl f) =
      (e, omega arith, inr b, inl (omega arith))
  halved m limit size lo hi n best h (e, inr (a, b), le, top, inr f) = (
    e,
    omega arith,
    inr b,
    inr (inl (subst (λ i. limit < estimate (candidate m i)) (omega arith) f)),
  )

  halve-Best :
      (m : Message) (limit size fuel lo hi n : ℕ) (best : Message)
      → hi - lo ≤ fuel
      → Bounds m limit size lo hi n best
      → (k : ℕ) × Best m limit size k (halve m limit fuel lo hi best)
  unfolding halve
  halve-Best m limit size zero lo hi n best h b =
      (n, halved m limit size lo hi n best (omega arith) b)
  halve-Best m limit size (suc fuel) lo hi n best h b =
      let k = (lo + (hi - 1)) / 2 in
      let (e, low, le, top, high) = b in
      elim (Bool-cases (ltb lo hi)) [
        | inr f ↦ (n, rw f (halved m limit size lo hi n best (ground arith) b))
        | inl f ↦
            let less : lo < hi = ground arith in
            elim (Bool-cases (leb (estimate (candidate m k)) limit)) [
              | inl g ↦
                  rw (f, g)
                    (halve-Best m limit size fuel (suc k) hi k (candidate m k) (omega arith)
                      (refl, inr (refl, ground arith), omega arith, omega arith, high))
              | inr g ↦
                  rw (f, g)
                    (halve-Best m limit size fuel lo k n best (omega arith)
                      (e, low, omega arith, omega arith, inr (ground arith)))
            ]
      ]

  none_kept : (m : Message) → record m { content = truncation_marker } ≡ candidate m 0
  unfolding candidate cut_content flatten
  none_kept m =
      let rs = runes m.content in
      ground (arith, drop-all (length rs - 0) rs (omega arith), append-nil truncation_marker)

  -- A message that is no tool result, or fits, is not changed. Any other keeps all but its content,
  -- which becomes a head and a tail of it around the marker: the two fit the limit, or nothing is
  -- left of them; and either no rune is missing or one rune more would not fit. The loop ends with
  -- the fuel that it is given.
  pub truncate-Best :
      (m : Message) (limit : ℕ)
      → let (t, cut) = truncate m limit in
        (cut ≡ false → (t ≡ m) × ((m.tool_call_id ≡ []) ⊎ (estimate m ≤ limit)))
        × (cut ≡ true
            → (m.tool_call_id ≢ [])
              × (limit < estimate m)
              × ((n : ℕ) × Best m limit (length (runes m.content)) n t))
  unfolding truncate
  truncate-Best m limit =
      let size = length (runes m.content) in
      elim (Bool-cases (is_empty m.tool_call_id || leb (estimate m) limit)) [
        | inl e ↦ (
          λ h. (
            ground arith,
            elim (empty-cases m.tool_call_id) [ inl f ↦ inl f | inr f ↦ inr (ground arith) ],
          ),
          λ h. ground arith,
        )
        | inr e ↦ (
          λ h. ground arith,
          λ h. (
            ground arith,
            ground arith,
            rw e (
                halve-Best m limit size (suc size) 0 (suc size) 0
                  (record m { content = truncation_marker }) (omega arith)
                  (none_kept m, inl (refl, refl), omega arith, omega arith, inl refl)),
          ),
        )
      ]
