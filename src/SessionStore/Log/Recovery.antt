-- ===== src/SessionStore/Log/Recovery.antt =====
-- internal/sessionstore/file.go: a file that is cut anywhere replays as far as whole events go.
use go_tiny_claw.Base.{
  ℕ, suc, zero, ◌+◌, ◌-◌, ◌≤◌, ◌<◌, List, [], ◌∷◌, ◌++◌, Text, ok, length, take, All, IsLine,
  split_lines, ◌==◌, ==_iff, take-append, ◌≡◌, inl, inr, refl, arith, subst, Result-cases,
  length-append, sym, ap, Bool-cases, ltb,
}
use go_tiny_claw.SessionStore.{Snapshot, Event, apply, apply_all}
use go_tiny_claw.SessionStore.Log.Laws.{
  Entry, events_of, written, replay_lines-Line, replay_lines-torn, replay_lines-last,
}
use go_tiny_claw.SessionStore.Log.{Codec, finish, replay_lines}

IsLine-take : (k : ℕ) (l : Text) → IsLine l → IsLine (take k l)
IsLine-take zero l h = tt
IsLine-take (suc k) [] h = tt
IsLine-take (suc k) (b ∷ l) h = (h.0, IsLine-take k l h.1)

take-beyond : (k : ℕ) (l rest : Text) → take (length l + k) (l ++ rest) ≡ l ++ take k rest
take-beyond k [] rest = ap (λ n. take n rest) (omega arith)
take-beyond k (b ∷ l) rest =
    let order : suc (length l) + k ≡ suc (length l + k) = omega arith in
    rw order (ap (◌∷◌ b) (take-beyond k l rest))

take-nil : (k : ℕ) → take {A = ℕ} k [] ≡ []
take-nil zero = refl
take-nil (suc k) = refl

take-within : (k : ℕ) (l rest : Text) → k ≤ length l → take k (l ++ rest) ≡ take k l
take-within zero l rest h = refl
take-within (suc k) [] rest h = ground arith
take-within (suc k) (b ∷ l) rest h = ap (◌∷◌ b) (take-within k l rest (omega arith))

length-written :
    (p : Text × Event) (ps : List (Text × Event))
    → length (written (p ∷ ps)) ≡ length p.0 + suc (length (written ps))
unfolding written
length-written p ps = length-append p.0 (b'\n' ∷ written ps)

-- Of entries cut in the first one, at most the first is there, and only if just its newline is not.
first-cut :
    (p : Text × Event) (ps : List (Text × Event)) (k i : ℕ)
    → k ≤ length p.0
    → i ≤ suc (length ps)
    → length (written (take i (p ∷ ps))) ≤ suc k
    → (i ≤ 1) × (i ≡ 1 → k ≡ length p.0)
unfolding written
first-cut p ps k zero a b d = (omega arith, λ e. ground arith)
first-cut p ps k (suc zero) a b d = (omega arith, λ e. omega (arith, length-written p []))
first-cut p [] k (suc (suc i)) a b d = ground arith
first-cut p (q ∷ ps) k (suc (suc i)) a b d =
    let first = length-written p (q ∷ take i ps) in
    let second = length-written q (take i ps) in
    (omega (arith, first, second), λ e. omega (arith, first, second))

later-fit :
    (p : Text × Event) (ps : List (Text × Event)) (k j : ℕ)
    → ((i : ℕ) → i ≤ length ps → length (written (take i ps)) ≤ suc k → i ≤ j)
    → (i : ℕ) → i ≤ suc (length ps)
    → length (written (take i (p ∷ ps))) ≤ suc (length p.0 + suc k)
    → i ≤ suc j
later-fit p ps k j most zero a b = omega arith
later-fit p ps k j most (suc i) a b =
    let counted = length-written p (take i ps) in
    let fit = most i (omega arith) (omega (arith, counted)) in omega arith

-- What a file with the first `k` bytes of some entries replays to: what the first `j` of them build.
-- Every whole event is among these, the newline of the last not counted, and no torn one is.
abbrev pub Recovered : Codec → Snapshot → ℕ → ℕ → List (Text × Event) → Type 0
Recovered c s offset k ps =
    (j : ℕ) × (u : Snapshot) × (j ≤ length ps)
    × (apply_all s (events_of (take j ps)) ≡ ok u)
    × (length (written (take j ps)) ≤ suc k)
    × ((i : ℕ) → i ≤ length ps → length (written (take i ps)) ≤ suc k → i ≤ j)
    × (replay_lines c s offset (split_lines (take k (written ps)))
        ≡ finish u (offset + length (written (take j ps))))

-- Cut before the end of the first entry.
Recovered-torn :
    (c : Codec) (s : Snapshot) (offset k : ℕ) (p : Text × Event) (ps : List (Text × Event))
    → Entry c p
    → k < length p.0
    → Recovered c s offset k (p ∷ ps)
unfolding written apply_all
Recovered-torn c s offset k p ps h a =
    let none_read : offset + 0 ≡ offset = omega arith in
    let cut = take-within k p.0 (b'\n' ∷ written ps) (omega arith) in
    let torn =
      replay_lines-torn c s offset (take k p.0) (IsLine-take k p.0 h.0.0) (inr (h.1 k a)) in
    (
      0,
      s,
      omega arith,
      refl,
      omega arith,
      λ i b d. ground (arith, first-cut p ps k i),
      rw (none_read, cut) torn,
    )

-- Cut before the newline of the first entry.
Recovered-bare :
    (c : Codec) (s t : Snapshot) (offset : ℕ) (p : Text × Event) (ps : List (Text × Event))
    → Entry c p
    → apply s p.1 ≡ ok t
    → Recovered c s offset (length p.0) (p ∷ ps)
unfolding written apply_all
Recovered-bare c s t offset p ps h f = (
  1,
  t,
  omega arith,
  rw f refl,
  omega (arith, length-written p []),
  λ i b d. (first-cut p ps (length p.0) i (omega arith) b d).0,
  rw (take-append p.0 (b'\n' ∷ written ps), length-append p.0 (b'\n' ∷ []))
      (replay_lines-last c s t offset p h.0 h.2 f),
)

-- Cut after the first entry.
Recovered-line :
    (c : Codec) (s t : Snapshot) (offset k : ℕ) (p : Text × Event) (ps : List (Text × Event))
    → Entry c p
    → apply s p.1 ≡ ok t
    → Recovered c t (offset + length p.0 + 1) k ps
    → Recovered c s offset (length p.0 + suc k) (p ∷ ps)
unfolding written apply_all
Recovered-line c s t offset k p ps h f (j, u, few, built, fits, most, read) =
    let counted = length-append p.0 (b'\n' ∷ written (take j ps)) in
    let total : offset + length p.0 + 1 + length (written (take j ps))
        ≡ offset + (length p.0 + suc (length (written (take j ps)))) =
      omega arith in
    (
      suc j,
      u,
      omega arith,
      rw f built,
      omega (arith, counted, fits),
      later-fit p ps k j most,
      rw
          (
            take-beyond (suc k) p.0 (b'\n' ∷ written ps),
            replay_lines-Line c s t offset p (take k (written ps)) h.0 f,
            counted,
            sym total,
          )
          read,
    )

pub recovered :
    (c : Codec) (s t : Snapshot) (offset k : ℕ) (ps : List (Text × Event))
    → All (Entry c) ps
    → apply_all s (events_of ps) ≡ ok t
    → Recovered c s offset k ps
unfolding written apply_all
recovered c s t offset k [] h f =
    let none_read : offset + 0 ≡ offset = omega arith in
    (
      0,
      s,
      omega arith,
      refl,
      omega arith,
      λ i a b. a,
      rw (none_read, take-nil k) (replay_lines-torn c s offset [] tt (inl refl)),
    )
recovered c s t offset k (p ∷ ps) h f = elim (Result-cases (apply s p.1)) [
  | inr (x, g) ↦ ground arith
  | inl (u, g) ↦ elim (Bool-cases (ltb k (length p.0))) [
    | inl a ↦ Recovered-torn c s offset k p ps h.0 (ground arith)
    | inr a ↦ elim (Bool-cases (k == length p.0)) [
      | inl b ↦
          subst (λ n. Recovered c s offset n (p ∷ ps)) (ground (arith, ==_iff k (length p.0)))
            (Recovered-bare c s u offset p ps h.0 g)
      | inr b ↦
          let k' = k - suc (length p.0) in
          subst (λ n. Recovered c s offset n (p ∷ ps)) (ground (arith, ==_iff k (length p.0)))
            (Recovered-line c s u offset k' p ps h.0 g
              (recovered c u t (offset + length p.0 + 1) k' ps h.1 (ground arith)))
    ]
  ]
]
