-- ===== src/Context/Session/Memory.antt =====
-- The working memory of a session.
use go_tiny_claw.Base.{
  ℕ, suc, zero, ◌+◌, ◌-◌, ◌≤◌, ◌<◌, true, false, ◌&&◌, List, ◌++◌, ltb, length, take, drop,
  get_elem?, ◌≡◌, ◌⊎◌, inl, inr, refl, arith, take-append-drop, length-drop, Bool-cases, ◌==◌,
  ==_iff,
}
use go_tiny_claw.Schema.{Message}
use go_tiny_claw.Context.Session.{
  Session, ordinary_at, find_conversation_start, memory_start, get_working_memory,
}

-- The start that the search from `i` down finds: at most `i`, ordinary or 0, and the last such.
find_conversation_start_lem :
    (history : List Message) (i : ℕ)
    → (find_conversation_start history i ≤ i)
      × ((find_conversation_start history i ≡ 0)
          ⊎ (ordinary_at (get_elem? history (find_conversation_start history i)) ≡ true))
      × ((j : ℕ)
          → find_conversation_start history i < j
          → j ≤ i
          → ordinary_at (get_elem? history j) ≡ false)
unfolding find_conversation_start
find_conversation_start_lem history zero = (omega arith, inl refl, λ j a b. ground arith)
find_conversation_start_lem history (suc i) =
    let (small, start, none_between) = find_conversation_start_lem history i in
    elim (Bool-cases (ordinary_at (get_elem? history (suc i)))) [
      | inl e ↦ (ground arith, ground arith, λ j a b. ground arith)
      | inr e ↦ (
        ground arith,
        ground arith,
        λ j a b. elim (Bool-cases (j == suc i)) [
          | inl f ↦ ground (arith, ==_iff j (suc i))
          | inr f ↦ ground (arith, ==_iff j (suc i), none_between j)
        ],
      )
    ]

-- The working memory is the end of the history: all of it, or a window that holds at least `limit`
-- messages and starts at an ordinary user message. No ordinary user message after its start leaves
-- `limit` messages, so no shorter window would do; and a limit of 0, or one that the history does
-- not exceed, gives all of it.
pub get_working_memory_window :
    (s : Session) (limit : ℕ)
    → let h = s.history in
      let w = get_working_memory s limit in
      let start = length h - length w in
      (take start h ++ w ≡ h)
      × ((w ≡ h) ⊎ ((limit ≤ length w) × (ordinary_at (get_elem? h start) ≡ true)))
      × ((j : ℕ)
          → 0 < limit
          → start < j
          → j + limit ≤ length h
          → ordinary_at (get_elem? h j) ≡ false)
      × ((limit ≡ 0) ⊎ (length h ≤ limit) → w ≡ h)
unfolding get_working_memory memory_start
get_working_memory_window s limit =
    let (small, start, none_between) =
      find_conversation_start_lem s.history (length s.history - limit) in
    let k = find_conversation_start s.history (length s.history - limit) in
    let cut = length-drop k s.history in
    let whole = take-append-drop k s.history in
    let back : length s.history - length (drop k s.history) ≡ k = omega (arith, cut, small) in
    elim (Bool-cases (ltb limit (length s.history) && ltb 0 limit)) [
      | inl e ↦ (
        ground (arith, back),
        ground (arith, back),
        λ j p q r. none_between j (ground (arith, back)) (omega arith),
        λ h. ground arith,
      )
      | inr e ↦ (ground arith, inl (ground arith), λ j p q r. ground arith, λ h. ground arith)
    ]
