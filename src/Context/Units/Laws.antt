-- ===== src/Context/Units/Laws.antt =====
-- internal/context/builder.go: the laws of the groups that `units` makes.
use go_tiny_claw.Base.{
  List, [], ◌∷◌, ◌++◌, Text, Result, ok, ◌>>=◌, flatten, All, append_assoc, append-nil, ◌≡◌, refl,
  arith, subst, Bool-cases, Result-cases, inl, inr,
}
use go_tiny_claw.Schema.{Message, is_user}
use go_tiny_claw.Context.Units.{BuildError, wait_after, place, join_last, group_from, units}

-- The calls that wait after the messages.
unfoldable pub waits : List Text → List Message → Result BuildError (List Text)
waits pending [] = ok pending
waits pending (m ∷ ms) = wait_after pending m >>= λ next. waits next ms

-- Messages that a provider takes: each answer is to a call that waits, and in the end none does.
abbrev pub Legal : List Message → Type 0
Legal ms = waits [] ms ≡ ok []

pub waits-append :
    (pending : List Text) (ms ns : List Message)
    → waits pending (ms ++ ns) ≡ (waits pending ms >>= λ next. waits next ns)
unfolding waits
waits-append pending [] ns = refl
waits-append pending (m ∷ ms) ns = elim (Result-cases (wait_after pending m)) [
  | inl (next, e) ↦ rw e (waits-append next ms ns)
  | inr (x, e) ↦ rw e
]

pub Legal-append : (ms ns : List Message) → Legal ms → Legal ns → Legal (ms ++ ns)
Legal-append ms ns h k = ground (arith, waits-append [] ms ns)

-- Groups that are legal, but for calls that wait at the end of the last.
unfoldable pub Grouped : List (List Message) → List Text → Type 0
Grouped [] p = p ≡ []
Grouped (g ∷ []) p = waits [] g ≡ ok p
Grouped (g ∷ h ∷ gs) p = Legal g × Grouped (h ∷ gs) p

flatten-join_last :
    (gs : List (List Message)) (m : Message) → flatten (join_last gs m) ≡ flatten gs ++ m ∷ []
unfolding join_last flatten
flatten-join_last [] m = refl
flatten-join_last (g ∷ []) m = ground (arith, append-nil g, append-nil (g ++ m ∷ []))
flatten-join_last (g ∷ h ∷ gs) m =
    ground (arith, flatten-join_last (h ∷ gs) m, append_assoc g (flatten (h ∷ gs)) (m ∷ []))

flatten-snoc :
    (gs : List (List Message)) (g : List Message) → flatten (gs ++ g ∷ []) ≡ flatten gs ++ g
unfolding flatten
flatten-snoc [] g = append-nil g
flatten-snoc (h ∷ gs) g = ground (arith, flatten-snoc gs g, append_assoc h (flatten gs) g)

flatten-place :
    (pending : List Text) (gs : List (List Message)) (m : Message)
    → flatten (place pending gs m) ≡ flatten gs ++ m ∷ []
unfolding place
flatten-place [] gs m = ground (arith, flatten-join_last gs m, flatten-snoc gs (m ∷ []))
flatten-place (p ∷ ps) gs m = flatten-join_last gs m

join_last-Grouped :
    (pending next : List Text) (gs : List (List Message)) (m : Message)
    → wait_after pending m ≡ ok next
    → Grouped gs pending
    → Grouped (join_last gs m) next
unfolding join_last Grouped waits
join_last-Grouped pending next [] m h k = ground arith
join_last-Grouped pending next (g ∷ []) m h k = ground (arith, waits-append [] g (m ∷ []))
join_last-Grouped pending next (g ∷ h ∷ []) m e k =
    (k.0, join_last-Grouped pending next (h ∷ []) m e k.1)
join_last-Grouped pending next (g ∷ h ∷ i ∷ gs) m e k =
    (k.0, join_last-Grouped pending next (h ∷ i ∷ gs) m e k.1)

snoc-Grouped :
    (next : List Text) (gs : List (List Message)) (m : Message)
    → wait_after [] m ≡ ok next
    → Grouped gs []
    → Grouped (gs ++ (m ∷ []) ∷ []) next
unfolding Grouped waits
snoc-Grouped next [] m h k = ground arith
snoc-Grouped next (g ∷ []) m h k = (k, ground arith)
snoc-Grouped next (g ∷ h ∷ gs) m e k = (k.0, snoc-Grouped next (h ∷ gs) m e k.1)

place-Grouped :
    (pending next : List Text) (gs : List (List Message)) (m : Message)
    → wait_after pending m ≡ ok next
    → Grouped gs pending
    → Grouped (place pending gs m) next
unfolding place
place-Grouped (p ∷ ps) next gs m h k = join_last-Grouped (p ∷ ps) next gs m h k
place-Grouped [] next gs m h k = elim (Bool-cases (is_user m.role)) [
  | inl e ↦ rw e (snoc-Grouped next gs m h k)
  | inr e ↦ rw e (join_last-Grouped [] next gs m h k)
]

Grouped-All : (gs : List (List Message)) → Grouped gs [] → All Legal gs
unfolding Grouped
Grouped-All [] h = tt
Grouped-All (g ∷ []) h = (h, tt)
Grouped-All (g ∷ h ∷ gs) k = (k.0, Grouped-All (h ∷ gs) k.1)

-- One message of `group_from_lem`, which holds for the messages after it.
group_next :
    (pending : List Text) (gs out : List (List Message)) (m : Message) (ms : List Message)
    → ((next : List Text) (hs : List (List Message))
        → group_from next hs ms ≡ ok out
        → Grouped hs next
        → (flatten out ≡ flatten hs ++ ms) × All Legal out)
    → (wait_after pending m >>= λ next. group_from next (place pending gs m) ms) ≡ ok out
    → Grouped gs pending
    → (flatten out ≡ flatten gs ++ m ∷ ms) × All Legal out
group_next pending gs out m ms ih h k = elim (Result-cases (wait_after pending m)) [
  | inr (x, e) ↦ ground arith
  | inl (next, e) ↦
      let rest =
        ih next (place pending gs m) (ground arith) (place-Grouped pending next gs m e k) in
      (
        ground (arith, rest.0, flatten-place pending gs m, append_assoc (flatten gs) (m ∷ []) ms),
        rest.1,
      )
]

group_from_lem :
    (pending : List Text) (gs out : List (List Message)) (ms : List Message)
    → group_from pending gs ms ≡ ok out
    → Grouped gs pending
    → (flatten out ≡ flatten gs ++ ms) × All Legal out
unfolding group_from
group_from_lem [] gs out [] h k = (
  ground (arith, append-nil (flatten gs)),
  Grouped-All out (subst (λ x. Grouped x []) (ground arith) k),
)
group_from_lem (p ∷ ps) gs out [] h k = ground arith
group_from_lem [] gs out (m ∷ ms) h k =
    group_next [] gs out m ms (λ next hs. group_from_lem next hs out ms) h k
group_from_lem (p ∷ ps) gs out (m ∷ ms) h k =
    group_next (p ∷ ps) gs out m ms (λ next hs. group_from_lem next hs out ms) h k

-- The groups that a history is cut into are the history again when they are joined, and no tool
-- chain is cut: the messages of each group are legal on their own.
pub units_whole :
    (history : List Message) (groups : List (List Message))
    → units history ≡ ok groups
    → (flatten groups ≡ history) × All Legal groups
unfolding units Grouped flatten
units_whole history groups h = group_from_lem [] [] groups history h refl
