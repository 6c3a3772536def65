-- ===== src/Access/Compiled.antt =====
-- What `NewAuthorizer` guarantees of the policies that it compiles.
use go_tiny_claw.Base.{
  is_empty, ap, ◌∙◌, sym, All, true, false, List, [], ◌∷◌, none, some, Text, trim_space, ◌≡◌, refl,
  ◌≢◌, ◌⊎◌, inl, inr, arith, contains, text_eq, lookup, insert, lookup-insert, ok, all, ≟_iff,
  Result-cases, Bool-cases, subst,
}
use go_tiny_claw.Channel.{InboundMessage}
use go_tiny_claw.Access.{
  scope_of, open_mode, restricted, CompiledPolicy, Authorizer, Policy, Scope, scope_eq, policy,
  compile, id_set, add_policies, new_authorizer, normalize_scope, field_operators, field_approvers,
  field_group_chats,
}

-- What the loader promises of a policy.
pub record IsSound (p : CompiledPolicy) : Type 0 where
  pub known_mode : (p.mode ≡ open_mode) ⊎ (p.mode ≡ restricted)
  pub has_operators : p.mode ≡ restricted → p.operators ≢ []
  pub approvers_within :
      (id : Text) → contains p.approvers id ≡ true → contains p.operators id ≡ true
  pub no_empty_operator : contains p.operators [] ≡ false
  pub no_empty_approver : contains p.approvers [] ≡ false
  pub no_empty_group : contains p.group_chats [] ≡ false

all-contains :
    (xs ys : List Text) (id : Text)
    → all (contains ys) xs ≡ true
    → contains xs id ≡ true
    → contains ys id ≡ true
all-contains [] ys id h k = ground arith
all-contains (x ∷ xs) ys id h k = ground (arith, ≟_iff x id, all-contains xs ys id)

id_set-no_empty :
    (ids : List Text) (field : Text) (set out : List Text)
    → contains set [] ≡ false
    → id_set ids field set ≡ ok out
    → contains out [] ≡ false
unfolding id_set
id_set-no_empty [] field set out h e = ground arith
id_set-no_empty (id ∷ ids) field set out h e = elim (Bool-cases (contains set (trim_space id))) [
  | inl c ↦ ground (arith, id_set-no_empty ids field set out)
  | inr c ↦
      ground (arith, ≟_iff (trim_space id) [], id_set-no_empty ids field (trim_space id ∷ set) out)
]

compile_parts :
    (input : Policy) (p : CompiledPolicy)
    → compile input ≡ ok p
    → ((p.mode ≡ open_mode) ⊎ (p.mode ≡ restricted))
      × (p.mode ≡ restricted → p.operators ≢ [])
      × (all (contains p.operators) p.approvers ≡ true)
      × (id_set input.operators field_operators [] ≡ ok p.operators)
      × (id_set input.approvers field_approvers [] ≡ ok p.approvers)
      × (id_set input.group_chats field_group_chats [] ≡ ok p.group_chats)
unfolding compile
compile_parts input p e = ground arith

compile-IsSound : (input : Policy) (p : CompiledPolicy) → compile input ≡ ok p → IsSound p
compile-IsSound input p e =
    let (known, manned, within, ops, apps, groups) = compile_parts input p e in
    record {
      known_mode = known;
      has_operators = manned;
      approvers_within = λ id. all-contains p.approvers p.operators id within;
      no_empty_operator = id_set-no_empty input.operators field_operators [] p.operators refl ops;
      no_empty_approver = id_set-no_empty input.approvers field_approvers [] p.approvers refl apps;
      no_empty_group =
          id_set-no_empty input.group_chats field_group_chats [] p.group_chats refl groups;
    }

-- One round of the loop that did not fail.
add_policies-cons :
    (s : Scope) (input : Policy) (ps : List (Scope × Policy))
    (acc m : List (Scope × CompiledPolicy))
    → add_policies ((s, input) ∷ ps) acc ≡ ok m
    → (p : CompiledPolicy) × (compile input ≡ ok p)
      × (lookup acc (normalize_scope s) ≡ none)
      × (add_policies ps (insert acc (normalize_scope s) p) ≡ ok m)
unfolding add_policies
add_policies-cons s input ps acc m e = elim (Result-cases (compile input)) [
  | inl (p, f) ↦ (p, f, ground arith, ground arith)
  | inr (x, f) ↦ ground arith
]

-- Every entry of the map is sound.
abbrev EachSound : List (Scope × CompiledPolicy) → Type 0
EachSound m = (s : Scope) (p : CompiledPolicy) → lookup m s ≡ some p → IsSound p

EachSound-nil : EachSound []
unfolding lookup
EachSound-nil s p e = ground arith

insert-EachSound :
    (acc : List (Scope × CompiledPolicy)) (s : Scope) (p : CompiledPolicy)
    → EachSound acc
    → IsSound p
    → EachSound (insert acc s p)
insert-EachSound acc s p h k t q e = elim (Bool-cases (scope_eq.beq s t)) [
  | inl f ↦ let same : p ≡ q = ground (arith, lookup-insert acc s t p) in subst IsSound same k
  | inr f ↦ h t q (ground (arith, lookup-insert acc s t p))
]

add_policies-EachSound :
    (ps : List (Scope × Policy)) (acc m : List (Scope × CompiledPolicy))
    → EachSound acc
    → add_policies ps acc ≡ ok m
    → EachSound m
unfolding add_policies
add_policies-EachSound [] acc m h e = let same : acc ≡ m = ground arith in subst EachSound same h
add_policies-EachSound ((s, input) ∷ ps) acc m h e =
    let (p, f, _, g) = add_policies-cons s input ps acc m e in
    add_policies-EachSound ps (insert acc (normalize_scope s) p) m
      (insert-EachSound acc (normalize_scope s) p h (compile-IsSound input p f)) g

new_authorizer-map :
    (ps : List (Scope × Policy)) (a : Authorizer)
    → new_authorizer ps ≡ ok a
    → (m : List (Scope × CompiledPolicy)) × (a ≡ some m) × (add_policies ps [] ≡ ok m)
unfolding new_authorizer
new_authorizer-map ps a e = elim (Result-cases (add_policies ps [])) [
  | inl (m, f) ↦ (m, ground arith, f)
  | inr (x, f) ↦ ground arith
]

-- Every policy that a constructed authorizer applies is sound: its mode is open or restricted, a
-- restricted one has an operator, every approver is an operator, and no set has the empty ID.
pub new_authorizer-IsSound :
    (ps : List (Scope × Policy)) (a : Authorizer) (msg : InboundMessage) (p : CompiledPolicy)
    → new_authorizer ps ≡ ok a
    → policy a msg ≡ some p
    → IsSound p
unfolding policy
new_authorizer-IsSound ps a msg p e f =
    let (m, am, loaded) = new_authorizer-map ps a e in
    add_policies-EachSound ps [] m EachSound-nil loaded (normalize_scope (scope_of msg)) p
      (ground arith)

add_policies-keeps :
    (ps : List (Scope × Policy)) (acc m : List (Scope × CompiledPolicy)) (s : Scope)
    (p : CompiledPolicy)
    → lookup acc s ≡ some p
    → add_policies ps acc ≡ ok m
    → lookup m s ≡ some p
unfolding add_policies
add_policies-keeps [] acc m s p h e = ground arith
add_policies-keeps ((t, input) ∷ ps) acc m s p h e =
    let (q, f, fresh, g) = add_policies-cons t input ps acc m e in
    add_policies-keeps ps (insert acc (normalize_scope t) q) m s p
      (ground (arith, lookup-insert acc (normalize_scope t) s q, ≟_iff (normalize_scope t) s)) g

-- The policy of an entry is in force under the entry's trimmed scope.
abbrev pub InForce : Authorizer → Scope × Policy → Type 0
InForce a (s, input) =
    (m : List (Scope × CompiledPolicy)) × (p : CompiledPolicy) × (a ≡ some m)
    × (compile input ≡ ok p)
    × (lookup m (normalize_scope s) ≡ some p)

add_policies-InForce :
    (ps : List (Scope × Policy)) (acc m : List (Scope × CompiledPolicy))
    → add_policies ps acc ≡ ok m
    → All (InForce (some m)) ps
add_policies-InForce [] acc m e = tt
add_policies-InForce ((s, input) ∷ ps) acc m e =
    let (p, f, fresh, g) = add_policies-cons s input ps acc m e in
    let acc' = insert acc (normalize_scope s) p in
    let stored : lookup acc' (normalize_scope s) ≡ some p = ground (
      arith,
      lookup-insert acc (normalize_scope s) (normalize_scope s) p,
      ≟_iff (normalize_scope s) (normalize_scope s),
    ) in
    (
      (m, p, refl, f, add_policies-keeps ps acc' m (normalize_scope s) p stored g),
      add_policies-InForce ps acc' m g,
    )

-- The trimmed scopes of the entries are complete.
abbrev pub IsComplete : Scope × Policy → Type 0
IsComplete (s, input) =
    (is_empty (normalize_scope s).channel ≡ false)
    × (is_empty (normalize_scope s).account_id ≡ false)

-- No two entries have the same trimmed scope.
abbrev pub Distinct : List (Scope × Policy) → Type 0
Distinct [] = Unit
Distinct ((s, input) ∷ ps) = All (λ e. normalize_scope e.0 ≢ normalize_scope s) ps × Distinct ps

add_policies-fresh :
    (ps : List (Scope × Policy)) (acc m : List (Scope × CompiledPolicy)) (s : Scope)
    (p : CompiledPolicy)
    → lookup acc s ≡ some p
    → add_policies ps acc ≡ ok m
    → All (λ e. normalize_scope e.0 ≢ s) ps
add_policies-fresh [] acc m s p h e = tt
add_policies-fresh ((t, input) ∷ ps) acc m s p h e =
    let (q, f, fresh, g) = add_policies-cons t input ps acc m e in
    (
      λ same. ground (arith, sym fresh ∙ ap (lookup acc) same ∙ h),
      add_policies-fresh ps (insert acc (normalize_scope t) q) m s p
          (ground (arith, lookup-insert acc (normalize_scope t) s q, ≟_iff (normalize_scope t) s))
          g,
    )

add_policies-Distinct :
    (ps : List (Scope × Policy)) (acc m : List (Scope × CompiledPolicy))
    → add_policies ps acc ≡ ok m
    → All IsComplete ps × Distinct ps
unfolding add_policies
add_policies-Distinct [] acc m e = (tt, tt)
add_policies-Distinct ((s, input) ∷ ps) acc m e =
    let (p, f, fresh, g) = add_policies-cons s input ps acc m e in
    let acc' = insert acc (normalize_scope s) p in
    let stored : lookup acc' (normalize_scope s) ≡ some p = ground (
      arith,
      lookup-insert acc (normalize_scope s) (normalize_scope s) p,
      ≟_iff (normalize_scope s) (normalize_scope s),
    ) in
    let (complete, distinct) = add_policies-Distinct ps acc' m g in
    (
      ((ground arith, ground arith), complete),
      (add_policies-fresh ps acc' m (normalize_scope s) p stored g, distinct),
    )

-- Construction succeeds only for entries whose trimmed scopes are complete and all different, and then
-- takes every one: each policy is compiled and found under its own trimmed scope.
pub new_authorizer-InForce :
    (ps : List (Scope × Policy)) (a : Authorizer)
    → new_authorizer ps ≡ ok a
    → All IsComplete ps × Distinct ps × All (InForce a) ps
new_authorizer-InForce ps a e =
    let (m, am, loaded) = new_authorizer-map ps a e in
    let (complete, distinct) = add_policies-Distinct ps [] m loaded in
    (
      complete,
      distinct,
      subst (λ b. All (InForce b) ps) (sym am) (add_policies-InForce ps [] m loaded),
    )
