-- ===== src/Provider/Catalog/Laws.antt =====
-- internal/provider/model_registry.go: what `ReplaceProvider` leaves of a catalog.
use go_tiny_claw.Base.{
  insert-All, subst, Bool, List, [], ◌∷◌, Option, none, some, if◌then◌else◌, Text, text_eq, All, ok,
  ◌≟◌, ≟_iff, ≟_refl, lookup, insert, lookup-insert, is_some, ◌≡◌, inl, inr, refl, sym, ap, ◌∙◌,
  arith, Bool-cases, Option-cases, Result-cases,
}
use go_tiny_claw.Context.Session.{ModelInfo}
use go_tiny_claw.Provider.Refs.{split_ref-ref, split_ref, parse_model_ref, validate_provider_id}
use go_tiny_claw.Provider.Catalog.{
  Catalog, key_of, filled, register_model, drop_provider, put_all, register_all, replace_provider,
}

-- Each model stands under a reference with its own provider and ID.
abbrev pub Keyed : Catalog → Type 0
Keyed ms = All (λ e. split_ref e.0 ≡ some (e.1.provider_id, e.1.id)) ms

-- A model of another provider.
abbrev pub of_others : Text → Option ModelInfo → Option ModelInfo
of_others id none = none
of_others id (some m) = if m.provider_id ≟ id then none else some m

lookup-put_all :
    (ms next : Catalog) (k : Text)
    → lookup (put_all ms next) k ≡ (if is_some (lookup next k) then lookup next k else lookup ms k)
unfolding put_all lookup
lookup-put_all ms [] k = refl
lookup-put_all ms ((j, m) ∷ next) k =
    ground (arith, lookup-insert (put_all ms next) j k m, lookup-put_all ms next k)

-- No model of the provider is left.
lookup-dropped :
    (id k x : Text) (ms : Catalog)
    → Keyed ms
    → split_ref k ≡ some (id, x)
    → lookup (drop_provider id ms) k ≡ none
unfolding drop_provider lookup
lookup-dropped id k x [] h at = refl
lookup-dropped id k x ((j, m) ∷ ms) (h, hs) at =
    let rest = lookup-dropped id k x ms hs at in
    elim (Bool-cases (j ≟ k)) [
      | inr e ↦ ground arith
      | inl e ↦
          let same : j ≡ k = ground (arith, ≟_iff j k) in
          let split : ◌≡◌ {A = Option (Text × Text)} (some (m.provider_id, m.id)) (some (id, x)) =
            sym h ∙ ap split_ref same ∙ at in
          let mine : m.provider_id ≡ id = ground arith in ground (arith, ≟_iff m.provider_id id)
    ]

lookup-drop_provider :
    (id k : Text) (ms : Catalog)
    → Keyed ms
    → lookup (drop_provider id ms) k ≡ of_others id (lookup ms k)
unfolding drop_provider lookup
lookup-drop_provider id k [] h = refl
lookup-drop_provider id k ((j, m) ∷ ms) (h, hs) =
    let rest = lookup-drop_provider id k ms hs in
    elim (Bool-cases (j ≟ k)) [
      | inr e ↦ ground (arith, Bool-cases (m.provider_id ≟ id))
      | inl e ↦ elim (Bool-cases (m.provider_id ≟ id)) [
        | inr f ↦ ground arith
        | inl f ↦
            let same : k ≡ j = ground (arith, ≟_iff j k) in
            let mine : m.provider_id ≡ id = ground (arith, ≟_iff m.provider_id id) in
            let at : split_ref k ≡ some (id, m.id) =
              ap split_ref same ∙ h ∙ ap (λ p. some (p, m.id)) mine in
            let gone = lookup-dropped id k m.id ms hs at in ground arith
      ]
    ]

-- A registration that succeeds puts the model under its reference, where nothing was.
register_model-adds :
    (bad : Text → Bool) (ms n : Catalog) (m : ModelInfo) (k : Text)
    → register_model bad ms m ≡ ok n
    → (lookup ms (key_of m) ≡ none)
      × (lookup n k ≡ (if key_of m ≟ k then some (filled m) else lookup ms k))
unfolding register_model
register_model-adds bad ms n m k h = elim (Result-cases (parse_model_ref bad (key_of m))) [
  | inr (e, f) ↦ ground arith
  | inl (r, f) ↦ elim (Option-cases (lookup ms (key_of m))) [
    | inr (x, g) ↦ ground arith
    | inl g ↦
        let made : n ≡ insert ms (key_of m) (filled m) = ground arith in
        (g, ap (λ x. lookup x k) made ∙ lookup-insert ms (key_of m) k (filled m))
  ]
]

register_all-keeps :
    (bad : Text → Bool) (id k : Text) (ms n : Catalog) (models : List ModelInfo) (x : ModelInfo)
    → register_all bad id ms models ≡ ok n
    → lookup ms k ≡ some x
    → lookup n k ≡ some x
unfolding register_all
register_all-keeps bad id k ms n [] x h at = ground arith
register_all-keeps bad id k ms n (m ∷ models) x h at =
    elim (Result-cases (register_model bad ms m)) [
      | inr (e, f) ↦ ground arith
      | inl (next, f) ↦
          let (new, found) = register_model-adds bad ms next m k f in
          let kept : lookup next k ≡ some x = ground (arith, ≟_iff (key_of m) k) in
          register_all-keeps bad id k next n models x (ground arith) kept
    ]

register_all-finds :
    (bad : Text → Bool) (id : Text) (ms n : Catalog) (models : List ModelInfo)
    → register_all bad id ms models ≡ ok n
    → All (λ m. lookup n (key_of m) ≡ some (filled m)) models
unfolding register_all
register_all-finds bad id ms n [] h = tt
register_all-finds bad id ms n (m ∷ models) h = elim (Result-cases (register_model bad ms m)) [
  | inr (e, f) ↦ ground arith
  | inl (next, f) ↦
      let (new, found) = register_model-adds bad ms next m (key_of m) f in
      let here : lookup next (key_of m) ≡ some (filled m) = ground (arith, ≟_refl (key_of m)) in
      let rest : register_all bad id next models ≡ ok n = ground arith in
      (
        register_all-keeps bad id (key_of m) next n models (filled m) rest here,
        register_all-finds bad id next n models rest,
      )
]

-- The models of one provider, each under its own reference.
abbrev pub Owned : Text → Catalog → Type 0
Owned id ms =
    All (λ e. (e.1.provider_id ≡ id) × (split_ref e.0 ≡ some (e.1.provider_id, e.1.id))) ms

register_model-Owned :
    (bad : Text → Bool) (id : Text) (ms n : Catalog) (m : ModelInfo)
    → Owned id ms
    → validate_provider_id id ≡ ok tt
    → m.provider_id ≡ id
    → register_model bad ms m ≡ ok n
    → Owned id n
unfolding register_model
register_model-Owned bad id ms n m owned valid mine h =
    elim (Result-cases (parse_model_ref bad (key_of m))) [
      | inr (e, f) ↦ ground arith
      | inl (r, f) ↦ elim (Option-cases (lookup ms (key_of m))) [
        | inr (x, g) ↦ ground arith
        | inl g ↦
            let made : insert ms (key_of m) (filled m) ≡ n = ground arith in
            let at = split_ref-ref m.provider_id m.id (ap validate_provider_id mine ∙ valid) in
            subst (Owned id) made (
              insert-All
                (λ e. (e.1.provider_id ≡ id) × (split_ref e.0 ≡ some (e.1.provider_id, e.1.id))) ms
                (key_of m) (filled m) owned (mine, at))
      ]
    ]

register_all-Owned :
    (bad : Text → Bool) (id : Text) (ms n : Catalog) (models : List ModelInfo)
    → Owned id ms
    → validate_provider_id id ≡ ok tt
    → register_all bad id ms models ≡ ok n
    → Owned id n
unfolding register_all
register_all-Owned bad id ms n [] owned valid h =
    let same : ms ≡ n = ground arith in subst (Owned id) same owned
register_all-Owned bad id ms n (m ∷ models) owned valid h = elim (Bool-cases (m.provider_id ≟ id)) [
  | inr e ↦ ground arith
  | inl e ↦ elim (Result-cases (register_model bad ms m)) [
    | inr (x, f) ↦ ground arith
    | inl (next, f) ↦
        let mine : m.provider_id ≡ id = ground (arith, ≟_iff m.provider_id id) in
        register_all-Owned bad id next n models
          (register_model-Owned bad id ms next m owned valid mine f) valid (ground arith)
  ]
]

-- Replacing the models of a provider takes effect at once or not at all, and touches no other provider:
-- if it succeeds, there is a catalog of new models, all of this provider and each under its own
-- reference, in which each of the models given is found. What is found under a reference afterwards is
-- the new model if there is one, and otherwise what was found before unless that is a model of the
-- provider.
pub replace_provider_exactly :
    (bad : Text → Bool) (ms n : Catalog) (id k : Text) (models : List ModelInfo)
    → Keyed ms
    → replace_provider bad ms id models ≡ ok n
    → (next : Catalog) × (register_all bad id [] models ≡ ok next)
      × Owned id next
      × All (λ m. lookup next (key_of m) ≡ some (filled m)) models
      × (lookup n k
          ≡ (if is_some (lookup next k) then lookup next k else of_others id (lookup ms k)))
unfolding replace_provider
replace_provider_exactly bad ms n id k models h r = elim (Result-cases (validate_provider_id id)) [
  | inr (e, f) ↦ ground arith
  | inl (u, f) ↦ elim (Result-cases (register_all bad id [] models)) [
    | inr (e, g) ↦ ground arith
    | inl (next, g) ↦
        let made : n ≡ put_all (drop_provider id ms) next = ground arith in
        (
          next,
          g,
          register_all-Owned bad id [] next models tt (ground arith) g,
          register_all-finds bad id [] next models g,
          ap (λ x. lookup x k) made
              ∙ lookup-put_all (drop_provider id ms) next k
              ∙ ap (λ o. if is_some (lookup next k) then lookup next k else o)
                  (lookup-drop_provider id k ms h),
        )
  ]
]
