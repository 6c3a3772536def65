-- ===== src/Provider/Catalog.antt =====
-- internal/provider/model_registry.go: the models that are known, each under its reference. Values are
-- not shared, so the copies that the code makes are the values themselves. The lock makes each call one
-- step.
pub mod Laws
use go_tiny_claw.Base.{
  ℕ, Bool, true, false, not, ◌&&◌, ◌||◌, List, [], ◌∷◌, ◌++◌, Option, none, some, if◌then◌else◌,
  Text, text_eq, is_empty, Result, ok, err, ◌>>=◌, ◌≟◌, ≟_iff, lookup, insert, lookup-insert,
  is_some, ◌≡◌, ◌≢◌, inl, inr, refl, sym, ap, arith, Bool-cases, Option-cases, Result-cases,
}
use go_tiny_claw.Schema.{BillingMode, billing_api, billing_subscription, billing_unknown}
use go_tiny_claw.Context.Session.{ModelInfo, mode_or_unknown}
use go_tiny_claw.Provider.Refs.{
  RefError, ModelRef, ref_string, validate_provider_id, parse_model_ref,
}

pub data CatalogError : Type 0 where
  bad_reference : RefError → CatalogError
  duplicate_model bad_billing other_provider : CatalogError

abbrev pub Catalog : Type 0
Catalog = List (Text × ModelInfo)

-- `ModelInfo.Ref` and its text.
abbrev pub key_of : ModelInfo → Text
key_of m = ref_string (record { provider_id = m.provider_id; model_id = m.id })

abbrev known_billing : BillingMode → Bool
known_billing billing_api = true
known_billing billing_subscription = true
known_billing billing_unknown = true
known_billing mode = false

-- The model as it is kept.
abbrev pub filled : ModelInfo → ModelInfo
filled m = record m {
  billing_mode = mode_or_unknown m.billing_mode;
  name = if is_empty m.name then m.id else m.name;
}

-- What `ReplaceProvider` takes away, and what it puts in.
unfoldable pub drop_provider : Text → Catalog → Catalog
drop_provider id [] = []
drop_provider id ((k, m) ∷ ms) =
    let rest = drop_provider id ms in if m.provider_id ≟ id then rest else (k, m) ∷ rest

unfoldable pub put_all : Catalog → Catalog → Catalog
put_all ms [] = ms
put_all ms ((k, m) ∷ next) = insert (put_all ms next) k m

module _ (has_space_or_control : Text → Bool) where
  -- `ModelRegistry.Register`
  unfoldable pub register_model : Catalog → ModelInfo → Result CatalogError Catalog
  register_model ms m = elim (parse_model_ref has_space_or_control (key_of m)) [
    | err e ↦ err (bad_reference e)
    | ok r ↦
        if is_some (lookup ms (key_of m))
        then err duplicate_model
        else if not (known_billing (mode_or_unknown m.billing_mode))
        then err bad_billing
        else ok (insert ms (key_of m) (filled m))
  ]

  -- The loop of `ReplaceProvider`.
  unfoldable pub register_all : Text → Catalog → List ModelInfo → Result CatalogError Catalog
  unfolding register_model
  register_all id ms [] = ok ms
  register_all id ms (m ∷ models) =
      if not (m.provider_id ≟ id)
      then err other_provider
      else register_model ms m >>= λ next. register_all id next models

  -- `ModelRegistry.ReplaceProvider`
  unfoldable pub replace_provider : Catalog → Text → List ModelInfo → Result CatalogError Catalog
  unfolding register_all drop_provider put_all validate_provider_id
  replace_provider ms id models = elim (validate_provider_id id) [
    | err e ↦ err (bad_reference e)
    | ok u ↦ register_all id [] models >>= λ next. ok (put_all (drop_provider id ms) next)
  ]
