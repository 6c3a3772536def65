-- ===== src/Channel/Registry.antt =====
-- `channel.Registry`: adapters by their IDs. An adapter is any value with an ID; `none` is nil.
use go_tiny_claw.Base.{
  List, [], ◌∷◌, map, Option, none, some, if◌then◌else◌, Text, is_blank, ◌≟◌, text_eq, ◌≡◌, arith,
  lookup, insert, is_some, Result, ok, err, lookup-insert, text_lt, sort,
}

pub data RegisterError : Type 0 where
  id_required : RegisterError
  already_registered : Text → RegisterError

module _ {A : Type 0} (id : A → Text) where
  register_new : List (Text × A) → A → Result RegisterError (List (Text × A))
  register_new r a =
      if is_blank (id a)
      then err id_required
      else if is_some (lookup r (id a))
      then err (already_registered (id a))
      else ok (insert r (id a) a)

  -- `Registry.Register`
  unfoldable pub register : List (Text × A) → Option A → Result RegisterError (List (Text × A))
  unfolding register_new
  register r none = err id_required
  register r (some a) = register_new r a

  -- A registration only adds: the new adapter is found under its ID, no adapter is replaced, and the
  -- others are found as before.
  pub register_adds :
      (r : List (Text × A)) (a : A) {s : List (Text × A)} (k : Text)
      → register r (some a) ≡ ok s
      → (lookup r (id a) ≡ none) × (lookup s k ≡ (if id a ≟ k then some a else lookup r k))
  unfolding register
  register_adds r a k h = ground (arith, lookup-insert r (id a) k a)

-- `Registry.Get`
unfoldable pub get {ℓ} : {A : Type ℓ} → List (Text × A) → Text → Option A
get r id = lookup r id

abbrev ids {ℓ} : {A : Type ℓ} → List (Text × A) → List Text
ids = map (λ e. e.0)

abbrev adapters_of {ℓ} : {A : Type ℓ} → List (Text × A) → List Text → List A
adapters_of r [] = []
adapters_of r (k ∷ ks) = elim (lookup r k) [
  | none ↦ adapters_of r ks
  | some a ↦ a ∷ adapters_of r ks
]

-- `Registry.All`: the adapters in the order of their IDs.
unfoldable pub all_adapters {ℓ} : {A : Type ℓ} → List (Text × A) → List A
all_adapters r = adapters_of r (sort text_lt (ids r))
