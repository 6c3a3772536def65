-- ===== src/Provider/Refs.antt =====
-- internal/provider/model.go: the reference "provider/model" to a model. The pattern of provider IDs is
-- that of the credentials. What `unicode.IsSpace` and `unicode.IsControl` say of the runes of a text is
-- a parameter, whether a text has such a rune.
use go_tiny_claw.Base.{
  Bool, true, not, ◌&&◌, ◌||◌, [], ◌∷◌, ◌++◌, Option, none, some, if◌then◌else◌, Text, text_eq,
  is_empty, Result, ok, err, ◌==◌, ==_iff, all, ◌≡◌, ◌↔◌, inl, inr, refl, ap, ◌∙◌, arith,
  Bool-cases, Option-cases,
}
use go_tiny_claw.Auth.Policies.{is_id_start, is_provider_id}

pub data RefError : Type 0 where
  not_a_reference bad_provider_id bad_model_id : RefError

-- `ValidateProviderID`
unfoldable pub validate_provider_id : Text → Result RefError (Unit {0})
validate_provider_id id = if is_provider_id id then ok tt else err bad_provider_id

pub record ModelRef : Type 0 where
  pub provider_id : Text
  pub model_id : Text

-- `ModelRef.String`
unfoldable pub ref_string : ModelRef → Text
ref_string r = r.provider_id ++ b'/' ∷ r.model_id

-- `strings.SplitN` at the first slash, if there is one.
unfoldable pub split_ref : Text → Option (Text × Text)
split_ref [] = none
split_ref (b ∷ bs) =
    let rest = split_ref bs in
    if b == b'/' then some ([], bs) else elim rest [ none ↦ none | some r ↦ some (b ∷ r.0, r.1) ]

module _ (has_space_or_control : Text → Bool) where
  -- The test of the model's ID.
  abbrev pub is_model_id : Text → Bool
  is_model_id id = not (is_empty id) && not (has_space_or_control id)

  -- `ParseModelRef`
  unfoldable pub parse_model_ref : Text → Result RefError ModelRef
  unfolding split_ref validate_provider_id
  parse_model_ref value = elim (split_ref value) [
    | none ↦ err not_a_reference
    | some (p, m) ↦ elim (validate_provider_id p) [
      | err e ↦ err e
      | ok u ↦
          if is_model_id m then ok (record { provider_id = p; model_id = m }) else err bad_model_id
    ]
  ]

-- A text without a slash.
abbrev no_slash : Text → Bool
no_slash s = all (λ b. not (b == b'/')) s

split_ref-join : (p m : Text) → no_slash p ≡ true → split_ref (p ++ b'/' ∷ m) ≡ some (p, m)
unfolding split_ref
split_ref-join [] m h = refl
split_ref-join (b ∷ p) m h =
    let rest : split_ref (p ++ b'/' ∷ m) ≡ some (p, m) = split_ref-join p m (ground arith) in
    ground arith

split_ref-parts : (v p m : Text) → split_ref v ≡ some (p, m) → v ≡ p ++ b'/' ∷ m
unfolding split_ref
split_ref-parts [] p m h = ground arith
split_ref-parts (b ∷ v) p m h = elim (Bool-cases (b == b'/')) [
  | inl e ↦
      let found : (p ≡ []) × (m ≡ v) = (ground arith, ground arith) in
      let at : b ≡ b'/' = ground (arith, ==_iff b b'/') in rw (found.0, found.1, at)
  | inr e ↦ elim (Option-cases (split_ref v)) [
    | inl f ↦ ground arith
    | inr ((q, n), f) ↦
        let found : (p ≡ b ∷ q) × (m ≡ n) = (ground arith, ground arith) in
        rw (found.0, found.1, split_ref-parts v q n f)
  ]
]

later-no_slash :
    (s : Text) → all (λ x. is_id_start x || (x == b'_') || (x == b'-')) s ≡ true → no_slash s ≡ true
later-no_slash [] h = refl
later-no_slash (b ∷ s) h =
    let rest : no_slash s ≡ true = later-no_slash s (ground arith) in ground (arith, ==_iff b b'/')

provider_id-no_slash : (p : Text) → is_provider_id p ≡ true → no_slash p ≡ true
provider_id-no_slash [] h = refl
provider_id-no_slash (b ∷ p) h =
    let rest : no_slash p ≡ true = later-no_slash p (ground arith) in ground (arith, ==_iff b b'/')

-- A reference with a valid provider is cut where it was joined.
pub split_ref-ref :
    (p m : Text)
    → validate_provider_id p ≡ ok tt
    → split_ref (ref_string (record { provider_id = p; model_id = m })) ≡ some (p, m)
unfolding ref_string validate_provider_id
split_ref-ref p m h =
    split_ref-join p m (provider_id-no_slash p (ground (arith, Bool-cases (is_provider_id p))))

-- Parsing a reference is the inverse of printing one: a text parses to a reference exactly if it is
-- what the reference prints and both of its IDs are valid.
pub parse_model_ref_exactly :
    (bad : Text → Bool) (v : Text) (r : ModelRef)
    → (parse_model_ref bad v ≡ ok r) ↔ (
        (v ≡ ref_string r)
        × (validate_provider_id r.provider_id ≡ ok tt)
        × (is_model_id bad r.model_id ≡ true))
unfolding parse_model_ref ref_string validate_provider_id
parse_model_ref_exactly bad v r = (
  λ h. elim (Option-cases (split_ref v)) [
    | inl f ↦ ground arith
    | inr ((p, m), f) ↦
        let parts = split_ref-parts v p m f in
        let fits : (is_provider_id p ≡ true) × (is_model_id bad m ≡ true) = (
          ground (arith, Bool-cases (is_provider_id p)),
          ground (arith, Bool-cases (is_provider_id p), Bool-cases (is_model_id bad m)),
        ) in
        let same : r ≡ record { provider_id = p; model_id = m } = ground arith in
        rw (same, parts, fits.0, fits.1) (refl, refl, refl)
  ],
  λ h.
      let fits : is_provider_id r.provider_id ≡ true =
        ground (arith, Bool-cases (is_provider_id r.provider_id)) in
      let cut : split_ref v ≡ some (r.provider_id, r.model_id) =
        ap split_ref h.0
        ∙ split_ref-join r.provider_id r.model_id (provider_id-no_slash r.provider_id fits) in
      ground arith,
)
