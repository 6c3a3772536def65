-- ===== src/Provider/Examples.antt =====
-- References to models, one of which has a slash in its ID, and a catalog of two providers.
use go_tiny_claw.Base.{
  Bool, ◌==◌, true, false, [], ◌∷◌, none, some, if◌then◌else◌, Text, text_eq, codes, ok, All,
  lookup, insert, is_some, list_beq, ◌≡◌, ◌↔◌, refl,
}
use go_tiny_claw.Schema.{billing_unset, billing_api}
use go_tiny_claw.Context.Session.{ModelInfo}
use go_tiny_claw.Provider.Refs.{
  ModelRef, ref_string, split_ref, validate_provider_id, is_model_id, parse_model_ref,
  parse_model_ref_exactly,
}
use go_tiny_claw.Provider.Catalog.{
  Catalog, key_of, filled, drop_provider, put_all, register_model, register_all, replace_provider,
}
use go_tiny_claw.Provider.Catalog.Laws.{Keyed, Owned, of_others, replace_provider_exactly}

abbrev reference : ModelRef
reference = record { provider_id = codes "zai"; model_id = codes "org/glm" }

-- Whether a text starts with a space.
abbrev starts_blank : Text → Bool
starts_blank [] = false
starts_blank (b ∷ bs) = b == b' '

parse_model_ref_exactly_example :
    (parse_model_ref starts_blank (codes "zai/org/glm") ≡ ok reference) ↔ (
      (codes "zai/org/glm" ≡ ref_string reference)
      × (validate_provider_id reference.provider_id ≡ ok tt)
      × (is_model_id starts_blank reference.model_id ≡ true))
parse_model_ref_exactly_example =
    parse_model_ref_exactly starts_blank (codes "zai/org/glm") reference

abbrev glm : ModelInfo
glm = record {
  provider_id = codes "zai";
  id = codes "glm";
  name = [];
  billing_mode = billing_unset;
  pricing = none;
}

abbrev gpt : ModelInfo
gpt = record glm { provider_id = codes "openai"; id = codes "gpt"; billing_mode = billing_api }

abbrev old : Catalog
old = (codes "zai/old", record glm { id = codes "old" }) ∷ (codes "openai/gpt", gpt) ∷ []

abbrev renewed : Catalog
renewed = (codes "openai/gpt", gpt) ∷ (codes "zai/glm", filled glm) ∷ []

old-Keyed : Keyed old
unfolding split_ref
old-Keyed = (refl, (refl, tt))

replaced : replace_provider starts_blank old (codes "zai") (glm ∷ []) ≡ ok renewed
unfolding replace_provider register_all register_model drop_provider put_all parse_model_ref
    split_ref validate_provider_id ref_string lookup insert list_beq
replaced = refl

replace_provider_exactly_example :
    (next : Catalog) × (register_all starts_blank (codes "zai") [] (glm ∷ []) ≡ ok next)
    × Owned (codes "zai") next
    × All (λ m. lookup next (key_of m) ≡ some (filled m)) (glm ∷ [])
    × (lookup renewed (codes "zai/old") ≡ (
        if is_some (lookup next (codes "zai/old"))
        then lookup next (codes "zai/old")
        else of_others (codes "zai") (lookup old (codes "zai/old"))))
replace_provider_exactly_example =
    replace_provider_exactly starts_blank old renewed (codes "zai") (codes "zai/old") (glm ∷ [])
      old-Keyed replaced
