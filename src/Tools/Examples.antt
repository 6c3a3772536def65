-- ===== src/Tools/Examples.antt =====
-- A tool behind a middleware, and an edit of two lines.
use go_tiny_claw.Base.{
  true, [], ◌∷◌, none, Text, codes, text_eq, ok, lookup, is_some, All, ◌≡◌, ◌↔◌, refl,
}
use go_tiny_claw.Schema.{ToolCall}
use go_tiny_claw.Tools.Registry.{Tool, ToolRegistry, Wording, execute, execute_guarded}
use go_tiny_claw.Tools.EditFile.{fuzzy_replace, count, count_from, has_prefix}
use go_tiny_claw.Tools.EditFile.Laws.{Replaced, fuzzy_replace_edits_once}

abbrev echo : Tool
echo arguments = (arguments, none)

abbrev registry : ToolRegistry
registry = record { tools = (codes "echo", echo) ∷ []; middlewares = (λ call. (true, [])) ∷ [] }

abbrev wording : Wording
wording = record {
  unknown_tool = λ name. name;
  intercepted = λ reason. reason;
  failed = λ name e. e;
}

abbrev call : ToolCall
call = record { id = codes "1"; name = codes "echo"; arguments = codes "{}" }

execute_guarded_example : ((execute wording registry call).1 ≡ true) ↔ (
    (is_some (lookup registry.tools (codes "echo")) ≡ true)
    × All (λ mw. (mw call).0 ≡ true) registry.middlewares)
execute_guarded_example = execute_guarded wording registry call

once : count (codes "ab") (codes "b") ≡ 1
unfolding count count_from has_prefix
once = refl

fuzzy_replace_edits_once_example :
    (r : Text) × (fuzzy_replace (codes "ab") (codes "b") (codes "c") ≡ ok r)
    × Replaced (codes "ab") (codes "b") (codes "c") r
fuzzy_replace_edits_once_example =
    (fuzzy_replace_edits_once (codes "ab") (codes "b") (codes "c")).2 once
