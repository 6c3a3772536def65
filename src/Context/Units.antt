-- ===== src/Context/Units.antt =====
-- internal/context/builder.go, `units`: a history is cut into turns. The code collects a message with
-- tool calls and its results in an inner loop and then places the unit; here the calls that still
-- wait for a result are kept from message to message, and each result joins the group of its unit.
pub mod Laws
use go_tiny_claw.Base.{
  ℕ, Bool, true, false, ◌&&◌, ◌||◌, not, List, [], ◌∷◌, ◌++◌, if◌then◌else◌, Text, text_eq,
  is_empty, ◌≟◌, any, Result, ok, err, ◌>>=◌,
}
use go_tiny_claw.Schema.{Message, Role, ToolCall, is_user, is_assistant}

pub data BuildError : Type 0 where
  tool_chain invalid_window system_exceeds request_exceeds latest_exceeds : BuildError

unfoldable pub no_calls : List ToolCall → Bool
no_calls [] = true
no_calls (c ∷ cs) = false

-- A set of IDs, as `pending`, is a list.
abbrev pub has : List Text → Text → Bool
has xs x = any (◌≟◌ x) xs

-- The IDs of the calls, added to those seen: each is not empty and new.
unfoldable pub call_ids : List Text → List ToolCall → Result BuildError (List Text)
call_ids seen [] = ok seen
call_ids seen (c ∷ cs) =
    let rest = call_ids (c.id ∷ seen) cs in
    if is_empty c.id || has seen c.id then err tool_chain else rest

unfoldable pub without : Text → List Text → List Text
without x [] = []
without x (y ∷ ys) = let rest = without x ys in if x ≟ y then rest else y ∷ rest

-- The first message of a unit, which gives the calls that wait for their results.
unfoldable pub open_unit : Message → Result BuildError (List Text)
unfolding no_calls call_ids
open_unit m =
    if not (is_empty m.tool_call_id)
    then err tool_chain
    else if no_calls m.tool_calls
    then ok []
    else if is_assistant m.role
    then call_ids [] m.tool_calls
    else err tool_chain

-- A result in a unit, which answers one of the calls.
unfoldable pub answer : List Text → Message → Result BuildError (List Text)
unfolding no_calls without
answer pending r =
    if has pending r.tool_call_id && is_user r.role && no_calls r.tool_calls
    then ok (without r.tool_call_id pending)
    else err tool_chain

-- The calls that wait after a message.
unfoldable pub wait_after : List Text → Message → Result BuildError (List Text)
unfolding open_unit answer
wait_after [] m = open_unit m
wait_after (p ∷ ps) m = answer (p ∷ ps) m

-- `out[len(out)-1] = append(out[len(out)-1], …)`
unfoldable pub join_last : List (List Message) → Message → List (List Message)
join_last [] m = (m ∷ []) ∷ []
join_last (g ∷ []) m = (g ++ m ∷ []) ∷ []
join_last (g ∷ h ∷ gs) m = g ∷ join_last (h ∷ gs) m

-- The groups with a message placed: a user message that opens a unit opens a group.
unfoldable pub place : List Text → List (List Message) → Message → List (List Message)
unfolding join_last
place [] gs m = if is_user m.role then gs ++ (m ∷ []) ∷ [] else join_last gs m
place (p ∷ ps) gs m = join_last gs m

unfoldable pub group_from :
    List Text → List (List Message) → List Message → Result BuildError (List (List Message))
unfolding wait_after place
group_from [] gs [] = ok gs
group_from (p ∷ ps) gs [] = err tool_chain
group_from pending gs (m ∷ ms) =
    wait_after pending m >>= λ next. group_from next (place pending gs m) ms

-- `units`
unfoldable pub units : List Message → Result BuildError (List (List Message))
unfolding group_from
units history = group_from [] [] history
