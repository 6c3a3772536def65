-- ===== src/Access.antt =====
-- internal/access/policy.go: who may use a bot account, and who may approve. A Go map that a loop
-- ranges over comes as the list of its entries in the order of that run. The proofs are in the
-- children: Rules (the decisions) and Compiled (what construction guarantees).
pub mod Rules
pub mod Compiled
pub mod Examples
use go_tiny_claw.Base.{
  Bool, true, false, ◌&&◌, ◌||◌, not, List, [], ◌∷◌, map, Option, none, some, if◌then◌else◌, Text,
  codes, is_empty, trim_space, ◌≟◌, Eq, text_eq, ◌≡◌, ◌↔◌, arith, lookup, insert, is_some, Result,
  ok, err, ◌>>=◌, ◌>>◌, guard, contains, all, ≟_iff, text_lt, sort,
}
use go_tiny_claw.Channel.{InboundMessage, ChatType, direct, group}

-- `Mode` is a string: `unset` is the empty one, `invalid` any but the two that the code names.
pub data Mode : Type 0 where
  unset open_mode restricted : Mode
  invalid : Text → Mode

pub record Scope : Type 0 where
  pub channel : Text
  pub account_id : Text

pub scope_beq_iff :
    (a b : Scope) → (((a.channel ≟ b.channel) && (a.account_id ≟ b.account_id)) ≡ true) ↔ (a ≡ b)
scope_beq_iff a b = ground (arith, ≟_iff a.channel b.channel, ≟_iff a.account_id b.account_id)

instance abbrev pub scope_eq : Eq Scope
scope_eq = record {
  beq = λ a b. (a.channel ≟ b.channel) && (a.account_id ≟ b.account_id);
  beq_iff = scope_beq_iff;
}

pub record Policy : Type 0 where
  pub mode : Mode
  pub operators : List Text
  pub approvers : List Text
  pub group_chats : List Text

pub data Reason : Type 0 where
  allowed_reason policy_not_found missing_user_id user_not_allowed : Reason
  group_not_allowed not_approver invalid_chat_type : Reason

pub record Decision : Type 0 where
  pub allowed : Bool
  pub reason : Reason

-- The sets are lists of their members.
pub record CompiledPolicy : Type 0 where
  pub mode : Mode
  pub operators : List Text
  pub approvers : List Text
  pub group_chats : List Text

-- `none` is a nil `*Authorizer`.
abbrev pub Authorizer : Type 0
Authorizer = Option (List (Scope × CompiledPolicy))

pub data PolicyError : Type 0 where
  scope_incomplete duplicate_scope bad_mode : PolicyError
  empty_id : Text → PolicyError
  no_operators approver_not_operator : PolicyError

-- `idSet`, the loop over the IDs; `set` holds what was added so far.
unfoldable pub id_set : List Text → Text → List Text → Result PolicyError (List Text)
id_set [] field set = ok set
id_set (id ∷ ids) field set =
    let key = trim_space id in
    let rest = id_set ids field (if contains set key then set else key ∷ set) in
    if is_empty key then err (empty_id field) else rest

abbrev pub defaulted : Mode → Mode
defaulted unset = open_mode
defaulted m = m

abbrev pub is_open : Mode → Bool
is_open open_mode = true
is_open m = false

abbrev pub is_restricted : Mode → Bool
is_restricted restricted = true
is_restricted m = false

abbrev pub field_operators : Text
field_operators = codes "operators"

abbrev pub field_approvers : Text
field_approvers = codes "approvers"

abbrev pub field_group_chats : Text
field_group_chats = codes "group_chats"

-- `compile`
unfoldable pub compile : Policy → Result PolicyError CompiledPolicy
compile input = do
  let mode = defaulted input.mode
  guard (is_open mode || is_restricted mode) bad_mode
  operators ← id_set input.operators field_operators []
  approvers ← id_set input.approvers field_approvers []
  group_chats ← id_set input.group_chats field_group_chats []
  guard (not (is_restricted mode && is_empty operators)) no_operators
  guard (all (contains operators) approvers) approver_not_operator
  ok (record {
    mode = mode;
    operators = operators;
    approvers = approvers;
    group_chats = group_chats;
  })

unfoldable pub normalize_scope : Scope → Scope
normalize_scope s = record { channel = trim_space s.channel; account_id = trim_space s.account_id }

-- The loop of `NewAuthorizer`.
unfoldable pub add_policies :
    List (Scope × Policy)
    → List (Scope × CompiledPolicy)
    → Result PolicyError (List (Scope × CompiledPolicy))
add_policies [] acc = ok acc
add_policies ((scope, input) ∷ rest) acc =
    let key = normalize_scope scope in
    let next = compile input >>= λ p. add_policies rest (insert acc key p) in
    if is_empty key.channel || is_empty key.account_id
    then err scope_incomplete
    else if is_some (lookup acc key)
    then err duplicate_scope
    else next

-- `NewAuthorizer`
unfoldable pub new_authorizer : List (Scope × Policy) → Result PolicyError Authorizer
unfolding add_policies
new_authorizer policies = add_policies policies [] >>= λ m. ok (some m)

abbrev pub scope_of : InboundMessage → Scope
scope_of msg = record { channel = msg.route.channel; account_id = msg.route.account_id }

-- `Authorizer.policy`
unfoldable pub policy : Authorizer → InboundMessage → Option CompiledPolicy
policy none msg = none
policy (some policies) msg = lookup policies (normalize_scope (scope_of msg))

abbrev pub deny : Reason → Decision
deny r = record { allowed = false; reason = r }

abbrev pub allow : Decision
allow = record { allowed = true; reason = allowed_reason }

-- The `switch` on the chat type in `CanUse`.
unfoldable pub check_chat : CompiledPolicy → ChatType → Text → Decision
check_chat p direct chat = allow
check_chat p group chat =
    if contains p.group_chats (trim_space chat) then allow else deny group_not_allowed
check_chat p (ChatType.other t) chat = deny invalid_chat_type

unfoldable pub use_under : CompiledPolicy → InboundMessage → Decision
unfolding check_chat
use_under p msg =
    let id = trim_space msg.user_id in
    if is_open p.mode
    then allow
    else if is_empty id
    then deny missing_user_id
    else if not (contains p.operators id)
    then deny user_not_allowed
    else check_chat p msg.chat_type msg.route.chat_id

-- `CanUse`
unfoldable pub can_use : Authorizer → InboundMessage → Decision
can_use a msg = elim (policy a msg) [ none ↦ deny policy_not_found | some p ↦ use_under p msg ]

unfoldable pub approve_under : Option CompiledPolicy → InboundMessage → Decision
approve_under none msg = allow
approve_under (some p) msg =
    if is_restricted p.mode && not (contains p.approvers (trim_space msg.user_id))
    then deny not_approver
    else allow

-- `CanApprove`
unfoldable pub can_approve : Authorizer → InboundMessage → Decision
can_approve a msg =
    let d = can_use a msg in if not d.allowed then d else approve_under (policy a msg) msg

scope_less : Scope → Scope → Bool
scope_less a b =
    if not (a.channel ≟ b.channel)
    then text_lt a.channel b.channel
    else text_lt a.account_id b.account_id

open_entries : List (Scope × CompiledPolicy) → List Scope
open_entries [] = []
open_entries ((s, p) ∷ rest) = if is_open p.mode then s ∷ open_entries rest else open_entries rest

-- `OpenScopes`
unfoldable pub open_scopes : Authorizer → List Scope
unfolding scope_less open_entries
open_scopes none = []
open_scopes (some policies) = sort scope_less (open_entries policies)
