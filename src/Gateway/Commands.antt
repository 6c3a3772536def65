-- ===== src/Gateway/Commands.antt =====
-- internal/gateway/command.go: replies to approval requests.
use go_tiny_claw.Base.{
  ℕ, Bool, true, false, ◌||◌, not, List, [], ◌∷◌, Option, none, some, if◌then◌else◌, Text, codes,
  ◌≟◌, text_eq, lookup, fields, ◌≡◌, ◌⊎◌, inl, inr, refl, arith, Bool-cases, ≟_iff,
}
use go_tiny_claw.Channel.{Route, InboundMessage, build_session_key}
use go_tiny_claw.Access.{Authorizer, can_approve}
use go_tiny_claw.Approval.{Key, ApprovalManager, resolve}
use go_tiny_claw.Gateway.Conversations.{Manager}

-- The reasons with which a human approves and rejects, in UTF-8.
abbrev approved_reason : Text
approved_reason =
    228 ∷ 186 ∷ 186 ∷ 231 ∷ 177 ∷ 187 ∷ 231 ∷ 174 ∷ 161 ∷ 231 ∷ 144 ∷ 134 ∷ 229 ∷ 145 ∷ 152 ∷ 229
    ∷ 183 ∷ 178 ∷ 230 ∷ 137 ∷ 185 ∷ 229 ∷ 135 ∷ 134 ∷ 230 ∷ 147 ∷ 141 ∷ 228 ∷ 189 ∷ 156 ∷ []

abbrev rejected_reason : Text
rejected_reason =
    228 ∷ 186 ∷ 186 ∷ 231 ∷ 177 ∷ 187 ∷ 231 ∷ 174 ∷ 161 ∷ 231 ∷ 144 ∷ 134 ∷ 229 ∷ 145 ∷ 152 ∷ 229
    ∷ 183 ∷ 178 ∷ 230 ∷ 139 ∷ 146 ∷ 231 ∷ 187 ∷ 157 ∷ 230 ∷ 147 ∷ 141 ∷ 228 ∷ 189 ∷ 156 ∷ []

abbrev pub reason_of : Bool → Text
reason_of true = approved_reason
reason_of false = rejected_reason

-- `commandRouter`: `approvals` is none for a nil manager; `sessions` holds the session IDs that the
-- workers have set.
pub record CommandRouter : Type 0 where
  pub approvals : Option ApprovalManager
  pub conversations : Manager
  pub sessions : ℕ → Option Text
  pub authorizer : Authorizer

abbrev session_or : Text → Option Text → Text
session_or key none = key
session_or key (some id) = id

abbrev session_at : (ℕ → Option Text) → Text → Option ℕ → Text
session_at sessions key none = key
session_at sessions key (some i) = session_or key (sessions i)

-- `ConversationManager.sessionID`
unfoldable pub session_id : Manager → (ℕ → Option Text) → Route → Text
session_id m sessions r =
    let key = build_session_key r in session_at sessions key (lookup m.conversations key)

abbrev resolve_in : Option ApprovalManager → Key → Bool → Bool → Option ApprovalManager
resolve_in none k allowed expired = none
resolve_in (some m) k allowed expired =
    some (resolve m k (record { allowed = allowed; reason = reason_of allowed }) expired).1

-- A command with its ID; one of another length is consumed without effect.
decide : CommandRouter → InboundMessage → Bool → Bool → List Text → Option ApprovalManager
decide r msg allowed expired (id ∷ []) =
    resolve_in r.approvals
      (record { session_id = session_id r.conversations r.sessions msg.route; task_id = id })
      allowed expired
decide r msg allowed expired _ = r.approvals

handle_fields : CommandRouter → InboundMessage → Bool → List Text → Bool × Option ApprovalManager
unfolding decide
handle_fields r msg expired [] = (false, r.approvals)
handle_fields r msg expired (word ∷ rest) =
    if not ((word ≟ codes "approve") || (word ≟ codes "reject"))
    then (false, r.approvals)
    else if not (can_approve r.authorizer msg).allowed
    then (true, r.approvals)
    else (true, decide r msg (word ≟ codes "approve") expired rest)

-- `handle`: whether the message was a command, and the requests afterwards. `expired` says that the
-- call that waits for the reply has lost its context.
unfoldable pub handle : CommandRouter → InboundMessage → Bool → Bool × Option ApprovalManager
unfolding handle_fields
handle r msg expired = handle_fields r msg expired (fields msg.text)

-- The effect that a reply to the sender's own session may have on the requests `m`.
abbrev pub Decides :
    CommandRouter
    → InboundMessage
    → Bool
    → ApprovalManager
    → List Text
    → Option ApprovalManager
    → Type 0
Decides r msg expired m fs after =
    ((can_approve r.authorizer msg).allowed ≡ true)
    × ((word : Text) × (id : Text) × (fs ≡ word ∷ id ∷ [])
        × ((word ≡ codes "approve") ⊎ (word ≡ codes "reject"))
        × (after
            ≡ some
                (resolve m
                  (record {
                    session_id = session_id r.conversations r.sessions msg.route;
                    task_id = id;
                  })
                  (record {
                    allowed = word ≟ codes "approve";
                    reason = reason_of (word ≟ codes "approve");
                  })
                  expired).1))

handle_fields-Decides :
    (r : CommandRouter) (msg : InboundMessage) (expired : Bool) (m : ApprovalManager)
    (fs : List Text)
    → r.approvals ≡ some m
    → ((handle_fields r msg expired fs).1 ≡ some m)
      ⊎ Decides r msg expired m fs (handle_fields r msg expired fs).1
unfolding handle_fields
handle_fields-Decides r msg expired m [] h = inl h
handle_fields-Decides r msg expired m (word ∷ []) h = inl (ground arith)
handle_fields-Decides r msg expired m (word ∷ id ∷ []) h =
    elim (Bool-cases (can_approve r.authorizer msg).allowed) [
      | inr e ↦ inl (ground arith)
      | inl e ↦ elim (Bool-cases ((word ≟ codes "approve") || (word ≟ codes "reject"))) [
        | inr f ↦ inl (ground arith)
        | inl f ↦ inr (
          e,
          (
            word,
            id,
            refl,
            ground (arith, ≟_iff word (codes "approve"), ≟_iff word (codes "reject")),
            ground arith,
          ),
        )
      ]
    ]
handle_fields-Decides r msg expired m (word ∷ id ∷ extra ∷ rest) h = inl (ground arith)

-- A message changes the approval requests only as a reply, `approve` or `reject` with one task ID,
-- of a sender who may approve; and then it resolves that task of the sender's own session.
pub handle_authorized :
    (r : CommandRouter) (msg : InboundMessage) (expired : Bool) (m : ApprovalManager)
    → r.approvals ≡ some m
    → ((handle r msg expired).1 ≡ some m)
      ⊎ Decides r msg expired m (fields msg.text) (handle r msg expired).1
unfolding handle
handle_authorized r msg expired m h = handle_fields-Decides r msg expired m (fields msg.text) h
