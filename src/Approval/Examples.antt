-- ===== src/Approval/Examples.antt =====
-- A request of session "s", task "1", and the replies to it.
use go_tiny_claw.Base.{
  ◌++◌, true, false, List, [], ◌∷◌, none, some, codes, ◌≡◌, refl, ok, lookup, insert, delete, ◌↔◌,
  text_eq, list_beq, trim_space,
}
use go_tiny_claw.Channel.{validate}
use go_tiny_claw.Approval.{
  Wake, Key, key_eq, ApprovalResult, Request, received, resolve, wait_begin, check_request, verdict,
  key_of,
}
use go_tiny_claw.Approval.System.{Event, ask, reply, run_approvals, step, finish, Replied}
use go_tiny_claw.Approval.Laws.{verdict_needs_reply, reply_delivered}
use go_tiny_claw.Approval.Invariant.{Inv, run_approvals-Inv}
use go_tiny_claw.Approval.Patterns.{Dangerous, is_dangerous_command_exactly}
use go_tiny_claw.Approval.Danger.{
  is_dangerous_command, line_has_go, spaces_then, word_then, starts_with, somewhere,
}

abbrev request : Request
request = record {
  session_id = codes "s";
  route = record {
    channel = codes "tg";
    account_id = codes "a";
    chat_id = codes "c";
    thread_id = [];
  };
  task_id = codes "1";
  tool_name = codes "bash";
  args = codes "sudo ls";
}

abbrev yes_result : ApprovalResult
yes_result = record { allowed = true; reason = codes "ok" }

abbrev no_result : ApprovalResult
no_result = record { allowed = false; reason = codes "no" }

abbrev waiting : List Event
waiting = ask none request true ∷ []

abbrev answered : List Event
answered = reply (key_of request) yes_result false ∷ waiting

returns : (finish (run_approvals answered) 0 (received none)).0 ≡ some (ok yes_result)
unfolding finish run_approvals step resolve wait_begin check_request validate trim_space lookup
    insert delete list_beq verdict
returns = refl

registered : lookup (run_approvals waiting).manager.pending_tasks (key_of request) ≡ some 0
unfolding run_approvals step wait_begin check_request validate trim_space lookup insert list_beq
registered = refl

verdict_needs_reply_example :
    (k : Key) × ((run_approvals answered).waiters 0 ≡ some k)
    × Replied answered 0 k yes_result
    × (◌≡◌ {A = Wake} (received none) (received none))
verdict_needs_reply_example = verdict_needs_reply answered 0 (received none) yes_result returns

run_approvals-Inv_example : Inv (run_approvals answered) answered
run_approvals-Inv_example = run_approvals-Inv answered

-- A second reply, which says no, comes before the call wakes up.
abbrev again : List Event
again = reply (key_of request) no_result false ∷ []

reply_delivered_example :
    (finish
      (run_approvals (again ++ reply (key_of request) yes_result false ∷ waiting))
      0
      (received none)).0
    ≡ some (ok yes_result)
reply_delivered_example =
    (reply_delivered again waiting (key_of request) 0 yes_result registered (tt, tt)).1

sudo_dangerous : is_dangerous_command (codes "bash") (codes "sudo ls") ≡ true
unfolding is_dangerous_command list_beq somewhere word_then spaces_then starts_with line_has_go
sudo_dangerous = refl

is_dangerous_command_exactly_example :
    (is_dangerous_command (codes "bash") (codes "sudo ls") ≡ true)
    ↔ ((codes "bash" ≡ codes "bash") × Dangerous (codes "sudo ls"))
is_dangerous_command_exactly_example = is_dangerous_command_exactly (codes "bash") (codes "sudo ls")
