-- ===== src/Lib.antt =====
-- go-tiny-claw: a gateway that lets people in chats run a coding agent. The development models the
-- decisions of its packages (internal/...); what networks, processes and system calls do is a parameter.
--
-- How the parts work together. A message of a chat platform comes to the gateway, which admits it
-- under one lock: the route must be valid, the sender allowed (access), the message new (dedup), and
-- it is either a reply to an approval request (commands) or goes to the queue of its route's
-- conversation. Each conversation has one worker, which runs the agent on the conversation's session.
-- A session appends to its store before it changes; the context builder picks what the model is given
-- of the history; the engine calls the model, runs its tool calls through the tool registry, and
-- reports through the channel's reporter. A dangerous call waits for a human's reply.
--
-- The files, and the code that they model:
--   Base           the shared library: lists over native numbers, equality, maps, text as bytes, runes
--   Channel        internal/channel: Route, BuildSessionKey, messages; Registry is registry.go
--   Access         internal/access/policy.go: NewAuthorizer, CanUse, CanApprove, OpenScopes
--   Approval       internal/approval/manager.go: Wait and Resolve, one function for each part that the
--                  mutex makes atomic; System orders these parts in any way; Danger is policy.go and
--                  service.go, and Patterns describes what its expressions match
--   Gateway        internal/gateway: Conversations (manager.go, lifecycle.go) with Events, the steps
--                  of all workers in any order; Dedup (dedup.go); Commands (command.go); Admission
--                  (gateway.go); Sessions (session.go); Supervisor (supervisor.go)
--   Schema         internal/schema/message.go
--   Auth           internal/auth: Credential (credential.go), Policies and Manager (manager.go)
--   Provider       internal/provider: Refs (model.go), Catalog (model_registry.go)
--   SessionStore   internal/sessionstore: store.go, the events and their application; Memory is
--                  MemoryStore; Log is the encoding and the replay of file.go, and File the state of
--                  one session in files (file.go, lock.go) with Reading, Appending and Lifecycle
--   Context        internal/context: Session (session.go), Service (service.go), Budget (estimator.go,
--                  policy.go), Units, Truncate and Builder (builder.go)
--   Tools          internal/tools: Registry (registry.go), EditFile (edit_file.go)
--   Engine         internal/engine: Reminder (reminder.go), Generate (context.go), Loop (runTurn and
--                  Run of loop.go), Subagent (RunSub of loop.go)
--   Delivery       internal/delivery: policy.go and reporter.go
--
-- How code becomes a definition. A struct is a record and a method a function of the same name, in
-- snake case, that takes the state and gives the state after it beside its result. An error is a
-- value of Result. A string is its list of bytes, a map an association list, a pointer a number where
-- identity matters. A context (context.Context) is asked several times in one call, so it is a
-- function from the number of the look to its error. What goroutines do is a list of events, one for
-- each section that a lock makes atomic; a theorem about every list is one about every schedule.
-- Counts that the code never makes negative are natural numbers; where a subtraction of the code may
-- fall below 0 (the input budget), 0 stands for it, which the code treats alike.
--
-- A file is its bytes and a stamp for its identity and time. Each system call may fail: its error, the
-- bytes that a write got to the file, and the new stamp are arguments, so a theorem for all of them is
-- one about every failure. JSON is a parameter; of the events that a theorem on files speaks of it is
-- assumed that each is written as one line, which gives the event back, and no beginning of it any.
--
-- Loops are recursions on lists, but for three. The halving in Truncate runs on fuel, one turn more than
-- the content has runes, and a theorem shows that this is enough; the loop of a subagent has the
-- code's own bound of ten turns. The loop of the engine has no bound in the code, and runs on fuel: a
-- run that is cancelled before its turn n + 1 ends with fuel for n + 1 turns.
--
-- Not modelled: platform adapters, the construction of providers and their HTTP clients, the OAuth
-- exchange, executors, configuration, prompt texts, traces and the commands, which read and write the
-- world; of the file store, its listing, its directory and the lock of the operating system.
--
-- The session service is modelled over the store in memory, and the store in files on its own: that its
-- Create may fail after it has linked the file, and its Release may fail, is not seen by the service.
pub mod Base
pub mod Auth
pub mod Provider
pub mod Channel
pub mod Access
pub mod Approval
pub mod Gateway
pub mod Schema
pub mod SessionStore
pub mod Context
pub mod Tools
pub mod Engine
pub mod Delivery
