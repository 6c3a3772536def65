-- ===== src/SessionStore/File/Examples.antt =====
-- A session file with a codec of two events: "AA" for the creation and "BBB" for a message.
use go_tiny_claw.Base.{
  ℕ, suc, ◌<◌, false, [], ◌∷◌, Option, none, some, if◌then◌else◌, Text, text_eq, codes, ok,
  background, list_beq, take, ◌≡◌, ◌≢◌, refl, arith, subst, ◌≟◌,
}
use go_tiny_claw.Schema.{Message, user}
use go_tiny_claw.SessionStore.{
  Snapshot, Event, EventType, message_added, session_created, apply, apply_type, apply_all,
  creation, empty_snapshot, new_event, stamp,
}
use go_tiny_claw.SessionStore.Log.{Codec, encode}
use go_tiny_claw.SessionStore.Log.Laws.{Entry, Survive, written}
use go_tiny_claw.SessionStore.Log.Held.{Holds, Holds-replay}
use go_tiny_claw.SessionStore.Log.Replayed.{Crashed, replay_crash}
use go_tiny_claw.SessionStore.File.{
  FileState, Disk, FileIo, StoreIo, recover_failed_commit, recover_opened, recover_done,
}
use go_tiny_claw.SessionStore.File.Appending.{
  append_file, commit_bytes, append_loaded, open_and_commit, append_after, written_content,
  commit_errors, commit_done, failed_commit, after_rollback,
}
use go_tiny_claw.SessionStore.File.Reading.{
  ensure_loaded, recovered_first, after_recovery, load_file,
}
use go_tiny_claw.SessionStore.File.Lifecycle.{
  new_file_state, created_state, CreateIo, create_file, load_session,
}
use go_tiny_claw.SessionStore.File.Invariant.{Ready, Ready-Inv, Ready-View}
use go_tiny_claw.SessionStore.File.Laws.{Appended, append_file_atomic}
use go_tiny_claw.SessionStore.File.Created.{
  Created, create_file_whole, Fetched, load_session_agrees,
}

abbrev hello : Message
hello = record {
  role = user;
  content = codes "hi";
  tool_calls = [];
  tool_call_id = [];
  usage = none;
}

abbrev session : Snapshot
session = record empty_snapshot {
  metadata = record empty_snapshot.metadata { id = codes "s"; created_at = 5 };
}

abbrev created : Event
created = record (new_event session_created 5) {
  metadata = some session.metadata;
  usage = some session.usage;
}

abbrev said : Event
said = record (new_event message_added 9) { message = some hello }

abbrev code_of : EventType → Option Text
code_of session_created = some (codes "AA")
code_of message_added = some (codes "BBB")
code_of t = none

abbrev codec : Codec
unfolding list_beq
codec = record {
  encode_event = λ e. code_of e.type;
  decode_event =
      λ t. if t ≟ codes "AA" then some created else if t ≟ codes "BBB" then some said else none;
}

created_torn : (k : ℕ) → k < 2 → codec.decode_event (take k (codes "AA")) ≡ none
unfolding codec list_beq
created_torn ℕ.zero h = refl
created_torn (suc ℕ.zero) h = refl
created_torn (suc (suc k)) h = ground arith

said_torn : (k : ℕ) → k < 3 → codec.decode_event (take k (codes "BBB")) ≡ none
unfolding codec list_beq
said_torn ℕ.zero h = refl
said_torn (suc ℕ.zero) h = refl
said_torn (suc (suc ℕ.zero)) h = refl
said_torn (suc (suc (suc k))) h = ground arith

created_survives : Survive codec (created ∷ [])
unfolding codec list_beq
created_survives = (
  λ l h.
      subst (λ x. Entry codec (x, created)) (ground arith)
        (((refl, (refl, tt)), refl), created_torn, refl),
  tt,
)

said_survives : Survive codec (said ∷ [])
unfolding codec list_beq
said_survives = (
  λ l h.
      subst (λ x. Entry codec (x, said)) (ground arith)
        (((refl, (refl, (refl, tt))), refl), said_torn, refl),
  tt,
)

named : session.metadata.id ≢ []
named e = cc

abbrev stored : Snapshot
stored = stamp session 5

abbrev spoken : Snapshot
spoken = stamp (record stored { history = hello ∷ [] }) 9

created_built : apply_all empty_snapshot (created ∷ []) ≡ ok stored
unfolding apply_all apply apply_type
created_built = refl

said_built : apply_all stored (said ∷ []) ≡ ok spoken
unfolding apply_all apply apply_type
said_built = refl

created_text : encode codec (created ∷ []) ≡ some (codes "AA\n")
unfolding encode codec
created_text = refl

said_text : encode codec (said ∷ []) ≡ some (codes "BBB\n")
unfolding encode codec
said_text = refl

replay_crash_example : Crashed codec stored (codes "AA\n") (said ∷ []) (codes "BBB\n") 2
replay_crash_example =
    replay_crash codec (created ∷ []) (said ∷ []) (codes "AA\n") (codes "BBB\n") stored spoken 2
      created_survives said_survives created_text said_text created_built said_built named

-- Every call works, and the file has the time 1 after it; a write leaves `n` bytes.
abbrev works : ℕ → FileIo
works n = record {
  open_error = none;
  chmod_error = none;
  truncate_error = none;
  seek_error = none;
  write_error = none;
  bytes_written = n;
  sync_error = none;
  stat_error = none;
  close_error = none;
  new_stamp = 1;
}

-- The write and the rollback fail, after two bytes.
abbrev breaks : StoreIo
breaks = record {
  lock_error = none;
  unlock_error = none;
  lstat_error = none;
  read_error = none;
  recovery = works 0;
  commit = record (works 2) { write_error = some 28 };
  rollback = record (works 0) { truncate_error = some 5 };
}

abbrev state : FileState
state = created_state new_file_state stored 3 0

abbrev file : Disk
file = record { content = some (codes "AA\n"); stamp = 0 }

held : Holds codec (codes "AA\n") false stored
unfolding list_beq written
held = (
  (codes "AA", created) ∷ [],
  none,
  (((refl, (refl, tt)), refl), tt),
  tt,
  refl,
  created_built,
  refl,
  named,
)

ready : Ready codec (codes "s") state file
ready = (
  refl,
  codes "AA\n",
  refl,
  (omega arith, held, refl),
  Holds-replay codec (codes "AA\n") false stored held,
  refl,
)

append_file_atomic_example :
    Appended codec
      (codes "s")
      state
      stored
      (said ∷ [])
      (append_file codec state file breaks background (codes "s") (said ∷ []))
append_file_atomic_example =
    append_file_atomic codec state file breaks background (codes "s") (said ∷ []) stored
      (Ready-Inv codec (codes "s") state file ready) (Ready-View codec (codes "s") state file ready)
      said_survives

load_session_agrees_example :
    Fetched codec (codes "s") stored (load_session codec state file breaks background (codes "s"))
load_session_agrees_example =
    load_session_agrees codec state file breaks background (codes "s") stored
      (Ready-Inv codec (codes "s") state file ready) (Ready-View codec (codes "s") state file ready)

-- Two bytes of the message are in the file, to be rolled back.
breaks_test :
    (append_file codec state file breaks background (codes "s") (said ∷ [])).1.1.content
    ≡ some (codes "AA\nBB")
unfolding append_file ensure_loaded recovered_first after_recovery load_file append_loaded
    append_after open_and_commit commit_bytes written_content commit_errors commit_done
    failed_commit after_rollback recover_failed_commit recover_opened recover_done apply_all apply
    apply_type encode codec list_beq
breaks_test = refl

-- With calls that work, the message is in the file, and the call succeeds.
works_test :
    append_file codec state file
      (record breaks { commit = works 4 })
      background
      (codes "s")
      (said ∷ [])
    ≡ (
      ok tt,
      (created_state state spoken 7 1, record { content = some (codes "AA\nBBB\n"); stamp = 1 }),
    )
unfolding append_file ensure_loaded recovered_first after_recovery load_file append_loaded
    append_after open_and_commit commit_bytes written_content commit_errors commit_done
    failed_commit after_rollback recover_failed_commit recover_opened recover_done apply_all apply
    apply_type encode codec list_beq
works_test = refl

abbrev create_works : CreateIo
create_works = record {
  temp_error = none;
  chmod_error = none;
  write_error = none;
  bytes_written = 3;
  sync_error = none;
  close_error = none;
  link_error = none;
  directory_error = none;
  new_stamp = 1;
}

create_file_whole_example :
    Created codec
      (record { content = none; stamp = 0 })
      session
      (create_file codec new_file_state
        (record { content = none; stamp = 0 })
        breaks
        create_works
        background
        session
        (λ i. 7))
unfolding creation
create_file_whole_example =
    create_file_whole codec new_file_state (record { content = none; stamp = 0 }) breaks
      create_works background session (λ i. 7) created_survives
