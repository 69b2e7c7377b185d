-- ===== src/Agent/Moves.antt =====
-- The state machine of runs and messages, and that the updates follow it.
use tsuz_api_jcc.Base.{
  String, Bool, true, false, none, some, List, [], ◌∷◌, ◌++◌, contains, all, ◌==◌, string_eq, ◌≡◌,
  refl, arith, Bool-cases, inl, inr, ◌⊎◌,
}
use tsuz_api_jcc.Conversations.Rows.{
  RunStatus, MessageStatus, Message, Run, Db, run_status_eq, message_status_eq,
}
use tsuz_api_jcc.Conversations.Repository.{
  run_by_id, message_by_id, update_run_status, update_message_status, RunPatch, MessagePatch,
  patch_run, patch_message, set_run_cancel_requested,
}
use tsuz_api_jcc.Conversations.Updates.{
  run_by_id-update_run_status, message_by_id-update_message_status, run_matches, message_matches,
  find-update_where, find-append,
}

-- The moves of a run while the process lives.
abbrev pub run_moves : RunStatus → RunStatus → Bool
run_moves RunStatus.queued RunStatus.running = true
run_moves RunStatus.queued RunStatus.cancelling = true
run_moves RunStatus.queued RunStatus.cancelled = true
run_moves RunStatus.queued RunStatus.failed = true
run_moves RunStatus.running RunStatus.running = true
run_moves RunStatus.running RunStatus.completed = true
run_moves RunStatus.running RunStatus.failed = true
run_moves RunStatus.running RunStatus.cancelling = true
run_moves RunStatus.running RunStatus.cancelled = true
run_moves RunStatus.cancelling RunStatus.cancelling = true
run_moves RunStatus.cancelling RunStatus.cancelled = true
run_moves RunStatus.cancelling RunStatus.failed = true
run_moves _ _ = false

-- The moves of a message.
abbrev pub message_moves : MessageStatus → MessageStatus → Bool
message_moves MessageStatus.queued MessageStatus.running = true
message_moves MessageStatus.queued MessageStatus.cancelling = true
message_moves MessageStatus.queued MessageStatus.cancelled = true
message_moves MessageStatus.queued MessageStatus.failed = true
message_moves MessageStatus.running MessageStatus.completed = true
message_moves MessageStatus.running MessageStatus.failed = true
message_moves MessageStatus.running MessageStatus.cancelling = true
message_moves MessageStatus.running MessageStatus.cancelled = true
message_moves MessageStatus.streaming MessageStatus.completed = true
message_moves MessageStatus.streaming MessageStatus.failed = true
message_moves MessageStatus.streaming MessageStatus.cancelling = true
message_moves MessageStatus.streaming MessageStatus.cancelled = true
message_moves MessageStatus.cancelling MessageStatus.cancelling = true
message_moves MessageStatus.cancelling MessageStatus.cancelled = true
message_moves MessageStatus.cancelling MessageStatus.failed = true
message_moves _ _ = false

-- The row is untouched, or its status has moved along an edge and it is the same run or message.
abbrev pub RunFollows : Run → Run → Type 0
RunFollows r r' =
    (r' ≡ r)
    ⊎ ((run_moves r.status r'.status ≡ true) × (r'.id ≡ r.id) × (r'.message_id ≡ r.message_id))

abbrev pub MessageFollows : Message → Message → Type 0
MessageFollows m m' =
    (m' ≡ m)
    ⊎ ((message_moves m.status m'.status ≡ true)
        × (m'.sequence ≡ m.sequence)
        × (m'.content ≡ m.content))

abbrev pub RunsFollow : Db → Db → Type 0
RunsFollow s t =
    (i : String) (r : Run)
    → run_by_id i s ≡ some r
    → (r' : Run) × (run_by_id i t ≡ some r') × RunFollows r r'

abbrev pub MessagesFollow : Db → Db → Type 0
MessagesFollow s t =
    (i : String) (m : Message)
    → message_by_id i s ≡ some m
    → (m' : Message) × (message_by_id i t ≡ some m') × MessageFollows m m'

contains-run_moves :
    (from : List RunStatus) (st to : RunStatus)
    → contains from st ≡ true
    → all (λ x. run_moves x to) from ≡ true
    → run_moves st to ≡ true
contains-run_moves [] st to c a = cc
contains-run_moves (x ∷ from) st to c a = ground (arith, contains-run_moves from st to)

contains-message_moves :
    (from : List MessageStatus) (st to : MessageStatus)
    → contains from st ≡ true
    → all (λ x. message_moves x to) from ≡ true
    → message_moves st to ≡ true
contains-message_moves [] st to c a = cc
contains-message_moves (x ∷ from) st to c a = ground (arith, contains-message_moves from st to)

abbrev live : List RunStatus
live = RunStatus.queued ∷ RunStatus.running ∷ RunStatus.cancelling ∷ []

-- An update from statuses with an edge to its target follows the machine.
pub update_run_status-RunsFollow :
    (j : String) (from : List RunStatus) (v : RunPatch) (db : Db)
    → all (λ x. run_moves x v.status) from ≡ true
    → RunsFollow db (update_run_status j from v db).0
unfolding patch_run
update_run_status-RunsFollow j from v db a i r h =
    let e = run_by_id-update_run_status i j from v db r h in
    elim (Bool-cases (run_matches j from r)) [
      | inl t ↦
          let m = contains-run_moves from r.status v.status (ground arith) a in
          (patch_run v r, (rw t at e), inr (m, refl, refl))
      | inr t ↦ (r, (rw t at e), inl refl)
    ]

pub set_run_cancel_requested-RunsFollow :
    (j : String) (db : Db) → RunsFollow db (set_run_cancel_requested j db).0
unfolding set_run_cancel_requested
set_run_cancel_requested-RunsFollow j db i r h =
    let f = λ (x : Run). record x { status = RunStatus.cancelling; cancel_requested = true } in
    let e = find-update_where (λ x. x.id == i) (run_matches j live) f db.runs r (λ x. refl) h in
    elim (Bool-cases (run_matches j live r)) [
      | inl t ↦
          let m = contains-run_moves live r.status RunStatus.cancelling (ground arith) refl in
          (f r, (rw t at e), inr (m, refl, refl))
      | inr t ↦ (r, (rw t at e), inl refl)
    ]

pub update_message_status-MessagesFollow :
    (j : String) (from : List MessageStatus) (v : MessagePatch) (db : Db)
    → all (λ x. message_moves x v.status) from ≡ true
    → v.content ≡ none
    → MessagesFollow db (update_message_status j from v db).0
unfolding patch_message
update_message_status-MessagesFollow j from v db a n i m h =
    let e = message_by_id-update_message_status i j from v db m h in
    elim (Bool-cases (message_matches j from m)) [
      | inl t ↦
          let k = contains-message_moves from m.status v.status (ground arith) a in
          (patch_message v m, (rw t at e), inr (k, refl, rw n))
      | inr t ↦ (m, (rw t at e), inl refl)
    ]

pub RunsFollow-same : (s t : Db) → t.runs ≡ s.runs → RunsFollow s t
RunsFollow-same s t e i r h = (r, rw e h, inl refl)

pub MessagesFollow-same : (s t : Db) → t.messages ≡ s.messages → MessagesFollow s t
MessagesFollow-same s t e i m h = (m, rw e h, inl refl)

pub RunsFollow-append : (s t : Db) (rs : List Run) → t.runs ≡ s.runs ++ rs → RunsFollow s t
RunsFollow-append s t rs e i r h = (r, rw e (find-append _ s.runs rs r h), inl refl)

pub MessagesFollow-append :
    (s t : Db) (ms : List Message) → t.messages ≡ s.messages ++ ms → MessagesFollow s t
MessagesFollow-append s t ms e i m h = (m, rw e (find-append _ s.messages ms m h), inl refl)
