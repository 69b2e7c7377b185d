-- ===== src/Agent/Follows.antt =====
-- Every transaction of the service, the orchestrator and the runtime follows the state machine.
use tsuz_api_jcc.Base.{
  ℕ, String, Bool, true, false, Option, none, some, List, [], ◌∷◌, ◌++◌, contains, all, string_eq,
  if◌then◌else◌, ◌≡◌, refl, arith, Bool-cases, inl, inr, ◌⊎◌,
}
use tsuz_api_jcc.Base.Result.{ok, >>=-eq-ok, Result-cases}
use tsuz_api_jcc.Conversations.Rows.{
  RunStatus, MessageStatus, StrategyMode, Conversation, Message, Run, Db, run_status_eq,
  message_status_eq,
}
use tsuz_api_jcc.Conversations.Repository.{
  run_by_id, message_by_id, conversation_by_id, update_run_status, update_message_status, RunPatch,
  MessagePatch, patch_run, patch_message, set_run_cancel_requested, run_patch, message_patch,
  insert_message, user_message, next_sequence, create_assistant_message,
}
use tsuz_api_jcc.Conversations.Updates.{find-append}
use tsuz_api_jcc.Conversations.Repository
use tsuz_api_jcc.Conversations.Service
use tsuz_api_jcc.Conversations.Service.{
  Request, get_message_for_user, or_not_found, cancel_writes, request_cancel, insert_or_resolve,
  ensure_run,
}
use tsuz_api_jcc.Agent.Lifecycle.{
  LlmUsage, Pricing, Clock, Ending, mark_running, save_streaming, complete, complete_rows, finish,
  cancel, fail, mark_cancelled, cancel_queued_message, supersede, live_runs, live_messages,
}
use tsuz_api_jcc.Jcc.Store.{Store, SnapshotRow}
use tsuz_api_jcc.Agent.Snapshots.{
  SnapshotContext, context_of, snapshot_of, snapshot_patch, pin_snapshot, resolved, resolve_found,
  resolve_snapshot,
}
use tsuz_api_jcc.Agent.Moves.{
  run_moves, message_moves, RunsFollow, MessagesFollow, update_run_status-RunsFollow,
  set_run_cancel_requested-RunsFollow, update_message_status-MessagesFollow, RunsFollow-same,
  MessagesFollow-same, RunsFollow-append, MessagesFollow-append,
}

-- Every run and every message of the first tables is in the second, unchanged or one move further.
pub record Follows (s t : Db) : Type 0 where
  pub runs : RunsFollow s t
  pub messages : MessagesFollow s t

pub Follows-refl : (s : Db) → Follows s s
Follows-refl s = record { runs = RunsFollow-same s s refl; messages = MessagesFollow-same s s refl }

-- One update of each table, the shape of most of the transactions.
module _ (jr : String) (fr : List RunStatus) (v : RunPatch) (jm : String) (fm : List MessageStatus)
    (w : MessagePatch) where
  pub two_updates-Follows :
      (s : Db)
      → all (λ x. run_moves x v.status) fr ≡ true
      → all (λ x. message_moves x w.status) fm ≡ true
      → w.content ≡ none
      → Follows s (update_message_status jm fm w (update_run_status jr fr v s).0).0
  unfolding update_message_status update_run_status
  two_updates-Follows s a b n = record {
    runs = update_run_status-RunsFollow jr fr v s a;
    messages = update_message_status-MessagesFollow jm fm w (update_run_status jr fr v s).0 b n;
  }

pub one_update-Follows :
    (jr : String) (fr : List RunStatus) (v : RunPatch) (s : Db)
    → all (λ x. run_moves x v.status) fr ≡ true
    → Follows s (update_run_status jr fr v s).0
unfolding update_run_status
one_update-Follows jr fr v s a = record {
  runs = update_run_status-RunsFollow jr fr v s a;
  messages = MessagesFollow-same s (update_run_status jr fr v s).0 refl;
}

pub Follows-unless : (b : Bool) (s t : Db) → Follows s t → Follows s (if b then s else t)
Follows-unless true s t f = Follows-refl s
Follows-unless false s t f = f

Follows-unless_pair :
    (b c : Bool) (s t : Db)
    → Follows s t
    → let r : Db × Bool = if b then (s, false) else if c then (s, false) else (t, true) in
      Follows s r.0
Follows-unless_pair true c s t f = Follows-refl s
Follows-unless_pair false true s t f = Follows-refl s
Follows-unless_pair false false s t f = f

pub finish-Follows :
    (ending : Ending) (code : String) (started now : ℕ) (mi ri content : String) (p : Pricing)
    (u : LlmUsage) (s : Db)
    → Follows s (finish ending code started now mi ri content p u s)
unfolding finish
finish-Follows cancel code started now mi ri content p u s =
    Follows-unless _ s _ (two_updates-Follows ri live_runs _ mi live_messages _ s refl refl refl)
finish-Follows fail code started now mi ri content p u s =
    Follows-unless _ s _ (two_updates-Follows ri live_runs _ mi live_messages _ s refl refl refl)

pub mark_cancelled-Follows :
    (now : ℕ) (mi ri : String) (s : Db) → Follows s (mark_cancelled now mi ri s)
unfolding mark_cancelled
mark_cancelled-Follows now mi ri s =
    Follows-unless _ s _ (two_updates-Follows ri live_runs _ mi live_messages _ s refl refl refl)

pub cancel_queued_message-Follows :
    (mi ri : String) (s : Db) → Follows s (cancel_queued_message mi ri s).0
unfolding cancel_queued_message
cancel_queued_message-Follows mi ri s = two_updates-Follows ri _ _ mi _ _ s refl refl refl

pub supersede-Follows : (r : Run) (s : Db) → Follows s (supersede r s)
unfolding supersede
supersede-Follows r s = two_updates-Follows r.id _ _ r.message_id _ _ s refl refl refl

pub complete_rows-Follows :
    (mi ri : String) (started now : ℕ) (answer : String) (p : Pricing) (u : LlmUsage) (s : Db)
    → Follows s (complete_rows mi ri started now answer p u s)
unfolding complete_rows
complete_rows-Follows mi ri started now answer p u s =
    two_updates-Follows ri _ _ mi _ _ s refl refl refl

pub mark_running-Follows :
    (started : ℕ) (mi ri : String) (s : Db) → Follows s (mark_running started mi ri s).0
unfolding mark_running
mark_running-Follows started mi ri s =
    Follows-unless_pair _ _ s _ (two_updates-Follows ri _ _ mi _ _ s refl refl refl)

pub save_streaming-Follows :
    (mi ri content : String) (s : Db) → Follows s (save_streaming mi ri content s)
unfolding save_streaming
save_streaming-Follows mi ri content s = Follows-unless _ s _ (one_update-Follows ri _ _ s refl)

-- A transaction that then appends rows of messages.
Follows-append :
    (s x t : Db) (ms : List Message)
    → Follows s x
    → t ≡ record x { messages = x.messages ++ ms }
    → Follows s t
Follows-append s x t ms f e = record {
  runs = λ i r h. let (r', g, w) = f.runs i r h in (r', rw e g, w);
  messages = λ i m h.
      let (m', g, w) = f.messages i m h in (m', rw e (find-append _ x.messages ms m' g), w);
}

pub insert_message-eq :
    (m : Message) (s t : Db)
    → insert_message m s ≡ ok t
    → t ≡ record s { messages = s.messages ++ m ∷ [] }
unfolding insert_message
insert_message-eq m s t h = ground arith

module _ (new_id : String) (k : Clock) (ci mi ri answer : String) (mode : StrategyMode)
    (started : ℕ) (p : Pricing) (u : LlmUsage) (s t : Db) where
  complete_found :
      (c : Option Conversation) (b : Bool)
      → (elim c [
        | none ↦ ok s
        | some c ↦
            if b
            then ok s
            else create_assistant_message new_id k.created k.started k.completed c answer mode
                MessageStatus.completed
                (complete_rows mi ri started k.now answer p u s)
      ])
        ≡ ok t
      → Follows s t
  unfolding create_assistant_message
  complete_found none b h = let e : t ≡ s = ground arith in rw e (Follows-refl s)
  complete_found (some c) true h = let e : t ≡ s = ground arith in rw e (Follows-refl s)
  complete_found (some c) false h =
      let x = complete_rows mi ri started k.now answer p u s in
      Follows-append s x t _ (complete_rows-Follows mi ri started k.now answer p u s)
        (insert_message-eq _ x t h)

  pub complete-Follows : complete new_id k ci mi ri answer mode started p u s ≡ ok t → Follows s t
  unfolding complete
  complete-Follows h = complete_found (conversation_by_id ci s) _ h

cancel_updates-Follows :
    (m : Message) (r : Run) (s : Db)
    → Follows s
        (update_message_status m.id live_messages
          (message_patch MessageStatus.cancelling)
          (set_run_cancel_requested r.id s).0).0
unfolding update_message_status set_run_cancel_requested
cancel_updates-Follows m r s = record {
  runs = set_run_cancel_requested-RunsFollow r.id s;
  messages =
      update_message_status-MessagesFollow m.id live_messages
        (message_patch MessageStatus.cancelling) (set_run_cancel_requested r.id s).0 refl refl;
}

pub cancel_writes-Follows : (m : Message) (r : Run) (s : Db) → Follows s (cancel_writes m r s)
unfolding cancel_writes
cancel_writes-Follows m r s = elim (Bool-cases (contains live_runs r.status)) [
  | inl live ↦ rw live (cancel_updates-Follows m r s)
  | inr over ↦ rw over (Follows-refl s)
]

pub request_cancel-Follows :
    (ui ci mi : String) (s t : Db) → request_cancel ui ci mi s ≡ ok t → Follows s t
unfolding request_cancel
request_cancel-Follows ui ci mi s t h =
    let (m, _, h') = >>=-eq-ok (get_message_for_user ui ci mi s) _ h in
    let (r, _, e) = >>=-eq-ok (or_not_found (Repository.get_run ci m.id s)) _ h' in
    let e' : t ≡ cancel_writes m r s = ground arith in rw e' (cancel_writes-Follows m r s)

-- The insertion of a message, with the other writes of its transaction.
create_message-Follows :
    (seen : Db) (new_id : String) (now : ℕ) (c : Conversation) (ui content : String)
    (mode : StrategyMode) (key : Option String) (s t : Db) (m : Message)
    → Repository.create_message seen new_id now c ui content mode key s ≡ ok (m, t)
    → Follows s t
unfolding Repository.create_message
create_message-Follows seen new_id now c ui content mode key s t m h =
    let new = user_message new_id now (next_sequence c.id seen) c ui content mode key in
    elim (Result-cases (insert_message new s)) [
      | inl (d, good) ↦
          let d' = insert_message-eq new s d good in
          record {
            runs = RunsFollow-same s t (ground arith);
            messages = MessagesFollow-append s t (new ∷ []) (ground arith);
          }
      | inr (x, bad) ↦ absurd (ground arith)
    ]

resolve_race-same :
    (content : String) (mode : StrategyMode) (o : Option Message) (s t : Db) (m : Message)
    → Service.resolve_race content mode o s ≡ ok (m, t)
    → t ≡ s
unfolding Service.resolve_race
resolve_race-same content mode none s t m h = cc
resolve_race-same content mode (some x) s t m h = ground arith

pub insert_or_resolve-Follows :
    (new_id : String) (now : ℕ) (c : Conversation) (q : Request) (mode : StrategyMode)
    (seen s t : Db) (m : Message)
    → insert_or_resolve (λ _. s) new_id now c q mode seen ≡ ok (m, t)
    → Follows s t
unfolding insert_or_resolve
insert_or_resolve-Follows new_id now c q mode seen s t m h =
    elim (Result-cases (
      Repository.create_message seen new_id now c q.user_id q.content mode q.client_request_id s)) [
        | inl ((m', t'), good) ↦
            let e : t' ≡ t = ground arith in
            create_message-Follows seen new_id now c q.user_id q.content mode q.client_request_id s
              t m' (rw (← e) good)
        | inr (x, bad) ↦
            let k = Service.existing_request c.id q.client_request_id s in
            let e = resolve_race-same q.content mode k s t m (ground arith) in rw e (Follows-refl s)
      ]

ensure_run-cases :
    (new_id : String) (now : ℕ) (m : Message) (provider model : String) (s t : Db) (r : Run)
    → ensure_run new_id now m provider model s ≡ ok (r, t)
    → (t ≡ s) ⊎ (t ≡ record s { runs = s.runs ++ r ∷ [] })
unfolding ensure_run Repository.create_run
ensure_run-cases new_id now m provider model s t r h = ground arith

pub ensure_run-Follows :
    (new_id : String) (now : ℕ) (m : Message) (provider model : String) (s t : Db) (r : Run)
    → ensure_run new_id now m provider model s ≡ ok (r, t)
    → Follows s t
ensure_run-Follows new_id now m provider model s t r h =
    elim (ensure_run-cases new_id now m provider model s t r h) [
      | inl e ↦ rw e (Follows-refl s)
      | inr e ↦ record {
        runs = RunsFollow-append s t (r ∷ []) (rw e);
        messages = MessagesFollow-same s t (rw e);
      }
    ]

-- The transactions that touch neither table.
pub Follows-same : (s t : Db) → t.runs ≡ s.runs → t.messages ≡ s.messages → Follows s t
Follows-same s t e f = record { runs = RunsFollow-same s t e; messages = MessagesFollow-same s t f }

pub update_conversation-Follows :
    (now : ℕ) (ui ci : String) (title : Option String) (mode : Option StrategyMode) (s t : Db)
    (c : Conversation)
    → Service.update_conversation now ui ci title mode s ≡ ok (c, t)
    → Follows s t
unfolding Service.update_conversation Repository.update_conversation
update_conversation-Follows now ui ci title mode s t c h =
    let (c', _, h') = >>=-eq-ok (Service.get_conversation ui ci s) _ h in
    let (c'', _, e) = >>=-eq-ok (Service.not_archived c') _ h' in
    Follows-same s t (ground arith) (ground arith)

pub archive_conversation-Follows :
    (now now' : ℕ) (ui ci : String) (s t : Db) (c : Conversation)
    → Service.archive_conversation now now' ui ci s ≡ ok (c, t)
    → Follows s t
unfolding Service.archive_conversation Repository.archive_conversation
archive_conversation-Follows now now' ui ci s t c h =
    let (c', _, e) = >>=-eq-ok (Service.get_conversation ui ci s) _ h in
    Follows-same s t (ground arith) (ground arith)

pin_snapshot-Follows :
    (ri : String) (pinned : Option ℕ) (c : SnapshotContext) (s : Db)
    → Follows s (pin_snapshot ri pinned c s)
pin_snapshot-Follows ri none c s = one_update-Follows ri _ (snapshot_patch c) s refl
pin_snapshot-Follows ri (some i) c s = Follows-refl s

resolved-Follows :
    (ri : String) (row : Option SnapshotRow) (pinned : Option ℕ) (s : Db)
    → Follows s (resolved ri pinned row s).1
resolved-Follows ri none pinned s = Follows-refl s
resolved-Follows ri (some row) pinned s = pin_snapshot-Follows ri pinned (context_of row) s

found-Follows :
    (mode : String) (store : Store) (ri : String) (found : Option Run) (s : Db)
    → Follows s (resolve_found mode store ri found s).1
found-Follows mode store ri none s = Follows-refl s
found-Follows mode store ri (some r) s =
    resolved-Follows ri (snapshot_of mode r r.snapshot_id store) r.snapshot_id s

pub resolve_snapshot-Follows :
    (mode : String) (store : Store) (ri : String) (s : Db)
    → Follows s (resolve_snapshot mode store ri s).1
unfolding resolve_snapshot
resolve_snapshot-Follows mode store ri s = found-Follows mode store ri (run_by_id ri s) s
