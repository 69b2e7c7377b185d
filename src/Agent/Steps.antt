-- ===== src/Agent/Steps.antt =====
-- The transactions of any number of requests and runs, in any order, as a step relation.
use tsuz_api_jcc.Base.{
  ℕ, String, Bool, true, false, Option, some, [], ◌∷◌, contains, string_eq, ◌≡◌, ap, ◌∙◌, arith,
}
use tsuz_api_jcc.Base.Result.{ok}
use tsuz_api_jcc.Conversations.Rows.{
  RunStatus, MessageStatus, StrategyMode, Conversation, Message, Run, Db, run_status_eq,
  message_status_eq,
}
use tsuz_api_jcc.Conversations.Repository.{
  run_by_id, message_by_id, update_run_status, update_message_status, run_patch, message_patch,
}
use tsuz_api_jcc.Conversations.Repository
use tsuz_api_jcc.Conversations.Service
use tsuz_api_jcc.Conversations.Service.{Request, insert_or_resolve}
use tsuz_api_jcc.Conversations.Updates.{
  run_by_id-update_run_status, message_by_id-update_message_status,
}
use tsuz_api_jcc.Agent.Lifecycle
use tsuz_api_jcc.Agent.Lifecycle.{LlmUsage, Pricing, Clock, Ending, requeue_run}
use tsuz_api_jcc.Jcc.Store.{Store}
use tsuz_api_jcc.Agent.Snapshots.{resolve_snapshot}
use tsuz_api_jcc.Agent.Moves.{RunFollows, MessageFollows}
use tsuz_api_jcc.Agent.Follows
use tsuz_api_jcc.Agent.Follows.{Follows}

-- One committed transaction on these tables, other than the requeueing of a restart. A `send` inserts into the tables as they are when it inserts; `seen`
-- is what it read before, which other sessions may have changed since.
pub data Step (s t : Db) : Type 0 where
  new_conversation :
      (new_id : String) (now : ℕ) (ui title : String) (mode : StrategyMode)
      → t ≡ (Repository.create_conversation new_id now ui title mode s).1
      → Step s t
  edit :
      (now : ℕ) (ui ci : String) (title : Option String) (mode : Option StrategyMode)
      (c : Conversation)
      → Service.update_conversation now ui ci title mode s ≡ ok (c, t)
      → Step s t
  archive :
      (now now' : ℕ) (ui ci : String) (c : Conversation)
      → Service.archive_conversation now now' ui ci s ≡ ok (c, t)
      → Step s t
  send :
      (new_id : String) (now : ℕ) (c : Conversation) (q : Request) (mode : StrategyMode) (seen : Db)
      (m : Message)
      → insert_or_resolve (λ _. s) new_id now c q mode seen ≡ ok (m, t)
      → Step s t
  make_run :
      (new_id : String) (now : ℕ) (m : Message) (provider model : String) (r : Run)
      → Service.ensure_run new_id now m provider model s ≡ ok (r, t)
      → Step s t
  request_cancel : (ui ci mi : String) → Service.request_cancel ui ci mi s ≡ ok t → Step s t
  start : (started : ℕ) (mi ri : String) → t ≡ (Lifecycle.mark_running started mi ri s).0 → Step s t
  resolve :
      (mode : String) (store : Store) (ri : String)
      → t ≡ (resolve_snapshot mode store ri s).1
      → Step s t
  stream : (mi ri content : String) → t ≡ Lifecycle.save_streaming mi ri content s → Step s t
  complete :
      (new_id : String) (k : Clock) (ci mi ri answer : String) (mode : StrategyMode) (started : ℕ)
      (p : Pricing) (u : LlmUsage)
      → Lifecycle.complete new_id k ci mi ri answer mode started p u s ≡ ok t
      → Step s t
  finish :
      (ending : Ending) (code : String) (started now : ℕ) (mi ri content : String) (p : Pricing)
      (u : LlmUsage)
      → t ≡ Lifecycle.finish ending code started now mi ri content p u s
      → Step s t
  mark_cancelled : (now : ℕ) (mi ri : String) → t ≡ Lifecycle.mark_cancelled now mi ri s → Step s t
  cancel_queued : (mi ri : String) → t ≡ (Lifecycle.cancel_queued_message mi ri s).0 → Step s t
  supersede : (r : Run) → t ≡ Lifecycle.supersede r s → Step s t

follow : (s t u : Db) → t ≡ u → Follows s u → Follows s t
follow s t u e f = rw e f

pub Step-Follows : (s t : Db) → Step s t → Follows s t
unfolding Repository.create_conversation
Step-Follows s t (new_conversation new_id now ui title mode e) =
    Follows.Follows-same s t (rw e) (rw e)
Step-Follows s t (edit now ui ci title mode c e) =
    Follows.update_conversation-Follows now ui ci title mode s t c e
Step-Follows s t (archive now now' ui ci c e) =
    Follows.archive_conversation-Follows now now' ui ci s t c e
Step-Follows s t (send new_id now c q mode seen m e) =
    Follows.insert_or_resolve-Follows new_id now c q mode seen s t m e
Step-Follows s t (make_run new_id now m provider model r e) =
    Follows.ensure_run-Follows new_id now m provider model s t r e
Step-Follows s t (request_cancel ui ci mi e) = Follows.request_cancel-Follows ui ci mi s t e
Step-Follows s t (start started mi ri e) =
    follow s t _ e (Follows.mark_running-Follows started mi ri s)
Step-Follows s t (resolve mode store ri e) =
    follow s t _ e (Follows.resolve_snapshot-Follows mode store ri s)
Step-Follows s t (stream mi ri content e) =
    follow s t _ e (Follows.save_streaming-Follows mi ri content s)
Step-Follows s t (complete new_id k ci mi ri answer mode started p u e) =
    Follows.complete-Follows new_id k ci mi ri answer mode started p u s t e
Step-Follows s t (finish ending code started now mi ri content p u e) =
    follow s t _ e (Follows.finish-Follows ending code started now mi ri content p u s)
Step-Follows s t (mark_cancelled now mi ri e) =
    follow s t _ e (Follows.mark_cancelled-Follows now mi ri s)
Step-Follows s t (cancel_queued mi ri e) =
    follow s t _ e (Follows.cancel_queued_message-Follows mi ri s)
Step-Follows s t (supersede r e) = follow s t _ e (Follows.supersede-Follows r s)

-- What transactions reach together with restarts, which requeue runs by `_requeue_run`.
pub data Life (s : Db) : Db → Type 0 where
  restart : {t : Db} (ri mi : String) → Life s t → Life s (requeue_run ri mi t)
  next : {t u : Db} → Life s t → Step t u → Life s u
  here : Life s s

-- What transactions reach while the process lives.
pub data Reach (before : Db) : Db → Type 0 where
  next : {between after : Db} → Reach before between → Step between after → Reach before after
  here : Reach before before

abbrev pub is_final_run : RunStatus → Bool
is_final_run RunStatus.completed = true
is_final_run RunStatus.failed = true
is_final_run RunStatus.cancelled = true
is_final_run _ = false

abbrev pub is_final_message : MessageStatus → Bool
is_final_message MessageStatus.completed = true
is_final_message MessageStatus.failed = true
is_final_message MessageStatus.cancelled = true
is_final_message _ = false

final_run_stays : (r r' : Run) → is_final_run r.status ≡ true → RunFollows r r' → r' ≡ r
final_run_stays r r' f w = ground arith

final_message_stays :
    (m m' : Message) → is_final_message m.status ≡ true → MessageFollows m m' → m' ≡ m
final_message_stays m m' f w = ground arith

requeue_run-final_run :
    (i ri mi : String) (r : Run) (db : Db)
    → is_final_run r.status ≡ true
    → run_by_id i db ≡ some r
    → run_by_id i (requeue_run ri mi db) ≡ some r
unfolding requeue_run update_message_status
requeue_run-final_run i ri mi r db f h =
    let from = RunStatus.running ∷ RunStatus.cancelling ∷ [] in
    let no_match : (contains from r.status) ≡ false = ground arith in
    ground (
      arith,
      run_by_id-update_run_status i ri from
          (record (run_patch RunStatus.queued) { cancel_requested = some false }) db r h,
    )

requeue_run-final_message :
    (i ri mi : String) (m : Message) (db : Db)
    → is_final_message m.status ≡ true
    → message_by_id i db ≡ some m
    → message_by_id i (requeue_run ri mi db) ≡ some m
unfolding requeue_run update_run_status
requeue_run-final_message i ri mi m db f h =
    let from = MessageStatus.running ∷ MessageStatus.streaming ∷ MessageStatus.cancelling ∷ [] in
    let v = record (run_patch RunStatus.queued) { cancel_requested = some false } in
    let no_match : (contains from m.status) ≡ false = ground arith in
    ground (
      arith,
      message_by_id-update_message_status i mi from (message_patch MessageStatus.queued)
          (update_run_status ri (RunStatus.running ∷ RunStatus.cancelling ∷ []) v db).0 m h,
    )

-- A completed, failed or cancelled run keeps its whole row, whatever requests, runs and restarts follow.
pub Life-final_run :
    (i : String) (r : Run) {s t : Db}
    → Life s t
    → run_by_id i s ≡ some r
    → is_final_run r.status ≡ true
    → run_by_id i t ≡ some r
Life-final_run i r here h f = h
Life-final_run i r (next {t = t} {u = u} l st) h f =
    let (r', g, w) = (Step-Follows t u st).runs i r (Life-final_run i r l h f) in
    g ∙ ap some (final_run_stays r r' f w)
Life-final_run i r (restart {t = t} ri mi l) h f =
    requeue_run-final_run i ri mi r t f (Life-final_run i r l h f)

-- A completed, failed or cancelled message keeps its whole row, whatever requests, runs and restarts
-- follow.
pub Life-final_message :
    (i : String) (m : Message) {s t : Db}
    → Life s t
    → message_by_id i s ≡ some m
    → is_final_message m.status ≡ true
    → message_by_id i t ≡ some m
Life-final_message i m here h f = h
Life-final_message i m (next {t = t} {u = u} l st) h f =
    let (m', g, w) = (Step-Follows t u st).messages i m (Life-final_message i m l h f) in
    g ∙ ap some (final_message_stays m m' f w)
Life-final_message i m (restart {t = t} ri mi l) h f =
    requeue_run-final_message i ri mi m t f (Life-final_message i m l h f)

-- Cancellation was asked for or has happened, or the run has failed.
abbrev pub is_ending : RunStatus → Bool
is_ending RunStatus.cancelling = true
is_ending RunStatus.cancelled = true
is_ending RunStatus.failed = true
is_ending _ = false

ending_follows :
    (r r' : Run) → is_ending r.status ≡ true → RunFollows r r' → is_ending r'.status ≡ true
ending_follows r r' f w = ground arith

-- Once cancellation of a run is asked for it never completes: while the process lives it is
-- cancelling, cancelled or failed.
pub Reach-is_ending :
    (i : String) (r : Run) {s t : Db}
    → Reach s t
    → run_by_id i s ≡ some r
    → is_ending r.status ≡ true
    → (r' : Run) × (run_by_id i t ≡ some r') × (is_ending r'.status ≡ true)
Reach-is_ending i r here h f = (r, h, f)
Reach-is_ending i r (next {between = t} {after = u} l st) h f =
    let (q, g, e) = Reach-is_ending i r l h f in
    let (q', g', w) = (Step-Follows t u st).runs i q g in (q', g', ending_follows q q' e w)
