-- ===== src/Agent/Runtime/Latest.antt =====
-- app/agent/runtime.py: of the messages of a conversation only the latest is left to be executed.
use mathlib.Core.Path.{subst}
use tsuz_api_jcc.Base.{
  Bool-cases, inl, inr, All-weaken, ℕ, zero, suc, String, Bool, true, false, ◌&&◌, not, List, [],
  ◌∷◌, map, All, contains, keep, ◌==◌, string_eq, if◌then◌else◌, ◌≡◌, refl, sym, ap, ◌∙◌, arith,
  is_some, ==_refl,
}
use tsuz_api_jcc.Base.Dict
use tsuz_api_jcc.Base.Result.{Result, ok, err, ok_injective}
use tsuz_api_jcc.Conversations.Rows.{RunStatus, Run, Db, run_status_eq}
use tsuz_api_jcc.Conversations.Repository.{
  update_run_status, update_message_status, update_where, patch_run, RunPatch,
}
use tsuz_api_jcc.Agent.Lifecycle.{cancel_queued, queued_others, supersede, supersede_all}
use tsuz_api_jcc.Agent.Events.{ConversationRuntime, publish}
use tsuz_api_jcc.Agent.Runtime.{
  set_event, runtime_stopping, supersede_queue, put_nowait, drain, publish_superseded, enqueue,
  with_runtime, set_runtime, runtime_for, RuntimeError, ConversationRuntimeManager,
}

-- A queued run of the conversation, of another message.
abbrev pub is_other : String → String → Run → Bool
unfolding run_status_eq
is_other c m r = r.conversation_id == c && r.status == RunStatus.queued && not (r.message_id == m)

-- Each queued run of another message is in a list.
Listed : String → String → List String → Run → Type 0
Listed c m ids r = is_other c m r ≡ true → contains ids r.id ≡ true

Listed-keep :
    (c m : String) (rs : List Run)
    → All (Listed c m (map (λ (r : Run). r.id) (keep (is_other c m) rs))) rs
unfolding Listed
Listed-keep c m [] = tt
Listed-keep c m (r ∷ rs) = (
  (λ other. rw other (ground (arith, ==_refl r.id))),
  All-weaken (Listed c m (map (λ (r : Run). r.id) (keep (is_other c m) rs)))
      (Listed c m (map (λ (r : Run). r.id) (keep (is_other c m) (r ∷ rs)))) rs
      (λ x p q. elim (Bool-cases (is_other c m r)) [
        | inl other ↦ rw other (ground (arith, p q))
        | inr not_other ↦ rw not_other (p q)
      ])
      (Listed-keep c m rs),
)

Listed-update :
    (c m i : String) (ids : List String) (v : RunPatch) (rs : List Run)
    → v.status ≡ RunStatus.cancelled
    → All (Listed c m (i ∷ ids)) rs
    → All (Listed c m ids) (
        update_where (λ r. r.id == i && contains (RunStatus.queued ∷ []) r.status) (patch_run v) rs)
unfolding Listed patch_run run_status_eq
Listed-update c m i ids v [] s h = tt
Listed-update c m i ids v (r ∷ rs) s (p, h) =
    ((λ q. ground arith), Listed-update c m i ids v rs s h)

Listed-supersede :
    (c m : String) (ids : List String) (r : Run) (db : Db)
    → All (Listed c m (r.id ∷ ids)) db.runs
    → All (Listed c m ids) (supersede r db).runs
unfolding supersede update_run_status update_message_status
Listed-supersede c m ids r db h = Listed-update c m r.id ids _ db.runs refl h

Listed-supersede_all :
    (c m : String) (rs : List Run) (db : Db)
    → All (Listed c m (map (λ (r : Run). r.id) rs)) db.runs
    → All (Listed c m []) (supersede_all rs db).runs
unfolding supersede_all
Listed-supersede_all c m [] db h = h
Listed-supersede_all c m (r ∷ rs) db h =
    Listed-supersede_all c m rs (supersede r db)
      (Listed-supersede c m (map (λ (r : Run). r.id) rs) r db h)

-- No queued run of the conversation is left but the one of the given message.
pub cancel_queued-none_other :
    (c m : String) (db : Db) → All (λ r. is_other c m r ≡ false) (cancel_queued c m db).1.runs
unfolding cancel_queued queued_others Listed run_status_eq
cancel_queued-none_other c m db =
    All-weaken (Listed c m []) (λ r. is_other c m r ≡ false) _ (λ r p. ground (arith, p))
      (Listed-supersede_all c m (queued_others c m db) db (Listed-keep c m db.runs))

drain_lem : (q : List (String × String)) → drain q ≡ []
drain_lem [] = refl
drain_lem (x ∷ q) = drain_lem q

put_nowait_lem : (n : ℕ) (x : String × String) → put_nowait n x [] ≡ ok (x ∷ [])
unfolding put_nowait
put_nowait_lem zero x = refl
put_nowait_lem (suc n) x = ground arith

-- The runtime behind a publication that takes the one item of a queue.
Latest : String → String → Result RuntimeError ConversationRuntime → Type 0
Latest message_id run_id result =
    (s : ConversationRuntime) × (result ≡ ok s) × (s.queue ≡ (message_id, run_id) ∷ [])

supersede_queue-Latest :
    (n : ℕ) (m i c : String) (s : ConversationRuntime) (db : Db)
    → Latest m i (supersede_queue n m i c s db).0
unfolding supersede_queue Latest publish
supersede_queue-Latest n m i c s db =
    let s' = publish_superseded (cancel_queued c m db).0 s in
    rw (drain_lem s'.queue, put_nowait_lem n (m, i)) (_, refl, refl)

runtime_for-set_runtime :
    (c : String) (s : ConversationRuntime) (mgr : ConversationRuntimeManager)
    → runtime_for c (set_runtime c s mgr) ≡ s
unfolding runtime_for set_runtime
runtime_for-set_runtime c s mgr = rw (Dict.lookup-insert c c s mgr.runtimes, ==_refl c) refl

-- What `enqueue` leaves: the queue holds only the new message, and no other queued run of the conversation is in the tables.
unfoldable pub IsLatest :
    String → String → String → Result RuntimeError ConversationRuntimeManager × Db → Type 0
IsLatest message_id run_id conversation_id (result, db) =
    ((mgr : ConversationRuntimeManager) × (result ≡ ok mgr)
      × ((runtime_for conversation_id mgr).queue ≡ (message_id, run_id) ∷ []))
    × All (λ r. is_other conversation_id message_id r ≡ false) db.runs

with_runtime-IsLatest :
    (m i c : String) (mgr : ConversationRuntimeManager)
    (result : Result RuntimeError ConversationRuntime) (db : Db)
    → Latest m i result
    → All (λ r. is_other c m r ≡ false) db.runs
    → IsLatest m i c (with_runtime c mgr (result, db))
unfolding Latest IsLatest
with_runtime-IsLatest m i c mgr (err e) db (s, h, q) rest = cc
with_runtime-IsLatest m i c mgr (ok s') db (s, h, q) rest = (
  (
    set_runtime c s' mgr,
    refl,
    rw (runtime_for-set_runtime c s' mgr)
        (ap (λ (r : ConversationRuntime). r.queue) (ok_injective s' s h) ∙ q),
  ),
  rest,
)

-- Unless the manager is stopping, `enqueue` succeeds whatever the size of the queue; behind it the queue of the conversation holds only
-- the new message, and no run of another message of the conversation is queued in the tables.
pub enqueue-IsLatest :
    (others : ConversationRuntime × Db → ConversationRuntime × Db)
    (message_id run_id conversation_id : String) (mgr : ConversationRuntimeManager) (db : Db)
    → mgr.stopping ≡ false
    → IsLatest message_id run_id conversation_id
        (enqueue others message_id run_id conversation_id mgr db)
unfolding enqueue supersede_queue
enqueue-IsLatest others m i c mgr db h =
    let found = runtime_for c mgr in
    let s = record found { cancel_event = set_event found.cancel_event } in
    let p = if is_some s.current_message_id then others (s, db) else (s, db) in
    let after = supersede_queue mgr.queue_maxsize m i c p.0 p.1 in
    subst (λ b. IsLatest m i c (if b then (err runtime_stopping, db) else with_runtime c mgr after))
      (sym h)
      (with_runtime-IsLatest m i c mgr after.0 after.1
        (supersede_queue-Latest mgr.queue_maxsize m i c p.0 p.1) (cancel_queued-none_other c m p.1))
