-- ===== src/Agent/Once.antt =====
-- A run starts at most once, and what completion does when the run is no longer running.
use tsuz_api_jcc.Base.{
  find-true, Option-cases, ℕ, String, Bool, true, false, some, List, [], ◌∷◌, ◌++◌, map, contains,
  find, any, is_none, ◌==◌, string_eq, if◌then◌else◌, ◌≡◌, ◌∙◌, ap, refl, arith, inl, inr, length,
}
use tsuz_api_jcc.Base.Result.{ok}
use tsuz_api_jcc.Conversations.Rows.{
  RunStatus, MessageStatus, Role, StrategyMode, Conversation, Message, Run, Db, run_status_eq,
}
use tsuz_api_jcc.Conversations.Repository.{
  run_by_id, message_by_id, conversation_by_id, update_run_status, update_message_status, patch_run,
  RunPatch, run_patch, insert_message, create_assistant_message, assistant_message, or_blank,
}
use tsuz_api_jcc.Conversations.Updates.{
  run_by_id-update_run_status, run_matches, length-update_where,
}
use tsuz_api_jcc.Agent.Lifecycle.{
  LlmUsage, Pricing, Clock, mark_running, complete, complete_rows, finished,
}
use tsuz_api_jcc.Agent.Moves.{RunFollows}
use tsuz_api_jcc.Agent.Follows.{insert_message-eq}
use tsuz_api_jcc.Agent.Steps.{Step-Follows, Reach, here, next}

-- The primary key of `agent_runs`.
abbrev pub DistinctIds : List Run → Type 0
DistinctIds [] = Unit
DistinctIds (r ∷ rs) = (contains (map (λ x. x.id) rs) r.id ≡ false) × DistinctIds rs

no_other :
    (i : String) (from : List RunStatus) (rs : List Run)
    → contains (map (λ x. x.id) rs) i ≡ false
    → any (run_matches i from) rs ≡ false
no_other i from [] h = refl
no_other i from (r ∷ rs) h = ground (arith, no_other i from rs)

-- With distinct identifiers an update matches exactly when the selected row passes its test.
any-run_matches :
    (i : String) (from : List RunStatus) (rs : List Run) (r : Run)
    → DistinctIds rs
    → find (λ x. x.id == i) rs ≡ some r
    → any (run_matches i from) rs ≡ contains from r.status
any-run_matches i from [] r d h = cc
any-run_matches i from (x ∷ rs) r (fresh, d) h =
    ground (arith, no_other i from rs, any-run_matches i from rs r d)

mark_running_not_queued :
    (started : ℕ) (mi ri : String) (u : Db) (r : Run)
    → DistinctIds u.runs
    → run_by_id ri u ≡ some r
    → contains (RunStatus.queued ∷ []) r.status ≡ false
    → (mark_running started mi ri u).1 ≡ false
unfolding mark_running update_run_status
mark_running_not_queued started mi ri u r d h n =
    ground (arith, any-run_matches ri (RunStatus.queued ∷ []) u.runs r d h)

abbrev is_queued : RunStatus → Bool
is_queued RunStatus.queued = true
is_queued _ = false

started_follows :
    (r r' : Run) → is_queued r.status ≡ false → RunFollows r r' → is_queued r'.status ≡ false
started_follows r r' f w = ground arith

Reach-not_queued :
    (i : String) (r : Run) {s t : Db}
    → Reach s t
    → run_by_id i s ≡ some r
    → is_queued r.status ≡ false
    → (r' : Run) × (run_by_id i t ≡ some r') × (is_queued r'.status ≡ false)
Reach-not_queued i r here h f = (r, h, f)
Reach-not_queued i r (next {between = t} {after = u} l st) h f =
    let (q, g, e) = Reach-not_queued i r l h f in
    let (q', g', w) = (Step-Follows t u st).runs i q g in (q', g', started_follows q q' e w)

abbrev starting : ℕ → RunPatch
starting started = record (run_patch RunStatus.running) {
  started_at = some started;
  cancel_requested = some false;
}

mark_running-runs :
    (started : ℕ) (mi ri : String) (s : Db)
    → (mark_running started mi ri s).1 ≡ true
    → ((mark_running started mi ri s).0.runs
        ≡ (update_run_status ri (RunStatus.queued ∷ []) (starting started) s).0.runs)
      × ((update_run_status ri (RunStatus.queued ∷ []) (starting started) s).1 ≡ true)
      × (is_none (run_by_id ri s) ≡ false)
unfolding mark_running update_message_status
mark_running-runs started mi ri s h = ground arith

-- A start that succeeds finds the run queued and leaves it running.
mark_running_starts :
    (started : ℕ) (mi ri : String) (s : Db)
    → DistinctIds s.runs
    → (mark_running started mi ri s).1 ≡ true
    → (r : Run) × (run_by_id ri s ≡ some r)
      × (r.status ≡ RunStatus.queued)
      × (run_by_id ri (mark_running started mi ri s).0 ≡ some (patch_run (starting started) r))
unfolding update_run_status
mark_running_starts started mi ri s d h =
    let (e, matched, n) = mark_running-runs started mi ri s h in
    elim (Option-cases (run_by_id ri s)) [
      | inl gone ↦ absurd (ground arith)
      | inr (r, found) ↦
          let a = any-run_matches ri (RunStatus.queued ∷ []) s.runs r d found in
          let q : contains (RunStatus.queued ∷ []) r.status ≡ true = ground arith in
          let u =
            run_by_id-update_run_status ri ri (RunStatus.queued ∷ []) (starting started) s r
              found in
          let k = find-true (λ x. x.id == ri) s.runs r found in
          let m : run_matches ri (RunStatus.queued ∷ []) r ≡ true = ground arith in
          (r, found, ground arith, rw e (rw m at u))
    ]

-- A run that `_mark_running` has started is not started again while the process lives, whatever
-- transactions come between: the second call returns false. The identifiers of runs are distinct.
pub Reach-start_once :
    (started started' : ℕ) (mi mi' ri : String) (s : Db) {u : Db}
    → DistinctIds s.runs
    → (mark_running started mi ri s).1 ≡ true
    → Reach (mark_running started mi ri s).0 u
    → DistinctIds u.runs
    → (mark_running started' mi' ri u).1 ≡ false
unfolding patch_run
Reach-start_once started started' mi mi' ri s {u = u} d h w d' =
    let (r, _, _, found) = mark_running_starts started mi ri s d h in
    let (r', found', n) = Reach-not_queued ri (patch_run (starting started) r) w found refl in
    mark_running_not_queued started' mi' ri u r' d' found' (ground arith)

module _ (new_id : String) (k : Clock) (ci mi ri answer : String) (mode : StrategyMode)
    (started : ℕ) (p : Pricing) (u : LlmUsage) (s t : Db) where
  complete_inserts :
      complete new_id k ci mi ri answer mode started p u s ≡ ok t
      → (c : Conversation) → conversation_by_id ci s ≡ some c
      → is_none (message_by_id mi s) ≡ false
      → is_none (run_by_id ri s) ≡ false
      → let x = complete_rows mi ri started k.now answer p u s in
        insert_message
          (assistant_message new_id k.created k.started k.completed c answer mode
            MessageStatus.completed x)
          x
        ≡ ok t
  unfolding complete create_assistant_message
  complete_inserts h c found m r = ground arith

  length-complete_rows :
      length (complete_rows mi ri started k.now answer p u s).messages ≡ length s.messages
  unfolding complete_rows update_message_status update_run_status
  length-complete_rows = simp length-update_where

  complete_rows-run :
      (r : Run)
      → run_by_id ri s ≡ some r
      → run_by_id ri (complete_rows mi ri started k.now answer p u s)
        ≡ some (
            if run_matches ri (RunStatus.running ∷ []) r
            then patch_run (finished RunStatus.completed started k.now answer p u) r
            else r)
  unfolding complete_rows update_message_status
  complete_rows-run r h = run_by_id-update_run_status ri ri (RunStatus.running ∷ []) _ s r h

  -- `_complete` stores the answer, or a blank for an empty one, as one further message at the end: a
  -- completed message of the assistant in the conversation, with its owner and the given mode. It does
  -- so whether or not the run is still running; it marks the run completed only if it is, and leaves
  -- the run's row as it is otherwise.
  pub complete-runs_and_messages :
      (c : Conversation) (r : Run)
      → complete new_id k ci mi ri answer mode started p u s ≡ ok t
      → conversation_by_id ci s ≡ some c
      → is_none (message_by_id mi s) ≡ false
      → run_by_id ri s ≡ some r
      → (kept : List Message) × (new : Message) × (t.messages ≡ kept ++ new ∷ [])
        × (length kept ≡ length s.messages)
        × (new.id ≡ new_id)
        × (new.conversation_id ≡ c.id)
        × (new.user_id ≡ c.user_id)
        × (new.role ≡ Role.assistant)
        × (new.content ≡ or_blank answer)
        × (new.status ≡ MessageStatus.completed)
        × (new.strategy_mode ≡ mode)
        × (run_by_id ri t
            ≡ some (
                if r.status == RunStatus.running
                then patch_run (finished RunStatus.completed started k.now answer p u) r
                else r))
  complete-runs_and_messages c r h found m hr =
      let x = complete_rows mi ri started k.now answer p u s in
      let new =
        assistant_message new_id k.created k.started k.completed c answer mode
          MessageStatus.completed x in
      let e = insert_message-eq new x t (complete_inserts h c found m (rw hr refl)) in
      let g = complete_rows-run r hr in
      let i = find-true (λ y. y.id == ri) s.runs r hr in
      (
        x.messages,
        new,
        ap (λ (y : Db). y.messages) e,
        length-complete_rows,
        refl,
        refl,
        refl,
        refl,
        refl,
        refl,
        refl,
        rw e (g ∙ ap some (ground arith)),
      )
