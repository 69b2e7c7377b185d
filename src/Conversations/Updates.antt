-- ===== src/Conversations/Updates.antt =====
-- What a conditional update does to the row that a primary key selects.
use tsuz_api_jcc.Base.{
  suc, ap, length, String, Bool, ◌&&◌, some, List, [], ◌∷◌, ◌++◌, contains, find, ◌==◌, string_eq,
  if◌then◌else◌, ◌≡◌, refl, arith, Bool-cases, inl, inr,
}
use tsuz_api_jcc.Conversations.Rows.{
  RunStatus, MessageStatus, Message, Run, Db, run_status_eq, message_status_eq,
}
use tsuz_api_jcc.Conversations.Repository.{
  update_where, run_by_id, message_by_id, update_run_status, update_message_status, RunPatch,
  MessagePatch, patch_run, patch_message,
}

-- An update that keeps the key changes just the selected row, and that only if its test passes.
pub find-update_where {ℓ} :
    {A : Type ℓ} (q p : A → Bool) (f : A → A) (xs : List A) (a : A)
    → ((x : A) → q (f x) ≡ q x)
    → find q xs ≡ some a
    → find q (update_where p f xs) ≡ some (if p a then f a else a)
find-update_where q p f [] a k h = cc
find-update_where q p f (x ∷ xs) a k h = elim (Bool-cases (q x)) [
  | inl e ↦ elim (Bool-cases (p x)) [ inl t ↦ ground (arith, k x) | inr t ↦ ground (arith, k x) ]
  | inr e ↦ elim (Bool-cases (p x)) [
    | inl t ↦ ground (arith, k x, find-update_where q p f xs a k)
    | inr t ↦ ground (arith, k x, find-update_where q p f xs a k)
  ]
]

pub length-update_where {ℓ} :
    {A : Type ℓ} (p : A → Bool) (f : A → A) (xs : List A) → length (update_where p f xs) ≡ length xs
length-update_where p f [] = refl
length-update_where p f (x ∷ xs) = ap suc (length-update_where p f xs)

pub find-append {ℓ} :
    {A : Type ℓ} (q : A → Bool) (xs ys : List A) (a : A)
    → find q xs ≡ some a
    → find q (xs ++ ys) ≡ some a
find-append q [] ys a h = cc
find-append q (x ∷ xs) ys a h = ground (arith, find-append q xs ys a)

-- The test of an update by identifier and status.
abbrev pub run_matches : String → List RunStatus → Run → Bool
run_matches j from r = r.id == j && contains from r.status

abbrev pub message_matches : String → List MessageStatus → Message → Bool
message_matches j from m = m.id == j && contains from m.status

pub run_by_id-update_run_status :
    (i j : String) (from : List RunStatus) (v : RunPatch) (db : Db) (r : Run)
    → run_by_id i db ≡ some r
    → run_by_id i (update_run_status j from v db).0
      ≡ some (if run_matches j from r then patch_run v r else r)
unfolding update_run_status patch_run
run_by_id-update_run_status i j from v db r h =
    find-update_where (λ x. x.id == i) (run_matches j from) (patch_run v) db.runs r (λ x. refl) h

pub message_by_id-update_message_status :
    (i j : String) (from : List MessageStatus) (v : MessagePatch) (db : Db) (m : Message)
    → message_by_id i db ≡ some m
    → message_by_id i (update_message_status j from v db).0
      ≡ some (if message_matches j from m then patch_message v m else m)
unfolding update_message_status patch_message
message_by_id-update_message_status i j from v db m h =
    find-update_where (λ x. x.id == i) (message_matches j from) (patch_message v) db.messages m
      (λ x. refl) h
