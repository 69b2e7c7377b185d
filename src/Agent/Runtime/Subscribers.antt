-- ===== src/Agent/Runtime/Subscribers.antt =====
-- app/agent/runtime.py: who listens to a conversation, and what they receive.
use mathlib.Core.List.{append-nil, append_assoc}
use tsuz_api_jcc.Base.{
  ℕ, suc, ◌+◌, ◌-◌, ◌≤◌, String, Bool, true, false, not, Option, none, some, List, [], ◌∷◌, ◌++◌,
  map, keep, leb, ◌==◌, string_eq, nat_eq, if◌then◌else◌, ◌≡◌, refl, sym, ap, ◌∙◌, arith, ==_refl,
  length, length-append, any, ==→≡,
}
use tsuz_api_jcc.Base.Dict
use tsuz_api_jcc.Base.Dict.{Dict}
use tsuz_api_jcc.Agent.Events.{
  AgentEvent, Subscriber, ConversationRuntime, deliver, publish, publish_all, numbered_event,
}
use tsuz_api_jcc.Agent.Events.Replay.{numbered}
use tsuz_api_jcc.Agent.Runtime.{subscribe, unsubscribe, count_of, remove_key, less_one}

-- What a queue takes of one event after the other.
deliveries : List AgentEvent → Subscriber → Subscriber
deliveries [] q = q
deliveries (e ∷ es) q = deliveries es (deliver e q)

map-map_cons :
    (f g h : Subscriber → Subscriber) (qs : List Subscriber)
    → ((q : Subscriber) → h q ≡ g (f q))
    → map g (map f qs) ≡ map h qs
map-map_cons f g h [] p = refl
map-map_cons f g h (q ∷ qs) p = rw (map-map_cons f g h qs p, p q) refl

map_same :
    (f : Subscriber → Subscriber) (qs : List Subscriber)
    → ((q : Subscriber) → f q ≡ q)
    → map f qs ≡ qs
map_same f [] p = refl
map_same f (q ∷ qs) p = rw (map_same f qs p, p q) refl

map-append :
    (f : Subscriber → Subscriber) (xs ys : List Subscriber)
    → map f (xs ++ ys) ≡ map f xs ++ map f ys
map-append f [] ys = refl
map-append f (x ∷ xs) ys = ap (◌∷◌ (f x)) (map-append f xs ys)

length-map : (f : Subscriber → Subscriber) (qs : List Subscriber) → length (map f qs) ≡ length qs
length-map f [] = refl
length-map f (q ∷ qs) = ap suc (length-map f qs)

subscribers-publish_all :
    (es : List AgentEvent) (s : ConversationRuntime)
    → (publish_all es s).subscribers ≡ map (deliveries (numbered s.event_sequence es)) s.subscribers
unfolding publish_all deliveries publish
subscribers-publish_all [] s = sym (map_same (deliveries []) s.subscribers (λ q. refl))
subscribers-publish_all (e ∷ es) s =
    subscribers-publish_all es (publish e s)
    ∙ map-map_cons (deliver (numbered_event (suc s.event_sequence) e))
        (deliveries (numbered (suc s.event_sequence) es))
        (deliveries (numbered s.event_sequence (e ∷ es))) s.subscribers (λ q. refl)

-- A queue with the events behind what waits in it.
abbrev pub receives : ℕ → List AgentEvent → Subscriber → Subscriber
receives n es q = record q { waiting = q.waiting ++ numbered n es }

deliver_room :
    (e : AgentEvent) (q : Subscriber)
    → suc (length q.waiting) ≤ 100
    → deliver e q ≡ record q { waiting = q.waiting ++ e ∷ [] }
unfolding deliver
deliver_room e q room = ground arith

deliveries-receives :
    (es : List AgentEvent) (n : ℕ) (q : Subscriber)
    → length q.waiting + length es ≤ 100
    → deliveries (numbered n es) q ≡ receives n es q
unfolding deliveries deliver
deliveries-receives [] n q room = ap (λ w. record q { waiting = w }) (sym (append-nil q.waiting))
deliveries-receives (e ∷ es) n q room =
    let f = numbered_event (suc n) e in
    ap (deliveries (numbered (suc n) es)) (deliver_room f q (omega arith))
    ∙ deliveries-receives es (suc n) (record q { waiting = q.waiting ++ f ∷ [] })
        (omega (arith, length-append q.waiting (f ∷ [])))
    ∙ ap (λ w. record q { waiting = w }) (append_assoc q.waiting (f ∷ []) (numbered (suc n) es))

-- A subscriber whose queue has room for the published events receives all of them, in order, with the conversation's next numbers.
pub publish_all-receives :
    (es : List AgentEvent) (s : ConversationRuntime) (q : Subscriber)
    (before after : List Subscriber)
    → s.subscribers ≡ before ++ q ∷ after
    → length q.waiting + length es ≤ 100
    → (before' : List Subscriber) × (after' : List Subscriber) × ((publish_all es s).subscribers
        ≡ before' ++ receives s.event_sequence es q ∷ after')
      × (length before' ≡ length before)
publish_all-receives es s q before after h room =
    let f = deliveries (numbered s.event_sequence es) in
    (
      map f before,
      map f after,
      subscribers-publish_all es s
          ∙ ap (map f) h
          ∙ map-append f before (q ∷ after)
          ∙ ap (λ r. map f before ++ r ∷ map f after)
              (deliveries-receives es s.event_sequence q room),
      length-map f before,
    )

lookup-remove_key :
    {V : Type 0}
    → (j k : String) (d : Dict String V)
    → Dict.lookup j (remove_key k d) ≡ (if j == k then none else Dict.lookup j d)
unfolding Dict.lookup
lookup-remove_key j k [] = ground arith
lookup-remove_key j k ((i, v) ∷ d) = ground (arith, lookup-remove_key j k d, ==→≡ j i, ==→≡ k i)

abbrev pub no_zero : Option ℕ → Bool
no_zero none = true
no_zero (some n) = leb 1 n

-- A user's count, less one; no count is left of one.
abbrev decreased : Option ℕ → Option ℕ
decreased none = none
decreased (some n) = if leb n 1 then none else some (n - 1)

lookup-less_one :
    (j u : String) (o : Option ℕ) (d : Dict String ℕ)
    → Dict.lookup u d ≡ o
    → Dict.lookup j (less_one u o d) ≡ (if j == u then decreased o else Dict.lookup j d)
lookup-less_one j u none d h = ground (arith, ==→≡ j u)
lookup-less_one j u (some n) d h =
    ground (arith, lookup-remove_key j u d, Dict.lookup-insert j u (n - 1) d)

keep-fresh :
    (ident : ℕ) (q : Subscriber) (qs : List Subscriber)
    → any (λ (q : Subscriber). q.ident == ident) qs ≡ false
    → q.ident ≡ ident
    → keep (λ (q : Subscriber). not (q.ident == ident)) (qs ++ q ∷ []) ≡ qs
keep-fresh ident q [] h e = ground (arith)
keep-fresh ident q (r ∷ qs) h e = ground (arith, keep-fresh ident q qs)

-- A client that subscribes and leaves again is forgotten: the queues are the former ones, and every user's count is the former one, if the new queue
-- is none of the former ones and the user's count was not zero.
pub unsubscribe-subscribe :
    (ident : ℕ) (user_id : String) (s : ConversationRuntime)
    → any (λ (q : Subscriber). q.ident == ident) s.subscribers ≡ false
    → no_zero (Dict.lookup user_id s.subscriber_users) ≡ true
    → ((unsubscribe ident user_id (subscribe ident user_id s)).subscribers ≡ s.subscribers)
      × ((j : String)
          → Dict.lookup j (unsubscribe ident user_id (subscribe ident user_id s)).subscriber_users
            ≡ Dict.lookup j s.subscriber_users)
unfolding subscribe unsubscribe nat_eq
unsubscribe-subscribe ident u s fresh positive = (
  keep-fresh ident (record { ident = ident; waiting = [] }) s.subscribers fresh refl,
  λ j.
      let n = count_of (Dict.lookup u s.subscriber_users) in
      let d = Dict.insert u (suc n) s.subscriber_users in
      lookup-less_one j u (Dict.lookup u d) d refl
      ∙ ground (
        arith,
        Dict.lookup-insert u u (suc n) s.subscriber_users,
        Dict.lookup-insert j u (suc n) s.subscriber_users,
        ==_refl u,
        ==→≡ j u,
        positive,
      ),
)

-- No count of a user is zero.
unfoldable pub NoZero : ConversationRuntime → Type 0
NoZero s = (j : String) → no_zero (Dict.lookup j s.subscriber_users) ≡ true

subscribe-NoZero :
    (ident : ℕ) (u : String) (s : ConversationRuntime) → NoZero s → NoZero (subscribe ident u s)
unfolding NoZero subscribe
subscribe-NoZero ident u s h j =
    rw
      (Dict.lookup-insert j u (suc (count_of (Dict.lookup u s.subscriber_users)))
        s.subscriber_users)
      (ground (arith, h j))

unsubscribe-NoZero :
    (ident : ℕ) (u : String) (s : ConversationRuntime) → NoZero s → NoZero (unsubscribe ident u s)
unfolding NoZero unsubscribe
unsubscribe-NoZero ident u s h j =
    ap no_zero (lookup-less_one j u (Dict.lookup u s.subscriber_users) s.subscriber_users refl)
    ∙ ground (arith, h j, h u)

-- If every user's count is positive, it is so after a subscription and after a client has left.
pub counts-NoZero :
    (ident : ℕ) (user_id : String) (s : ConversationRuntime)
    → NoZero s
    → NoZero (subscribe ident user_id s) × NoZero (unsubscribe ident user_id s)
counts-NoZero ident u s h = (subscribe-NoZero ident u s h, unsubscribe-NoZero ident u s h)
