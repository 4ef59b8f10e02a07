-- ===== src/Queue/Destroy.antt =====
-- queue.cpp: `destroy_client_event_queue`, the loop that empties the queue at shutdown.
use bbserver.Base.{
  ℕ, zero, suc, ◌-◌, ◌≤◌, ◌≡◌, refl, ap, ◌∙◌, inl, inr, true, false, Option, none, some, List, [],
  ◌∷◌, ◌++◌, arith, ◌==◌, if◌then◌else◌, ==_iff, Bool-cases, length, drop, length-append, spinning,
  Result, ok, err, ◌>>=◌,
}
use bbserver.Base.{blocked}
use bbserver.Types.{ClientEventCb}
use bbserver.Queue.{
  EventQueue, en_client_event_queue, de_client_event_queue_wait, take_head,
  de_client_event_queue_take, is_client_event_queue_empty,
}

-- A wait in `deClientEventQueue` that the other threads end, or do not.
abbrev pub deleted : Option EventQueue → Result EventQueue
deleted none = err blocked
deleted (some q) = ok (de_client_event_queue_take q).0

-- The rounds of the loop, at most `n` of them; `others` is what the other threads do to the queue
-- until the wait is let go, `none` when that never happens.
unfoldable pub destroy_client_event_queue :
    ℕ → (EventQueue → Option EventQueue) → EventQueue → Result EventQueue
destroy_client_event_queue zero others q =
    if is_client_event_queue_empty q then ok q else err spinning
destroy_client_event_queue (suc n) others q =
    if is_client_event_queue_empty q
    then ok q
    else deleted (others (de_client_event_queue_wait q)) >>= destroy_client_event_queue n others

-- When no other thread ever lets the wait go, the loop ends only on a queue that is empty already;
-- with an event in the queue it blocks for ever.
pub destroy_client_event_queue-never :
    (n : ℕ) (q : EventQueue)
    → destroy_client_event_queue (suc n) (λ _. none) q
      ≡ (if is_client_event_queue_empty q then ok q else err blocked)
unfolding destroy_client_event_queue
destroy_client_event_queue-never n q = elim (Bool-cases (is_client_event_queue_empty q)) [
  | inl e ↦ rw e refl
  | inr e ↦ rw e refl
]

take_head-items :
    (q : EventQueue) (es : List ClientEventCb) → q.items ≡ es → (take_head q es).0.items ≡ drop 1 es
take_head-items q [] e = e
take_head-items q (x ∷ es) e = refl

take-items : (q : EventQueue) → (de_client_event_queue_take q).0.items ≡ drop 1 q.items
unfolding de_client_event_queue_take
take-items q = take_head-items q q.items refl

drop-one {ℓ} : {A : Type ℓ} → (xs : List A) → length (drop 1 xs) ≡ length xs - 1
drop-one [] = refl
drop-one (x ∷ xs) = ground arith

drop-one-append {ℓ} :
    {A : Type ℓ}
    → (xs : List A) (x : A) → (length xs == 0) ≡ false
    → (length (drop 1 (xs ++ x ∷ [])) == 0) ≡ false
drop-one-append [] x h = ground (arith, h)
drop-one-append (y ∷ xs) x h = ground (arith, length-append xs (x ∷ []))

empty-items {ℓ} : {A : Type ℓ} → (xs : List A) → length xs ≤ 0 → xs ≡ []
empty-items [] h = refl
empty-items (x ∷ xs) h = absurd (omega (arith, h))

-- The events that are left when the loop has ended.
unfoldable pub items_left : Result EventQueue → Option (List ClientEventCb)
items_left (ok q) = some q.items
items_left (err e) = none

module _ (others : EventQueue → EventQueue) where
  -- One round on a queue that is not empty.
  destroy-round :
      (n : ℕ) (q : EventQueue)
      → is_client_event_queue_empty q ≡ false
      → destroy_client_event_queue (suc n) (λ r. some (others r)) q
        ≡ destroy_client_event_queue n
            (λ r. some (others r))
            (de_client_event_queue_take (others (de_client_event_queue_wait q))).0
  unfolding destroy_client_event_queue
  destroy-round n q e = rw e refl

pub destroy-done :
    (n : ℕ) (others : EventQueue → Option EventQueue) (q : EventQueue)
    → is_client_event_queue_empty q ≡ true
    → destroy_client_event_queue n others q ≡ ok q
unfolding destroy_client_event_queue
destroy-done zero others q e = rw e refl
destroy-done (suc n) others q e = rw e refl

take-shorter :
    (others : EventQueue → EventQueue) (n : ℕ) (q : EventQueue)
    → ((r : EventQueue) → length (others r).items ≤ length r.items)
    → is_client_event_queue_empty q ≡ false
    → length q.items ≤ suc n
    → length (de_client_event_queue_take (others (de_client_event_queue_wait q))).0.items ≤ n
unfolding de_client_event_queue_wait
take-shorter others n q keep e l = ground (
  arith,
  take-items (others (de_client_event_queue_wait q)),
  keep (de_client_event_queue_wait q),
  drop-one (others (de_client_event_queue_wait q)).items,
  e,
  l,
)

-- When every wait is let go, and until then the other threads take at least as many events as they
-- enter, the loop ends within as many rounds as there are events, and it leaves none.
pub destroy_client_event_queue-drains :
    (others : EventQueue → EventQueue)
    → ((r : EventQueue) → length (others r).items ≤ length r.items)
    → (n : ℕ) (q : EventQueue) → length q.items ≤ n
    → items_left (destroy_client_event_queue n (λ r. some (others r)) q) ≡ some []
unfolding items_left
destroy_client_event_queue-drains others keep zero q l =
    ap items_left (
      destroy-done zero (λ r. some (others r)) q
        (ap (λ es. length es == 0) (empty-items q.items l)))
    ∙ ap some (empty-items q.items l)
destroy_client_event_queue-drains others keep (suc n) q l =
    elim (Bool-cases (is_client_event_queue_empty q)) [
      | inl e ↦
          ap items_left (destroy-done (suc n) (λ r. some (others r)) q e)
          ∙ ap some (empty-items q.items (omega (arith, (==_iff (length q.items) 0).0 e)))
      | inr e ↦
          ap items_left (destroy-round others n q e)
          ∙ destroy_client_event_queue-drains others keep n
              (de_client_event_queue_take (others (de_client_event_queue_wait q))).0
              (take-shorter others n q keep e l)
    ]

en-items :
    (q : EventQueue) (e : ClientEventCb) → (en_client_event_queue q e).items ≡ q.items ++ e ∷ []
unfolding en_client_event_queue
en-items q e = ground arith

entering-still :
    (q : EventQueue) (e : ClientEventCb)
    → is_client_event_queue_empty q ≡ false
    → is_client_event_queue_empty
        (de_client_event_queue_take (en_client_event_queue (de_client_event_queue_wait q) e)).0
      ≡ false
unfolding de_client_event_queue_wait
entering-still q e h =
    ap (λ es. length es == 0)
      (take-items (en_client_event_queue (de_client_event_queue_wait q) e)
        ∙ ap (drop 1) (en-items (de_client_event_queue_wait q) e))
    ∙ drop-one-append q.items e h

-- A signal of `enClientEventQueue` comes with a new event. When only such signals let the waits go,
-- the loop does not end on a queue with an event in it, whatever the number of its rounds.
pub destroy_client_event_queue-entering :
    (entered : EventQueue → ClientEventCb) (n : ℕ) (q : EventQueue)
    → is_client_event_queue_empty q ≡ false
    → destroy_client_event_queue n (λ r. some (en_client_event_queue r (entered r))) q
      ≡ err spinning
unfolding destroy_client_event_queue
destroy_client_event_queue-entering entered zero q e = rw e refl
destroy_client_event_queue-entering entered (suc n) q e =
    destroy-round (λ r. en_client_event_queue r (entered r)) n q e
    ∙ destroy_client_event_queue-entering entered n
        (de_client_event_queue_take (
          en_client_event_queue (de_client_event_queue_wait q)
            (entered (de_client_event_queue_wait q)))).0
        (entering-still q (entered (de_client_event_queue_wait q)) e)

-- An event comes in, and a thread that was woken before takes one: no event is added.
pub entered-taken :
    (q : EventQueue) (e : ClientEventCb)
    → length (de_client_event_queue_take (en_client_event_queue q e)).0.items ≤ length q.items
entered-taken q e = ground (
  arith,
  take-items (en_client_event_queue q e),
  en-items q e,
  drop-one (en_client_event_queue q e).items,
  length-append q.items (e ∷ []),
)
