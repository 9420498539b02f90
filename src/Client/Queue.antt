-- ===== src/Client/Queue.antt =====
-- queue_ and queued_ of client/client.cpp: enqueue, and the part of worker_loop that takes a name out. The
-- watcher's thread puts names in while the worker takes them out.
use sis_op.Base.{
  ◌≡◌, refl, sym, ◌∙◌, ap, Bool, true, false, Option, none, some, List, [], ◌∷◌, ◌++◌,
  if◌then◌else◌, arith, Bool-cases, eq_of_some, subst, inl, inr,
}
use sis_op.Base.Keys.{Bytes, same, bytes_key, same_self, same_flip, eq_of_same}
use sis_op.Base.Dict.{Dict, lookup, insert, erase, lookup-insert, lookup-erase}

-- std::set as the keys of a map.
abbrev pub NameSet : Type 0
NameSet = Dict Bytes Bool

abbrev pub is_there : Option Bool → Bool
is_there none = false
is_there (some x) = true

abbrev pub member : Bytes → NameSet → Bool
member name set = is_there (lookup name set)

pub record Queue : Type 0 where
  pub queue : List Bytes
  pub queued : NameSet

unfoldable pub enqueue : Bytes → Queue → Queue
enqueue name q =
    if member name q.queued
    then q
    else record { queue = q.queue ++ (name ∷ []); queued = insert name true q.queued }

-- The worker's critical section, where the queue is not empty.
unfoldable pub pop_front : List Bytes → NameSet → Option (Bytes × Queue)
pop_front [] queued = none
pop_front (name ∷ names) queued = some (name, record { queue = names; queued = erase name queued })

unfoldable pub dequeue : Queue → Option (Bytes × Queue)
dequeue q = pop_front q.queue q.queued

-- A name stands in the queue.
abbrev pub waits : Bytes → List Bytes → Bool
waits name [] = false
waits name (n ∷ names) = if same n name then true else waits name names

-- No name stands in the queue twice.
abbrev pub Once : List Bytes → Type 0
Once [] = Unit {0}
Once (n ∷ names) = (waits n names ≡ false) × Once names

-- What the two threads do to an empty queue, in some order; with the names that the worker took out, the last one first.
pub data Reached : List Bytes → Queue → Type 0 where
  start : Reached [] (record { queue = []; queued = [] })
  enqueued :
      (name : Bytes) (taken : List Bytes) (q : Queue)
      → Reached taken q
      → Reached taken (enqueue name q)
  dequeued :
      (name : Bytes) (taken : List Bytes) (q q' : Queue)
      → Reached taken q
      → dequeue q ≡ some (name, q')
      → Reached (name ∷ taken) q'

-- The set has exactly the names of the queue, which stand in it once.
pub record InStep (q : Queue) : Type 0 where
  pub once : Once q.queue
  pub same_names : (name : Bytes) → member name q.queued ≡ waits name q.queue

waits-append :
    (name n : Bytes) (names : List Bytes)
    → waits name (names ++ (n ∷ [])) ≡ (if same n name then true else waits name names)
waits-append name n [] = refl
waits-append name n (m ∷ names) = ground (arith, waits-append name n names)

not_waits :
    (n m : Bytes) (names : List Bytes)
    → waits n (m ∷ names) ≡ false
    → (same m n ≡ false) × (waits n names ≡ false)
not_waits n m names h = elim (Bool-cases (same m n)) [
  | inl e ↦ cc (rw e at h)
  | inr e ↦ (e, rw e at h)
]

Once-append :
    (n : Bytes) (names : List Bytes) → waits n names ≡ false → Once names → Once (names ++ (n ∷ []))
Once-append n [] new once = (refl, tt)
Once-append n (m ∷ names) new once =
    let (apart, new_there) = not_waits n m names new in
    (waits-append m n names ∙ rw (same_flip m n apart) once.0, Once-append n names new_there once.1)

-- The set after a change.
member-insert :
    (name n : Bytes) (set : NameSet)
    → member n (insert name true set) ≡ (if same name n then true else member n set)
member-insert name n set = elim (Bool-cases (same name n)) [
  | inl e ↦ rw (lookup-insert name n true set, e) refl
  | inr e ↦ rw (lookup-insert name n true set, e) refl
]

member-erase :
    (name n : Bytes) (set : NameSet)
    → member n (erase name set) ≡ (if same name n then false else member n set)
member-erase name n set = elim (Bool-cases (same name n)) [
  | inl e ↦ rw (lookup-erase name n set, e) refl
  | inr e ↦ rw (lookup-erase name n set, e) refl
]

enqueue-InStep : (name : Bytes) (q : Queue) → InStep q → InStep (enqueue name q)
unfolding enqueue
enqueue-InStep name q step = elim (Bool-cases (member name q.queued)) [
  | inl known ↦ rw (known, enqueue) step
  | inr new ↦
      rw (new, enqueue)
        (record {
          once = Once-append name q.queue (sym (step.same_names name) ∙ new) step.once;
          same_names = λ n.
              member-insert name n q.queued
              ∙ ap (λ (b : Bool). if same name n then true else b) (step.same_names n)
              ∙ sym (waits-append n name q.queue);
        })
]

-- The head of the queue.
pop_front-head :
    (queue : List Bytes) (queued : NameSet) (name : Bytes) (q' : Queue)
    → pop_front queue queued ≡ some (name, q')
    → (queue ≡ name ∷ q'.queue) × (q'.queued ≡ erase name queued)
unfolding pop_front
pop_front-head [] queued name q' h = cc h
pop_front-head (n ∷ names) queued name q' h =
    let e = eq_of_some _ (name, q') h in
    (
      subst (λ (t : Bytes × Queue). n ∷ names ≡ t.0 ∷ t.1.queue) e refl,
      subst (λ (t : Bytes × Queue). t.1.queued ≡ erase t.0 queued) e refl,
    )

dequeue-InStep : (name : Bytes) (q q' : Queue) → InStep q → dequeue q ≡ some (name, q') → InStep q'
unfolding dequeue
dequeue-InStep name q q' step h =
    let (head, left) = pop_front-head q.queue q.queued name q' h in
    let once : Once (name ∷ q'.queue) = rw head at step.once in
    record {
      once = once.1;
      same_names = λ n.
          ap (λ set. member n set) left
          ∙ member-erase name n q.queued
          ∙ elim (Bool-cases (same name n)) [
            | inl e ↦
                rw e (subst (λ m. false ≡ waits m q'.queue) (eq_of_same name n e) (sym once.0))
            | inr e ↦ rw e (step.same_names n ∙ ap (waits n) head ∙ rw e refl)
          ];
    }

-- Whatever the watcher's and the worker's threads did, no name stands in the queue twice, and the set beside
-- the queue has exactly the names that stand in it.
pub Reached-InStep : (taken : List Bytes) (q : Queue) → Reached taken q → InStep q
unfolding lookup
Reached-InStep _ _ start = record { once = tt; same_names = λ name. refl }
Reached-InStep _ _ (enqueued name taken q r) = enqueue-InStep name q (Reached-InStep taken q r)
Reached-InStep _ _ (dequeued name taken q q' r h) =
    dequeue-InStep name q q' (Reached-InStep taken q r) h

-- A name that is put in waits for the worker, and the names that wait keep their order.
pub enqueue-waits :
    (taken : List Bytes) (q : Queue) (name : Bytes)
    → Reached taken q
    → (waits name (enqueue name q).queue ≡ true)
      × ((enqueue name q).queue ≡ (if waits name q.queue then q.queue else q.queue ++ (name ∷ [])))
unfolding enqueue
enqueue-waits taken q name r =
    let known = (Reached-InStep taken q r).same_names name in
    elim (Bool-cases (waits name q.queue)) [
      | inl here ↦ rw (known ∙ here, enqueue) (here, rw here refl)
      | inr new ↦
          rw (known ∙ new, enqueue)
            (waits-append name name q.queue ∙ rw (same_self name) refl, rw new refl)
    ]
