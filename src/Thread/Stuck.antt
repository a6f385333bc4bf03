-- ===== src/Thread/Stuck.antt =====
-- A destructor of common/thread/ThreadPool.cpp that waits for ever.
use mathlib.Core.Bool.{false≢true, true≢false}
use yolo_server.Prelude.{
  ◌==◌, ◌==◌, All-append, All-map, ℕ, zero, suc, ◌≡◌, refl, sym, ap, subst, Bool, true, false, List,
  [], ◌∷◌, ◌++◌, map, All, arith, append_assoc,
}
use yolo_server.Thread.Workers.{
  Worker, ThreadPool, Event, quiet, leave_wait, wake, workers_at, new_thread_pool, Step, submits,
  enqueues, notifies, notifies_none, tests, sleeps, finishes, stops, notifies_all, Reach, here,
  next, starting, tested, asleep, ended, running, is_tested, is_ended, IsFree,
}
use yolo_server.Thread.Places.{All-middle, cons_nowhere}

-- A pool without tasks.
abbrev idle : Bool → Bool → List Worker → ThreadPool
idle stopping notified workers = record {
  tasks = [];
  stopping = stopping;
  workers = workers;
  in_flight = [];
  notices = 0;
  notified = notified;
}

abbrev can_run : Worker → Bool
can_run asleep = false
can_run ended = false
can_run _ = true

-- No thread can take a step.
idle-stuck :
    {e : Event} {m : ThreadPool} (ws : List Worker)
    → All (λ w. can_run w ≡ false) ws
    → Step (idle true true ws) e m
    → ⊥
idle-stuck ws rest (submits task runs) = true≢false runs
idle-stuck ws rest (enqueues task before after e free) = cons_nowhere task before after e
idle-stuck ws rest (notifies n before after none_left e) = absurd (omega (arith, none_left))
idle-stuck ws rest (notifies_none n none_left e) = absurd (omega (arith, none_left))
idle-stuck ws rest (tests before after e free) = true≢false (
    All-middle (λ w. can_run w ≡ false) starting before after
      (subst (All (λ w. can_run w ≡ false)) e rest))
idle-stuck ws rest (sleeps before after e) = true≢false (
    All-middle (λ w. can_run w ≡ false) tested before after
      (subst (All (λ w. can_run w ≡ false)) e rest))
idle-stuck ws rest (finishes task before after e) = true≢false (
    All-middle (λ w. can_run w ≡ false) (running task) before after
      (subst (All (λ w. can_run w ≡ false)) e rest))
idle-stuck ws rest (stops runs) = true≢false runs
idle-stuck ws rest (notifies_all e not_yet) = true≢false not_yet

wake-workers_at : (n : ℕ) → map wake (workers_at n) ≡ workers_at n
wake-workers_at zero = refl
wake-workers_at (suc n) = ap (λ ws. starting ∷ ws) (wake-workers_at n)

workers_at-IsFree : (n : ℕ) → IsFree (workers_at n)
workers_at-IsFree zero = tt
workers_at-IsFree (suc n) = (refl, workers_at-IsFree n)

-- A worker that has not started returns from a pool that was stopped.
worker_returns :
    (n : ℕ) (before : List Worker)
    → IsFree before
    → Step
        (idle true true (before ++ starting ∷ workers_at n))
        quiet
        (idle true true (before ++ ended ∷ workers_at n))
unfolding leave_wait
worker_returns n before free = tests before (workers_at n) refl (
    All-append (λ w. is_tested w ≡ false) before (workers_at (suc n)) free
      (workers_at-IsFree (suc n)))

abbrev Returned : List Worker → List Worker → Type 0
Returned before rest =
    (ws : List Worker) × (events : List Event) × All (λ w. is_ended w ≡ true) ws
    × Reach (idle true true (before ++ rest)) events (idle true true (before ++ ws))

workers_return : (n : ℕ) (before : List Worker) → IsFree before → Returned before (workers_at n)
workers_return zero before free = ([], [], tt, here)
workers_return (suc n) before free =
    let (ws, events, all_ended, run) =
      workers_return n (before ++ ended ∷ [])
        (All-append (λ w. is_tested w ≡ false) before (ended ∷ []) free (refl, tt)) in
    (
      ended ∷ ws,
      quiet ∷ events,
      (refl, all_ended),
      next (worker_returns n before free) (
          subst (λ xs. Reach (idle true true xs) events (idle true true (before ++ ended ∷ ws)))
            (append_assoc before (ended ∷ []) (workers_at n))
            (subst
              (λ xs.
                Reach (idle true true ((before ++ ended ∷ []) ++ workers_at n)) events
                  (idle true true xs))
              (append_assoc before (ended ∷ []) ws) run)),
    )

-- The first worker finds nothing to do; before it sleeps, the destructor stores and notifies.
missed :
    (n : ℕ)
    → Reach
        (idle false false (workers_at (suc n)))
        (quiet ∷ quiet ∷ quiet ∷ quiet ∷ [])
        (idle true true (asleep ∷ workers_at n))
unfolding leave_wait
missed n = next (tests [] (workers_at n) refl (workers_at-IsFree (suc n))) (
    next (stops refl) (
      next (notifies_all refl refl) (
        next (sleeps [] (map wake (workers_at n)) refl) (
          subst
            (λ ws.
              Reach (idle true true (asleep ∷ map wake (workers_at n))) []
                (idle true true (asleep ∷ ws)))
            (wake-workers_at n) here))))

Reach-append :
    {s m e : ThreadPool} {first second : List Event}
    → Reach s first m
    → Reach m second e
    → Reach s (first ++ second) e
Reach-append here run = run
Reach-append (next step rest) run = next step (Reach-append rest run)

positive : (n : ℕ) → (suc n == 0) ≡ false
positive n = ground arith

new_thread_pool-idle :
    (thread_count : ℕ)
    → (n : ℕ) × (new_thread_pool thread_count ≡ idle false false (workers_at (suc n)))
unfolding new_thread_pool
new_thread_pool-idle zero = (0, refl)
new_thread_pool-idle (suc n) = (n, rw (positive n) refl)

ended-rest : (ws : List Worker) → All (λ w. is_ended w ≡ true) ws → All (λ w. can_run w ≡ false) ws
ended-rest ws all_ended = All-map rests ws all_ended
  where
    rests : (w : Worker) → is_ended w ≡ true → can_run w ≡ false
    rests ended e = refl
    rests starting e = absurd (false≢true e)
    rests tested e = absurd (false≢true e)
    rests asleep e = refl
    rests (running task) e = absurd (false≢true e)

-- A pool of any size, to which nothing was submitted, can come to a state in which the destructor has
-- stored m_stopping and called notify_all, the first worker is asleep in wait, the others have
-- returned, and no thread can take a step: the first join never returns unless the worker wakes up
-- without a notification.
pub lost_wakeup :
    (thread_count : ℕ)
    → (s : ThreadPool) × (events : List Event) × (others : List Worker) × Reach
        (new_thread_pool thread_count)
        events
        s
      × (s.stopping ≡ true)
      × (s.notified ≡ true)
      × (s.workers ≡ asleep ∷ others)
      × All (λ w. is_ended w ≡ true) others
      × ((event : Event) (m : ThreadPool) → Step s event m → ⊥)
lost_wakeup thread_count =
    let (n, start) = new_thread_pool-idle thread_count in
    let (ws, events, all_ended, run) = workers_return n (asleep ∷ []) (refl, tt) in
    let s = idle true true (asleep ∷ ws) in
    let all = (quiet ∷ quiet ∷ quiet ∷ quiet ∷ []) ++ events in
    (
      s,
      all,
      ws,
      subst (λ p. Reach p all s) (sym start) (Reach-append (missed n) run),
      refl,
      refl,
      refl,
      all_ended,
      λ event m step. idle-stuck (asleep ∷ ws) (refl, ended-rest ws all_ended) step,
    )
