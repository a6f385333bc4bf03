-- ===== src/Thread/Workers.antt =====
-- common/thread/ThreadPool.cpp, as steps of its threads. A task is a number; what it does, and whether
-- it throws, does not matter to the pool.
use yolo_server.Prelude.{
  ℕ, zero, suc, ◌≡◌, Bool, true, false, List, [], ◌∷◌, ◌++◌, map, All, if◌then◌else◌, ◌==◌,
}

-- Where a worker is in workerLoop: before it locks the mutex; with the mutex, once the test of wait
-- was false; asleep in wait; in task(); returned.
pub data Worker : Type 0 where
  starting tested asleep ended : Worker
  running : ℕ → Worker

-- m_tasks, m_stopping and the workers; the tasks of the calls of submit that have read m_stopping and
-- have not pushed, the number of those that have
-- pushed and not notified; and whether the destructor has called notify_all.
pub record ThreadPool : Type 0 where
  pub tasks : List ℕ
  pub stopping : Bool
  pub workers : List Worker
  pub in_flight : List ℕ
  pub notices : ℕ
  pub notified : Bool

abbrev pub workers_at : ℕ → List Worker
workers_at zero = []
workers_at (suc n) = starting ∷ workers_at n

-- The constructor.
unfoldable pub new_thread_pool : ℕ → ThreadPool
new_thread_pool thread_count = record {
  tasks = [];
  stopping = false;
  workers = if thread_count == 0 then workers_at 1 else workers_at thread_count;
  in_flight = [];
  notices = 0;
  notified = false;
}

abbrev pub is_tested : Worker → Bool
is_tested tested = true
is_tested _ = false

abbrev pub is_asleep : Worker → Bool
is_asleep asleep = true
is_asleep _ = false

abbrev pub is_ended : Worker → Bool
is_ended ended = true
is_ended _ = false

-- No worker has the mutex.
abbrev pub IsFree : List Worker → Type 0
IsFree ws = All (λ w. is_tested w ≡ false) ws

-- What wait and the two lines behind it do with the mutex held: the worker, and m_tasks.
unfoldable pub leave_wait : Bool → List ℕ → Worker × List ℕ
leave_wait stopping [] = (if stopping then ended else tested, [])
leave_wait stopping (task ∷ tasks) = (running task, tasks)

abbrev pub wake : Worker → Worker
wake asleep = starting
wake w = w

-- What a step shows: a task is pushed, or a worker begins one.
pub data Event : Type 0 where
  pushes begins : ℕ → Event
  quiet : Event

abbrev pub event_of : Worker → Event
event_of (running task) = begins task
event_of _ = quiet

-- A step of one thread; a wake-up without a notification is left out.
pub data Step : ThreadPool → Event → ThreadPool → Type 0 where
  -- submit: m_stopping is read as false.
  submits :
      {s : ThreadPool} (task : ℕ)
      → s.stopping ≡ false
      → Step s quiet (record s { in_flight = task ∷ s.in_flight })
  -- submit: the push.
  enqueues :
      {s : ThreadPool} (task : ℕ) (before after : List ℕ)
      → s.in_flight ≡ before ++ task ∷ after
      → IsFree s.workers
      → Step s (pushes task) (record s {
        in_flight = before ++ after;
        tasks = s.tasks ++ task ∷ [];
        notices = suc s.notices;
      })
  -- submit: notify_one, with a thread asleep and with none.
  notifies :
      {s : ThreadPool} (n : ℕ) (before after : List Worker)
      → s.notices ≡ suc n
      → s.workers ≡ before ++ asleep ∷ after
      → Step s quiet (record s { notices = n; workers = before ++ starting ∷ after })
  notifies_none :
      {s : ThreadPool} (n : ℕ)
      → s.notices ≡ suc n
      → All (λ w. is_asleep w ≡ false) s.workers
      → Step s quiet (record s { notices = n })
  -- workerLoop: lock, and the test of wait.
  tests :
      {s : ThreadPool} (before after : List Worker)
      → s.workers ≡ before ++ starting ∷ after
      → IsFree s.workers
      → Step s (event_of (leave_wait s.stopping s.tasks).0) (record s {
        workers = before ++ (leave_wait s.stopping s.tasks).0 ∷ after;
        tasks = (leave_wait s.stopping s.tasks).1;
      })
  -- workerLoop: wait unlocks and sleeps.
  sleeps :
      {s : ThreadPool} (before after : List Worker)
      → s.workers ≡ before ++ tested ∷ after
      → Step s quiet (record s { workers = before ++ asleep ∷ after })
  -- workerLoop: the task returns or throws.
  finishes :
      {s : ThreadPool} (task : ℕ) (before after : List Worker)
      → s.workers ≡ before ++ running task ∷ after
      → Step s quiet (record s { workers = before ++ starting ∷ after })
  -- The destructor: the store, without the mutex, and notify_all.
  stops : {s : ThreadPool} → s.stopping ≡ false → Step s quiet (record s { stopping = true })
  notifies_all :
      {s : ThreadPool}
      → s.stopping ≡ true
      → s.notified ≡ false
      → Step s quiet (record s { workers = map wake s.workers; notified = true })

pub data Reach : ThreadPool → List Event → ThreadPool → Type 0 where
  here : {s : ThreadPool} → Reach s [] s
  next :
      {s m e : ThreadPool} {event : Event} {events : List Event}
      → Step s event m
      → Reach m events e
      → Reach s (event ∷ events) e
