-- ===== src/Thread/Order.antt =====
-- The order of the tasks of common/thread/ThreadPool.cpp.
use yolo_server.Prelude.{
  ℕ, ◌≡◌, refl, sym, ap, ◌∙◌, Bool, true, false, List, [], ◌∷◌, ◌++◌, append_assoc, append-nil,
}
use yolo_server.Thread.Workers.{
  ThreadPool, Event, pushes, begins, event_of, leave_wait, Step, submits, enqueues, notifies,
  notifies_none, tests, sleeps, finishes, stops, notifies_all, Reach, here, next,
}

abbrev pub pushed_by : Event → List ℕ
pushed_by (pushes task) = task ∷ []
pushed_by _ = []

abbrev pub begun_by : Event → List ℕ
begun_by (begins task) = task ∷ []
begun_by _ = []

-- The tasks that were pushed, and those that were begun, in order.
abbrev pub pushed : List Event → List ℕ
pushed [] = []
pushed (e ∷ es) = pushed_by e ++ pushed es

abbrev pub begun : List Event → List ℕ
begun [] = []
begun (e ∷ es) = begun_by e ++ begun es

leave_wait-order :
    (stopping : Bool) (tasks : List ℕ)
    → let (w, left) = leave_wait stopping tasks in
      tasks ++ pushed_by (event_of w) ≡ begun_by (event_of w) ++ left
unfolding leave_wait
leave_wait-order true [] = refl
leave_wait-order false [] = refl
leave_wait-order stopping (task ∷ tasks) = append-nil (task ∷ tasks)

Step-order :
    {s m : ThreadPool} {e : Event} → Step s e m → s.tasks ++ pushed_by e ≡ begun_by e ++ m.tasks
Step-order {s} (submits task e) = append-nil s.tasks
Step-order {s} (enqueues task before after e free) = refl
Step-order {s} (notifies n before after e f) = append-nil s.tasks
Step-order {s} (notifies_none n e f) = append-nil s.tasks
Step-order {s} (tests before after e free) = leave_wait-order s.stopping s.tasks
Step-order {s} (sleeps before after e) = append-nil s.tasks
Step-order {s} (finishes task before after e) = append-nil s.tasks
Step-order {s} (stops e) = append-nil s.tasks
Step-order {s} (notifies_all e f) = append-nil s.tasks

-- However the threads interleave, what waited first, followed by what submit pushed, is what the
-- workers began, followed by what waits at the end: the pool is a queue, and each task is begun at
-- most once, in the order of the pushes.
pub queue_order :
    {s e : ThreadPool} {events : List Event}
    → Reach s events e
    → s.tasks ++ pushed events ≡ begun events ++ e.tasks
queue_order {s} here = append-nil s.tasks
queue_order {s} {e} (next {m = m} {event = event} {events = events} step rest) =
    sym (append_assoc s.tasks (pushed_by event) (pushed events))
    ∙ ap (λ xs. xs ++ pushed events) (Step-order step)
    ∙ append_assoc (begun_by event) m.tasks (pushed events)
    ∙ ap (λ xs. begun_by event ++ xs) (queue_order rest)
    ∙ sym (append_assoc (begun_by event) (begun events) e.tasks)
