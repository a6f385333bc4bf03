-- ===== src/Thread/Examples.antt =====
-- The theorems on common/thread/ThreadPool.cpp at concrete pools.
use yolo_server.Prelude.{◌≡◌, refl, true, List, [], ◌∷◌, ◌++◌, All}
use yolo_server.Thread.Workers.{
  Worker, ThreadPool, Event, begins, quiet, leave_wait, new_thread_pool, Step, tests, finishes,
  Reach, here, next, starting, asleep, ended, is_ended,
}
use yolo_server.Thread.Order.{pushed, begun, queue_order}
use yolo_server.Thread.Draining.{stopped_drains}
use yolo_server.Thread.Stuck.{lost_wakeup}

-- One worker; two tasks wait.
abbrev two_tasks : ThreadPool
two_tasks = record {
  tasks = 1 ∷ 2 ∷ [];
  stopping = true;
  workers = starting ∷ [];
  in_flight = [];
  notices = 0;
  notified = true;
}

abbrev history : List Event
history = begins 1 ∷ quiet ∷ begins 2 ∷ quiet ∷ quiet ∷ []

abbrev done : ThreadPool
done = record two_tasks { tasks = []; workers = ended ∷ [] }

-- The worker runs both and returns.
run : Reach two_tasks history done
unfolding leave_wait
run = next (tests [] [] refl (refl, tt)) (
    next (finishes 1 [] [] refl) (
      next (tests [] [] refl (refl, tt))
        (next (finishes 2 [] [] refl) (next (tests [] [] refl (refl, tt)) here))))

queue_order_example : (1 ∷ 2 ∷ []) ++ pushed history ≡ begun history ++ []
queue_order_example = queue_order run

stopped_drains_example : (done.tasks ≡ []) × (begun history ≡ 1 ∷ 2 ∷ [])
stopped_drains_example = stopped_drains two_tasks done history [] [] refl refl (refl, tt) run refl

lost_wakeup_example :
    (s : ThreadPool) × (events : List Event) × (others : List Worker) × Reach
      (new_thread_pool 2)
      events
      s
    × (s.stopping ≡ true)
    × (s.notified ≡ true)
    × (s.workers ≡ asleep ∷ others)
    × All (λ w. is_ended w ≡ true) others
    × ((event : Event) (m : ThreadPool) → Step s event m → ⊥)
lost_wakeup_example = lost_wakeup 2
