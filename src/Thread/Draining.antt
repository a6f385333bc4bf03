-- ===== src/Thread/Draining.antt =====
-- The end of the workers of common/thread/ThreadPool.cpp.
use mathlib.Core.Bool.{false≢true}
use yolo_server.Prelude.{
  ℕ, ◌≡◌, ◌⊎◌, inl, inr, refl, sym, ap, ◌∙◌, subst, Bool, true, false, List, [], ◌∷◌, ◌++◌, map,
  append-nil, All,
}
use yolo_server.Thread.Workers.{
  is_ended, Worker, ThreadPool, Event, event_of, leave_wait, wake, Step, submits, enqueues,
  notifies, notifies_none, tests, sleeps, finishes, stops, notifies_all, Reach, here, next,
  starting, tested, asleep, ended, running,
}
use yolo_server.Thread.Places.{All-replace, All-middle, is_nil, cons_nowhere}
use yolo_server.Thread.Order.{pushed_by, pushed, begun, queue_order}

abbrev IsLive : Worker → Type 0
IsLive w = is_ended w ≡ false

-- A pool that was stopped, with no submit on its way: no worker has returned, or no task waits.
abbrev IsStopped : ThreadPool → Type 0
IsStopped s = (s.stopping ≡ true) × (s.in_flight ≡ []) × (All IsLive s.workers ⊎ (s.tasks ≡ []))

wake-IsLive : (ws : List Worker) → All IsLive ws → All IsLive (map wake ws)
wake-IsLive [] h = tt
wake-IsLive (w ∷ ws) h = (woken w h.0, wake-IsLive ws h.1)
  where
    woken : (w : Worker) → IsLive w → IsLive (wake w)
    woken asleep live = refl
    woken starting live = live
    woken tested live = live
    woken ended live = live
    woken (running task) live = live

-- A worker that does not return takes the place of another.
moved :
    (s : ThreadPool) (x y : Worker) (before after : List Worker)
    → s.workers ≡ before ++ x ∷ after
    → is_ended y ≡ false
    → All IsLive s.workers ⊎ (s.tasks ≡ [])
    → All IsLive (before ++ y ∷ after) ⊎ (s.tasks ≡ [])
moved s x y before after e live (inl h) =
    inl (All-replace IsLive x y before after live (subst (All IsLive) e h))
moved s x y before after e live (inr h) = inr h

-- The worker that leaves wait on a pool that was stopped takes a task, or there is none.
leave_wait-stopped :
    (tasks : List ℕ) (ws before after : List Worker)
    → ws ≡ before ++ starting ∷ after
    → All IsLive ws ⊎ (tasks ≡ [])
    → let (w, left) = leave_wait true tasks in
      (All IsLive (before ++ w ∷ after) ⊎ (left ≡ [])) × (pushed_by (event_of w) ≡ [])
unfolding leave_wait
leave_wait-stopped [] ws before after e h = (inr refl, refl)
leave_wait-stopped (task ∷ tasks) ws before after e (inr h) = absurd (false≢true (ap is_nil h))
leave_wait-stopped (task ∷ tasks) ws before after e (inl h) = (
  inl (All-replace IsLive starting (running task) before after refl (subst (All IsLive) e h)),
  refl,
)

Step-IsStopped :
    {s m : ThreadPool} {e : Event} → Step s e m → IsStopped s → IsStopped m × (pushed_by e ≡ [])
Step-IsStopped {s} (submits task runs) (stopped, empty, h) =
    absurd (false≢true (sym runs ∙ stopped))
Step-IsStopped {s} (enqueues task before after e free) (stopped, empty, h) =
    absurd (cons_nowhere task before after (sym empty ∙ e))
Step-IsStopped {s} (notifies n before after e f) (stopped, empty, h) =
    ((stopped, empty, moved s asleep starting before after f refl h), refl)
Step-IsStopped {s} (notifies_none n e f) h = (h, refl)
Step-IsStopped {s} (tests before after e free) (stopped, empty, h) =
    let P : Bool → Type 0 = λ b.
      (All IsLive (before ++ (leave_wait b s.tasks).0 ∷ after) ⊎ ((leave_wait b s.tasks).1 ≡ []))
      × (pushed_by (event_of (leave_wait b s.tasks).0) ≡ []) in
    let (left, silent) =
      subst P (sym stopped) (leave_wait-stopped s.tasks s.workers before after e h) in
    ((stopped, empty, left), silent)
Step-IsStopped {s} (sleeps before after e) (stopped, empty, h) =
    ((stopped, empty, moved s tested asleep before after e refl h), refl)
Step-IsStopped {s} (finishes task before after e) (stopped, empty, h) =
    ((stopped, empty, moved s (running task) starting before after e refl h), refl)
Step-IsStopped {s} (stops runs) (stopped, empty, h) = absurd (false≢true (sym runs ∙ stopped))
Step-IsStopped {s} (notifies_all e f) (stopped, empty, inl h) =
    ((stopped, empty, inl (wake-IsLive s.workers h)), refl)
Step-IsStopped {s} (notifies_all e f) (stopped, empty, inr h) = ((stopped, empty, inr h), refl)

Reach-IsStopped :
    {s e : ThreadPool} {events : List Event}
    → Reach s events e
    → IsStopped s
    → IsStopped e × (pushed events ≡ [])
Reach-IsStopped here h = (h, refl)
Reach-IsStopped (next {event = event} {events = events} step rest) h =
    let (mid, none_pushed) = Step-IsStopped step h in
    let (end, rest_pushed) = Reach-IsStopped rest mid in
    (end, ap (λ xs. xs ++ pushed events) none_pushed ∙ rest_pushed)

-- From a pool that was stopped while no submit was on its way and before any worker had returned:
-- once some worker has returned, no task waits, and the workers have begun exactly the tasks that
-- waited at the stop, in order.
pub stopped_drains :
    (s e : ThreadPool) (events : List Event) (before after : List Worker)
    → s.stopping ≡ true
    → s.in_flight ≡ []
    → All (λ w. is_ended w ≡ false) s.workers
    → Reach s events e
    → e.workers ≡ before ++ ended ∷ after
    → (e.tasks ≡ []) × (begun events ≡ s.tasks)
stopped_drains s e events before after stopped empty live run some_ended =
    let (end, none_pushed) = Reach-IsStopped run (stopped, empty, inl live) in
    let no_tasks = left end.2 in
    (
      no_tasks,
      sym (append-nil (begun events))
          ∙ ap (λ xs. begun events ++ xs) (sym no_tasks)
          ∙ sym (queue_order run)
          ∙ ap (λ xs. s.tasks ++ xs) none_pushed
          ∙ append-nil s.tasks,
    )
  where
    left : All IsLive e.workers ⊎ (e.tasks ≡ []) → e.tasks ≡ []
    left (inr h) = h
    left (inl h) =
        absurd (
          false≢true (sym (All-middle IsLive ended before after (subst (All IsLive) some_ended h))))
