-- ===== src/TaskQueue/Progress.antt =====
-- The worker of a TaskQueue gets through its tasks.
use mathlib.Core.List.{append-nil}
use clibdpa.Base.{◌≡◌, refl, sym, ap, ◌∙◌, Bool, true, false, List, [], ◌∷◌, ◌++◌}
use clibdpa.TaskQueue.{
  TaskQueue, Worker, checking, waiting, processing, joined, locked_twice, worker_step,
}
use clibdpa.TaskQueue.Steps.{System, Step, works, Reach, here, next, start}
use clibdpa.TaskQueue.Invariant.{Placed, Reach-Placed}
use clibdpa.TaskQueue.Fifo.{Reach-InOrder}

module _ {ℓ} {T : Type ℓ} where
  Reach-trans : {s u v : System T} → Reach s u → Reach u v → Reach s v
  Reach-trans r here = r
  Reach-trans r (next q st) = next (Reach-trans r q) st

  -- The worker can go on to an empty queue, with nothing pushed meanwhile.
  abbrev WorksOff : System T → Type ℓ
  WorksOff s = (u : System T) × Reach s u × (u.queue.m_task_queue ≡ []) × (u.pushed ≡ s.pushed)

  abbrev running : List T → Bool → Worker T → List T → List T → System T
  running tasks flag w pushed taken = record {
    queue = record { m_task_queue = tasks; m_task_pushed = flag; m_run_worker_thread = true };
    worker = w;
    pushed = pushed;
    taken = taken;
  }

  first : {s u : System T} → Step s u → s.pushed ≡ u.pushed → WorksOff u → WorksOff s
  first st e (v, r, q, p) = (v, Reach-trans (next here st) r, q, p ∙ sym e)

  process_all :
      (tasks : List T) (flag : Bool) (t : T) (pushed taken : List T)
      → WorksOff (running tasks flag (processing t) pushed taken)
  unfolding worker_step
  process_all [] flag t pushed taken = (
    running [] flag (checking false) pushed (taken ++ []),
    next here (works _ _ refl refl),
    refl,
    refl,
  )
  process_all (x ∷ xs) flag t pushed taken =
      first (works _ _ refl refl) refl (process_all xs flag x pushed (taken ++ x ∷ []))

  wait_all :
      (tasks : List T) (flag : Bool) (pushed taken : List T)
      → Placed (running tasks flag waiting pushed taken).queue waiting
      → WorksOff (running tasks flag waiting pushed taken)
  unfolding worker_step
  wait_all [] flag pushed taken p = (running [] flag waiting pushed taken, here, refl, refl)
  wait_all (x ∷ xs) true pushed taken p =
      first (works _ _ refl refl) refl (process_all xs false x pushed (taken ++ x ∷ []))
  wait_all (x ∷ xs) false pushed taken p = absurd (cc (p.1 refl))

  abbrev queue_of : List T → Bool → Bool → TaskQueue T
  queue_of tasks flag run = record {
    m_task_queue = tasks;
    m_task_pushed = flag;
    m_run_worker_thread = run;
  }

  work_off :
      (tasks : List T) (flag run : Bool) (w : Worker T) (pushed taken : List T)
      → run ≡ true
      → Placed (queue_of tasks flag run) w
      → WorksOff
          (record { queue = queue_of tasks flag run; worker = w; pushed = pushed; taken = taken })
  unfolding worker_step
  work_off tasks flag true (checking true) pushed taken e p = absurd (cc (p.0 refl))
  work_off tasks flag true (checking false) pushed taken e p =
      first (works _ _ refl refl) refl
        (wait_all tasks flag pushed (taken ++ []) (λ h. cc, p.1 refl))
  work_off tasks flag true waiting pushed taken e p = wait_all tasks flag pushed taken p
  work_off tasks flag true (processing t) pushed taken e p = process_all tasks flag t pushed taken
  work_off tasks flag true joined pushed taken e p = absurd (cc p)
  work_off tasks flag true locked_twice pushed taken e p = absurd p
  work_off tasks flag false w pushed taken e p = absurd (cc e)

-- From every reachable state of a queue that is not stopped there is a way on, with the processing function
-- returning and nothing more pushed, to a state where the queue is empty and every
-- task that was pushed has been handed to the processing function, in order.
pub Reach-works_off {ℓ} :
    {T : Type ℓ} {s : System T}
    → Reach start s
    → s.queue.m_run_worker_thread ≡ true
    → (u : System T) × Reach s u
      × (u.queue.m_task_queue ≡ [])
      × (u.pushed ≡ s.pushed)
      × (u.taken ≡ s.pushed)
Reach-works_off {s} r e =
    let (u, q, n, p) =
      work_off s.queue.m_task_queue s.queue.m_task_pushed s.queue.m_run_worker_thread s.worker
        s.pushed s.taken e (Reach-Placed r) in
    (
      u,
      q,
      n,
      p,
      sym (append-nil u.taken) ∙ ap (◌++◌ u.taken) (sym n) ∙ Reach-InOrder (Reach-trans r q) ∙ p,
    )
