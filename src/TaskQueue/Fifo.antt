-- ===== src/TaskQueue/Fifo.antt =====
-- A TaskQueue against its contract: a sequence of tasks that are worked on in the order of their
-- arrival, each once.
use mathlib.Core.List.{append_assoc}
use clibdpa.Base.{
  ◌≡◌, refl, sym, ap, subst, ◌∙◌, Bool, true, false, List, [], ◌∷◌, ◌++◌, Option, none, some,
  if◌then◌else◌,
}
use clibdpa.TaskQueue.{
  TaskQueue, Worker, checking, waiting, processing, joined, locked_twice, new, push_to_queue,
  stop_queue, worker_step, drain, take_task,
}
use clibdpa.TaskQueue.Steps.{System, Step, pushes, stops, works, Reach, here, next, start, taken_up}

module _ {ℓ} {T : Type ℓ} where
  -- The tasks that are handed over by a step, followed by those that are left, are those before it.
  abbrev Conserves : List T → Option (TaskQueue T × Worker T) → Type ℓ
  Conserves tasks none = Unit
  Conserves tasks (some r) = taken_up r.1 ++ r.0.m_task_queue ≡ tasks

  drained :
      (q : TaskQueue T) (run : Bool) (tasks : List T)
      → q.m_task_queue ≡ tasks
      → Conserves tasks (some (if run then take_task q tasks else (q, checking true)))
  unfolding take_task
  drained q true [] e = e
  drained q true (task ∷ rest) e = refl
  drained q false tasks e = e

  drain-Conserves : (q : TaskQueue T) → Conserves q.m_task_queue (some (drain q))
  unfolding drain
  drain-Conserves q = drained q q.m_run_worker_thread q.m_task_queue refl

  checked :
      (q : TaskQueue T) (held run : Bool)
      → Conserves q.m_task_queue
          (if run then some (q, if held then locked_twice else waiting) else some (q, joined))
  checked q true true = refl
  checked q false true = refl
  checked q held false = refl

  woken :
      (q : TaskQueue T) (pushed : Bool)
      → Conserves q.m_task_queue
          (if pushed then some (drain (record q { m_task_pushed = false })) else none)
  woken q true = drain-Conserves (record q { m_task_pushed = false })
  woken q false = tt

  worker_step-Conserves :
      (q : TaskQueue T) (w : Worker T) → Conserves q.m_task_queue (worker_step q w)
  unfolding worker_step
  worker_step-Conserves q (checking held) = checked q held q.m_run_worker_thread
  worker_step-Conserves q waiting = woken q q.m_task_pushed
  worker_step-Conserves q (processing t) = drain-Conserves q
  worker_step-Conserves q joined = tt
  worker_step-Conserves q locked_twice = tt

  -- What was handed to the processing function and what is still queued are what was pushed.
  abbrev pub InOrder : System T → Type ℓ
  InOrder s = s.taken ++ s.queue.m_task_queue ≡ s.pushed

  Step-InOrder : {s u : System T} → Step s u → InOrder s → InOrder u
  unfolding push_to_queue stop_queue
  Step-InOrder {s} (pushes task l e) h =
      subst InOrder (sym e)
        (sym (append_assoc s.taken s.queue.m_task_queue (task ∷ [])) ∙ ap (λ k. k ++ task ∷ []) h)
  Step-InOrder {s} (stops l e) h = subst InOrder (sym e) h
  Step-InOrder {s} (works q w f e) h = subst InOrder (sym e) (
      append_assoc s.taken (taken_up w) q.m_task_queue
      ∙ ap (◌++◌ s.taken)
          (subst (Conserves s.queue.m_task_queue) f (worker_step-Conserves s.queue s.worker))
      ∙ h)

  -- First in, first out, in every reachable state of the threads: the tasks handed to the processing
  -- function so far, followed by the tasks in the queue, are the tasks pushed so far, in order. So
  -- none is lost, repeated or overtaken, also when the queue is stopped.
  pub Reach-InOrder : {s : System T} → Reach start s → InOrder s
  unfolding new
  Reach-InOrder here = refl
  Reach-InOrder (next r st) = Step-InOrder st (Reach-InOrder r)
