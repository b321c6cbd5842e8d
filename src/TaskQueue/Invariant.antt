-- ===== src/TaskQueue/Invariant.antt =====
-- Nothing is lost on the way through a TaskQueue.
use clibdpa.Base.{
  ◌≡◌, refl, sym, subst, Bool, true, false, List, [], ◌∷◌, Option, none, some, if◌then◌else◌, arith,
}
use clibdpa.TaskQueue.{
  TaskQueue, Worker, checking, waiting, processing, joined, locked_twice, new, push_to_queue,
  stop_queue, worker_step, drain, take_task,
}
use clibdpa.TaskQueue.Steps.{
  System, Step, pushes, stops, works, Reach, here, next, start, holds_lock,
}

module _ {ℓ} {T : Type ℓ} where
  abbrev pub is_empty : List T → Bool
  is_empty [] = true
  is_empty (task ∷ rest) = false

  -- What the worker may rely on where it stands: in the wait a pushed task or a stop has raised the
  -- flag; the lock is held at the outer condition only after a stop; and it is never taken twice.
  abbrev pub Placed : TaskQueue T → Worker T → Type 0
  Placed q (checking held) =
      (held ≡ true → q.m_run_worker_thread ≡ false)
      × (q.m_run_worker_thread ≡ true → is_empty q.m_task_queue ≡ false → q.m_task_pushed ≡ true)
  Placed q waiting =
      (q.m_run_worker_thread ≡ false → q.m_task_pushed ≡ true)
      × (is_empty q.m_task_queue ≡ false → q.m_task_pushed ≡ true)
  Placed q (processing task) = Unit
  Placed q joined = q.m_run_worker_thread ≡ false
  Placed q locked_twice = ⊥

  push-Placed :
      (q : TaskQueue T) (w : Worker T) (task : T)
      → holds_lock w ≡ false
      → Placed q w
      → Placed (push_to_queue q task).0 w
  unfolding push_to_queue
  push-Placed q (checking held) task l p = ground arith
  push-Placed q waiting task l p = ground arith
  push-Placed q (processing t) task l p = tt
  push-Placed q joined task l p = p
  push-Placed q locked_twice task l p = p

  stop-Placed : (q : TaskQueue T) (w : Worker T) → Placed q w → Placed (stop_queue q) w
  unfolding stop_queue
  stop-Placed q (checking held) p = ground arith
  stop-Placed q waiting p = ground arith
  stop-Placed q (processing t) p = tt
  stop-Placed q joined p = refl
  stop-Placed q locked_twice p = p

  abbrev IsPlaced : TaskQueue T × Worker T → Type 0
  IsPlaced r = Placed r.0 r.1

  -- A step that is possible ends in a place that the worker may rely on.
  abbrev StepsPlaced : Option (TaskQueue T × Worker T) → Type 0
  StepsPlaced none = Unit
  StepsPlaced (some r) = IsPlaced r

  drained :
      (q : TaskQueue T) (run : Bool) (tasks : List T)
      → q.m_run_worker_thread ≡ run
      → q.m_task_queue ≡ tasks
      → IsPlaced (if run then take_task q tasks else (q, checking true))
  unfolding take_task
  drained q true [] r e = (λ h. cc, λ _ h. absurd (cc h))
  drained q true (task ∷ rest) r e = tt
  drained q false tasks r e = (λ _. r, λ h. cc)

  drain-Placed : (q : TaskQueue T) → IsPlaced (drain q)
  unfolding drain
  drain-Placed q = drained q q.m_run_worker_thread q.m_task_queue refl refl

  checked :
      (q : TaskQueue T) (held run : Bool)
      → q.m_run_worker_thread ≡ run
      → Placed q (checking held)
      → StepsPlaced
          (if run then some (q, if held then locked_twice else waiting) else some (q, joined))
  checked q true true r p = absurd (cc (p.0 refl, r))
  checked q false true r p = (λ h. cc, p.1 r)
  checked q held false r p = r

  woken :
      (q : TaskQueue T) (pushed : Bool)
      → StepsPlaced (if pushed then some (drain (record q { m_task_pushed = false })) else none)
  woken q true = drain-Placed (record q { m_task_pushed = false })
  woken q false = tt

  worker_step-Placed : (q : TaskQueue T) (w : Worker T) → Placed q w → StepsPlaced (worker_step q w)
  unfolding worker_step
  worker_step-Placed q (checking held) p = checked q held q.m_run_worker_thread refl p
  worker_step-Placed q waiting p = woken q q.m_task_pushed
  worker_step-Placed q (processing t) p = drain-Placed q
  worker_step-Placed q joined p = tt
  worker_step-Placed q locked_twice p = tt

  work-Placed :
      (q : TaskQueue T) (w : Worker T) (q' : TaskQueue T) (w' : Worker T)
      → Placed q w
      → worker_step q w ≡ some (q', w')
      → Placed q' w'
  work-Placed q w q' w' p e = subst StepsPlaced e (worker_step-Placed q w p)

  pub Step-Placed : {s u : System T} → Step s u → Placed s.queue s.worker → Placed u.queue u.worker
  Step-Placed {s} {u} (pushes task l e) p =
      subst (λ k. Placed k.queue k.worker) (sym e) (push-Placed s.queue s.worker task l p)
  Step-Placed {s} {u} (stops l e) p =
      subst (λ k. Placed k.queue k.worker) (sym e) (stop-Placed s.queue s.worker p)
  Step-Placed {s} {u} (works q w h e) p =
      subst (λ k. Placed k.queue k.worker) (sym e) (work-Placed s.queue s.worker q w p h)

  -- In every reachable state of the threads: no wakeup is lost, as a worker in its wait with a task in
  -- the queue, or after a stop, finds the flag raised; and the worker never locks a lock that it
  -- holds, although the inner loop can leave it held.
  pub Reach-Placed : {s : System T} → Reach start s → Placed s.queue s.worker
  unfolding new
  Reach-Placed here = (λ h. cc, λ _ h. absurd (cc h))
  Reach-Placed (next r st) = Step-Placed st (Reach-Placed r)
