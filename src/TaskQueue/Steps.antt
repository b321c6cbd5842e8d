-- ===== src/TaskQueue/Steps.antt =====
-- The threads of a TaskQueue: any callers, and the worker.
use clibdpa.Base.{◌≡◌, Bool, false, List, [], ◌∷◌, ◌++◌, some}
use clibdpa.TaskQueue.{
  TaskQueue, Worker, checking, processing, new, push_to_queue, stop_queue, worker_step,
}

-- The tasks that were ever pushed, and those that were handed to the processing function, each in
-- order.
pub record System {ℓ} (T : Type ℓ) : Type ℓ where
  pub queue : TaskQueue T
  pub worker : Worker T
  pub pushed : List T
  pub taken : List T

module _ {ℓ} {T : Type ℓ} where
  abbrev pub start : System T
  start = record { queue = new; worker = checking false; pushed = []; taken = [] }

  -- The worker stands at a point where it holds the lock.
  abbrev pub holds_lock : Worker T → Bool
  holds_lock (checking held) = held
  holds_lock _ = false

  -- The task that the worker has just taken up.
  abbrev pub taken_up : Worker T → List T
  taken_up (processing task) = task ∷ []
  taken_up _ = []

  -- Callers get the lock only while the worker does not hold it.
  pub data Step (s u : System T) : Type ℓ where
    pushes :
        (task : T)
        → holds_lock s.worker ≡ false
        → u ≡ record s { queue = (push_to_queue s.queue task).0; pushed = s.pushed ++ task ∷ [] }
        → Step s u
    stops : holds_lock s.worker ≡ false → u ≡ record s { queue = stop_queue s.queue } → Step s u
    works :
        (q : TaskQueue T) (w : Worker T)
        → worker_step s.queue s.worker ≡ some (q, w)
        → u ≡ record s { queue = q; worker = w; taken = s.taken ++ taken_up w }
        → Step s u

  pub data Reach (s : System T) : System T → Type ℓ where
    here : Reach s s
    next : {u v : System T} → Reach s u → Step u v → Reach s v
