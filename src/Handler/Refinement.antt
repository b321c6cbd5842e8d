-- ===== src/Handler/Refinement.antt =====
-- The handler implements the queue of its transactions: seen through the queue, every step of the threads
-- is a step of the TaskQueue or none.
use clibdpa.Base.{
  ℕ, ◌≡◌, ◌⊎◌, inl, inr, refl, sym, ap, subst, ◌∙◌, Bool, List, ◌++◌, some, set, arith,
}
use clibdpa.TaskQueue.{stop_queue, worker_step}
use clibdpa.TaskQueue.Steps as QueueSteps
use clibdpa.TaskQueue.Fifo.{Reach-InOrder}
use clibdpa.Handler.Types.{Handler, init}
use clibdpa.Handler.Submit.{
  make_transaction, take_pending, begin_transaction, resume_transaction, shut_down,
}
use clibdpa.Handler.Pending.{OnlyPending, response_message_handler-OnlyPending}
use clibdpa.Transaction.Execute.{abort}
use clibdpa.Base.Int.{ℤ}
use clibdpa.Handler.Configured.{Configured-Rest}
use clibdpa.Handler.Steps.{
  System, Phase, picked, chosen, executing, worker_of, Step, Reach, makes, pushes, moves, picks,
  chooses, starts, resumes, returns, receives, aborts, configures, shuts_down, here, next,
}

module _ {H W : Type 0} where
  -- The handler seen through its queue.
  abbrev pub through_queue : System H W → QueueSteps.System ℕ
  through_queue s = record {
    queue = s.handler.m_dpa_transaction_queue;
    worker = worker_of s.phase;
    pushed = s.submitted;
    taken = s.taken;
  }

  begin-queue :
      (send_to : List ℕ → W → W × Bool) (fuel : ℕ) (h : Handler H) (ptr : ℕ) (error : ℤ) (w : W)
      {h' : Handler H} {v : W}
      → begin_transaction send_to fuel h ptr error w ≡ some (h', v)
      → h'.m_dpa_transaction_queue ≡ h.m_dpa_transaction_queue
  unfolding begin_transaction
  begin-queue send_to fuel h ptr error w e = ground arith

module _ {H : Type 0} where
  resume-queue :
      (fuel : ℕ) (h : Handler H) (ptr : ℕ) (expired : Bool) {h' : Handler H}
      → resume_transaction fuel h ptr expired ≡ some h'
      → h'.m_dpa_transaction_queue ≡ h.m_dpa_transaction_queue
  unfolding resume_transaction
  resume-queue fuel h ptr expired e = ground arith

  shut_down-queue :
      (h : Handler H) → (shut_down h).m_dpa_transaction_queue ≡ stop_queue h.m_dpa_transaction_queue
  unfolding shut_down
  shut_down-queue h = ground arith

  pending-queue :
      (h h' : Handler H) → OnlyPending h h' → h'.m_dpa_transaction_queue ≡ h.m_dpa_transaction_queue
  pending-queue h h' (inl e) = ap (λ k. k.m_dpa_transaction_queue) e
  pending-queue h h' (inr (ptr, _, t, _, _, _, _, _, e)) = ap (λ k. k.m_dpa_transaction_queue) e

module _ {H W : Type 0} (send_to : List ℕ → W → W × Bool) where
  -- A step of the handler's threads is a step of the queue's or none.
  abbrev Simulated : System H W → System H W → Type 0
  Simulated s u =
      (through_queue u ≡ through_queue s) ⊎ QueueSteps.Step (through_queue s) (through_queue u)

  -- No step of the queue: its state, and the place of the worker in it, are as before.
  unmoved :
      (s u : System H W) (h : Handler H) (p : Phase)
      → h.m_dpa_transaction_queue ≡ s.handler.m_dpa_transaction_queue
      → worker_of p ≡ worker_of s.phase
      → (v : W) → u ≡ record s { handler = h; phase = p; world = v }
      → Simulated s u
  unmoved s u h p q w v e = inl (ap through_queue e ∙ cc (q, w))

  Step-Simulated : {s u : System H W} → Step send_to s u → Simulated s u
  unfolding make_transaction
  Step-Simulated {s} {u} (makes request timeout error now b e) = inl (ap through_queue e)
  Step-Simulated {s} {u} (pushes before after ptr h l e) =
      inr (QueueSteps.pushes ptr l (ap through_queue e))
  Step-Simulated {s} {u} (moves w w' q p b st e) = inr (
      QueueSteps.works q w'
        (ap (λ k. worker_step s.handler.m_dpa_transaction_queue (worker_of k)) p ∙ st)
        (ap through_queue e))
  Step-Simulated {s} {u} (picks ptr p e) =
      unmoved s u (take_pending s.handler ptr) (picked ptr) refl (sym (ap worker_of p)) s.world e
  Step-Simulated {s} {u} (chooses ptr t p g e) =
      unmoved s u s.handler (chosen ptr _) refl (sym (ap worker_of p)) s.world e
  Step-Simulated {s} {u} (starts ptr fuel error h v p st e) =
      unmoved s u h (executing ptr) (begin-queue send_to fuel s.handler ptr error s.world st)
        (sym (ap worker_of p)) v e
  Step-Simulated {s} {u} (resumes ptr fuel expired t h p g f r e) =
      unmoved s u h s.phase (resume-queue fuel s.handler ptr expired r) refl s.world e
  Step-Simulated {s} {u} (returns ptr t w q p g f st e) = inr (
      QueueSteps.works q w
        (ap (λ k. worker_step s.handler.m_dpa_transaction_queue (worker_of k)) p ∙ st)
        (ap through_queue e))
  Step-Simulated {s} {u} (receives bytes stale now h calls r e) =
      unmoved s u h s.phase
        (pending-queue s.handler h
          (response_message_handler-OnlyPending s.handler h bytes stale now calls r))
        refl s.world e
  Step-Simulated {s} {u} (aborts i t g e) =
      unmoved s u (record (s.handler) { store = set s.handler.store i (abort t) }) s.phase refl refl
        s.world e
  Step-Simulated {s} {u} (configures h c e) =
      unmoved s u h s.phase (Configured-Rest c).queue refl s.world e
  Step-Simulated {s} {u} (shuts_down l e) = inr (
      QueueSteps.stops l (
        ap through_queue e
        ∙ ap (λ k. record (through_queue s) { queue = k }) (shut_down-queue s.handler)))

  extended :
      (s u : System H W)
      → Simulated s u
      → QueueSteps.Reach QueueSteps.start (through_queue s)
      → QueueSteps.Reach QueueSteps.start (through_queue u)
  extended s u (inl e) r = subst (QueueSteps.Reach QueueSteps.start) (sym e) r
  extended s u (inr st) r = QueueSteps.next r st

  -- Seen through its queue, every state that the handler's threads reach, by any order of their steps, is
  -- one that the queue's threads reach.
  pub Reach-through_queue :
      {w : W} {s : System H W}
      → Reach send_to w s
      → QueueSteps.Reach QueueSteps.start (through_queue s)
  unfolding init
  Reach-through_queue here = QueueSteps.here
  Reach-through_queue (next {s} {u} r st) = extended s u (Step-Simulated st) (Reach-through_queue r)

  -- In every state that the handler's threads reach, by any order of constructions and pushes of
  -- transactions, received strings, aborts, wakes and changes of its settings and handlers: the
  -- transactions that the worker took up, followed by those in the queue, are those that users pushed, in
  -- the order of their pushes. None is lost, taken more often than it was pushed, or overtaken.
  pub Reach-in_submission_order :
      {w : W} {s : System H W}
      → Reach send_to w s
      → s.taken ++ s.handler.m_dpa_transaction_queue.m_task_queue ≡ s.submitted
  Reach-in_submission_order r = Reach-InOrder (Reach-through_queue r)
