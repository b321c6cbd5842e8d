-- ===== src/Handler/OneAtATime.antt =====
-- The worker executes the transactions one at a time, each at most once.
use mathlib.Core.List.{append_assoc}
use clibdpa.Base.{
  ℕ, suc, ◌+◌, ◌≤◌, ◌≡◌, ◌≢◌, refl, sym, ap, subst, ◌∙◌, Bool, true, false, List, [], ◌∷◌, ◌++◌,
  Option, some, All, ◌==◌, if◌then◌else◌, length, length-set, length-append, arith,
}
use clibdpa.Base.Int.{ℤ}
use clibdpa.Message.{get_length}
use clibdpa.TaskQueue.{Worker, checking, waiting, processing, joined, locked_twice}
use clibdpa.TaskQueue.Steps.{taken_up}
use clibdpa.Transaction.Execute.{abort}
use clibdpa.Handler.Counting.{count, count-append, count-All}
use clibdpa.Handler.Types.{Handler}
use clibdpa.Handler.Submit.{make_transaction}
use clibdpa.Handler.Pending.{response_message_handler-OnlyPending}
use clibdpa.Handler.Parts.{begin-parts, resume-parts, shut_down-parts, only-parts}
use clibdpa.Handler.Refinement.{Reach-in_submission_order}
use clibdpa.Handler.Configured.{Configured-Rest}
use clibdpa.Handler.Steps.{
  System, Phase, in_queue, picked, chosen, executing, Step, Reach, makes, pushes, moves, picks,
  chooses, starts, resumes, returns, receives, aborts, configures, shuts_down, here, next,
}

abbrev EndsWith : ℕ → List ℕ → Type 0
EndsWith ptr l = (before : List ℕ) × (l ≡ before ++ ptr ∷ [])

-- The transaction at work is the last that was taken up, and while it is executed it is the pending one.
abbrev Current : Phase → Option ℕ → List ℕ → Type 0
Current (in_queue (processing ptr)) pending taken = EndsWith ptr taken
Current (in_queue (checking held)) pending taken = Unit
Current (in_queue waiting) pending taken = Unit
Current (in_queue joined) pending taken = Unit
Current (in_queue locked_twice) pending taken = Unit
Current (picked ptr) pending taken = (pending ≡ some ptr) × EndsWith ptr taken
Current (chosen ptr error) pending taken = (pending ≡ some ptr) × EndsWith ptr taken
Current (executing ptr) pending taken = (pending ≡ some ptr) × EndsWith ptr taken

Current-moved :
    (w : Worker ℕ) (pending : Option ℕ) (taken : List ℕ)
    → Current (in_queue w) pending (taken ++ taken_up w)
Current-moved (processing ptr) pending taken = (taken, refl)
Current-moved (checking held) pending taken = tt
Current-moved waiting pending taken = tt
Current-moved joined pending taken = tt
Current-moved locked_twice pending taken = tt

module _ {H W : Type 0} (send_to : List ℕ → W → W × Bool) where
  -- A reference is held or was pushed at most once, and only if its transaction was made.
  record Single (s : System H W) : Type 0 where
    once : (i : ℕ) → count i s.submitted + count i s.held ≤ 1
    made : (i : ℕ) → length s.handler.store ≤ i → count i s.submitted + count i s.held ≡ 0
    current : Current s.phase s.handler.m_pending_transaction s.taken

  -- A step in which no transaction is made or pushed.
  settled :
      (s u : System H W)
      → u.submitted ≡ s.submitted
      → u.held ≡ s.held
      → length u.handler.store ≡ length s.handler.store
      → Current u.phase u.handler.m_pending_transaction u.taken
      → Single s
      → Single u
  settled s u e d l c k = record {
    once = λ i. omega (arith, ap (count i) e, ap (count i) d, k.once i);
    made = λ i h. omega (arith, ap (count i) e, ap (count i) d, k.made i (omega (arith, l)));
    current = c;
  }

  constructed :
      (s : System H W) (h : Handler H) (is_empty : Bool)
      → length h.store ≡ suc (length s.handler.store)
      → h.m_pending_transaction ≡ s.handler.m_pending_transaction
      → Single s
      → Single (record s {
        handler = h;
        held = if is_empty then s.held else s.held ++ length s.handler.store ∷ [];
      })
  constructed s h true l p k = record {
    once = k.once;
    made = λ i r. k.made i (omega (arith, l));
    current = subst (λ o. Current s.phase o s.taken) (sym p) k.current;
  }
  constructed s h false l p k = record {
    once = λ i.
        let n = length s.handler.store in
        ground (arith, k.once i, k.made i, count-append i s.held (n ∷ []));
    made = λ i r.
        let n = length s.handler.store in
        ground (arith, k.made i (omega (arith, l)), count-append i s.held (n ∷ []));
    current = subst (λ o. Current s.phase o s.taken) (sym p) k.current;
  }

  -- A reference that was held is pushed.
  handed_over :
      (s : System H W) (before after : List ℕ) (ptr i : ℕ)
      → s.held ≡ before ++ ptr ∷ after
      → count i (s.submitted ++ ptr ∷ []) + count i (before ++ after)
        ≡ count i s.submitted + count i s.held
  handed_over s before after ptr i e = omega (
    arith,
    ap (count i) e,
    count-append i s.submitted (ptr ∷ []),
    count-append i before after,
    count-append i before (ptr ∷ after),
  )

  Step-Single : {s u : System H W} → Step send_to s u → Single s → Single u
  unfolding make_transaction
  Step-Single {s} (makes request timeout error now b e) k = subst Single (sym e) (
      constructed s _ (get_length request == 0)
        (omega (arith, length-append s.handler.store (_ ∷ []))) refl k)
  Step-Single {s} (pushes before after ptr h l e) k = subst Single (sym e) record {
    once = λ i. omega (arith, handed_over s before after ptr i h, k.once i);
    made = λ i r. omega (arith, handed_over s before after ptr i h, k.made i r);
    current = k.current;
  }
  Step-Single {s} (moves w w' q p b st e) k =
      subst Single (sym e)
        (settled s _ refl refl refl (Current-moved w' s.handler.m_pending_transaction s.taken) k)
  Step-Single {s} (picks ptr p e) k = subst Single (sym e) (
      settled s _ refl refl refl
        (refl, subst (λ f. Current f s.handler.m_pending_transaction s.taken) p k.current) k)
  Step-Single {s} (chooses ptr t p g e) k = subst Single (sym e) (
      settled s _ refl refl refl
        (subst (λ f. Current f s.handler.m_pending_transaction s.taken) p k.current) k)
  Step-Single {s} (starts ptr fuel error h v p st e) k =
      let (l, n) = begin-parts send_to fuel s.handler ptr error s.world h v st in
      let (m, b) = subst (λ f. Current f s.handler.m_pending_transaction s.taken) p k.current in
      subst Single (sym e) (settled s _ refl refl l (n ∙ m, b) k)
  Step-Single {s} (resumes ptr fuel expired t h p g f r e) k =
      let (l, n) = resume-parts fuel s.handler ptr expired h r in
      subst Single (sym e)
        (settled s _ refl refl l (subst (λ o. Current s.phase o s.taken) (sym n) k.current) k)
  Step-Single {s} (returns ptr t w q p g f st e) k =
      subst Single (sym e)
        (settled s _ refl refl refl (Current-moved w s.handler.m_pending_transaction s.taken) k)
  Step-Single {s} (receives bytes stale now h calls r e) k =
      let (l, n) =
        only-parts s.handler h
          (response_message_handler-OnlyPending s.handler h bytes stale now calls r) in
      subst Single (sym e)
        (settled s _ refl refl l (subst (λ o. Current s.phase o s.taken) (sym n) k.current) k)
  Step-Single {s} (aborts i t g e) k =
      subst Single (sym e)
        (settled s _ refl refl (length-set s.handler.store i (abort t)) k.current k)
  Step-Single {s} (configures h c e) k =
      let r = Configured-Rest c in
      subst Single (sym e) (
        settled s _ refl refl (ap length r.store)
          (subst (λ o. Current s.phase o s.taken) (sym r.pending) k.current) k)
  Step-Single {s} (shuts_down l e) k =
      let (m, n) = shut_down-parts s.handler in
      subst Single (sym e)
        (settled s _ refl refl m (subst (λ o. Current s.phase o s.taken) (sym n) k.current) k)

  Reach-Single : {w : W} {s : System H W} → Reach send_to w s → Single s
  Reach-Single here = record { once = λ i. omega arith; made = λ i r. refl; current = tt }
  Reach-Single (next r st) = Step-Single st (Reach-Single r)

  -- The last transaction that was taken up was not taken up before, and does not wait in the queue.
  pub taken-once :
      {w : W} {s : System H W} (before : List ℕ) (ptr : ℕ)
      → Reach send_to w s
      → s.taken ≡ before ++ ptr ∷ []
      → All (λ i. i ≢ ptr) before
        × All (λ i. i ≢ ptr) s.handler.m_dpa_transaction_queue.m_task_queue
  taken-once {s} before ptr r e =
      let queue = s.handler.m_dpa_transaction_queue.m_task_queue in
      let whole : before ++ ptr ∷ queue ≡ s.submitted =
        sym (append_assoc before (ptr ∷ []) queue)
        ∙ ap (λ l. l ++ queue) (sym e)
        ∙ Reach-in_submission_order send_to r in
      let self : count ptr (ptr ∷ queue) ≡ suc (count ptr queue) = ground arith in
      let total : count ptr before + suc (count ptr queue) ≤ 1 = omega (
        arith,
        self,
        count-append ptr before (ptr ∷ queue),
        ap (count ptr) whole,
        (Reach-Single r).once ptr,
      ) in
      (count-All ptr before (omega arith), count-All ptr queue (omega arith))

  -- The transaction that the worker is about to begin on is the last that was taken up.
  pub upcoming-last :
      {w : W} {s : System H W} (ptr : ℕ) (error : ℤ)
      → Reach send_to w s
      → s.phase ≡ chosen ptr error
      → (before : List ℕ) × (s.taken ≡ before ++ ptr ∷ [])
  upcoming-last {s} ptr error r p =
      (subst (λ f. Current f s.handler.m_pending_transaction s.taken) p (Reach-Single r).current).1

  -- In every state that the handler's threads reach in which the worker executes a transaction: it is the
  -- last one taken up, it was not taken up before and does not wait in the queue, so that none is
  -- executed twice, and it is the pending transaction, to which received messages go.
  pub Reach-one_at_a_time :
      {w : W} {s : System H W} (ptr : ℕ)
      → Reach send_to w s
      → s.phase ≡ executing ptr
      → (before : List ℕ) × (s.taken ≡ before ++ ptr ∷ [])
        × All (λ i. i ≢ ptr) before
        × All (λ i. i ≢ ptr) s.handler.m_dpa_transaction_queue.m_task_queue
        × (s.handler.m_pending_transaction ≡ some ptr)
  Reach-one_at_a_time {s} ptr r p =
      let k = Reach-Single r in
      let (n, (before, e)) =
        subst (λ f. Current f s.handler.m_pending_transaction s.taken) p k.current in
      let (first, alone) = taken-once before ptr r e in (before, e, first, alone, n)
