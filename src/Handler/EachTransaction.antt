-- ===== src/Handler/EachTransaction.antt =====
-- The steps of the handler's threads (Dpa/DpaHandler2.cpp), seen from each of its transactions.
use clibdpa.Base.{
  ℕ, ◌≡◌, ◌⊎◌, refl, sym, ap, subst, Bool, true, List, ◌++◌, some, length, length-set, get_elem?,
  set, get_elem?-lt, arith,
}
use clibdpa.Base.Int.{pos}
use clibdpa.Transaction.Types.{Transaction, request_of}
use clibdpa.Transaction.Execute.{abort}
use clibdpa.Transaction.Invariant.{IsNew, Reach-Inv, finished-returned}
use clibdpa.Transaction.Honesty.{code_of, IsBroadcast}
use clibdpa.Transaction.Outcome.{Succeeded, success_needs_answer}
use clibdpa.Transaction.Recorded.{Reach-Recorded}
use clibdpa.Transaction.Steps as OfOne
use clibdpa.Handler.Types.{init}
use clibdpa.Handler.Submit.{make_transaction, take_pending}
use clibdpa.Handler.Defaults.{init-HasTimeout, create-IsNew_at}
use clibdpa.Handler.Pending.{response_message_handler-OnlyPending}
use clibdpa.Handler.Forms.{begin-form, resume-form, shut_down-form}
use clibdpa.Handler.OneAtATime.{taken-once, upcoming-last}
use clibdpa.Handler.Histories.{at_begin, other_begins, at_wake}
use clibdpa.Handler.Configured.{Configured-Rest, HasTimeout-same}
use clibdpa.Handler.Steps.{
  System, picked, chosen, about_to, executing, Step, Reach, makes, pushes, moves, picks, chooses,
  starts, resumes, returns, receives, aborts, configures, shuts_down, here, next,
}
use clibdpa.Handler.Lifting.{
  unmoved, Histories, Lifted, replaced, besides, moved_on, made, paused, received, shut,
}

module _ {H W : Type 0} (send_to : List ℕ → W → W × Bool) where
  Step-Lifted :
      {w : W} {s u : System H W} → Reach send_to w s → Step send_to s u → Lifted s → Lifted u
  unfolding make_transaction
  Step-Lifted {s} r (makes request timeout error now b e) k =
      subst Lifted (sym e)
        (made s _ _ _ refl refl (create-IsNew_at s.handler request timeout error now k.timed b) k)
  Step-Lifted {s} r (pushes before after ptr h l e) k = subst Lifted (sym e) record {
    timed = HasTimeout-same s.handler _ refl k.timed;
    executes = k.executes;
    histories = k.histories;
  }
  Step-Lifted {s} {u} r (moves w w' q p b st e) k = subst Lifted (sym e) (
      moved_on s _ w' refl refl refl refl
        (λ ptr x.
          (taken-once send_to s.taken ptr (next r (moves w w' q p b st refl))
            (ap (λ j. s.taken ++ j) x)).0)
        k)
  Step-Lifted {s} r (picks ptr p e) k = subst Lifted (sym e) (
      paused s (take_pending s.handler ptr) (picked ptr) refl refl (sym (ap about_to p))
        (λ i x. cc x) k)
  Step-Lifted {s} r (chooses ptr t p g e) k =
      subst Lifted (sym e)
        (paused s s.handler (chosen ptr _) refl refl (sym (ap about_to p)) (λ i x. cc x) k)
  Step-Lifted {s} r (starts ptr fuel error h v p st e) k =
      let (t, t', g, _, b, c) = begin-form send_to fuel s.handler ptr error s.world st in
      let (before, last) = upcoming-last send_to ptr error r p in
      subst Lifted (sym e) record {
        timed = HasTimeout-same s.handler h (ap (λ j. j.m_default_timeout) c) k.timed;
        executes = λ i x.
            let same : ptr ≡ i = ground (arith, x) in
            omega (
              arith,
              same,
              get_elem?-lt s.handler.store ptr g,
              ap (λ j. length j.store) c,
              length-set s.handler.store ptr t',
            );
        histories = subst (Histories (executing ptr) s.taken) (sym (ap (λ j. j.store) c)) (
            replaced (chosen ptr error) (executing ptr) s.taken s.handler.store ptr t t' g
              (at_begin fuel error error t' before last b) (λ i j n. other_begins ptr error n)
              (subst (λ f. Histories f s.taken s.handler.store) p k.histories));
      }
  Step-Lifted {s} r (resumes ptr fuel expired t h p g f st e) k =
      let (t0, t', g0, c, d) = resume-form fuel s.handler ptr expired st in
      subst Lifted (sym e) record {
        timed = HasTimeout-same s.handler h (ap (λ j. j.m_default_timeout) d) k.timed;
        executes = λ i x.
            omega (
              arith,
              k.executes i x,
              ap (λ j. length j.store) d,
              length-set s.handler.store ptr t',
            );
        histories = subst (Histories s.phase s.taken) (sym (ap (λ j. j.store) d)) (
            subst (λ f. Histories f s.taken (set s.handler.store ptr t')) (sym p)
              (replaced (executing ptr) (executing ptr) s.taken s.handler.store ptr t0 t' g0
                (at_wake fuel expired t' (cc (g, g0, f)) c) (λ i j n h. h)
                (subst (λ f. Histories f s.taken s.handler.store) p k.histories)));
      }
  Step-Lifted {s} r (returns ptr t w q p g f st e) k = subst Lifted (sym e) (
      moved_on s _ w refl refl refl refl
        (λ i x.
          (taken-once send_to s.taken i (next r (returns ptr t w q p g f st refl))
            (ap (λ j. s.taken ++ j) x)).0)
        k)
  Step-Lifted {s} r (receives bytes stale now h calls st e) k =
      subst Lifted (sym e)
        (received s h (response_message_handler-OnlyPending s.handler h bytes stale now calls st) k)
  Step-Lifted {s} r (aborts i t g e) k =
      subst Lifted (sym e) (besides s _ i t (abort t) refl refl g (λ w. OfOne.aborts refl) k)
  Step-Lifted {s} r (configures h c e) k =
      let rest = Configured-Rest c in
      subst Lifted (sym e) (unmoved s h rest.store (rest.timed k.timed) k)
  Step-Lifted {s} r (shuts_down l e) k =
      let (q, d) = shut_down-form s.handler in subst Lifted (sym e) (shut s _ q d k)

  Reach-Lifted : {w : W} {s : System H W} → Reach send_to w s → Lifted s
  unfolding init
  Reach-Lifted here = record {
    timed = init-HasTimeout;
    executes = λ i p. cc p;
    histories = λ i t g. cc g;
  }
  Reach-Lifted (next r st) = Step-Lifted r st (Reach-Lifted r)

  -- The handler runs each transaction as the transaction's own threads do: in every state that the
  -- handler's threads reach, by any order of their steps, each transaction in the store is in a state
  -- that a new transaction reaches by calls of execute(), wakes, received messages and aborts.
  pub Reach-each_transaction :
      {w : W} {s : System H W} (i : ℕ) (t : Transaction)
      → Reach send_to w s
      → get_elem? s.handler.store i ≡ some t
      → (origin : Transaction) × (worker : OfOne.Worker) × IsNew origin
        × OfOne.Reach origin (record { transaction = t; worker = worker })
  Reach-each_transaction i t r g =
      let h = (Reach-Lifted r).histories i t g in (h.origin, h.worker, h.is_new, h.reached)

  -- In every state that the handler's threads reach, by any order of their steps: where a finished
  -- transaction reports success, its result holds a response to its request with no error, or the
  -- transaction is a broadcast that was confirmed.
  pub success_is_answered :
      {w : W} {s : System H W} (i : ℕ) (t : Transaction)
      → Reach send_to w s
      → get_elem? s.handler.store i ≡ some t
      → t.m_finish ≡ true
      → code_of t ≡ pos 0
      → Succeeded (request_of t) t ⊎ IsBroadcast t
  success_is_answered i t r g f c =
      let (origin, worker, n, h) = Reach-each_transaction i t r g in
      let v = Reach-Inv n h in
      let over : worker ≡ OfOne.returned = finished-returned _ v f in
      subst (λ q. Succeeded q t ⊎ IsBroadcast t) (sym (Reach-Recorded n.unanswered h).request)
        (success_needs_answer n h over c)
