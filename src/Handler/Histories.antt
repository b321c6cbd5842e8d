-- ===== src/Handler/Histories.antt =====
-- The transactions of a handler: what its threads do to one of them are steps of that transaction.
use clibdpa.Base.{
  ℕ, ◌≡◌, ◌≢◌, refl, sym, ◌∙◌, subst, Bool, false, List, [], ◌∷◌, ◌++◌, some, All, arith,
}
use clibdpa.Base.Int.{ℤ}
use clibdpa.TaskQueue.{Worker}
use clibdpa.TaskQueue.Steps.{taken_up}
use clibdpa.Transaction.Types.{Transaction}
use clibdpa.Transaction.Execute.{begin, cycles}
use clibdpa.Transaction.Invariant.{IsNew, Reach-Inv}
use clibdpa.Transaction.Steps as OfOne
use clibdpa.Handler.Steps.{Phase, in_queue, chosen, executing, about_to}

-- The transaction `t` at position `i` is what the steps of its own threads made of a new one, in which
-- execute() stands where the phase and the transactions taken up say.
pub record History (p : Phase) (taken : List ℕ) (i : ℕ) (t : Transaction) : Type 0 where
  pub origin : Transaction
  pub worker : OfOne.Worker
  pub is_new : IsNew origin
  pub reached : OfOne.Reach origin (record { transaction = t; worker = worker })
  pub not_taken : All (λ j. j ≢ i) taken → worker ≡ OfOne.before
  pub upcoming : about_to p ≡ i ∷ [] → worker ≡ OfOne.before
  pub begun : p ≡ executing i → worker ≢ OfOne.before

after-begun : (t : Transaction) → (OfOne.after t).worker ≢ OfOne.before
after-begun t e = ground arith

All-append_left : (i : ℕ) (xs ys : List ℕ) → All (λ j. j ≢ i) (xs ++ ys) → All (λ j. j ≢ i) xs
All-append_left i [] ys h = tt
All-append_left i (x ∷ xs) ys h = (h.0, All-append_left i xs ys h.1)

All-last : (i : ℕ) (xs : List ℕ) → All (λ j. j ≢ i) (xs ++ i ∷ []) → ⊥
All-last i [] h = h.0 refl
All-last i (x ∷ xs) h = All-last i xs h.1

module _ {taken : List ℕ} {i : ℕ} {t : Transaction} where
  -- A step of the transaction in which execute() stays where it is.
  pub beside :
      {p : Phase} (t' : Transaction)
      → ((w : OfOne.Worker)
          → OfOne.Step
              (record { transaction = t; worker = w })
              (record { transaction = t'; worker = w }))
      → History p taken i t
      → History p taken i t'
  beside t' st h = record {
    origin = h.origin;
    worker = h.worker;
    is_new = h.is_new;
    reached = OfOne.later h.reached (st h.worker);
    not_taken = h.not_taken;
    upcoming = h.upcoming;
    begun = h.begun;
  }

  -- The worker begins on the transaction, which is the last that was taken up.
  pub at_begin :
      (fuel : ℕ) (error enforced : ℤ) (t' : Transaction) (before : List ℕ)
      → taken ≡ before ++ i ∷ []
      → begin (OfOne.sender false) fuel t error tt ≡ some (t', tt)
      → History (chosen i enforced) taken i t
      → History (executing i) taken i t'
  at_begin fuel error enforced t' before e b h = record {
    origin = h.origin;
    worker = (OfOne.after t').worker;
    is_new = h.is_new;
    reached = OfOne.later h.reached (OfOne.begins fuel error false t' (h.upcoming refl) b refl);
    not_taken = λ a. absurd (All-last i before (subst (All (λ j. j ≢ i)) e a));
    upcoming = λ q. cc q;
    begun = λ _. after-begun t';
  }

  -- It begins on another one.
  pub other_begins :
      (ptr : ℕ) (error : ℤ)
      → ptr ≢ i
      → History (chosen ptr error) taken i t
      → History (executing ptr) taken i t
  other_begins ptr error d h = record {
    origin = h.origin;
    worker = h.worker;
    is_new = h.is_new;
    reached = h.reached;
    not_taken = h.not_taken;
    upcoming = λ q. cc q;
    begun = λ q. absurd (d (ground (arith, q)));
  }

  -- The execute() of an unfinished transaction that has begun waits.
  History-waiting :
      (h : History (executing i) taken i t) → t.m_finish ≡ false → h.worker ≡ OfOne.waiting
  History-waiting h f =
      waiting_from h.worker (h.begun refl) (λ r. cc ((Reach-Inv h.is_new h.reached).over r, f))
    where
      waiting_from : (w : OfOne.Worker) → w ≢ OfOne.before → w ≢ OfOne.returned → w ≡ OfOne.waiting
      waiting_from OfOne.before a b = absurd (a refl)
      waiting_from OfOne.waiting a b = refl
      waiting_from OfOne.returned a b = absurd (b refl)

  -- It is woken.
  pub at_wake :
      (fuel : ℕ) (expired : Bool) (t' : Transaction)
      → t.m_finish ≡ false
      → cycles fuel t expired ≡ some t'
      → History (executing i) taken i t
      → History (executing i) taken i t'
  at_wake fuel expired t' f c h = record {
    origin = h.origin;
    worker = (OfOne.after t').worker;
    is_new = h.is_new;
    reached = OfOne.later h.reached (OfOne.wakes fuel expired t' (History-waiting h f) c refl);
    not_taken = λ a. absurd (h.begun refl (h.not_taken a));
    upcoming = λ q. cc q;
    begun = λ _. after-begun t';
  }

  -- The worker goes on in the queue. What it takes up was not taken up before.
  pub at_move :
      {p : Phase} (w : Worker ℕ)
      → (taken_up w ≡ i ∷ [] → All (λ j. j ≢ i) taken)
      → History p taken i t
      → History (in_queue w) (taken ++ taken_up w) i t
  at_move w first h = record {
    origin = h.origin;
    worker = h.worker;
    is_new = h.is_new;
    reached = h.reached;
    not_taken = λ a. h.not_taken (All-append_left i taken (taken_up w) a);
    upcoming = λ q. h.not_taken (first q);
    begun = λ q. cc q;
  }

  -- The worker goes on in the processing function, and does not begin yet.
  pub at_pause :
      {p p' : Phase}
      → about_to p' ≡ about_to p
      → p' ≢ executing i
      → History p taken i t
      → History p' taken i t
  at_pause e d h = record {
    origin = h.origin;
    worker = h.worker;
    is_new = h.is_new;
    reached = h.reached;
    not_taken = h.not_taken;
    upcoming = λ q. h.upcoming (sym e ∙ q);
    begun = λ q. absurd (d q);
  }

  -- It is new, and so the worker does not execute it.
  pub at_first : {p : Phase} → IsNew t → p ≢ executing i → History p taken i t
  at_first n d = record {
    origin = t;
    worker = OfOne.before;
    is_new = n;
    reached = OfOne.new;
    not_taken = λ _. refl;
    upcoming = λ _. refl;
    begun = λ q. absurd (d q);
  }
