-- ===== src/Transaction/Steps.antt =====
-- The threads that meet in a transaction: the queue's worker in execute(), the channel's thread in
-- processReceivedMessage(), and users in abort(). Each step is one section under the mutex.
use clibdpa.Base.{ℕ, ◌≡◌, Bool, if◌then◌else◌, some, ok}
use clibdpa.Base.Int.{ℤ}
use clibdpa.Message.{DpaMessage}
use clibdpa.Transaction.Types.{Transaction}
use clibdpa.Transaction.Execute.{abort, begin, cycles}
use clibdpa.Transaction.Receive.{process_received_message}

-- Where the worker stands: execute() is not called yet, waits for its condition, or has returned.
pub data Worker : Type 0 where
  before waiting returned : Worker

pub record System : Type 0 where
  pub transaction : Transaction
  pub worker : Worker

-- Where execute() stands after a section that ends in a wait or in its end.
abbrev pub after : Transaction → System
after t = record { transaction = t; worker = if t.m_finish then returned else waiting }

-- A functor m_sender that only answers whether it threw.
abbrev pub sender : Bool → DpaMessage → Unit {0} → Unit {0} × Bool
sender threw m w = (w, threw)

-- execute() begins once; its wait ends by time (`expired`) or by a notification, true or spurious; a
-- message arrives; a user aborts. A message that is refused by an exception changes nothing.
pub data Step (s u : System) : Type 0 where
  begins :
      (fuel : ℕ) (error : ℤ) (threw : Bool) (t : Transaction)
      → s.worker ≡ before
      → begin (sender threw) fuel s.transaction error tt ≡ some (t, tt)
      → u ≡ after t
      → Step s u
  wakes :
      (fuel : ℕ) (expired : Bool) (t : Transaction)
      → s.worker ≡ waiting
      → cycles fuel s.transaction expired ≡ some t
      → u ≡ after t
      → Step s u
  receives :
      (received : DpaMessage) (now : ℕ) (t : Transaction)
      → process_received_message s.transaction received now ≡ ok t
      → u ≡ record s { transaction = t }
      → Step s u
  aborts : u ≡ record s { transaction = abort s.transaction } → Step s u

-- The systems that a new transaction can become.
pub data Reach (t : Transaction) : System → Type 0 where
  new : Reach t (record { transaction = t; worker = before })
  later : {s u : System} → Reach t s → Step s u → Reach t u
