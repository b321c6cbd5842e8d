-- ===== src/Handler/Steps.antt =====
-- The threads of a handler: users, the channel's thread, and the worker of the queue, which is in the
-- code of the queue or in execute() of a transaction.
use clibdpa.Base.{
  ℕ, ◌≡◌, Bool, true, false, List, [], ◌∷◌, ◌++◌, some, ◌==◌, if◌then◌else◌, get_elem?, set,
}
use clibdpa.Base.Int.{ℤ, pos, ◌≤ℤ◌}
use clibdpa.Message.{DpaMessage, get_length}
use clibdpa.TaskQueue.{TaskQueue, Worker, checking, processing, push_to_queue, size, worker_step}
use clibdpa.TaskQueue.Steps.{holds_lock, taken_up}
use clibdpa.Transaction.Types.{Transaction}
use clibdpa.Transaction.Execute.{abort}
use clibdpa.Handler.Configured.{Configured}
use clibdpa.Handler.Types.{Handler, init}
use clibdpa.Handler.Registry.{Called}
use clibdpa.Handler.Submit.{
  make_transaction, enforced_error, take_pending, begin_transaction, resume_transaction, shut_down,
}
use clibdpa.Handler.Dispatch.{handled, response_message_handler}

-- Where the worker stands. In the processing function it has picked the pending transaction, and chosen
-- the error that it enforces, before it is in execute().
pub data Phase : Type 0 where
  in_queue : Worker ℕ → Phase
  picked : ℕ → Phase
  chosen : ℕ → ℤ → Phase
  executing : ℕ → Phase

-- `held` are the references whose users have constructed the transaction and not pushed it yet. `submitted`
-- and `taken` are those that were pushed to the queue, and those that the worker took up, in order.
pub record System (H W : Type 0) : Type 0 where
  pub handler : Handler H
  pub phase : Phase
  pub world : W
  pub held : List ℕ
  pub submitted : List ℕ
  pub taken : List ℕ

-- The worker of the queue in a phase.
abbrev pub worker_of : Phase → Worker ℕ
worker_of (in_queue w) = w
worker_of (picked ptr) = processing ptr
worker_of (chosen ptr error) = processing ptr
worker_of (executing ptr) = processing ptr

-- The transaction that the worker has taken up and has not begun on.
abbrev pub about_to : Phase → List ℕ
about_to (in_queue w) = taken_up w
about_to (picked ptr) = ptr ∷ []
about_to (chosen ptr error) = ptr ∷ []
about_to (executing ptr) = []

-- The phase does not stand in the processing function.
abbrev pub is_between : Worker ℕ → Bool
is_between (processing ptr) = false
is_between _ = true

module _ {H W : Type 0} (send_to : List ℕ → W → W × Bool) where
  abbrev pub at_start : W → System H W
  at_start w = record {
    handler = init;
    phase = in_queue (checking false);
    world = w;
    held = [];
    submitted = [];
    taken = [];
  }

  -- A step of the queue's code that the worker makes.
  abbrev pub moved : System H W → Worker ℕ → (q : TaskQueue ℕ) → System H W
  moved s w q = record s {
    handler = record (s.handler) { m_dpa_transaction_queue = q };
    phase = in_queue w;
    taken = s.taken ++ taken_up w;
  }

  -- executeDpaTransaction() of a user constructs the transaction, with an int for its timeout, and pushes
  -- it, each in its own step; a request with no byte is not pushed. The worker goes on in the queue; it
  -- picks the transaction that it took up, reads the size of the queue, and begins; it is woken in
  -- execute(), and returns from it. A string of bytes is received; a user aborts a transaction or
  -- configures the handler; and the handler's destructor aborts the pending transaction and stops the
  -- queue.
  pub data Step (s u : System H W) : Type 0 where
    makes :
        (request : DpaMessage) (timeout error : ℤ) (now : ℕ)
        → timeout ≤ℤ pos 2147483647
        → (let (h, ptr) = make_transaction s.handler request timeout error now in
            u ≡ record s {
              handler = h;
              held = if get_length request == 0 then s.held else s.held ++ ptr ∷ [];
            })
        → Step s u
    pushes :
        (before after : List ℕ) (ptr : ℕ)
        → s.held ≡ before ++ ptr ∷ after
        → holds_lock (worker_of s.phase) ≡ false
        → u ≡ record s {
          handler = record (s.handler) {
            m_dpa_transaction_queue = (push_to_queue s.handler.m_dpa_transaction_queue ptr).0;
          };
          held = before ++ after;
          submitted = s.submitted ++ ptr ∷ [];
        }
        → Step s u
    moves :
        (w w' : Worker ℕ) (q : TaskQueue ℕ)
        → s.phase ≡ in_queue w
        → is_between w ≡ true
        → worker_step s.handler.m_dpa_transaction_queue w ≡ some (q, w')
        → u ≡ moved s w' q
        → Step s u
    picks :
        (ptr : ℕ)
        → s.phase ≡ in_queue (processing ptr)
        → u ≡ record s { handler = take_pending s.handler ptr; phase = picked ptr }
        → Step s u
    chooses :
        (ptr : ℕ) (t : Transaction)
        → s.phase ≡ picked ptr
        → get_elem? s.handler.store ptr ≡ some t
        → u ≡ record s {
          phase = chosen ptr (enforced_error (size s.handler.m_dpa_transaction_queue) t);
        }
        → Step s u
    starts :
        (ptr fuel : ℕ) (error : ℤ) (h : Handler H) (v : W)
        → s.phase ≡ chosen ptr error
        → begin_transaction send_to fuel s.handler ptr error s.world ≡ some (h, v)
        → u ≡ record s { handler = h; phase = executing ptr; world = v }
        → Step s u
    resumes :
        (ptr fuel : ℕ) (expired : Bool) (t : Transaction) (h : Handler H)
        → s.phase ≡ executing ptr
        → get_elem? s.handler.store ptr ≡ some t
        → t.m_finish ≡ false
        → resume_transaction fuel s.handler ptr expired ≡ some h
        → u ≡ record s { handler = h }
        → Step s u
    returns :
        (ptr : ℕ) (t : Transaction) (w : Worker ℕ) (q : TaskQueue ℕ)
        → s.phase ≡ executing ptr
        → get_elem? s.handler.store ptr ≡ some t
        → t.m_finish ≡ true
        → worker_step s.handler.m_dpa_transaction_queue (processing ptr) ≡ some (q, w)
        → u ≡ moved s w q
        → Step s u
    receives :
        (bytes : List ℕ) (stale now : ℕ) (h : Handler H) (calls : List (Called H))
        → response_message_handler s.handler bytes stale now ≡ handled h calls
        → u ≡ record s { handler = h }
        → Step s u
    aborts :
        (i : ℕ) (t : Transaction)
        → get_elem? s.handler.store i ≡ some t
        → u ≡ record s { handler = record (s.handler) { store = set s.handler.store i (abort t) } }
        → Step s u
    configures : (h : Handler H) → Configured s.handler h → u ≡ record s { handler = h } → Step s u
    shuts_down :
        holds_lock (worker_of s.phase) ≡ false
        → u ≡ record s { handler = shut_down s.handler }
        → Step s u

  pub data Reach (w : W) : System H W → Type 0 where
    here : Reach w (at_start w)
    next : {s u : System H W} → Reach w s → Step s u → Reach w u
