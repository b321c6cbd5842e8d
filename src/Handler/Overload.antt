-- ===== src/Handler/Overload.antt =====
-- What the worker of the queue does with the next transaction: the limit of the queue, and what happens
-- to an error of the channel.
use clibdpa.Base.{
  ℕ, ◌≤◌, ◌<◌, ◌≡◌, ◌≢◌, refl, Bool, true, false, List, some, if◌then◌else◌, get_elem?, set,
  get_elem?-set_self, get_elem?-lt, arith,
}
use clibdpa.Base.Int.{ℤ, pos, negsuc, eqb_ℤ, eqb_ℤ→eq}
use clibdpa.Message.{DpaMessage}
use clibdpa.Message.Contents.{contents}
use clibdpa.TaskQueue.{size}
use clibdpa.TransactionResult.{get_error_code, set_error_code}
use clibdpa.Transaction.Types.{
  Transaction, request_of, default_error, interface_error, sent, sent_coordinator, to_coordinator,
}
use clibdpa.Transaction.Execute.{begin, cycle}
use clibdpa.Transaction.Honesty.{code_of}
use clibdpa.Handler.Types.{Handler}
use clibdpa.Handler.Submit.{
  queue_max_len, send_request, enforced_error, take_pending, begin_transaction, process_transaction,
}

-- A transaction that is told to fail.
abbrev told : Transaction → ℤ → Transaction
told t error = record t {
  m_default_error = error;
  m_state = default_error;
  m_expected_duration_ms = 0;
}

failed-code :
    (t : Transaction) (error : ℤ)
    → error ≢ pos 0
    → ((cycle (told t error) false).m_finish ≡ true)
      × (code_of (cycle (told t error) false) ≡ error)
unfolding cycle set_error_code get_error_code
failed-code t error h = ground (arith, eqb_ℤ→eq error (pos 0))

-- A transaction that is sent.
abbrev pub on_way : Transaction → Transaction
on_way t = record t {
  m_default_error = pos 0;
  m_state = if to_coordinator (request_of t) then sent_coordinator else sent;
}

cycle-told : (t : Transaction) (error : ℤ) → (cycle (told t error) false).m_finish ≡ true
unfolding cycle
cycle-told t error = refl

module _ {W : Type 0} where
  begin-told :
      (m_sender : DpaMessage → W → W × Bool) (t : Transaction) (error : ℤ) (w : W)
      → eqb_ℤ error (pos 0) ≡ false
      → begin m_sender 1 t error w ≡ some (cycle (told t error) false, w)
  unfolding begin
  begin-told m_sender t error w h = ground arith

  begin-on_way :
      (send_to : List ℕ → W → W × Bool) (t : Transaction) (w : W)
      → 0 < t.m_expected_duration_ms
      → begin (send_request send_to) 1 t (pos 0) w
        ≡ some (on_way t, (send_to (contents (request_of t)) w).0)
  unfolding begin send_request
  begin-on_way send_to t w h = ground arith

-- The handler with a transaction that the worker has taken up, in a new state.
abbrev pub taken_up : {H : Type 0} → Handler H → ℕ → Transaction → Handler H
taken_up h ptr t = record h { m_pending_transaction = some ptr; store = set h.store ptr t }

module _ {H W : Type 0} (send_to : List ℕ → W → W × Bool) where
  begun :
      (h : Handler H) (ptr : ℕ) (t t' : Transaction) (error : ℤ) (w w' : W)
      → get_elem? h.store ptr ≡ some t
      → begin (send_request send_to) 1 t error w ≡ some (t', w')
      → begin_transaction send_to 1 h ptr error w
        ≡ some (record h { store = set h.store ptr t' }, w')
  unfolding begin_transaction
  begun h ptr t t' error w w' e b = rw (e, begin_transaction) (rw (b, begin_transaction))

  processed :
      (h : Handler H) (ptr : ℕ) (t t' : Transaction) (w w' : W)
      → get_elem? h.store ptr ≡ some t
      → begin (send_request send_to) 1 t (enforced_error (size h.m_dpa_transaction_queue) t) w
        ≡ some (t', w')
      → process_transaction send_to 1 h ptr w
        ≡ some (record h { m_pending_transaction = some ptr; store = set h.store ptr t' }, w')
  unfolding process_transaction
  processed h ptr t t' w w' e b =
      rw (e, process_transaction)
        (begun (take_pending h ptr) ptr t t' (enforced_error (size h.m_dpa_transaction_queue) t) w
          w' e b)

  -- With 16 or more transactions still waiting in the queue, the one that the worker takes is not
  -- sent: nothing reaches the channel, and it finishes at once with the code for a full queue.
  pub process_overload :
      (h : Handler H) (ptr : ℕ) (t : Transaction) (w : W)
      → get_elem? h.store ptr ≡ some t
      → queue_max_len ≤ size h.m_dpa_transaction_queue
      → (h' : Handler H) × (t' : Transaction) × (process_transaction send_to 1 h ptr w
          ≡ some (h', w))
        × (get_elem? h'.store ptr ≡ some t')
        × (t'.m_finish ≡ true)
        × (code_of t' ≡ negsuc 1)
  process_overload h ptr t w e full =
      let t' = cycle (told t (negsuc 1)) false in
      let enforced : enforced_error (size h.m_dpa_transaction_queue) t ≡ negsuc 1 = ground arith in
      (
        record h { m_pending_transaction = some ptr; store = set h.store ptr t' },
        t',
        processed h ptr t t' w w e
            (rw enforced (begin-told (send_request send_to) t (negsuc 1) w refl)),
        get_elem?-set_self h.store ptr t' (get_elem?-lt h.store ptr e),
        cycle-told t (negsuc 1),
        (failed-code t (negsuc 1) (λ q. cc q)).1,
      )

  pub process-on_way :
      (h : Handler H) (ptr : ℕ) (t : Transaction) (w : W)
      → get_elem? h.store ptr ≡ some t
      → size h.m_dpa_transaction_queue < queue_max_len
      → t.m_default_error ≡ pos 0
      → 0 < t.m_expected_duration_ms
      → process_transaction send_to 1 h ptr w
        ≡ some (taken_up h ptr (on_way t), (send_to (contents (request_of t)) w).0)
  process-on_way h ptr t w e room ok_error paced =
      let enforced : enforced_error (size h.m_dpa_transaction_queue) t ≡ pos 0 = ground arith in
      processed h ptr t (on_way t) w _ e (rw enforced (begin-on_way send_to t w paced))

  -- With fewer than 16 waiting, a transaction without an enforced error and with a positive
  -- expected duration is sent: the channel gets the bytes of its request, and whether the channel
  -- throws or not, the transaction is in the state of a sent request, and not in the state for an
  -- error of the interface, which execute() has for a sender that throws.
  process_sends :
      (h : Handler H) (ptr : ℕ) (t : Transaction) (w : W)
      → get_elem? h.store ptr ≡ some t
      → size h.m_dpa_transaction_queue < queue_max_len
      → t.m_default_error ≡ pos 0
      → 0 < t.m_expected_duration_ms
      → (h' : Handler H) × (process_transaction send_to 1 h ptr w
          ≡ some (h', (send_to (contents (request_of t)) w).0))
        × (get_elem? h'.store ptr ≡ some (on_way t))
        × ((on_way t).m_state ≢ interface_error)
  process_sends h ptr t w e room ok_error paced = (
    taken_up h ptr (on_way t),
    process-on_way h ptr t w e room ok_error paced,
    get_elem?-set_self h.store ptr (on_way t) (get_elem?-lt h.store ptr e),
    λ q. ground arith,
  )
