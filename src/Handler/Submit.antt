-- ===== src/Handler/Submit.antt =====
-- executeDpaTransaction(), the function of the queue's worker, and sendRequest().
use clibdpa.Base.{
  ℕ, ◌+◌, ◌%◌, Bool, false, List, [], ◌∷◌, ◌++◌, Option, none, some, if◌then◌else◌, ltb, ◌==◌,
  length, get_elem?, set,
}
use clibdpa.Base.Int.{ℤ}
use clibdpa.Message.{DpaMessage, get_length}
use clibdpa.Message.Contents.{contents}
use clibdpa.ErrorCode.{value, trn_error_iface_queue_full}
use clibdpa.TaskQueue.{push_to_queue, stop_queue, size}
use clibdpa.Transaction.Types.{Transaction}
use clibdpa.Transaction.Create.{create}
use clibdpa.Transaction.Execute.{begin, cycles, abort}
use clibdpa.Handler.Types.{Handler}

abbrev pub queue_max_len : ℕ
queue_max_len = 16

module _ {H : Type 0} where
  -- A new transaction with the settings of the handler, in the store.
  unfoldable pub make_transaction : Handler H → DpaMessage → ℤ → ℤ → ℕ → Handler H × ℕ
  make_transaction h request timeout default_error now = (
    record h {
      store =
          h.store
          ++ create request h.m_rf_mode h.m_timing_params h.m_default_timeout timeout default_error
              h.ids now
            ∷ [];
      ids = (h.ids + 1) % 4294967296;
    },
    length h.store,
  )

  -- executeDpaTransaction(request, timeout, defaultError): the reference that it returns. A request
  -- with no byte gets a transaction that is not queued.
  unfoldable pub execute_dpa_transaction : Handler H → DpaMessage → ℤ → ℤ → ℕ → Handler H × ℕ
  unfolding make_transaction push_to_queue
  execute_dpa_transaction h request timeout default_error now =
      let (h', ptr) = make_transaction h request timeout default_error now in
      if get_length request == 0 then (h', ptr) else (
        record h' { m_dpa_transaction_queue = (push_to_queue h.m_dpa_transaction_queue ptr).0 },
        ptr,
      )

-- sendRequest(request). The channel `send_to` works on the world `W` and answers whether it threw; the
-- exception is caught and traced, and so the functor never throws.
unfoldable pub send_request : {W : Type 0} → (List ℕ → W → W × Bool) → DpaMessage → W → W × Bool
send_request send_to request w = ((send_to (contents request) w).0, false)

-- The error that the worker enforces on a transaction, with so many others in the queue.
abbrev pub enforced_error : ℕ → Transaction → ℤ
enforced_error waiting t =
    if ltb waiting queue_max_len then t.m_default_error else value trn_error_iface_queue_full

-- The first statement of the processing function of the queue.
abbrev pub take_pending : {H : Type 0} → Handler H → ℕ → Handler H
take_pending h ptr = record h { m_pending_transaction = some ptr }

module _ {H W : Type 0} (send_to : List ℕ → W → W × Bool) where
  -- execute() of the pending transaction with an enforced error, up to its first wait or its end. `none`
  -- is a reference that the store does not have, or a loop that outruns the fuel.
  unfoldable pub begin_transaction : ℕ → Handler H → ℕ → ℤ → W → Option (Handler H × W)
  begin_transaction fuel h ptr error w = elim (get_elem? h.store ptr) [
    | none ↦ none
    | some t ↦ elim (begin (send_request send_to) fuel t error w) [
      | none ↦ none
      | some (t', w') ↦ some (record h { store = set h.store ptr t' }, w')
    ]
  ]

  -- The processing function of the queue without anything in between: the pending transaction is set, the
  -- size of the queue chooses the error, and execute() begins.
  unfoldable pub process_transaction : ℕ → Handler H → ℕ → W → Option (Handler H × W)
  unfolding begin_transaction
  process_transaction fuel h ptr w = elim (get_elem? h.store ptr) [
    | none ↦ none
    | some t ↦
        begin_transaction fuel (take_pending h ptr) ptr
          (enforced_error (size h.m_dpa_transaction_queue) t) w
  ]

module _ {H : Type 0} where
  -- The worker's execute() behind a wait on the pending transaction.
  unfoldable pub resume_transaction : ℕ → Handler H → ℕ → Bool → Option (Handler H)
  resume_transaction fuel h ptr expired = elim (get_elem? h.store ptr) [
    | none ↦ none
    | some t ↦ elim (cycles fuel t expired) [
      | none ↦ none
      | some t' ↦ some (record h { store = set h.store ptr t' })
    ]
  ]

  -- The destructor, up to the end of the queue's thread.
  unfoldable pub shut_down : Handler H → Handler H
  unfolding stop_queue
  shut_down h =
      let stopped = record h { m_dpa_transaction_queue = stop_queue h.m_dpa_transaction_queue } in
      elim h.m_pending_transaction [
        | none ↦ stopped
        | some ptr ↦ elim (get_elem? h.store ptr) [
          | none ↦ stopped
          | some t ↦ record stopped { store = set h.store ptr (abort t) }
        ]
      ]
