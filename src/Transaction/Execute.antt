-- ===== src/Transaction/Execute.antt =====
-- execute(), abort() and get() of DpaTransaction2.
use clibdpa.Base.{ℕ, zero, suc, Bool, true, false, not, if◌then◌else◌, Option, none, some, ltb}
use clibdpa.Base.Int.{ℤ, eqb_ℤ}
use clibdpa.Message.{DpaMessage}
use clibdpa.ErrorCode.{
  value, trn_ok, trn_error_timeout, trn_error_aborted, trn_error_iface, trn_error_iface_busy,
}
use clibdpa.TransactionResult.{DpaTransactionResult, set_error_code}
use clibdpa.Transaction.Types.{
  TransferState, created, sent, sent_coordinator, confirmation, confirmation_broadcast,
  received_response, processed, timeout, aborted, interface_error, default_error, Transaction,
  request_of, to_coordinator,
}

-- abort()
unfoldable pub abort : Transaction → Transaction
abort t = record t { m_state = aborted }

-- The start of execute(defaultError), up to the first notification of get(). The functor m_sender
-- runs under the lock, on some state `W` of the world, and answers whether it threw.
module _ {W : Type 0} (m_sender : DpaMessage → W → W × Bool) where
  unfoldable pub start : Transaction → ℤ → W → Transaction × W
  start t error w =
      let chosen = record t { m_default_error = error } in
      if eqb_ℤ error (value trn_ok)
      then (let on_way = record chosen {
        m_state = if to_coordinator (request_of t) then sent_coordinator else sent;
      } in
          let (w', threw) = m_sender (request_of t) w in
          if threw
          then (record on_way { m_expected_duration_ms = 0; m_state = interface_error }, w')
          else (on_way, w'))
      else (record chosen { m_state = default_error; m_expected_duration_ms = 0 }, w)

-- One evaluation of the state: the state that it becomes, and the error code if the loop finishes.
unfoldable pub evaluate : TransferState → Bool → Bool → ℤ → TransferState × Option ℤ
evaluate sent expired infinite error =
    if expired
    then (if not infinite then (timeout, some (value trn_error_timeout)) else (sent, none))
    else (sent, none)
evaluate sent_coordinator expired infinite error =
    if expired
    then (if not infinite
        then (timeout, some (value trn_error_timeout))
        else (sent_coordinator, none))
    else (sent_coordinator, none)
evaluate confirmation expired infinite error =
    if expired
    then (if not infinite then (timeout, some (value trn_error_timeout)) else (confirmation, none))
    else (confirmation, none)
evaluate confirmation_broadcast expired infinite error =
    if expired then (processed, some (value trn_ok)) else (confirmation_broadcast, none)
evaluate received_response expired infinite error =
    if expired then (processed, some (value trn_ok)) else (received_response, none)
evaluate processed expired infinite error = (processed, some (value trn_ok))
evaluate timeout expired infinite error = (timeout, some (value trn_error_timeout))
evaluate aborted expired infinite error = (aborted, some (value trn_error_aborted))
evaluate interface_error expired infinite error = (interface_error, some (value trn_error_iface))
evaluate default_error expired infinite error = (default_error, some error)
evaluate created expired infinite error = (created, some (value trn_error_iface))

-- What follows the loop: the error code is set and the final state is signalled.
abbrev pub conclude : Transaction → TransferState × Option ℤ → Transaction
conclude t (state, none) = record t { m_state = state }
conclude t (state, some code) = record t {
  m_state = state;
  m_dpa_transaction_result = set_error_code t.m_dpa_transaction_result code;
  m_finish = true;
}

-- One cycle of the loop of execute(), behind its wait.
unfoldable pub cycle : Transaction → Bool → Transaction
unfolding evaluate
cycle t expired = conclude t (evaluate t.m_state expired t.m_infinit_timeout t.m_default_error)

-- The cycles that run until execute() waits again or is finished. With no expected duration there is
-- no wait, and the next cycle runs at once, not expired, with the lock held: `none` is a loop that
-- outruns the fuel.
unfoldable pub cycles : ℕ → Transaction → Bool → Option Transaction
unfolding cycle
cycles zero t expired = none
cycles (suc fuel) t expired =
    let t' = cycle t expired in
    let rest = cycles fuel t' false in
    if t'.m_finish then some t' else if ltb 0 t'.m_expected_duration_ms then some t' else rest

-- execute(defaultError) up to its first wait, or its end.
module _ {W : Type 0} (m_sender : DpaMessage → W → W × Bool) where
  unfoldable pub begin : ℕ → Transaction → ℤ → W → Option (Transaction × W)
  unfolding start cycles
  begin fuel t error w =
      let (t', w') = start m_sender t error w in
      if ltb 0 t'.m_expected_duration_ms
      then some (t', w')
      else elim (cycles fuel t' false) [ none ↦ none | some t'' ↦ some (t'', w') ]

-- The first loop of get(), entered with an infinite timeout only: it waits once for the start and
-- breaks out. `started` tells that the wait was ended by the start, and not by its time.
unfoldable pub get_start : Transaction → Bool → Option DpaTransactionResult
get_start t started =
    if t.m_infinit_timeout
    then (if not started
        then (if not t.m_infinit_timeout
            then some (set_error_code t.m_dpa_transaction_result (value trn_error_iface_busy))
            else none)
        else none)
    else none

-- The first call of get(): the result that it returns, or none while it waits for the finish. The result
-- is moved out, and a call behind it returns a null pointer.
unfoldable pub get : Transaction → Bool → Option DpaTransactionResult
unfolding get_start
get t started = elim (get_start t started) [
  | some r ↦ some r
  | none ↦ if t.m_finish then some t.m_dpa_transaction_result else none
]
