-- ===== src/Transaction/Broadcast.antt =====
-- The exchange of a broadcast, which no node answers.
use clibdpa.Base.{ap, inl, ℕ, ◌<◌, ◌≡◌, refl, ◌∙◌, Bool, true, false, arith, some, ok}
use clibdpa.Base.Int.{pos}
use clibdpa.Base.Bytes.{low_byte}
use clibdpa.Message.{DpaMessage, node_address, copy}
use clibdpa.TransactionResult.{get_error_code, set_error_code, set_confirmation}
use clibdpa.Transaction.Types.{confirmation_broadcast, Transaction, request_of}
use clibdpa.Transaction.Execute.{start, cycle, cycles, begin, get}
use clibdpa.Transaction.Receive.{process_received_message, process_confirmation, answers}
use clibdpa.Transaction.Steps.{sender}
use clibdpa.Transaction.Honesty.{code_of}
use clibdpa.Transaction.Matches.{IsConfirmationOf, confirmation-IsConfirmationOf}
use clibdpa.Transaction.Deliver.{receive_confirmation}
use clibdpa.Transaction.Progress.{get_cases, cycles_once}
use clibdpa.Transaction.Exchange.{sent_for, sent_for-state, begin-sent_for}

-- What the user of a confirmed broadcast is handed.
pub record Confirms (t : Transaction) (c : DpaMessage) : Type 0 where
  pub finished : t.m_finish ≡ true
  pub code : code_of t ≡ pos 0
  pub message : t.m_dpa_transaction_result.m_confirmation ≡ copy c
  pub flagged : t.m_dpa_transaction_result.m_is_confirmed ≡ true
  pub handed : (started : Bool) → get t started ≡ some t.m_dpa_transaction_result

confirmed-state :
    (t : Transaction) (c : DpaMessage) (now : ℕ)
    → low_byte (node_address c) ≡ 255
    → let u = process_confirmation t c now in
      (u.m_state ≡ confirmation_broadcast)
      × (u.m_finish ≡ t.m_finish)
      × (u.m_dpa_transaction_result.m_response_code ≡ t.m_dpa_transaction_result.m_response_code)
      × (u.m_dpa_transaction_result.m_confirmation ≡ copy c)
      × (u.m_dpa_transaction_result.m_is_confirmed ≡ true)
unfolding process_confirmation set_confirmation copy
confirmed-state t c now b = (ground arith, refl, refl, refl, refl)

-- A cycle in the state of a confirmed broadcast.
cycle-broadcast :
    (u : Transaction)
    → u.m_state ≡ confirmation_broadcast
    → u.m_finish ≡ false
    → u.m_dpa_transaction_result.m_response_code ≡ pos 0
    → ((cycle u false).m_finish ≡ false)
      × ((cycle u true).m_finish ≡ true)
      × (code_of (cycle u true) ≡ pos 0)
      × ((cycle u true).m_dpa_transaction_result.m_confirmation
          ≡ u.m_dpa_transaction_result.m_confirmation)
      × ((cycle u true).m_dpa_transaction_result.m_is_confirmed
          ≡ u.m_dpa_transaction_result.m_is_confirmed)
unfolding cycle set_error_code get_error_code
cycle-broadcast u s f r = (ground arith, ground arith, ground arith, ground arith, ground arith)

sent_for-result :
    (t : Transaction) → (sent_for t).m_dpa_transaction_result ≡ t.m_dpa_transaction_result
unfolding start
sent_for-result t = refl

-- A broadcast of a new transaction: it is sent and confirmed. A notification does not finish it; when
-- the wait ends by its time, it finishes with the code 0 and a copy of the confirmation, with a
-- finite timeout or without, and get() hands the result out.
pub broadcast_exchange :
    (t : Transaction) (c : DpaMessage) (now : ℕ)
    → t.m_finish ≡ false
    → 0 < t.m_expected_duration_ms
    → t.m_dpa_transaction_result.m_response_code ≡ pos 0
    → low_byte (node_address (request_of t)) ≡ 255
    → IsConfirmationOf (request_of t) c
    → (t1 t2 : Transaction) × (begin (sender false) 1 t (pos 0) tt ≡ some (t1, tt))
      × (process_received_message t1 c now ≡ ok t2)
      × ((cycle t2 false).m_finish ≡ false)
      × (cycles 1 t2 true ≡ some (cycle t2 true))
      × Confirms (cycle t2 true) c
broadcast_exchange t c now f p z b k =
    let (d, a) = (confirmation-IsConfirmationOf (request_of t) c).1 k in
    let (s, g, q, i, e) = sent_for-state t in
    let u = process_confirmation (sent_for t) c now in
    let (state, fin, resp, conf, flag) =
      confirmed-state (sent_for t) c now (ap low_byte k.address ∙ b) in
    let (open_, done, code, kept, still) =
      cycle-broadcast u state (fin ∙ g ∙ f)
        (resp ∙ ap (λ r. r.m_response_code) (sent_for-result t) ∙ z) in
    (
      sent_for t,
      u,
      begin-sent_for t p,
      receive_confirmation (sent_for t) c now (g ∙ f) d (ap (answers c) q ∙ a),
      open_,
      cycles_once u true (inl done),
      record {
        finished = done;
        code = code;
        message = kept ∙ conf;
        flagged = still ∙ flag;
        handed = λ started. get_cases (cycle u true) started ∙ rw done refl;
      },
    )
