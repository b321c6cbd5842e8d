-- ===== src/Handler/EndToEnd.antt =====
-- A request on its way through the handler: from the queue to the channel, and from the bytes that the
-- channel receives to the result.
use clibdpa.Base.{
  ℕ, ◌≤◌, ◌<◌, ◌≡◌, ap, refl, ◌∙◌, Bool, true, false, List, some, get_elem?, set,
  get_elem?-set_self, get_elem?-lt, ok,
}
use clibdpa.Base.Int.{pos}
use clibdpa.Message.{DpaMessage, max_dpa_message_size, length_u8}
use clibdpa.Message.Contents.{contents}
use clibdpa.TaskQueue.{size}
use clibdpa.Transaction.Types.{Transaction, request_of, to_coordinator}
use clibdpa.Transaction.Execute.{start, cycle, cycles}
use clibdpa.Transaction.Receive.{process_received_message, process_response, process_confirmation}
use clibdpa.Transaction.Matches.{IsResponseTo, IsConfirmationOf}
use clibdpa.Transaction.Exchange.{sent_for-confirmed, sent_for, sent_for-answered, Delivers}
use clibdpa.Handler.Types.{Handler}
use clibdpa.Handler.Registry.{Called, process_any_message}
use clibdpa.Handler.Submit.{queue_max_len, process_transaction, resume_transaction}
use clibdpa.Handler.Dispatch.{handled, is_asynchronous, to_pending, response_message_handler}
use clibdpa.Handler.Overload.{on_way, taken_up, process-on_way}
use clibdpa.Handler.Routing.{received_as, accepted_pending}

on_way-sent_for : (t : Transaction) → on_way t ≡ sent_for t
unfolding start
on_way-sent_for t = refl

module _ {H : Type 0} where
  to_pending-ok :
      (h : Handler H) (ptr : ℕ) (t u : Transaction) (m : DpaMessage) (now : ℕ)
      (calls : List (Called H))
      → get_elem? h.store ptr ≡ some t
      → process_received_message t m now ≡ ok u
      → to_pending (record h { m_pending_transaction = some ptr }) m now calls
        ≡ handled (taken_up h ptr u) calls
  unfolding to_pending
  to_pending-ok h ptr t u m now calls g r = rw (g, to_pending) (rw (r, to_pending) refl)

  pub resume-some :
      (h : Handler H) (ptr : ℕ) (t u : Transaction) (expired : Bool)
      → get_elem? h.store ptr ≡ some t
      → cycles 1 t expired ≡ some u
      → resume_transaction 1 h ptr expired ≡ some (record h { store = set h.store ptr u })
  unfolding resume_transaction
  resume-some h ptr t u expired g c = rw (g, resume_transaction) (rw (c, resume_transaction) refl)

  taken_up-there :
      (h : Handler H) (ptr : ℕ) (t u : Transaction)
      → get_elem? h.store ptr ≡ some t
      → get_elem? (taken_up h ptr u).store ptr ≡ some u
  taken_up-there h ptr t u g = get_elem?-set_self h.store ptr u (get_elem?-lt h.store ptr g)

-- From end to end, for a request to the coordinator, whose transaction was given no default error, is not
-- finished and has a positive expected duration, and which the worker takes up with fewer than 16 others
-- in the queue: the channel is given the bytes of the request; when the channel then receives a string of
-- bytes that becomes a response to the request without the asynchronous flag, the handlers for any
-- message are called with it, and the next wake of the worker, for whatever reason, finishes the
-- transaction with that response and its code, which get() hands out.
pub request-Delivers :
    {H W : Type 0} (send_to : List ℕ → W → W × Bool) (h : Handler H) (ptr : ℕ) (t : Transaction)
    (w : W) (bytes : List ℕ) (stale now : ℕ) (expired : Bool)
    → get_elem? h.store ptr ≡ some t
    → size h.m_dpa_transaction_queue < queue_max_len
    → t.m_default_error ≡ pos 0
    → t.m_finish ≡ false
    → 0 < t.m_expected_duration_ms
    → to_coordinator (request_of t) ≡ true
    → 0 < length_u8 bytes
    → length_u8 bytes ≤ max_dpa_message_size
    → is_asynchronous (received_as bytes) ≡ false
    → IsResponseTo (request_of t) (received_as bytes)
    → (h1 h2 h3 : Handler H) × (t' : Transaction) × (process_transaction send_to 1 h ptr w
        ≡ some (h1, (send_to (contents (request_of t)) w).0))
      × (response_message_handler h1 bytes stale now
          ≡ handled h2 (process_any_message h1 (received_as bytes)))
      × (resume_transaction 1 h2 ptr expired ≡ some h3)
      × (get_elem? h3.store ptr ≡ some t')
      × Delivers t' (received_as bytes)
request-Delivers send_to h ptr t w bytes stale now expired g room no_error f p c l m a b =
    let r = received_as bytes in
    let h1 = taken_up h ptr (sent_for t) in
    let u = process_response (sent_for t) r now in
    let h2 = taken_up h1 ptr u in
    let (x, k, v) = sent_for-answered t r now expired f c b in
    let there1 = taken_up-there h ptr t (sent_for t) g in
    let there2 = taken_up-there h1 ptr (sent_for t) u there1 in
    (
      h1,
      h2,
      taken_up h2 ptr (cycle u expired),
      cycle u expired,
      process-on_way send_to h ptr t w g room no_error p
          ∙ ap (λ s. some (taken_up h ptr s, (send_to (contents (request_of t)) w).0))
              (on_way-sent_for t),
      accepted_pending h1 bytes stale now l m a
          ∙ to_pending-ok h1 ptr (sent_for t) u r now (process_any_message h1 r) there1 x,
      resume-some h2 ptr u (cycle u expired) expired there2 k,
      taken_up-there h2 ptr u (cycle u expired) there2,
      v,
    )

-- From end to end, for a request to a node, with a finite timeout, whose transaction was given no default
-- error, is not finished and has a positive expected duration, and which the worker takes up with fewer
-- than 16 others in the queue: the channel is given the bytes of the request; when it then receives a
-- string that becomes a confirmation of the request and one that becomes a response to it without
-- the asynchronous flag, the handlers for any message are called with each; a notification of the
-- worker does not finish the transaction, but the end of its time does, with that response and its
-- code, which get() hands out.
pub node_request-Delivers :
    {H W : Type 0} (send_to : List ℕ → W → W × Bool) (h : Handler H) (ptr : ℕ) (t : Transaction)
    (w : W) (confirming bytes : List ℕ) (stale now stale' now' : ℕ)
    → get_elem? h.store ptr ≡ some t
    → size h.m_dpa_transaction_queue < queue_max_len
    → t.m_default_error ≡ pos 0
    → t.m_finish ≡ false
    → t.m_infinit_timeout ≡ false
    → 0 < t.m_expected_duration_ms
    → (0 < length_u8 confirming) × (length_u8 confirming ≤ max_dpa_message_size)
    → is_asynchronous (received_as confirming) ≡ false
    → IsConfirmationOf (request_of t) (received_as confirming)
    → (0 < length_u8 bytes) × (length_u8 bytes ≤ max_dpa_message_size)
    → is_asynchronous (received_as bytes) ≡ false
    → IsResponseTo (request_of t) (received_as bytes)
    → (h1 h2 h3 h4 : Handler H) × (t3 t4 : Transaction) × (process_transaction send_to 1 h ptr w
        ≡ some (h1, (send_to (contents (request_of t)) w).0))
      × (response_message_handler h1 confirming stale now
          ≡ handled h2 (process_any_message h1 (received_as confirming)))
      × (response_message_handler h2 bytes stale' now'
          ≡ handled h3 (process_any_message h2 (received_as bytes)))
      × (get_elem? h3.store ptr ≡ some t3)
      × ((cycle t3 false).m_finish ≡ false)
      × (resume_transaction 1 h3 ptr true ≡ some h4)
      × (get_elem? h4.store ptr ≡ some t4)
      × Delivers t4 (received_as bytes)
node_request-Delivers send_to h ptr t w confirming bytes stale now stale' now' g room no_error f i p
      (cl, cm) cp k (l, m) a b =
    let c = received_as confirming in
    let r = received_as bytes in
    let t2 = process_confirmation (sent_for t) c now in
    let t3 = process_response t2 r now' in
    let h1 = taken_up h ptr (sent_for t) in
    let h2 = taken_up h1 ptr t2 in
    let h3 = taken_up h2 ptr t3 in
    let (x, y, e, n, v) = sent_for-confirmed t c r now now' f i k b in
    let there1 = taken_up-there h ptr t (sent_for t) g in
    let there2 = taken_up-there h1 ptr (sent_for t) t2 there1 in
    let there3 = taken_up-there h2 ptr t2 t3 there2 in
    (
      h1,
      h2,
      h3,
      taken_up h3 ptr (cycle t3 true),
      t3,
      cycle t3 true,
      process-on_way send_to h ptr t w g room no_error p
          ∙ ap (λ s. some (taken_up h ptr s, (send_to (contents (request_of t)) w).0))
              (on_way-sent_for t),
      accepted_pending h1 confirming stale now cl cm cp
          ∙ to_pending-ok h1 ptr (sent_for t) t2 c now (process_any_message h1 c) there1 x,
      accepted_pending h2 bytes stale' now' l m a
          ∙ to_pending-ok h2 ptr t2 t3 r now' (process_any_message h2 r) there2 y,
      there3,
      n,
      resume-some h3 ptr t3 (cycle t3 true) true there3 e,
      taken_up-there h3 ptr t3 (cycle t3 true) there3,
      v,
    )
