-- ===== src/Example/Round.antt =====
-- A round of the example program, answered and not, over any channel.
use clibdpa.Base.{
  ℕ, ◌+◌, ◌≤◌, ◌<◌, ◌≡◌, sym, ap, subst, refl, ◌∙◌, Bool, true, false, List, [], ◌∷◌, some,
  get_elem?, if◌then◌else◌, ◌==◌, get_elem?-append_last, overwrite, arith,
}
use clibdpa.Base.Int.{pos}
use clibdpa.Message.{
  DpaMessage, empty, empty_packet, max_dpa_message_size, length_u8, copy, response_code_field,
}
use clibdpa.Message.Contents.{contents}
use clibdpa.TaskQueue.{TaskQueue, size}
use clibdpa.TransactionResult.{DpaTransactionResult}
use clibdpa.TransactionResult
use clibdpa.Transaction.Types.{Transaction, request_of}
use clibdpa.Transaction.Create.{create}
use clibdpa.Transaction.Invariant.{IsNew}
use clibdpa.Transaction.Matches.{IsResponseTo, IsConfirmationOf}
use clibdpa.Transaction.Exchange.{Delivers}
use clibdpa.Handler.Types.{Handler}
use clibdpa.Handler.Defaults.{HasTimeout, create-IsNew_at}
use clibdpa.Handler.Submit.{
  queue_max_len, execute_dpa_transaction, process_transaction, resume_transaction,
}
use clibdpa.Handler.Dispatch.{handled, is_asynchronous, response_message_handler}
use clibdpa.Handler.Registry.{process_any_message}
use clibdpa.Handler.Routing.{received_as}
use clibdpa.Handler.EndToEnd.{node_request-Delivers}
use clibdpa.Handler.Silence.{TimesOut, unanswered-TimesOut}
use clibdpa.Packet.Layout.{locate}
use clibdpa.Packet.Union.{dpa_packet}
use clibdpa.Example.{pulse_request, begin_round, end_round}

-- Node 1, the red LED, pulse, any HWPID.
abbrev pub pulse_bytes : List ℕ
pulse_bytes = 1 ∷ 0 ∷ 6 ∷ 3 ∷ 255 ∷ 255 ∷ []

abbrev pub pulse : DpaMessage
pulse = record { buffer = overwrite pulse_bytes empty_packet; m_length = 6 }

pub pulse_request-pulse : pulse_request ≡ some pulse
unfolding pulse_request locate dpa_packet
pulse_request-pulse = refl

-- The number of failed rounds by a response of at least one byte.
end_round-code :
    (c : ℕ) (res : DpaTransactionResult) (r : DpaMessage)
    → res.m_response ≡ copy r
    → 0 < r.m_length
    → end_round c res ≡ (if response_code_field (copy r) == 0 then c else c + 1)
unfolding end_round copy
end_round-code c res r e l = ground (arith, ap (λ m. m.m_length) e)

end_round-empty :
    (c : ℕ) (res : DpaTransactionResult) → res.m_response ≡ empty → end_round c res ≡ c + 1
unfolding end_round empty
end_round-empty c res e = ground (arith, ap (λ m. m.m_length) e)

module _ {H : Type 0} (h : Handler H) (now : ℕ) where
  -- The transaction of the round.
  abbrev made : Transaction
  made = create pulse h.m_rf_mode h.m_timing_params h.m_default_timeout (pos 1000) (pos 0) h.ids now

  made-IsNew : HasTimeout h → IsNew made
  made-IsNew v = create-IsNew_at h pulse (pos 1000) (pos 0) now v (omega arith)

  made_plain :
      HasTimeout h
      → (made.m_default_error ≡ pos 0)
        × (made.m_infinit_timeout ≡ false)
        × (request_of made ≡ pulse)
        × (made.m_dpa_transaction_result.m_response ≡ empty)
  unfolding create TransactionResult.new empty
  made_plain v = rw v.value (refl, ground arith, refl, refl)

  abbrev begun : Handler H × ℕ
  begun = execute_dpa_transaction h pulse (pos 1000) (pos 0) now

  begin_round-begun : begin_round h now ≡ some begun
  unfolding begin_round
  begin_round-begun = rw (pulse_request-pulse, begin_round) refl

  -- The handler when the worker has taken the transaction, with a queue of others.
  abbrev at_work : TaskQueue ℕ → Handler H
  at_work q = record (begun.0) { m_dpa_transaction_queue = q }

  made_stored : (q : TaskQueue ℕ) → get_elem? (at_work q).store begun.1 ≡ some made
  unfolding execute_dpa_transaction
  made_stored q = get_elem?-append_last h.store made

module _ {H W : Type 0} (send_to : List ℕ → W → W × Bool) (h : Handler H) (now : ℕ)
    (q : TaskQueue ℕ) (w : W) where
  -- A round of the example that nothing answers, over any channel, with any handler whose default timeout
  -- is proper and fewer than 16 others in the queue when the worker takes the transaction up: the channel
  -- is given the six bytes of the request, the end of the wait finishes the transaction with the code for
  -- a timeout, and the counter of failed rounds goes up by one.
  pub silent_round :
      HasTimeout h
      → size q < queue_max_len
      → (h1 h2 h3 : Handler H) × (ptr : ℕ) × (t' : Transaction) × (begin_round h now
          ≡ some (h1, ptr))
        × (process_transaction send_to 1 (record h1 { m_dpa_transaction_queue = q }) ptr w
            ≡ some (h2, (send_to pulse_bytes w).0))
        × (resume_transaction 1 h2 ptr true ≡ some h3)
        × (get_elem? h3.store ptr ≡ some t')
        × TimesOut (made h now) t'
        × ((c : ℕ) → end_round c t'.m_dpa_transaction_result ≡ c + 1)
  silent_round v room =
      let (no_error, i, e, n) = made_plain h now v in
      let (h2, h3, t', a, b, c, d) =
        unanswered-TimesOut send_to (at_work h now q) (begun h now).1 (made h now) w
          (made_stored h now q) room no_error i (made-IsNew h now v).paced in
      (
        (begun h now).0,
        h2,
        h3,
        (begun h now).1,
        t',
        begin_round-begun h now,
        a ∙ ap (λ m. some (h2, (send_to (contents m) w).0)) e,
        b,
        c,
        d,
        λ k. end_round-empty k t'.m_dpa_transaction_result (ap (λ r. r.m_response) d.result ∙ n),
      )

  -- A round that is answered, in the same setting: where the channel then receives a string that becomes
  -- a confirmation of the request and one that becomes a response to it without the asynchronous
  -- flag, the end of the wait finishes the transaction with that response and its code, and the
  -- counter of failed rounds goes up by one exactly if the response code of the stored response is
  -- not 0.
  pub answered_round :
      (confirming bytes : List ℕ) (stale now1 stale' now2 : ℕ)
      → HasTimeout h
      → size q < queue_max_len
      → (0 < length_u8 confirming) × (length_u8 confirming ≤ max_dpa_message_size)
      → is_asynchronous (received_as confirming) ≡ false
      → IsConfirmationOf pulse (received_as confirming)
      → (0 < length_u8 bytes) × (length_u8 bytes ≤ max_dpa_message_size)
      → is_asynchronous (received_as bytes) ≡ false
      → IsResponseTo pulse (received_as bytes)
      → (h1 h2 h3 h4 h5 : Handler H) × (ptr : ℕ) × (t' : Transaction) × (begin_round h now
          ≡ some (h1, ptr))
        × (process_transaction send_to 1 (record h1 { m_dpa_transaction_queue = q }) ptr w
            ≡ some (h2, (send_to pulse_bytes w).0))
        × (response_message_handler h2 confirming stale now1
            ≡ handled h3 (process_any_message h2 (received_as confirming)))
        × (response_message_handler h3 bytes stale' now2
            ≡ handled h4 (process_any_message h3 (received_as bytes)))
        × (resume_transaction 1 h4 ptr true ≡ some h5)
        × (get_elem? h5.store ptr ≡ some t')
        × Delivers t' (received_as bytes)
        × ((c : ℕ)
            → end_round c t'.m_dpa_transaction_result
              ≡ (if response_code_field (copy (received_as bytes)) == 0 then c else c + 1))
  answered_round confirming bytes stale now1 stale' now2 v room cl cp k bl bp b =
      let (no_error, i, e, n) = made_plain h now v in
      let (h2, h3, h4, h5, t3, t', a1, a2, a3, a4, a5, a6, a7, d) =
        node_request-Delivers send_to (at_work h now q) (begun h now).1 (made h now) w confirming
          bytes stale now1 stale' now2 (made_stored h now q) room no_error
          (made-IsNew h now v).unfinished i (made-IsNew h now v).paced cl cp
          (subst (λ m. IsConfirmationOf m (received_as confirming)) (sym e) k) bl bp
          (subst (λ m. IsResponseTo m (received_as bytes)) (sym e) b) in
      (
        (begun h now).0,
        h2,
        h3,
        h4,
        h5,
        (begun h now).1,
        t',
        begin_round-begun h now,
        a1 ∙ ap (λ m. some (h2, (send_to (contents m) w).0)) e,
        a2,
        a3,
        a6,
        a7,
        d,
        λ c.
            end_round-code c t'.m_dpa_transaction_result (received_as bytes) d.message
              (omega (arith, b.long_enough)),
      )
