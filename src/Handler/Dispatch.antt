-- ===== src/Handler/Dispatch.antt =====
-- ResponseMessageHandler(), which the channel calls with every received string of bytes.
use clibdpa.Base.{
  ℕ, Bool, true, false, List, [], ◌++◌, none, some, if◌then◌else◌, ◌==◌, length, get_elem?, set, ok,
  err,
}
use clibdpa.Base.Bytes.{has_bit7}
use clibdpa.Message.{
  DpaMessage, request, response, empty, fill_from_response, from_string, length_u8,
  message_direction, response_code_field,
}
use clibdpa.Transaction.Receive.{process_received_message}
use clibdpa.Handler.Types.{Handler}
use clibdpa.Handler.Registry.{Called, process_any_message, process_asynchronous_message}

-- What a call of the handler comes to: the handler and the calls of user functions, or the call of a
-- member function on a null pointer.
pub data Handled (H : Type 0) : Type 0 where
  handled : Handler H → List (Called H) → Handled H
  null_dereference : Handled H

-- The two conditions for an asynchronous message: a request, or a response with the asynchronous flag.
unfoldable pub is_asynchronous : DpaMessage → Bool
is_asynchronous m = elim (message_direction m) [
  | request ↦ true
  | response ↦ has_bit7 (response_code_field m)
  | _ ↦ false
]

module _ {H : Type 0} where
  -- `m_pendingTransaction->processReceivedMessage(message)`. A std::logic_error is caught and traced.
  unfoldable pub to_pending : Handler H → DpaMessage → ℕ → List (Called H) → Handled H
  to_pending h m now calls = elim h.m_pending_transaction [
    | none ↦ null_dereference
    | some ptr ↦ elim (get_elem? h.store ptr) [
      | none ↦ null_dereference
      | some t ↦ elim (process_received_message t m now) [
        | err e ↦ handled h calls
        | ok t' ↦ handled (record h { store = set h.store ptr t' }) calls
      ]
    ]
  ]

  -- ResponseMessageHandler(message). The string is converted to a message again for the asynchronous
  -- handler and for the transaction; `stale` is the uninitialised length of that object.
  unfoldable pub response_message_handler : Handler H → List ℕ → ℕ → ℕ → Handled H
  response_message_handler h bytes stale now =
      if length bytes == 0
      then handled h []
      else elim (fill_from_response empty (some bytes) (length_u8 bytes)) [
        | err e ↦ handled h []
        | ok received ↦ elim (from_string stale bytes) [
          | err e ↦ handled h (process_any_message h received)
          | ok message ↦
              if is_asynchronous received
              then handled h
                  (process_any_message h received ++ process_asynchronous_message h message)
              else to_pending h message now (process_any_message h received)
        ]
      ]
