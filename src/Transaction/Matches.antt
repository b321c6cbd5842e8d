-- ===== src/Transaction/Matches.antt =====
-- Which messages belong to a request, read off the packets.
use clibdpa.Base.{◌+◌, ◌≤◌, ◌≡◌, ◌↔◌, true, false, arith}
use clibdpa.Base.Bytes.{has_bit7}
use clibdpa.Protocol.{status_confirmation}
use clibdpa.Message.{
  DpaMessage, message_direction, response, node_address, peripheral_type, peripheral_command,
  response_code_field,
}
use clibdpa.Message.{confirmation as confirmation_kind}
use clibdpa.Message.Direction.{message_direction-Classified}
use clibdpa.Transaction.Receive.{answers}

-- A response to a request: from the same address and peripheral, with the command of the request and
-- the response flag.
pub record IsResponseTo (request received : DpaMessage) : Type 0 where
  pub long_enough : 3 ≤ received.m_length
  pub address : node_address received ≡ node_address request
  pub peripheral : peripheral_type received ≡ peripheral_type request
  pub flagged : has_bit7 (peripheral_command received) ≡ true
  pub command : peripheral_command received ≡ peripheral_command request + 128

-- A confirmation of a request: the same command without the flag, and the status of a confirmation.
pub record IsConfirmationOf (request received : DpaMessage) : Type 0 where
  pub long_enough : 7 ≤ received.m_length
  pub address : node_address received ≡ node_address request
  pub peripheral : peripheral_type received ≡ peripheral_type request
  pub plain : has_bit7 (peripheral_command received) ≡ false
  pub command : peripheral_command received ≡ peripheral_command request
  pub status : response_code_field received ≡ status_confirmation

-- For any two messages: the code takes the one for a response that answers the other exactly if it is
-- a response to it.
pub response-IsResponseTo :
    (q r : DpaMessage)
    → ((message_direction r ≡ response) × (answers r q ≡ true)) ↔ IsResponseTo q r
unfolding answers
response-IsResponseTo q r =
    let c = (message_direction-Classified r).responses in
    (λ h. let (l, f) = c.0 h.0 in ground arith, λ v. (c.1 (v.long_enough, v.flagged), ground arith))

-- And for a confirmation that answers the other exactly if it is a confirmation of it.
pub confirmation-IsConfirmationOf :
    (q r : DpaMessage)
    → ((message_direction r ≡ confirmation_kind) × (answers r q ≡ true)) ↔ IsConfirmationOf q r
unfolding answers
confirmation-IsConfirmationOf q r =
    let c = (message_direction-Classified r).confirmations in
    (
      λ h. let (l, p, s) = c.0 h.0 in ground arith,
      λ v. (c.1 (v.long_enough, v.plain, v.status), ground arith),
    )
