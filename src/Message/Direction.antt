-- ===== src/Message/Direction.antt =====
-- How messages are told apart, against the layout of the packets.
use clibdpa.Base.{
  ℕ, ◌≤◌, ◌≡◌, ◌≢◌, ◌↔◌, refl, ok, arith, true, false, get_or-overwrite_past, [], ◌∷◌, overwrite,
}
use clibdpa.Base.Bytes.{has_bit7}
use clibdpa.Protocol.{status_confirmation}
use clibdpa.Message.{
  DpaMessage, confirmation, notification, response, message_direction, peripheral_command,
  response_code_field, is_confirmation_message, assign_string,
}

-- The classification, each kind by its condition on length, response flag and status byte.
pub record Classified (m : DpaMessage) : Type 0 where
  pub responses :
      (message_direction m ≡ response)
      ↔ ((3 ≤ m.m_length) × (has_bit7 (peripheral_command m) ≡ true))
  pub confirmations : (message_direction m ≡ confirmation) ↔ (
      (7 ≤ m.m_length)
      × (has_bit7 (peripheral_command m) ≡ false)
      × (response_code_field m ≡ status_confirmation))
  pub no_notification : message_direction m ≢ notification

-- Of every message: it is a response exactly if it has at least 3 bytes and bit 7 of PCMD is set; a
-- confirmation exactly if it has at least 7 bytes, the bit is clear and the status byte is 0xff; and
-- it is never a notification.
pub message_direction-Classified : (m : DpaMessage) → Classified m
unfolding message_direction is_confirmation_message
message_direction-Classified m = record {
  responses = (λ h. ground arith, λ h. ground arith);
  confirmations = (λ h. ground arith, λ h. ground arith);
  no_notification = λ h. ground arith;
}

-- A string of 3 bytes has no PCMD, yet where the message object held PCMD's response bit before,
-- the new message is taken for a response: MessageDirection reads the stale byte.
assign_string-stale_response :
    (m : DpaMessage) (a b c : ℕ)
    → has_bit7 (peripheral_command m) ≡ true
    → (m' : DpaMessage) × (assign_string m (a ∷ b ∷ c ∷ []) ≡ ok m')
      × (m'.m_length ≡ 3)
      × (message_direction m' ≡ response)
unfolding assign_string message_direction peripheral_command
assign_string-stale_response m a b c h = (
  record m { buffer = overwrite (a ∷ b ∷ c ∷ []) m.buffer; m_length = 3 },
  refl,
  refl,
  ground (arith, get_or-overwrite_past (a ∷ b ∷ c ∷ []) m.buffer 3 0 (omega arith)),
)
