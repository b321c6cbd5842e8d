-- ===== src/Channel/Cdc.antt =====
-- class IqrfCdcChannel (IqrfCdcChannel/IqrfCdcChannel.cpp).
use clibdpa.Base.{
  ℕ, zero, suc, Bool, true, false, List, Option, none, some, if◌then◌else◌, not, Result, ok, err,
  cdc_impl_exception, bad_function_call,
}
use clibdpa.Channel.Spi.{State, ready}

-- What the channel uses of the class CDCImpl: sending, and the tests of its response against
-- DSResponse::BUSY and DSResponse::OK.
pub record CdcDriver (W R : Type 0) : Type 0 where
  pub send_data : List ℕ → W → W × R
  pub is_busy : R → Bool
  pub is_ok : R → Bool

abbrev pub cdc_attempts : ℕ
cdc_attempts = 4

-- `pause` is the sleep between two attempts.
module _ {W R : Type 0} (driver : CdcDriver W R) (pause : W → W) where
  -- The loop of sendTo(message), with the attempts that are left and the last response, which is none
  -- before the first attempt.
  unfoldable pub try_to_send : ℕ → List ℕ → Option R → W → W × Option R
  try_to_send zero message last w = (w, last)
  try_to_send (suc left) message last w =
      let (w', response) = driver.send_data message w in
      let rest = try_to_send left message (some response) (pause w') in
      if driver.is_busy response then rest else (w', some response)

  -- The test behind the loop; the initial value of the response is BUSY.
  abbrev is_sent : Option R → Bool
  is_sent none = false
  is_sent (some response) = driver.is_ok response

  -- sendTo(message): whether it threw.
  unfoldable pub send_to : List ℕ → W → W × Bool
  unfolding try_to_send
  send_to message w =
      let (w', last) = try_to_send cdc_attempts message none w in (w', not (is_sent last))

-- The members, and whether the driver calls the channel's function for received messages.
pub record CdcChannel (F : Type 0) : Type 0 where
  pub m_receive_from_func : Option F
  pub listening : Bool

module _ {F : Type 0} where
  -- IqrfCdcChannel(portIqrf). The argument is what `m_cdc.test()` answers.
  unfoldable pub construct : Bool → Result (CdcChannel F)
  construct tested =
      if tested
      then ok (record { m_receive_from_func = none; listening = false })
      else err cdc_impl_exception

  -- registerReceiveFromHandler(receiveFromFunc)
  unfoldable pub register_receive_from_handler : CdcChannel F → F → CdcChannel F
  register_receive_from_handler c f = record { m_receive_from_func = some f; listening = true }

  -- The two statements of unregisterReceiveFromHandler().
  unfoldable pub clear_handler : CdcChannel F → CdcChannel F
  clear_handler c = record c { m_receive_from_func = none }

  unfoldable pub stop_listening : CdcChannel F → CdcChannel F
  stop_listening c = record c { listening = false }

  unfoldable pub unregister_receive_from_handler : CdcChannel F → CdcChannel F
  unfolding clear_handler stop_listening
  unregister_receive_from_handler c = stop_listening (clear_handler c)

  -- What the driver's thread does with a received message: nothing, the call of the user's function, or
  -- the call of an empty one, which throws in that thread.
  unfoldable pub receive : CdcChannel F → List ℕ → Option (Result (F × List ℕ))
  receive c message =
      if not c.listening
      then none
      else some
          (elim c.m_receive_from_func [ none ↦ err bad_function_call | some f ↦ ok (f, message) ])

-- getState()
abbrev pub get_state : State
get_state = ready
