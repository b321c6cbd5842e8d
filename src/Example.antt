-- ===== src/Example.antt =====
-- The program DpaExamples/Example.cpp, a client of the library: it sets a handler up and pulses a LED in
-- rounds, and counts the rounds in which it failed. Not modelled: its configuration of the SPI device,
-- and what it prints and traces. An int counter of rounds of a second each does not come to its end.
pub mod Round
mod Tests
use Prim.Native.String.{String}
use clibdpa.Base.{
  ℕ, ◌+◌, ◌||◌, not, List, [], ◌∷◌, Option, none, some, if◌then◌else◌, ◌==◌, ok, err,
}
use clibdpa.Base.Int.{pos}
use clibdpa.Protocol.{pnum_ledr, cmd_led_pulse, hwpid_do_not_check, sizeof_iface_header}
use clibdpa.Message.{DpaMessage, empty, set_length, get_length, response_code_field}
use clibdpa.Packet.Access.{set_member}
use clibdpa.Packet.Members.{in_request}
use clibdpa.Timing.{TimingParams, std}
use clibdpa.TransactionResult.{DpaTransactionResult}
use clibdpa.Handler.Types.{Handler}
use clibdpa.Handler.Registry.{register_async_message_handler}
use clibdpa.Handler.Settings.{set_rf_communication_mode, set_timing_params}
use clibdpa.Handler.Submit.{execute_dpa_transaction}

-- `frcTiming`: its OS version is an empty string, and its DPA version is not initialised.
abbrev pub frc_timing : ℕ → TimingParams
frc_timing stale = record {
  bonded_nodes = 2;
  discovered_nodes = 2;
  frc_response_time = 0x70;
  os_version = "";
  dpa_version = stale;
}

-- The settings of the new handler.
unfoldable pub set_up : {H : Type 0} → Handler H → H → ℕ → Handler H
unfolding register_async_message_handler set_rf_communication_mode set_timing_params
set_up h asynchronous_message_handler stale =
    set_timing_params
      (set_rf_communication_mode (register_async_message_handler h "" asynchronous_message_handler)
        std)
      (frc_timing stale)

-- `dpaRequest.DpaPacket().DpaRequestPacket_t.name = value`
abbrev assign_member : Option DpaMessage → String → ℕ → Option DpaMessage
assign_member m name value = elim m [
  | none ↦ none
  | some request ↦ set_member request (in_request name) value
]

-- `dpaRequest`
unfoldable pub pulse_request : Option DpaMessage
unfolding set_member set_length empty
pulse_request =
    let addressed = assign_member (some empty) "NADR" 0x01 in
    let peripheral = assign_member addressed "PNUM" pnum_ledr in
    let commanded = assign_member peripheral "PCMD" cmd_led_pulse in
    elim (assign_member commanded "HWPID" hwpid_do_not_check) [
      | none ↦ none
      | some request ↦ elim (set_length request (pos sizeof_iface_header)) [
        | err e ↦ none
        | ok request' ↦ some request'
      ]
    ]

-- The start of a round: the request is built and executed, with a timeout of 1 s.
unfoldable pub begin_round : {H : Type 0} → Handler H → ℕ → Option (Handler H × ℕ)
unfolding pulse_request execute_dpa_transaction
begin_round h now = elim pulse_request [
  | none ↦ none
  | some request ↦ some (execute_dpa_transaction h request (pos 1000) (pos 0) now)
]

-- The end of a round: the counter of failed rounds.
unfoldable pub end_round : ℕ → DpaTransactionResult → ℕ
unfolding response_code_field
end_round counter res =
    if not (response_code_field res.m_response == 0) || get_length res.m_response == 0
    then counter + 1
    else counter
