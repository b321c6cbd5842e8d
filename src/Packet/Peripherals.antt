-- ===== src/Packet/Peripherals.antt =====
-- The structures of the other peripherals: memories, IO, thermometer, UART and FRC (include/DPA.h).
use clibdpa.Packet.Layout.{CType, ◌▸◌, end, uns8, uns16, int8, int16, array, struct, union, sizeof}
use clibdpa.Base.{◌-◌, ◌/◌}
use clibdpa.Protocol.{dpa_max_data_length}

-- TPerMemoryRequest
abbrev pub per_memory_request : CType
per_memory_request = struct (
    ("Address", uns8)
    ▸ (
      "ReadWrite",
      union (
          ("Read", struct (("Length", uns8) ▸ end))
          ▸ ("Write", struct (("PData", array uns8 (dpa_max_data_length - 1)) ▸ end))
          ▸ end),
    )
    ▸ end)

-- TPerXMemoryRequest
abbrev pub per_xmemory_request : CType
per_xmemory_request = struct (
    ("Address", uns16)
    ▸ (
      "ReadWrite",
      union (
          ("Read", struct (("Length", uns8) ▸ end))
          ▸ ("Write", struct (("PData", array uns8 (dpa_max_data_length - 2)) ▸ end))
          ▸ end),
    )
    ▸ end)

-- TPerIOTriplet
abbrev pub per_io_triplet : CType
per_io_triplet = struct (("Port", uns8) ▸ ("Mask", uns8) ▸ ("Value", uns8) ▸ end)

-- TPerIODelay
abbrev pub per_io_delay : CType
per_io_delay = struct (("Header", uns8) ▸ ("Delay", uns16) ▸ end)

-- TPerIoDirectionAndSet_Request
abbrev pub per_io_direction_and_set_request : CType
unfolding sizeof
per_io_direction_and_set_request = union (
    ("Triplets", array per_io_triplet (dpa_max_data_length / sizeof per_io_triplet))
    ▸ ("Delays", array per_io_delay (dpa_max_data_length / sizeof per_io_delay))
    ▸ end)

-- TPerThermometerRead_Response
abbrev pub per_thermometer_read_response : CType
per_thermometer_read_response = struct (("IntegerValue", int8) ▸ ("SixteenthValue", int16) ▸ end)

-- TPerUartOpen_Request
abbrev pub per_uart_open_request : CType
per_uart_open_request = struct (("BaudRate", uns8) ▸ end)

-- TPerUartWriteRead_Request
abbrev pub per_uart_write_read_request : CType
per_uart_write_read_request =
    struct (("ReadTimeout", uns8) ▸ ("WrittenData", array uns8 (dpa_max_data_length - 1)) ▸ end)

-- TPerFrcSend_Request
abbrev pub per_frc_send_request : CType
per_frc_send_request = struct (("FrcCommand", uns8) ▸ ("UserData", array uns8 30) ▸ end)

-- TPerFrcSendSelective_Request
abbrev pub per_frc_send_selective_request : CType
per_frc_send_selective_request =
    struct
      (("FrcCommand", uns8) ▸ ("SelectedNodes", array uns8 30) ▸ ("UserData", array uns8 25) ▸ end)

-- TPerFrcSend_Response
abbrev pub per_frc_send_response : CType
per_frc_send_response =
    struct (("Status", uns8) ▸ ("FrcData", array uns8 (dpa_max_data_length - 1)) ▸ end)

-- TPerFrcSetParams_RequestResponse
abbrev pub per_frc_set_params_request_response : CType
per_frc_set_params_request_response = struct (("FrcParams", uns8) ▸ end)
