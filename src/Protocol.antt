-- ===== src/Protocol.antt =====
-- The constants of the DPA protocol that the library's decisions rest on (include/DPA.h).
use clibdpa.Base.{ℕ, ◌-◌}

-- IQMESH addresses.
abbrev pub coordinator_address : ℕ
coordinator_address = 0x00

abbrev pub broadcast_address : ℕ
broadcast_address = 0xff

-- Embedded peripheral numbers.
abbrev pub pnum_coordinator : ℕ
pnum_coordinator = 0x00

abbrev pub pnum_frc : ℕ
pnum_frc = 0x0d

-- Commands of the coordinator peripheral.
abbrev pub cmd_coordinator_bond_node : ℕ
cmd_coordinator_bond_node = 4

abbrev pub cmd_coordinator_discovery : ℕ
cmd_coordinator_discovery = 7

abbrev pub cmd_coordinator_authorize_bond : ℕ
cmd_coordinator_authorize_bond = 13

abbrev pub cmd_coordinator_smart_connect : ℕ
cmd_coordinator_smart_connect = 18

-- Commands of the FRC peripheral.
abbrev pub cmd_frc_send : ℕ
cmd_frc_send = 0

abbrev pub cmd_frc_send_selective : ℕ
cmd_frc_send_selective = 2

-- `sizeof(TDpaIFaceHeader)`, the packed foursome and HWPID.
abbrev pub sizeof_iface_header : ℕ
sizeof_iface_header = 6

-- The status byte of a confirmation.
abbrev pub status_confirmation : ℕ
status_confirmation = 0xff

-- `sizeofBufferCOM` and DPA_MAX_DATA_LENGTH.
abbrev pub sizeof_buffer_com : ℕ
sizeof_buffer_com = 64

abbrev pub dpa_max_data_length : ℕ
dpa_max_data_length = sizeof_buffer_com - sizeof_iface_header - 2

-- The first number of user peripherals, and the largest number of a peripheral.
abbrev pub pnum_user : ℕ
pnum_user = 0x20

abbrev pub pnum_max : ℕ
pnum_max = 0x7f

-- The red LED, its command to pulse, and the HWPID that overrides the check.
abbrev pub pnum_ledr : ℕ
pnum_ledr = 0x06

abbrev pub cmd_led_pulse : ℕ
cmd_led_pulse = 3

abbrev pub hwpid_do_not_check : ℕ
hwpid_do_not_check = 0xffff
