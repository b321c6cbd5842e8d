-- ===== src/Packet/NodeOs.antt =====
-- The structures of the peripherals node and OS (include/DPA.h).
use clibdpa.Packet.Layout.{CType, ◌▸◌, end, uns8, uns16, array, struct, sizeof}
use clibdpa.Base.{◌+◌, ◌-◌, ◌/◌}
use clibdpa.Protocol.{pnum_user, pnum_max, dpa_max_data_length}

-- TPerNodeRead_Response
abbrev pub per_node_read_response : CType
per_node_read_response = struct (
    ("ntwADDR", uns8)
    ▸ ("ntwVRN", uns8)
    ▸ ("ntwZIN", uns8)
    ▸ ("ntwDID", uns8)
    ▸ ("ntwPVRN", uns8)
    ▸ ("ntwUSERADDRESS", uns16)
    ▸ ("ntwID", uns16)
    ▸ ("ntwVRNFNZ", uns8)
    ▸ ("ntwCFG", uns8)
    ▸ ("Flags", uns8)
    ▸ end)

-- TPerNodeValidateBondsItem
abbrev pub per_node_validate_bonds_item : CType
per_node_validate_bonds_item = struct (("Address", uns8) ▸ ("MID", array uns8 4) ▸ end)

-- TPerNodeValidateBonds_Request
abbrev pub per_node_validate_bonds_request : CType
unfolding sizeof
per_node_validate_bonds_request = struct (
    (
      "Bonds",
      array per_node_validate_bonds_item
          (dpa_max_data_length / sizeof per_node_validate_bonds_item),
    )
    ▸ end)

-- TPerOSRead_Response
abbrev pub per_os_read_response : CType
per_os_read_response = struct (
    ("MID", array uns8 4)
    ▸ ("OsVersion", uns8)
    ▸ ("McuType", uns8)
    ▸ ("OsBuild", uns16)
    ▸ ("Rssi", uns8)
    ▸ ("SupplyVoltage", uns8)
    ▸ ("Flags", uns8)
    ▸ ("SlotLimits", uns8)
    ▸ ("IBK", array uns8 16)
    ▸ ("DpaVersion", uns16)
    ▸ ("UserPerNr", uns8)
    ▸ ("EmbeddedPers", array uns8 (pnum_user / 8))
    ▸ ("HWPID", uns16)
    ▸ ("HWPIDver", uns16)
    ▸ ("FlagsEnum", uns8)
    ▸ ("UserPer", array uns8 ((pnum_max - pnum_user + 1 + 7) / 8))
    ▸ end)

-- TPerOSReadCfg_Response
abbrev pub per_os_read_cfg_response : CType
per_os_read_cfg_response = struct (
    ("Checksum", uns8)
    ▸ ("Configuration", array uns8 31)
    ▸ ("RFPGM", uns8)
    ▸ ("Undocumented", array uns8 1)
    ▸ end)

-- TPerOSWriteCfg_Request
abbrev pub per_os_write_cfg_request : CType
per_os_write_cfg_request =
    struct (("Undefined", uns8) ▸ ("Configuration", array uns8 31) ▸ ("RFPGM", uns8) ▸ end)

-- TPerOSWriteCfgByteTriplet
abbrev pub per_os_write_cfg_byte_triplet : CType
per_os_write_cfg_byte_triplet = struct (("Address", uns8) ▸ ("Value", uns8) ▸ ("Mask", uns8) ▸ end)

-- TPerOSWriteCfgByte_Request
abbrev pub per_os_write_cfg_byte_request : CType
unfolding sizeof
per_os_write_cfg_byte_request = struct (
    (
      "Triplets",
      array per_os_write_cfg_byte_triplet
          (dpa_max_data_length / sizeof per_os_write_cfg_byte_triplet),
    )
    ▸ end)

-- TPerOSSetSecurity_Request
abbrev pub per_os_set_security_request : CType
per_os_set_security_request = struct (("Type", uns8) ▸ ("Data", array uns8 16) ▸ end)

-- TPerOSLoadCode_Request
abbrev pub per_os_load_code_request : CType
per_os_load_code_request =
    struct (("Flags", uns8) ▸ ("Address", uns16) ▸ ("Length", uns16) ▸ ("CheckSum", uns16) ▸ end)

-- TPerOSSleep_Request
abbrev pub per_os_sleep_request : CType
per_os_sleep_request = struct (("Time", uns16) ▸ ("Control", uns8) ▸ end)

-- TPerOSSelectiveBatch_Request
abbrev pub per_os_selective_batch_request : CType
per_os_selective_batch_request =
    struct
      (("SelectedNodes", array uns8 30) ▸ ("Requests", array uns8 (dpa_max_data_length - 30)) ▸ end)

-- TPerOSTestRfSignal_Request
abbrev pub per_os_test_rf_signal_request : CType
per_os_test_rf_signal_request =
    struct (("Channel", uns8) ▸ ("RXfilter", uns8) ▸ ("Time", uns16) ▸ end)

-- TPerOSTestRfSignal_Response
abbrev pub per_os_test_rf_signal_response : CType
per_os_test_rf_signal_response = struct (("Counter", uns8) ▸ end)

-- TPerOSIndicate_Request
abbrev pub per_os_indicate_request : CType
per_os_indicate_request = struct (("Control", uns8) ▸ end)
