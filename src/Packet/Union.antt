-- ===== src/Packet/Union.antt =====
-- union TDpaMessage of include/DPA.h, which joins the structures, and union DpaPacket_t of
-- include/DpaMessage.h, the view of a message's buffer.
use clibdpa.Packet.Layout.{CType, ◌▸◌, end, uns8, uns16, array, struct, union, sizeof}
use clibdpa.Base.{◌/◌}
use clibdpa.Protocol.{dpa_max_data_length}
use clibdpa.Message.{max_dpa_message_size}
use clibdpa.Packet.General.{
  enum_peripherals_answer, error_answer, iface_confirmation, peripheral_info_answer,
}
use clibdpa.Packet.Coordinator.{
  per_coordinator_addr_info_response, per_coordinator_authorize_bond_request,
  per_coordinator_authorize_bond_response, per_coordinator_bond_node_request,
  per_coordinator_bond_node_smart_connect_response, per_coordinator_bridge_request,
  per_coordinator_bridge_response, per_coordinator_discovery_request,
  per_coordinator_discovery_response, per_coordinator_node_backup_request,
  per_coordinator_node_backup_response, per_coordinator_node_restore_request,
  per_coordinator_remove_bond_request, per_coordinator_remove_bond_response,
  per_coordinator_set_dpa_params_request_response, per_coordinator_set_hops_request_response,
  per_coordinator_set_mid_request, per_coordinator_smart_connect_request,
}
use clibdpa.Packet.NodeOs.{
  per_node_read_response, per_node_validate_bonds_request, per_os_indicate_request,
  per_os_load_code_request, per_os_read_cfg_response, per_os_read_response,
  per_os_selective_batch_request, per_os_set_security_request, per_os_sleep_request,
  per_os_test_rf_signal_request, per_os_test_rf_signal_response, per_os_write_cfg_byte_request,
  per_os_write_cfg_request,
}
use clibdpa.Packet.Peripherals.{
  per_frc_send_request, per_frc_send_response, per_frc_send_selective_request,
  per_frc_set_params_request_response, per_io_direction_and_set_request, per_memory_request,
  per_thermometer_read_response, per_uart_open_request, per_uart_write_read_request,
  per_xmemory_request,
}

-- TDpaMessage
unfoldable pub dpa_message : CType
unfolding sizeof
dpa_message = union (
    ("Request", struct (("PData", array uns8 (dpa_max_data_length)) ▸ end))
    ▸ ("Response", struct (("PData", array uns8 (dpa_max_data_length)) ▸ end))
    ▸ ("EnumPeripheralsAnswer", enum_peripherals_answer)
    ▸ ("PeripheralInfoAnswer", peripheral_info_answer)
    ▸ (
      "PeripheralInfoAnswers",
      array peripheral_info_answer (dpa_max_data_length / sizeof peripheral_info_answer),
    )
    ▸ ("ErrorAnswer", error_answer)
    ▸ ("PerCoordinatorAddrInfo_Response", per_coordinator_addr_info_response)
    ▸ ("PerCoordinatorBondNode_Request", per_coordinator_bond_node_request)
    ▸ (
      "PerCoordinatorBondNodeSmartConnect_Response",
      per_coordinator_bond_node_smart_connect_response,
    )
    ▸ ("PerCoordinatorRemoveBond_Request", per_coordinator_remove_bond_request)
    ▸ ("PerCoordinatorRemoveBond_Response", per_coordinator_remove_bond_response)
    ▸ ("PerCoordinatorDiscovery_Request", per_coordinator_discovery_request)
    ▸ ("PerCoordinatorDiscovery_Response", per_coordinator_discovery_response)
    ▸ (
      "PerCoordinatorSetDpaParams_Request_Response",
      per_coordinator_set_dpa_params_request_response,
    )
    ▸ ("PerCoordinatorSetHops_Request_Response", per_coordinator_set_hops_request_response)
    ▸ ("PerCoordinatorNodeBackup_Request", per_coordinator_node_backup_request)
    ▸ ("PerCoordinatorNodeBackup_Response", per_coordinator_node_backup_response)
    ▸ ("PerCoordinatorNodeRestore_Request", per_coordinator_node_restore_request)
    ▸ ("PerCoordinatorAuthorizeBond_Request", per_coordinator_authorize_bond_request)
    ▸ ("PerCoordinatorAuthorizeBond_Response", per_coordinator_authorize_bond_response)
    ▸ ("PerCoordinatorBridge_Request", per_coordinator_bridge_request)
    ▸ ("PerCoordinatorBridge_Response", per_coordinator_bridge_response)
    ▸ ("PerCoordinatorSmartConnect_Request", per_coordinator_smart_connect_request)
    ▸ ("PerCoordinatorSetMID_Request", per_coordinator_set_mid_request)
    ▸ ("PerNodeRead_Response", per_node_read_response)
    ▸ ("PerNodeValidateBonds_Request", per_node_validate_bonds_request)
    ▸ ("PerOSRead_Response", per_os_read_response)
    ▸ ("PerOSReadCfg_Response", per_os_read_cfg_response)
    ▸ ("PerOSWriteCfg_Request", per_os_write_cfg_request)
    ▸ ("PerOSWriteCfgByte_Request", per_os_write_cfg_byte_request)
    ▸ ("PerOSSetSecurity_Request", per_os_set_security_request)
    ▸ ("PerOSLoadCode_Request", per_os_load_code_request)
    ▸ ("PerOSSleep_Request", per_os_sleep_request)
    ▸ ("PerOSSelectiveBatch_Request", per_os_selective_batch_request)
    ▸ ("PerOSTestRfSignal_Request", per_os_test_rf_signal_request)
    ▸ ("PerOSIndicate_Request", per_os_indicate_request)
    ▸ ("PerOSTestRfSignal_Response", per_os_test_rf_signal_response)
    ▸ ("MemoryRequest", per_memory_request)
    ▸ ("XMemoryRequest", per_xmemory_request)
    ▸ ("PerIoDirectionAndSet_Request", per_io_direction_and_set_request)
    ▸ ("PerThermometerRead_Response", per_thermometer_read_response)
    ▸ ("PerUartOpen_Request", per_uart_open_request)
    ▸ ("PerUartWriteRead_Request", per_uart_write_read_request)
    ▸ ("PerFrcSend_Request", per_frc_send_request)
    ▸ ("PerFrcSend_Response", per_frc_send_response)
    ▸ ("PerFrcSendSelective_Request", per_frc_send_selective_request)
    ▸ ("PerFrcSetParams_RequestResponse", per_frc_set_params_request_response)
    ▸ ("IFaceConfirmation", iface_confirmation)
    ▸ end)

-- DpaMessage::DpaPacket_t
unfoldable pub dpa_packet : CType
unfolding dpa_message
dpa_packet = union (
    ("Buffer", array uns8 max_dpa_message_size)
    ▸ (
      "DpaRequestPacket_t",
      struct (
          ("NADR", uns16)
          ▸ ("PNUM", uns8)
          ▸ ("PCMD", uns8)
          ▸ ("HWPID", uns16)
          ▸ ("DpaMessage", dpa_message)
          ▸ end),
    )
    ▸ (
      "DpaResponsePacket_t",
      struct (
          ("NADR", uns16)
          ▸ ("PNUM", uns8)
          ▸ ("PCMD", uns8)
          ▸ ("HWPID", uns16)
          ▸ ("ResponseCode", uns8)
          ▸ ("DpaValue", uns8)
          ▸ ("DpaMessage", dpa_message)
          ▸ end),
    )
    ▸ end)
