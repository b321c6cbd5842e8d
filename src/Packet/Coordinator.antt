-- ===== src/Packet/Coordinator.antt =====
-- The structures of the coordinator peripheral (include/DPA.h).
use clibdpa.Packet.Layout.{CType, ◌▸◌, end, uns8, array, struct, union}
use clibdpa.Base.{◌-◌}
use clibdpa.Protocol.{dpa_max_data_length, sizeof_iface_header}
use clibdpa.Packet.General.{dpa_iface_header}

-- TPerCoordinatorAddrInfo_Response
abbrev pub per_coordinator_addr_info_response : CType
per_coordinator_addr_info_response = struct (("DevNr", uns8) ▸ ("DID", uns8) ▸ end)

-- TPerCoordinatorBondNode_Request
abbrev pub per_coordinator_bond_node_request : CType
per_coordinator_bond_node_request = struct (
    ("ReqAddr", uns8)
    ▸ (
      "BondNode",
      union (
          ("Previous", struct (("BondingMask", uns8) ▸ end))
          ▸ ("Current", struct (("BondingTestRetries", uns8) ▸ end))
          ▸ end),
    )
    ▸ end)

-- TPerCoordinatorBondNodeSmartConnect_Response
abbrev pub per_coordinator_bond_node_smart_connect_response : CType
per_coordinator_bond_node_smart_connect_response =
    struct (("BondAddr", uns8) ▸ ("DevNr", uns8) ▸ end)

-- TPerCoordinatorRemoveBond_Request
abbrev pub per_coordinator_remove_bond_request : CType
per_coordinator_remove_bond_request = struct (("BondAddr", uns8) ▸ end)

-- TPerCoordinatorRemoveBond_Response
abbrev pub per_coordinator_remove_bond_response : CType
per_coordinator_remove_bond_response = struct (("DevNr", uns8) ▸ end)

-- TPerCoordinatorDiscovery_Request
abbrev pub per_coordinator_discovery_request : CType
per_coordinator_discovery_request = struct (("TxPower", uns8) ▸ ("MaxAddr", uns8) ▸ end)

-- TPerCoordinatorDiscovery_Response
abbrev pub per_coordinator_discovery_response : CType
per_coordinator_discovery_response = struct (("DiscNr", uns8) ▸ end)

-- TPerCoordinatorSetDpaParams_Request_Response
abbrev pub per_coordinator_set_dpa_params_request_response : CType
per_coordinator_set_dpa_params_request_response = struct (("DpaParam", uns8) ▸ end)

-- TPerCoordinatorSetHops_Request_Response
abbrev pub per_coordinator_set_hops_request_response : CType
per_coordinator_set_hops_request_response =
    struct (("RequestHops", uns8) ▸ ("ResponseHops", uns8) ▸ end)

-- TPerCoordinatorNodeBackup_Request
abbrev pub per_coordinator_node_backup_request : CType
per_coordinator_node_backup_request = struct (("Index", uns8) ▸ end)

-- TPerCoordinatorNodeBackup_Response
abbrev pub per_coordinator_node_backup_response : CType
per_coordinator_node_backup_response = struct (("NetworkData", array uns8 49) ▸ end)

-- TPerCoordinatorNodeRestore_Request
abbrev pub per_coordinator_node_restore_request : CType
per_coordinator_node_restore_request = struct (("NetworkData", array uns8 49) ▸ end)

-- TPerCoordinatorAuthorizeBond_Request
abbrev pub per_coordinator_authorize_bond_request : CType
per_coordinator_authorize_bond_request = struct (("ReqAddr", uns8) ▸ ("MID", array uns8 4) ▸ end)

-- TPerCoordinatorAuthorizeBond_Response
abbrev pub per_coordinator_authorize_bond_response : CType
per_coordinator_authorize_bond_response = struct (("BondAddr", uns8) ▸ ("DevNr", uns8) ▸ end)

-- TPerCoordinatorBridge_Request
abbrev pub per_coordinator_bridge_request : CType
per_coordinator_bridge_request = struct (
    ("subHeader", dpa_iface_header)
    ▸ ("subPData", array uns8 (dpa_max_data_length - sizeof_iface_header))
    ▸ end)

-- TPerCoordinatorBridge_Response
abbrev pub per_coordinator_bridge_response : CType
per_coordinator_bridge_response = struct (
    ("subHeader", dpa_iface_header)
    ▸ ("subRespCode", uns8)
    ▸ ("subDpaValue", uns8)
    ▸ ("subPData", array uns8 (dpa_max_data_length - sizeof_iface_header - 2))
    ▸ end)

-- TPerCoordinatorSmartConnect_Request
abbrev pub per_coordinator_smart_connect_request : CType
per_coordinator_smart_connect_request = struct (
    ("ReqAddr", uns8)
    ▸ ("BondingTestRetries", uns8)
    ▸ ("IBK", array uns8 16)
    ▸ ("MID", array uns8 4)
    ▸ ("reserved0", uns8)
    ▸ ("VirtualDeviceAddress", uns8)
    ▸ ("UserData", array uns8 4)
    ▸ ("reserved1", array uns8 10)
    ▸ end)

-- TPerCoordinatorSetMID_Request
abbrev pub per_coordinator_set_mid_request : CType
per_coordinator_set_mid_request = struct (("MID", array uns8 4) ▸ ("BondAddr", uns8) ▸ end)
