-- ===== src/Packet/General.antt =====
-- The header of a packet, and the answers and confirmations that belong to no peripheral (include/DPA.h).
use clibdpa.Packet.Layout.{CType, ◌▸◌, end, uns8, uns16, array, struct}
use clibdpa.Base.{◌+◌, ◌-◌, ◌/◌}
use clibdpa.Protocol.{pnum_user, pnum_max}

-- TDpaIFaceHeader
abbrev pub dpa_iface_header : CType
dpa_iface_header = struct (
    ("NADRlow", uns8)
    ▸ ("NADRhigh", uns8)
    ▸ ("PNUM", uns8)
    ▸ ("PCMD", uns8)
    ▸ ("HWPID", uns16)
    ▸ end)

-- TEnumPeripheralsAnswer
abbrev pub enum_peripherals_answer : CType
enum_peripherals_answer = struct (
    ("DpaVersion", uns16)
    ▸ ("UserPerNr", uns8)
    ▸ ("EmbeddedPers", array uns8 (pnum_user / 8))
    ▸ ("HWPID", uns16)
    ▸ ("HWPIDver", uns16)
    ▸ ("Flags", uns8)
    ▸ ("UserPer", array uns8 ((pnum_max - pnum_user + 1 + 7) / 8))
    ▸ end)

-- TPeripheralInfoAnswer
abbrev pub peripheral_info_answer : CType
peripheral_info_answer =
    struct (("PerTE", uns8) ▸ ("PerT", uns8) ▸ ("Par1", uns8) ▸ ("Par2", uns8) ▸ end)

-- TErrorAnswer
abbrev pub error_answer : CType
error_answer = struct (("ErrN", uns8) ▸ ("PNUMoriginal", uns8) ▸ end)

-- TIFaceConfirmation
abbrev pub iface_confirmation : CType
iface_confirmation =
    struct (("Hops", uns8) ▸ ("TimeSlotLength", uns8) ▸ ("HopsResponse", uns8) ▸ end)
