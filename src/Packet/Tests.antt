-- ===== src/Packet/Tests.antt =====
-- Places of members.
use Prim.Native.String.{String}
use clibdpa.Base.{ℕ, zero, suc, ◌≡◌, refl, true, List, [], ◌∷◌, some, set, arith}
use clibdpa.Message.{
  DpaMessage, node_address, peripheral_type, peripheral_command, response_code_field,
}
use clibdpa.Message.Validity.{IsValid}
use clibdpa.Packet.Layout.{sizeof, uns8, Selector, dot, at, locate}
use clibdpa.Packet.Union.{dpa_message, dpa_packet}
use clibdpa.Packet.Access.{word, number_at, get_member, set_member, part}
use clibdpa.Packet.Members.{
  in_request, in_response, set_member-get_member, set_member-others, get_member-accessors,
}

sizeof-dpa_packet : sizeof dpa_packet ≡ 64
unfolding sizeof dpa_packet
sizeof-dpa_packet = refl

sizeof-dpa_message : sizeof dpa_message ≡ 56
unfolding sizeof dpa_message
sizeof-dpa_message = refl

mid_located :
    locate dpa_packet (
      dot "DpaResponsePacket_t"
      ∷ dot "DpaMessage"
      ∷ dot "PerOSRead_Response"
      ∷ dot "MID"
      ∷ at 3
      ∷ [])
    ≡ some (11, uns8)
unfolding locate dpa_packet
mid_located = refl

-- A message whose buffer counts its bytes.
counting : ℕ → ℕ → List ℕ
counting zero i = []
counting (suc n) i = i ∷ counting n (suc i)

abbrev counted : DpaMessage
counted = record { buffer = counting 64 0; m_length = 20 }

counted-IsValid : IsValid counted
unfolding counting
counted-IsValid = record { sized = refl; bytes = omega arith; fits = omega arith }

-- `DpaRequestPacket_t.DpaMessage.PerOSLoadCode_Request.Address`, and the field behind it.
abbrev load_code : String → List Selector
load_code name =
    dot "DpaRequestPacket_t" ∷ dot "DpaMessage" ∷ dot "PerOSLoadCode_Request" ∷ dot name ∷ []

address_at : number_at dpa_packet (load_code "Address") ≡ some (7, word)
unfolding number_at locate dpa_packet
address_at = refl

set_member-get_member_example :
    (m : DpaMessage) × (set_member counted (load_code "Address") 0x12345 ≡ some m)
    × (get_member m (load_code "Address") ≡ some 0x2345)
    × IsValid m
    × (m.m_length ≡ 20)
set_member-get_member_example =
    set_member-get_member counted (load_code "Address") 0x12345 7 word counted-IsValid address_at

abbrev loading : DpaMessage
loading = record counted { buffer = set (set counted.buffer 7 0x45) 8 0x23 }

address_written : set_member counted (load_code "Address") 0x12345 ≡ some loading
unfolding set_member locate dpa_packet counting
address_written = refl

length_parts : part dpa_packet (load_code "Address") (load_code "Length") ≡ true
unfolding part dpa_packet
length_parts = refl

set_member-others_example :
    get_member loading (load_code "Length") ≡ get_member counted (load_code "Length")
set_member-others_example =
    set_member-others counted (load_code "Address") 0x12345 (load_code "Length") loading
      length_parts address_written

get_member-accessors_example :
    (get_member counted (in_request "NADR") ≡ some (node_address counted))
    × (get_member counted (in_request "PNUM") ≡ some (peripheral_type counted))
    × (get_member counted (in_request "PCMD") ≡ some (peripheral_command counted))
    × (get_member counted (in_response "NADR") ≡ some (node_address counted))
    × (get_member counted (in_response "PNUM") ≡ some (peripheral_type counted))
    × (get_member counted (in_response "PCMD") ≡ some (peripheral_command counted))
    × (get_member counted (in_response "ResponseCode") ≡ some (response_code_field counted))
get_member-accessors_example = get_member-accessors counted
