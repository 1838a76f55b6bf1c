-- ===== src/Header.antt =====
-- `DissectMatter` of packet-matter.cpp: the fields of a message's header and of the header of its
-- payload. The items that are added to Wireshark's tree and columns show the same bytes again and are
-- left out.
pub mod RoundTrip
pub mod Payload
use matter_dissector.Prelude.{
  ℕ, ◌+◌, ◌-◌, ◌*◌, ◌/◌, ◌%◌, ◌^◌, Bool, true, false, ◌||◌, leb, ltb, ◌==◌, if◌then◌else◌, Option,
  none, some, List, [], ◌∷◌, length, take, drop,
}
use matter_dissector.Encoding.{◌>>=◌}
use matter_dissector.Tvb.{Tvb}
use matter_dissector.Message.{MatterMessageInfo, has_bit, has_ack_id, has_vendor_protocol}

-- `kMatterTCPMessageLengthFieldSize`
abbrev pub tcp_message_length_field_size : ℕ
tcp_message_length_field_size = 2

-- `kMatterMessageFlag_SourceNodeId` and `kMatterMessageFlag_DestNodeId`
abbrev pub has_source_node_id : ℕ → Bool
has_source_node_id msg_flags = has_bit msg_flags 2

abbrev pub has_dest_node_id : ℕ → Bool
has_dest_node_id msg_flags = has_bit msg_flags 0

-- The protocol ids for which `GetProtocolName` has a name.
unfoldable pub has_protocol_name : ℕ → Bool
has_protocol_name id =
    ltb id 0x8
    || (id == 0xB
        || (id == 0xC
            || (id == 0xE || (id == 0xF || (id == 0x11 || (id == 0x21 || id == 0x1004))))))

-- The two bytes of a protocol id in the other order.
unfoldable pub swap_protocol_id : ℕ → ℕ
swap_protocol_id id = (id * 2 ^ 8 + id / 2 ^ 8) % 2 ^ 16

-- A protocol id without a name is dispatched by its swapped id if that has one.
unfoldable pub dispatch_protocol_id : ℕ → ℕ
unfolding has_protocol_name swap_protocol_id
dispatch_protocol_id id =
    if has_protocol_name id
    then id
    else if has_protocol_name (swap_protocol_id id)
    then swap_protocol_id id
    else id

module _ (T : Tvb) where
  open T use {get_guint8, get_letohs, get_letohl, get_letoh64, memdup}

  -- The length of the message and the bytes from its flags on. The reported length of a packet, which
  -- `tvb_reported_length` gives, is not less than the number of its bytes that were captured.
  unfoldable pub message_start : Bool → ℕ → List ℕ → Option (ℕ × List ℕ)
  message_start true reported_length tvb = do
    msg_len ← get_letohs tvb 0
    some (msg_len, drop tcp_message_length_field_size tvb)
  message_start false reported_length tvb = some (reported_length % 2 ^ 16, tvb)

  -- A node id that a flag says is there, and the parse point behind it.
  unfoldable pub get_node_id : Bool → List ℕ → ℕ → Option (ℕ × ℕ)
  get_node_id true tvb parse_point = do
    node_id ← get_letoh64 tvb parse_point
    some (node_id, parse_point + 8)
  get_node_id false tvb parse_point = some (0, parse_point + 0)

  -- `DissectMatter` up to the end of the message header. The fields of the payload's header are 0.
  unfoldable pub dissect_message_header : Bool → ℕ → List ℕ → Option (MatterMessageInfo × List ℕ)
  unfolding message_start get_node_id
  dissect_message_header is_tcp reported_length tvb = do
    (msg_len, tvb) ← message_start is_tcp reported_length tvb
    msg_flags ← get_guint8 tvb 0
    session_id ← get_letohs tvb 1
    sec_flags ← get_guint8 tvb 3
    msg_id ← get_letohl tvb 4
    (src_node_id, parse_point) ← get_node_id (has_source_node_id msg_flags) tvb 8
    (dest_node_id, parse_point) ← get_node_id (has_dest_node_id msg_flags) tvb parse_point
    some (
      record {
        msg_version = msg_flags % 2 ^ 8 / 2 ^ 4;
        msg_flags = msg_flags;
        sec_flags = sec_flags;
        src_node_id = src_node_id;
        dest_node_id = dest_node_id;
        msg_id = msg_id;
        ack_msg_cntr = 0;
        msg_protocol_id = 0;
        msg_protocol_vendor_id = 0;
        exch_id = 0;
        session_type = sec_flags % 2 ^ 2;
        session_id = session_id;
        exch_header = 0;
        msg_type = 0;
        msg_len = msg_len;
        header_len = parse_point % 2 ^ 16;
        payload_len = 0;
        trailer_len = 0;
      },
      tvb,
    )

  unfoldable pub get_vendor_id : Bool → List ℕ → ℕ → Option (ℕ × ℕ)
  get_vendor_id true tvb parse_point = do
    vendor_id ← get_letohs tvb parse_point
    some (vendor_id, parse_point + 2)
  get_vendor_id false tvb parse_point = some (0, parse_point)

  unfoldable pub get_ack : Bool → List ℕ → ℕ → Option (ℕ × ℕ)
  get_ack true tvb parse_point = do
    ack_msg_cntr ← get_letohl tvb parse_point
    some (ack_msg_cntr, parse_point + 4)
  get_ack false tvb parse_point = some (0, parse_point)

  -- The payload's header in the unencrypted data: the message with its fields, the id of the
  -- dissector that gets the payload, and the payload. The length is 16 bits of a difference that may
  -- be negative.
  unfoldable pub dissect_payload_header :
      List ℕ → MatterMessageInfo → Option (MatterMessageInfo × ℕ × List ℕ)
  unfolding dispatch_protocol_id get_vendor_id get_ack
  dissect_payload_header unenc m = do
    exch_header ← get_guint8 unenc 0
    msg_type ← get_guint8 unenc 1
    exch_id ← get_letohs unenc 2
    protocol_id ← get_letohs unenc 4
    (vendor_id, parse_point) ← get_vendor_id (has_vendor_protocol exch_header) unenc 6
    (ack_msg_cntr, parse_point) ← get_ack (has_ack_id exch_header) unenc parse_point
    let payload_len = (length unenc + (2 ^ 16 - (parse_point + m.trailer_len))) % 2 ^ 16
    payload ← memdup unenc parse_point payload_len
    some (
      record m {
        exch_header = exch_header;
        msg_type = msg_type;
        exch_id = exch_id;
        msg_protocol_id = protocol_id;
        msg_protocol_vendor_id = vendor_id;
        ack_msg_cntr = ack_msg_cntr;
        payload_len = payload_len;
      },
      dispatch_protocol_id protocol_id,
      payload,
    )
