-- ===== src/Examples/Headers.antt =====
-- A message with both node ids, and the header of its payload.
use matter_dissector.Prelude.{ℕ, ◌≡◌, refl, true, some, List, [], ◌∷◌, arith}
use matter_dissector.Message.{MatterMessageInfo}
use matter_dissector.Tvb.Bytes.{bytes_tvb}
use matter_dissector.Header.{dissect_message_header, dissect_payload_header, dispatch_protocol_id}
use matter_dissector.Header.RoundTrip.{
  encode_message_header, header_of, wire, dissect_message_header_lem,
}
use matter_dissector.Header.Payload.{encode_payload_header, dissect_payload_header_lem}

-- Flags 5: both node ids. Security flags 0, session 0x1234, counter 99.
abbrev header_bytes : List ℕ
header_bytes = encode_message_header 5 0x1234 0 99 0xAAAA 0xBBBB (1 ∷ 2 ∷ [])

dissect_message_header_lem_example :
    dissect_message_header bytes_tvb true 28 (wire bytes_tvb true 26 header_bytes)
    ≡ some (header_of bytes_tvb 5 0x1234 0 99 0xAAAA 0xBBBB 26, header_bytes)
dissect_message_header_lem_example =
    dissect_message_header_lem bytes_tvb true 28 26 5 0x1234 0 99 0xAAAA 0xBBBB (1 ∷ 2 ∷ [])
      (omega arith) (omega arith) (omega arith) (omega arith) (omega arith)

abbrev message : MatterMessageInfo
message = header_of bytes_tvb 5 0x1234 0 99 0xAAAA 0xBBBB 26

-- Exchange flags 3: from the initiator, with an acknowledged counter.
dissect_payload_header_lem_example :
    dissect_payload_header bytes_tvb (encode_payload_header 3 0x20 7 1 0 98 (5 ∷ 6 ∷ [])) message
    ≡ some (
      record message {
        exch_header = 3;
        msg_type = 0x20;
        exch_id = 7;
        msg_protocol_id = 1;
        msg_protocol_vendor_id = 0;
        ack_msg_cntr = 98;
        payload_len = 2;
      },
      dispatch_protocol_id 1,
      5 ∷ 6 ∷ [],
    )
dissect_payload_header_lem_example =
    dissect_payload_header_lem bytes_tvb message 3 0x20 7 1 0 98 (5 ∷ 6 ∷ []) [] (omega arith)
      (omega arith) (omega arith) (omega arith) refl (omega arith)
