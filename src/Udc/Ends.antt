-- ===== src/Udc/Ends.antt =====
-- `DissectUDC` on every payload.
use matter_dissector.Prelude.{ℕ, ◌-◌, ◌^◌, ◌<◌, ltb, Option, some, none, List, [], length}
use matter_dissector.Tree.{ProtoItem, outer, item, Host}
use matter_dissector.Dissector.Safety.{SafeBelow, next_expected-Safe}
use matter_dissector.Dissector.Shows.{add_list_item-Safe}
use matter_dissector.Im.Safety.Fields.{shows}
use matter_dissector.Tvb.{Tvb}
use matter_dissector.Packet.Safety.{
  Ends, PacketSafe, packets, chain, either-Safe, pure-Safe, add_value-Safe, add_range-Safe,
  copied-Safe, length-copy, with_tlv-Safe,
}
use matter_dissector.Common.Safety.{context_number-Safe}
use matter_dissector.Udc.Fields.{proto_udc}
use matter_dissector.Udc.Data.{
  target_app_element, add_udc_target_app, target_app_list, declaration_element, declaration,
}
use matter_dissector.Udc.{
  declaration_tlv_data, add_instance_name, declaration_parts,
  dissect_udc_identification_declaration, dissect_udc_message, dissect_udc,
}

module _ {n : ℕ} (host : Host) where
  target_app_element-Safe :
      (tree : ProtoItem) (tag : ℕ) → SafeBelow n (target_app_element host tree tag)
  unfolding target_app_element
  target_app_element-Safe tree tag = search shows depth 20

  add_udc_target_app-Safe : (tree : ProtoItem) → SafeBelow n (add_udc_target_app host tree)
  unfolding add_udc_target_app
  add_udc_target_app-Safe tree =
      search (shows, context_number-Safe, target_app_element-Safe) depth 20

  target_app_list-Safe : (tree : ProtoItem) → SafeBelow n (target_app_list host tree)
  unfolding target_app_list
  target_app_list-Safe tree = search (shows, add_list_item-Safe, add_udc_target_app-Safe) depth 20

  declaration_element-Safe :
      (tree : ProtoItem) (tag : ℕ) → SafeBelow n (declaration_element host tree tag)
  unfolding declaration_element
  declaration_element-Safe tree tag = search (shows, target_app_list-Safe) depth 30

  declaration-Safe : (tree : ProtoItem) → SafeBelow n (declaration host tree)
  unfolding declaration
  declaration-Safe tree =
      search (shows, next_expected-Safe, context_number-Safe, declaration_element-Safe) depth 20

module _ (host : Host) (tvb : Tvb) (find_uint8 : List ℕ → ℕ → Option ℕ) (payload : List ℕ)
    (small : length payload < 2 ^ 16) where
  declaration_tlv_data-Safe :
      (tree : ProtoItem) (cursor : ℕ)
      → PacketSafe (declaration_tlv_data host tvb find_uint8 payload tree cursor)
  unfolding declaration_tlv_data
  declaration_tlv_data-Safe tree cursor =
      either-Safe (ltb cursor (length payload))
        (chain
          (chain (add_range-Safe payload tree _ cursor _ item) λ _.
            copied-Safe (tvb.memdup payload cursor (length payload - cursor)) λ bytes e.
              with_tlv-Safe host bytes cursor 3
                (length-copy tvb payload small cursor (length payload - cursor) bytes e)
                (declaration-Safe host tree))
          λ _. pure-Safe tt)
        (pure-Safe tt)

  module _ (tree : ProtoItem) where
    add_instance_name-Safe :
        (newline_pos : ℕ)
        → PacketSafe (add_instance_name host tvb find_uint8 payload tree newline_pos)
    unfolding add_instance_name
    add_instance_name-Safe newline_pos = search packets depth 20

    declaration_parts-Safe :
        (newline_pos : Option ℕ)
        → PacketSafe (declaration_parts host tvb find_uint8 payload tree newline_pos)
    unfolding declaration_parts
    declaration_parts-Safe none = search packets depth 20
    declaration_parts-Safe (some newline_pos) =
        search (packets, add_instance_name-Safe, declaration_tlv_data-Safe) depth 20

    dissect_udc_identification_declaration-Safe :
        PacketSafe (dissect_udc_identification_declaration host tvb find_uint8 payload tree)
    unfolding dissect_udc_identification_declaration
    dissect_udc_identification_declaration-Safe = search (packets, declaration_parts-Safe) depth 20

    dissect_udc_message-Safe :
        (msg_type : ℕ) → PacketSafe (dissect_udc_message host tvb find_uint8 payload msg_type tree)
    unfolding dissect_udc_message
    dissect_udc_message-Safe msg_type =
        search (packets, dissect_udc_identification_declaration-Safe) depth 20

-- `DissectUDC` on a payload of fewer than 65536 bytes and any type of message comes to an end, wherever
-- `tvb_find_uint8` says that the newline is: no read of TLV data outside of its bytes, and no loop out of
-- rounds. It returns, or an exception or
-- assertion of Wireshark, a null pointer or a copy past a block ends it.
pub dissect_udc-Ends :
    (host : Host) (tvb : Tvb) (find_uint8 : List ℕ → ℕ → Option ℕ) (payload : List ℕ) (msg_type : ℕ)
    → length payload < 2 ^ 16
    → Ends (dissect_udc host tvb find_uint8 payload msg_type)
unfolding dissect_udc
dissect_udc-Ends host tvb find_uint8 payload msg_type small =
    (chain (add_value-Safe outer proto_udc 0 (2 ^ 32 - 1) item)
        λ tree. dissect_udc_message-Safe host tvb find_uint8 payload small tree msg_type).ends
      []
