-- ===== src/Udc.antt =====
-- packet-matter-udc.cpp: user directed commissioning. The text of the packet list's column is left out.
pub mod Fields
pub mod Data
pub mod Ends
use matter_dissector.Prelude.{
  ℕ, ◌+◌, ◌-◌, ◌^◌, false, ◌==◌, ltb, if◌then◌else◌, Option, none, some, List, [], ◌∷◌, length,
}
use matter_dissector.Tree.{
  ProtoItem, outer, parent_of, text, append_text, item, string_value, Host, Field,
}
use matter_dissector.Tlv.Types.{code, structure, array, has_code}
use matter_dissector.Tlv.Tags.{anonymous_tag}
use matter_dissector.Tlv.Reader.State.{unexpected_tlv_element}
use matter_dissector.Tvb.{Tvb}
use matter_dissector.Packet.{
  Packet, Reply, ◌>>=◌, ◌>>◌, pure, read, change, add_value, add_range, when, with_tlv, returning,
}
use matter_dissector.Common.Session.{context_number}
use matter_dissector.Udc.Fields.{
  proto_udc, udc_instance_name, udc_ignore_byte, udc_tlv_data, udc_raw_payload, udc_vendor_id,
  udc_product_id, udc_device_name, udc_device_type, udc_pairing_inst, udc_pairing_hint,
  udc_rotating_id, udc_cd_port, udc_target_app_list, udc_target_app, udc_app_vendor_id,
  udc_app_product_id, udc_no_passcode, udc_cd_upon_passcode_dialog, udc_commissioner_passcode,
  udc_commissioner_passcode_ready, udc_cancel_passcode, udc_passcode_length, udc_unknown_tag,
}
use matter_dissector.Udc.Data.{declaration}

module _ (host : Host) (tvb : Tvb) (find_uint8 : List ℕ → ℕ → Option ℕ) (payload : List ℕ) where
  -- The TLV data behind the byte that is ignored.
  unfoldable pub declaration_tlv_data : ProtoItem → ℕ → Packet (Unit {0})
  declaration_tlv_data tree cursor = when (ltb cursor (length payload)) (do
    add_range payload tree udc_tlv_data cursor (length payload - cursor) item
    tlv_data ← read (tvb.memdup payload cursor (length payload - cursor))
    with_tlv host tlv_data cursor 3 (declaration host tree))

  -- The instance name, which ends in front of the first newline.
  unfoldable pub add_instance_name : ProtoItem → ℕ → Packet ProtoItem
  add_instance_name tree newline_pos =
      if ltb 0 newline_pos
      then add_range payload tree udc_instance_name 0 newline_pos item
      else add_value tree udc_instance_name 0 0 (string_value [])

  unfoldable pub declaration_parts : ProtoItem → Option ℕ → Packet (Unit {0})
  declaration_parts tree none =
      add_range payload tree udc_raw_payload 0 (length payload) item >> pure tt
  declaration_parts tree (some newline_pos) = do
    add_instance_name tree newline_pos
    let cursor = newline_pos + 1
    when (ltb cursor (length payload)) (add_range payload tree udc_ignore_byte cursor 1 item)
    declaration_tlv_data tree (if ltb cursor (length payload) then cursor + 1 else cursor)

  -- `DissectUDCIdentificationDeclaration`
  unfoldable pub dissect_udc_identification_declaration : ProtoItem → Packet ℕ
  dissect_udc_identification_declaration tree = do
    change (append_text (parent_of tree) (text ": IdentificationDeclaration" ∷ []))
    if length payload == 0
        then pure 0
        else returning (λ _. length payload) (λ _. length payload)
            (declaration_parts tree (find_uint8 payload 10))

  -- `DissectUDC`
  unfoldable pub dissect_udc_message : ℕ → ProtoItem → Packet ℕ
  dissect_udc_message msg_type tree =
      if msg_type == 0 then dissect_udc_identification_declaration tree else (do
        when (ltb 0 (length payload))
            (add_range payload tree udc_raw_payload 0 (length payload) item)
        pure (length payload))

  unfoldable pub dissect_udc : ℕ → Reply ℕ
  dissect_udc msg_type =
      (do
        udc_tree ← add_value outer proto_udc 0 (2 ^ 32 - 1) item
        dissect_udc_message msg_type udc_tree)
        []
