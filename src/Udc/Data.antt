-- ===== src/Udc/Data.antt =====
-- packet-matter-udc.cpp: the TLV data of an identification declaration.
use matter_dissector.Prelude.{ℕ, false, ◌==◌, if◌then◌else◌}
use matter_dissector.Tree.{ProtoItem, Host}
use matter_dissector.Tlv.Types.{code, structure, array, has_code}
use matter_dissector.Tlv.Tags.{anonymous_tag}
use matter_dissector.Tlv.Reader.State.{unexpected_tlv_element}
use matter_dissector.Dissector.{Act}
use matter_dissector.Dissector.Moves.{next_expected}
use matter_dissector.Dissector.Elements.{◌>>=◌, ◌>>◌, verify, get_type, inside}
use matter_dissector.Dissector.Items.{add_typed_item, add_sub_tree_item}
use matter_dissector.Dissector.Generic.{add_generic_tlv_item}
use matter_dissector.Dissector.Lists.{add_list_item}
use matter_dissector.Common.Session.{context_number}
use matter_dissector.Udc.Fields.{
  udc_vendor_id, udc_product_id, udc_device_name, udc_device_type, udc_pairing_inst,
  udc_pairing_hint, udc_rotating_id, udc_cd_port, udc_target_app_list, udc_target_app,
  udc_app_vendor_id, udc_app_product_id, udc_no_passcode, udc_cd_upon_passcode_dialog,
  udc_commissioner_passcode, udc_commissioner_passcode_ready, udc_cancel_passcode,
  udc_passcode_length, udc_unknown_tag,
}

module _ (host : Host) where
  abbrev unknown : ProtoItem → Act (Unit {0})
  unknown tree = add_generic_tlv_item host tree udc_unknown_tag false

  -- An element of `AddUDCTargetApp`.
  unfoldable pub target_app_element : ProtoItem → ℕ → Act (Unit {0})
  target_app_element target_app_tree tag =
      if tag == 11
      then add_typed_item host target_app_tree udc_app_vendor_id
      else if tag == 12
      then add_typed_item host target_app_tree udc_app_product_id
      else unknown target_app_tree

  -- `AddUDCTargetApp`
  unfoldable pub add_udc_target_app : ProtoItem → Act (Unit {0})
  add_udc_target_app tree = do
    type ← get_type
    verify (has_code type structure) unexpected_tlv_element
    target_app_tree ← add_sub_tree_item tree udc_target_app
    inside host.realloc (λ _. context_number >>= target_app_element target_app_tree) tt

  -- The list of the apps, if it is an array.
  unfoldable pub target_app_list : ProtoItem → Act (Unit {0})
  target_app_list tree = do
    type ← get_type
    if has_code type array
        then add_list_item host tree udc_target_app_list add_udc_target_app
        else unknown tree

  -- The `switch` on the tag of an element.
  unfoldable pub declaration_element : ProtoItem → ℕ → Act (Unit {0})
  declaration_element tree tag =
      if tag == 9
      then target_app_list tree
      else if tag == 1
      then add_typed_item host tree udc_vendor_id
      else if tag == 2
      then add_typed_item host tree udc_product_id
      else if tag == 3
      then add_typed_item host tree udc_device_name
      else if tag == 4
      then add_typed_item host tree udc_device_type
      else if tag == 5
      then add_typed_item host tree udc_pairing_inst
      else if tag == 6
      then add_typed_item host tree udc_pairing_hint
      else if tag == 7
      then add_typed_item host tree udc_rotating_id
      else if tag == 8
      then add_typed_item host tree udc_cd_port
      else if tag == 13
      then add_typed_item host tree udc_no_passcode
      else if tag == 14
      then add_typed_item host tree udc_cd_upon_passcode_dialog
      else if tag == 15
      then add_typed_item host tree udc_commissioner_passcode
      else if tag == 16
      then add_typed_item host tree udc_commissioner_passcode_ready
      else if tag == 17
      then add_typed_item host tree udc_cancel_passcode
      else if tag == 18
      then add_typed_item host tree udc_passcode_length
      else unknown tree

  -- What is done with the TLV data.
  unfoldable pub declaration : ProtoItem → Act (Unit {0})
  declaration tree =
      next_expected (code structure) anonymous_tag
      >> inside host.realloc (λ _. context_number >>= declaration_element tree) tt
