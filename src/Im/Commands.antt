-- ===== src/Im/Commands.antt =====
-- packet-matter-im.cpp: command data, command statuses and invoke responses.
use matter_dissector.Prelude.{ℕ, Bool, true, false, ◌&&◌, ◌==◌, if◌then◌else◌, Option, none}
use matter_dissector.Tree.{
  ProtoItem, Host, command_data_ib, command_status_ib, command_status_ref, data_elem_property_data,
}
use matter_dissector.Tlv.Types.{structure, has_code}
use matter_dissector.Tlv.Reader.State.{unexpected_tlv_element}
use matter_dissector.Dissector.{Act}
use matter_dissector.Dissector.Elements.{
  ◌>>=◌, ◌>>◌, pure, fail, verify, get_type, by_option, by_context_tag, inside,
}
use matter_dissector.Dissector.Items.{add_sub_tree_item, add_typed_item}
use matter_dissector.Dissector.Generic.{add_generic_tlv_item}
use matter_dissector.Im.Names.{NameTables}
use matter_dissector.Im.Paths.{
  command, is_path_like, add_named_path_item, add_command_path_item_and_extract_ids,
}
use matter_dissector.Im.Values.{Decoders, add_named_command_payload}
use matter_dissector.Im.Fields.{add_unknown, add_status_ib}

module _ (host : Host) (decoders : Decoders) (tables : NameTables) where
  -- The payload of `AddCommandDataIB`, with the ids of a path that came before.
  unfoldable pub add_command_data : Bool → Bool → ProtoItem → Option (ℕ × ℕ) → Act (Unit {0})
  add_command_data decode_named_payload is_request_payload data_elem_tree found = do
    type ← get_type
    if decode_named_payload && has_code type structure
        then by_option found
            (λ ids.
              add_named_command_payload host decoders tables data_elem_tree ids.0 ids.1
                is_request_payload)
            (add_generic_tlv_item host data_elem_tree data_elem_property_data true)
        else add_generic_tlv_item host data_elem_tree data_elem_property_data true

  -- An element of `AddCommandDataIB`.
  unfoldable pub command_data_element :
      Bool → Bool → ProtoItem → Option (ℕ × ℕ) → Act (Option (ℕ × ℕ))
  command_data_element decode_named_payload is_request_payload data_elem_tree found =
      by_context_tag
        (λ tag_num.
          if tag_num == 0
          then (do
            type ← get_type
            verify (is_path_like type) unexpected_tlv_element
            add_command_path_item_and_extract_ids tables host data_elem_tree found)
          else if tag_num == 1
          then (do
            add_command_data decode_named_payload is_request_payload data_elem_tree found
            pure found)
          else (add_unknown host data_elem_tree >> pure found))
        (fail unexpected_tlv_element)

  -- `AddCommandDataIB`
  unfoldable pub add_command_data_ib : ProtoItem → Bool → Bool → Act (Unit {0})
  add_command_data_ib tree decode_named_payload is_request_payload = do
    data_elem_tree ← add_sub_tree_item tree command_data_ib
    found ←
        inside host.realloc
          (command_data_element decode_named_payload is_request_payload data_elem_tree) none
    pure tt

  -- `AddCommandDataIBForRequest` and `AddCommandDataIBForResponse`
  unfoldable pub add_command_data_ib_for_request : ProtoItem → Act (Unit {0})
  add_command_data_ib_for_request tree = add_command_data_ib tree true true

  unfoldable pub add_command_data_ib_for_response : ProtoItem → Act (Unit {0})
  add_command_data_ib_for_response tree = add_command_data_ib tree true false

  -- `AddCommandStatusIB`
  unfoldable pub add_command_status_ib : ProtoItem → Act (Unit {0})
  add_command_status_ib tree = do
    type ← get_type
    verify (has_code type structure) unexpected_tlv_element
    status_tree ← add_sub_tree_item tree command_status_ib
    inside host.realloc
        (λ _.
          by_context_tag
            (λ tag_num.
              if tag_num == 0
              then add_named_path_item tables host command status_tree
              else if tag_num == 1
              then add_status_ib host status_tree
              else if tag_num == 2
              then add_typed_item host status_tree command_status_ref
              else add_unknown host status_tree)
            (fail unexpected_tlv_element))
        tt

  -- `AddInvokeResponseIB`
  unfoldable pub add_invoke_response_ib : ProtoItem → Act (Unit {0})
  add_invoke_response_ib tree =
      inside host.realloc
        (λ _.
          by_context_tag
            (λ tag_num. do
              type ← get_type
              if tag_num == 0
                  then (do
                    verify (has_code type structure) unexpected_tlv_element
                    add_command_data_ib_for_response tree)
                  else if tag_num == 1
                  then (do
                    verify (has_code type structure) unexpected_tlv_element
                    add_command_status_ib tree)
                  else add_unknown host tree)
            (fail unexpected_tlv_element))
        tt
