-- ===== src/Im/Fields.antt =====
-- packet-matter-im.cpp: `AddStatusIB` and the filters of events and of data versions.
use matter_dissector.Prelude.{ℕ, false, ◌==◌, if◌then◌else◌, Option, none, [], ◌∷◌}
use matter_dissector.Tree.{
  ProtoItem, text, number, Host, im_common_unknown, status_ib, command_status_status,
  command_status_cluster_status,
}
use matter_dissector.Tlv.Types.{uint8, structure, has_code}
use matter_dissector.Tlv.Tags.{is_context_tag, tag_num_from_tag}
use matter_dissector.Tlv.Reader.State.{unexpected_tlv_element}
use matter_dissector.Tlv.Reader.Values.{get_uint64}
use matter_dissector.Dissector.{Act}
use matter_dissector.Dissector.Elements.{
  ◌>>=◌, ◌>>◌, pure, verify, reading, get_type, get_tag, attempt, or_else, by_option,
  by_context_tag, inside,
}
use matter_dissector.Dissector.Items.{add_string_item, add_sub_tree_item, add_typed_item}
use matter_dissector.Dissector.Generic.{add_generic_tlv_item}
use matter_dissector.Im.Names.{NameTables}
use matter_dissector.Im.Paths.{add_cluster_path_item}

module _ (host : Host) where
  abbrev pub add_unknown : ProtoItem → Act (Unit {0})
  add_unknown tree = add_generic_tlv_item host tree im_common_unknown false

  -- `AddStatusIB`
  unfoldable pub add_status_ib : ProtoItem → Act (Unit {0})
  add_status_ib tree = do
    type ← get_type
    verify (has_code type structure) unexpected_tlv_element
    status_ib_tree ← add_sub_tree_item tree status_ib
    inside host.realloc
        (λ _.
          by_context_tag
            (λ tag_num.
              if tag_num == 0
              then add_typed_item host status_ib_tree command_status_status
              else if tag_num == 1
              then add_typed_item host status_ib_tree command_status_cluster_status
              else add_unknown status_ib_tree)
            (add_unknown status_ib_tree))
        tt

  -- An element of `AddEventFilterIBItem`.
  unfoldable pub event_filter_element : ProtoItem → Act (Unit {0})
  event_filter_element item_tree = do
    tag ← get_tag
    type ← get_type
    if is_context_tag tag
        then (if has_code type uint8
            then (do
              value ← reading get_uint64
              if tag_num_from_tag tag == 0
                  then add_string_item item_tree im_common_unknown
                      (text "Node=" ∷ number "0x%llX" value ∷ [])
                  else if tag_num_from_tag tag == 1
                  then add_string_item item_tree im_common_unknown
                      (text "EventMin=" ∷ number "0x%llX" value ∷ [])
                  else add_unknown item_tree)
            else add_unknown item_tree)
        else add_unknown item_tree

  -- `AddEventFilterIBItem`
  unfoldable pub add_event_filter_ib_item : ProtoItem → Act (Unit {0})
  add_event_filter_ib_item tree = do
    type ← get_type
    verify (has_code type structure) unexpected_tlv_element
    item_tree ← add_sub_tree_item tree im_common_unknown
    inside host.realloc (λ _. event_filter_element item_tree) tt

  -- `GetType() == kTLVType_UnsignedInteger && Get(value) == MATTER_NO_ERROR`
  unfoldable pub unsigned_value : Act (Option ℕ)
  unsigned_value = do
    type ← get_type
    if has_code type uint8 then attempt (reading get_uint64) else pure none

  module _ (tables : NameTables) where
    -- An element of `AddDataVersionFilterIBItem`.
    unfoldable pub data_version_filter_element : ProtoItem → Act (Unit {0})
    data_version_filter_element item_tree =
        by_context_tag
          (λ tag_num.
            if tag_num == 0
            then or_else (add_cluster_path_item tables host item_tree) (add_unknown item_tree)
            else if tag_num == 1
            then (do
              version ← unsigned_value
              by_option version
                  (λ value.
                    add_string_item item_tree im_common_unknown
                      (text "DataVersion=" ∷ number "%llu" value ∷ []))
                  (add_unknown item_tree))
            else add_unknown item_tree)
          (add_unknown item_tree)

    -- `AddDataVersionFilterIBItem`
    unfoldable pub add_data_version_filter_ib_item : ProtoItem → Act (Unit {0})
    add_data_version_filter_ib_item tree = do
      type ← get_type
      verify (has_code type structure) unexpected_tlv_element
      item_tree ← add_sub_tree_item tree im_common_unknown
      inside host.realloc (λ _. data_version_filter_element item_tree) tt
