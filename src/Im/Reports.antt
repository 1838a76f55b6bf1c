-- ===== src/Im/Reports.antt =====
-- packet-matter-im.cpp: attribute data, attribute statuses and attribute reports. The three functions call
-- themselves for nested structures: the call is a parameter of the body, and each level of nesting takes
-- a byte at least.
use matter_dissector.Prelude.{
  ℕ, zero, suc, ltb, ◌^◌, ◌==◌, if◌then◌else◌, Option, none, some, [], ◌∷◌,
}
use matter_dissector.Tree.{
  String, ProtoItem, Piece, Text, text, number, Host, im_common_field, command_status_ib,
  data_elem_property_data,
}
use matter_dissector.Tlv.Types.{int8, uint8, structure, has_code}
use matter_dissector.Tlv.Reader.State.{unexpected_tlv_element}
use matter_dissector.Tlv.Reader.Values.{get_uint64, get_int64}
use matter_dissector.Dissector.{unfinished, Act}
use matter_dissector.Dissector.Elements.{
  ◌>>=◌, ◌>>◌, pure, verify, reading, get_type, attempt, or_else, by_option, by_context_tag, inside,
  remaining,
}
use matter_dissector.Dissector.Items.{add_string_item, add_sub_tree_item}
use matter_dissector.Im.Names.{NameTables, get_attribute_enum_value_name}
use matter_dissector.Im.Paths.{
  attribute, add_named_path_item, add_attribute_path_item_and_extract_ids,
}
use matter_dissector.Im.Values.{Decoders, add_named_command_value, add_named_attribute_struct_value}
use matter_dissector.Im.Fields.{add_unknown, add_status_ib, unsigned_value}
use matter_dissector.Im.Attributes.{
  AttributeIbKind, unknown, data_kind, status_kind, detect_attribute_ib_kind,
}

-- A value with its name, if the tables have one.
abbrev enum_text : Piece → Option String → Text
enum_text shown none = text "Value=" ∷ shown ∷ []
enum_text shown (some name) = text "Value=" ∷ shown ∷ text " (" ∷ text name ∷ text ")" ∷ []

module _ (host : Host) (decoders : Decoders) (tables : NameTables) where
  -- An element without a context tag: a structure is tried as another of the same.
  unfoldable pub nested_or_unknown : ProtoItem → Act (Unit {0}) → Act (Unit {0})
  nested_or_unknown item_tree nested = do
    type ← get_type
    if has_code type structure
        then or_else nested (add_unknown host item_tree)
        else add_unknown host item_tree

  -- The value of an attribute whose path is known.
  unfoldable pub add_attribute_value : ProtoItem → ℕ → ℕ → Act (Unit {0})
  add_attribute_value item_tree cluster_id attribute_id = do
    type ← get_type
    if has_code type structure
        then add_named_attribute_struct_value host decoders tables item_tree cluster_id attribute_id
        else if has_code type uint8
        then (do
          value ← reading get_uint64
          add_string_item item_tree im_common_field (
              enum_text (number "%llu" value)
                (get_attribute_enum_value_name tables cluster_id attribute_id value)))
        else if has_code type int8
        then (do
          value ← reading get_int64
          if ltb value (2 ^ 63)
              then add_string_item item_tree im_common_field (
                  enum_text (number "%lld" value)
                    (get_attribute_enum_value_name tables cluster_id attribute_id value))
              else add_string_item item_tree im_common_field (enum_text (number "%lld" value) none))
        else add_named_command_value host decoders item_tree "Value"

  -- An element of `AddAttributeDataIBItem`, with the cluster and the attribute of a path that came
  -- before.
  unfoldable pub attribute_data_element :
      Act (Unit {0}) → ProtoItem → Option (ℕ × ℕ) → Act (Option (ℕ × ℕ))
  attribute_data_element nested item_tree found =
      by_context_tag
        (λ tag_num.
          if tag_num == 0
          then (do
            version ← unsigned_value host
            by_option version
                (λ value.
                  add_string_item item_tree im_common_field
                    (text "DataVersion=" ∷ number "%llu" value ∷ []))
                (add_unknown host item_tree)
            pure found)
          else if tag_num == 1
          then (do
            ids ← attempt (add_attribute_path_item_and_extract_ids tables host item_tree found)
            by_option ids (λ now. pure now) (add_unknown host item_tree >> pure found))
          else if tag_num == 2
          then (do
            by_option found (λ ids. add_attribute_value item_tree ids.0 ids.1)
                (add_named_command_value host decoders item_tree "Value")
            pure found)
          else (add_unknown host item_tree >> pure found))
        (nested_or_unknown item_tree nested >> pure found)

  -- `AddAttributeDataIBItem`, by its call for a nested structure
  unfoldable pub attribute_data_item : (ProtoItem → Act (Unit {0})) → ProtoItem → Act (Unit {0})
  attribute_data_item nested tree = do
    type ← get_type
    verify (has_code type structure) unexpected_tlv_element
    item_tree ← add_sub_tree_item tree data_elem_property_data
    found ← inside host.realloc (attribute_data_element (nested item_tree) item_tree) none
    pure tt

  -- `AddAttributeStatusIBItem`, by its call for a nested structure
  unfoldable pub attribute_status_item : (ProtoItem → Act (Unit {0})) → ProtoItem → Act (Unit {0})
  attribute_status_item nested tree = do
    type ← get_type
    verify (has_code type structure) unexpected_tlv_element
    item_tree ← add_sub_tree_item tree command_status_ib
    inside host.realloc
        (λ _.
          by_context_tag
            (λ tag_num.
              if tag_num == 0
              then or_else (add_named_path_item tables host attribute item_tree)
                  (add_unknown host item_tree)
              else if tag_num == 1
              then (do
                type ← get_type
                if has_code type structure
                    then add_status_ib host item_tree
                    else add_unknown host item_tree)
              else add_unknown host item_tree)
            (nested_or_unknown item_tree (nested item_tree)))
        tt

  -- A function that calls itself, cut off at a depth.
  unfoldable pub nesting :
      ((ProtoItem → Act (Unit {0})) → ProtoItem → Act (Unit {0})) → ℕ → ProtoItem → Act (Unit {0})
  nesting body zero tree d = unfinished
  nesting body (suc fuel) tree d = body (nesting body fuel) tree d

  unfoldable pub add_attribute_data_ib_item : ProtoItem → Act (Unit {0})
  add_attribute_data_ib_item tree d = nesting attribute_data_item (suc (remaining d)) tree d

  unfoldable pub add_attribute_status_ib_item : ProtoItem → Act (Unit {0})
  add_attribute_status_ib_item tree d = nesting attribute_status_item (suc (remaining d)) tree d

  -- What `AddAttributeReportIBItem` does with a structure that has no context tag: `nested` is its own
  -- call.
  unfoldable pub add_by_kind :
      (ProtoItem → Act (Unit {0})) → ProtoItem → AttributeIbKind → Act (Unit {0})
  add_by_kind nested item_tree data_kind = add_attribute_data_ib_item item_tree
  add_by_kind nested item_tree status_kind = add_attribute_status_ib_item item_tree
  add_by_kind nested item_tree unknown = nested item_tree

  -- `AddAttributeReportIBItem`, by its call for a nested structure
  unfoldable pub attribute_report_item : (ProtoItem → Act (Unit {0})) → ProtoItem → Act (Unit {0})
  attribute_report_item nested tree = do
    type ← get_type
    verify (has_code type structure) unexpected_tlv_element
    item_tree ← add_sub_tree_item tree data_elem_property_data
    inside host.realloc
        (λ _.
          by_context_tag
            (λ tag_num. do
              type ← get_type
              if has_code type structure
                  then (if tag_num == 0
                      then add_attribute_status_ib_item item_tree
                      else if tag_num == 1
                      then add_attribute_data_ib_item item_tree
                      else add_unknown host item_tree)
                  else add_unknown host item_tree)
            (do
              type ← get_type
              if has_code type structure
                  then (do
                    kind ← detect_attribute_ib_kind host.realloc
                    or_else (add_by_kind nested item_tree kind) (add_unknown host item_tree))
                  else add_unknown host item_tree))
        tt

  unfoldable pub add_attribute_report_ib_item : ProtoItem → Act (Unit {0})
  add_attribute_report_ib_item tree d = nesting attribute_report_item (suc (remaining d)) tree d
