-- ===== src/Dissector/Items.antt =====
-- TLVDissector.cpp: the methods that add one item to Wireshark's tree.
use matter_dissector.Prelude.{
  ℕ, ◌+◌, ◌%◌, ◌^◌, ◌==◌, ◌||◌, Bool, not, if◌then◌else◌, some, ◌∷◌, length,
}
use matter_dissector.Tree.{
  ProtoItem, made, Text, Field, Ftype, ft_int, ft_uint, ftype, Shown, item, none_null, int, int64,
  uint, uint64, boolean, double, string, bytes, string_value, string_format, TreeCall, add,
  set_text, Host,
}
use matter_dissector.Tlv.Types.{
  not_specified, int8, uint8, boolean_false, floating_point_number32, utf8_string_1byte_length,
  byte_string_1byte_length, null, is_type, has_code,
}
use matter_dissector.Tlv.Reader.State.{incorrect_state, invalid_argument, unexpected_tlv_element}
use matter_dissector.Tlv.Reader.Values.{get_uint64, get_int64, get_bool, get_double}
use matter_dissector.Dissector.{done, crashed, Act}
use matter_dissector.Dissector.Strings.{data_bytes, duplicate}
use matter_dissector.Dissector.Elements.{◌>>=◌, ◌>>◌, reading, ask, pure, fail, verify, get_type}

-- A call that changes the tree.
unfoldable pub tree_call : TreeCall → Act (Unit {0})
tree_call c d = done tt (record d { calls = c ∷ d.calls })

-- `mLastItem = proto_tree_add_...(tree, hfindex, tvb, mElemStart + mSourceBufBaseOffset, mElemLen, ...)`, which ends the
-- dissection where Wireshark asserts that the field is of another type.
unfoldable pub add_item : ProtoItem → Field → Shown → Act (Unit {0})
add_item tree hfindex shown d =
    let start = (d.elem_start + d.source_buf_base_offset) % 2 ^ 32 in
    if d.accepts hfindex start d.elem_len shown
    then done tt (record d {
      last_item = some (made (length d.calls));
      calls = add tree hfindex start d.elem_len shown ∷ d.calls;
    })
    else crashed

-- `AddStringItemF`
unfoldable pub add_string_item : ProtoItem → Field → Text → Act (Unit {0})
add_string_item tree hfindex msg = add_item tree hfindex (string_value msg)

-- `AddStringItemWithHeaderF`
unfoldable pub add_string_item_with_header : ProtoItem → Field → Text → Act (Unit {0})
add_string_item_with_header tree hfindex msg = add_item tree hfindex (string_format msg)

-- `AddSubTreeItem`, whose result is `subTree`: `proto_item_add_subtree` gives back the item.
unfoldable pub add_sub_tree_item : ProtoItem → Field → Act ProtoItem
add_sub_tree_item tree hfindex = do
  type ← get_type
  verify (not (is_type type not_specified)) incorrect_state
  call ← ask λ d. length d.calls
  add_item tree hfindex item
  pure (made call)

-- `AddSubTreeItemF`
unfoldable pub add_sub_tree_item_f : ProtoItem → Field → Text → Act ProtoItem
add_sub_tree_item_f tree hfindex msg = do
  sub_tree ← add_sub_tree_item tree hfindex
  tree_call (set_text sub_tree msg)
  pure sub_tree

abbrev is_narrow : ℕ → Bool
is_narrow w = (w == 8) || (w == 16) || (w == 24) || (w == 32)

abbrev is_wide : ℕ → Bool
is_wide w = (w == 40) || (w == 48) || (w == 56) || (w == 64)

-- A signed integer of `AddTypedItem`, by the type of the field.
unfoldable pub add_signed : ProtoItem → Field → ℕ → Ftype → Act (Unit {0})
add_signed tree hfindex val (ft_int w) =
    if is_narrow w
    then add_item tree hfindex (int (val % 2 ^ 32))
    else if is_wide w
    then add_item tree hfindex (int64 val)
    else fail invalid_argument
add_signed tree hfindex val _ = fail invalid_argument

-- An unsigned integer of `AddTypedItem`, by the type of the field.
unfoldable pub add_unsigned : ProtoItem → Field → ℕ → Ftype → Act (Unit {0})
add_unsigned tree hfindex val (ft_uint w) =
    if is_narrow w
    then add_item tree hfindex (uint (val % 2 ^ 32))
    else if is_wide w
    then add_item tree hfindex (uint64 val)
    else fail invalid_argument
add_unsigned tree hfindex val _ = fail invalid_argument

module _ (host : Host) where
  -- `AddTypedItem`, which is built without `FEATURE_SHOW_TAGS`.
  unfoldable pub add_typed_item : ProtoItem → Field → Act (Unit {0})
  add_typed_item tree hfindex = do
    type ← get_type
    if has_code type int8
        then (do val ← reading get_int64; add_signed tree hfindex val (ftype hfindex))
        else if has_code type uint8
        then (do val ← reading get_uint64; add_unsigned tree hfindex val (ftype hfindex))
        else if has_code type boolean_false
        then (do val ← reading get_bool; add_item tree hfindex (boolean val))
        else if has_code type floating_point_number32
        then (do val ← reading get_double; add_item tree hfindex (double val))
        else if has_code type utf8_string_1byte_length
        then (do val ← duplicate host.malloc; add_item tree hfindex (string val))
        else if has_code type byte_string_1byte_length
        then (do val ← data_bytes; add_item tree hfindex (bytes val))
        else if has_code type null
        then add_item tree hfindex none_null
        else fail unexpected_tlv_element
