-- ===== src/Dissector/Shows.antt =====
-- The methods that add items are safe, `AddGenericTLVItem` on its nested elements among them.
use matter_dissector.Prelude.{ℕ, zero, suc, ◌+◌, Bool, true, false, Option, none, some, arith}
use matter_dissector.Tree.{
  ProtoItem, Field, Shown, string_value, string_format, TreeCall, Text, Host, Ftype, ft_int,
  ft_uint,
}
use matter_dissector.Tlv.Types.{TlvType}
use matter_dissector.Tlv.Reader.Advance.{Advance-refl}
use matter_dissector.Tlv.Reader.Reads.{
  get_uint64-Safe, get_int64-Safe, get_bool-Safe, get_double-Safe, get_data_ptr-Safe,
}
use matter_dissector.Dissector.Strings.Bounds.{data_bytes-Safe, duplicate-Safe}
use matter_dissector.Dissector.{Act}
use matter_dissector.Dissector.Items.{
  tree_call, add_item, add_string_item, add_string_item_with_header, add_sub_tree_item,
  add_sub_tree_item_f, add_signed, add_unsigned, add_typed_item,
}
use matter_dissector.Dissector.Generic.{
  StrBuf, reset, append_value, add_generic, generic_item, add_generic_tlv_item,
}
use matter_dissector.Dissector.Lists.{append_count, add_list_item}
use matter_dissector.Dissector.Safety.{
  keeps, crashes, if_Keeps, SafeBelow, pure-Safe, fail-Safe, inside-Safe, safe,
}

module _ {n : ℕ} where
  pub tree_call-Safe : (c : TreeCall) → SafeBelow n (tree_call c)
  unfolding tree_call
  tree_call-Safe c = record { runs = λ d v b l. keeps (Advance-refl v) }

  pub add_item-Safe :
      (tree : ProtoItem) (hfindex : Field) (shown : Shown)
      → SafeBelow n (add_item tree hfindex shown)
  unfolding add_item
  add_item-Safe tree hfindex shown = record {
    runs = λ d v b l. if_Keeps _ (keeps (Advance-refl v)) crashes;
  }

  pub add_string_item-Safe :
      (tree : ProtoItem) (hfindex : Field) (msg : Text)
      → SafeBelow n (add_string_item tree hfindex msg)
  unfolding add_string_item
  add_string_item-Safe tree hfindex msg = add_item-Safe tree hfindex (string_value msg)

  add_string_item_with_header-Safe :
      (tree : ProtoItem) (hfindex : Field) (msg : Text)
      → SafeBelow n (add_string_item_with_header tree hfindex msg)
  unfolding add_string_item_with_header
  add_string_item_with_header-Safe tree hfindex msg = add_item-Safe tree hfindex (string_format msg)

  pub add_sub_tree_item-Safe :
      (tree : ProtoItem) (hfindex : Field) → SafeBelow n (add_sub_tree_item tree hfindex)
  unfolding add_sub_tree_item
  add_sub_tree_item-Safe tree hfindex = search (safe, add_item-Safe)

  pub add_sub_tree_item_f-Safe :
      (tree : ProtoItem) (hfindex : Field) (msg : Text)
      → SafeBelow n (add_sub_tree_item_f tree hfindex msg)
  unfolding add_sub_tree_item_f
  add_sub_tree_item_f-Safe tree hfindex msg = search (safe, add_sub_tree_item-Safe, tree_call-Safe)

  add_signed-Safe :
      (tree : ProtoItem) (hfindex : Field) (val : ℕ) (t : Ftype)
      → SafeBelow n (add_signed tree hfindex val t)
  unfolding add_signed
  add_signed-Safe tree hfindex val (ft_int w) = search (safe, add_item-Safe)
  add_signed-Safe tree hfindex val _ = fail-Safe _

  add_unsigned-Safe :
      (tree : ProtoItem) (hfindex : Field) (val : ℕ) (t : Ftype)
      → SafeBelow n (add_unsigned tree hfindex val t)
  unfolding add_unsigned
  add_unsigned-Safe tree hfindex val (ft_uint w) = search (safe, add_item-Safe)
  add_unsigned-Safe tree hfindex val _ = fail-Safe _

pub ruleset reads = (
  get_uint64-Safe, get_int64-Safe, get_bool-Safe, get_double-Safe, get_data_ptr-Safe,
  data_bytes-Safe, duplicate-Safe,
)

module _ {n : ℕ} (host : Host) where
  pub add_typed_item-Safe :
      (tree : ProtoItem) (hfindex : Field) → SafeBelow n (add_typed_item host tree hfindex)
  unfolding add_typed_item
  add_typed_item-Safe tree hfindex =
      search (safe, reads, add_item-Safe, add_signed-Safe, add_unsigned-Safe) depth 40

  append_value-Safe : (type : TlvType) (buf : StrBuf) → SafeBelow n (append_value host type buf)
  unfolding append_value
  append_value-Safe type buf = search (safe, reads) depth 40

  append_count-Safe :
      (list_item : Option ProtoItem) (elem_count : ℕ)
      → SafeBelow n (append_count host list_item elem_count)
  unfolding append_count
  append_count-Safe none elem_count = pure-Safe tt
  append_count-Safe (some list_item) elem_count = search (safe, tree_call-Safe)

reset-Safe : {n : ℕ} (buf : StrBuf) → SafeBelow n (reset buf)
unfolding reset
reset-Safe none = record { runs = λ d v b l. crashes }
reset-Safe (some t) = record { runs = λ d v b l. keeps (Advance-refl v) }

module _ (host : Host) where
  generic_item-Safe :
      {n : ℕ} {nested : Act (Unit {0})} (tree : ProtoItem) (hfindex : Field)
      (suppress_tag suppress_header : Bool) (indent_level : ℕ)
      → SafeBelow n nested
      → SafeBelow
          (suc n)
          (generic_item host nested tree hfindex suppress_tag suppress_header indent_level)
  unfolding generic_item
  generic_item-Safe tree hfindex suppress_tag suppress_header indent_level p =
      search
        (
          safe, inside-Safe, append_value-Safe, add_string_item_with_header-Safe,
          add_string_item-Safe, reset-Safe,
        )
        depth 20

  add_generic-Safe :
      (fuel : ℕ) (tree : ProtoItem) (hfindex : Field) (suppress_tag suppress_header : Bool)
      (indent_level : ℕ)
      → SafeBelow fuel
          (add_generic host fuel tree hfindex suppress_tag suppress_header indent_level)
  unfolding add_generic
  add_generic-Safe zero tree hfindex suppress_tag suppress_header indent_level = record {
    runs = λ d v b l. elim l [ ];
  }
  add_generic-Safe (suc fuel) tree hfindex suppress_tag suppress_header indent_level = record {
    runs =
        (generic_item-Safe tree hfindex suppress_tag suppress_header indent_level
          (add_generic-Safe fuel tree hfindex false true (indent_level + 1))).runs;
  }

  pub add_generic_tlv_item-Safe :
      {n : ℕ} (tree : ProtoItem) (hfindex : Field) (suppress_tag : Bool)
      → SafeBelow n (add_generic_tlv_item host tree hfindex suppress_tag)
  unfolding add_generic_tlv_item
  add_generic_tlv_item-Safe tree hfindex suppress_tag = record {
    runs =
        λ d v b l. (add_generic-Safe _ tree hfindex suppress_tag false 0).runs d v b (omega arith);
  }

  pub add_list_item-Safe :
      {n : ℕ} (tree : ProtoItem) (hfindex : Field) (elem_handler : ProtoItem → Act (Unit {0}))
      → ((list_tree : ProtoItem) → SafeBelow n (elem_handler list_tree))
      → SafeBelow n (add_list_item host tree hfindex elem_handler)
  unfolding add_list_item
  add_list_item-Safe tree hfindex elem_handler handler_safe =
      search (safe, add_sub_tree_item-Safe, append_count-Safe, handler_safe) depth 20
