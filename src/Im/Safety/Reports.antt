-- ===== src/Im/Safety/Reports.antt =====
-- Attribute data, attribute statuses and attribute reports.
use matter_dissector.Prelude.{ℕ, zero, suc, Bool, Option, arith, ◌-◌, ◌<◌, ◌^◌}
use matter_dissector.Tree.{ProtoItem, Host}
use matter_dissector.Tlv.Reader.State.{IsValid}
use matter_dissector.Dissector.{TlvDissector, Act}
use matter_dissector.Dissector.Ranges.{next-Marked}
use matter_dissector.Dissector.Moves
use matter_dissector.Dissector.Elements.{remaining, by_option}
use matter_dissector.Dissector.Safety.{
  Keeps, SafeBelow, safe, inside-Safe, pure-Safe, look-Safe, chain, attempted_move-Keeps,
}
use matter_dissector.Im.Names.{NameTables}
use matter_dissector.Im.Values.{Decoders}
use matter_dissector.Im.Attributes.{
  AttributeIbKind, unknown, data_kind, status_kind, KindFlags, kind_loop, detect_attribute_ib_kind,
}
use matter_dissector.Im.Reports.{
  nested_or_unknown, add_attribute_value, attribute_data_element, attribute_data_item,
  attribute_status_item, nesting, add_attribute_data_ib_item, add_attribute_status_ib_item,
  add_by_kind, attribute_report_item, add_attribute_report_ib_item,
}
use matter_dissector.Im.Safety.Fields.{
  DecodersSafe, shows, unsigned_value-Safe, add_named_command_value-Safe,
  add_named_attribute_struct_value-Safe, add_attribute_path_item_and_extract_ids-Safe,
  add_named_path_item-Safe, add_status_ib-Safe,
}

kind_loop-Keeps :
    (fuel : ℕ) (flags : KindFlags) (d : TlvDissector)
    → IsValid d.reader
    → d.reader.max_len < 2 ^ 32 - 1
    → remaining d < fuel
    → Keeps d.reader (kind_loop fuel flags d)
unfolding kind_loop by_option
kind_loop-Keeps zero flags d v b l = elim l [ ]
kind_loop-Keeps (suc fuel) flags d v b l =
    attempted_move-Keeps Moves.next d _ (next-Marked d v)
      (λ e m.
        let round : (flags : KindFlags) → SafeBelow (remaining d) (kind_loop fuel flags) =
          λ flags. record { runs = λ f w c k. kind_loop-Keeps fuel flags f w c (omega arith) } in
        (chain (look-Safe _) λ tag. chain (look-Safe _) λ type. round _).runs e m.0.valid
          (omega (arith, m.0.max_len)) m.1)
      (λ e a.
        (pure-Safe {n = suc (remaining e)} flags).runs e a.valid (omega (arith, a.max_len))
          (omega arith))

kind_loop-Safe :
    {n : ℕ} (flags : KindFlags) → SafeBelow n (λ d. kind_loop (suc (remaining d)) flags d)
kind_loop-Safe flags = record { runs = λ d v b l. kind_loop-Keeps _ flags d v b (omega arith) }

detect_attribute_ib_kind-Safe :
    {n : ℕ} (realloc : ℕ → Bool) → SafeBelow n (detect_attribute_ib_kind realloc)
unfolding detect_attribute_ib_kind
detect_attribute_ib_kind-Safe realloc = search (safe, kind_loop-Safe) depth 20

-- A function is safe with a byte more than its call for a nested structure.
abbrev NestsSafely : ((ProtoItem → Act (Unit {0})) → ProtoItem → Act (Unit {0})) → Type 0
NestsSafely body =
    (n : ℕ) (nested : ProtoItem → Act (Unit {0}))
    → ((tree : ProtoItem) → SafeBelow n (nested tree))
    → (tree : ProtoItem) → SafeBelow (suc n) (body nested tree)

module _ (host : Host) (decoders : Decoders) (tables : NameTables) where
  nested_or_unknown-Safe :
      {n : ℕ} {nested : Act (Unit {0})} (item_tree : ProtoItem)
      → SafeBelow n nested
      → SafeBelow n (nested_or_unknown host decoders tables item_tree nested)
  unfolding nested_or_unknown
  nested_or_unknown-Safe item_tree p = search shows depth 20

  attribute_status_item-Safe : NestsSafely (attribute_status_item host decoders tables)
  unfolding attribute_status_item
  attribute_status_item-Safe n nested p tree =
      search
        (
          shows, inside-Safe, nested_or_unknown-Safe, add_named_path_item-Safe, add_status_ib-Safe,
          p,
        )
        depth 20

  nesting-Safe :
      (body : (ProtoItem → Act (Unit {0})) → ProtoItem → Act (Unit {0}))
      → NestsSafely body
      → (fuel : ℕ) (tree : ProtoItem) → SafeBelow fuel (nesting host decoders tables body fuel tree)
  unfolding nesting
  nesting-Safe body p zero tree = record { runs = λ d v b l. elim l [ ] }
  nesting-Safe body p (suc fuel) tree = record {
    runs = (p fuel (nesting host decoders tables body fuel) (nesting-Safe body p fuel) tree).runs;
  }

  pub add_attribute_status_ib_item-Safe :
      {n : ℕ} (tree : ProtoItem)
      → SafeBelow n (add_attribute_status_ib_item host decoders tables tree)
  unfolding add_attribute_status_ib_item
  add_attribute_status_ib_item-Safe tree = record {
    runs = λ d v b l. (nesting-Safe _ attribute_status_item-Safe _ tree).runs d v b (omega arith);
  }

module _ (host : Host) (decoders : Decoders) (ds : DecodersSafe decoders)
    (tables : NameTables) where
  module _ {n : ℕ} where
    add_attribute_value-Safe :
        (item_tree : ProtoItem) (cluster_id attribute_id : ℕ)
        → SafeBelow n (add_attribute_value host decoders tables item_tree cluster_id attribute_id)
    unfolding add_attribute_value
    add_attribute_value-Safe item_tree cluster_id attribute_id =
        search (shows, add_named_command_value-Safe, add_named_attribute_struct_value-Safe) depth 20

    attribute_data_element-Safe :
        {nested : Act (Unit {0})} (item_tree : ProtoItem) (found : Option (ℕ × ℕ))
        → SafeBelow n nested
        → SafeBelow n (attribute_data_element host decoders tables nested item_tree found)
    unfolding attribute_data_element
    attribute_data_element-Safe item_tree found p =
        search
          (
            shows, nested_or_unknown-Safe, add_attribute_value-Safe, unsigned_value-Safe,
            add_named_command_value-Safe, add_attribute_path_item_and_extract_ids-Safe,
          )
          depth 20

  attribute_data_item-Safe : NestsSafely (attribute_data_item host decoders tables)
  unfolding attribute_data_item
  attribute_data_item-Safe n nested p tree =
      search (shows, inside-Safe, attribute_data_element-Safe, p) depth 20

  pub add_attribute_data_ib_item-Safe :
      {n : ℕ} (tree : ProtoItem)
      → SafeBelow n (add_attribute_data_ib_item host decoders tables tree)
  unfolding add_attribute_data_ib_item
  add_attribute_data_ib_item-Safe tree = record {
    runs = λ d v b l.
        (nesting-Safe host decoders tables _ attribute_data_item-Safe _ tree).runs d v b
          (omega arith);
  }

  add_by_kind-Safe :
      {n : ℕ} (nested : ProtoItem → Act (Unit {0})) (item_tree : ProtoItem) (kind : AttributeIbKind)
      → ((tree : ProtoItem) → SafeBelow n (nested tree))
      → SafeBelow n (add_by_kind host decoders tables nested item_tree kind)
  unfolding add_by_kind
  add_by_kind-Safe nested item_tree data_kind p = add_attribute_data_ib_item-Safe item_tree
  add_by_kind-Safe nested item_tree status_kind p =
      add_attribute_status_ib_item-Safe host decoders tables item_tree
  add_by_kind-Safe nested item_tree unknown p = p item_tree

  attribute_report_item-Safe : NestsSafely (attribute_report_item host decoders tables)
  unfolding attribute_report_item
  attribute_report_item-Safe n nested p tree =
      search
        (
          shows, inside-Safe, add_attribute_data_ib_item-Safe, add_attribute_status_ib_item-Safe,
          detect_attribute_ib_kind-Safe, add_by_kind-Safe, p,
        )
        depth 20

  pub add_attribute_report_ib_item-Safe :
      {n : ℕ} (tree : ProtoItem)
      → SafeBelow n (add_attribute_report_ib_item host decoders tables tree)
  unfolding add_attribute_report_ib_item
  add_attribute_report_ib_item-Safe tree = record {
    runs = λ d v b l.
        (nesting-Safe host decoders tables _ attribute_report_item-Safe _ tree).runs d v b
          (omega arith);
  }
