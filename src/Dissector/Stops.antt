-- ===== src/Dissector/Stops.antt =====
-- Where `AddGenericTLVItem` stops: on no element.
use matter_dissector.Prelude.{◌≡◌, refl, Bool}
use matter_dissector.Tree.{ProtoItem, Field, Host}
use matter_dissector.Tlv.Types.{not_specified}
use matter_dissector.Tlv.Reader.State.{unexpected_tlv_element}
use matter_dissector.Tlv.Reader.Container
use matter_dissector.Dissector.{TlvDissector, stopped}
use matter_dissector.Dissector.Elements.{◌>>=◌, fail, look}
use matter_dissector.Dissector.Generic.{
  append_value, generic_item, add_generic, add_generic_tlv_item,
}

-- Without an element it stops with an error and shows nothing.
pub add_generic_tlv_item-stopped :
    (host : Host) (tree : ProtoItem) (hfindex : Field) (suppress_tag : Bool) (d : TlvDissector)
    → Container.get_type d.reader ≡ not_specified
    → add_generic_tlv_item host tree hfindex suppress_tag d ≡ stopped unexpected_tlv_element d
unfolding add_generic_tlv_item add_generic generic_item append_value ◌>>=◌ look fail
add_generic_tlv_item-stopped host tree hfindex suppress_tag d t = rw t refl
