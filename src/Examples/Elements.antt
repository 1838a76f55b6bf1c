-- ===== src/Examples/Elements.antt =====
-- Heads and integers of elements.
use matter_dissector.Prelude.{
  ◌+◌, ◌-◌, ◌*◌, ◌%◌, ◌^◌, ◌≡◌, refl, [], ◌∷◌, ◌++◌, arith, length, none, false,
}
use matter_dissector.Tlv.Types.{code, structure, get_tlv_field_size, tlv_type_has_value}
use matter_dissector.Tlv.Tags.{anonymous_tag, profile_id_not_specified}
use matter_dissector.Tlv.Reader.State.{TlvReader, ok}
use matter_dissector.Tlv.Reader.Element.{read_element, verify_element}
use matter_dissector.Tlv.Reader.Values.{get_uint64}
use matter_dissector.Tlv.Reader.Wire.{context, form, tag_value, FieldInRange}
use matter_dissector.Tlv.Reader.Heads.{encode_head, read_element_lem}
use matter_dissector.Tlv.Reader.Integers.{get_uint64_negative}

-- Inside of a structure, 100 bytes long.
abbrev in_structure : TlvReader
in_structure = record {
  elem_tag = anonymous_tag;
  elem_len_or_val = 2 ^ 8 - 5;
  buf_handle = 0;
  input = [];
  len_read = 1;
  max_len = 100;
  container_type = code structure;
  control_byte = 0x20;
  container_open = false;
  implicit_profile_id = profile_id_not_specified;
  app_data = 0;
  get_next_buffer = none;
}

in_field : FieldInRange (get_tlv_field_size 5) 0x1234
unfolding get_tlv_field_size tlv_type_has_value
in_field = omega arith

-- A 16-bit unsigned integer with context tag 7.
read_element_lem_example :
    read_element (record in_structure { input = encode_head (context 7) 5 0x1234 ++ (9 ∷ []) })
    ≡ verify_element (record in_structure {
      input = 9 ∷ [];
      len_read = (1 + length (encode_head (context 7) 5 0x1234)) % 2 ^ 32;
      control_byte = form (context 7) * 2 ^ 5 + 5;
      elem_tag = tag_value (context 7);
      elem_len_or_val = 0x1234;
    })
read_element_lem_example =
    read_element_lem (context 7) 5 0x1234 (9 ∷ []) in_structure (omega arith) in_field (omega arith)

-- An 8-bit -5.
get_uint64_negative_example : get_uint64 in_structure ≡ ok (2 ^ 64 - 5) in_structure
get_uint64_negative_example =
    get_uint64_negative 0 5 in_structure (omega arith) (omega arith) refl (omega arith)
      (omega arith) refl
