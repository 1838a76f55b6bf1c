-- ===== src/Examples/Skips.antt =====
-- A structure in a structure that is skipped.
use matter_dissector.Prelude.{◌+◌, ◌≤◌, ◌≡◌, refl, [], ◌∷◌, arith, none, false}
use matter_dissector.Tlv.Types.{
  code, structure, uint8, get_tlv_field_size, tlv_type_has_value, tlv_type_has_length,
}
use matter_dissector.Tlv.Tags.{anonymous_tag, context_tag, profile_id_not_specified}
use matter_dissector.Tlv.Grammar.{Element, value, container, nothing, element, IsElement}
use matter_dissector.Tlv.Reader.State.{TlvReader, ok, clear_element_state}
use matter_dissector.Tlv.Reader.Wire.{context}
use matter_dissector.Tlv.Reader.Container.{skip}
use matter_dissector.Tlv.Reader.Skips.{on_element, behind_element, skip_lem}

-- In front of 90 bytes inside of a structure.
abbrev in_structure : TlvReader
in_structure = record {
  elem_tag = anonymous_tag;
  elem_len_or_val = 0;
  buf_handle = 0;
  input = [];
  len_read = 10;
  max_len = 100;
  container_type = code structure;
  control_byte = 0x20;
  container_open = false;
  implicit_profile_id = profile_id_not_specified;
  app_data = 0;
  get_next_buffer = none;
}

-- With context tag 1, and in it the number 5 with context tag 2.
abbrev nested : Element
nested = container (context 1) structure (element (value (context 2) uint8 5 []) nothing)

nested-IsElement : IsElement structure nested
unfolding get_tlv_field_size tlv_type_has_value tlv_type_has_length context_tag
nested-IsElement = (
  record {
    tag_in_range = omega arith;
    lowest = omega arith;
    highest = omega arith;
    known = λ e. ground arith;
  },
  (λ e. ground arith),
  (
    (
      record {
        tag_in_range = omega arith;
        field_in_range = omega arith;
        type = omega arith;
        known = λ e. ground arith;
        string = refl;
        short = omega arith;
      },
      (λ e. ground arith),
    ),
    tt,
  ),
)

nested_fits : (behind_element nested (9 ∷ []) in_structure).len_read + 1 ≤ 100
unfolding clear_element_state get_tlv_field_size tlv_type_has_value
nested_fits = omega arith

skip_lem_example :
    skip (on_element nested (9 ∷ []) in_structure)
    ≡ ok tt (behind_element nested (9 ∷ []) in_structure)
skip_lem_example =
    skip_lem structure nested (9 ∷ []) in_structure nested-IsElement nested_fits (omega arith)
