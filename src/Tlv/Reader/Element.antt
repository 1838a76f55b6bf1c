-- ===== src/Tlv/Reader/Element.antt =====
-- `ReadElement` and what it calls: one element's head.
use matter_dissector.Prelude.{
  ℕ, ◌+◌, ◌*◌, ◌/◌, ◌%◌, ◌^◌, not, Option, none, some, List, [], ◌∷◌, ◌==◌, ltb, if◌then◌else◌,
  length, get_elem?,
}
use matter_dissector.Encoding
use matter_dissector.Encoding.{Read, read8, read16, read32, read64}
use matter_dissector.Tlv.Types.{
  TlvType, not_specified, unknown_container, code, is_type, has_code, to_uint8, is_valid_tlv_type,
  tlv_type_has_length, TlvFieldSize, size_0byte, size_1byte, size_2byte, size_4byte, size_8byte,
  get_tlv_field_size, tlv_field_size_to_bytes, structure, array, path, end_of_container,
}
use matter_dissector.Tlv.Tags.{
  profile_tag, vendor_profile_tag, context_tag, common_tag, is_context_tag, anonymous_tag,
  unknown_implicit_tag, profile_id_not_specified,
}
use matter_dissector.Tlv.Reader.State.{
  TlvReader, end_of_tlv, tlv_underrun, invalid_tlv_element, invalid_tlv_tag,
  unknown_implicit_tlv_tag, incorrect_state, Method, pure, fail, ◌>>=◌, ◌>>◌, verify, modify,
  within, element_type, overall_len_remaining,
}
use matter_dissector.Tlv.Reader.Input.{ensure_data, consume, read_data}

-- `sTagSizes`
abbrev pub tag_sizes : List ℕ
tag_sizes = 0 ∷ 1 ∷ 2 ∷ 4 ∷ 2 ∷ 4 ∷ 6 ∷ 8 ∷ []

-- `mControlByte & kTLVTagControlMask`
abbrev pub tag_control_of : ℕ → ℕ
tag_control_of control_byte = control_byte / 2 ^ 5 % 2 ^ 3 * 2 ^ 5

-- A read that makes a tag of the number it read.
abbrev pub tag_of : (ℕ → ℕ) → Read → Read
tag_of f none = none
tag_of f (some (v, p)) = some (f v, p)

-- The vendor id and the profile number in front of a fully qualified tag's number.
abbrev pub qualified : (List ℕ → Read) → List ℕ → Read
qualified read_num p = Encoding.◌>>=◌ (read16 p) λ (vendor_id, p).
    Encoding.◌>>=◌ (read16 p)
      λ (profile_num, p). tag_of (vendor_profile_tag vendor_id profile_num) (read_num p)

-- `ReadTag`, with the reader's `ImplicitProfileId` and the tag control's code.
unfoldable pub read_tag : ℕ → ℕ → List ℕ → Read
read_tag implicit_profile_id tag_control p =
    if tag_control == 0x20
    then tag_of context_tag (read8 p)
    else if tag_control == 0x40
    then tag_of common_tag (read16 p)
    else if tag_control == 0x60
    then tag_of common_tag (read32 p)
    else if tag_control == 0x80
    then (if implicit_profile_id == profile_id_not_specified
        then some (unknown_implicit_tag, p)
        else tag_of (profile_tag implicit_profile_id) (read16 p))
    else if tag_control == 0xA0
    then (if implicit_profile_id == profile_id_not_specified
        then some (unknown_implicit_tag, p)
        else tag_of (profile_tag implicit_profile_id) (read32 p))
    else if tag_control == 0xC0
    then qualified read16 p
    else if tag_control == 0xE0
    then qualified read32 p
    else some (anonymous_tag, p)

-- The switch of `ReadElement` on the size of the length or value field.
unfoldable pub read_len_or_val : TlvFieldSize → List ℕ → Read
read_len_or_val size_0byte p = some (0, p)
read_len_or_val size_1byte p = read8 p
read_len_or_val size_2byte p = read16 p
read_len_or_val size_4byte p = read32 p
read_len_or_val size_8byte p = read64 p

-- The switch of `VerifyElement` on the container's type.
unfoldable pub tag_fits : TlvType → ℕ → Method (Unit {0})
tag_fits not_specified tag = verify (not (is_context_tag tag)) invalid_tlv_tag
tag_fits unknown_container tag = pure tt
tag_fits (code c) tag =
    if c == structure
    then verify (not (tag == anonymous_tag)) invalid_tlv_tag
    else if c == path
    then verify (not (tag == anonymous_tag)) invalid_tlv_tag
    else if c == array
    then verify (tag == anonymous_tag) invalid_tlv_tag
    else fail incorrect_state

-- The first half of `VerifyElement`: the tag must suit the container.
unfoldable pub verify_tag : Method (Unit {0})
unfolding tag_fits element_type is_type
verify_tag r =
    (if has_code (element_type r) end_of_container
        then (do
          verify (not (is_type r.container_type not_specified)) invalid_tlv_element
          verify (r.elem_tag == anonymous_tag) invalid_tlv_tag)
        else (do
          verify (not (r.elem_tag == unknown_implicit_tag)) unknown_implicit_tlv_tag
          tag_fits r.container_type r.elem_tag))
      r

-- The second half: the length must fit what is left, both as `uint32_t`.
unfoldable pub verify_length : Method (Unit {0})
unfolding element_type overall_len_remaining tlv_type_has_length
verify_length r =
    (if tlv_type_has_length (to_uint8 (element_type r))
        then verify (not (ltb (overall_len_remaining r) (r.elem_len_or_val % 2 ^ 32))) tlv_underrun
        else pure tt)
      r

unfoldable pub verify_element : Method (Unit {0})
unfolding verify_tag verify_length
verify_element = verify_tag >> verify_length

-- The head's bytes, whether they lie in one buffer or go through the staging buffer.
unfoldable pub read_head : ℕ → Method (List ℕ)
read_head head_bytes r =
    (if ltb (length r.input) head_bytes then read_data head_bytes else consume head_bytes) r

-- The head's length: control byte, tag and length or value, for an element type and a tag size.
unfoldable pub head_length : TlvType → ℕ → ℕ
head_length elem_type tag_bytes =
    1 + tag_bytes + tlv_field_size_to_bytes (get_tlv_field_size (to_uint8 elem_type))

unfoldable pub parse_head : List ℕ → Method (Unit {0})
unfolding element_type
parse_head p r =
    (do
      (_, p) ← within (read8 p)
      (tag, p) ← within (read_tag r.implicit_profile_id (tag_control_of r.control_byte) p)
      modify (λ r. record r { elem_tag = tag })
      let size = get_tlv_field_size (to_uint8 (element_type r))
      (len_or_val, _) ← within (read_len_or_val size p)
      modify (λ r. record r { elem_len_or_val = len_or_val }))
      r

-- `*mReadPoint`
abbrev pub first_byte : TlvReader → Option ℕ
first_byte r = get_elem? r.input 0

unfoldable pub read_control : Method (Unit {0})
read_control r =
    (do
      control_byte ← within (first_byte r)
      modify (λ r. record r { control_byte = control_byte }))
      r

-- `GetElementHeadLength`
unfoldable pub get_element_head_length : Method ℕ
unfolding element_type head_length
get_element_head_length r =
    (do
      verify (is_valid_tlv_type (to_uint8 (element_type r))) invalid_tlv_element
      tag_bytes ← within (get_elem? tag_sizes (tag_control_of r.control_byte / 2 ^ 5))
      pure (head_length (element_type r) tag_bytes))
      r

-- `ReadElement` behind its first byte. The source computes the head's length here once more.
unfoldable pub after_control : Method (Unit {0})
unfolding parse_head get_element_head_length read_head
after_control = do
  head_bytes ← get_element_head_length
  p ← read_head head_bytes
  parse_head p
  verify_element

unfoldable pub read_element : Method (Unit {0})
unfolding read_control after_control
read_element = do ensure_data end_of_tlv; read_control; after_control
