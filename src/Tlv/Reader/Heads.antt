-- ===== src/Tlv/Reader/Heads.antt =====
-- `ReadElement` on a head that was written: the tag and the value are read back.
use matter_dissector.Prelude.{
  ℕ, ◌+◌, ◌*◌, ◌/◌, ◌%◌, ◌^◌, ◌≤◌, ◌≡◌, refl, true, false, ◌==◌, ltb, leb, List, ◌∷◌, ◌++◌, arith,
  length, length-append, take-length-append, drop-length-append,
}
use matter_dissector.Encoding.{read8}
use matter_dissector.Tlv.Types.{is_valid_tlv_type, get_tlv_field_size, tlv_field_size_to_bytes}
use matter_dissector.Tlv.Reader.State.{TlvReader, ok, element_type}
use matter_dissector.Tlv.Reader.Input.{consume, ensure_data}
use matter_dissector.Tlv.Reader.Element.{
  tag_control_of, verify_element, read_head, head_length, parse_head, get_element_head_length,
  read_element,
}
use matter_dissector.Tlv.Reader.Wire.{
  WireTag, form, tag_bytes, tag_value, TagInRange, field_bytes, FieldInRange, read_tag_lem,
  read_len_or_val_lem, length-tag_bytes, length-field_bytes, form_below,
}

-- The head of an element of type `t`.
abbrev pub encode_head : WireTag → ℕ → ℕ → List ℕ
encode_head w t v = (form w * 2 ^ 5 + t) ∷ (tag_bytes w ++ field_bytes (get_tlv_field_size t) v)

pub control_lem :
    (w : WireTag) (t : ℕ)
    → t ≤ 0x18
    → (tag_control_of (form w * 2 ^ 5 + t) ≡ form w * 2 ^ 5)
      × ((form w * 2 ^ 5 + t) % 2 ^ 5 ≡ t)
      × ((form w * 2 ^ 5 + t == 0xFFFF) ≡ false)
control_lem w t h = let b = form_below w in (omega arith, omega arith, ground arith)

-- A reader that stands on an element of type `t` with the tag's form `w`, whatever its other members.
record On (w : WireTag) (t : ℕ) (r : TlvReader) : Type 0 where
  known : (r.control_byte == 0xFFFF) ≡ false
  type : r.control_byte % 2 ^ 5 ≡ t
  tag_control : tag_control_of r.control_byte ≡ form w * 2 ^ 5

On-control :
    (w : WireTag) (t : ℕ) (r : TlvReader)
    → t ≤ 0x18
    → r.control_byte ≡ form w * 2 ^ 5 + t
    → On w t r
On-control w t r h e =
    let (a, b, c) = control_lem w t h in
    record { known = rw e c; type = rw e b; tag_control = rw e a }

length-encode_head :
    (w : WireTag) (t v : ℕ)
    → length (encode_head w t v)
      ≡ 1 + length (tag_bytes w) + tlv_field_size_to_bytes (get_tlv_field_size t)
length-encode_head w t v =
    let a = length-append (tag_bytes w) (field_bytes (get_tlv_field_size t) v) in
    let b = length-field_bytes (get_tlv_field_size t) v in omega (arith, a, b)

get_element_head_length_lem :
    (w : WireTag) (t v : ℕ) (r : TlvReader)
    → t ≤ 0x18
    → On w t r
    → get_element_head_length r ≡ ok (length (encode_head w t v)) r
unfolding get_element_head_length element_type is_valid_tlv_type head_length
get_element_head_length_lem w t v r h on =
    let valid : leb t 0x18 ≡ true = ground arith in
    let byte : t % 2 ^ 8 ≡ t = omega arith in
    let div : form w * 2 ^ 5 / 2 ^ 5 ≡ form w = omega arith in
    rw
      (
        on.known,
        on.type,
        byte,
        valid,
        on.tag_control,
        div,
        length-tag_bytes w,
        length-encode_head w t v,
      )
      refl

read_head_lem :
    (head rest : List ℕ) (r : TlvReader)
    → read_head (length head) (record r { input = head ++ rest })
      ≡ ok head (record r { input = rest; len_read = (r.len_read + length head) % 2 ^ 32 })
unfolding read_head consume
read_head_lem head rest r =
    let enough : ltb (length (head ++ rest)) (length head) ≡ false =
      ground (arith, length-append head rest) in
    rw (enough, take-length-append head rest, drop-length-append head rest) refl

parse_head_lem :
    (w : WireTag) (t v : ℕ) (r : TlvReader)
    → TagInRange w
    → FieldInRange (get_tlv_field_size t) v
    → t ≤ 0x18
    → On w t r
    → parse_head (encode_head w t v) r
      ≡ ok tt (record r { elem_tag = tag_value w; elem_len_or_val = v })
unfolding parse_head element_type read8
parse_head_lem w t v r a b h on =
    let byte : t % 2 ^ 8 ≡ t = omega arith in
    rw
      (
        on.tag_control,
        read_tag_lem w r.implicit_profile_id (field_bytes (get_tlv_field_size t) v) a,
        on.known,
        on.type,
        byte,
        read_len_or_val_lem (get_tlv_field_size t) v b,
      )
      refl

-- `ReadElement` on a head in one buffer, with any tag form that does not depend on the implicit profile,
-- any element type and any value that fits the type's field: the reader gets the tag and the value that
-- were written and stands behind the head, and then it is `VerifyElement` that decides.
pub read_element_lem :
    (w : WireTag) (t v : ℕ) (rest : List ℕ) (r : TlvReader)
    → TagInRange w
    → FieldInRange (get_tlv_field_size t) v
    → t ≤ 0x18
    → read_element (record r { input = encode_head w t v ++ rest })
      ≡ verify_element (record r {
        input = rest;
        len_read = (r.len_read + length (encode_head w t v)) % 2 ^ 32;
        control_byte = form w * 2 ^ 5 + t;
        elem_tag = tag_value w;
        elem_len_or_val = v;
      })
unfolding read_element ensure_data verify_element
read_element_lem w t v rest r a b h =
    let head = encode_head w t v in
    let at : TlvReader = record r { input = head ++ rest; control_byte = form w * 2 ^ 5 + t } in
    let behind : TlvReader = record at {
      input = rest;
      len_read = (r.len_read + length head) % 2 ^ 32;
    } in
    rw
      (
        get_element_head_length_lem w t v at h (On-control w t at h refl),
        read_head_lem head rest at,
        parse_head_lem w t v behind a b h (On-control w t behind h refl),
      )
      refl
