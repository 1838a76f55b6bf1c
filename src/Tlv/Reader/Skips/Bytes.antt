-- ===== src/Tlv/Reader/Skips/Bytes.antt =====
-- The reads of heads and of strings, on the bytes that an encoding has.
use matter_dissector.Prelude.{
  ℕ, suc, ◌+◌, ◌-◌, ◌*◌, ◌%◌, ◌^◌, ◌<◌, ◌≤◌, ◌≡◌, ◌≢◌, refl, ap, Bool, true, false, not, ◌==◌, ltb,
  min, if◌then◌else◌, List, [], ◌∷◌, ◌++◌, arith, length, length-append, take-length-append,
  drop-length-append,
}
use matter_dissector.Tlv.Types.{
  TlvType, not_specified, code, is_type, tlv_type_has_length, get_tlv_field_size, end_of_container,
}
use matter_dissector.Tlv.Tags.{anonymous_tag, unknown_implicit_tag}
use matter_dissector.Tlv.Reader.State.{
  TlvReader, Outcome, Method, ok, ◌>>=◌, IsValid, element_type, overall_len_remaining, verify, pure,
  tlv_underrun,
}
use matter_dissector.Tlv.Reader.Input.{ensure_data, consume, read_data_loop, read_data}
use matter_dissector.Tlv.Reader.Element.{
  tag_fits, verify_tag, verify_length, verify_element, read_element,
}
use matter_dissector.Tlv.Reader.Wire.{WireTag, form, tag_value, TagInRange, FieldInRange}
use matter_dissector.Tlv.Reader.Heads.{encode_head, read_element_lem, control_lem}
use matter_dissector.Tlv.Reader.Advance.{remaining_exact}
use matter_dissector.Tlv.Reader.Container.{skip_data}

-- A reader behind bytes of its buffer.
abbrev pub behind : List ℕ → ℕ → TlvReader → TlvReader
behind rest n r = record r { input = rest; len_read = r.len_read + n }

pub element_type_lem :
    (w : WireTag) (t : ℕ) (r : TlvReader)
    → t ≤ 0x18
    → r.control_byte ≡ form w * 2 ^ 5 + t
    → element_type r ≡ code t
unfolding element_type
element_type_lem w t r h e = let (_, type, known) = control_lem w t h in rw (e, known, type) refl

min_self : (n : ℕ) → min n n ≡ n
min_self n = ground arith

pub append_nil : (bytes : List ℕ) → bytes ++ [] ≡ bytes
append_nil [] = refl
append_nil (x ∷ bytes) = ap (◌∷◌ x) (append_nil bytes)

read_data_lem :
    (bytes rest : List ℕ) (r : TlvReader)
    → r.len_read + length (bytes ++ rest) ≤ r.max_len
    → r.max_len < 2 ^ 32
    → read_data (length bytes) (record r { input = bytes ++ rest })
      ≡ ok bytes (behind rest (length bytes) r)
unfolding read_data read_data_loop ensure_data consume
read_data_lem [] rest r h b =
    ap {B = Outcome (List ℕ)} (λ n. ok [] (record r { input = rest; len_read = n })) (omega arith)
read_data_lem (x ∷ bytes) rest r h b =
    let few : min (suc (length bytes)) (suc (length (bytes ++ rest))) ≡ suc (length bytes) =
      ground (arith, length-append bytes rest) in
    let all : suc (length bytes) - suc (length bytes) ≡ 0 = omega arith in
    let small : (r.len_read + suc (length bytes)) % 2 ^ 32 ≡ r.len_read + suc (length bytes) =
      omega (arith, length-append bytes rest) in
    rw
      (
        few,
        all,
        small,
        take-length-append bytes rest,
        drop-length-append bytes rest,
        append_nil bytes,
      )
      refl

-- A tag that suits a type of container.
abbrev pub Accepts : TlvType → ℕ → Type 0
Accepts c tag = (r : TlvReader) → tag_fits c tag r ≡ ok tt r

-- The length of a string is not more than what is left.
abbrev StringFits : ℕ → TlvReader → Type 0
StringFits t r =
    if tlv_type_has_length t then r.elem_len_or_val % 2 ^ 32 ≤ r.max_len - r.len_read else Unit

length_fits :
    (has_length : Bool) (r : TlvReader)
    → IsValid r
    → (if has_length then r.elem_len_or_val % 2 ^ 32 ≤ r.max_len - r.len_read else Unit)
    → (if has_length
          then verify
              (not (ltb (overall_len_remaining r) (r.elem_len_or_val % 2 ^ 32)))
              tlv_underrun
          else pure tt)
        r
      ≡ ok tt r
length_fits true r valid h =
    let enough : ltb (overall_len_remaining r) (r.elem_len_or_val % 2 ^ 32) ≡ false =
      ground (arith, remaining_exact r valid) in
    rw enough refl
length_fits false r valid h = refl

verify_length_lem :
    (t : ℕ) (r : TlvReader)
    → t ≤ 0x18
    → element_type r ≡ code t
    → IsValid r
    → StringFits t r
    → verify_length r ≡ ok tt r
unfolding verify_length
verify_length_lem t r h e valid fits =
    let byte : t % 2 ^ 8 ≡ t = omega arith in
    rw (e, byte) (length_fits (tlv_type_has_length t) r valid fits)

pub verify_element_lem :
    (t : ℕ) (r : TlvReader)
    → t < 0x18
    → element_type r ≡ code t
    → r.elem_tag ≢ unknown_implicit_tag
    → Accepts r.container_type r.elem_tag
    → IsValid r
    → StringFits t r
    → verify_element r ≡ ok tt r
unfolding verify_element verify_tag
verify_element_lem t r h e known accepts valid fits =
    let inner : (t == end_of_container) ≡ false = ground arith in
    let other : (r.elem_tag == unknown_implicit_tag) ≡ false = ground arith in
    rw (e, inner, other, accepts r) (verify_length_lem t r (omega arith) e valid fits)

-- The end mark, in a container.
pub verify_end_lem :
    (r : TlvReader)
    → element_type r ≡ code end_of_container
    → r.elem_tag ≡ anonymous_tag
    → is_type r.container_type not_specified ≡ false
    → IsValid r
    → verify_element r ≡ ok tt r
unfolding verify_element verify_tag verify_length tlv_type_has_length
verify_end_lem r e tag c valid =
    let anonymous : (r.elem_tag == anonymous_tag) ≡ true = rw tag refl in
    rw (e, c, anonymous) (verify_length_lem end_of_container r (omega arith) e valid tt)

-- The reader behind the head of an element, and behind a string.
abbrev pub at_head : WireTag → ℕ → ℕ → List ℕ → TlvReader → TlvReader
at_head w t v rest r = record r {
  input = rest;
  len_read = r.len_read + length (encode_head w t v);
  control_byte = form w * 2 ^ 5 + t;
  elem_tag = tag_value w;
  elem_len_or_val = v;
}

abbrev skip_bytes : Bool → ℕ → Method (Unit {0})
skip_bytes has_length len = if has_length then (do _ ← read_data len; pure tt) else pure tt

skip_bytes_lem :
    (has_length : Bool) (bytes rest : List ℕ) (r : TlvReader)
    → (if has_length then r.elem_len_or_val ≡ length bytes else bytes ≡ [])
    → r.len_read + length (bytes ++ rest) ≤ r.max_len
    → r.max_len < 2 ^ 32
    → skip_bytes has_length (r.elem_len_or_val % 2 ^ 32) (record r { input = bytes ++ rest })
      ≡ ok tt (behind rest (length bytes) r)
skip_bytes_lem true bytes rest r string fits bounded =
    let small : r.elem_len_or_val % 2 ^ 32 ≡ length bytes =
      omega (arith, length-append bytes rest, string) in
    rw (small, read_data_lem bytes rest r fits bounded) refl
skip_bytes_lem false bytes rest r string fits bounded = rw string (
    ap {B = Outcome (Unit {0})} (λ n. ok tt (record r { input = rest; len_read = n }))
      (omega arith))

pub skip_data_lem :
    (t : ℕ) (bytes rest : List ℕ) (r : TlvReader)
    → t ≤ 0x18
    → element_type (record r { input = bytes ++ rest }) ≡ code t
    → (if tlv_type_has_length t then r.elem_len_or_val ≡ length bytes else bytes ≡ [])
    → r.len_read + length (bytes ++ rest) ≤ r.max_len
    → r.max_len < 2 ^ 32
    → skip_data (record r { input = bytes ++ rest }) ≡ ok tt (behind rest (length bytes) r)
unfolding skip_data
skip_data_lem t bytes rest r h e string fits bounded =
    let byte : t % 2 ^ 8 ≡ t = omega arith in
    rw (e, byte) (skip_bytes_lem (tlv_type_has_length t) bytes rest r string fits bounded)

-- `ReadElement` on a head that `VerifyElement` accepts.
pub read_lem :
    (w : WireTag) (t v : ℕ) (more : List ℕ) (r : TlvReader)
    → TagInRange w
    → FieldInRange (get_tlv_field_size t) v
    → t ≤ 0x18
    → r.len_read + length (encode_head w t v ++ more) ≤ r.max_len
    → r.max_len < 2 ^ 32
    → verify_element (at_head w t v more r) ≡ ok tt (at_head w t v more r)
    → read_element (record r { input = encode_head w t v ++ more }) ≡ ok tt (at_head w t v more r)
read_lem w t v more r tag field type fits bounded accepted =
    let small : (r.len_read + length (encode_head w t v)) % 2 ^ 32
        ≡ r.len_read + length (encode_head w t v) =
      omega (arith, length-append (encode_head w t v) more) in
    rw (read_element_lem w t v more r tag field type, small) accepted
