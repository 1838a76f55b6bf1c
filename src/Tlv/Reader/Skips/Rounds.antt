-- ===== src/Tlv/Reader/Skips/Rounds.antt =====
-- The rounds of the loop in `SkipToEndOfContainer`, one for each token.
use matter_dissector.Prelude.{
  ℕ, zero, suc, ◌+◌, ◌-◌, ◌%◌, ◌^◌, ◌<◌, ◌≤◌, ◌≡◌, refl, ap, Bool, true, false, ◌==◌, leb,
  if◌then◌else◌, Option, some, none, List, [], ◌++◌, arith, length, length-append,
}
use matter_dissector.Tlv.Types.{
  TlvType, not_specified, unknown_container, code, is_type, tlv_type_has_length,
  tlv_type_is_container, get_tlv_field_size, TlvFieldSize, size_0byte, size_1byte, size_2byte,
  size_4byte, size_8byte, structure, path, null, end_of_container,
}
use matter_dissector.Tlv.Tags.{anonymous_tag}
use matter_dissector.Tlv.Reader.State.{TlvReader, Method, ok, ◌>>◌, element_type}
use matter_dissector.Tlv.Reader.Element.{verify_element, read_element}
use matter_dissector.Tlv.Reader.Wire.{WireTag, anonymous, tag_value, FieldInRange}
use matter_dissector.Tlv.Reader.Heads.{encode_head}
use matter_dissector.Tlv.Reader.Container.{skip_data, nest, skip_loop}
use matter_dissector.Tlv.Grammar.{closes, token_bytes, IsValue, IsContainer}
use matter_dissector.Tlv.Reader.Skips.Bytes.{
  behind, element_type_lem, Accepts, verify_element_lem, verify_end_lem, at_head, skip_data_lem,
  read_lem,
}

-- The type of the container when one inside of it has ended.
abbrev pub left : TlvType → ℕ → TlvType
left outer zero = outer
left outer (suc level) = unknown_container

-- Behind the end mark, at which the loop ends.
abbrev pub ended : TlvType → List ℕ → ℕ → TlvReader → TlvReader
ended c rest n r = record r {
  input = rest;
  len_read = r.len_read + n;
  container_type = c;
  control_byte = end_of_container;
  elem_tag = anonymous_tag;
  elem_len_or_val = 0;
}

abbrev pub read_and_loop : ℕ → TlvType → ℕ → Method (Unit {0})
read_and_loop fuel outer level = read_element >> skip_loop fuel outer level

nest_value :
    (outer : TlvType) (level t : ℕ) (r : TlvReader)
    → t ≤ null
    → element_type r ≡ code t
    → nest outer level r ≡ some (level, r)
unfolding nest tlv_type_is_container
nest_value outer level t r h e =
    let inner : (t == end_of_container) ≡ false = ground arith in
    let byte : t % 2 ^ 8 ≡ t = omega arith in
    let low : leb structure t ≡ false = ground arith in rw (e, inner, byte, low) refl

nest_open :
    (outer : TlvType) (level t : ℕ) (r : TlvReader)
    → structure ≤ t
    → t ≤ path
    → level + 1 < 2 ^ 32
    → element_type r ≡ code t
    → nest outer level r ≡ some (suc level, record r { container_type = code t })
unfolding nest tlv_type_is_container
nest_open outer level t r low high deep e =
    let inner : (t == end_of_container) ≡ false = ground arith in
    let byte : t % 2 ^ 8 ≡ t = omega arith in
    let above : leb structure t ≡ true = ground arith in
    let below : leb t path ≡ true = ground arith in
    let small : (level + 1) % 2 ^ 32 ≡ suc level = omega arith in
    rw (e, inner, byte, above, below, small) refl

left_lem :
    (outer : TlvType) (level : ℕ)
    → (if level == 0 then outer else unknown_container) ≡ left outer level
left_lem outer zero = refl
left_lem outer (suc level) = let more : (suc level == 0) ≡ false = ground arith in rw more refl

nest_end :
    (outer : TlvType) (level : ℕ) (r : TlvReader)
    → element_type r ≡ code end_of_container
    → nest outer (suc level) r ≡ some (level, record r { container_type = left outer level })
unfolding nest
nest_end outer level r e =
    let one : suc level - 1 ≡ level = omega arith in
    let more : (suc level == 0) ≡ false = ground arith in
    rw (e, more, one)
      (ap {B = Option (ℕ × TlvReader)} (λ c. some (level, record r { container_type = c }))
        (left_lem outer level))

nest_last :
    (outer : TlvType) (r : TlvReader)
    → element_type r ≡ code end_of_container
    → nest outer 0 r ≡ none
unfolding nest
nest_last outer r e = rw e refl

string_fits :
    (has_length : Bool) (v room : ℕ) (bytes : List ℕ)
    → (if has_length then v ≡ length bytes else bytes ≡ [])
    → length bytes ≤ room
    → (if has_length then v % 2 ^ 32 ≤ room else Unit)
string_fits true v room bytes e h = omega arith
string_fits false v room bytes e h = tt

no_length : (t : ℕ) → structure ≤ t → tlv_type_has_length t ≡ false
unfolding tlv_type_has_length
no_length t h = ground arith

zero_in_range : (s : TlvFieldSize) → FieldInRange s 0
zero_in_range size_0byte = refl
zero_in_range size_1byte = omega arith
zero_in_range size_2byte = omega arith
zero_in_range size_4byte = omega arith
zero_in_range size_8byte = omega arith

skip_nothing :
    (t : ℕ) (r : TlvReader)
    → t ≤ 0x18
    → tlv_type_has_length t ≡ false
    → element_type r ≡ code t
    → skip_data r ≡ ok tt r
unfolding skip_data
skip_nothing t r h nothing_long e =
    let byte : t % 2 ^ 8 ≡ t = omega arith in rw (e, byte, nothing_long) refl

round_lem :
    (fuel level level' : ℕ) (outer : TlvType) (x h h' h'' : TlvReader)
    → read_element x ≡ ok tt h
    → nest outer level h ≡ some (level', h')
    → skip_data h' ≡ ok tt h''
    → read_and_loop (suc fuel) outer level x ≡ read_and_loop fuel outer level' h''
unfolding skip_loop
round_lem fuel level level' outer x h h' h'' a b c = rw (a, skip_loop, b, c) refl

pub value_lem :
    (w : WireTag) (t v : ℕ) (bytes more : List ℕ) (fuel : ℕ) (outer : TlvType) (level : ℕ)
    (r : TlvReader)
    → IsValue w t v bytes
    → Accepts r.container_type (tag_value w)
    → r.len_read + length (encode_head w t v ++ (bytes ++ more)) ≤ r.max_len
    → r.max_len < 2 ^ 32
    → read_and_loop
        (suc fuel)
        outer
        level
        (record r { input = encode_head w t v ++ (bytes ++ more) })
      ≡ read_and_loop fuel outer level
          (behind more (length bytes) (at_head w t v (bytes ++ more) r))
value_lem w t v bytes more fuel outer level r is accepts fits bounded =
    let h : TlvReader = at_head w t v (bytes ++ more) r in
    let type : t ≤ 0x18 = omega (arith, is.type) in
    let e : element_type h ≡ code t = element_type_lem w t h type refl in
    let long : length (encode_head w t v ++ (bytes ++ more))
        ≡ length (encode_head w t v) + length (bytes ++ more) =
      length-append (encode_head w t v) (bytes ++ more) in
    let inside : h.len_read + length (bytes ++ more) ≤ h.max_len = omega (arith, long, fits) in
    let accepted : verify_element h ≡ ok tt h =
      verify_element_lem t h (omega (arith, is.type)) e is.known accepts
        record { fits = inside; bounded = bounded }
        (string_fits (tlv_type_has_length t) v (h.max_len - h.len_read) bytes is.string
          (omega (arith, inside, length-append bytes more))) in
    round_lem fuel level level outer (record r { input = encode_head w t v ++ (bytes ++ more) }) h h
      (behind more (length bytes) h)
      (read_lem w t v (bytes ++ more) r is.tag_in_range is.field_in_range type fits bounded
        accepted)
      (nest_value outer level t h is.type e)
      (skip_data_lem t bytes more h type e is.string inside bounded)

pub open_lem :
    (w : WireTag) (t : ℕ) (more : List ℕ) (fuel : ℕ) (outer : TlvType) (level : ℕ) (r : TlvReader)
    → IsContainer w t
    → Accepts r.container_type (tag_value w)
    → level + 1 < 2 ^ 32
    → r.len_read + length (encode_head w t 0 ++ more) ≤ r.max_len
    → r.max_len < 2 ^ 32
    → read_and_loop (suc fuel) outer level (record r { input = encode_head w t 0 ++ more })
      ≡ read_and_loop fuel outer
          (suc level)
          (record (at_head w t 0 more r) { container_type = code t })
open_lem w t more fuel outer level r is accepts deep fits bounded =
    let h : TlvReader = at_head w t 0 more r in
    let type : t ≤ 0x18 = omega (arith, is.highest) in
    let e : element_type h ≡ code t = element_type_lem w t h type refl in
    let inside : h.len_read + length more ≤ h.max_len =
      omega (arith, length-append (encode_head w t 0) more, fits) in
    let none_needed : tlv_type_has_length t ≡ false = no_length t is.lowest in
    let accepted : verify_element h ≡ ok tt h =
      verify_element_lem t h (omega (arith, is.highest)) e is.known accepts
        record { fits = inside; bounded = bounded } (rw none_needed tt) in
    round_lem fuel level (suc level) outer (record r { input = encode_head w t 0 ++ more }) h
      (record h { container_type = code t }) (record h { container_type = code t })
      (read_lem w t 0 more r is.tag_in_range (zero_in_range (get_tlv_field_size t)) type fits
        bounded accepted)
      (nest_open outer level t h is.lowest is.highest deep e)
      (skip_nothing t (record h { container_type = code t }) type none_needed
        (element_type_lem w t (record h { container_type = code t }) type refl))

pub close_lem :
    (more : List ℕ) (fuel : ℕ) (outer : TlvType) (level : ℕ) (r : TlvReader)
    → is_type r.container_type not_specified ≡ false
    → r.len_read + length (token_bytes closes ++ more) ≤ r.max_len
    → r.max_len < 2 ^ 32
    → (read_and_loop (suc fuel) outer (suc level) (record r { input = token_bytes closes ++ more })
        ≡ read_and_loop fuel outer level (record (at_head anonymous end_of_container 0 more r) {
          container_type = left outer level;
        }))
      × (read_and_loop (suc fuel) outer 0 (record r { input = token_bytes closes ++ more })
          ≡ ok tt (at_head anonymous end_of_container 0 more r))
unfolding skip_loop
close_lem more fuel outer level r inside fits bounded =
    let h : TlvReader = at_head anonymous end_of_container 0 more r in
    let e : element_type h ≡ code end_of_container =
      element_type_lem anonymous end_of_container h (omega arith) refl in
    let left_over : h.len_read + length more ≤ h.max_len =
      omega (arith, length-append (token_bytes closes) more, fits) in
    let accepted : verify_element h ≡ ok tt h =
      verify_end_lem h e refl inside record { fits = left_over; bounded = bounded } in
    let taken : read_element (record r { input = token_bytes closes ++ more }) ≡ ok tt h =
      read_lem anonymous end_of_container 0 more r tt
        (zero_in_range (get_tlv_field_size end_of_container)) (omega arith) fits bounded accepted in
    let behind_it : TlvReader = record h { container_type = left outer level } in
    (
      round_lem fuel (suc level) level outer (record r { input = token_bytes closes ++ more }) h
          behind_it behind_it taken (nest_end outer level h e)
          (skip_nothing end_of_container behind_it (omega arith)
            (no_length end_of_container (omega arith))
            (element_type_lem anonymous end_of_container behind_it (omega arith) refl)),
      rw (taken, skip_loop, nest_last outer h e) refl,
    )
