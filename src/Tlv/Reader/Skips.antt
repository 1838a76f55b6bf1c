-- ===== src/Tlv/Reader/Skips.antt =====
-- `Skip` on an element of the grammar takes the element's bytes and no others.
pub mod Bytes
pub mod Rounds
pub mod Walk
pub mod Trees
use matter_dissector.Prelude.{
  ℕ, zero, suc, ◌+◌, ◌-◌, ◌*◌, ◌/◌, ◌%◌, ◌^◌, ◌<◌, ◌≤◌, ◌≡◌, ◌≢◌, refl, sym, ap, ◌∙◌, ==_refl, Bool,
  true, false, not, ◌==◌, ltb, leb, min, if◌then◌else◌, Option, some, none, List, [], ◌∷◌, ◌++◌,
  arith, length, take, drop, length-append, take-length-append, drop-length-append,
}
use matter_dissector.Tlv.Types.{
  TlvType, not_specified, unknown_container, code, has_code, is_type, to_uint8, tlv_type_has_length,
  tlv_type_is_container, get_tlv_field_size, TlvFieldSize, size_0byte, size_1byte, size_2byte,
  size_4byte, size_8byte, structure, array, path, null, end_of_container,
}
use matter_dissector.Tlv.Tags.{anonymous_tag, unknown_implicit_tag}
use matter_dissector.Tlv.Reader.State.{
  TlvReader, Outcome, Method, ok, ◌>>=◌, ◌>>◌, IsValid, element_type, clear_element_state,
  overall_len_remaining, verify, pure, tlv_underrun,
}
use matter_dissector.Tlv.Reader.Input.{ensure_data, consume, read_data_loop, read_data}
use matter_dissector.Tlv.Reader.Element.{
  tag_fits, verify_tag, verify_length, verify_element, read_element,
}
use matter_dissector.Tlv.Reader.Wire.{WireTag, anonymous, form, tag_value, TagInRange, FieldInRange}
use matter_dissector.Tlv.Reader.Heads.{encode_head, read_element_lem, control_lem}
use matter_dissector.Tlv.Reader.Advance.{remaining_exact}
use matter_dissector.Tlv.Reader.Container.{
  skip_data, nest, skip_loop, skip_to_end_of_container, enter_container, exit_container, skip,
}
use matter_dissector.Tlv.Grammar.{
  Element, value, container, Elements, nothing, element, Token, single, opens, closes, token_bytes,
  encode_tokens, encode_elements, element_tokens, elements_tokens, IsValue, IsContainer, TagSuits,
  IsElement, AreElements,
}
use matter_dissector.Tlv.Reader.Skips.Bytes.{behind, element_type_lem, at_head, skip_data_lem}
use matter_dissector.Tlv.Reader.Skips.Rounds.{read_and_loop}
use matter_dissector.Tlv.Reader.Skips.Walk.{walk_lem}
use matter_dissector.Tlv.Reader.Skips.Trees.{
  as_it_is, Hosts-inside, elements-Walk, tokens_short, as_it_is,
}

-- Where the reader stands on an element, with the element's other bytes in front of it.
abbrev pub on_element : Element → List ℕ → TlvReader → TlvReader
on_element (value w t v bytes) rest r = at_head w t v (bytes ++ rest) r
on_element (container w t es) rest r = at_head w t 0 (encode_elements es ++ rest) r

-- The reader behind an element.
abbrev pub behind_element : Element → List ℕ → TlvReader → TlvReader
behind_element (value w t v bytes) rest r =
    clear_element_state (record r {
      input = rest;
      len_read = r.len_read + (length (encode_head w t v) + length bytes);
    })
behind_element (container w t es) rest r = clear_element_state (record r {
  input = rest;
  len_read = r.len_read + (length (encode_head w t 0) + length (encode_elements es));
  container_open = false;
})

nest_first :
    (outer : TlvType) (r : TlvReader)
    → element_type r ≡ not_specified
    → nest outer 0 r ≡ some (0, r)
unfolding nest tlv_type_is_container
nest_first outer r e = rw e refl

skip_first : (r : TlvReader) → element_type r ≡ not_specified → skip_data r ≡ ok tt r
unfolding skip_data tlv_type_has_length
skip_first r e = rw e refl

-- Before the first element of a container the loop only reads it.
first_lem :
    (fuel : ℕ) (outer : TlvType) (r : TlvReader)
    → element_type r ≡ not_specified
    → skip_loop (suc fuel) outer 0 r ≡ read_and_loop fuel outer 0 r
unfolding skip_loop
first_lem fuel outer r e = rw (skip_loop, nest_first outer r e, skip_first r e) refl

-- The reader in front of the first element of a container.
abbrev inside : ℕ → TlvReader → TlvReader
inside c r = record r {
  elem_tag = anonymous_tag;
  elem_len_or_val = 0;
  container_type = code c;
  control_byte = 0xFFFF;
  container_open = false;
}

exit_lem :
    (c : ℕ) (es : Elements) (rest : List ℕ) (outer : TlvType) (r : TlvReader)
    → structure ≤ c
    → c ≤ path
    → AreElements c es
    → r.len_read + length (encode_elements es ++ rest) ≤ r.max_len
    → r.max_len < 2 ^ 32
    → exit_container outer (record (inside c r) { input = encode_elements es ++ rest })
      ≡ ok tt (
          clear_element_state (record r {
            input = rest;
            len_read = r.len_read + length (encode_elements es);
            container_type = outer;
            container_open = false;
          }))
unfolding exit_container skip_to_end_of_container clear_element_state element_type
exit_lem c es rest outer r low high are fits bounded =
    let ks : List Token = elements_tokens es (closes ∷ []) in
    let room : length ks ≤ r.max_len - r.len_read =
      omega (arith, tokens_short ks, length-append (encode_elements es) rest, fits) in
    let (_, e) =
      walk_lem (code c) ks (r.max_len - r.len_read) 0 rest (inside c r)
        (elements-Walk (code c) c es (code c) 0 (closes ∷ []) low high as_it_is as_it_is are
          (Hosts-inside c))
        (omega (arith, room, bounded)) room fits bounded in
    rw
      (
        first_lem (r.max_len - r.len_read) (code c)
            (record (inside c r) { input = encode_elements es ++ rest }) refl,
        e,
      )
      refl

skip_of_value :
    (t : ℕ) (r r' : TlvReader)
    → t ≤ null
    → element_type r ≡ code t
    → skip_data r ≡ ok tt r'
    → skip r ≡ ok tt (clear_element_state r')
unfolding skip tlv_type_is_container
skip_of_value t r r' h e skipped =
    let inner : (t == end_of_container) ≡ false = ground arith in
    let byte : t % 2 ^ 8 ≡ t = omega arith in
    let low : leb structure t ≡ false = ground arith in rw (e, inner, byte, low, skipped) refl

enter_container_lem :
    (t : ℕ) (r : TlvReader)
    → structure ≤ t
    → t ≤ path
    → element_type r ≡ code t
    → enter_container r ≡ ok r.container_type (inside t r)
unfolding tlv_type_is_container enter_container clear_element_state
enter_container_lem t r low high e =
    let byte : t % 2 ^ 8 ≡ t = omega arith in
    let above : leb structure t ≡ true = ground arith in
    let below : leb t path ≡ true = ground arith in
    rw (e, byte, above, below)
      (ap {B = Outcome TlvType}
        (λ c. ok r.container_type (record (inside t r) { container_type = c })) e)

skip_of_container :
    (t : ℕ) (r : TlvReader)
    → structure ≤ t
    → t ≤ path
    → element_type r ≡ code t
    → skip r ≡ exit_container r.container_type (inside t r)
unfolding skip tlv_type_is_container
skip_of_container t r low high e =
    let inner : (t == end_of_container) ≡ false = ground arith in
    let byte : t % 2 ^ 8 ≡ t = omega arith in
    let above : leb structure t ≡ true = ground arith in
    let below : leb t path ≡ true = ground arith in
    rw (e, inner, byte, above, below, enter_container_lem t r low high e) refl

-- `Skip` on an element of the grammar, whatever is in it and whatever bytes are behind it, in an encoding
-- of fewer than 2^32 bytes that holds them, succeeds and leaves the reader behind the element, with no
-- element of its own and in the container that it was in.
pub skip_lem :
    (c : ℕ) (e : Element) (rest : List ℕ) (r : TlvReader)
    → IsElement c e
    → (behind_element e rest r).len_read + length rest ≤ r.max_len
    → r.max_len < 2 ^ 32
    → skip (on_element e rest r) ≡ ok tt (behind_element e rest r)
unfolding clear_element_state
skip_lem c (value w t v bytes) rest r (is, suits) fits bounded =
    let h : TlvReader = at_head w t v (bytes ++ rest) r in
    let type : t ≤ 0x18 = omega (arith, is.type) in
    let e : element_type h ≡ code t = element_type_lem w t h type refl in
    skip_of_value t h (behind rest (length bytes) h) is.type e (
      skip_data_lem t bytes rest h type e is.string (omega (arith, fits, length-append bytes rest))
        bounded)
    ∙ ap {B = Outcome (Unit {0})}
        (λ n. ok tt (clear_element_state (record r { input = rest; len_read = n }))) (omega arith)
skip_lem c (container w t es) rest r (is, suits, are) fits bounded =
    let h : TlvReader = at_head w t 0 (encode_elements es ++ rest) r in
    let e : element_type h ≡ code t = element_type_lem w t h (omega (arith, is.highest)) refl in
    skip_of_container t h is.lowest is.highest e
    ∙ exit_lem t es rest r.container_type h is.lowest is.highest are
        (omega (arith, fits, length-append (encode_elements es) rest)) bounded
    ∙ ap {B = Outcome (Unit {0})}
        (λ n.
          ok tt
            (clear_element_state (record r { input = rest; len_read = n; container_open = false })))
        (omega arith)
