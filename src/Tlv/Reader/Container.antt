-- ===== src/Tlv/Reader/Container.antt =====
-- `Next`, `Skip` and the containers of MatterTLVReader.cpp.
use matter_dissector.Prelude.{
  ℕ, zero, suc, ◌+◌, ◌-◌, ◌%◌, ◌^◌, true, false, Option, none, some, ◌==◌, leb, if◌then◌else◌,
}
use matter_dissector.Tlv.Types.{
  TlvType, not_specified, unknown_container, code, is_type, has_code, to_uint8,
  tlv_type_is_container, tlv_type_has_length, floating_point_number32, floating_point_number64,
  null, end_of_container,
}
use matter_dissector.Tlv.Reader.State.{
  TlvReader, end_of_tlv, incorrect_state, unexpected_tlv_element, wrong_tlv_type, ok, err, fault,
  out_of_fuel, Method, pure, fail, ◌>>=◌, ◌>>◌, verify, modify, element_type, clear_element_state,
}
use matter_dissector.Tlv.Reader.Input.{read_data}
use matter_dissector.Tlv.Reader.Element.{read_element}

-- `GetType` on an element type's code.
type_of_code : ℕ → TlvType
type_of_code c =
    if c == end_of_container
    then not_specified
    else if c == floating_point_number32
    then code floating_point_number32
    else if c == floating_point_number64
    then code floating_point_number32
    else if leb null c
    then code c
    else code (c - c % 4)

unfoldable pub get_type : TlvReader → TlvType
unfolding type_of_code element_type
get_type r = elim (element_type r) [
  | not_specified ↦ not_specified
  | unknown_container ↦ unknown_container
  | code c ↦ type_of_code c
]

unfoldable pub get_control_byte : TlvReader → ℕ
get_control_byte r = r.control_byte

unfoldable pub get_tag : TlvReader → ℕ
get_tag r = r.elem_tag

unfoldable pub get_container_type : TlvReader → TlvType
get_container_type r = r.container_type

-- `ReadData(NULL, mElemLenOrVal)` takes the length as a `uint32_t`.
unfoldable pub skip_data : Method (Unit {0})
unfolding element_type
skip_data r =
    (if tlv_type_has_length (to_uint8 (element_type r))
        then (do _ ← read_data (r.elem_len_or_val % 2 ^ 32); pure tt)
        else pure tt)
      r

abbrev close_level : TlvType → ℕ → TlvReader → TlvReader
close_level outer level r = record r {
  container_type = if level == 0 then outer else unknown_container;
}

-- What one round of the loop in `SkipToEndOfContainer` does to the nesting: `none` ends the loop.
unfoldable pub nest : TlvType → ℕ → TlvReader → Option (ℕ × TlvReader)
unfolding element_type
nest outer nest_level r =
    if has_code (element_type r) end_of_container
    then (if nest_level == 0
        then none
        else some (nest_level - 1, close_level outer (nest_level - 1) r))
    else if tlv_type_is_container (to_uint8 (element_type r))
    then some ((nest_level + 1) % 2 ^ 32, record r { container_type = element_type r })
    else some (nest_level, r)

-- The loop of `SkipToEndOfContainer`.
unfoldable pub skip_loop : ℕ → TlvType → ℕ → Method (Unit {0})
skip_loop zero outer nest_level r = out_of_fuel
skip_loop (suc fuel) outer nest_level r = elim (nest outer nest_level r) [
  | none ↦ ok tt r
  | some (level, r') ↦ (do skip_data; read_element; skip_loop fuel outer level) r'
]

-- Each round reads an element, so the bytes that are left bound the rounds.
unfoldable pub skip_to_end_of_container : Method (Unit {0})
skip_to_end_of_container r =
    skip_loop (suc (r.max_len - r.len_read)) r.container_type 0
      (record r { container_open = false })

-- The type of the container that was left is the result.
unfoldable pub enter_container : Method TlvType
unfolding element_type clear_element_state
enter_container r =
    (do
      verify (tlv_type_is_container (to_uint8 (element_type r))) incorrect_state
      modify (λ r. record r { container_type = element_type r })
      modify clear_element_state
      modify (λ r. record r { container_open = false })
      pure r.container_type)
      r

unfoldable pub exit_container : TlvType → Method (Unit {0})
unfolding clear_element_state
exit_container outer = do
  skip_to_end_of_container
  modify (λ r. record r { container_type = outer })
  modify clear_element_state

-- The reader of the container is the result; every member of it is set.
unfoldable pub open_container : Method TlvReader
unfolding element_type
open_container r =
    (do
      verify (tlv_type_is_container (to_uint8 (element_type r))) incorrect_state
      modify (λ r. record r { container_open = true })
      pure (
          clear_element_state
            (record r { container_type = element_type r; container_open = false })))
      r

-- The outcome of a method of another reader, with this one kept.
abbrev on {ℓ} : {A : Type ℓ} → TlvReader → Method A → Method TlvReader
on other m r = elim (m other) [
  | ok a other' ↦ ok other' r
  | err e other' ↦ err e r
  | fault ↦ fault
  | out_of_fuel ↦ out_of_fuel
]

-- The container's reader is an argument. Where closing fails, what becomes of it is not kept.
unfoldable pub close_container : TlvReader → Method (Unit {0})
unfolding element_type clear_element_state
close_container container_reader r =
    (do
      verify r.container_open incorrect_state
      verify (is_type container_reader.container_type (element_type r)) incorrect_state
      container_reader ← on container_reader skip_to_end_of_container
      modify (λ r. record r {
        buf_handle = container_reader.buf_handle;
        input = container_reader.input;
        len_read = container_reader.len_read;
        max_len = container_reader.max_len;
      })
      modify clear_element_state)
      r

unfoldable pub skip : Method (Unit {0})
unfolding element_type clear_element_state
skip r =
    (if has_code (element_type r) end_of_container
        then fail end_of_tlv
        else if tlv_type_is_container (to_uint8 (element_type r))
        then (do outer ← enter_container; exit_container outer)
        else (do skip_data; modify clear_element_state))
      r

-- Behind `ReadElement`: the end of a container is reported as the end.
unfoldable pub check_end : Method (Unit {0})
unfolding element_type
check_end r = (if has_code (element_type r) end_of_container then fail end_of_tlv else pure tt) r

unfoldable pub next : Method (Unit {0})
unfolding check_end
next = do skip; read_element; check_end

-- `Next` with the type and tag that the element must have.
unfoldable pub next_expected : TlvType → ℕ → Method (Unit {0})
next_expected expected_type expected_tag = do
  next
  type ← λ r. ok (get_type r) r
  verify (is_type type expected_type) wrong_tlv_type
  tag ← λ r. ok (get_tag r) r
  verify (tag == expected_tag) unexpected_tlv_element

unfoldable pub verify_end_of_container : Method (Unit {0})
verify_end_of_container r = elim (next r) [
  | ok _ r' ↦ err unexpected_tlv_element r'
  | err end_of_tlv r' ↦ ok tt r'
  | err e r' ↦ err e r'
  | fault ↦ fault
  | out_of_fuel ↦ out_of_fuel
]
