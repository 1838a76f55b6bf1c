-- ===== src/Examples/Dissecting.antt =====
-- The dissector over a structure.
use matter_dissector.Prelude.{ℕ, ◌≡◌, refl, Bool, true, false, none, List, [], ◌∷◌, arith}
use matter_dissector.Tlv.Reader.State.{IsValid, init, clear_element_state}
use matter_dissector.Tlv.Reader.Container
use matter_dissector.Tlv.Types.{not_specified, tlv_type_is_container}
use matter_dissector.Tlv.Tags.{anonymous_tag, profile_id_not_specified}
use matter_dissector.Tlv.Reader.Advance.{Advance}
use matter_dissector.Dissector.{TlvDissector, Run, done, push_container}
use matter_dissector.Dissector.Moves.{next, enter_container, exit_container}
use matter_dissector.Dissector.Ranges.{Runs, Marked, next-Marked}
use matter_dissector.Dissector.Stack.{Restored, exit_container-Restored}

abbrev structure_bytes : List ℕ
structure_bytes = 0x15 ∷ 0x24 ∷ 1 ∷ 5 ∷ 0x36 ∷ 2 ∷ 0x18 ∷ 0x18 ∷ []

abbrev got_memory : ℕ → Bool
got_memory n = true

abbrev at_start : TlvDissector
at_start = record {
  reader = init structure_bytes;
  source_buf_base_offset = 0;
  elem_start = 0;
  elem_len = 0;
  last_item = none;
  container_stack = [];
  container_stack_size = 0;
  calls = [];
  accepts = λ hfindex start len shown. true;
}

reader_valid : IsValid (init structure_bytes)
unfolding init
reader_valid = record { fits = omega arith; bounded = omega arith }

next-Marked_example :
    Runs (Marked at_start) (λ e. Advance (init structure_bytes) e.reader) (next at_start)
next-Marked_example = next-Marked at_start reader_valid

-- On the structure, behind its control byte.
abbrev on_structure : TlvDissector
on_structure = record at_start {
  reader = record {
    elem_tag = anonymous_tag;
    elem_len_or_val = 0;
    buf_handle = 0;
    input = 0x24 ∷ 1 ∷ 5 ∷ 0x36 ∷ 2 ∷ 0x18 ∷ 0x18 ∷ [];
    len_read = 1;
    max_len = 8;
    container_type = not_specified;
    control_byte = 0x15;
    container_open = false;
    implicit_profile_id = profile_id_not_specified;
    app_data = 0;
    get_next_buffer = none;
  };
  elem_len = 8;
}

-- The dissector that a run leaves.
abbrev left : Run (Unit {0}) → TlvDissector
left (done _ d) = d
left _ = at_start

abbrev inside : TlvDissector
inside = left (enter_container got_memory on_structure)

-- Inside of the structure, with another range marked.
abbrev on_first : TlvDissector
on_first = record inside { elem_start = 1; elem_len = 3 }

first_valid : IsValid on_first.reader
unfolding enter_container Container.enter_container tlv_type_is_container clear_element_state
    push_container
first_valid = record { fits = omega arith; bounded = omega arith }

entered : enter_container got_memory on_structure ≡ done tt inside
unfolding enter_container Container.enter_container tlv_type_is_container clear_element_state
    push_container
entered = refl

exit_container-Restored_example : Runs (Restored on_structure) (λ _. Unit) (exit_container on_first)
exit_container-Restored_example =
    exit_container-Restored got_memory on_structure inside on_first (omega arith) (omega arith)
      entered first_valid refl
