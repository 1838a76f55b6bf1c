-- ===== src/Tlv/Reader/Moves.antt =====
-- The moves of the reader, `Next` among them, end on every valid reader, read no byte outside of
-- its buffers, and never go back.
use matter_dissector.Prelude.{
  ℕ, zero, suc, ◌-◌, ◌%◌, ◌^◌, ◌<◌, ◌≡◌, refl, Bool-cases, false, some, arith, inl, inr,
  Option-cases, ◌==◌,
}
use matter_dissector.Tlv.Types.{
  TlvType, has_code, to_uint8, tlv_type_has_length, tlv_type_is_container, end_of_container,
  is_type,
}
use matter_dissector.Tlv.Reader.State.{
  TlvReader, Outcome, IsValid, wrong_tlv_type, unexpected_tlv_element, element_type,
  clear_element_state,
}
use matter_dissector.Tlv.Reader.Container.{
  skip_data, nest, skip_loop, skip_to_end_of_container, enter_container, exit_container, skip,
  check_end, next, next_expected, get_type, get_tag,
}
use matter_dissector.Tlv.Reader.Ends.{
  Ends, returns, fails, bind, mono, if_method-Ends, Checks, Checks-if, Checks-then, Checks-verify,
  Checks-Ends, passes, refuses,
}
use matter_dissector.Tlv.Reader.Advance.{Advance, Advance-refl, Advance-trans, read_data-Ends}
use matter_dissector.Tlv.Reader.Progress.{Progress, SameInput, Advance-same, read_element-Ends}

-- A method that keeps the reader valid and does not go back, whether it succeeds or fails.
abbrev pub Safe : {A : Type 0} → (TlvReader → Outcome A) → Type 0
Safe m = (r : TlvReader) → IsValid r → Ends (λ _. Advance r) (λ _. Advance r) (m r)

skip_data-Safe : Safe skip_data
unfolding skip_data
skip_data-Safe r v =
    if_method-Ends (tlv_type_has_length (to_uint8 (element_type r))) _ _ r
      (λ _.
        bind (read_data-Ends (r.elem_len_or_val % 2 ^ 32) r v) (λ e s m. m.advance)
          λ _ s took. returns took.0.advance)
      (λ _. returns (Advance-refl v))

-- The nesting of a round changes the container's type at most.
nest-SameInput :
    (outer : TlvType) (level : ℕ) (r : TlvReader) {k : ℕ} {s : TlvReader}
    → nest outer level r ≡ some (k, s)
    → SameInput r s
unfolding nest
nest-SameInput outer level r h = ground arith

skip_loop-Ends :
    (fuel : ℕ) (outer : TlvType) (level : ℕ) (r : TlvReader)
    → IsValid r
    → r.max_len - r.len_read < fuel
    → Ends (λ _. Advance r) (λ _. Advance r) (skip_loop fuel outer level r)
unfolding skip_loop
skip_loop-Ends zero outer level r v h = elim h [ ]
skip_loop-Ends (suc fuel) outer level r v h = elim (Option-cases (nest outer level r)) [
  | inl e ↦ rw (e, skip_loop) (returns (Advance-refl v))
  | inr ((k, s), e) ↦
      let start = Advance-same (Advance-refl v) (nest-SameInput outer level r e) in
      rw (e, skip_loop)
        (bind (skip_data-Safe s start.valid) (λ _ t a. Advance-trans start a)
          λ _ t skipped.
            bind (read_element-Ends t skipped.valid)
              (λ _ u a. Advance-trans start (Advance-trans skipped a))
              λ _ u p.
                let so_far = Advance-trans start (Advance-trans skipped p.0) in
                mono (skip_loop-Ends fuel outer k u p.0.valid (omega arith))
                  (λ _ w a. Advance-trans so_far a) (λ _ w a. Advance-trans so_far a))
]

pub skip_to_end_of_container-Safe : Safe skip_to_end_of_container
unfolding skip_to_end_of_container
skip_to_end_of_container-Safe r v =
    let start = Advance-same (Advance-refl v) closed in
    mono
      (skip_loop-Ends (suc (r.max_len - r.len_read)) r.container_type 0
        (record r { container_open = false }) start.valid (omega arith))
      (λ _ s a. Advance-trans start a) (λ _ s a. Advance-trans start a)
  where
    closed : SameInput r (record r { container_open = false })
    closed = record { input = refl; len_read = refl; max_len = refl }

pub clear-SameInput : (r : TlvReader) → SameInput r (clear_element_state r)
unfolding clear_element_state
clear-SameInput r = record { input = refl; len_read = refl; max_len = refl }

pub exit_container-Safe : (outer : TlvType) → Safe (exit_container outer)
unfolding exit_container clear_element_state
exit_container-Safe outer r v =
    bind (skip_to_end_of_container-Safe r v) (λ _ s a. a)
      λ _ s a. returns (Advance-same a (record { input = refl; len_read = refl; max_len = refl }))

pub enter_container-Safe : Safe enter_container
unfolding enter_container clear_element_state
enter_container-Safe r v = elim (Bool-cases (tlv_type_is_container (to_uint8 (element_type r)))) [
  | inl e ↦ rw e (
      returns
        (Advance-same (Advance-refl v) (record { input = refl; len_read = refl; max_len = refl })))
  | inr e ↦ rw e (fails (Advance-refl v))
]

pub skip-Safe : Safe skip
unfolding skip clear_element_state
skip-Safe r v =
    if_method-Ends (has_code (element_type r) end_of_container) _ _ r (λ _. fails (Advance-refl v))
      (λ _.
        if_method-Ends (tlv_type_is_container (to_uint8 (element_type r))) _ _ r
          (λ _.
            bind (enter_container-Safe r v) (λ _ s a. a)
              λ outer s a.
                mono (exit_container-Safe outer s a.valid) (λ _ t b. Advance-trans a b)
                  (λ _ t b. Advance-trans a b))
          (λ _.
            bind (skip_data-Safe r v) (λ _ s a. a)
              λ _ s a.
                returns
                  (Advance-same a (record { input = refl; len_read = refl; max_len = refl }))))

check_end-Checks : (r : TlvReader) → Checks r (check_end r)
unfolding check_end
check_end-Checks r = Checks-if (has_code (element_type r) end_of_container) _ _ refuses passes

-- On every valid reader `Next` ends, reads no byte outside of the buffers it was given, leaves a
-- valid reader of the same encoding that is not behind the old one, and if it succeeds then
-- the reader has moved forward by a byte at least.
pub next-Progress : (r : TlvReader) → IsValid r → Ends (λ _. Progress r) (λ _. Advance r) (next r)
unfolding next
next-Progress r v =
    bind (skip-Safe r v) (λ _ s a. a)
      λ _ s a.
        bind (read_element-Ends s a.valid) (λ _ t b. Advance-trans a b)
          λ _ t p.
            Checks-Ends (check_end-Checks t) (Advance-trans a p.0, omega arith)
              (λ _. Advance-trans a p.0)

-- `Next` with an expected type and tag makes the same progress: the checks only look at the element.
pub next_expected-Progress :
    (expected_type : TlvType) (expected_tag : ℕ) (r : TlvReader)
    → IsValid r
    → Ends (λ _. Progress r) (λ _. Advance r) (next_expected expected_type expected_tag r)
unfolding next_expected
next_expected-Progress expected_type expected_tag r v =
    bind (next-Progress r v) (λ _ s a. a)
      λ _ s p.
        Checks-Ends
          (Checks-then (is_type (get_type s) expected_type) wrong_tlv_type _
            (Checks-verify (get_tag s == expected_tag) unexpected_tlv_element))
          p (λ _. p.0)
