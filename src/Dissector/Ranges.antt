-- ===== src/Dissector/Ranges.antt =====
-- The range of the encoding that the dissector marks as the current element's.
use matter_dissector.Prelude.{ℕ, ◌+◌, ◌≤◌, ◌<◌, ◌≡◌, Bool, true, false, if◌then◌else◌, arith, none}
use matter_dissector.Tlv.Types.{TlvType, not_specified, is_type}
use matter_dissector.Tlv.Reader.State.{TlvReader, MatterError, Outcome, IsValid}
use matter_dissector.Tlv.Reader.Container.{get_type, skip}
use matter_dissector.Tlv.Reader.Container
use matter_dissector.Tlv.Reader.Progress.{Progress}
use matter_dissector.Tlv.Reader.Ends.{Ends, returns, fails}
use matter_dissector.Tlv.Reader.Advance.{Advance, Advance-trans}
use matter_dissector.Tlv.Reader.Moves.{skip-Safe, next-Progress, next_expected-Progress}
use matter_dissector.Dissector.{
  TlvDissector, Run, done, stopped, Act, run_then, ◌>>◌, on_reader, forget_item, with_reader,
  mark_elem_start, mark_elem_length, set_elem_length,
}
use matter_dissector.Dissector.Moves.{next, next_expected}

-- A run that does not fault and ends, with what holds of the dissector that it leaves on success and on
-- an error.
pub data Runs (P E : TlvDissector → Type 0) : Run (Unit {0}) → Type 0 where
  succeeds : {d : TlvDissector} → P d → Runs P E (done tt d)
  stops : {e : MatterError} {d : TlvDissector} → E d → Runs P E (stopped e d)

module _ {P E : TlvDissector → Type 0} where
  reader_then :
      {A : TlvReader → Type 0} {B : TlvReader → Type 0} {o : Outcome (Unit {0})} (d : TlvDissector)
      (k : Unit {0} → Act (Unit {0}))
      → Ends (λ _. A) (λ _. B) o
      → ((r : TlvReader) → A r → Runs P E (k tt (record d { reader = r })))
      → ((r : TlvReader) → B r → E (record d { reader = r }))
      → Runs P E (run_then (with_reader d o) k)
  reader_then d k (returns p) f g = f _ p
  reader_then d k (fails e) f g = stops (g _ e)

  checked_then :
      (b : Bool) (e : MatterError) (d d' : TlvDissector) (k : Unit {0} → Act (Unit {0}))
      → E d'
      → Runs P E (k tt d)
      → Runs P E (run_then (if b then done tt d else stopped e d') k)
  checked_then true e d d' k f p = p
  checked_then false e d d' k f p = stops f

-- The marked range starts no earlier than the reader stood, ends inside of the encoding, and contains
-- the bytes of the element that the reader has taken.
pub record Marked (d d' : TlvDissector) : Type 0 where
  pub valid : IsValid d'.reader
  pub max_len : d'.reader.max_len ≡ d.reader.max_len
  pub starts : d.reader.len_read ≤ d'.elem_start
  pub moves : d'.elem_start < d'.reader.len_read
  pub contains : d'.reader.len_read ≤ d'.elem_start + d'.elem_len
  pub inside : d'.elem_start + d'.elem_len ≤ d'.reader.max_len

set_elem_length-Marked :
    (d d' : TlvDissector) (o : Outcome (Unit {0}))
    → Advance d.reader d'.reader
    → d.reader.len_read ≤ d'.elem_start
    → d'.elem_start < d'.reader.len_read
    → Ends (λ _. Advance d'.reader) (λ _. Advance d'.reader) o
    → Runs (Marked d) (λ e. Advance d.reader e.reader) (set_elem_length o d')
unfolding set_elem_length
set_elem_length-Marked d d' o a b c (returns p) = succeeds (record {
  valid = a.valid;
  max_len = a.max_len;
  starts = b;
  moves = c;
  contains = omega arith;
  inside = omega arith;
})
set_elem_length-Marked d d' o a b c (fails p) = stops a

-- The steps of `Next`, with the reader's move as `move`.
abbrev marked_move : (TlvReader → Outcome (Unit {0})) → Act (Unit {0})
marked_move move = do forget_item; on_reader skip; mark_elem_start; on_reader move; mark_elem_length

marked_move-Marked :
    (move : TlvReader → Outcome (Unit {0}))
    → ((r : TlvReader) → IsValid r → Ends (λ _. Progress r) (λ _. Advance r) (move r))
    → (d : TlvDissector) → IsValid d.reader
    → Runs (Marked d) (λ e. Advance d.reader e.reader) (marked_move move d)
unfolding mark_elem_start mark_elem_length
marked_move-Marked move progress d v =
    reader_then (record d { last_item = none }) _ (skip-Safe d.reader v)
      (λ r a. checked_then (is_type (get_type r) not_specified) _ _ _ _ a (
        reader_then (record d { last_item = none; reader = r; elem_start = r.len_read }) _
          (progress r a.valid)
          (λ s p.
            let before = Advance-trans a p.0 in
            set_elem_length-Marked d
              (record d { last_item = none; reader = s; elem_start = r.len_read }) (skip s) before
              a.forward p.1 (skip-Safe s p.0.valid))
          (λ s b. Advance-trans a b)))
      (λ r a. a)

-- `Next` of the dissector on a valid reader ends without a read outside of the buffers. On success the
-- marked range is inside of the encoding and contains what was read of the element; on an error the
-- reader is still valid and not behind where it was.
pub next-Marked :
    (d : TlvDissector)
    → IsValid d.reader
    → Runs (Marked d) (λ e. Advance d.reader e.reader) (next d)
unfolding next
next-Marked = marked_move-Marked Container.next next-Progress

pub next_expected-Marked :
    (expected_type : TlvType) (expected_tag : ℕ) (d : TlvDissector)
    → IsValid d.reader
    → Runs (Marked d) (λ e. Advance d.reader e.reader) (next_expected expected_type expected_tag d)
unfolding next_expected
next_expected-Marked expected_type expected_tag =
    marked_move-Marked (Container.next_expected expected_type expected_tag)
      (next_expected-Progress expected_type expected_tag)
