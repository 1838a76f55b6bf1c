-- ===== src/Dissector/Elements.antt =====
-- The steps that the dissectors are made of: a look at the current element, a check, an error that is
-- dropped, and the loop over the elements of a container.
use matter_dissector.Prelude.{
  ℕ, zero, suc, ◌-◌, Bool, true, false, Option, none, some, if◌then◌else◌,
}
use matter_dissector.Tlv.Types.{TlvType}
use matter_dissector.Tlv.Tags.{is_context_tag, tag_num_from_tag}
use matter_dissector.Tlv.Reader.State.{TlvReader, MatterError, Outcome, end_of_tlv}
use matter_dissector.Tlv.Reader.Container
use matter_dissector.Dissector.{
  TlvDissector, Run, done, stopped, faulted, crashed, unfinished, Act, run_then, on_reader,
}
use matter_dissector.Dissector.Moves.{next, enter_container, exit_container}

-- A chain of methods: the first error is the result of the whole.
infixl 5 ◌>>=◌ ◌>>◌
unfoldable pub ◌>>=◌ : {A B : Type 0} → Act A → (A → Act B) → Act B
◌>>=◌ m f d = run_then (m d) f

abbrev pub ◌>>◌ : {B : Type 0} → Act (Unit {0}) → Act B → Act B
m >> k = m >>= λ _. k

unfoldable pub pure : {A : Type 0} → A → Act A
pure a d = done a d

unfoldable pub fail : {A : Type 0} → MatterError → Act A
fail e d = stopped e d

-- `VerifyOrExit(b, err = e)`
unfoldable pub verify : Bool → MatterError → Act (Unit {0})
verify b e d = if b then done tt d else stopped e d

-- A method of the reader that cannot fail.
unfoldable pub look : {A : Type 0} → (TlvReader → A) → Act A
look f d = done (f d.reader) d

-- A method of the dissector that cannot fail.
unfoldable pub ask : {A : Type 0} → (TlvDissector → A) → Act A
ask f d = done (f d) d

-- A method of the reader.
unfoldable pub reading : {A : Type 0} → (TlvReader → Outcome A) → Act A
reading m d = on_reader m d

abbrev pub get_type : Act TlvType
get_type = look Container.get_type

abbrev pub get_tag : Act ℕ
get_tag = look Container.get_tag

abbrev pub attempted : {A : Type 0} → Run A → Run (Option A)
attempted (done a d) = done (some a) d
attempted (stopped e d) = done none d
attempted faulted = faulted
attempted crashed = crashed
attempted unfinished = unfinished

-- A call whose error the caller drops: the result, if there is one.
unfoldable pub attempt : {A : Type 0} → Act A → Act (Option A)
attempt m d = attempted (m d)

abbrev pub ended_with : {A : Type 0} → Run A → Run (Option MatterError)
ended_with (done a d) = done none d
ended_with (stopped e d) = done (some e) d
ended_with faulted = faulted
ended_with crashed = crashed
ended_with unfinished = unfinished

-- A call whose error the caller looks at.
unfoldable pub attempt_error : {A : Type 0} → Act A → Act (Option MatterError)
attempt_error m d = ended_with (m d)

-- By a pointer that may be null.
unfoldable pub by_option : {A B : Type 0} → Option A → (A → Act B) → Act B → Act B
by_option (some a) k other = k a
by_option none k other = other

-- `m`, and `k` after it if it ends in an error.
abbrev pub or_else : Act (Unit {0}) → Act (Unit {0}) → Act (Unit {0})
or_else m k = attempt m >>= λ r. by_option r (λ _. pure tt) k

-- The bytes that the encoding still has.
abbrev pub remaining : TlvDissector → ℕ
remaining d = d.reader.max_len - d.reader.len_read

-- `err == MATTER_END_OF_TLV`
abbrev pub is_end_of_tlv : MatterError → Bool
is_end_of_tlv end_of_tlv = true
is_end_of_tlv _ = false

-- `while (true) { err = Next(); if (err == MATTER_END_OF_TLV) break; SuccessOrExit(err); ... }`, with the
-- variables that the loop changes as `s`. `unfinished` is out of fuel.
unfoldable pub element_loop : {S : Type 0} → ℕ → (S → Act S) → S → Act S
unfolding next
element_loop zero body s d = unfinished
element_loop (suc fuel) body s d = elim (next d) [
  | done _ e ↦ run_then (body s e) (element_loop fuel body)
  | stopped x e ↦ if is_end_of_tlv x then done s e else stopped x e
  | faulted ↦ faulted
  | crashed ↦ crashed
  | unfinished ↦ unfinished
]

-- Each element takes a byte at least.
unfoldable pub each_element : {S : Type 0} → (S → Act S) → S → Act S
unfolding element_loop
each_element body s d = element_loop (suc (remaining d)) body s d

-- The loop between `EnterContainer` and `ExitContainer`.
unfoldable pub inside : {S : Type 0} → (ℕ → Bool) → (S → Act S) → S → Act S
inside realloc body s = do
  enter_container realloc
  last ← each_element body s
  exit_container
  pure last

-- `IsContextTag(tag)` and `TagNumFromTag(tag)`: by the number of a context tag, or what is done of
-- another tag.
unfoldable pub by_context_tag : {A : Type 0} → (ℕ → Act A) → Act A → Act A
by_context_tag on_context other =
    get_tag >>= λ tag. if is_context_tag tag then on_context (tag_num_from_tag tag) else other
