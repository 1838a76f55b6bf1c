-- ===== src/Dissector/Stack.antt =====
-- The stack of containers: what `EnterContainer` pushes is what `ExitContainer` brings back.
use matter_dissector.Prelude.{
  ℕ, ◌*◌, ◌%◌, ◌^◌, ◌≤◌, ◌<◌, ◌≡◌, refl, ap, sym, subst, ◌≢◌, ◌∙◌, Bool, ◌==◌, Bool-cases, inl, inr,
  arith, ◌∷◌, length,
}
use matter_dissector.Tlv.Types.{TlvType, tlv_type_is_container, to_uint8}
use matter_dissector.Tlv.Reader.State.{
  TlvReader, MatterError, Outcome, clear_element_state, element_type, IsValid,
}
use matter_dissector.Tlv.Reader.Container
use matter_dissector.Tlv.Reader.Ends.{Ends, returns, fails, bind}
use matter_dissector.Tlv.Reader.Moves.{skip_to_end_of_container-Safe}
use matter_dissector.Dissector.{
  ContainerContext, TlvDissector, Run, done, stopped, run_then, with_reader, push_container,
  pop_container, pop_from,
}
use matter_dissector.Dissector.Ranges.{Runs, succeeds, stops}
use matter_dissector.Dissector.Moves.{enter_container, exit_container, exit_popped}

abbrev pub context_of : TlvType → TlvDissector → ContainerContext
context_of t d = record {
  context_type = t;
  container_item = d.last_item;
  elem_start = d.elem_start;
  elem_len = d.elem_len;
}

-- The contexts in use never outgrow the array.
abbrev pub Fits : TlvDissector → Type 0
Fits d = length d.container_stack ≤ d.container_stack_size

-- What a push leaves when it succeeds.
abbrev pub Pushed : TlvType → TlvDissector → TlvDissector → Type 0
Pushed t d d' =
    (d'.container_stack ≡ context_of t d ∷ d.container_stack) × (d'.reader ≡ d.reader) × Fits d'

push_container-Pushed :
    (realloc : ℕ → Bool) (t : TlvType) (d : TlvDissector)
    → Fits d
    → d.container_stack_size < 2 ^ 31
    → Runs (Pushed t d) (λ d'. d'.reader ≡ d.reader) (push_container realloc t d)
unfolding push_container
push_container-Pushed realloc t d f b = elim (Bool-cases (d.container_stack_size == 0)) [
  | inl z ↦ elim (Bool-cases (realloc 16)) [
    | inl e ↦ rw (z, e) (succeeds (refl, refl, ground arith))
    | inr e ↦ rw (z, e) (stops refl)
  ]
  | inr z ↦ elim (Bool-cases (d.container_stack_size == length d.container_stack)) [
    | inl q ↦ elim (Bool-cases (realloc (d.container_stack_size * 2 % 2 ^ 32))) [
      | inl e ↦ rw (z, q, e) (succeeds (refl, refl, ground arith))
      | inr e ↦ rw (z, q, e) (stops refl)
    ]
    | inr q ↦ rw (z, q) (succeeds (refl, refl, ground arith))
  ]
]

Runs-done :
    (P E : TlvDissector → Type 0) (o : Run (Unit {0})) (d : TlvDissector)
    → Runs P E o
    → o ≡ done tt d
    → P d
Runs-done P E o d (succeeds {d = d'} p) e = subst P (ap (left d) e) p
  where
    left : TlvDissector → Run (Unit {0}) → TlvDissector
    left f (done _ g) = g
    left f _ = f
Runs-done P E o d (stops p) e = absurd (is_done-stops e)
  where
    is_done-stops : {m : MatterError} {f : TlvDissector} → stopped m f ≢ done tt d
    is_done-stops e = cc

-- The type that the reader had around the container is the innermost on the stack.
abbrev pub Entered : TlvDissector → TlvDissector → Type 0
Entered d d' =
    (d'.container_stack ≡ context_of d.reader.container_type d ∷ d.container_stack) × Fits d'

enter_outer :
    (r : TlvReader) → Ends (λ t _. t ≡ r.container_type) (λ _ _. Unit) (Container.enter_container r)
unfolding Container.enter_container
enter_outer r = elim (Bool-cases (tlv_type_is_container (to_uint8 (element_type r)))) [
  | inl e ↦ rw e (returns refl)
  | inr e ↦ rw e (fails tt)
]

enter_container-Entered :
    (realloc : ℕ → Bool) (d : TlvDissector)
    → Fits d
    → d.container_stack_size < 2 ^ 31
    → Runs (Entered d) (λ _. Unit) (enter_container realloc d)
unfolding enter_container
enter_container-Entered realloc d f b =
    entered (Container.enter_container d.reader) (enter_outer d.reader)
  where
    entered :
        (o : Outcome TlvType)
        → Ends (λ t _. t ≡ d.reader.container_type) (λ _ _. Unit) o
        → Runs (Entered d) (λ _. Unit) (run_then (with_reader d o) (push_container realloc))
    entered o (returns {a = t} {r = r} p) =
        weaken (push_container realloc t (record d { reader = r }))
          (push_container-Pushed realloc t (record d { reader = r }) f b) p
      where
        weaken :
            (o : Run (Unit {0}))
            → Runs (Pushed t (record d { reader = r })) (λ e. e.reader ≡ r) o
            → t ≡ d.reader.container_type
            → Runs (Entered d) (λ _. Unit) o
        weaken o (succeeds p) e =
            succeeds (p.0 ∙ ap (λ u. context_of u d ∷ d.container_stack) e, p.2)
        weaken o (stops p) e = stops tt
    entered o (fails p) = stops tt

exit_outer :
    (outer : TlvType) (r : TlvReader)
    → IsValid r
    → Ends (λ _ s. s.container_type ≡ outer) (λ _ _. Unit) (Container.exit_container outer r)
unfolding Container.exit_container clear_element_state
exit_outer outer r v = bind (skip_to_end_of_container-Safe r v) (λ _ s a. tt) λ _ s a. returns refl

-- What the dissector had when it entered a container.
abbrev pub Restored : TlvDissector → TlvDissector → Type 0
Restored d d' =
    (d'.reader.container_type ≡ d.reader.container_type)
    × (d'.container_stack ≡ d.container_stack)
    × (d'.elem_start ≡ d.elem_start)
    × (d'.elem_len ≡ d.elem_len)
    × (d'.last_item ≡ d.last_item)

-- Leaving a container that was entered, from any dissector with a valid reader and the same stack, ends,
-- and if it succeeds then the container type of the reader, the stack, the marked range and the item are
-- those from before the container was entered.
pub exit_container-Restored :
    (realloc : ℕ → Bool) (d d1 d2 : TlvDissector)
    → Fits d
    → d.container_stack_size < 2 ^ 31
    → enter_container realloc d ≡ done tt d1
    → IsValid d2.reader
    → d2.container_stack ≡ d1.container_stack
    → Runs (Restored d) (λ _. Unit) (exit_container d2)
unfolding exit_container pop_container
exit_container-Restored realloc d d1 d2 f b entered v same =
    let (stack, _) =
      Runs-done (Entered d) (λ _. Unit) (enter_container realloc d) d1
        (enter_container-Entered realloc d f b) entered in
    let e : d2.container_stack ≡ context_of d.reader.container_type d ∷ d.container_stack =
      same ∙ stack in
    subst (λ s. Runs (Restored d) (λ _. Unit) (exit_popped (pop_from s d2))) (sym e) popped
  where
    popped :
        Runs
          (Restored d)
          (λ _. Unit)
          (exit_popped (pop_from (context_of d.reader.container_type d ∷ d.container_stack) d2))
    popped = unfold exit_popped in left_with _ (exit_outer d.reader.container_type d2.reader v)
      where
        left_with :
            (o : Outcome (Unit {0}))
            → Ends (λ _ s. s.container_type ≡ d.reader.container_type) (λ _ _. Unit) o
            → Runs
                (Restored d)
                (λ _. Unit)
                (with_reader
                  (record d2 {
                    container_stack = d.container_stack;
                    last_item = d.last_item;
                    elem_start = d.elem_start;
                    elem_len = d.elem_len;
                  })
                  o)
        left_with o (returns p) = succeeds (p, refl, refl, refl, refl)
        left_with o (fails p) = stops tt
