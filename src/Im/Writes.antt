-- ===== src/Im/Writes.antt =====
-- The list of a write request or of a write response. Their functions show every element with
-- `AddGenericTLVItem`, also behind `AddListItem`, where the others test `hf_entry != -1`.
use matter_dissector.Prelude.{
  ℕ, ◌≡◌, refl, subst, ◌≢◌, Bool, true, false, ◌||◌, Option, some, none, if◌then◌else◌, [], ◌∷◌,
}
use matter_dissector.Tree.{ProtoItem, Field, Host, unregistered, append_text, text, number}
use matter_dissector.Tlv.Types.{TlvType, not_specified, array, path, has_code}
use matter_dissector.Tlv.Reader.State.{
  TlvReader, MatterError, Outcome, ok, err, fault, out_of_fuel, and_then, clear_element_state,
  element_type,
}
use matter_dissector.Tlv.Reader.Container
use matter_dissector.Dissector.{
  TlvDissector, Run, done, stopped, faulted, crashed, unfinished, Act, run_then, with_reader,
  pop_container,
}
use matter_dissector.Dissector.Moves.{enter_container, exit_container, exit_popped}
use matter_dissector.Dissector.Elements.{
  ◌>>=◌, pure, look, ask, verify, get_type, each_element, inside,
}
use matter_dissector.Dissector.Items.{add_sub_tree_item, tree_call}
use matter_dissector.Dissector.Generic.{add_generic_tlv_item}
use matter_dissector.Dissector.Lists.{append_count, add_list_item}
use matter_dissector.Dissector.Stops.{add_generic_tlv_item-stopped}
use matter_dissector.Im.Names.{NameTables}
use matter_dissector.Im.Values.{Decoders}
use matter_dissector.Im.Messages.{list, add_entry}

-- What holds of the dissector if a run succeeds.
data IfDone {A : Type 0} (P : TlvDissector → Type 0) : Run A → Type 0 where
  at_end : {a : A} {d : TlvDissector} → P d → IfDone P (done a d)
  not_done_stopped : {e : MatterError} {d : TlvDissector} → IfDone P (stopped e d)
  not_done_faulted : IfDone P faulted
  not_done_crashed : IfDone P crashed
  not_done_unfinished : IfDone P unfinished

module _ {A : Type 0} where
  nothing_known : (o : Run A) → IfDone (λ _. Unit {0}) o
  nothing_known (done a d) = at_end tt
  nothing_known (stopped e d) = not_done_stopped
  nothing_known faulted = not_done_faulted
  nothing_known crashed = not_done_crashed
  nothing_known unfinished = not_done_unfinished

  module _ {B : Type 0} {P Q : TlvDissector → Type 0} where
    next_done :
        {o : Run A} {k : A → Act B}
        → IfDone P o
        → ((a : A) (d : TlvDissector) → P d → IfDone Q (k a d))
        → IfDone Q (run_then o k)
    next_done (at_end p) f = f _ _ p
    next_done not_done_stopped f = not_done_stopped
    next_done not_done_faulted f = not_done_faulted
    next_done not_done_crashed f = not_done_crashed
    next_done not_done_unfinished f = not_done_unfinished

  module _ {B : Type 0} {Q : TlvDissector → Type 0} where
    skip_step :
        (m : Act A) {k : A → Act B} (d : TlvDissector)
        → ((a : A) (e : TlvDissector) → IfDone Q (k a e))
        → IfDone Q ((m >>= k) d)
    unfolding ◌>>=◌
    skip_step m d f = next_done (nothing_known (m d)) λ a e u. f a e

  module _ {B : Type 0} {P Q : TlvDissector → Type 0} where
    known_step :
        (m : Act A) {k : A → Act B} (d : TlvDissector)
        → IfDone P (m d)
        → ((a : A) (e : TlvDissector) → P e → IfDone Q (k a e))
        → IfDone Q ((m >>= k) d)
    unfolding ◌>>=◌
    known_step m d p f = next_done p f

-- The reader stands on no element.
abbrev Cleared : TlvDissector → Type 0
Cleared d = Container.get_type d.reader ≡ not_specified

type-clear : (r : TlvReader) → Container.get_type (clear_element_state r) ≡ not_specified
unfolding clear_element_state Container.get_type element_type
type-clear r = refl

exit_popped-Cleared : (p : TlvType × TlvDissector) → IfDone Cleared (exit_popped p)
unfolding exit_popped Container.exit_container
exit_popped-Cleared (t, d) = by_outcome (Container.skip_to_end_of_container d.reader)
  where
    by_outcome :
        (o : Outcome (Unit {0}))
        → IfDone Cleared (
            with_reader d
              (and_then o λ _ s. ok tt (clear_element_state (record s { container_type = t }))))
    by_outcome (ok _ s) = at_end (type-clear (record s { container_type = t }))
    by_outcome (err e s) = not_done_stopped
    by_outcome fault = not_done_faulted
    by_outcome out_of_fuel = not_done_unfinished

inside-Cleared :
    {S : Type 0} (realloc : ℕ → Bool) (body : S → Act S) (s : S) (d : TlvDissector)
    → IfDone Cleared (inside realloc body s d)
unfolding inside ◌>>=◌ exit_container pure
inside-Cleared realloc body s d = skip_step (enter_container realloc) d λ _ e.
    skip_step (each_element body s) e
      λ last f. next_done (exit_popped-Cleared (pop_container f)) λ _ g c. at_end c

append_count-Cleared :
    (host : Host) (i : Option ProtoItem) (n : ℕ) (d : TlvDissector)
    → Cleared d
    → IfDone Cleared (append_count host i n d)
unfolding append_count pure tree_call
append_count-Cleared host none n d c = at_end c
append_count-Cleared host (some i) n d c = by_null (host.is_null i)
  where
    by_null :
        (b : Bool)
        → IfDone Cleared (
            (if b
                then pure tt
                else tree_call (append_text i (text " (len = " ∷ number "%u" n ∷ text ")" ∷ [])))
              d)
    by_null true = at_end c
    by_null false = at_end c

add_list_item-Cleared :
    (host : Host) (tree : ProtoItem) (f : Field) (handler : ProtoItem → Act (Unit {0}))
    (d : TlvDissector)
    → IfDone Cleared (add_list_item host tree f handler d)
unfolding add_list_item
add_list_item-Cleared host tree f handler d = skip_step get_type d λ type e.
    skip_step (verify _ _) e λ _ e. skip_step (add_sub_tree_item tree f) e λ list_tree e.
      skip_step (ask _) e λ list_item e.
        known_step _ e (inside-Cleared host.realloc _ 0 e)
          λ n g c. append_count-Cleared host list_item n g c

abbrev Never : TlvDissector → Type 0
Never d = true ≡ false

stopped_there :
    (host : Host) (tree : ProtoItem) (d : TlvDissector)
    → Cleared d
    → IfDone Never (add_generic_tlv_item host tree unregistered false d)
stopped_there host tree d c =
    rw (add_generic_tlv_item-stopped host tree unregistered false d c) not_done_stopped

type_step :
    (k : TlvType → Act (Unit {0})) (d : TlvDissector)
    → IfDone Never (k (Container.get_type d.reader) d)
    → IfDone Never ((get_type >>= k) d)
unfolding ◌>>=◌ look
type_step k d p = p

add_entry-Never :
    (host : Host) (decoders : Decoders) (tables : NameTables) (tree : ProtoItem) (f : Field)
    (handler : ProtoItem → Act (Unit {0})) (d : TlvDissector)
    → (has_code (Container.get_type d.reader) array || has_code (Container.get_type d.reader) path)
      ≡ true
    → IfDone Never (add_entry host decoders tables false tree (list f handler) d)
unfolding add_entry
add_entry-Never host decoders tables tree f handler d t = type_step _ d (
    rw t (
      known_step _ d (add_list_item-Cleared host tree f handler d)
        λ _ e c. stopped_there host tree e c))

not_done : {a : Unit {0}} {e : TlvDissector} → ¬ IfDone Never (done a e)
not_done (at_end p) = cc

-- In a write request or a write response a round that adds a list never succeeds: on an array or a path it
-- does not, whatever the field, the handler, the tree and the dissector that it would leave are.
pub add_entry-list :
    (host : Host) (decoders : Decoders) (tables : NameTables) (tree : ProtoItem) (f : Field)
    (handler : ProtoItem → Act (Unit {0})) (d e : TlvDissector)
    → (has_code (Container.get_type d.reader) array || has_code (Container.get_type d.reader) path)
      ≡ true
    → add_entry host decoders tables false tree (list f handler) d ≢ done tt e
add_entry-list host decoders tables tree f handler d e t q =
    not_done (subst (IfDone Never) q (add_entry-Never host decoders tables tree f handler d t))
