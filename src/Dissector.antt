-- ===== src/Dissector.antt =====
-- TLVDissector.cpp: a reader that keeps, for Wireshark's tree, where the current element stands in the
-- encoding, and a stack of the containers that it has entered.
pub mod Moves
pub mod Ranges
pub mod Stack
pub mod Elements
pub mod Strings
pub mod Items
pub mod Generic
pub mod Lists
pub mod Safety
pub mod Shows
pub mod Stops
use matter_dissector.Prelude.{
  ℕ, suc, ◌+◌, ◌-◌, ◌*◌, ◌%◌, ◌^◌, Bool, true, false, ◌==◌, ◌||◌, if◌then◌else◌, Option, none, some,
  List, [], ◌∷◌, length,
}
use matter_dissector.Tree.{ProtoItem, TreeCall, Field, Shown}
use matter_dissector.Tlv.Types.{TlvType, not_specified, is_type}
use matter_dissector.Tlv.Reader.State.{
  TlvReader, MatterError, Outcome, ok, err, fault, out_of_fuel, incorrect_state, no_memory, init,
}
use matter_dissector.Tlv.Reader.Container.{get_type, skip}

-- `ContainerContext`
pub record ContainerContext : Type 0 where
  pub context_type : TlvType
  pub container_item : Option ProtoItem
  pub elem_start : ℕ
  pub elem_len : ℕ

-- The members of `TLVDissector`. The array `mContainerStack` has room for `container_stack_size`
-- contexts, of which those that are in use are the list, the innermost first; `mContainerDepth` is the
-- list's length. `calls` is what was asked of Wireshark's tree, the last call first, and `accepts` tells
-- which items the tree takes, by field, start, length and contents.
pub record TlvDissector : Type 0 where
  pub reader : TlvReader
  pub source_buf_base_offset : ℕ
  pub elem_start : ℕ
  pub elem_len : ℕ
  pub last_item : Option ProtoItem
  pub container_stack : List ContainerContext
  pub container_stack_size : ℕ
  pub calls : List TreeCall
  pub accepts : Field → ℕ → ℕ → Shown → Bool

-- What a method of the dissector does. `faulted` and `unfinished` are the reader's `fault` and
-- `out_of_fuel`; `crashed` is a store through a null pointer or past a block, or an assertion of
-- Wireshark's on an item that its tree does not take, which ends the dissection of the packet.
pub data Run (A : Type 0) : Type 0 where
  done : A → TlvDissector → Run A
  stopped : MatterError → TlvDissector → Run A
  faulted crashed unfinished : Run A

abbrev pub Act : Type 0 → Type 0
Act A = TlvDissector → Run A

abbrev pub run_then : {A B : Type 0} → Run A → (A → Act B) → Run B
run_then (done a d) f = f a d
run_then (stopped e d) f = stopped e d
run_then faulted f = faulted
run_then crashed f = crashed
run_then unfinished f = unfinished

infixl 5 ◌>>=◌ ◌>>◌
abbrev pub ◌>>=◌ : {A B : Type 0} → Act A → (A → Act B) → Act B
◌>>=◌ m f d = run_then (m d) f

abbrev pub ◌>>◌ : {B : Type 0} → Act (Unit {0}) → Act B → Act B
m >> k = m >>= λ _. k

-- A method of the reader on the dissector's reader.
abbrev pub with_reader : {A : Type 0} → TlvDissector → Outcome A → Run A
with_reader d (ok a r) = done a (record d { reader = r })
with_reader d (err e r) = stopped e (record d { reader = r })
with_reader d fault = faulted
with_reader d out_of_fuel = unfinished

abbrev pub on_reader : {A : Type 0} → (TlvReader → Outcome A) → Act A
on_reader m d = with_reader d (m d.reader)

-- `Init`, which keeps the array of the stack.
unfoldable pub init_dissector : List ℕ → ℕ → TlvDissector → TlvDissector
unfolding init
init_dissector buffer base d = record d {
  reader = init buffer;
  source_buf_base_offset = base;
  elem_start = 0;
  elem_len = 0;
  last_item = none;
  container_stack = [];
}

-- `MarkElemStart`
unfoldable pub mark_elem_start : Act (Unit {0})
unfolding get_type
mark_elem_start d =
    if is_type (get_type d.reader) not_specified
    then done tt (record d { elem_start = d.reader.len_read })
    else stopped incorrect_state d

-- The end of `MarkElemLength`: what skipping with a copy of the reader came to. The difference is one
-- of 32-bit numbers.
unfoldable pub set_elem_length : Outcome (Unit {0}) → Act (Unit {0})
set_elem_length (ok _ copy) d =
    done tt (record d { elem_len = (copy.len_read + (2 ^ 32 - d.elem_start)) % 2 ^ 32 })
set_elem_length (err e _) d = stopped e d
set_elem_length fault d = faulted
set_elem_length out_of_fuel d = unfinished

-- `MarkElemLength`
unfoldable pub mark_elem_length : Act (Unit {0})
unfolding skip set_elem_length
mark_elem_length d = set_elem_length (skip d.reader) d

-- `PushContainer`. The argument tells whether `realloc` gives the memory that it is asked for. When it
-- does not, the source has lost the array; what a dissector does after that is not modelled.
unfoldable pub push_container : (ℕ → Bool) → TlvType → Act (Unit {0})
push_container realloc container_type d =
    let context : ContainerContext = record {
      context_type = container_type;
      container_item = d.last_item;
      elem_start = d.elem_start;
      elem_len = d.elem_len;
    } in
    let size = if d.container_stack_size == 0 then 16 else d.container_stack_size * 2 % 2 ^ 32 in
    if d.container_stack_size == 0 || d.container_stack_size == length d.container_stack
    then (if realloc size
        then done tt (record d {
          container_stack = context ∷ d.container_stack;
          container_stack_size = size;
        })
        else stopped no_memory (record d { container_stack_size = size }))
    else done tt (record d { container_stack = context ∷ d.container_stack })

abbrev pub pop_from : List ContainerContext → TlvDissector → TlvType × TlvDissector
pop_from [] d = (not_specified, d)
pop_from (c ∷ cs) d = (
  c.context_type,
  record d {
    container_stack = cs;
    last_item = c.container_item;
    elem_start = c.elem_start;
    elem_len = c.elem_len;
  },
)

-- `PopContainer`
unfoldable pub pop_container : TlvDissector → TlvType × TlvDissector
pop_container d = pop_from d.container_stack d

-- Before the reader moves: `mLastItem = NULL`.
abbrev pub forget_item : Act (Unit {0})
forget_item d = done tt (record d { last_item = none })
