-- ===== src/Dissector/Moves.antt =====
-- TLVDissector.cpp: `Next`, `EnterContainer`, `ExitContainer` and `AddListItem`, over the reader's
-- methods of the same names.
use matter_dissector.Prelude.{ℕ, Bool}
use matter_dissector.Tlv.Types.{TlvType}
use matter_dissector.Tlv.Reader.Container
use matter_dissector.Dissector.{
  TlvDissector, Run, Act, ◌>>=◌, ◌>>◌, on_reader, mark_elem_start, mark_elem_length, push_container,
  pop_container, forget_item,
}

-- `Next`
unfoldable pub next : Act (Unit {0})
unfolding mark_elem_start mark_elem_length
next = do
  forget_item
  on_reader Container.skip
  mark_elem_start
  on_reader Container.next
  mark_elem_length

-- `Next` with an expected type and tag
unfoldable pub next_expected : TlvType → ℕ → Act (Unit {0})
unfolding mark_elem_start mark_elem_length
next_expected expected_type expected_tag = do
  forget_item
  on_reader Container.skip
  mark_elem_start
  on_reader (Container.next_expected expected_type expected_tag)
  mark_elem_length

-- `EnterContainer`
unfoldable pub enter_container : (ℕ → Bool) → Act (Unit {0})
unfolding push_container
enter_container realloc = do
  container_type ← on_reader Container.enter_container
  push_container realloc container_type

unfoldable pub exit_popped : TlvType × TlvDissector → Run (Unit {0})
exit_popped (container_type, d) = on_reader (Container.exit_container container_type) d

-- `ExitContainer`
unfoldable pub exit_container : Act (Unit {0})
unfolding pop_container exit_popped
exit_container d = exit_popped (pop_container d)
