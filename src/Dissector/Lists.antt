-- ===== src/Dissector/Lists.antt =====
-- TLVDissector.cpp: `AddListItem`, whose handler of the elements is a parameter.
use matter_dissector.Prelude.{ℕ, ◌+◌, ◌%◌, ◌^◌, ◌||◌, if◌then◌else◌, ◌∷◌, [], Option, some, none}
use matter_dissector.Tree.{ProtoItem, Field, text, number, append_text, Host}
use matter_dissector.Tlv.Types.{array, path, has_code}
use matter_dissector.Tlv.Reader.State.{incorrect_state}
use matter_dissector.Dissector.{Act}
use matter_dissector.Dissector.Elements.{◌>>=◌, ◌>>◌, ask, pure, verify, get_type, inside}
use matter_dissector.Dissector.Items.{add_sub_tree_item, tree_call}

-- `LastItem`
abbrev pub last_item : Act (Option ProtoItem)
last_item = ask (λ d. d.last_item)

module _ (host : Host) where
  -- The number of elements behind the list's text, if there is an item.
  unfoldable pub append_count : Option ProtoItem → ℕ → Act (Unit {0})
  append_count none elem_count = pure tt
  append_count (some list_item) elem_count =
      if host.is_null list_item
      then pure tt
      else tree_call
          (append_text list_item (text " (len = " ∷ number "%u" elem_count ∷ text ")" ∷ []))

  -- `AddListItem`
  unfoldable pub add_list_item : ProtoItem → Field → (ProtoItem → Act (Unit {0})) → Act (Unit {0})
  add_list_item tree hfindex elem_handler = do
    type ← get_type
    verify (has_code type array || has_code type path) incorrect_state
    list_tree ← add_sub_tree_item tree hfindex
    list_item ← last_item
    elem_count ←
        inside host.realloc
          (λ elem_count. elem_handler list_tree >> pure ((elem_count + 1) % 2 ^ 32)) 0
    append_count list_item elem_count
