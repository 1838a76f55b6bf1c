-- ===== src/Im/Events.antt =====
-- packet-matter-im.cpp: `AddNamedStructItem`, which shows event reports.
use matter_dissector.Prelude.{
  ℕ, zero, suc, ◌%◌, ◌^◌, Bool, true, false, not, ◌&&◌, ◌||◌, ◌==◌, if◌then◌else◌,
}
use matter_dissector.Tree.{ProtoItem, Host, data_elem_property_data}
use matter_dissector.Tlv.Types.{uint8, structure, has_code}
use matter_dissector.Tlv.Tags.{is_context_tag, tag_num_from_tag}
use matter_dissector.Tlv.Reader.State.{unexpected_tlv_element}
use matter_dissector.Tlv.Reader.Values.{get_uint64}
use matter_dissector.Dissector.{unfinished, Act}
use matter_dissector.Dissector.Moves
use matter_dissector.Dissector.Elements.{
  ◌>>=◌, ◌>>◌, pure, verify, reading, get_type, get_tag, attempt, by_option, inside, remaining,
  is_end_of_tlv, attempt_error,
}
use matter_dissector.Dissector.Items.{add_sub_tree_item}
use matter_dissector.Dissector.Generic.{add_generic_tlv_item}
use matter_dissector.Im.Names.{NameTables, get_event_field_name_by_tag}
use matter_dissector.Im.Paths.{PathKind, event, is_path_like, add_named_path_item}
use matter_dissector.Im.Values.{Decoders, add_named_field}

-- `localClusterId`, `localEventId` and `foundPath`
pub record EventIds : Type 0 where
  pub cluster_id : ℕ
  pub event_id : ℕ
  pub found : Bool

abbrev no_event : EventIds
no_event = record { cluster_id = 0; event_id = 0; found = false }

unfoldable pub note_event : ℕ → ℕ → EventIds → EventIds
note_event tag_num v ids =
    if tag_num == 2
    then record ids { cluster_id = v % 2 ^ 32 }
    else if tag_num == 3
    then record ids { event_id = v % 2 ^ 32; found = true }
    else ids

-- A round of the loop that looks for the ids, on an element, with the rest of the loop as `more`. The
-- answer is the ids, and whether the loop ended without an error.
unfoldable pub event_ids_round :
    (EventIds → Act (EventIds × Bool)) → EventIds → Act (EventIds × Bool)
event_ids_round more ids = do
  tag ← get_tag
  type ← get_type
  if not (is_context_tag tag) || not (has_code type uint8) then more ids else (do
    value ← attempt (reading get_uint64)
    by_option value (λ v. more (note_event (tag_num_from_tag tag) v ids)) (pure (ids, false)))

unfoldable pub event_ids_loop : ℕ → EventIds → Act (EventIds × Bool)
event_ids_loop zero ids d = unfinished
event_ids_loop (suc fuel) ids d =
    (attempt_error Moves.next >>= λ error.
    by_option error (λ e. pure (ids, is_end_of_tlv e)) (event_ids_round (event_ids_loop fuel) ids))
      d

-- The look at a path or structure of an event report, for its ids.
unfoldable pub extract_event_ids : (ℕ → Bool) → Act EventIds
extract_event_ids realloc = do
  entered ← attempt (Moves.enter_container realloc)
  by_option entered
      (λ _. do
        ended ← λ d. event_ids_loop (suc (remaining d)) no_event d
        if ended.1 then (attempt Moves.exit_container >>= λ _. pure ended.0) else pure ended.0)
      (pure no_event)

abbrev pub is_event : PathKind → Bool
is_event event = true
is_event _ = false

module _ (host : Host) (decoders : Decoders) (tables : NameTables) where
  -- The first part of a round of `AddNamedStructItem`: a path or a structure may yield the ids of an event,
  -- and is tried as a path. The answer is whether that succeeded, with the ids.
  unfoldable pub try_path : PathKind → ProtoItem → EventIds → Act (Bool × EventIds)
  try_path kind item_tree ids = do
    type ← get_type
    if is_path_like type
        then (do
          local ← (if is_event kind then extract_event_ids host.realloc else pure no_event)
          shown ← attempt (add_named_path_item tables host kind item_tree)
          let now : EventIds = if local.found then local else ids
          by_option shown (λ _. pure (true, now)) (pure (false, now)))
        else pure (false, ids)

  -- A round of the loop, with the type and the tag from before the path was tried.
  unfoldable pub struct_element : PathKind → ProtoItem → EventIds → Act EventIds
  struct_element kind item_tree ids = do
    tag ← get_tag
    type ← get_type
    tried ← try_path kind item_tree ids
    if tried.0
        then pure tried.1
        else if is_event kind
            && tried.1.found
            && is_context_tag tag
            && (tag_num_from_tag tag == 50)
            && has_code type structure
        then (do
          event_data_tree ← add_sub_tree_item item_tree data_elem_property_data
          inside host.realloc
              (λ _.
                add_named_field host decoders tables event_data_tree
                  (get_event_field_name_by_tag tables tried.1.cluster_id tried.1.event_id))
              tt
          pure tried.1)
        else (do add_generic_tlv_item host item_tree data_elem_property_data false; pure tried.1)

  -- `AddNamedStructItem`
  unfoldable pub add_named_struct_item : PathKind → ProtoItem → Act (Unit {0})
  add_named_struct_item kind tree = do
    type ← get_type
    verify (has_code type structure) unexpected_tlv_element
    item_tree ← add_sub_tree_item tree data_elem_property_data
    ids ← inside host.realloc (struct_element kind item_tree) no_event
    pure tt

  -- `AddEventReportIBItem`
  unfoldable pub add_event_report_ib_item : ProtoItem → Act (Unit {0})
  add_event_report_ib_item = add_named_struct_item event
