-- ===== src/Im/Safety/Events.antt =====
-- Event reports and commands.
use matter_dissector.Prelude.{ℕ, zero, suc, Bool, Option, arith, ◌-◌, ◌<◌, ◌^◌}
use matter_dissector.Tree.{ProtoItem, Host}
use matter_dissector.Tlv.Reader.State.{IsValid}
use matter_dissector.Dissector.{TlvDissector, Act}
use matter_dissector.Dissector.Ranges.{next-Marked}
use matter_dissector.Dissector.Moves
use matter_dissector.Dissector.Elements.{remaining, by_option}
use matter_dissector.Dissector.Safety.{Keeps, SafeBelow, safe, pure-Safe, tried_move-Keeps}
use matter_dissector.Dissector.Shows.{reads}
use matter_dissector.Im.Names.{NameTables}
use matter_dissector.Im.Paths.{PathKind}
use matter_dissector.Im.Values.{Decoders}
use matter_dissector.Im.Events.{
  EventIds, event_ids_round, event_ids_loop, extract_event_ids, try_path, struct_element,
  add_named_struct_item, add_event_report_ib_item,
}
use matter_dissector.Im.Commands.{
  add_command_data, command_data_element, add_command_data_ib, add_command_data_ib_for_request,
  add_command_data_ib_for_response, add_command_status_ib, add_invoke_response_ib,
}
use matter_dissector.Im.Safety.Fields.{
  DecodersSafe, shows, add_named_path_item-Safe, add_named_field-Safe, add_status_ib-Safe,
  add_named_command_payload-Safe, add_command_path_item_and_extract_ids-Safe,
}

event_ids_round-Safe :
    {n : ℕ} (more : EventIds → Act (EventIds × Bool)) (ids : EventIds)
    → ((ids : EventIds) → SafeBelow n (more ids))
    → SafeBelow n (event_ids_round more ids)
unfolding event_ids_round
event_ids_round-Safe more ids p = search (safe, reads, p) depth 20

event_ids_loop-Keeps :
    (fuel : ℕ) (ids : EventIds) (d : TlvDissector)
    → IsValid d.reader
    → d.reader.max_len < 2 ^ 32 - 1
    → remaining d < fuel
    → Keeps d.reader (event_ids_loop fuel ids d)
unfolding event_ids_loop by_option
event_ids_loop-Keeps zero ids d v b l = elim l [ ]
event_ids_loop-Keeps (suc fuel) ids d v b l =
    tried_move-Keeps Moves.next d _ (next-Marked d v)
      (λ e m.
        let round : SafeBelow (remaining d) (event_ids_round (event_ids_loop fuel) ids) =
          event_ids_round-Safe (event_ids_loop fuel) ids
            λ ids. record { runs = λ f w c k. event_ids_loop-Keeps fuel ids f w c (omega arith) } in
        round.runs e m.0.valid (omega (arith, m.0.max_len)) m.1)
      (λ x e a.
        (pure-Safe {n = suc (remaining e)} _).runs e a.valid (omega (arith, a.max_len))
          (omega arith))

event_ids_loop-Safe :
    {n : ℕ} (ids : EventIds) → SafeBelow n (λ d. event_ids_loop (suc (remaining d)) ids d)
event_ids_loop-Safe ids = record {
  runs = λ d v b l. event_ids_loop-Keeps _ ids d v b (omega arith);
}

extract_event_ids-Safe : {n : ℕ} (realloc : ℕ → Bool) → SafeBelow n (extract_event_ids realloc)
unfolding extract_event_ids
extract_event_ids-Safe realloc = search (safe, event_ids_loop-Safe) depth 20

module _ {n : ℕ} (host : Host) (decoders : Decoders) (ds : DecodersSafe decoders)
    (tables : NameTables) where
  try_path-Safe :
      (kind : PathKind) (item_tree : ProtoItem) (ids : EventIds)
      → SafeBelow n (try_path host decoders tables kind item_tree ids)
  unfolding try_path
  try_path-Safe kind item_tree ids =
      search (shows, extract_event_ids-Safe, add_named_path_item-Safe) depth 20

  struct_element-Safe :
      (kind : PathKind) (item_tree : ProtoItem) (ids : EventIds)
      → SafeBelow n (struct_element host decoders tables kind item_tree ids)
  unfolding struct_element
  struct_element-Safe kind item_tree ids =
      search (shows, try_path-Safe, add_named_field-Safe) depth 20

  pub add_event_report_ib_item-Safe :
      (tree : ProtoItem) → SafeBelow n (add_event_report_ib_item host decoders tables tree)
  unfolding add_event_report_ib_item add_named_struct_item
  add_event_report_ib_item-Safe tree = search (shows, struct_element-Safe) depth 20

  add_command_data-Safe :
      (decode_named_payload is_request_payload : Bool) (data_elem_tree : ProtoItem)
      (found : Option (ℕ × ℕ))
      → SafeBelow n (
          add_command_data host decoders tables decode_named_payload is_request_payload
            data_elem_tree found)
  unfolding add_command_data
  add_command_data-Safe decode_named_payload is_request_payload data_elem_tree found =
      search (shows, add_named_command_payload-Safe) depth 20

  command_data_element-Safe :
      (decode_named_payload is_request_payload : Bool) (data_elem_tree : ProtoItem)
      (found : Option (ℕ × ℕ))
      → SafeBelow n (
          command_data_element host decoders tables decode_named_payload is_request_payload
            data_elem_tree found)
  unfolding command_data_element
  command_data_element-Safe decode_named_payload is_request_payload data_elem_tree found =
      search (shows, add_command_data-Safe, add_command_path_item_and_extract_ids-Safe) depth 20

  add_command_data_ib-Safe :
      (tree : ProtoItem) (decode_named_payload is_request_payload : Bool)
      → SafeBelow n
          (add_command_data_ib host decoders tables tree decode_named_payload is_request_payload)
  unfolding add_command_data_ib
  add_command_data_ib-Safe tree decode_named_payload is_request_payload =
      search (shows, command_data_element-Safe) depth 20

  pub add_command_data_ib_for_request-Safe :
      (tree : ProtoItem) → SafeBelow n (add_command_data_ib_for_request host decoders tables tree)
  unfolding add_command_data_ib_for_request
  add_command_data_ib_for_request-Safe tree = add_command_data_ib-Safe tree _ _

  add_command_data_ib_for_response-Safe :
      (tree : ProtoItem) → SafeBelow n (add_command_data_ib_for_response host decoders tables tree)
  unfolding add_command_data_ib_for_response
  add_command_data_ib_for_response-Safe tree = add_command_data_ib-Safe tree _ _

  add_command_status_ib-Safe :
      (tree : ProtoItem) → SafeBelow n (add_command_status_ib host decoders tables tree)
  unfolding add_command_status_ib
  add_command_status_ib-Safe tree =
      search (shows, add_named_path_item-Safe, add_status_ib-Safe) depth 20

  pub add_invoke_response_ib-Safe :
      (tree : ProtoItem) → SafeBelow n (add_invoke_response_ib host decoders tables tree)
  unfolding add_invoke_response_ib
  add_invoke_response_ib-Safe tree =
      search (shows, add_command_data_ib_for_response-Safe, add_command_status_ib-Safe) depth 20
