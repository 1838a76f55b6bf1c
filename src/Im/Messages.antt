-- ===== src/Im/Messages.antt =====
-- packet-matter-im.cpp: the ten messages and `DissectIM`. An `hf_entry` of -1 is `none` where the code
-- tests for it, and the field `unregistered` where it does not.
use matter_dissector.Prelude.{
  ℕ, Bool, true, false, ◌==◌, ◌||◌, if◌then◌else◌, Option, none, some, [], ◌∷◌,
}
use matter_dissector.Tree.{
  ProtoItem, parent_of, String, text, append_text, Host, Field, unregistered, im_common_version,
  im_common_unknown, timed_request_timeout_ms, status_response_status,
  read_request_attribute_requests, read_request_event_requests, read_request_event_filters,
  read_request_is_fabric_filtered, read_request_data_version_filters, report_data_subscription_id,
  report_data_attribute_reports, report_data_event_reports, report_data_more_chunked_messages,
  report_data_suppress_response, write_request_suppress_response, write_request_timed_request,
  write_request_write_requests, write_request_more_chunked_messages, write_response_write_responses,
  subscribe_request_keep_subscriptions, subscribe_request_min_interval_floor,
  subscribe_request_max_interval_ceiling, subscribe_request_attribute_requests,
  subscribe_request_event_requests, subscribe_request_event_filters,
  subscribe_request_is_fabric_filtered, subscribe_request_data_version_filters,
  subscribe_response_subscription_id, subscribe_response_max_interval,
  command_request_suppress_response, command_request_timed_request, command_request_command_list,
  command_response_suppress_response, command_response_invoke_responses_detail,
}
use matter_dissector.Tlv.Types.{code, array, path, structure, boolean_false, has_code}
use matter_dissector.Tlv.Tags.{anonymous_tag}
use matter_dissector.Tlv.Reader.State.{unexpected_tlv_element}
use matter_dissector.Dissector.{Act}
use matter_dissector.Dissector.Moves.{next_expected}
use matter_dissector.Dissector.Elements.{
  ◌>>=◌, ◌>>◌, pure, fail, verify, get_type, by_context_tag, inside,
}
use matter_dissector.Dissector.Items.{add_typed_item, tree_call}
use matter_dissector.Dissector.Generic.{add_generic_tlv_item}
use matter_dissector.Dissector.Lists.{add_list_item}
use matter_dissector.Im.Names.{NameTables}
use matter_dissector.Im.Paths.{add_attribute_path_item, add_event_path_item}
use matter_dissector.Im.Values.{Decoders}
use matter_dissector.Im.Fields.{add_event_filter_ib_item, add_data_version_filter_ib_item}
use matter_dissector.Im.Reports.{
  add_attribute_data_ib_item, add_attribute_status_ib_item, add_attribute_report_ib_item,
}
use matter_dissector.Im.Events.{add_event_report_ib_item}
use matter_dissector.Im.Commands.{add_command_data_ib_for_request, add_invoke_response_ib}

-- `kTag_InteractionModelRevision`
abbrev revision_tag : ℕ
revision_tag = 0xFF

-- An element that is shown by its tag: the entry that it is shown at, or a list of its own.
pub data Entry : Type 0 where
  entry : Field → Entry
  list : Field → (ProtoItem → Act (Unit {0})) → Entry

-- The `default` of the switches on the tag, with the revision.
abbrev common_entry : ℕ → Entry
common_entry tag = if tag == revision_tag then entry im_common_version else entry im_common_unknown

module _ (host : Host) (decoders : Decoders) (tables : NameTables) where
  unfoldable pub read_request_entry : ℕ → Entry
  read_request_entry tag =
      if tag == 0
      then list read_request_attribute_requests (add_attribute_path_item tables host)
      else if tag == 1
      then list read_request_event_requests (add_event_path_item tables host)
      else if tag == 2
      then list read_request_event_filters (add_event_filter_ib_item host)
      else if tag == 3
      then entry read_request_is_fabric_filtered
      else if tag == 4
      then list read_request_data_version_filters (add_data_version_filter_ib_item host tables)
      else common_entry tag

  unfoldable pub report_data_entry : ℕ → Entry
  report_data_entry tag =
      if tag == 0
      then entry report_data_subscription_id
      else if tag == 1
      then list report_data_attribute_reports (add_attribute_report_ib_item host decoders tables)
      else if tag == 2
      then list report_data_event_reports (add_event_report_ib_item host decoders tables)
      else if tag == 3
      then entry report_data_more_chunked_messages
      else if tag == 4
      then entry report_data_suppress_response
      else common_entry tag

  unfoldable pub subscribe_request_entry : ℕ → Entry
  subscribe_request_entry tag =
      if tag == 0
      then entry subscribe_request_keep_subscriptions
      else if tag == 1
      then entry subscribe_request_min_interval_floor
      else if tag == 2
      then entry subscribe_request_max_interval_ceiling
      else if tag == 3
      then list subscribe_request_attribute_requests (add_attribute_path_item tables host)
      else if tag == 4
      then list subscribe_request_event_requests (add_event_path_item tables host)
      else if tag == 5
      then list subscribe_request_event_filters (add_event_filter_ib_item host)
      else if tag == 7
      then entry subscribe_request_is_fabric_filtered
      else if tag == 8
      then list subscribe_request_data_version_filters (add_data_version_filter_ib_item host tables)
      else common_entry tag

  unfoldable pub subscribe_response_entry : ℕ → Entry
  subscribe_response_entry tag =
      if tag == 0
      then entry subscribe_response_subscription_id
      else if tag == 2
      then entry subscribe_response_max_interval
      else common_entry tag

  unfoldable pub status_response_entry : ℕ → Entry
  status_response_entry tag = if tag == 0 then entry status_response_status else common_entry tag

  unfoldable pub write_request_entry : ℕ → Entry
  write_request_entry tag =
      if tag == 0
      then entry write_request_suppress_response
      else if tag == 1
      then entry write_request_timed_request
      else if tag == 2
      then list write_request_write_requests (add_attribute_data_ib_item host decoders tables)
      else if tag == 3
      then entry write_request_more_chunked_messages
      else common_entry tag

  unfoldable pub write_response_entry : ℕ → Entry
  write_response_entry tag =
      if tag == 0
      then list write_response_write_responses (add_attribute_status_ib_item host decoders tables)
      else common_entry tag

  -- What a round does with an entry: a list is walked if the element is an array or a path. The flag is
  -- that the code tests `hf_entry != -1` before it shows the element.
  unfoldable pub add_entry : Bool → ProtoItem → Entry → Act (Unit {0})
  add_entry tested tree (entry hf_entry) = add_generic_tlv_item host tree hf_entry false
  add_entry tested tree (list hf_entry handler) = do
    type ← get_type
    if has_code type array || has_code type path
        then (do
          add_list_item host tree hf_entry handler
          if tested then pure tt else add_generic_tlv_item host tree unregistered false)
        else add_generic_tlv_item host tree hf_entry false

  -- What the messages share: the anonymous structure, and the loop over its elements, which all have
  -- context tags.
  unfoldable pub dissect_structure :
      String → (ProtoItem → ℕ → Act (Unit {0})) → ProtoItem → Act (Unit {0})
  dissect_structure title element tree = do
    tree_call (append_text (parent_of tree) (text title ∷ []))
    next_expected (code structure) anonymous_tag
    inside host.realloc (λ _. by_context_tag (element tree) (fail unexpected_tlv_element)) tt

  unfoldable pub dissect_im_status_response : ProtoItem → Act (Unit {0})
  dissect_im_status_response =
      dissect_structure ": Status Report"
        λ tree tag. add_entry true tree (status_response_entry tag)

  unfoldable pub dissect_im_read_request : ProtoItem → Act (Unit {0})
  dissect_im_read_request =
      dissect_structure ": Read Request" λ tree tag. add_entry true tree (read_request_entry tag)

  unfoldable pub dissect_im_report_data : ProtoItem → Act (Unit {0})
  dissect_im_report_data =
      dissect_structure ": Report Data" λ tree tag. add_entry true tree (report_data_entry tag)

  unfoldable pub dissect_im_subscribe_request : ProtoItem → Act (Unit {0})
  dissect_im_subscribe_request =
      dissect_structure ": Subscribe Request"
        λ tree tag. add_entry true tree (subscribe_request_entry tag)

  unfoldable pub dissect_im_subscribe_response : ProtoItem → Act (Unit {0})
  dissect_im_subscribe_response =
      dissect_structure ": Subscribe Response"
        λ tree tag. add_entry true tree (subscribe_response_entry tag)

  unfoldable pub dissect_im_write_request : ProtoItem → Act (Unit {0})
  dissect_im_write_request =
      dissect_structure ": Write Request" λ tree tag. add_entry false tree (write_request_entry tag)

  unfoldable pub dissect_im_write_response : ProtoItem → Act (Unit {0})
  dissect_im_write_response =
      dissect_structure ": Write Response"
        λ tree tag. add_entry false tree (write_response_entry tag)

  unfoldable pub dissect_im_command_request : ProtoItem → Act (Unit {0})
  dissect_im_command_request = dissect_structure ": Invoke Command Request" λ tree tag. do
    type ← get_type
    if tag == 0
        then (do
          verify (has_code type boolean_false) unexpected_tlv_element
          add_typed_item host tree command_request_suppress_response)
        else if tag == 1
        then (do
          verify (has_code type boolean_false) unexpected_tlv_element
          add_typed_item host tree command_request_timed_request)
        else if tag == 2
        then (do
          verify (has_code type array) unexpected_tlv_element
          add_list_item host tree command_request_command_list
              (add_command_data_ib_for_request host decoders tables))
        else add_entry true tree (common_entry tag)

  unfoldable pub dissect_im_command_response : ProtoItem → Act (Unit {0})
  dissect_im_command_response = dissect_structure ": Invoke Command Response" λ tree tag. do
    type ← get_type
    if tag == 0
        then add_generic_tlv_item host tree command_response_suppress_response false
        else if tag == 1
        then (do
          verify (has_code type array) unexpected_tlv_element
          add_list_item host tree command_response_invoke_responses_detail
              (add_invoke_response_ib host decoders tables))
        else add_entry true tree (common_entry tag)

  unfoldable pub dissect_im_timed_request : ProtoItem → Act (Unit {0})
  dissect_im_timed_request = dissect_structure ": Timed Request" λ tree tag.
      if tag == 0
      then add_typed_item host tree timed_request_timeout_ms
      else add_entry true tree (common_entry tag)

  -- The switch of `DissectIM` on the message's type.
  unfoldable pub im_message : ℕ → Option (ProtoItem → Act (Unit {0}))
  im_message msg_type =
      if msg_type == 0x01
      then some dissect_im_status_response
      else if msg_type == 0x02
      then some dissect_im_read_request
      else if msg_type == 0x05
      then some dissect_im_report_data
      else if msg_type == 0x03
      then some dissect_im_subscribe_request
      else if msg_type == 0x04
      then some dissect_im_subscribe_response
      else if msg_type == 0x06
      then some dissect_im_write_request
      else if msg_type == 0x07
      then some dissect_im_write_response
      else if msg_type == 0x08
      then some dissect_im_command_request
      else if msg_type == 0x09
      then some dissect_im_command_response
      else if msg_type == 0x0A
      then some dissect_im_timed_request
      else none
