-- ===== src/Common/Session.antt =====
-- packet-matter-common.cpp: the messages that set up a session, by PASE and by CASE.
use matter_dissector.Prelude.{ℕ, ◌+◌, ◌-◌, ◌==◌, ltb, false, if◌then◌else◌, List, [], ◌∷◌, length}
use matter_dissector.Tree.{ProtoItem, parent_of, String, text, append_text, add, item, Field, Host}
use matter_dissector.Tlv.Types.{uint8, boolean_false, byte_string_1byte_length, structure, has_code}
use matter_dissector.Tlv.Tags.{is_context_tag, tag_num_from_tag}
use matter_dissector.Tlv.Reader.State.{
  MatterError, end_of_tlv, tlv_underrun, invalid_tlv_element, invalid_tlv_tag,
  unknown_implicit_tlv_tag, wrong_tlv_type, unexpected_tlv_element, incorrect_state,
  buffer_too_small, no_memory, invalid_argument, message_incomplete, supplier_error,
}
use matter_dissector.Tlv.Reader.Values.{get_length, get_data_ptr}
use matter_dissector.Dissector.{Act}
use matter_dissector.Dissector.Moves.{next}
use matter_dissector.Dissector.Elements.{
  ◌>>=◌, ◌>>◌, pure, fail, verify, look, reading, get_type, get_tag, inside,
}
use matter_dissector.Dissector.Items.{add_typed_item, add_sub_tree_item, tree_call}
use matter_dissector.Dissector.Generic.{add_generic_tlv_item}
use matter_dissector.Packet
use matter_dissector.Packet.{Packet, with_tlv, change, returning}
use matter_dissector.Common.Fields.{
  pbkdf_param_request_initiator_random, pbkdf_param_request_local_session_id,
  pbkdf_param_request_passcode_id, pbkdf_param_request_has_pbkdf_params,
  pbkdf_param_request_mrp_params, pbkdf_param_response_responder_random,
  pbkdf_param_response_responder_session_id, pbkdf_param_response_pbkdf_parameters,
  pbkdf_param_response_mrp_params, pbkdf_param_response_pbkdf_iteration_count,
  pbkdf_param_response_pbkdf_salt, pake1_pa, pake2_p_b, pake2_c_b, pake3_c_a,
  session_destination_id, session_eph_public_key, session_encrypted2, session_encrypted3,
  session_encrypted_ciphertext, session_encrypted_mic, session_resumption_id, session_resume_mic,
  session_sleepy_params, session_idle_retrans_timeout, session_active_retrans_timeout,
  session_active_threshold, session_data_model_revision, session_interaction_model_revision,
  session_specification_version, session_max_paths_per_invoke, session_unknown_param,
}

-- The number of an error of MatterError.h; `MATTER_NO_ERROR` is zero and none of these.
unfoldable pub error_number : MatterError → ℕ
error_number incorrect_state = 4003
error_number no_memory = 4011
error_number message_incomplete = 4013
error_number buffer_too_small = 4025
error_number end_of_tlv = 4033
error_number tlv_underrun = 4034
error_number invalid_tlv_element = 4035
error_number invalid_tlv_tag = 4036
error_number unknown_implicit_tlv_tag = 4037
error_number wrong_tlv_type = 4038
error_number unexpected_tlv_element = 4043
error_number invalid_argument = 4047
error_number (supplier_error n) = n

-- `VerifyOrExit(IsContextTag(tag), ...)` and `TagNumFromTag(tag)`
unfoldable pub context_number : Act ℕ
context_number = do
  tag ← get_tag
  verify (is_context_tag tag) unexpected_tlv_element
  pure (tag_num_from_tag tag)

module _ (host : Host) where
  -- A field whose element must have a type.
  unfoldable pub expect : ProtoItem → ℕ → Field → Act (Unit {0})
  expect tree type_code hfindex = do
    type ← get_type
    verify (has_code type type_code) unexpected_tlv_element
    add_typed_item host tree hfindex

  abbrev bytes_field : ProtoItem → Field → Act (Unit {0})
  bytes_field tree = expect tree byte_string_1byte_length

  abbrev number_field : ProtoItem → Field → Act (Unit {0})
  number_field tree = expect tree uint8

  -- An element of `AddSessionParameters`.
  unfoldable pub session_parameter : ProtoItem → ℕ → Act (Unit {0})
  session_parameter params_tree tag =
      if tag == 1
      then add_typed_item host params_tree session_idle_retrans_timeout
      else if tag == 2
      then add_typed_item host params_tree session_active_retrans_timeout
      else if tag == 3
      then add_typed_item host params_tree session_active_threshold
      else if tag == 4
      then add_typed_item host params_tree session_data_model_revision
      else if tag == 5
      then add_typed_item host params_tree session_interaction_model_revision
      else if tag == 6
      then add_typed_item host params_tree session_specification_version
      else if tag == 7
      then add_typed_item host params_tree session_max_paths_per_invoke
      else add_generic_tlv_item host params_tree session_unknown_param false

  -- `AddSessionParameters`
  unfoldable pub add_session_parameters : ProtoItem → Field → Act (Unit {0})
  add_session_parameters tree container_hf = do
    type ← get_type
    verify (has_code type structure) unexpected_tlv_element
    params_tree ← add_sub_tree_item tree container_hf
    inside host.realloc (λ _. context_number >>= session_parameter params_tree) tt

  -- An element of `AddPBKDFParameterSet`.
  unfoldable pub pbkdf_parameter : ProtoItem → ℕ → Act (Unit {0})
  pbkdf_parameter pbkdf_tree tag =
      if tag == 1
      then add_typed_item host pbkdf_tree pbkdf_param_response_pbkdf_iteration_count
      else if tag == 2
      then add_typed_item host pbkdf_tree pbkdf_param_response_pbkdf_salt
      else add_generic_tlv_item host pbkdf_tree session_unknown_param false

  -- `AddPBKDFParameterSet`
  unfoldable pub add_pbkdf_parameter_set : ProtoItem → Act (Unit {0})
  add_pbkdf_parameter_set tree = do
    type ← get_type
    verify (has_code type structure) unexpected_tlv_element
    pbkdf_tree ← add_sub_tree_item tree pbkdf_param_response_pbkdf_parameters
    inside host.realloc (λ _. context_number >>= pbkdf_parameter pbkdf_tree) tt

  -- The items of an encrypted value: what is before its last 16 bytes, and those.
  unfoldable pub add_encrypted_parts : ProtoItem → ℕ → ℕ → Act (Unit {0})
  add_encrypted_parts encrypted_tree value_offset value_len =
      if value_len == 0
      then pure tt
      else if ltb 16 value_len
      then (do
        tree_call
            (add encrypted_tree session_encrypted_ciphertext value_offset (value_len - 16) item)
        tree_call
            (add encrypted_tree session_encrypted_mic (value_offset + (value_len - 16)) 16 item))
      else tree_call (add encrypted_tree session_encrypted_mic value_offset value_len item)

  -- `AddEncryptedField`. The pointer to the value stands in the message's data, behind the bytes that
  -- are not from it on.
  unfoldable pub add_encrypted_field : ProtoItem → List ℕ → Field → Act (Unit {0})
  add_encrypted_field tree msg_data container_hf = do
    value_len ← look get_length
    encrypted_tree ← add_sub_tree_item tree container_hf
    value_ptr ← reading get_data_ptr
    add_encrypted_parts encrypted_tree (length msg_data - length value_ptr) value_len

  -- The cases of a switch that has no `default` but an error.
  abbrev unexpected : Act (Unit {0})
  unexpected = fail unexpected_tlv_element

  unfoldable pub pbkdf_param_request_element : ProtoItem → ℕ → Act (Unit {0})
  pbkdf_param_request_element tree tag =
      if tag == 1
      then bytes_field tree pbkdf_param_request_initiator_random
      else if tag == 2
      then number_field tree pbkdf_param_request_local_session_id
      else if tag == 3
      then number_field tree pbkdf_param_request_passcode_id
      else if tag == 4
      then expect tree boolean_false pbkdf_param_request_has_pbkdf_params
      else if tag == 5
      then add_session_parameters tree pbkdf_param_request_mrp_params
      else unexpected

  unfoldable pub pbkdf_param_response_element : ProtoItem → ℕ → Act (Unit {0})
  pbkdf_param_response_element tree tag =
      if tag == 1
      then bytes_field tree pbkdf_param_request_initiator_random
      else if tag == 2
      then bytes_field tree pbkdf_param_response_responder_random
      else if tag == 3
      then number_field tree pbkdf_param_response_responder_session_id
      else if tag == 4
      then add_pbkdf_parameter_set tree
      else if tag == 5
      then add_session_parameters tree pbkdf_param_response_mrp_params
      else unexpected

  unfoldable pub pake1_element : ProtoItem → ℕ → Act (Unit {0})
  pake1_element tree tag = if tag == 1 then bytes_field tree pake1_pa else unexpected

  unfoldable pub pake2_element : ProtoItem → ℕ → Act (Unit {0})
  pake2_element tree tag =
      if tag == 1
      then bytes_field tree pake2_p_b
      else if tag == 2
      then bytes_field tree pake2_c_b
      else unexpected

  unfoldable pub pake3_element : ProtoItem → ℕ → Act (Unit {0})
  pake3_element tree tag = if tag == 1 then bytes_field tree pake3_c_a else unexpected

  unfoldable pub sigma1_element : ProtoItem → ℕ → Act (Unit {0})
  sigma1_element tree tag =
      if tag == 1
      then bytes_field tree pbkdf_param_request_initiator_random
      else if tag == 2
      then number_field tree pbkdf_param_request_local_session_id
      else if tag == 3
      then bytes_field tree session_destination_id
      else if tag == 4
      then bytes_field tree session_eph_public_key
      else if tag == 5
      then add_session_parameters tree session_sleepy_params
      else if tag == 6
      then bytes_field tree session_resumption_id
      else if tag == 7
      then bytes_field tree session_resume_mic
      else unexpected

  -- `VerifyOrExit(type == kTLVType_ByteString, ...)` before `AddEncryptedField`.
  unfoldable pub encrypted : ProtoItem → List ℕ → Field → Act (Unit {0})
  encrypted tree msg_data hfindex = do
    type ← get_type
    verify (has_code type byte_string_1byte_length) unexpected_tlv_element
    add_encrypted_field tree msg_data hfindex

  unfoldable pub sigma2_element : List ℕ → ProtoItem → ℕ → Act (Unit {0})
  sigma2_element msg_data tree tag =
      if tag == 1
      then bytes_field tree pbkdf_param_response_responder_random
      else if tag == 2
      then number_field tree pbkdf_param_request_local_session_id
      else if tag == 3
      then bytes_field tree session_eph_public_key
      else if tag == 4
      then encrypted tree msg_data session_encrypted2
      else if tag == 5
      then add_session_parameters tree session_sleepy_params
      else unexpected

  unfoldable pub sigma3_element : List ℕ → ProtoItem → ℕ → Act (Unit {0})
  sigma3_element msg_data tree tag =
      if tag == 1 then encrypted tree msg_data session_encrypted3 else unexpected

  unfoldable pub sigma2_resume_element : ProtoItem → ℕ → Act (Unit {0})
  sigma2_resume_element tree tag =
      if tag == 1
      then bytes_field tree session_resumption_id
      else if tag == 2
      then bytes_field tree session_resume_mic
      else if tag == 3
      then number_field tree pbkdf_param_request_local_session_id
      else if tag == 4
      then add_session_parameters tree session_sleepy_params
      else unexpected

  -- What each of these messages does with its TLV data.
  unfoldable pub walk_session : (ℕ → Act (Unit {0})) → Act (Unit {0})
  walk_session element = next >> inside host.realloc (λ _. context_number >>= element) tt

  -- The function of a message. `return err;` gives back the error, not a length.
  unfoldable pub dissect_session :
      String → (ProtoItem → ℕ → Act (Unit {0})) → ProtoItem → List ℕ → Packet ℕ
  dissect_session title element tree payload =
      Packet.◌>>◌ (change (append_text (parent_of tree) (text title ∷ [])))
        (returning (λ _. 0) error_number (with_tlv host payload 0 0 (walk_session (element tree))))
