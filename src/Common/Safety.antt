-- ===== src/Common/Safety.antt =====
-- The messages of the secure channel end, and read no byte outside of the payload.
use matter_dissector.Prelude.{ℕ, List}
use matter_dissector.Tree.{ProtoItem, Host, Field}
use matter_dissector.Dissector.{Act}
use matter_dissector.Dissector.Safety.{SafeBelow, next-Safe, safe}
use matter_dissector.Dissector.Shows.{tree_call-Safe}
use matter_dissector.Im.Safety.Fields.{shows}
use matter_dissector.Common.Session.{
  context_number, expect, session_parameter, add_session_parameters, pbkdf_parameter,
  add_pbkdf_parameter_set, add_encrypted_parts, add_encrypted_field, pbkdf_param_request_element,
  pbkdf_param_response_element, pake1_element, pake2_element, pake3_element, sigma1_element,
  encrypted, sigma2_element, sigma3_element, sigma2_resume_element, walk_session,
}

module _ {n : ℕ} where
  pub context_number-Safe : SafeBelow n context_number
  unfolding context_number
  context_number-Safe = search safe depth 20

  add_encrypted_parts-Safe :
      (host : Host) (tree : ProtoItem) (offset len : ℕ)
      → SafeBelow n (add_encrypted_parts host tree offset len)
  unfolding add_encrypted_parts
  add_encrypted_parts-Safe host tree offset len = search (safe, tree_call-Safe) depth 20

  module _ (host : Host) where
    pub expect-Safe :
        (tree : ProtoItem) (type_code : ℕ) (f : Field) → SafeBelow n (expect host tree type_code f)
    unfolding expect
    expect-Safe tree type_code f = search shows depth 20

    session_parameter-Safe :
        (tree : ProtoItem) (tag : ℕ) → SafeBelow n (session_parameter host tree tag)
    unfolding session_parameter
    session_parameter-Safe tree tag = search shows depth 20

    add_session_parameters-Safe :
        (tree : ProtoItem) (f : Field) → SafeBelow n (add_session_parameters host tree f)
    unfolding add_session_parameters
    add_session_parameters-Safe tree f =
        search (shows, context_number-Safe, session_parameter-Safe) depth 20

    pbkdf_parameter-Safe :
        (tree : ProtoItem) (tag : ℕ) → SafeBelow n (pbkdf_parameter host tree tag)
    unfolding pbkdf_parameter
    pbkdf_parameter-Safe tree tag = search shows depth 20

    add_pbkdf_parameter_set-Safe :
        (tree : ProtoItem) → SafeBelow n (add_pbkdf_parameter_set host tree)
    unfolding add_pbkdf_parameter_set
    add_pbkdf_parameter_set-Safe tree =
        search (shows, context_number-Safe, pbkdf_parameter-Safe) depth 20

    add_encrypted_field-Safe :
        (tree : ProtoItem) (msg_data : List ℕ) (f : Field)
        → SafeBelow n (add_encrypted_field host tree msg_data f)
    unfolding add_encrypted_field
    add_encrypted_field-Safe tree msg_data f = search (shows, add_encrypted_parts-Safe) depth 20

    encrypted-Safe :
        (tree : ProtoItem) (msg_data : List ℕ) (f : Field)
        → SafeBelow n (encrypted host tree msg_data f)
    unfolding encrypted
    encrypted-Safe tree msg_data f = search (shows, add_encrypted_field-Safe) depth 20

    ruleset session_items = (
      shows, expect-Safe, add_session_parameters-Safe, add_pbkdf_parameter_set-Safe, encrypted-Safe,
    )

    module _ (tree : ProtoItem) (tag : ℕ) where
      pub pbkdf_param_request_element-Safe : SafeBelow n (pbkdf_param_request_element host tree tag)
      unfolding pbkdf_param_request_element
      pbkdf_param_request_element-Safe = search session_items depth 20

      pub pbkdf_param_response_element-Safe :
          SafeBelow n (pbkdf_param_response_element host tree tag)
      unfolding pbkdf_param_response_element
      pbkdf_param_response_element-Safe = search session_items depth 20

      pub pake1_element-Safe : SafeBelow n (pake1_element host tree tag)
      unfolding pake1_element
      pake1_element-Safe = search session_items depth 20

      pub pake2_element-Safe : SafeBelow n (pake2_element host tree tag)
      unfolding pake2_element
      pake2_element-Safe = search session_items depth 20

      pub pake3_element-Safe : SafeBelow n (pake3_element host tree tag)
      unfolding pake3_element
      pake3_element-Safe = search session_items depth 20

      pub sigma1_element-Safe : SafeBelow n (sigma1_element host tree tag)
      unfolding sigma1_element
      sigma1_element-Safe = search session_items depth 20

      pub sigma2_element-Safe :
          (msg_data : List ℕ) → SafeBelow n (sigma2_element host msg_data tree tag)
      unfolding sigma2_element
      sigma2_element-Safe msg_data = search session_items depth 20

      pub sigma3_element-Safe :
          (msg_data : List ℕ) → SafeBelow n (sigma3_element host msg_data tree tag)
      unfolding sigma3_element
      sigma3_element-Safe msg_data = search session_items depth 20

      pub sigma2_resume_element-Safe : SafeBelow n (sigma2_resume_element host tree tag)
      unfolding sigma2_resume_element
      sigma2_resume_element-Safe = search session_items depth 20

    pub walk_session-Safe :
        {element : ℕ → Act (Unit {0})}
        → ((tag : ℕ) → SafeBelow n (element tag))
        → SafeBelow n (walk_session host element)
    unfolding walk_session
    walk_session-Safe p = search (safe, next-Safe, context_number-Safe, p) depth 20
