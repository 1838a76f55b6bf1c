-- ===== src/Common.antt =====
-- packet-matter-common.cpp: the messages of the secure channel. The text of the packet list's column is
-- left out.
pub mod Fields
pub mod Session
pub mod Safety
pub mod Ends
use matter_dissector.Prelude.{
  ℕ, ◌-◌, ◌^◌, Bool, false, not, ◌==◌, ltb, leb, if◌then◌else◌, Option, none, some, List, [], ◌∷◌,
  ◌++◌, drop, length,
}
use matter_dissector.Tree.{
  ProtoItem, outer, parent_of, String, Text, text, number, append_text, item, boolean, uint_format,
  set_hidden, Host,
}
use matter_dissector.Dissector.{Act}
use matter_dissector.Dissector.Moves.{next}
use matter_dissector.Dissector.Elements
use matter_dissector.Dissector.Generic.{add_generic_tlv_item}
use matter_dissector.Tlv.Tags.{profile_id_not_specified}
use matter_dissector.Tvb.{Tvb}
use matter_dissector.Tracker.Records.{Ptr, Heap}
use matter_dissector.Im.Subscription.{associate_with_im_subscription, subscription_calls}
use matter_dissector.Names.{get_protocol_name, status_report_str}
use matter_dissector.Packet.{
  Packet, Reply, gives, never_ends, ◌>>=◌, ◌>>◌, pure, read, change, add_value, add_range, when,
  with_tlv, returning,
}
use matter_dissector.Common.Fields.{
  proto_matter_common, status_report_profile_id, status_report_status_code, status_report_tlv,
  status_report_is_error, check_in_payload, pake_error_code, pake_error_unknown_data,
}
use matter_dissector.Common.Session.{
  dissect_session, pbkdf_param_request_element, pbkdf_param_response_element, pake1_element,
  pake2_element, pake3_element, sigma1_element, sigma2_element, sigma3_element,
  sigma2_resume_element,
}

-- `kMatterProfile_General`
abbrev pub profile_general : ℕ
profile_general = 0xFFFF

abbrev associated : ProtoItem → Ptr → Option Heap → Packet Heap
associated tree msg_rec none calls = never_ends
associated tree msg_rec (some h) calls =
    gives h (subscription_calls tree (length calls) msg_rec h ++ calls)

-- `AssociateWithIMSubscription`, on the records and on the tree.
unfoldable pub associate : ProtoItem → Ptr → Heap → Packet Heap
associate tree msg_rec h = associated tree msg_rec (associate_with_im_subscription msg_rec h)

abbrev profile_text : ℕ → Option String → Text
profile_text profile_id none = number "%08X" profile_id ∷ []
profile_text profile_id (some name) =
    number "%08X" profile_id ∷ text " (" ∷ text name ∷ text ")" ∷ []

-- The names of `kPaseErrorCodeNames`.
unfoldable pub pase_error_code_name : ℕ → String
pase_error_code_name error_code =
    if error_code == 1
    then "NoSharedTrustRoots"
    else if error_code == 2
    then "InvalidParameter"
    else "Unknown"

-- `proto_item_append_text(proto_tree_get_parent(tree), title)`
abbrev entitle : ProtoItem → String → Packet (Unit {0})
entitle tree title = change (append_text (parent_of tree) (text title ∷ []))

module _ (host : Host) (tvb : Tvb) (payload : List ℕ) where
  -- The TLV data behind the codes of a status report.
  unfoldable pub status_report_tlv_data : ProtoItem → Packet (Unit {0})
  status_report_tlv_data tree =
      if ltb 8 (length payload)
      then (do
        msg_data ← read (tvb.memdup payload 8 (length payload - 8))
        with_tlv host msg_data 8 profile_id_not_specified
            (Elements.◌>>◌ next (add_generic_tlv_item host tree status_report_tlv false)))
      else pure tt

  -- `DissectStatusReport` behind the TLV data, whose error skips it.
  unfoldable pub finish_status_report : ProtoItem → ℕ → Ptr → Heap → Packet Heap
  finish_status_report tree status_code msg_rec h = do
    is_error_item ← add_value tree status_report_is_error 0 0 (boolean (not (status_code == 0)))
    change (set_hidden is_error_item)
    associate tree msg_rec h

  -- `DissectStatusReport`
  unfoldable pub dissect_status_report : Ptr → Heap → ProtoItem → Packet (ℕ × Heap)
  dissect_status_report msg_rec h tree = do
    entitle tree ": Status Report"
    general_code ← read (tvb.get_letohs payload 0)
    add_value tree status_report_status_code 0 2
        (uint_format general_code (status_report_str profile_general general_code))
    profile_id ← read (tvb.get_letohl payload 2)
    add_value tree status_report_profile_id 2 4
        (uint_format profile_id (profile_text profile_id (get_protocol_name profile_id)))
    status_code ← read (tvb.get_letohs payload 6)
    add_value tree status_report_status_code 6 2
        (uint_format status_code (status_report_str profile_id status_code))
    returning (λ h'. (length payload, h')) (λ e. (length payload, h))
        (do status_report_tlv_data tree; finish_status_report tree status_code msg_rec h)

  -- `DissectStandaloneAck`
  unfoldable pub dissect_standalone_ack : Ptr → Heap → ProtoItem → Packet (ℕ × Heap)
  dissect_standalone_ack msg_rec h tree = do
    entitle tree ": StandaloneAck"
    h' ← associate tree msg_rec h
    pure (1, h')

  -- `DissectPasePakeError`
  unfoldable pub dissect_pase_pake_error : ProtoItem → Packet ℕ
  dissect_pase_pake_error tree = do
    entitle tree ": PASE Spake2 Error"
    when (leb 1 (length payload)) (do
      error_code ← read (tvb.get_guint8 payload 0)
      add_value tree pake_error_code 0 1 (
          uint_format error_code (
            number "0x%02X" error_code
            ∷ text " ("
            ∷ text (pase_error_code_name error_code)
            ∷ text ")"
            ∷ []))
      when (ltb 1 (length payload))
          (add_range payload tree pake_error_unknown_data 1 (length payload - 1) item))
    pure (length payload)

  -- `DissectICDCheckIn`
  unfoldable pub dissect_icd_check_in : ProtoItem → Packet ℕ
  dissect_icd_check_in tree = do
    entitle tree ": ICD Check-In"
    when (ltb 0 (length payload)) (add_range payload tree check_in_payload 0 (length payload) item)
    pure (length payload)

  -- The functions that only return a number, by the type of the message.
  unfoldable pub common_message : ℕ → ProtoItem → Packet ℕ
  common_message msg_type tree =
      let session : String → (ProtoItem → ℕ → Act (Unit {0})) → Packet ℕ =
        λ title element. dissect_session host title element tree payload in
      if msg_type == 0x50
      then dissect_icd_check_in tree
      else if msg_type == 0x20
      then session ": PASE PBKDF Param Request" (pbkdf_param_request_element host)
      else if msg_type == 0x21
      then session ": PASE PBKDF Param Response" (pbkdf_param_response_element host)
      else if msg_type == 0x22
      then session ": PASE Pake1" (pake1_element host)
      else if msg_type == 0x23
      then session ": PASE Pake2" (pake2_element host)
      else if msg_type == 0x24
      then session ": PASE Pake3" (pake3_element host)
      else if msg_type == 0x2F
      then dissect_pase_pake_error tree
      else if msg_type == 0x30
      then session ": CASE Sigma1" (sigma1_element host)
      else if msg_type == 0x31
      then session ": CASE Sigma2" (sigma2_element host payload)
      else if msg_type == 0x32
      then session ": CASE Sigma3" (sigma3_element host payload)
      else if msg_type == 0x33
      then session ": CASE Sigma2 Resume" (sigma2_resume_element host)
      else pure 0

  -- The `switch` of `DissectMatterCommon`.
  unfoldable pub dissect_common_message : ℕ → Ptr → Heap → ProtoItem → Packet (ℕ × Heap)
  dissect_common_message msg_type msg_rec h tree =
      if msg_type == 0x40
      then dissect_status_report msg_rec h tree
      else if msg_type == 0x10
      then dissect_standalone_ack msg_rec h tree
      else (do n ← common_message msg_type tree; pure (n, h))

  -- `DissectMatterCommon`, from a tree without calls.
  unfoldable pub dissect_matter_common : ℕ → Ptr → Heap → Reply (ℕ × Heap)
  unfolding dissect_common_message
  dissect_matter_common msg_type msg_rec h =
      (do
        common_tree ← add_value outer proto_matter_common 0 (2 ^ 32 - 1) item
        dissect_common_message msg_type msg_rec h common_tree)
        []
