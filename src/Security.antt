-- ===== src/Security.antt =====
-- packet-matter-security.cpp: the messages of the security protocol. The text of the packet list's column
-- is left out.
pub mod Fields
pub mod Certificates
pub mod Case
pub mod Safety
pub mod State
pub mod Begin
pub mod Recovery
pub mod Ends
use matter_dissector.Prelude.{
  ℕ, ◌^◌, ◌==◌, leb, if◌then◌else◌, Option, none, some, List, [], ◌-◌, length,
}
use matter_dissector.Tree.{ProtoItem, outer, item, uint_format}
use matter_dissector.Tlv.Reader.State.{message_incomplete}
use matter_dissector.Names.{status_report_str}
use matter_dissector.Keys.{MessageEncryptionKey}
use matter_dissector.Tracker.Records.{Ptr}
use matter_dissector.Packet.{
  Packet, Reply, ◌>>=◌, ◌>>◌, pure, verify, read, add_value, add_range, returning,
}
use matter_dissector.Security.Fields.{
  proto_matter_security, case_begin_session_response_key_confirm_hash,
  case_reconfigure_proposed_alt_config, case_reconfigure_proposed_alt_curve,
  message_counter_sync_resp_request_message_id, key_error_session_id, key_error_enc_type,
  key_error_msg_cntr, key_error_status_code,
}
use matter_dissector.Security.Certificates.{profile_security}
use matter_dissector.Security.Case.{CaseExchangeRecord}
use matter_dissector.Security.State.{Setting, SecurityState, join, in_exchange}
use matter_dissector.Security.Begin.{
  entitle, dissect_case_begin_session_request, dissect_case_begin_session_response,
}

module _ (s : Setting) (msg_rec : Ptr) (payload : List ℕ) (tree : ProtoItem) where
  -- `DissectCASEInitiatorKeyConfirm`
  unfoldable pub dissect_case_initiator_key_confirm : SecurityState s → Packet (SecurityState s)
  dissect_case_initiator_key_confirm st = do
    entitle tree ": CASE Initiator Key Confirm"
    verify (leb 20 (length payload)) message_incomplete
    add_range payload tree case_begin_session_response_key_confirm_hash 0 (length payload) item
    in_exchange s msg_rec st
        λ p. pure (join s msg_rec p (record (st.cases p) { key_confirm_msg = some msg_rec }) st)

  -- `DissectCASEReconfigure`
  unfoldable pub dissect_case_reconfigure : Packet (Unit {0})
  dissect_case_reconfigure = do
    entitle tree ": CASE Reconfigure"
    verify (length payload == 8) message_incomplete
    add_range payload tree case_reconfigure_proposed_alt_config 0 4 item
    add_range payload tree case_reconfigure_proposed_alt_curve 4 4 item
    pure tt

  -- `DissectMessageCounterSyncResp`
  unfoldable pub dissect_message_counter_sync_resp : Packet (Unit {0})
  dissect_message_counter_sync_resp = do
    entitle tree ": Message Counter Sync Response"
    verify (length payload == 4) message_incomplete
    add_range payload tree message_counter_sync_resp_request_message_id 0 4 item
    pure tt

  -- `DissectKeyError`
  unfoldable pub dissect_key_error : Packet (Unit {0})
  dissect_key_error = do
    entitle tree ": Key Error"
    verify (length payload == 9) message_incomplete
    add_range payload tree key_error_session_id 0 2 item
    add_range payload tree key_error_enc_type 2 1 item
    add_range payload tree key_error_msg_cntr 3 4 item
    status_code ← read (s.tvb.get_letohs payload 7)
    add_value tree key_error_status_code 7 2
        (uint_format status_code (status_report_str profile_security status_code))
    pure tt

  -- The functions of the `switch`, by the type of the message. `none` is its `default`.
  unfoldable pub security_message : ℕ → SecurityState s → Option (Packet (SecurityState s))
  security_message msg_type st =
      let same : Packet (Unit {0}) → Packet (SecurityState s) = λ m. m >> pure st in
      if msg_type == 10
      then some (dissect_case_begin_session_request s msg_rec payload tree st)
      else if msg_type == 11
      then some (dissect_case_begin_session_response s msg_rec payload tree st)
      else if msg_type == 12
      then some (dissect_case_initiator_key_confirm st)
      else if msg_type == 13
      then some (same dissect_case_reconfigure)
      else if msg_type == 102
      then some (same dissect_message_counter_sync_resp)
      else if msg_type == 101
      then some (same dissect_key_error)
      else none

  -- `return msgInfo.payloadLen;`, whatever the error was, or `return 0;`
  unfoldable pub finish_security :
      SecurityState s → Option (Packet (SecurityState s)) → Packet (ℕ × SecurityState s)
  finish_security st none = pure (0, st)
  finish_security st (some m) =
      returning (λ st'. (length payload, st')) (λ e. (length payload, st)) m

-- `DissectMatterSecurity`, from a tree without calls.
unfoldable pub dissect_matter_security :
    (s : Setting) → ℕ → Ptr → List ℕ → SecurityState s → Reply (ℕ × SecurityState s)
unfolding security_message finish_security
dissect_matter_security s msg_type msg_rec payload st =
    (do
      security_tree ← add_value outer proto_matter_security 0 (2 ^ 32 - 1) item
      finish_security s msg_rec payload security_tree st
          (security_message s msg_rec payload security_tree msg_type st))
      []
