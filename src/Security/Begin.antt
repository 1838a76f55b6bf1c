-- ===== src/Security/Begin.antt =====
-- packet-matter-security.cpp: the two messages that begin a session by CASE.
use matter_dissector.Prelude.{
  ℕ, zero, suc, ◌+◌, ◌-◌, ◌*◌, ◌%◌, ◌^◌, ◌==◌, ltb, if◌then◌else◌, Option, none, some, List, [],
  ◌∷◌, length, is_some,
}
use matter_dissector.Tree.{
  ProtoItem, parent_of, String, text, number, append_text, item, uint_format, Field,
}
use matter_dissector.Tlv.Reader.State.{message_incomplete, invalid_argument}
use matter_dissector.Dissector.{Act}
use matter_dissector.Tracker.Records.{Ptr}
use matter_dissector.Packet.{
  Packet, ◌>>=◌, ◌>>◌, pure, exit_now, verify, read, change, add_value, add_range, when, with_tlv,
}
use matter_dissector.Security.Fields.{
  case_begin_session_request_control_header, case_begin_session_request_enc_type,
  case_begin_session_request_perform_key_confirm_flag, case_begin_session_request_proposed_config,
  case_begin_session_request_proposed_curve, case_begin_session_request_proposed_session_id,
  case_begin_session_request_alt_config_list, case_begin_session_request_alt_config_list_elem,
  case_begin_session_request_alt_curve_list, case_begin_session_request_alt_curve_list_elem,
  case_begin_session_request_ecdh_public_key, case_begin_session_request_cert_info,
  case_begin_session_request_payload, case_begin_session_request_signature,
  case_begin_session_response_key_confirm_hash_length, case_begin_session_response_ecdh_public_key,
  case_begin_session_response_cert_info, case_begin_session_response_payload,
  case_begin_session_response_key_confirm_hash, case_begin_session_response_signature,
}
use matter_dissector.Security.Certificates.{
  profile_security, cert_info_element, ecdsa_sig_element, add_profile_structure,
}
use matter_dissector.Security.Case.{CaseExchangeRecord, compute_case_message_hash}
use matter_dissector.Security.State.{
  Setting, SecurityState, new_exchange, begin_exchange, respond, in_exchange,
}

abbrev pub entitle : ProtoItem → String → Packet (Unit {0})
entitle tree title = change (append_text (parent_of tree) (text title ∷ []))

-- A loop over a list of 4-byte elements.
unfoldable pub add_elements : ℕ → List ℕ → ProtoItem → Field → ℕ → Packet (Unit {0})
add_elements zero payload list_tree hfindex parse_point = pure tt
add_elements (suc count) payload list_tree hfindex parse_point =
    add_range payload list_tree hfindex parse_point 4 item
    >> add_elements count payload list_tree hfindex (parse_point + 4)

-- A list of 4-byte elements. The length of its item is that of `shown_count` elements.
unfoldable pub add_elements_list :
    List ℕ → ProtoItem → Field → Field → ℕ → ℕ → ℕ → Packet (Unit {0})
add_elements_list payload tree hf_list hf_elem parse_point shown_count count = do
  list ← add_range payload tree hf_list parse_point (shown_count * 4) item
  add_elements count payload list hf_elem parse_point
  change (append_text list (text " (" ∷ number "%d" count ∷ text ")" ∷ []))

-- The length of the hash that confirms the key, by two bits of the control header.
unfoldable pub key_confirm_hash_len : ℕ → Option ℕ
key_confirm_hash_len bits =
    if bits == 0
    then some 0
    else if bits == 0x80
    then some 20
    else if bits == 0x40
    then some 32
    else none

abbrev pub or_invalid : Option ℕ → Packet ℕ
or_invalid none = exit_now invalid_argument
or_invalid (some n) = pure n

module _ (s : Setting) where
  module _ (msg_rec : Ptr) (payload : List ℕ) (tree : ProtoItem) where
    -- `AddCertInfo` and `AddECDSASig`
    unfoldable pub add_profile_data :
        ℕ → ℕ → ℕ → Field → (ProtoItem → ℕ → Act (Unit {0})) → Packet (Unit {0})
    add_profile_data offset len tag_num hfindex element = do
      bytes ← read (s.tvb.memdup payload offset len)
      with_tlv s.host bytes offset profile_security
          (add_profile_structure s.host tree tag_num hfindex element)

    abbrev add_cert_info : ℕ → ℕ → Field → Packet (Unit {0})
    add_cert_info offset len hfindex =
        add_profile_data offset len 7 hfindex (cert_info_element s.host)

    abbrev add_ecdsa_sig : ℕ → ℕ → Field → Packet (Unit {0})
    add_ecdsa_sig offset len hfindex =
        add_profile_data offset len 8 hfindex (ecdsa_sig_element s.host)

    -- The parts behind the public key, by their lengths.
    unfoldable pub add_request_parts : ℕ → ℕ → ℕ → ℕ → Packet (Unit {0})
    add_request_parts parse_point cert_info_len payload_len sig_len = do
      when (ltb 0 cert_info_len)
          (add_cert_info parse_point cert_info_len case_begin_session_request_cert_info)
      when (ltb 0 payload_len) (
          add_range payload tree case_begin_session_request_payload (parse_point + cert_info_len)
            payload_len item)
      when (ltb 0 sig_len) (
          add_ecdsa_sig (parse_point + cert_info_len + payload_len) sig_len
            case_begin_session_request_signature)

    -- The record of a request, if it has none.
    unfoldable pub record_request :
        SecurityState s
        → (List ℕ → List ℕ → CaseExchangeRecord)
        → ℕ
        → ℕ
        → ℕ
        → ℕ
        → Packet (SecurityState s)
    record_request st exchange offset len msg_len_without_sig config =
        if is_some (st.messages.cell msg_rec).case_exchange_rec then pure st else (do
          public_key ← read (s.tvb.memdup payload offset len)
          msg_without_sig ← read (s.tvb.memdup payload 0 msg_len_without_sig)
          pure (
              begin_exchange s msg_rec
                (exchange public_key (compute_case_message_hash s.crypto msg_without_sig config))
                st))

    -- `DissectCASEBeginSessionRequest`
    unfoldable pub dissect_case_begin_session_request : SecurityState s → Packet (SecurityState s)
    dissect_case_begin_session_request st = do
      entitle tree ": CASE Begin Session Request"
      verify (ltb 18 (length payload)) message_incomplete
      control_header ← read (s.tvb.get_guint8 payload 0)
      add_range payload tree case_begin_session_request_control_header 0 1 item
      add_range payload tree case_begin_session_request_enc_type 0 1 item
      add_range payload tree case_begin_session_request_perform_key_confirm_flag 0 1 item
      alt_config_count ← read (s.tvb.get_guint8 payload 1)
      alt_curve_count ← read (s.tvb.get_guint8 payload 2)
      ecdh_public_key_len ← read (s.tvb.get_guint8 payload 3)
      cert_info_len ← read (s.tvb.get_letohs payload 4)
      payload_len ← read (s.tvb.get_letohs payload 6)
      proposed_config ← read (s.tvb.get_letohl payload 8)
      add_range payload tree case_begin_session_request_proposed_config 8 4 item
      proposed_curve_id ← read (s.tvb.get_letohl payload 12)
      add_range payload tree case_begin_session_request_proposed_curve 12 4 item
      proposed_session_id ← read (s.tvb.get_letohs payload 16)
      add_range payload tree case_begin_session_request_proposed_session_id 16 2 item
      let msg_len_without_sig =
          (18
            + alt_config_count * 4
            + alt_curve_count * 4
            + ecdh_public_key_len
            + cert_info_len
            + payload_len)
          % 2 ^ 16
      verify (ltb msg_len_without_sig (length payload)) message_incomplete
      add_elements_list payload tree case_begin_session_request_alt_config_list
          case_begin_session_request_alt_config_list_elem 18 alt_config_count alt_config_count
      let curves = 18 + alt_config_count * 4
      add_elements_list payload tree case_begin_session_request_alt_curve_list
          case_begin_session_request_alt_curve_list_elem curves alt_config_count alt_curve_count
      let ecdh_public_key_offset = curves + alt_curve_count * 4
      add_range payload tree case_begin_session_request_ecdh_public_key ecdh_public_key_offset
          ecdh_public_key_len item
      add_request_parts (ecdh_public_key_offset + ecdh_public_key_len) cert_info_len payload_len
          (length payload - msg_len_without_sig)
      record_request st
          (new_exchange s msg_rec proposed_config proposed_curve_id (control_header % 2 ^ 4)
            proposed_session_id)
          ecdh_public_key_offset ecdh_public_key_len msg_len_without_sig proposed_config

    unfoldable pub add_response_parts : ℕ → ℕ → ℕ → ℕ → ℕ → Packet (Unit {0})
    add_response_parts parse_point cert_info_len payload_len sig_len hash_len = do
      when (ltb 0 cert_info_len)
          (add_cert_info parse_point cert_info_len case_begin_session_response_cert_info)
      when (ltb 0 payload_len) (
          add_range payload tree case_begin_session_response_payload (parse_point + cert_info_len)
            payload_len item)
      when (ltb 0 sig_len) (
          add_ecdsa_sig (parse_point + cert_info_len + payload_len) sig_len
            case_begin_session_response_signature)
      when (ltb 0 hash_len) (
          add_range payload tree case_begin_session_response_key_confirm_hash
            (parse_point + cert_info_len + payload_len + sig_len) hash_len item)

    -- The record of a response, if it has none.
    unfoldable pub record_response : SecurityState s → ℕ → ℕ → Packet (SecurityState s)
    record_response st ecdh_public_key_len signed_msg_len = in_exchange s msg_rec st λ p. do
      public_key ← read (s.tvb.memdup payload 6 ecdh_public_key_len)
      signed_msg ← read (s.tvb.memdup payload 0 signed_msg_len)
      pure (respond s msg_rec p public_key signed_msg st)

    -- `DissectCASEBeginSessionResponse`
    unfoldable pub dissect_case_begin_session_response : SecurityState s → Packet (SecurityState s)
    dissect_case_begin_session_response st = do
      entitle tree ": CASE Begin Session Response"
      verify (ltb 6 (length payload)) message_incomplete
      control_header ← read (s.tvb.get_guint8 payload 0)
      let bits = control_header % 2 ^ 8 - control_header % 2 ^ 6
      hash_len ← or_invalid (key_confirm_hash_len bits)
      add_range payload tree case_begin_session_request_control_header 0 1 item
      add_value tree case_begin_session_response_key_confirm_hash_length 0 1
          (uint_format bits (number "%u" hash_len ∷ []))
      ecdh_public_key_len ← read (s.tvb.get_guint8 payload 1)
      cert_info_len ← read (s.tvb.get_letohs payload 2)
      payload_len ← read (s.tvb.get_letohs payload 4)
      let signed_msg_len = (6 + ecdh_public_key_len + cert_info_len + payload_len) % 2 ^ 16
      let msg_len_without_sig = (signed_msg_len + hash_len) % 2 ^ 16
      verify (ltb msg_len_without_sig (length payload)) message_incomplete
      add_range payload tree case_begin_session_response_ecdh_public_key 6 ecdh_public_key_len item
      add_response_parts (6 + ecdh_public_key_len) cert_info_len payload_len
          (length payload - msg_len_without_sig) hash_len
      record_response st ecdh_public_key_len signed_msg_len
