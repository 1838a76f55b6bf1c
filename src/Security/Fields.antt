-- ===== src/Security/Fields.antt =====
-- packet-matter-security.cpp: the variables of its fields, with the names and types that it registers.
use matter_dissector.Tree.{
  Field, registered, ft_boolean, ft_bytes, ft_none, ft_protocol, ft_string, ft_uint,
}

abbrev pub proto_matter_security : Field
proto_matter_security = registered "matter-security" ft_protocol

abbrev pub case_begin_session_request_control_header : Field
case_begin_session_request_control_header =
    registered "matter.case.begin_session_request.control_header" (ft_uint 8)

abbrev pub case_begin_session_request_enc_type : Field
case_begin_session_request_enc_type =
    registered "matter.case.begin_session_request.enc_type" (ft_uint 8)

abbrev pub case_begin_session_request_perform_key_confirm_flag : Field
case_begin_session_request_perform_key_confirm_flag =
    registered "matter.case.begin_session_request.perform_key_confirm" ft_boolean

abbrev pub case_begin_session_request_proposed_config : Field
case_begin_session_request_proposed_config =
    registered "matter.case.begin_session_request.proposed_config" (ft_uint 16)

abbrev pub case_begin_session_request_proposed_curve : Field
case_begin_session_request_proposed_curve =
    registered "matter.case.begin_session_request.proposed_curve" (ft_uint 16)

abbrev pub case_begin_session_request_proposed_session_id : Field
case_begin_session_request_proposed_session_id =
    registered "matter.case.begin_session_request.proposed_key_id" (ft_uint 16)

abbrev pub case_begin_session_request_alt_config_list : Field
case_begin_session_request_alt_config_list =
    registered "matter.case.begin_session_request.alt_config_list" ft_none

abbrev pub case_begin_session_request_alt_config_list_elem : Field
case_begin_session_request_alt_config_list_elem =
    registered "matter.case.begin_session_request.alt_config_list.config" (ft_uint 16)

abbrev pub case_begin_session_request_alt_curve_list : Field
case_begin_session_request_alt_curve_list =
    registered "matter.case.begin_session_request.alt_curve_list" ft_none

abbrev pub case_begin_session_request_alt_curve_list_elem : Field
case_begin_session_request_alt_curve_list_elem =
    registered "matter.case.begin_session_request.alt_curve_list.curve" (ft_uint 16)

abbrev pub case_begin_session_request_ecdh_public_key : Field
case_begin_session_request_ecdh_public_key =
    registered "matter.case.begin_session_request.ecdh_public_key" ft_bytes

abbrev pub case_begin_session_request_cert_info : Field
case_begin_session_request_cert_info =
    registered "matter.case.begin_session_request.cert_info" ft_none

abbrev pub case_begin_session_request_payload : Field
case_begin_session_request_payload = registered "matter.case.begin_session_request.payload" ft_bytes

abbrev pub case_begin_session_request_signature : Field
case_begin_session_request_signature =
    registered "matter.case.begin_session_request.signature" ft_none

abbrev pub ecdsa_sig_r : Field
ecdsa_sig_r = registered "matter.ecdsa_signature.r" ft_bytes

abbrev pub ecdsa_sig_s : Field
ecdsa_sig_s = registered "matter.ecdsa_signature.s" ft_bytes

abbrev pub cert_info_entity_cert : Field
cert_info_entity_cert = registered "matter.cert_info.entity_certificate" ft_none

abbrev pub cert_info_entity_cert_ref : Field
cert_info_entity_cert_ref = registered "matter.cert_info.entity_certificate_ref" ft_none

abbrev pub cert_info_related_certs_list : Field
cert_info_related_certs_list = registered "matter.cert_info.related_certificates" ft_none

abbrev pub cert_info_trust_anchors_list : Field
cert_info_trust_anchors_list = registered "matter.cert_info.trust_anchors" ft_none

abbrev pub cert : Field
cert = registered "matter.cert" ft_none

abbrev pub cert_serial_number : Field
cert_serial_number = registered "matter.cert.serial_number" ft_bytes

abbrev pub cert_issuer : Field
cert_issuer = registered "matter.cert.issuer" ft_none

abbrev pub cert_issuer_attribute : Field
cert_issuer_attribute = registered "matter.cert.issuer.attr" ft_string

abbrev pub cert_subject : Field
cert_subject = registered "matter.cert.subject" ft_none

abbrev pub cert_subject_attribute : Field
cert_subject_attribute = registered "matter.cert.subject.attr" ft_string

abbrev pub cert_not_before : Field
cert_not_before = registered "matter.cert.not_before" (ft_uint 64)

abbrev pub cert_not_after : Field
cert_not_after = registered "matter.cert.not_after" (ft_uint 64)

abbrev pub cert_public_key_algorithm : Field
cert_public_key_algorithm = registered "matter.cert.public_key_algorithm" (ft_uint 32)

abbrev pub cert_elliptic_curve_identifier : Field
cert_elliptic_curve_identifier = registered "matter.cert.curve_id" (ft_uint 32)

abbrev pub cert_elliptic_curve_public_key : Field
cert_elliptic_curve_public_key = registered "matter.cert.public_key" ft_bytes

abbrev pub cert_signature : Field
cert_signature = registered "matter.cert.signature" ft_string

abbrev pub cert_unknown : Field
cert_unknown = registered "matter.cert.unknown" ft_string

abbrev pub cert_ref : Field
cert_ref = registered "matter.cert_ref" ft_none

abbrev pub cert_ref_subject : Field
cert_ref_subject = registered "matter.cert_ref.subject" ft_none

abbrev pub cert_ref_public_session_id : Field
cert_ref_public_session_id = registered "matter.cert_ref.public_session_id" ft_bytes

abbrev pub case_begin_session_response_control_header : Field
case_begin_session_response_control_header =
    registered "matter.case.begin_session_response.control_header" (ft_uint 8)

abbrev pub case_begin_session_response_key_confirm_hash_length : Field
case_begin_session_response_key_confirm_hash_length =
    registered "matter.case.begin_session_response.key_confirm_hash_len" (ft_uint 8)

abbrev pub case_begin_session_response_ecdh_public_key : Field
case_begin_session_response_ecdh_public_key =
    registered "matter.case.begin_session_response.ecdh_public_key" ft_bytes

abbrev pub case_begin_session_response_cert_info : Field
case_begin_session_response_cert_info =
    registered "matter.case.begin_session_response.cert_info" ft_none

abbrev pub case_begin_session_response_payload : Field
case_begin_session_response_payload =
    registered "matter.case.begin_session_response.payload" ft_bytes

abbrev pub case_begin_session_response_key_confirm_hash : Field
case_begin_session_response_key_confirm_hash =
    registered "matter.case.begin_session_response.key_confirm_hash" ft_bytes

abbrev pub case_begin_session_response_signature : Field
case_begin_session_response_signature =
    registered "matter.case.begin_session_response.signature" ft_none

abbrev pub case_initiator_key_confirm_key_confirm_hash : Field
case_initiator_key_confirm_key_confirm_hash =
    registered "matter.case.initiator_key_confirm.key_confirm_hash" ft_bytes

abbrev pub case_reconfigure_proposed_alt_config : Field
case_reconfigure_proposed_alt_config =
    registered "matter.case.reconfigure.proposed_alt_config" (ft_uint 16)

abbrev pub case_reconfigure_proposed_alt_curve : Field
case_reconfigure_proposed_alt_curve =
    registered "matter.case.begin_session_request.proposed_alt_curve" (ft_uint 16)

abbrev pub message_counter_sync_resp_request_message_id : Field
message_counter_sync_resp_request_message_id =
    registered "matter.message_counter_sync_response.request_message_id" (ft_uint 32)

abbrev pub key_error_session_id : Field
key_error_session_id = registered "matter.key_error.key_id" (ft_uint 16)

abbrev pub key_error_enc_type : Field
key_error_enc_type = registered "matter.key_error.enc_type" (ft_uint 8)

abbrev pub key_error_msg_cntr : Field
key_error_msg_cntr = registered "matter.key_error.message_id" (ft_uint 32)

abbrev pub key_error_status_code : Field
key_error_status_code = registered "matter.key_error.status_code" (ft_uint 16)
