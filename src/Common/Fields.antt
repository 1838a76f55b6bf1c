-- ===== src/Common/Fields.antt =====
-- packet-matter-common.cpp: the variables of its fields, with the names and types that it registers.
use matter_dissector.Tree.{
  Field, registered, ft_boolean, ft_bytes, ft_none, ft_protocol, ft_string, ft_uint,
}

abbrev pub proto_matter_common : Field
proto_matter_common = registered "matter-common" ft_protocol

abbrev pub status_report_profile_id : Field
status_report_profile_id = registered "matter.status_report.profile_id" (ft_uint 32)

abbrev pub status_report_status_code : Field
status_report_status_code = registered "matter.status_report.status_code" (ft_uint 16)

abbrev pub status_report_tlv : Field
status_report_tlv = registered "matter.status_report.tlv" ft_string

abbrev pub status_report_is_error : Field
status_report_is_error = registered "matter.status_report.is_error" ft_boolean

abbrev pub check_in_payload : Field
check_in_payload = registered "matter.checkin.payload" ft_bytes

abbrev pub pbkdf_param_request_initiator_random : Field
pbkdf_param_request_initiator_random = registered "matter.pase.initiator_random" ft_bytes

abbrev pub pbkdf_param_request_local_session_id : Field
pbkdf_param_request_local_session_id = registered "matter.pase.local_session_id" (ft_uint 16)

abbrev pub pbkdf_param_request_passcode_id : Field
pbkdf_param_request_passcode_id = registered "matter.pase.passcode_id" (ft_uint 16)

abbrev pub pbkdf_param_request_has_pbkdf_params : Field
pbkdf_param_request_has_pbkdf_params = registered "matter.pase.has_pbkdf_params" ft_boolean

abbrev pub pbkdf_param_request_mrp_params : Field
pbkdf_param_request_mrp_params = registered "matter.pase.initiator_session_params" ft_none

abbrev pub pbkdf_param_response_responder_random : Field
pbkdf_param_response_responder_random = registered "matter.pase.responder_random" ft_bytes

abbrev pub pbkdf_param_response_responder_session_id : Field
pbkdf_param_response_responder_session_id =
    registered "matter.pase.responder_session_id" (ft_uint 16)

abbrev pub pbkdf_param_response_pbkdf_parameters : Field
pbkdf_param_response_pbkdf_parameters = registered "matter.pase.pbkdf_params" ft_none

abbrev pub pbkdf_param_response_mrp_params : Field
pbkdf_param_response_mrp_params = registered "matter.pase.responder_session_params" ft_none

abbrev pub pbkdf_param_response_pbkdf_iteration_count : Field
pbkdf_param_response_pbkdf_iteration_count =
    registered "matter.pase.pbkdf_interation_count" (ft_uint 64)

abbrev pub pbkdf_param_response_pbkdf_salt_length : Field
pbkdf_param_response_pbkdf_salt_length = registered "matter.pase.pbkdf_salt_length" (ft_uint 32)

abbrev pub pbkdf_param_response_pbkdf_salt : Field
pbkdf_param_response_pbkdf_salt = registered "matter.pase.salt" ft_bytes

abbrev pub pake1_pa : Field
pake1_pa = registered "matter.pase.pake1.pA" ft_bytes

abbrev pub pake2_p_b : Field
pake2_p_b = registered "matter.pase.pake2.pB" ft_bytes

abbrev pub pake2_c_b : Field
pake2_c_b = registered "matter.pase.pake2.cB" ft_bytes

abbrev pub pake3_c_a : Field
pake3_c_a = registered "matter.pase.pake3.cA" ft_bytes

abbrev pub pake_error_code : Field
pake_error_code = registered "matter.pase.error.code" (ft_uint 8)

abbrev pub pake_error_unknown_data : Field
pake_error_unknown_data = registered "matter.pase.error.additional_data" ft_bytes

abbrev pub session_destination_id : Field
session_destination_id = registered "matter.session.destination_id" ft_bytes

abbrev pub session_eph_public_key : Field
session_eph_public_key = registered "matter.session.eph_public_key" ft_bytes

abbrev pub session_encrypted : Field
session_encrypted = registered "matter.session.encrypted" ft_bytes

abbrev pub session_encrypted2 : Field
session_encrypted2 = registered "matter.session.encrypted2" ft_none

abbrev pub session_encrypted3 : Field
session_encrypted3 = registered "matter.session.encrypted3" ft_none

abbrev pub session_encrypted_ciphertext : Field
session_encrypted_ciphertext = registered "matter.session.encrypted.ciphertext" ft_bytes

abbrev pub session_encrypted_mic : Field
session_encrypted_mic = registered "matter.session.encrypted.mic" ft_bytes

abbrev pub session_resumption_id : Field
session_resumption_id = registered "matter.session.resumption_id" ft_bytes

abbrev pub session_resume_mic : Field
session_resume_mic = registered "matter.session.resume_mic" ft_bytes

abbrev pub session_sleepy_params : Field
session_sleepy_params = registered "matter.session.sleepy_params" ft_none

abbrev pub session_idle_retrans_timeout : Field
session_idle_retrans_timeout = registered "matter.session.idle_retrans_timeout_ms" (ft_uint 32)

abbrev pub session_active_retrans_timeout : Field
session_active_retrans_timeout = registered "matter.session.active_retrans_timeout_ms" (ft_uint 32)

abbrev pub session_active_threshold : Field
session_active_threshold = registered "matter.session.active_threshold_ms" (ft_uint 16)

abbrev pub session_data_model_revision : Field
session_data_model_revision = registered "matter.session.data_model_revision" (ft_uint 16)

abbrev pub session_interaction_model_revision : Field
session_interaction_model_revision =
    registered "matter.session.interaction_model_revision" (ft_uint 16)

abbrev pub session_specification_version : Field
session_specification_version = registered "matter.session.specification_version" (ft_uint 32)

abbrev pub session_max_paths_per_invoke : Field
session_max_paths_per_invoke = registered "matter.session.max_paths_per_invoke" (ft_uint 16)

abbrev pub session_unknown_param : Field
session_unknown_param = registered "matter.session.unknown_param" ft_string
