-- ===== src/Udc/Fields.antt =====
-- packet-matter-udc.cpp: the variables of its fields, with the names and types that it registers.
use matter_dissector.Tree.{
  Field, registered, ft_boolean, ft_bytes, ft_none, ft_protocol, ft_string, ft_uint,
}

abbrev pub proto_udc : Field
proto_udc = registered "matter-udc" ft_protocol

abbrev pub udc_instance_name : Field
udc_instance_name = registered "matter.udc.instance_name" ft_string

abbrev pub udc_ignore_byte : Field
udc_ignore_byte = registered "matter.udc.ignore" (ft_uint 8)

abbrev pub udc_tlv_data : Field
udc_tlv_data = registered "matter.udc.tlv_data" ft_bytes

abbrev pub udc_raw_payload : Field
udc_raw_payload = registered "matter.udc.payload" ft_bytes

abbrev pub udc_vendor_id : Field
udc_vendor_id = registered "matter.udc.vendor_id" (ft_uint 16)

abbrev pub udc_product_id : Field
udc_product_id = registered "matter.udc.product_id" (ft_uint 16)

abbrev pub udc_device_name : Field
udc_device_name = registered "matter.udc.device_name" ft_string

abbrev pub udc_device_type : Field
udc_device_type = registered "matter.udc.device_type" (ft_uint 16)

abbrev pub udc_pairing_inst : Field
udc_pairing_inst = registered "matter.udc.pairing_instruction" ft_string

abbrev pub udc_pairing_hint : Field
udc_pairing_hint = registered "matter.udc.pairing_hint" (ft_uint 16)

abbrev pub udc_rotating_id : Field
udc_rotating_id = registered "matter.udc.rotating_id" ft_bytes

abbrev pub udc_cd_port : Field
udc_cd_port = registered "matter.udc.cd_port" (ft_uint 16)

abbrev pub udc_target_app_list : Field
udc_target_app_list = registered "matter.udc.target_app_list" ft_none

abbrev pub udc_target_app : Field
udc_target_app = registered "matter.udc.target_app" ft_none

abbrev pub udc_app_vendor_id : Field
udc_app_vendor_id = registered "matter.udc.target_app.vendor_id" (ft_uint 16)

abbrev pub udc_app_product_id : Field
udc_app_product_id = registered "matter.udc.target_app.product_id" (ft_uint 16)

abbrev pub udc_no_passcode : Field
udc_no_passcode = registered "matter.udc.no_passcode" ft_boolean

abbrev pub udc_cd_upon_passcode_dialog : Field
udc_cd_upon_passcode_dialog = registered "matter.udc.cd_upon_passcode_dialog" ft_boolean

abbrev pub udc_commissioner_passcode : Field
udc_commissioner_passcode = registered "matter.udc.commissioner_passcode" ft_boolean

abbrev pub udc_commissioner_passcode_ready : Field
udc_commissioner_passcode_ready = registered "matter.udc.commissioner_passcode_ready" ft_boolean

abbrev pub udc_cancel_passcode : Field
udc_cancel_passcode = registered "matter.udc.cancel_passcode" ft_boolean

abbrev pub udc_passcode_length : Field
udc_passcode_length = registered "matter.udc.passcode_length" (ft_uint 8)

abbrev pub udc_unknown_tag : Field
udc_unknown_tag = registered "matter.udc.unknown" ft_string
