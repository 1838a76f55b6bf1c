-- ===== src/Names.antt =====
-- MatterNames.cpp and StatusReportStr.cpp: the names of vendors, protocols and messages, and the text of
-- a status. A `switch` is a table of its cases.
pub mod Messages
pub mod Statuses
pub mod Laws
use matter_dissector.Prelude.{ℕ, ◌==◌, if◌then◌else◌, Option, none, some, List, [], ◌∷◌}
use matter_dissector.Tree.{String, Text, numbers}
use matter_dissector.Names.Messages.{
  common_messages, interaction_model_messages, echo_messages, network_provisioning_messages,
  security_messages, fabric_provisioning_messages, device_control_messages, time_messages,
  swu_messages, bdx_messages, device_description_messages, service_provisioning_messages,
}
use matter_dissector.Names.Statuses.{
  bdx_statuses, general_statuses, common_statuses, im_statuses, device_control_statuses,
  device_description_statuses, echo_statuses, fabric_provisioning_statuses,
  network_provisioning_statuses, security_statuses, service_provisioning_statuses, swu_statuses,
}

-- The case of a value.
unfoldable pub case_of : List (ℕ × String) → ℕ → Option String
case_of [] value = none
case_of ((v, s) ∷ cases) value = if value == v then some s else case_of cases value

abbrev pub vendors : List (ℕ × String)
vendors = (0, "Common") ∷ (9050, "Nest") ∷ []

abbrev pub protocols : List (ℕ × String)
protocols =
    (0, "SecureChannel")
    ∷ (1, "IM")
    ∷ (2, "BDX (Bulk Data Exchange)")
    ∷ (3, "UDC (User Directed Commissioning)")
    ∷ (4, "Echo")
    ∷ (4100, "Security")
    ∷ (5, "FabricProvisioning")
    ∷ (6, "DeviceControl")
    ∷ (7, "Time")
    ∷ (11, "IM")
    ∷ (12, "SWU")
    ∷ (14, "DeviceDescription")
    ∷ (15, "ServiceProvisioning")
    ∷ (17, "Locale")
    ∷ (33, "DictionaryKey")
    ∷ []

unfoldable pub get_vendor_name : ℕ → Option String
unfolding case_of
get_vendor_name vendor_id = case_of vendors vendor_id

unfoldable pub get_protocol_name : ℕ → Option String
unfolding case_of
get_protocol_name profile_id = case_of protocols profile_id

-- The cases of the outer `switch`.
unfoldable pub messages_of : ℕ → List (ℕ × String)
messages_of profile_id =
    if profile_id == 0
    then common_messages
    else if profile_id == 1
    then interaction_model_messages
    else if profile_id == 4
    then echo_messages
    else if profile_id == 3
    then network_provisioning_messages
    else if profile_id == 4100
    then security_messages
    else if profile_id == 5
    then fabric_provisioning_messages
    else if profile_id == 6
    then device_control_messages
    else if profile_id == 7
    then time_messages
    else if profile_id == 12
    then swu_messages
    else if profile_id == 2
    then bdx_messages
    else if profile_id == 14
    then device_description_messages
    else if profile_id == 15
    then service_provisioning_messages
    else []

unfoldable pub get_message_name : ℕ → ℕ → Option String
unfolding messages_of case_of
get_message_name profile_id msg_type = case_of (messages_of profile_id) msg_type

abbrev pub default_to : Option String → String → String
default_to none s = s
default_to (some t) s = t

-- `fmt` after the `switch`.
unfoldable pub status_format : ℕ → ℕ → String
unfolding case_of
status_format profile_id status_code =
    if profile_id == 2
    then default_to (case_of bdx_statuses status_code) "[ BDX(%08X):%u ]"
    else if profile_id == 65535
    then default_to (case_of general_statuses status_code) "[ General:%2$u ]"
    else if profile_id == 0
    then default_to (case_of common_statuses status_code) "[ Session:%2$u ]"
    else if profile_id == 11
    then default_to (case_of im_statuses status_code) "[ IM(%08X):%u ]"
    else if profile_id == 6
    then default_to (case_of device_control_statuses status_code) "[ DeviceControl(%08X):%u ]"
    else if profile_id == 14
    then default_to (case_of device_description_statuses status_code)
        "[ DeviceDescription(%08X):%u ]"
    else if profile_id == 4
    then default_to (case_of echo_statuses status_code) "[ Echo(%08X):%u ]"
    else if profile_id == 5
    then default_to (case_of fabric_provisioning_statuses status_code)
        "[ FabricProvisioning(%08X):%u ]"
    else if profile_id == 3
    then default_to (case_of network_provisioning_statuses status_code)
        "[ NetworkProvisioning(%08X):%u ]"
    else if profile_id == 4100
    then default_to (case_of security_statuses status_code) "[ Security(%08X):%u ]"
    else if profile_id == 15
    then default_to (case_of service_provisioning_statuses status_code)
        "[ ServiceProvisioning(%08X):%u ]"
    else if profile_id == 12
    then default_to (case_of swu_statuses status_code) "[ SWU(%08X):%u ]"
    else "[ %08X:%u ]"

-- `StatusReportStr`, which is built with the long texts.
unfoldable pub status_report_str : ℕ → ℕ → Text
unfolding status_format
status_report_str profile_id status_code =
    numbers (status_format profile_id status_code) profile_id status_code ∷ []
