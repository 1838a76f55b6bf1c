-- ===== src/Names/Statuses.antt =====
-- StatusReportStr.cpp: the formats of the statuses of each protocol. The empty format stands for none.
use matter_dissector.Prelude.{ℕ, List, [], ◌∷◌}
use matter_dissector.Tree.{String}

abbrev pub bdx_statuses : List (ℕ × String)
bdx_statuses =
    (17, "[ BDX(%08X):%u ] Overflow")
    ∷ (19, "[ BDX(%08X):%u ] Length too short")
    ∷ (31, "[ BDX(%08X):%u ] Transfer failed for unknown reason")
    ∷ (80, "[ BDX(%08X):%u ] Transfer method not supported")
    ∷ (81, "[ BDX(%08X):%u ] Unknown file")
    ∷ (82, "[ BDX(%08X):%u ] Start offset not support")
    ∷ (95, "[ BDX(%08X):%u ] Unknown error")
    ∷ []

abbrev pub general_statuses : List (ℕ × String)
general_statuses =
    (0, "[ General:%2$u ] Success")
    ∷ (1, "[ General:%2$u ] Failure")
    ∷ (2, "[ General:%2$u ] Bad Precondition")
    ∷ (3, "[ General:%2$u ] Out of Range")
    ∷ (4, "[ General:%2$u ] Bad Request")
    ∷ (5, "[ General:%2$u ] Unsupported")
    ∷ (6, "[ General:%2$u ] Unexpected")
    ∷ (7, "[ General:%2$u ] Resource Exhausted")
    ∷ (8, "[ General:%2$u ] Busy")
    ∷ (9, "[ General:%2$u ] Timeout")
    ∷ (10, "[ General:%2$u ] Continue")
    ∷ (11, "[ General:%2$u ] Aborted")
    ∷ (12, "[ General:%2$u ] Invalid Argument")
    ∷ (13, "[ General:%2$u ] Not Found")
    ∷ (14, "[ General:%2$u ] Already Exists")
    ∷ (15, "[ General:%2$u ] Permission Denied")
    ∷ (16, "[ General:%2$u ] Data Loss")
    ∷ []

abbrev pub common_statuses : List (ℕ × String)
common_statuses =
    (0, "[ Session:%2$u ] Session Establishment Success")
    ∷ (1, "[ Session:%2$u ] No Shared Trust Roots")
    ∷ (2, "[ Session:%2$u ] Invalid Parameter")
    ∷ (3, "[ Session:%2$u ] Close Session")
    ∷ (4, "[ Session:%2$u ] Busy")
    ∷ (5, "[ Session:%2$u ] Session Not Found")
    ∷ []

abbrev pub im_statuses : List (ℕ × String)
im_statuses =
    (32, "[ IM(%08X):%u ] Invalid valid in notification")
    ∷ (33, "[ IM(%08X):%u ] Invalid path")
    ∷ (34, "[ IM(%08X):%u ] Expiry time not supported")
    ∷ (35, "[ IM(%08X):%u ] Time not synchronized")
    ∷ (36, "[ IM(%08X):%u ] Request expired")
    ∷ (37, "[ IM(%08X):%u ] Version mismatch")
    ∷ (38, "[ IM(%08X):%u ] General protocol error")
    ∷ (39, "[ IM(%08X):%u ] Security error")
    ∷ (40, "[ IM(%08X):%u ] Invalid subscription ID")
    ∷ (41, "[ IM(%08X):%u ] General schema violation")
    ∷ []

abbrev pub device_control_statuses : List (ℕ × String)
device_control_statuses =
    (1, "[ DeviceControl(%08X):%u ] Fail-safe already active")
    ∷ (2, "[ DeviceControl(%08X):%u ] No fail-safe active")
    ∷ (3, "[ DeviceControl(%08X):%u ] No matching fail-safe active")
    ∷ (4, "[ DeviceControl(%08X):%u ] Unsupported fail-safe mode")
    ∷ []

abbrev pub device_description_statuses : List (ℕ × String)
device_description_statuses = []

abbrev pub echo_statuses : List (ℕ × String)
echo_statuses = []

abbrev pub fabric_provisioning_statuses : List (ℕ × String)
fabric_provisioning_statuses =
    (1, "[ FabricProvisioning(%08X):%u ] Already member of fabric")
    ∷ (2, "[ FabricProvisioning(%08X):%u ] Not member of fabric")
    ∷ (3, "[ FabricProvisioning(%08X):%u ] Invalid fabric config")
    ∷ []

abbrev pub network_provisioning_statuses : List (ℕ × String)
network_provisioning_statuses =
    (1, "[ NetworkProvisioning(%08X):%u ] Unknown network")
    ∷ (2, "[ NetworkProvisioning(%08X):%u ] Too many networks")
    ∷ (3, "[ NetworkProvisioning(%08X):%u ] Invalid network configuration")
    ∷ (4, "[ NetworkProvisioning(%08X):%u ] Unsupported network configuration")
    ∷ (5, "[ NetworkProvisioning(%08X):%u ] Unsupported WiFi mode")
    ∷ (6, "[ NetworkProvisioning(%08X):%u ] Unsupported WiFi role")
    ∷ (7, "[ NetworkProvisioning(%08X):%u ] Unsupported WiFi security type")
    ∷ (8, "[ NetworkProvisioning(%08X):%u ] Invalid state")
    ∷ (9, "[ NetworkProvisioning(%08X):%u ] Test network failed")
    ∷ []

abbrev pub security_statuses : List (ℕ × String)
security_statuses =
    (1, "[ Security(%08X):%u ] Session aborted")
    ∷ (2, "[ Security(%08X):%u ] PASE Engine only supports Config1")
    ∷ (3, "[ Security(%08X):%u ] Unsupported encryption type")
    ∷ (4, "[ Security(%08X):%u ] Invalid key id")
    ∷ (5, "[ Security(%08X):%u ] Duplicate key id")
    ∷ (6, "[ Security(%08X):%u ] Key confirmation failed")
    ∷ (7, "[ Security(%08X):%u ] Internal error")
    ∷ (8, "[ Security(%08X):%u ] Authentication failed")
    ∷ (9, "[ Security(%08X):%u ] Unsupported CASE configuration")
    ∷ (10, "[ Security(%08X):%u ] Unsupported certificate")
    ∷ (11, "[ Security(%08X):%u ] No supported PASE configurations in common")
    ∷ (12, "[ Security(%08X):%u ] Key not found")
    ∷ (13, "[ Security(%08X):%u ] Wrong encryption type")
    ∷ (14, "[ Security(%08X):%u ] Unknown key type")
    ∷ (15, "[ Security(%08X):%u ] Invalid use of session key")
    ∷ (16, "[ Security(%08X):%u ] Internal key error")
    ∷ (17, "[ Security(%08X):%u ] No common key export configuration")
    ∷ (18, "[ Security(%08X):%u ] Unauthorized key export request")
    ∷ []

abbrev pub service_provisioning_statuses : List (ℕ × String)
service_provisioning_statuses =
    (1, "[ ServiceProvisioning(%08X):%u ] Too many services")
    ∷ (2, "[ ServiceProvisioning(%08X):%u ] Service already registered")
    ∷ (3, "[ ServiceProvisioning(%08X):%u ] Invalid service configuration")
    ∷ (4, "[ ServiceProvisioning(%08X):%u ] No such service")
    ∷ (5, "[ ServiceProvisioning(%08X):%u ] Error talking to pairing server")
    ∷ (6, "[ ServiceProvisioning(%08X):%u ] Invalid pairing token")
    ∷ (7, "[ ServiceProvisioning(%08X):%u ] Pairing token no longer valid")
    ∷ (8, "[ ServiceProvisioning(%08X):%u ] Service communication error")
    ∷ (9, "[ ServiceProvisioning(%08X):%u ] Service configuration too large")
    ∷ []

abbrev pub swu_statuses : List (ℕ × String)
swu_statuses =
    (1, "[ SWU(%08X):%u ] No software update available")
    ∷ (16, "[ SWU(%08X):%u ] Software update failed")
    ∷ (80, "[ SWU(%08X):%u ] Invalid software image download instructions")
    ∷ (81, "[ SWU(%08X):%u ] Software image download failed")
    ∷ (82, "[ SWU(%08X):%u ] Software image integrity check failed")
    ∷ (83, "[ SWU(%08X):%u ] Software image query aborted")
    ∷ (145, "[ SWU(%08X):%u ] Retry software image query")
    ∷ []
