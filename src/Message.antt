-- ===== src/Message.antt =====
-- The message information of packet-matter.h and what MatterMinimal/include/Matter/Core/
-- MatterMessageLayer.h, MatterExchangeMgr.h and MatterSessionIds.h say of its fields.
pub mod KeyIds
use matter_dissector.Prelude.{ℕ, ◌/◌, ◌%◌, ◌^◌, Bool, not, ◌&&◌, ◌==◌}

-- The numeric fields of `MatterMessageInfo`. The pointers to message records are results of the
-- tracker's functions, and the texts are left out.
pub record MatterMessageInfo : Type 0 where
  pub msg_version : ℕ
  pub msg_flags : ℕ
  pub sec_flags : ℕ
  pub src_node_id : ℕ
  pub dest_node_id : ℕ
  pub msg_id : ℕ
  pub ack_msg_cntr : ℕ
  pub msg_protocol_id : ℕ
  pub msg_protocol_vendor_id : ℕ
  pub exch_id : ℕ
  pub session_type : ℕ
  pub session_id : ℕ
  pub exch_header : ℕ
  pub msg_type : ℕ
  pub msg_len : ℕ
  pub header_len : ℕ
  pub payload_len : ℕ
  pub trailer_len : ℕ

abbrev pub session_type_unicast : ℕ
session_type_unicast = 0

abbrev pub session_id_unsecured : ℕ
session_id_unsecured = 0

abbrev pub encryption_type_none : ℕ
encryption_type_none = 0

abbrev pub encryption_type_aes128_ccm : ℕ
encryption_type_aes128_ccm = 1

-- `flags & (1 << k)` as a test.
abbrev pub has_bit : ℕ → ℕ → Bool
has_bit flags k = flags / 2 ^ k % 2 == 1

-- `kMatterExchangeFlag_Initiator`, `_AckId` and `_VendorProtocol`
abbrev pub is_from_initiator : ℕ → Bool
is_from_initiator exch_header = has_bit exch_header 0

abbrev pub has_ack_id : ℕ → Bool
has_ack_id exch_header = has_bit exch_header 1

abbrev pub has_vendor_protocol : ℕ → Bool
has_vendor_protocol exch_header = has_bit exch_header 4

-- `MatterSessionId::GetType`
unfoldable pub get_type : ℕ → ℕ
get_type key_id = key_id % 2 ^ 4

abbrev pub type_session : ℕ
type_session = 0x2000

-- `MatterSessionId::IsSessionKey`
unfoldable pub is_session_key : ℕ → Bool
unfolding get_type
is_session_key key_id = get_type key_id == type_session

-- An unsecured session is a unicast session with session id 0.
unfoldable pub message_is_encrypted : MatterMessageInfo → Bool
message_is_encrypted m =
    not (m.session_type == session_type_unicast && m.session_id == session_id_unsecured)
