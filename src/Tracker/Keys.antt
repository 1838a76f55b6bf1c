-- ===== src/Tracker/Keys.antt =====
-- Which messages share an entry of the message id tables.
use matter_dissector.Prelude.{ℕ, ◌≡◌, ◌≢◌, Bool, true, false, arith}
use matter_dissector.Message.{get_type, is_session_key}
use matter_dissector.Tracker.Tables.{
  session_encrypted_udp, session_encrypted_tcp, get_message_id_table_and_key,
}

-- The type field of a key id has four bits, so no key id has the type of a session key.
pub is_session_key-false : (key_id : ℕ) → is_session_key key_id ≡ false
unfolding is_session_key get_type
is_session_key-false key_id = ground arith

-- The session id of a message plays no part in where its record is kept, and the tables for
-- session keys are never used: messages of different sessions that agree in source
-- node, message counter, kind of session and transport share an entry.
pub table_ignores_session :
    (src_node_id msg_id msg_enc_type s t : ℕ) (is_tcp : Bool) (tcp_stream_id : ℕ)
    → let entry =
        get_message_id_table_and_key src_node_id msg_id msg_enc_type s is_tcp tcp_stream_id in
      (entry ≡ get_message_id_table_and_key src_node_id msg_id msg_enc_type t is_tcp tcp_stream_id)
      × (entry.0 ≢ session_encrypted_udp)
      × (entry.0 ≢ session_encrypted_tcp)
unfolding get_message_id_table_and_key
table_ignores_session src_node_id msg_id msg_enc_type s t true tcp_stream_id =
    ground (arith, is_session_key-false s, is_session_key-false t)
table_ignores_session src_node_id msg_id msg_enc_type s t false tcp_stream_id =
    ground (arith, is_session_key-false s, is_session_key-false t)
