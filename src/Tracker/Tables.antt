-- ===== src/Tracker/Tables.antt =====
-- The tables of MatterMessageTracker.cpp and the records they lead to.
use matter_dissector.Prelude.{ℕ, Bool, ◌==◌, if◌then◌else◌, Option, none, some, List, [], ◌∷◌, ◌++◌}
use matter_dissector.Encoding.{◌>>=◌}
use matter_dissector.Wmem.{WmemTree, words64}
use matter_dissector.Message.{
  MatterMessageInfo, encryption_type_none, is_session_key, is_from_initiator,
}
use matter_dissector.Tracker.Records.{
  Ptr, Heap, Chain, by_msg_cntr, by_exchange, new_record, allocate, last_in_chain, link,
}

pub data TableId : Type 0 where
  unencrypted_udp session_encrypted_udp group_encrypted_udp : TableId
  unencrypted_tcp session_encrypted_tcp group_encrypted_tcp : TableId
  exchange_table : TableId

abbrev pub number : TableId → ℕ
number unencrypted_udp = 0
number session_encrypted_udp = 1
number group_encrypted_udp = 2
number unencrypted_tcp = 3
number session_encrypted_tcp = 4
number group_encrypted_tcp = 5
number exchange_table = 6

abbrev pub same_table : TableId → TableId → Bool
same_table s t = number s == number t

-- `GetMessageIdTableAndKey`. The test on `MatterSessionId::GetType` is `is_session_key`.
unfoldable pub get_message_id_table_and_key :
    (src_node_id msg_id msg_enc_type msg_session_id : ℕ) (is_tcp : Bool) (tcp_stream_id : ℕ)
    → TableId × List ℕ
unfolding is_session_key
get_message_id_table_and_key src_node_id msg_id msg_enc_type msg_session_id is_tcp tcp_stream_id =
    let key = words64 src_node_id ++ (msg_id ∷ []) in
    if is_tcp
    then (if msg_enc_type == encryption_type_none
        then (unencrypted_tcp, key ++ (tcp_stream_id ∷ []))
        else if is_session_key msg_session_id
        then (session_encrypted_tcp, key ++ (tcp_stream_id ∷ msg_session_id ∷ []))
        else (group_encrypted_tcp, key ++ (tcp_stream_id ∷ [])))
    else (if msg_enc_type == encryption_type_none
        then (unencrypted_udp, key)
        else if is_session_key msg_session_id
        then (session_encrypted_udp, key ++ (msg_session_id ∷ []))
        else (group_encrypted_udp, key))

-- The key of the exchange table.
unfoldable pub exchange_key : ℕ → ℕ → ℕ → List ℕ
exchange_key initiator_node_id resp_node_id exchange_id =
    words64 initiator_node_id ++ words64 resp_node_id ++ (exchange_id ∷ [])

-- What Wireshark says of a packet.
pub record PacketInfo : Type 0 where
  pub frame_num : ℕ
  pub is_tcp : Bool
  pub tcp_stream : ℕ

-- The key of a message in the message id tables, and in the exchange table.
unfoldable pub message_key : PacketInfo → MatterMessageInfo → TableId × List ℕ
unfolding get_message_id_table_and_key
message_key pinfo m =
    get_message_id_table_and_key m.src_node_id m.msg_id m.session_type m.session_id pinfo.is_tcp
      (if pinfo.is_tcp then pinfo.tcp_stream else 0)

unfoldable pub message_exchange_key : MatterMessageInfo → TableId × List ℕ
unfolding exchange_key
message_exchange_key m =
    let initiator = if is_from_initiator m.exch_header then m.src_node_id else m.dest_node_id in
    let resp = if is_from_initiator m.exch_header then m.dest_node_id else m.src_node_id in
    (exchange_table, exchange_key initiator resp m.exch_id)

module _ (W : WmemTree ℕ) where
  open W use {Tree, empty, lookup, insert}

  -- The tables, the protocol data by frame number, and the records. `InitTables` makes the tables
  -- before they are first used.
  pub record Tracker : Type 0 where
    pub table : TableId → Tree
    pub proto_data : Tree
    pub heap : Heap

  unfoldable pub init_tables : Heap → Tracker
  init_tables h = record { table = λ t. empty; proto_data = empty; heap = h }

  -- `GetMessagesByMessageId` and `GetMessagesByExchange`, by table and key.
  unfoldable pub get_messages : TableId × List ℕ → Tracker → Option Ptr
  get_messages (t, key) s = lookup key (s.table t)

  -- The record goes behind the last of its chain, or into the table when the chain is empty.
  unfoldable pub attach : Chain → TableId × List ℕ → Ptr → Option Ptr → Tracker → Tracker
  attach chain k msg_rec (some last_msg_rec) s = record s {
    heap = link chain last_msg_rec msg_rec s.heap;
  }
  attach chain (t, key) msg_rec none s = record s {
    table = λ u. if same_table t u then insert key msg_rec (s.table u) else s.table u;
  }

  -- `AddMessageToMessageIdTable` and `AddMessageToExchangeTable`, by chain, table and key.
  unfoldable pub add_message : Chain → TableId × List ℕ → Ptr → Tracker → Option Tracker
  unfolding attach
  add_message chain k msg_rec s = do
    last ← last_in_chain chain s.heap (get_messages k s)
    some (attach chain k msg_rec last s)

  -- `FindMessageRecord`
  unfoldable pub find_message_record : PacketInfo → Tracker → Option Ptr
  find_message_record pinfo s = lookup (pinfo.frame_num ∷ []) s.proto_data

  -- `FindOrCreateMessageRecord`, with the message's fingerprint as an argument.
  unfoldable pub create_message_record :
      PacketInfo → MatterMessageInfo → ℕ → Tracker → Option (Ptr × Tracker)
  unfolding allocate new_record message_key message_exchange_key
  create_message_record pinfo m fingerprint s =
      let (msg_rec, heap) =
        allocate (new_record pinfo.frame_num (is_from_initiator m.exch_header) fingerprint)
          s.heap in
      do
        s ← add_message by_msg_cntr (message_key pinfo m) msg_rec (record s { heap = heap })
        s ← add_message by_exchange (message_exchange_key m) msg_rec s
        some (msg_rec, record s { proto_data = insert (pinfo.frame_num ∷ []) msg_rec s.proto_data })

  unfoldable pub find_or_create_message_record :
      PacketInfo → MatterMessageInfo → ℕ → Tracker → Option (Ptr × Tracker)
  unfolding find_message_record create_message_record
  find_or_create_message_record pinfo m fingerprint s = elim (find_message_record pinfo s) [
    | some msg_rec ↦ some (msg_rec, s)
    | none ↦ create_message_record pinfo m fingerprint s
  ]
