-- ===== src/Tracker/Message.antt =====
-- What `DissectMatter` (packet-matter.cpp) asks the tracker about a message, and the filter for the
-- messages of its exchange.
use matter_dissector.Prelude.{ℕ, not, Option, some}
use matter_dissector.Encoding.{◌>>=◌}
use matter_dissector.Wmem.{WmemTree}
use matter_dissector.Message.{MatterMessageInfo}
use matter_dissector.Tracker.Records.{Ptr}
use matter_dissector.Tracker.Tables.{
  PacketInfo, Tracker, find_message_record, find_or_create_message_record,
}
use matter_dissector.Tracker.Find.{
  Retransmissions, find_retransmissions, find_reused_message_ids, find_acked_messages,
  find_start_of_exchange,
}

-- The pointers and counts of `MatterMessageInfo` that come from the tracker.
pub record Tracked : Type 0 where
  pub msg_rec : Ptr
  pub exchange_start_msg : Ptr
  pub retransmissions : Retransmissions
  pub reuses_msg_cntr_from : Option Ptr
  pub acked_msg : Option Ptr

module _ (W : WmemTree ℕ) where
  unfoldable pub track_message :
      PacketInfo → MatterMessageInfo → ℕ → Tracker W → Option (Tracked × Tracker W)
  unfolding find_or_create_message_record find_start_of_exchange find_retransmissions
      find_reused_message_ids find_acked_messages
  track_message pinfo m fingerprint s = do
    (msg_rec, s) ← find_or_create_message_record W pinfo m fingerprint s
    start ← find_start_of_exchange msg_rec s.heap
    retransmissions ← find_retransmissions msg_rec s.heap
    reused ← find_reused_message_ids msg_rec s.heap
    (s, acked) ← find_acked_messages W (not pinfo.is_tcp) msg_rec m s
    some (
      record {
        msg_rec = msg_rec;
        exchange_start_msg = start;
        retransmissions = retransmissions;
        reuses_msg_cntr_from = reused;
        acked_msg = acked;
      },
      s,
    )

  -- The frame number in the filter that `MatterExchangeFilter_BuildFilterString` makes. It is called only
  -- for a packet with a record.
  unfoldable pub exchange_filter_frame : PacketInfo → Tracker W → Option ℕ
  unfolding find_message_record find_start_of_exchange
  exchange_filter_frame pinfo s = do
    msg_rec ← find_message_record W pinfo s
    start ← find_start_of_exchange msg_rec s.heap
    some (s.heap.cell start).frame_num
