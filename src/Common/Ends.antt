-- ===== src/Common/Ends.antt =====
-- `DissectMatterCommon` on every payload.
use matter_dissector.Prelude.{ℕ, ◌-◌, ◌^◌, ◌<◌, List, [], length, arith, ltb}
use matter_dissector.Tree.{ProtoItem, outer, item, Host, String}
use matter_dissector.Dissector.{Act}
use matter_dissector.Dissector.Safety.{SafeBelow, next-Safe}
use matter_dissector.Im.Safety.Fields.{shows}
use matter_dissector.Im.Subscription.{associate_with_im_subscription_lem}
use matter_dissector.Tracker.Records.{Ptr, Heap}
use matter_dissector.Tracker.Chains.{Follows}
use matter_dissector.Tvb.{Tvb}
use matter_dissector.Tlv.Tags.{profile_id_not_specified}
use matter_dissector.Common.Fields.{proto_matter_common}
use matter_dissector.Packet.Safety.{
  Ends, ends_well, PacketSafe, chain, copied-Safe, length-copy, either-Safe, pure-Safe,
  add_value-Safe, returning-Safe, change-Safe, packets, with_tlv-Safe,
}
use matter_dissector.Common.Session.{dissect_session}
use matter_dissector.Common.Safety.{
  pbkdf_param_request_element-Safe, pbkdf_param_response_element-Safe, pake1_element-Safe,
  pake2_element-Safe, pake3_element-Safe, sigma1_element-Safe, sigma2_element-Safe,
  sigma3_element-Safe, sigma2_resume_element-Safe, walk_session-Safe,
}
use matter_dissector.Common.{
  associate, status_report_tlv_data, finish_status_report, dissect_status_report,
  dissect_standalone_ack, dissect_pase_pake_error, dissect_icd_check_in, common_message,
  dissect_common_message, dissect_matter_common,
}

-- The records of an exchange around one of them: those before it backwards, and those behind it.
pub record InExchange (h : Heap) (m : Ptr) : Type 0 where
  pub before : List Ptr
  pub after : List Ptr
  pub backward : Follows (λ r. r.prev_by_exchange) h (h.cell m).prev_by_exchange before
  pub forward : Follows (λ r. r.next_by_exchange) h (h.cell m).next_by_exchange after
  pub before_made : length before < h.made
  pub after_made : length after < h.made

associate-Safe :
    (tree : ProtoItem) (h : Heap) (m : Ptr) → InExchange h m → PacketSafe (associate tree m h)
unfolding associate
associate-Safe tree h m x =
    let (h', e, _) =
      associate_with_im_subscription_lem h m x.before x.after x.backward x.forward x.before_made
        x.after_made in
    record { ends = λ calls. rw e ends_well }

dissect_session-Safe :
    (host : Host) (title : String) (element : ProtoItem → ℕ → Act (Unit {0})) (tree : ProtoItem)
    (payload : List ℕ)
    → length payload < 2 ^ 16
    → ((tag : ℕ) → SafeBelow (2 ^ 32) (element tree tag))
    → PacketSafe (dissect_session host title element tree payload)
unfolding dissect_session
dissect_session-Safe host title element tree payload small p = chain (change-Safe _) λ _.
    returning-Safe _ _ (with_tlv-Safe host payload 0 0 (omega arith) (walk_session-Safe host p))

module _ (host : Host) (tvb : Tvb) (payload : List ℕ) (small : length payload < 2 ^ 16) where
  status_report_tlv_data-Safe :
      (tree : ProtoItem) → PacketSafe (status_report_tlv_data host tvb payload tree)
  unfolding status_report_tlv_data
  status_report_tlv_data-Safe tree =
      either-Safe (ltb 8 (length payload))
        (copied-Safe (tvb.memdup payload 8 (length payload - 8)) λ bytes e.
          with_tlv-Safe host bytes 8 profile_id_not_specified
            (length-copy tvb payload small 8 (length payload - 8) bytes e)
            (search (shows, next-Safe)))
        (pure-Safe tt)

  module _ (m : Ptr) (h : Heap) (x : InExchange h m) (tree : ProtoItem) where
    finish_status_report-Safe :
        (code : ℕ) → PacketSafe (finish_status_report host tvb payload tree code m h)
    unfolding finish_status_report
    finish_status_report-Safe code =
        chain (add_value-Safe _ _ _ _ _) λ i. chain (change-Safe _) λ _. associate-Safe tree h m x

    dissect_status_report-Safe : PacketSafe (dissect_status_report host tvb payload m h tree)
    unfolding dissect_status_report
    dissect_status_report-Safe =
        search (packets, status_report_tlv_data-Safe, finish_status_report-Safe) depth 20

    dissect_standalone_ack-Safe : PacketSafe (dissect_standalone_ack host tvb payload m h tree)
    unfolding dissect_standalone_ack
    dissect_standalone_ack-Safe =
        chain (change-Safe _) λ _. chain (associate-Safe tree h m x) λ h'. pure-Safe (1, h')

  module _ (tree : ProtoItem) where
    dissect_pase_pake_error-Safe : PacketSafe (dissect_pase_pake_error host tvb payload tree)
    unfolding dissect_pase_pake_error
    dissect_pase_pake_error-Safe = search packets depth 20

    dissect_icd_check_in-Safe : PacketSafe (dissect_icd_check_in host tvb payload tree)
    unfolding dissect_icd_check_in
    dissect_icd_check_in-Safe = search packets depth 20

    common_message-Safe :
        (msg_type : ℕ) → PacketSafe (common_message host tvb payload msg_type tree)
    unfolding common_message
    common_message-Safe msg_type =
        search
          (
            packets, dissect_pase_pake_error-Safe, dissect_icd_check_in-Safe, dissect_session-Safe,
            pbkdf_param_request_element-Safe, pbkdf_param_response_element-Safe, pake1_element-Safe,
            pake2_element-Safe, pake3_element-Safe, sigma1_element-Safe, sigma2_element-Safe,
            sigma3_element-Safe, sigma2_resume_element-Safe,
          )
          depth 30

  dissect_common_message-Safe :
      (msg_type : ℕ) (m : Ptr) (h : Heap) (tree : ProtoItem)
      → InExchange h m
      → PacketSafe (dissect_common_message host tvb payload msg_type m h tree)
  unfolding dissect_common_message
  dissect_common_message-Safe msg_type m h tree x =
      search (packets, dissect_status_report-Safe, dissect_standalone_ack-Safe, common_message-Safe)
        depth 20

-- `DissectMatterCommon` on a payload of fewer than 65536 bytes and any type of message, about a record
-- that is in a finite exchange, comes to an end: no read of TLV data outside of its bytes, and no loop out
-- of rounds. It returns, or an exception or
-- assertion of Wireshark, a null pointer or a copy past a block ends it.
pub dissect_matter_common-Ends :
    (host : Host) (tvb : Tvb) (payload : List ℕ) (msg_type : ℕ) (m : Ptr) (h : Heap)
    → length payload < 2 ^ 16
    → InExchange h m
    → Ends (dissect_matter_common host tvb payload msg_type m h)
unfolding dissect_matter_common
dissect_matter_common-Ends host tvb payload msg_type m h small x =
    (chain (add_value-Safe outer proto_matter_common 0 (2 ^ 32 - 1) item)
        λ tree. dissect_common_message-Safe host tvb payload small msg_type m h tree x).ends
      []
