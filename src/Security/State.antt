-- ===== src/Security/State.antt =====
-- packet-matter-security.cpp: the records that the messages of an exchange share.
use matter_dissector.Prelude.{ℕ, suc, ◌==◌, if◌then◌else◌, Option, none, some, List, [], is_some}
use matter_dissector.Tree.{Host}
use matter_dissector.Wmem.{WmemTree}
use matter_dissector.Tvb.{Tvb}
use matter_dissector.Keys.{MessageEncryptionKey}
use matter_dissector.Hkdf.{Crypto}
use matter_dissector.Tracker.Records.{Ptr, Heap, update}
use matter_dissector.Packet.{Packet, ◌>>=◌, pure, rounds}
use matter_dissector.Security.Case.{
  CaseExchangeRecord, compute_case_message_hash, find_case_exchange_record,
  recover_case_session_key,
}

-- What the dissector uses of other code.
pub record Setting : Type 1 where
  pub host : Host
  pub tvb : Tvb
  pub crypto : Crypto
  pub trees : WmemTree (List MessageEncryptionKey)

-- The records that a message is kept in, and the table of keys. `cases` has the exchange records that were
-- made, at the addresses below `cases_made`.
pub record SecurityState (s : Setting) : Type 0 where
  pub messages : Heap
  pub cases_made : ℕ
  pub cases : Ptr → CaseExchangeRecord
  pub keys : s.trees.Tree

module _ (s : Setting) where
  -- The record of an exchange in place of `memset(caseExchangeRec, 0, ...)` and the assignments.
  unfoldable pub new_exchange : Ptr → ℕ → ℕ → ℕ → ℕ → List ℕ → List ℕ → CaseExchangeRecord
  new_exchange msg_rec config curve_id enc_type session_id public_key hash = record {
    begin_req_msg = some msg_rec;
    begin_resp_msg = none;
    key_confirm_msg = none;
    config = config;
    curve_id = curve_id;
    key_id = session_id;
    session_type = enc_type;
    req_ecdh_public_key = public_key;
    resp_ecdh_public_key = [];
    req_msg_hash = hash;
    resp_msg_hash = [];
    recovered_session_key = none;
  }

  -- `msgInfo.msgRec->caseExchangeRec = caseExchangeRec`, and a store to that record.
  unfoldable pub join : Ptr → Ptr → CaseExchangeRecord → SecurityState s → SecurityState s
  join msg_rec p r st = record st {
    messages = update msg_rec (λ m. record m { case_exchange_rec = some p }) st.messages;
    cases = λ q. if p == q then r else st.cases q;
  }

  -- `wmem_new` of a record, which the message joins.
  unfoldable pub begin_exchange : Ptr → CaseExchangeRecord → SecurityState s → SecurityState s
  unfolding join
  begin_exchange msg_rec r st =
      join msg_rec st.cases_made r (record st { cases_made = suc st.cases_made })

  -- What a response stores in the record before the key is looked for.
  unfoldable pub responded : Ptr → List ℕ → List ℕ → CaseExchangeRecord → CaseExchangeRecord
  responded msg_rec public_key signed_msg r = record r {
    begin_resp_msg = some msg_rec;
    resp_ecdh_public_key = public_key;
    resp_msg_hash = compute_case_message_hash s.crypto signed_msg r.config;
  }

  -- What a response does with the record, and with the key that it makes known.
  unfoldable pub respond : Ptr → Ptr → List ℕ → List ℕ → SecurityState s → SecurityState s
  unfolding join
  respond msg_rec p public_key signed_msg st =
      let recovered =
        recover_case_session_key s.crypto s.trees
          (responded msg_rec public_key signed_msg (st.cases p)) st.keys in
      join msg_rec p recovered.0 (record st { keys = recovered.1 })

  abbrev pub by_found :
      SecurityState s → (Ptr → Packet (SecurityState s)) → Option Ptr → Packet (SecurityState s)
  by_found st k none = pure st
  by_found st k (some p) = k p

  -- With the record of the exchange that a message before this one has begun, if this one has none.
  unfoldable pub in_exchange :
      Ptr → SecurityState s → (Ptr → Packet (SecurityState s)) → Packet (SecurityState s)
  in_exchange msg_rec st k =
      if is_some (st.messages.cell msg_rec).case_exchange_rec
      then pure st
      else rounds (find_case_exchange_record st.messages msg_rec) >>= by_found st k
