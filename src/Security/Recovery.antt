-- ===== src/Security/Recovery.antt =====
-- The exchange's record that a message joins, and the key that its second message makes known.
use matter_dissector.Prelude.{
  ℕ, zero, suc, ◌+◌, ◌<◌, ◌≡◌, refl, true, ==_refl, Option, none, some, List, [], ◌∷◌, length, take,
  drop, leb, ◌≤◌, is_some, arith,
}
use matter_dissector.Wmem.{WmemTree}
use matter_dissector.Tvb.{Tvb}
use matter_dissector.Hkdf.{Crypto}
use matter_dissector.Keys.{MessageEncryptionKey, find_same, find_keys_by_id, add_key}
use matter_dissector.Keys.Laws.{NoRepeats, add_key_lem}
use matter_dissector.Tracker.Records.{Ptr, Heap}
use matter_dissector.Tracker.Chains.{Follows}
use matter_dissector.Security.Case.{
  CaseExchangeRecord, case_loop, find_case_exchange_record, case_session_key, shared_secret,
  derive_case_session_key, recover_case_session_key,
}
use matter_dissector.Security.State.{Setting, SecurityState, join, responded, respond, in_exchange}
use matter_dissector.Security.Begin.{record_response}
use matter_dissector.Packet.{gives, rounds, read, pure, ◌>>=◌}
use matter_dissector.Tree.{ProtoItem, TreeCall}

leb_of_le : (a b : ℕ) → a ≤ b → leb a b ≡ true
leb_of_le a b h = ground arith

-- The first exchange record of a list of messages.
abbrev pub first_case : Heap → List Ptr → Option Ptr
first_case h [] = none
first_case h (p ∷ ps) = elim (h.cell p).case_exchange_rec [
  | some r ↦ some r
  | none ↦ first_case h ps
]

case_loop_lem :
    (h : Heap) (xs : List Ptr) (fuel : ℕ) (p : Option Ptr)
    → Follows (λ r. r.prev_by_exchange) h p xs
    → length xs < fuel
    → case_loop fuel h p ≡ some (first_case h xs)
unfolding case_loop
case_loop_lem h [] zero p f l = elim l [ ]
case_loop_lem h [] (suc fuel) p f l = rw f
case_loop_lem h (x ∷ xs) zero p f l = elim l [ ]
case_loop_lem h (x ∷ xs) (suc fuel) p f l = rw f.0 (
    by_record (h.cell x).case_exchange_rec
      (case_loop_lem h xs fuel (h.cell x).prev_by_exchange f.1 (omega arith)))
  where
    by_record :
        (o : Option Ptr)
        → case_loop fuel h (h.cell x).prev_by_exchange ≡ some (first_case h xs)
        → ◌≡◌ {A = Option (Option Ptr)}
            (elim o [
              | some r ↦ some (some r)
              | none ↦ case_loop fuel h (h.cell x).prev_by_exchange
            ])
            (some (elim o [ some r ↦ some r | none ↦ first_case h xs ]))
    by_record (some r) e = refl
    by_record none e = e

-- `FindCASEExchangeRecord` terminates in an exchange, whose messages before this one stand from the last to
-- the first in `before`, and finds the first record among its own and theirs.
pub find_case_exchange_record_lem :
    (h : Heap) (m : Ptr) (before : List Ptr)
    → Follows (λ r. r.prev_by_exchange) h (h.cell m).prev_by_exchange before
    → length before < h.made
    → find_case_exchange_record h m ≡ some (first_case h (m ∷ before))
unfolding find_case_exchange_record
find_case_exchange_record_lem h m before f l =
    case_loop_lem h (m ∷ before) (suc h.made) (some m) (refl, f) (omega arith)

module _ (c : Crypto) (W : WmemTree (List MessageEncryptionKey)) (r : CaseExchangeRecord)
    (keys : W.Tree) (secret : List ℕ) (key : MessageEncryptionKey) where
  -- A key that can be derived is added, and is the record's key.
  recover_case_session_key_lem :
      shared_secret r ≡ some secret
      → case_session_key c r secret ≡ some key
      → recover_case_session_key c W r keys
        ≡ (record r { recovered_session_key = some (add_key W key keys).0 }, (add_key W key keys).1)
  unfolding recover_case_session_key derive_case_session_key
  recover_case_session_key_lem known derived =
      rw (known, derived, recover_case_session_key, derive_case_session_key) refl

module _ (s : Setting) (m p : Ptr) (public_key signed_msg : List ℕ) (st : SecurityState s)
    (secret : List ℕ) (key : MessageEncryptionKey) where
  -- A key that can be derived is found under its id, and the message has joined the exchange.
  respond_lem :
      shared_secret (responded s m public_key signed_msg (st.cases p)) ≡ some secret
      → case_session_key s.crypto (responded s m public_key signed_msg (st.cases p)) secret
        ≡ some key
      → NoRepeats (find_keys_by_id s.trees key.key_id st.keys)
      → let st' = respond s m p public_key signed_msg st in
        (is_some (find_same key (find_keys_by_id s.trees key.key_id st'.keys)) ≡ true)
        × ((st'.messages.cell m).case_exchange_rec ≡ some p)
  unfolding respond join
  respond_lem known derived n =
      rw
        (
          recover_case_session_key_lem s.crypto s.trees
              (responded s m public_key signed_msg (st.cases p)) st.keys secret key known derived,
          ==_refl m,
        )
        ((add_key_lem s.trees key st.keys (suc key.key_id) n (omega arith)).1, refl)

first_case-earlier :
    (h : Heap) (m : Ptr) (before : List Ptr)
    → (h.cell m).case_exchange_rec ≡ none
    → first_case h (m ∷ before) ≡ first_case h before
first_case-earlier h m before fresh = rw (fresh, first_case) refl

memdup_of_le :
    (tvb : Tvb) (payload : List ℕ) (offset len : ℕ)
    → offset + len ≤ length payload
    → tvb.memdup payload offset len ≡ some (take len (drop offset payload))
memdup_of_le tvb payload offset len h = rw (tvb.memdup_lem payload offset len, leb_of_le _ _ h) refl

-- A response without a record, of an exchange of finitely many messages whose request has one, with a
-- public key and signed bytes that lie in its payload, is recorded: if the session's key can be derived and
-- its id's chain in the table has no key twice, the key is found under its id afterwards, and the response
-- has joined the exchange.
pub record_response_lem :
    (s : Setting) (m p : Ptr) (payload : List ℕ) (tree : ProtoItem) (st : SecurityState s)
    (len signed_msg_len : ℕ) (before : List Ptr) (secret : List ℕ) (key : MessageEncryptionKey)
    (calls : List TreeCall)
    → (st.messages.cell m).case_exchange_rec ≡ none
    → Follows (λ r. r.prev_by_exchange) st.messages (st.messages.cell m).prev_by_exchange before
    → length before < st.messages.made
    → first_case st.messages before ≡ some p
    → 6 + len ≤ length payload
    → signed_msg_len ≤ length payload
    → shared_secret
        (responded s m (take len (drop 6 payload)) (take signed_msg_len payload) (st.cases p))
      ≡ some secret
    → case_session_key s.crypto
        (responded s m (take len (drop 6 payload)) (take signed_msg_len payload) (st.cases p))
        secret
      ≡ some key
    → NoRepeats (find_keys_by_id s.trees key.key_id st.keys)
    → (st' : SecurityState s) × (record_response s m payload tree st len signed_msg_len calls
        ≡ gives st' calls)
      × (is_some (find_same key (find_keys_by_id s.trees key.key_id st'.keys)) ≡ true)
      × ((st'.messages.cell m).case_exchange_rec ≡ some p)
unfolding record_response in_exchange rounds read pure ◌>>=◌
record_response_lem s m p payload tree st len signed_msg_len before secret key calls fresh f l first
      in_key in_msg known derived n =
    let (found, joined) =
      respond_lem s m p (take len (drop 6 payload)) (take signed_msg_len payload) st secret key
        known derived n in
    (
      respond s m p (take len (drop 6 payload)) (take signed_msg_len payload) st,
      rw
          (
            fresh,
            find_case_exchange_record_lem st.messages m before f l,
            first_case-earlier st.messages m before fresh,
            first,
            memdup_of_le s.tvb payload 6 len in_key,
            memdup_of_le s.tvb payload 0 signed_msg_len (omega (arith, in_msg)),
          )
          refl,
      found,
      joined,
    )
