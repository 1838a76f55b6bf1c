-- ===== src/Im/Dissect.antt =====
-- packet-matter-im.cpp: `DissectIM`, from the message's type and payload to what it adds to the tree. The
-- text of the packet list's column is left out.
use matter_dissector.Prelude.{ℕ, ◌-◌, ◌^◌, Option, none, some, List, [], ◌∷◌, length}
use matter_dissector.Tree.{ProtoItem, outer, made, TreeCall, add, item, proto_im, Host}
use matter_dissector.Tlv.Reader.State.{init}
use matter_dissector.Dissector.{
  TlvDissector, Run, done, stopped, faulted, crashed, unfinished, Act, init_dissector,
}
use matter_dissector.Im.Names.{NameTables}
use matter_dissector.Im.Values.{Decoders}
use matter_dissector.Im.Messages.{im_message}

-- What becomes of a call: the number that it returns with the calls that changed the tree, or an end that
-- is none.
pub data Dissected : Type 0 where
  returned : ℕ → List TreeCall → Dissected
  crash read_outside out_of_rounds : Dissected

-- `exit: return msgInfo.payloadLen;`, whatever the error was.
unfoldable pub finish : ℕ → Run (Unit {0}) → Dissected
finish payload_len (done _ d) = returned payload_len d.calls
finish payload_len (stopped _ d) = returned payload_len d.calls
finish payload_len faulted = read_outside
finish payload_len crashed = crash
finish payload_len unfinished = out_of_rounds

-- `top`, which has a length of -1.
abbrev pub top_call : TreeCall
top_call = add outer proto_im 0 (2 ^ 32 - 1) item

-- A new dissector after `Init`, behind the call for `top`.
unfoldable pub start : Host → List ℕ → TlvDissector
unfolding init_dissector init
start host payload = init_dissector payload 0 (record {
  reader = init [];
  source_buf_base_offset = 0;
  elem_start = 0;
  elem_len = 0;
  last_item = none;
  container_stack = [];
  container_stack_size = 0;
  calls = top_call ∷ [];
  accepts = host.accepts;
})

-- One of the functions of the switch, if the type is known.
unfoldable pub dissect_message : Host → Option (ProtoItem → Act (Unit {0})) → List ℕ → Dissected
unfolding finish start
dissect_message host none payload = returned 0 (top_call ∷ [])
dissect_message host (some dissect) payload =
    finish (length payload) (dissect (made 0) (start host payload))

-- `DissectIM`
unfoldable pub dissect_im : Host → Decoders → NameTables → ℕ → List ℕ → Dissected
unfolding dissect_message im_message
dissect_im host decoders tables msg_type payload =
    dissect_message host (im_message host decoders tables msg_type) payload
