-- ===== src/Packet.antt =====
-- What the dissectors of protocols do outside of TLV data: reads of the payload's buffer, items of the
-- tree at a place of the payload, and TLV data that a `TLVDissector` of their own walks. The payload's
-- buffer has exactly the payload's bytes; a read or an item outside of it is an exception of Wireshark,
-- which ends the dissection of the packet.
pub mod Safety
use matter_dissector.Prelude.{
  ℕ, ◌+◌, ◌-◌, ◌^◌, leb, Bool, if◌then◌else◌, Option, none, some, List, [], ◌∷◌, length,
}
use matter_dissector.Tree.{ProtoItem, made, Text, Field, Shown, TreeCall, Host, add, append_text}
use matter_dissector.Tlv.Reader.State.{MatterError, init}
use matter_dissector.Dissector.{
  TlvDissector, Run, done, stopped, faulted, crashed, unfinished, Act, init_dissector,
}

-- How a part of a dissector ends, with the calls on the tree so far, the last first: a result, an
-- error that goes to `exit`, an exception, a crash of a `TLVDissector`, a read outside of a TLV buffer,
-- or a loop that is out of rounds.
pub data Reply (A : Type 0) : Type 0 where
  gives : A → List TreeCall → Reply A
  exits : MatterError → List TreeCall → Reply A
  throws : List TreeCall → Reply A
  breaks reads_outside never_ends : Reply A

abbrev pub Packet : Type 0 → Type 0
Packet A = List TreeCall → Reply A

abbrev pub reply_then : {A B : Type 0} → Reply A → (A → Packet B) → Reply B
reply_then (gives a calls) f = f a calls
reply_then (exits e calls) f = exits e calls
reply_then (throws calls) f = throws calls
reply_then breaks f = breaks
reply_then reads_outside f = reads_outside
reply_then never_ends f = never_ends

infixl 5 ◌>>=◌ ◌>>◌
unfoldable pub ◌>>=◌ : {A B : Type 0} → Packet A → (A → Packet B) → Packet B
◌>>=◌ m f calls = reply_then (m calls) f

abbrev pub ◌>>◌ : {A B : Type 0} → Packet A → Packet B → Packet B
m >> k = m >>= λ _. k

unfoldable pub pure : {A : Type 0} → A → Packet A
pure a calls = gives a calls

unfoldable pub throw : {A : Type 0} → Packet A
throw calls = throws calls

-- `ExitNow(err = e)`
unfoldable pub exit_now : {A : Type 0} → MatterError → Packet A
exit_now e calls = exits e calls

-- `VerifyOrExit(b, err = e)`
unfoldable pub verify : Bool → MatterError → Packet (Unit {0})
verify b e calls = if b then gives tt calls else exits e calls

-- A read of the buffer that may throw.
unfoldable pub read : {A : Type 0} → Option A → Packet A
unfolding throw pure
read none = throw
read (some a) = pure a

-- The result of a loop that may be out of rounds.
unfoldable pub rounds : {A : Type 0} → Option A → Packet A
unfolding pure
rounds none calls = never_ends
rounds (some a) calls = pure a calls

-- A change of an item.
unfoldable pub change : TreeCall → Packet (Unit {0})
change c calls = gives tt (c ∷ calls)

-- An item that is not compared with the buffer.
unfoldable pub add_value : ProtoItem → Field → ℕ → ℕ → Shown → Packet ProtoItem
add_value tree hfindex start len shown calls =
    gives (made (length calls)) (add tree hfindex start len shown ∷ calls)

-- `proto_tree_add_item` and `proto_tree_add_bytes_item`, of a range of the payload.
unfoldable pub add_range : List ℕ → ProtoItem → Field → ℕ → ℕ → Shown → Packet ProtoItem
unfolding add_value
add_range payload tree hfindex start len shown calls =
    if leb (start + len) (length payload)
    then add_value tree hfindex start len shown calls
    else throws calls

-- `if (b) ...`
abbrev pub when : {A : Type 0} → Bool → Packet A → Packet (Unit {0})
when b m = if b then m >> pure tt else pure tt

-- A `TLVDissector` that was just constructed, after `Init` and the assignment of `ImplicitProfileId`.
unfoldable pub tlv_start : Host → List ℕ → ℕ → ℕ → List TreeCall → TlvDissector
unfolding init_dissector init
tlv_start host bytes base profile_id calls =
    let d = init_dissector bytes base (record {
      reader = init [];
      source_buf_base_offset = 0;
      elem_start = 0;
      elem_len = 0;
      last_item = none;
      container_stack = [];
      container_stack_size = 0;
      calls = calls;
      accepts = host.accepts;
    }) in
    record d { reader = record d.reader { implicit_profile_id = profile_id } }

abbrev pub reply_of : {A : Type 0} → Run A → Reply A
reply_of (done a d) = gives a d.calls
reply_of (stopped e d) = exits e d.calls
reply_of faulted = reads_outside
reply_of crashed = breaks
reply_of unfinished = never_ends

-- What a `TLVDissector` of the function's own does.
unfoldable pub with_tlv : {A : Type 0} → Host → List ℕ → ℕ → ℕ → Act A → Packet A
with_tlv host bytes base profile_id m calls =
    reply_of (m (tlv_start host bytes base profile_id calls))

abbrev pub caught : {A B : Type 0} → (A → B) → (MatterError → B) → Reply A → Reply B
caught f g (gives a calls) = gives (f a) calls
caught f g (exits e calls) = gives (g e) calls
caught f g (throws calls) = throws calls
caught f g breaks = breaks
caught f g reads_outside = reads_outside
caught f g never_ends = never_ends

-- `exit: return ...`: of a result, or of `err`.
unfoldable pub returning : {A B : Type 0} → (A → B) → (MatterError → B) → Packet A → Packet B
returning f g m calls = caught f g (m calls)
