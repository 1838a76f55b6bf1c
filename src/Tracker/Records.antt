-- ===== src/Tracker/Records.antt =====
-- The message records on the heap, and the chains that run through them.
-- Records are never freed while a capture is open, so a pointer is an index into a heap in which
-- every record that was made stays readable. The two chains have the same code in the source, once
-- for the members `...ByMsgCntr` and once for `...ByExchange`; here the chain is an argument.
use matter_dissector.Prelude.{ℕ, zero, suc, Bool, ◌==◌, if◌then◌else◌, Option, none, some}

abbrev pub Ptr : Type 0
Ptr = ℕ

pub record MatterMessageRecord : Type 0 where
  pub frame_num : ℕ
  pub fingerprint : ℕ
  pub is_initiator : Bool
  pub im_subscription : ℕ
  pub acked_by_msg_rec : Option Ptr
  pub next_by_msg_cntr : Option Ptr
  pub prev_by_msg_cntr : Option Ptr
  pub next_by_exchange : Option Ptr
  pub prev_by_exchange : Option Ptr
  pub case_exchange_rec : Option Ptr

-- `made` records exist, at the addresses below it.
pub record Heap : Type 0 where
  pub made : ℕ
  pub cell : Ptr → MatterMessageRecord

pub data Chain : Type 0 where
  by_msg_cntr by_exchange : Chain

abbrev pub next_of : Chain → MatterMessageRecord → Option Ptr
next_of by_msg_cntr r = r.next_by_msg_cntr
next_of by_exchange r = r.next_by_exchange

abbrev pub prev_of : Chain → MatterMessageRecord → Option Ptr
prev_of by_msg_cntr r = r.prev_by_msg_cntr
prev_of by_exchange r = r.prev_by_exchange

abbrev pub set_next : Chain → Option Ptr → MatterMessageRecord → MatterMessageRecord
set_next by_msg_cntr p r = record r { next_by_msg_cntr = p }
set_next by_exchange p r = record r { next_by_exchange = p }

abbrev pub set_prev : Chain → Option Ptr → MatterMessageRecord → MatterMessageRecord
set_prev by_msg_cntr p r = record r { prev_by_msg_cntr = p }
set_prev by_exchange p r = record r { prev_by_exchange = p }

-- A store to the record at `p`.
abbrev pub update : Ptr → (MatterMessageRecord → MatterMessageRecord) → Heap → Heap
update p f h = record h { cell = λ q. if p == q then f (h.cell q) else h.cell q }

-- `memset(msgRec, 0, sizeof(*msgRec))` and the members that `FindOrCreateMessageRecord` sets.
unfoldable pub new_record : ℕ → Bool → ℕ → MatterMessageRecord
new_record frame_num is_initiator fingerprint = record {
  frame_num = frame_num;
  fingerprint = fingerprint;
  is_initiator = is_initiator;
  im_subscription = 0;
  acked_by_msg_rec = none;
  next_by_msg_cntr = none;
  prev_by_msg_cntr = none;
  next_by_exchange = none;
  prev_by_exchange = none;
  case_exchange_rec = none;
}

-- `wmem_new`, which cannot fail.
unfoldable pub allocate : MatterMessageRecord → Heap → Ptr × Heap
allocate r h =
    (h.made, record { made = suc h.made; cell = λ q. if h.made == q then r else h.cell q })

-- The loop over a chain that ends at its last record. `none` is out of fuel.
unfoldable pub last_loop : ℕ → Chain → Heap → Option Ptr → Option Ptr → Option (Option Ptr)
last_loop zero chain h p last = none
last_loop (suc fuel) chain h none last = some last
last_loop (suc fuel) chain h (some p) last =
    last_loop fuel chain h (next_of chain (h.cell p)) (some p)

-- A chain has no more records than were made, and one more round sees its end.
unfoldable pub last_in_chain : Chain → Heap → Option Ptr → Option (Option Ptr)
unfolding last_loop
last_in_chain chain h p = last_loop (suc h.made) chain h p none

-- Links a record behind the last of a chain.
unfoldable pub link : Chain → Ptr → Ptr → Heap → Heap
link chain last msg_rec h =
    update msg_rec (set_prev chain (some last)) (update last (set_next chain (some msg_rec)) h)
