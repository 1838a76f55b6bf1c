-- ===== src/Packet/Safety.antt =====
-- The parts of dissectors end and read no byte outside of a TLV buffer.
use matter_dissector.Prelude.{
  ℕ, ◌-◌, ◌^◌, ◌<◌, leb, Bool, true, false, if◌then◌else◌, Option, none, some, List, length, ◌+◌,
  ◌≡◌, refl, length-take, drop, arith,
}
use matter_dissector.Tree.{Host, ProtoItem, Field, Shown, TreeCall}
use matter_dissector.Tlv.Reader.State.{TlvReader, MatterError}
use matter_dissector.Dissector.{Run, Act}
use matter_dissector.Dissector.Safety.{SafeBelow, Keeps, keeps, gives_up, crashes}
use matter_dissector.Tvb.{Tvb}
use matter_dissector.Packet.{
  Reply, gives, exits, throws, breaks, Packet, reply_then, ◌>>=◌, pure, throw, exit_now, verify,
  read, change, add_value, add_range, tlv_start, reply_of, with_tlv, caught, returning,
}

-- A result, an error, an exception or a crash.
pub data Ends {A : Type 0} : Reply A → Type 0 where
  ends_well : {a : A} {calls : List TreeCall} → Ends (gives a calls)
  ends_in_error : {e : MatterError} {calls : List TreeCall} → Ends (exits e calls)
  ends_in_exception : {calls : List TreeCall} → Ends (throws calls)
  ends_in_crash : Ends breaks

pub record PacketSafe {A : Type 0} (m : Packet A) : Type 0 where
  pub ends : (calls : List TreeCall) → Ends (m calls)

module _ {A B : Type 0} where
  Ends-reply_then :
      {o : Reply A} (k : A → Packet B)
      → Ends o
      → ((a : A) → PacketSafe (k a))
      → Ends (reply_then o k)
  Ends-reply_then k ends_well f = (f _).ends _
  Ends-reply_then k ends_in_error f = ends_in_error
  Ends-reply_then k ends_in_exception f = ends_in_exception
  Ends-reply_then k ends_in_crash f = ends_in_crash

  pub chain :
      {m : Packet A} {k : A → Packet B}
      → PacketSafe m
      → ((a : A) → PacketSafe (k a))
      → PacketSafe (m >>= k)
  unfolding ◌>>=◌
  chain p q = record { ends = λ calls. Ends-reply_then _ (p.ends calls) q }

if_Ends : {A : Type 0} (b : Bool) {m k : Reply A} → Ends m → Ends k → Ends (if b then m else k)
if_Ends true p q = p
if_Ends false p q = q

module _ {A : Type 0} where
  pub pure-Safe : (a : A) → PacketSafe (pure a)
  unfolding pure
  pure-Safe a = record { ends = λ calls. ends_well }

  pub throw-Safe : PacketSafe (throw {A = A})
  unfolding throw
  throw-Safe = record { ends = λ calls. ends_in_exception }

  pub exit_now-Safe : (e : MatterError) → PacketSafe (exit_now {A = A} e)
  unfolding exit_now
  exit_now-Safe e = record { ends = λ calls. ends_in_error }

  pub read-Safe : (o : Option A) → PacketSafe (read o)
  unfolding read
  read-Safe none = record { ends = λ calls. ends_in_exception }
  read-Safe (some a) = record { ends = λ calls. ends_well }

  pub either-Safe :
      (b : Bool) {m k : Packet A} → PacketSafe m → PacketSafe k → PacketSafe (if b then m else k)
  either-Safe true p q = p
  either-Safe false p q = q

pub verify-Safe : (b : Bool) (e : MatterError) → PacketSafe (verify b e)
unfolding verify
verify-Safe b e = record { ends = λ calls. if_Ends b ends_well ends_in_error }

pub change-Safe : (c : TreeCall) → PacketSafe (change c)
unfolding change
change-Safe c = record { ends = λ calls. ends_well }

pub add_value-Safe :
    (tree : ProtoItem) (hfindex : Field) (start len : ℕ) (shown : Shown)
    → PacketSafe (add_value tree hfindex start len shown)
unfolding add_value
add_value-Safe tree hfindex start len shown = record { ends = λ calls. ends_well }

pub add_range-Safe :
    (payload : List ℕ) (tree : ProtoItem) (hfindex : Field) (start len : ℕ) (shown : Shown)
    → PacketSafe (add_range payload tree hfindex start len shown)
unfolding add_range
add_range-Safe payload tree hfindex start len shown = record {
  ends = λ calls. if_Ends (leb (start + len) (length payload)) ends_well ends_in_exception;
}

Keeps-Ends : {A : Type 0} {r : TlvReader} {o : Run A} → Keeps r o → Ends (reply_of o)
Keeps-Ends (keeps a) = ends_well
Keeps-Ends (gives_up a) = ends_in_error
Keeps-Ends crashes = ends_in_crash

-- TLV data of fewer than 2^32 - 1 bytes.
pub with_tlv-Safe :
    {A : Type 0} (host : Host) (bytes : List ℕ) (base profile_id : ℕ) {m : Act A}
    → length bytes < 2 ^ 32 - 1
    → SafeBelow (2 ^ 32) m
    → PacketSafe (with_tlv host bytes base profile_id m)
unfolding with_tlv tlv_start
with_tlv-Safe host bytes base profile_id h p = record {
  ends = λ calls. Keeps-Ends (
      p.runs (tlv_start host bytes base profile_id calls)
        record { fits = omega arith; bounded = omega arith } h (omega arith));
}

module _ {A B : Type 0} (f : A → B) (g : MatterError → B) where
  caught-Ends : {o : Reply A} → Ends o → Ends (caught f g o)
  caught-Ends ends_well = ends_well
  caught-Ends ends_in_error = ends_well
  caught-Ends ends_in_exception = ends_in_exception
  caught-Ends ends_in_crash = ends_in_crash

  pub returning-Safe : {m : Packet A} → PacketSafe m → PacketSafe (returning f g m)
  unfolding returning
  returning-Safe p = record { ends = λ calls. caught-Ends (p.ends calls) }

-- A copy of a range of the buffer, of which the rest may know how it was made.
pub copied-Safe :
    {A B : Type 0} (o : Option A) {k : A → Packet B}
    → ((a : A) → o ≡ some a → PacketSafe (k a))
    → PacketSafe (read o >>= k)
unfolding ◌>>=◌ read throw pure
copied-Safe none p = record { ends = λ calls. ends_in_exception }
copied-Safe (some a) p = p a refl

pub length-copy :
    (tvb : Tvb) (payload : List ℕ)
    → length payload < 2 ^ 16
    → (offset len : ℕ) (bytes : List ℕ) → tvb.memdup payload offset len ≡ some bytes
    → length bytes < 2 ^ 32 - 1
length-copy tvb payload small offset len bytes e =
    ground (arith, tvb.memdup_lem payload offset len, length-take len (drop offset payload))

-- The rules for `search`.
pub ruleset packets = (
  chain, pure-Safe, throw-Safe, exit_now-Safe, read-Safe, either-Safe, verify-Safe, change-Safe,
  add_value-Safe, add_range-Safe, returning-Safe,
)
