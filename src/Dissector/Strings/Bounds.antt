-- ===== src/Dissector/Strings/Bounds.antt =====
-- The bytes of a string are read inside of the buffer.
use matter_dissector.Prelude.{ℕ, Bool, ◌≤◌, Option, none, some, List, length, leb, true, arith, ◌≡◌}
use matter_dissector.Tlv.Reader.Advance.{Advance-refl}
use matter_dissector.Tlv.Reader.Ends.{Ends, returns, fails}
use matter_dissector.Tlv.Reader.State.{Outcome}
use matter_dissector.Tlv.Reader.Advance.{Advance}
use matter_dissector.Tlv.Reader.Values.{get_length}
use matter_dissector.Tlv.Reader.Reads.{dup_string-SafeSmall, get_data_ptr-Ends}
use matter_dissector.Dissector.{TlvDissector, run_then, with_reader}
use matter_dissector.Dissector.Elements.{◌>>=◌, reading, look}
use matter_dissector.Dissector.Strings.{read_bytes, data_bytes, in_block, duplicate}
use matter_dissector.Dissector.Safety.{
  Keeps, keeps, gives_up, crashes, SafeBelow, chain, reading-Safe,
}

-- The read behind a pointer to at least `GetLength` bytes is inside of them.
data_bytes-Keeps :
    (d : TlvDissector) {o : Outcome (List ℕ)}
    → Ends (λ bytes s. Advance d.reader s × (get_length s ≤ length bytes)) (λ _. Advance d.reader) o
    → Keeps d.reader
        (run_then (with_reader d o) λ pointer. look get_length >>= λ len. read_bytes len pointer)
unfolding ◌>>=◌ look read_bytes
data_bytes-Keeps d (returns {a = bytes} {r = s} (a, l)) =
    let inside : leb (get_length s) (length bytes) ≡ true = ground arith in rw inside (keeps a)
data_bytes-Keeps d (fails a) = gives_up a

pub data_bytes-Safe : {n : ℕ} → SafeBelow n data_bytes
unfolding data_bytes ◌>>=◌ reading
data_bytes-Safe = record { runs = λ d v b l. data_bytes-Keeps d (get_data_ptr-Ends d.reader v b) }

in_block-Safe : {n : ℕ} (o : Option (List ℕ)) → SafeBelow n (in_block o)
unfolding in_block
in_block-Safe none = record { runs = λ d v b l. crashes }
in_block-Safe (some bytes) = record { runs = λ d v b l. keeps (Advance-refl v) }

pub duplicate-Safe : {n : ℕ} (malloc : ℕ → Bool) → SafeBelow n (duplicate malloc)
unfolding duplicate
duplicate-Safe malloc = chain (reading-Safe (dup_string-SafeSmall malloc)) in_block-Safe
