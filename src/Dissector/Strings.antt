-- ===== src/Dissector/Strings.antt =====
-- What the methods of TLVDissector.cpp do with the bytes of a string: a copy in a block of its own, or a
-- read of `GetLength` bytes through the pointer of `GetDataPtr`.
pub mod Bounds
use matter_dissector.Prelude.{ℕ, Bool, leb, if◌then◌else◌, Option, none, some, List, length, take}
use matter_dissector.Tlv.Reader.Values.{dup_string, get_data_ptr, get_length}
use matter_dissector.Dissector.{done, faulted, crashed, Act}
use matter_dissector.Dissector.Elements.{◌>>=◌, reading, look}

-- A read of `len` bytes behind a pointer to the bytes of a buffer.
unfoldable pub read_bytes : ℕ → List ℕ → Act (List ℕ)
read_bytes len pointer d = if leb len (length pointer) then done (take len pointer) d else faulted

-- `GetDataPtr` and a read of `GetLength` bytes.
unfoldable pub data_bytes : Act (List ℕ)
unfolding read_bytes
data_bytes = do pointer ← reading get_data_ptr; len ← look get_length; read_bytes len pointer

-- The block, unless the copy has gone past its end.
unfoldable pub in_block : Option (List ℕ) → Act (List ℕ)
in_block none d = crashed
in_block (some bytes) d = done bytes d

-- `DupString`
unfoldable pub duplicate : (ℕ → Bool) → Act (List ℕ)
unfolding in_block
duplicate malloc = reading (dup_string malloc) >>= in_block
