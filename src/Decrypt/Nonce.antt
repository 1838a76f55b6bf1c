-- ===== src/Decrypt/Nonce.antt =====
-- The nonce of a message as fields in the byte order of the wire.
use matter_dissector.Prelude.{
  ℕ, ◌^◌, ◌<◌, ◌≡◌, refl, Option, some, List, [], ◌∷◌, ◌++◌, length, arith,
}
use matter_dissector.Encoding.{read8, read32, read64, write32, write64, ◌>>=◌}
use matter_dissector.Encoding.Laws.{read32-write32, read64-write64}
use matter_dissector.Message.{MatterMessageInfo}
use matter_dissector.Decrypt.Ccm.{nonce_of}

write_nonce :
    (m : MatterMessageInfo)
    → m.sec_flags < 2 ^ 8
    → nonce_of m ≡ m.sec_flags ∷ (write32 m.msg_id ++ (write64 m.src_node_id ++ []))
unfolding nonce_of write32 write64
write_nonce m a = grind arith

-- The fields that stand in a nonce: the security flags, the message counter, the source node id.
abbrev pub fields_of : List ℕ → Option (ℕ × ℕ × ℕ)
fields_of p = do
  (sec_flags, p) ← read8 p
  (msg_id, p) ← read32 p
  (src_node_id, _) ← read64 p
  some (sec_flags, msg_id, src_node_id)

read_nonce :
    (m : MatterMessageInfo)
    → m.msg_id < 2 ^ 32
    → m.src_node_id < 2 ^ 64
    → fields_of (m.sec_flags ∷ (write32 m.msg_id ++ (write64 m.src_node_id ++ [])))
      ≡ some (m.sec_flags, m.msg_id, m.src_node_id)
unfolding read8
read_nonce m b c =
    rw (read32-write32 m.msg_id (write64 m.src_node_id ++ []) b, read64-write64 m.src_node_id [] c)
      refl

-- The nonce of a message has 13 bytes, and its security flags, its message counter and its source
-- node id can be read back from it.
pub nonce_of_lem :
    (m : MatterMessageInfo)
    → m.sec_flags < 2 ^ 8
    → m.msg_id < 2 ^ 32
    → m.src_node_id < 2 ^ 64
    → (length (nonce_of m) ≡ 13)
      × (fields_of (nonce_of m) ≡ some (m.sec_flags, m.msg_id, m.src_node_id))
nonce_of_lem m a b c = (unfold nonce_of in refl, rw (write_nonce m a) (read_nonce m b c))
