-- ===== src/Echo.antt =====
-- packet-matter-echo.cpp: the echo messages. The text of the packet list's column is left out.
use matter_dissector.Prelude.{ℕ, ◌-◌, ◌^◌, ◌==◌, if◌then◌else◌, List, [], ◌∷◌, length}
use matter_dissector.Tree.{outer, text, append_text, item, Field, registered, ft_protocol, ft_bytes}
use matter_dissector.Packet.{Packet, ◌>>=◌, ◌>>◌, pure, change, add_value, add_range}

abbrev proto_matter_echo : Field
proto_matter_echo = registered "matter-echo" ft_protocol

abbrev echo_payload : Field
echo_payload = registered "matter_echo.payload" ft_bytes

-- `DissectMatterEcho`
unfoldable pub dissect_matter_echo : ℕ → List ℕ → Packet ℕ
dissect_matter_echo msg_type payload = do
  top ← add_value outer proto_matter_echo 0 (2 ^ 32 - 1) item
  if msg_type == 1
      then (do
        change (append_text top (text ": Echo Request" ∷ []))
        add_range payload top echo_payload 0 (length payload) item
        pure (length payload))
      else if msg_type == 2
      then (do
        change (append_text top (text ": Echo Response" ∷ []))
        add_range payload top echo_payload 0 (length payload) item
        pure (length payload))
      else pure 0
