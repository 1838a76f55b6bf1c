-- ===== src/Names/Laws.antt =====
-- What `DissectMatter` asks of a name is whether there is one.
use matter_dissector.Prelude.{ℕ, ◌≡◌, is_some, arith}
use matter_dissector.Names.{case_of, get_protocol_name}
use matter_dissector.Header.{has_protocol_name}

pub has_protocol_name_lem : (id : ℕ) → has_protocol_name id ≡ is_some (get_protocol_name id)
unfolding has_protocol_name get_protocol_name case_of
has_protocol_name_lem id = ground arith
