-- ===== src/Examples/KeyIds.antt =====
-- Key ids of MatterSessionIds.h.
use matter_dissector.Prelude.{ℕ, ◌^◌, ◌<◌, ◌≡◌, false, arith}
use matter_dissector.Message.{is_session_key}
use matter_dissector.Message.KeyIds.{
  is_general_key, is_app_static_key, is_app_rotating_key, is_app_root_key, is_app_epoch_key,
  is_app_group_master_key, get_root_session_id, get_epoch_session_id,
  get_app_group_master_session_id, get_root_key_number, get_epoch_key_number,
  get_app_group_local_number, convert_to_current_app_session_id, incorporates_epoch_key,
  make_root_session_id, make_epoch_session_id, make_app_group_master_session_id,
}
use matter_dissector.Message.KeyIds.Laws.{
  make_session_id_fields, convert_to_current_app_session_id_lem, type_tests_fail,
}

make_session_id_fields_example :
    (get_root_key_number (make_root_session_id 2) ≡ 2)
    × (get_root_session_id (make_root_session_id 2) ≡ make_root_session_id 2)
    × (get_epoch_key_number (make_epoch_session_id 5) ≡ 5)
    × (get_epoch_session_id (make_epoch_session_id 5) ≡ make_epoch_session_id 5)
    × (get_app_group_local_number (make_app_group_master_session_id 100) ≡ 100)
    × (get_app_group_master_session_id (make_app_group_master_session_id 100)
        ≡ make_app_group_master_session_id 100)
make_session_id_fields_example =
    make_session_id_fields 2 5 100 (omega arith) (omega arith) (omega arith)

-- A rotating key with the root key 2, the epoch key 5 and the group 100.
abbrev rotating : ℕ
rotating = 0x5AE4

convert_to_current_app_session_id_lem_example :
    let current = convert_to_current_app_session_id rotating in
    (get_epoch_key_number current ≡ 0)
    × (get_root_key_number current ≡ get_root_key_number rotating)
    × (get_app_group_local_number current ≡ get_app_group_local_number rotating)
    × (incorporates_epoch_key current ≡ incorporates_epoch_key rotating)
    × (convert_to_current_app_session_id current ≡ current)
    × (current < 2 ^ 32)
convert_to_current_app_session_id_lem_example =
    convert_to_current_app_session_id_lem rotating (omega arith)

type_tests_fail_example :
    (is_general_key rotating ≡ false)
    × (is_session_key rotating ≡ false)
    × (is_app_static_key rotating ≡ false)
    × (is_app_rotating_key rotating ≡ false)
    × (is_app_root_key rotating ≡ false)
    × (is_app_epoch_key rotating ≡ false)
    × (is_app_group_master_key rotating ≡ false)
type_tests_fail_example = type_tests_fail rotating
