-- ===== src/Message/KeyIds/Laws.antt =====
-- The fields of the key ids.
use matter_dissector.Prelude.{ℕ, ◌^◌, ◌<◌, ◌≡◌, false, arith}
use matter_dissector.Message.{get_type, is_session_key}
use matter_dissector.Message.KeyIds.{
  with_bit, is_general_key, is_app_static_key, is_app_rotating_key, is_app_root_key,
  is_app_epoch_key, is_app_group_master_key, get_root_session_id, get_epoch_session_id,
  get_app_group_master_session_id, get_root_key_number, get_epoch_key_number,
  get_app_group_local_number, convert_to_current_app_session_id, incorporates_epoch_key,
  make_root_session_id, make_epoch_session_id, make_app_group_master_session_id,
}

-- The id of a root, epoch or group master key that is made of a number of its field's width yields this
-- number, and it is the constituent's id that is read from an application key with this number.
pub make_session_id_fields :
    (root epoch local : ℕ)
    → root < 2 ^ 2
    → epoch < 2 ^ 3
    → local < 2 ^ 7
    → (get_root_key_number (make_root_session_id root) ≡ root)
      × (get_root_session_id (make_root_session_id root) ≡ make_root_session_id root)
      × (get_epoch_key_number (make_epoch_session_id epoch) ≡ epoch)
      × (get_epoch_session_id (make_epoch_session_id epoch) ≡ make_epoch_session_id epoch)
      × (get_app_group_local_number (make_app_group_master_session_id local) ≡ local)
      × (get_app_group_master_session_id (make_app_group_master_session_id local)
          ≡ make_app_group_master_session_id local)
unfolding get_root_key_number make_root_session_id get_root_session_id get_epoch_key_number
    make_epoch_session_id get_epoch_session_id get_app_group_local_number
    make_app_group_master_session_id get_app_group_master_session_id with_bit
make_session_id_fields root epoch local hr he hl =
    (ground arith, ground arith, ground arith, ground arith, omega arith, omega arith)

-- The conversion to the current key drops the number of the epoch key, keeps the other numbers and
-- whether the key incorporates an epoch key, and stays the same when it is done again.
pub convert_to_current_app_session_id_lem :
    (key_id : ℕ)
    → key_id < 2 ^ 32
    → let current = convert_to_current_app_session_id key_id in
      (get_epoch_key_number current ≡ 0)
      × (get_root_key_number current ≡ get_root_key_number key_id)
      × (get_app_group_local_number current ≡ get_app_group_local_number key_id)
      × (incorporates_epoch_key current ≡ incorporates_epoch_key key_id)
      × (convert_to_current_app_session_id current ≡ current)
      × (current < 2 ^ 32)
unfolding convert_to_current_app_session_id get_epoch_key_number get_root_key_number
    get_app_group_local_number incorporates_epoch_key with_bit
convert_to_current_app_session_id_lem key_id h =
    (ground arith, ground arith, ground arith, ground arith, ground arith, ground arith)

-- No key id has a type of its own: the tests on the type fail on every id, since `GetType` keeps four
-- bits and the types differ in higher ones.
pub type_tests_fail :
    (key_id : ℕ)
    → (is_general_key key_id ≡ false)
      × (is_session_key key_id ≡ false)
      × (is_app_static_key key_id ≡ false)
      × (is_app_rotating_key key_id ≡ false)
      × (is_app_root_key key_id ≡ false)
      × (is_app_epoch_key key_id ≡ false)
      × (is_app_group_master_key key_id ≡ false)
unfolding is_general_key is_session_key is_app_static_key is_app_rotating_key is_app_root_key
    is_app_epoch_key is_app_group_master_key get_type
type_tests_fail key_id = (
  ground arith,
  ground arith,
  ground arith,
  ground arith,
  ground arith,
  ground arith,
  ground arith,
)
