-- ===== src/Message/KeyIds.antt =====
-- MatterMinimal/include/Matter/Core/MatterSessionIds.h: the type of a key id, its fields, and the ids of
-- application keys. A mask is a division and a remainder, and `|` on separate bits is a sum.
pub mod Laws
use matter_dissector.Prelude.{ℕ, ◌+◌, ◌-◌, ◌*◌, ◌/◌, ◌%◌, ◌^◌, Bool, ◌==◌, if◌then◌else◌}
use matter_dissector.Message.{has_bit, get_type}

-- `x | (1 << k)`
unfoldable pub with_bit : ℕ → ℕ → ℕ
with_bit k x = if has_bit x k then x else x + 2 ^ k

module _ (key_id : ℕ) where
  unfoldable pub is_general_key : Bool
  unfolding get_type
  is_general_key = get_type key_id == 0x1000

  unfoldable pub is_app_static_key : Bool
  unfolding get_type
  is_app_static_key = get_type key_id == 0x4000

  unfoldable pub is_app_rotating_key : Bool
  unfolding get_type
  is_app_rotating_key = get_type key_id == 0x5000

  unfoldable pub is_app_root_key : Bool
  unfolding get_type
  is_app_root_key = get_type key_id == 0x1_0000

  unfoldable pub is_app_epoch_key : Bool
  unfolding get_type
  is_app_epoch_key = get_type key_id == 0x2_1000

  unfoldable pub is_app_group_master_key : Bool
  unfolding get_type
  is_app_group_master_key = get_type key_id == 0x3_0000

  unfoldable pub get_root_session_id : ℕ
  get_root_session_id = 0x1_0000 + key_id / 2 ^ 10 % 2 ^ 2 * 2 ^ 10

  unfoldable pub get_epoch_session_id : ℕ
  get_epoch_session_id = 0x2_1000 + key_id / 2 ^ 7 % 2 ^ 3 * 2 ^ 7

  unfoldable pub get_app_group_master_session_id : ℕ
  get_app_group_master_session_id = 0x3_0000 + key_id % 2 ^ 7

  unfoldable pub get_root_key_number : ℕ
  get_root_key_number = key_id / 2 ^ 10 % 2 ^ 2

  unfoldable pub get_epoch_key_number : ℕ
  get_epoch_key_number = key_id / 2 ^ 7 % 2 ^ 3

  unfoldable pub get_app_group_local_number : ℕ
  get_app_group_local_number = key_id % 2 ^ 7

  -- `kFlag_UseCurrentEpochKey` in the place of the epoch key's number.
  unfoldable pub convert_to_current_app_session_id : ℕ
  unfolding with_bit
  convert_to_current_app_session_id = with_bit 31 (key_id - key_id / 2 ^ 7 % 2 ^ 3 * 2 ^ 7)

  unfoldable pub incorporates_epoch_key : Bool
  incorporates_epoch_key = has_bit key_id 12

-- Of a 16-bit key number.
unfoldable pub make_general_session_id : ℕ → ℕ
make_general_session_id general_key_number = 0x1000 + general_key_number % 2 ^ 12

-- Of 8-bit numbers, which are not cut to the width of their fields.
unfoldable pub make_root_session_id : ℕ → ℕ
unfolding with_bit
make_root_session_id root_key_number = with_bit 16 (root_key_number * 2 ^ 10)

unfoldable pub make_epoch_session_id : ℕ → ℕ
unfolding with_bit
make_epoch_session_id epoch_key_number = with_bit 17 (with_bit 12 (epoch_key_number * 2 ^ 7))

unfoldable pub make_app_group_master_session_id : ℕ → ℕ
make_app_group_master_session_id app_group_local_number = 0x3_0000 + app_group_local_number
