-- ===== src/Tlv/Reader/Integers.antt =====
-- `Get` of integers: negative numbers of every width, and the narrow reads.
use matter_dissector.Prelude.{
  ℕ, zero, suc, ◌-◌, ◌*◌, ◌%◌, ◌^◌, ◌≤◌, ◌<◌, ◌≡◌, refl, arith, false, ◌==◌,
}
use matter_dissector.Tlv.Reader.State.{TlvReader, ok, element_type}
use matter_dissector.Tlv.Reader.Values.{sign_extend, get_uint64}

sign_extend_8 : (k : ℕ) → 0 < k → k ≤ 2 ^ 7 → sign_extend 8 (2 ^ 8 - k) ≡ 2 ^ 64 - k
unfolding sign_extend
sign_extend_8 k p b = ground arith

sign_extend_16 : (k : ℕ) → 0 < k → k ≤ 2 ^ 15 → sign_extend 16 (2 ^ 16 - k) ≡ 2 ^ 64 - k
unfolding sign_extend
sign_extend_16 k p b = ground arith

sign_extend_32 : (k : ℕ) → 0 < k → k ≤ 2 ^ 31 → sign_extend 32 (2 ^ 32 - k) ≡ 2 ^ 64 - k
unfolding sign_extend
sign_extend_32 k p b = ground arith

-- An element of a signed type with the two's complement of a negative number, of 1, 2, 4 or 8 bytes as the
-- type says, is read as the same number in 64 bits.
pub get_uint64_negative :
    (t k : ℕ) (r : TlvReader)
    → t < 4
    → r.control_byte < 2 ^ 8
    → r.control_byte % 2 ^ 5 ≡ t
    → 0 < k
    → k ≤ 2 ^ (8 * 2 ^ t - 1)
    → r.elem_len_or_val ≡ 2 ^ (8 * 2 ^ t) - k
    → get_uint64 r ≡ ok (2 ^ 64 - k) r
unfolding get_uint64 element_type
get_uint64_negative zero k r l c e p b v =
    let known : (r.control_byte == 0xFFFF) ≡ false = ground arith in
    rw (get_uint64, known, e, v, sign_extend_8 k p b) refl
get_uint64_negative (suc zero) k r l c e p b v =
    let known : (r.control_byte == 0xFFFF) ≡ false = ground arith in
    rw (get_uint64, known, e, v, sign_extend_16 k p b) refl
get_uint64_negative (suc (suc zero)) k r l c e p b v =
    let known : (r.control_byte == 0xFFFF) ≡ false = ground arith in
    rw (get_uint64, known, e, v, sign_extend_32 k p b) refl
get_uint64_negative (suc (suc (suc zero))) k r l c e p b v =
    let known : (r.control_byte == 0xFFFF) ≡ false = ground arith in
    rw (get_uint64, known, e, v) refl
get_uint64_negative (suc (suc (suc (suc t)))) k r l c e p b v = absurd (omega arith)
