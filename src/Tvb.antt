-- ===== src/Tvb.antt =====
-- What the dissector relies on of Wireshark's `tvbuff_t`, as a list of the bytes that were captured:
-- the little-endian reads at an offset, and the copy of a range. Each is `none` where Wireshark throws
-- an exception that ends the dissection of the packet. The functions are a parameter of the model.
pub mod Bytes
use matter_dissector.Prelude.{
  ℕ, ◌+◌, ◌≡◌, leb, if◌then◌else◌, Option, none, some, List, length, take, drop,
}
use matter_dissector.Encoding.{Read, read8, read16, read32, read64}

-- The value of a read, without the advanced pointer.
abbrev pub value_of : Read → Option ℕ
value_of none = none
value_of (some (v, p)) = some v

pub record Tvb : Type 0 where
  pub get_guint8 : List ℕ → ℕ → Option ℕ
  pub get_letohs : List ℕ → ℕ → Option ℕ
  pub get_letohl : List ℕ → ℕ → Option ℕ
  pub get_letoh64 : List ℕ → ℕ → Option ℕ
  pub memdup : List ℕ → ℕ → ℕ → Option (List ℕ)
  pub get_guint8_lem : (p : List ℕ) (o : ℕ) → get_guint8 p o ≡ value_of (read8 (drop o p))
  pub get_letohs_lem : (p : List ℕ) (o : ℕ) → get_letohs p o ≡ value_of (read16 (drop o p))
  pub get_letohl_lem : (p : List ℕ) (o : ℕ) → get_letohl p o ≡ value_of (read32 (drop o p))
  pub get_letoh64_lem : (p : List ℕ) (o : ℕ) → get_letoh64 p o ≡ value_of (read64 (drop o p))
  pub memdup_lem :
      (p : List ℕ) (o n : ℕ)
      → memdup p o n ≡ (if leb (o + n) (length p) then some (take n (drop o p)) else none)
