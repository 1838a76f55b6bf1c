-- ===== src/Encoding.antt =====
-- MatterMinimal/include/Matter/Core/MatterEncoding.h: unsigned integers as bytes.
-- A pointer is the list of the bytes from it to the end of its buffer; a read returns the bytes
-- behind what it read, and is `none` where the source would read past the end. `|` of parts that
-- share no bit is `+`, and a cast to `uint8_t` is `% 256`.
pub mod Laws
use matter_dissector.Prelude.{ℕ, ◌+◌, ◌*◌, ◌/◌, ◌%◌, ◌^◌, Option, none, some, List, [], ◌∷◌}

infixl 5 ◌>>=◌
abbrev pub ◌>>=◌ {ℓ κ} : {A : Type ℓ} {B : Type κ} → Option A → (A → Option B) → Option B
none >>= f = none
some a >>= f = f a

-- What a read yields: the value and the advanced pointer.
abbrev pub Read : Type 0
Read = Option (ℕ × List ℕ)

unfoldable pub read8 : List ℕ → Read
read8 [] = none
read8 (b ∷ p) = some (b, p)

unfoldable pub read16 : List ℕ → Read
unfolding read8
read16 p = do (a, p) ← read8 p; (b, p) ← read8 p; some (a * 2 ^ (8 * 0) + b * 2 ^ (8 * 1), p)

unfoldable pub read32 : List ℕ → Read
unfolding read8
read32 p = do
  (a, p) ← read8 p
  (b, p) ← read8 p
  (c, p) ← read8 p
  (d, p) ← read8 p
  some (a * 2 ^ (8 * 0) + b * 2 ^ (8 * 1) + c * 2 ^ (8 * 2) + d * 2 ^ (8 * 3), p)

unfoldable pub read64 : List ℕ → Read
unfolding read8
read64 p = do
  (a, p) ← read8 p
  (b, p) ← read8 p
  (c, p) ← read8 p
  (d, p) ← read8 p
  (e, p) ← read8 p
  (f, p) ← read8 p
  (g, p) ← read8 p
  (h, p) ← read8 p
  some (
    a * 2 ^ (8 * 0)
        + b * 2 ^ (8 * 1)
        + c * 2 ^ (8 * 2)
        + d * 2 ^ (8 * 3)
        + e * 2 ^ (8 * 4)
        + f * 2 ^ (8 * 5)
        + g * 2 ^ (8 * 6)
        + h * 2 ^ (8 * 7),
    p,
  )

-- The bytes that a write stores from its pointer on.
abbrev byte_at : ℕ → ℕ → ℕ
byte_at v k = v / 2 ^ (8 * k) % 256

unfoldable pub write16 : ℕ → List ℕ
write16 v = byte_at v 0 ∷ byte_at v 1 ∷ []

unfoldable pub write32 : ℕ → List ℕ
write32 v = byte_at v 0 ∷ byte_at v 1 ∷ byte_at v 2 ∷ byte_at v 3 ∷ []

unfoldable pub write64 : ℕ → List ℕ
write64 v =
    byte_at v 0
    ∷ byte_at v 1
    ∷ byte_at v 2
    ∷ byte_at v 3
    ∷ byte_at v 4
    ∷ byte_at v 5
    ∷ byte_at v 6
    ∷ byte_at v 7
    ∷ []
