-- ===== src/Encoding/Laws.antt =====
-- A read gives back what a write stored, and how much a read takes.
use matter_dissector.Prelude.{
  ℕ, ◌^◌, ◌≤◌, ◌<◌, ◌≡◌, refl, List, [], ◌∷◌, ◌++◌, some, arith, length, drop,
}
use matter_dissector.Encoding.{read8, read16, read32, read64, write16, write32, write64}

-- `read16` reads back a 16-bit value that `write16` stored, and leaves what follows it.
pub read16-write16 : (v : ℕ) (p : List ℕ) → v < 2 ^ 16 → read16 (write16 v ++ p) ≡ some (v, p)
unfolding read16 write16
read16-write16 v p h = ground arith

-- `read32` reads back a 32-bit value that `write32` stored, and leaves what follows it.
pub read32-write32 : (v : ℕ) (p : List ℕ) → v < 2 ^ 32 → read32 (write32 v ++ p) ≡ some (v, p)
unfolding read32 write32
read32-write32 v p h = ground arith

-- `read64` reads back a 64-bit value that `write64` stored, and leaves what follows it.
pub read64-write64 : (v : ℕ) (p : List ℕ) → v < 2 ^ 64 → read64 (write64 v ++ p) ≡ some (v, p)
unfolding read64 write64
read64-write64 v p h = ground arith

pub read8_takes : (p : List ℕ) → 1 ≤ length p → (v : ℕ) × (read8 p ≡ some (v, drop 1 p))
unfolding read8
read8_takes [] h = absurd (omega arith)
read8_takes (a ∷ p) h = (a, refl)

pub read16_takes : (p : List ℕ) → 2 ≤ length p → (v : ℕ) × (read16 p ≡ some (v, drop 2 p))
unfolding read16
read16_takes [] h = absurd (omega arith)
read16_takes (a ∷ []) h = absurd (omega arith)
read16_takes (a ∷ b ∷ p) h = (_, refl)

pub read32_takes : (p : List ℕ) → 4 ≤ length p → (v : ℕ) × (read32 p ≡ some (v, drop 4 p))
unfolding read32
read32_takes [] h = absurd (omega arith)
read32_takes (a ∷ []) h = absurd (omega arith)
read32_takes (a ∷ b ∷ []) h = absurd (omega arith)
read32_takes (a ∷ b ∷ c ∷ []) h = absurd (omega arith)
read32_takes (a ∷ b ∷ c ∷ d ∷ p) h = (_, refl)

pub read64_takes : (p : List ℕ) → 8 ≤ length p → (v : ℕ) × (read64 p ≡ some (v, drop 8 p))
unfolding read64
read64_takes [] h = absurd (omega arith)
read64_takes (a ∷ []) h = absurd (omega arith)
read64_takes (a ∷ b ∷ []) h = absurd (omega arith)
read64_takes (a ∷ b ∷ c ∷ []) h = absurd (omega arith)
read64_takes (a ∷ b ∷ c ∷ d ∷ []) h = absurd (omega arith)
read64_takes (a ∷ b ∷ c ∷ d ∷ e ∷ []) h = absurd (omega arith)
read64_takes (a ∷ b ∷ c ∷ d ∷ e ∷ f ∷ []) h = absurd (omega arith)
read64_takes (a ∷ b ∷ c ∷ d ∷ e ∷ f ∷ g ∷ []) h = absurd (omega arith)
read64_takes (a ∷ b ∷ c ∷ d ∷ e ∷ f ∷ g ∷ k ∷ p) h = (_, refl)
