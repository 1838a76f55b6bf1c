-- ===== src/Wmem.antt =====
-- What the dissector relies on of Wireshark's `wmem_tree_t`, a map whose keys are sequences of
-- 32-bit words, and of the store of protocol data of a packet: a lookup finds the value that was
-- last inserted under the very same key. Both are parameters of the model.
pub mod Assoc
use matter_dissector.Prelude.{ℕ, ◌/◌, ◌%◌, ◌^◌, ◌≡◌, ◌≢◌, Option, none, some, List, [], ◌∷◌}

pub record WmemTree (X : Type 0) : Type 1 where
  pub Tree : Type 0
  pub empty : Tree
  pub lookup : List ℕ → Tree → Option X
  pub insert : List ℕ → X → Tree → Tree
  pub lookup-empty : (k : List ℕ) → lookup k empty ≡ none
  pub lookup-insert_self : (k : List ℕ) (v : X) (t : Tree) → lookup k (insert k v t) ≡ some v
  pub lookup-insert_ne :
      (j k : List ℕ) (v : X) (t : Tree) → j ≢ k → lookup j (insert k v t) ≡ lookup j t

-- The two words of a 64-bit key segment, in memory order.
abbrev pub words64 : ℕ → List ℕ
words64 n = n % 2 ^ 32 ∷ n / 2 ^ 32 ∷ []
