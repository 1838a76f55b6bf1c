-- ===== src/Wmem/Assoc.antt =====
-- A tree as an association list, which shows that what is assumed of `wmem_tree_t` can be met.
use matter_dissector.Prelude.{
  ℕ, ◌≡◌, ◌≢◌, refl, Bool, true, false, ◌&&◌, ◌==◌, ==_refl, Bool-cases, inl, inr, Option, none,
  some, List, [], ◌∷◌, if◌then◌else◌, arith,
}
use matter_dissector.Wmem.{WmemTree}

unfoldable pub same_key : List ℕ → List ℕ → Bool
same_key [] [] = true
same_key (a ∷ j) (b ∷ k) = (a == b) && same_key j k
same_key _ _ = false

same_key_refl : (k : List ℕ) → same_key k k ≡ true
unfolding same_key
same_key_refl [] = refl
same_key_refl (a ∷ k) = rw (==_refl a, same_key_refl k)

eq_of_same_key : (j k : List ℕ) → same_key j k ≡ true → j ≡ k
unfolding same_key
eq_of_same_key [] [] h = refl
eq_of_same_key [] (b ∷ bs) h = cc
eq_of_same_key (a ∷ j) [] h = cc
eq_of_same_key (a ∷ j) (b ∷ k) h = ground (arith, eq_of_same_key j k)

unfoldable pub lookup_in : {X : Type 0} → List ℕ → List (List ℕ × X) → Option X
unfolding same_key
lookup_in k [] = none
lookup_in k ((j, v) ∷ t) = if same_key k j then some v else lookup_in k t

pub lookup_self :
    {X : Type 0} → (k : List ℕ) (v : X) (t : List (List ℕ × X)) → lookup_in k ((k, v) ∷ t) ≡ some v
unfolding lookup_in
lookup_self k v t = rw (same_key_refl k)

pub lookup_ne :
    {X : Type 0}
    → (j k : List ℕ) (v : X) (t : List (List ℕ × X)) → j ≢ k
    → lookup_in j ((k, v) ∷ t) ≡ lookup_in j t
lookup_ne j k v t h = elim (Bool-cases (same_key j k)) [
  | inl e ↦ absurd (h (eq_of_same_key j k e))
  | inr e ↦ miss e
]
  where
    miss : same_key j k ≡ false → lookup_in j ((k, v) ∷ t) ≡ lookup_in j t
    miss e = unfold lookup_in in rw e

pub lookup_nil : {X : Type 0} → (k : List ℕ) → lookup_in {X = X} k [] ≡ none
unfolding lookup_in
lookup_nil k = refl

abbrev pub assoc_tree : {X : Type 0} → WmemTree X
assoc_tree {X = X} = record {
  Tree = List (List ℕ × X);
  empty = [];
  lookup = lookup_in;
  insert = λ k v t. (k, v) ∷ t;
  lookup-empty = lookup_nil;
  lookup-insert_self = lookup_self;
  lookup-insert_ne = lookup_ne;
}
