-- ===== src/Tracker/Chains.antt =====
-- What it is for a chain to hold a list of records, and what a loop over it computes.
use matter_dissector.Prelude.{
  ℕ, zero, suc, ◌<◌, ◌≡◌, Option, none, some, List, [], ◌∷◌, arith, length,
}
use matter_dissector.Tracker.Records.{Ptr, MatterMessageRecord, Heap}
use matter_dissector.Tracker.Find.{walk}

-- From `p`, the pointers that `step` reads lead through the records `xs` to NULL.
abbrev pub Follows : (MatterMessageRecord → Option Ptr) → Heap → Option Ptr → List Ptr → Type 0
Follows step h p [] = p ≡ none
Follows step h p (x ∷ xs) = (p ≡ some x) × Follows step h (step (h.cell x)) xs

abbrev pub run_over {ℓ} : {S : Type ℓ} → (Ptr → S → S) → S → List Ptr → S
run_over body s [] = s
run_over body s (x ∷ xs) = run_over body (body x s) xs

-- A loop over a chain handles its records in order, and enough fuel is one round more.
pub walk-run_over {ℓ} :
    {S : Type ℓ} (step : MatterMessageRecord → Option Ptr) (h : Heap) (body : Ptr → S → S)
    (xs : List Ptr) (fuel : ℕ) (p : Option Ptr) (s : S)
    → Follows step h p xs
    → length xs < fuel
    → walk fuel step h body p s ≡ some (run_over body s xs)
unfolding walk
walk-run_over step h body [] zero p s f l = elim l [ ]
walk-run_over step h body [] (suc fuel) p s f l = rw f
walk-run_over step h body (x ∷ xs) zero p s f l = elim l [ ]
walk-run_over step h body (x ∷ xs) (suc fuel) p s f l =
    rw f.0 (walk-run_over step h body xs fuel (step (h.cell x)) (body x s) f.1 (omega arith))
