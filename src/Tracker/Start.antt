-- ===== src/Tracker/Start.antt =====
-- `FindStartOfExchange`, in terms of the records before a message in its exchange.
use matter_dissector.Prelude.{
  ℕ, zero, suc, ◌≤◌, ◌<◌, ◌≡◌, inl, inr, refl, ap, true, false, Bool-cases, Option, some, List, [],
  ◌∷◌, ◌++◌, arith, length, All,
}
use matter_dissector.Tracker.Records.{Ptr, Heap}
use matter_dissector.Tracker.Find.{folds, fold_loop, start_loop, find_start_of_exchange}
use matter_dissector.Tracker.Chains.{Follows}

-- The message before `x`, if there is one, is no retransmission of it by the initiator.
abbrev Stops : Heap → Ptr → List Ptr → Type 0
Stops h x [] = Unit
Stops h x (q ∷ rest) = folds h x q ≡ false

-- A message of the initiator with the content of `x`.
abbrev pub Repeats : Heap → Ptr → Ptr → Type 0
Repeats h x y = ((h.cell y).is_initiator ≡ true) × ((h.cell y).fingerprint ≡ (h.cell x).fingerprint)

-- From `p` back the messages of `run` repeat `x`, which is the first of them.
record Folded (h : Heap) (p : Ptr) (before : List Ptr) (x : Ptr) : Type 0 where
  run : List Ptr
  rest : List Ptr
  split : p ∷ before ≡ run ++ (x ∷ rest)
  repeats : All (Repeats h x) run
  initiator : (h.cell x).is_initiator ≡ true
  same : (h.cell p).fingerprint ≡ (h.cell x).fingerprint
  stops : Stops h x rest

fold_loop_lem :
    (fuel : ℕ) (h : Heap) (p : Ptr) (before : List Ptr) (prev : Option Ptr)
    → Follows (λ c. c.prev_by_exchange) h prev before
    → length before < fuel
    → (h.cell p).is_initiator ≡ true
    → (x : Ptr) × (fold_loop fuel h p prev ≡ some x) × Folded h p before x
unfolding fold_loop
fold_loop_lem zero h p before prev f l i = elim l [ ]
fold_loop_lem (suc fuel) h p [] prev f l i = (
  p,
  rw f,
  record {
    run = [];
    rest = [];
    split = refl;
    repeats = tt;
    initiator = i;
    same = refl;
    stops = tt;
  },
)
fold_loop_lem (suc fuel) h p (q ∷ qs) prev f l i = elim (Bool-cases (folds h p q)) [
  | inr e ↦ (
    p,
    rw (f.0, e),
    record {
      run = [];
      rest = q ∷ qs;
      split = refl;
      repeats = tt;
      initiator = i;
      same = refl;
      stops = e;
    },
  )
  | inl e ↦
      let (x, found, c) =
        fold_loop_lem fuel h q qs (h.cell q).prev_by_exchange f.1 (omega arith) (ground arith) in
      let again : (h.cell p).fingerprint ≡ (h.cell x).fingerprint = ground (arith, c.same) in
      (
        x,
        rw (f.0, e) found,
        record {
          run = p ∷ c.run;
          rest = c.rest;
          split = ap (◌∷◌ p) c.split;
          repeats = ((i, again), c.repeats);
          initiator = c.initiator;
          same = again;
          stops = c.stops;
        },
      )
]

-- What the start of an exchange is, for the messages `xs` of the exchange from the latest back.
-- Either the nearest message of the initiator opens it, behind messages of the responder only, and
-- its run of repetitions is followed back to the first; or there is no message of the
-- initiator and it is the oldest.
pub data IsStart (h : Heap) (xs : List Ptr) (x : Ptr) : Type 0 where
  opened :
      (skipped run rest : List Ptr)
      → xs ≡ skipped ++ (run ++ (x ∷ rest))
      → All (λ y. (h.cell y).is_initiator ≡ false) skipped
      → All (Repeats h x) run
      → (h.cell x).is_initiator ≡ true
      → Stops h x rest
      → IsStart h xs x
  incomplete :
      (newer : List Ptr)
      → xs ≡ newer ++ (x ∷ [])
      → All (λ y. (h.cell y).is_initiator ≡ false) xs
      → IsStart h xs x

IsStart-cons :
    (h : Heap) (p : Ptr) (xs : List Ptr) (x : Ptr)
    → (h.cell p).is_initiator ≡ false
    → IsStart h xs x
    → IsStart h (p ∷ xs) x
IsStart-cons h p xs x e (opened skipped run rest s a b c d) =
    opened (p ∷ skipped) run rest (ap (◌∷◌ p) s) (e, a) b c d
IsStart-cons h p xs x e (incomplete newer s a) = incomplete (p ∷ newer) (ap (◌∷◌ p) s) (e, a)

-- A message of the initiator ends the search.
IsStart-here :
    (fuel : ℕ) (h : Heap) (p : Ptr) (before : List Ptr) (first : Ptr)
    → Follows (λ c. c.prev_by_exchange) h (h.cell p).prev_by_exchange before
    → length before ≤ h.made
    → (h.cell p).is_initiator ≡ true
    → (x : Ptr) × (start_loop (suc fuel) h (some p) first ≡ some x) × IsStart h (p ∷ before) x
unfolding start_loop
IsStart-here fuel h p before first f m i =
    let (x, e, c) =
      fold_loop_lem (suc h.made) h p before (h.cell p).prev_by_exchange f (omega arith) i in
    (x, rw i e, opened [] c.run c.rest c.split tt c.repeats c.initiator c.stops)

start_loop_lem :
    (fuel : ℕ) (h : Heap) (p : Ptr) (before : List Ptr) (first : Ptr)
    → Follows (λ c. c.prev_by_exchange) h (h.cell p).prev_by_exchange before
    → suc (length before) < fuel
    → length before ≤ h.made
    → (x : Ptr) × (start_loop fuel h (some p) first ≡ some x) × IsStart h (p ∷ before) x
unfolding start_loop
start_loop_lem zero h p before first f l m = elim l [ ]
start_loop_lem (suc zero) h p before first f l m = absurd (omega arith)
start_loop_lem (suc (suc fuel)) h p [] first f l m = elim (Bool-cases (h.cell p).is_initiator) [
  | inl i ↦ IsStart-here (suc fuel) h p [] first f m i
  | inr i ↦ (p, rw (i, f), incomplete [] refl (i, tt))
]
start_loop_lem (suc (suc fuel)) h p (q ∷ qs) first f l m =
    elim (Bool-cases (h.cell p).is_initiator) [
      | inl i ↦ IsStart-here (suc fuel) h p (q ∷ qs) first f m i
      | inr i ↦
          let (x, e, c) = start_loop_lem (suc fuel) h q qs p f.1 (omega arith) (omega arith) in
          (x, rw (i, f.0) e, IsStart-cons h p (q ∷ qs) x i c)
    ]

-- `FindStartOfExchange` ends, and for a message with the records `before` it in its exchange, the
-- nearest first, it finds the start of the exchange.
pub find_start_of_exchange_lem :
    (msg_rec : Ptr) (h : Heap) (before : List Ptr)
    → Follows (λ c. c.prev_by_exchange) h (h.cell msg_rec).prev_by_exchange before
    → length before < h.made
    → (x : Ptr) × (find_start_of_exchange msg_rec h ≡ some x) × IsStart h (msg_rec ∷ before) x
unfolding find_start_of_exchange
find_start_of_exchange_lem msg_rec h before f l =
    start_loop_lem (suc h.made) h msg_rec before msg_rec f (omega arith) (omega arith)
