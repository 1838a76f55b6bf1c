-- ===== src/Dissector/Safety.antt =====
-- The methods of the dissector end, read no byte outside of the buffers, and never go back. A method is
-- safe below `n` if this holds of its runs from valid readers that have fewer than `n` bytes left, of an
-- encoding of fewer than 2^32 - 1 bytes.
use matter_dissector.Prelude.{
  ℕ, zero, suc, ◌-◌, ◌^◌, ◌<◌, Bool, true, false, Option, none, some, if◌then◌else◌, arith, List,
  [], ◌∷◌,
}
use matter_dissector.Tlv.Types.{TlvType}
use matter_dissector.Tlv.Tags.{is_context_tag, tag_num_from_tag}
use matter_dissector.Tlv.Reader.State.{TlvReader, MatterError, Outcome, IsValid}
use matter_dissector.Tlv.Reader.Ends.{Ends, returns, fails}
use matter_dissector.Tlv.Reader.Advance.{Advance, Advance-refl, Advance-trans}
use matter_dissector.Tlv.Reader.Moves.{enter_container-Safe, exit_container-Safe}
use matter_dissector.Tlv.Reader.Reads.{SafeSmall, Safe-SafeSmall}
use matter_dissector.Dissector.{
  ContainerContext, TlvDissector, Run, done, stopped, crashed, faulted, unfinished, Act, run_then,
  with_reader, push_container, pop_container, pop_from,
}
use matter_dissector.Dissector.Moves.{
  next, next_expected, enter_container, exit_container, exit_popped,
}
use matter_dissector.Dissector.Ranges.{
  Runs, succeeds, stops, Marked, next-Marked, next_expected-Marked,
}
use matter_dissector.Dissector.Elements.{
  pure, fail, verify, look, attempt, attempted, attempt_error, ended_with, ask, reading, ◌>>=◌,
  by_option, remaining, element_loop, each_element, inside, by_context_tag, is_end_of_tlv,
}

-- A run that ends: with a reader of the same encoding that is not behind the old one, or in a crash, which is a
-- null pointer, a copy past a block, or an assertion of Wireshark's.
pub data Keeps {A : Type 0} (r : TlvReader) : Run A → Type 0 where
  keeps : {a : A} {d : TlvDissector} → Advance r d.reader → Keeps r (done a d)
  gives_up : {e : MatterError} {d : TlvDissector} → Advance r d.reader → Keeps r (stopped e d)
  crashes : Keeps r crashed

pub record SafeBelow {A : Type 0} (n : ℕ) (m : Act A) : Type 0 where
  pub runs :
      (d : TlvDissector)
      → IsValid d.reader
      → d.reader.max_len < 2 ^ 32 - 1
      → remaining d < n
      → Keeps d.reader (m d)

-- What a run does after an advance.
Keeps-after : {A : Type 0} {r s : TlvReader} {o : Run A} → Advance r s → Keeps s o → Keeps r o
Keeps-after a (keeps b) = keeps (Advance-trans a b)
Keeps-after a (gives_up b) = gives_up (Advance-trans a b)
Keeps-after a crashes = crashes

module _ {A B : Type 0} where
  pub Keeps-run_then :
      {r : TlvReader} {o : Run A} (k : A → Act B)
      → Keeps r o
      → ((a : A) (d : TlvDissector) → Advance r d.reader → Keeps d.reader (k a d))
      → Keeps r (run_then o k)
  Keeps-run_then k (keeps a) f = Keeps-after a (f _ _ a)
  Keeps-run_then k (gives_up a) f = gives_up a
  Keeps-run_then k crashes f = crashes

  -- The rule of a chain.
  pub chain :
      {n : ℕ} {m : Act A} {k : A → Act B}
      → SafeBelow n m
      → ((a : A) → SafeBelow n (k a))
      → SafeBelow n (m >>= k)
  unfolding ◌>>=◌
  chain p q = record {
    runs = λ d v b l. Keeps-run_then _ (p.runs d v b l) λ a e c.
        (q a).runs e c.valid (omega (arith, c.max_len)) (omega (arith, c.forward, c.max_len));
  }

with_reader-Keeps :
    {A : Type 0} (d : TlvDissector) {o : Outcome A}
    → Ends (λ _. Advance d.reader) (λ _. Advance d.reader) o
    → Keeps d.reader (with_reader d o)
with_reader-Keeps d (returns a) = keeps a
with_reader-Keeps d (fails a) = gives_up a

pub if_Keeps :
    {A : Type 0} (b : Bool) {r : TlvReader} {m k : Run A}
    → Keeps r m
    → Keeps r k
    → Keeps r (if b then m else k)
if_Keeps true p q = p
if_Keeps false p q = q

attempted-Keeps : {A : Type 0} {r : TlvReader} {o : Run A} → Keeps r o → Keeps r (attempted o)
attempted-Keeps (keeps a) = keeps a
attempted-Keeps (gives_up a) = keeps a
attempted-Keeps crashes = crashes

ended_with-Keeps : {A : Type 0} {r : TlvReader} {o : Run A} → Keeps r o → Keeps r (ended_with o)
ended_with-Keeps (keeps a) = keeps a
ended_with-Keeps (gives_up a) = keeps a
ended_with-Keeps crashes = crashes

module _ {A : Type 0} {n : ℕ} where
  pub pure-Safe : (a : A) → SafeBelow n (pure a)
  unfolding pure
  pure-Safe a = record { runs = λ d v b l. keeps (Advance-refl v) }

  pub fail-Safe : (e : MatterError) → SafeBelow n (fail {A = A} e)
  unfolding fail
  fail-Safe e = record { runs = λ d v b l. gives_up (Advance-refl v) }

  pub look-Safe : (f : TlvReader → A) → SafeBelow n (look f)
  unfolding look
  look-Safe f = record { runs = λ d v b l. keeps (Advance-refl v) }

  pub ask-Safe : (f : TlvDissector → A) → SafeBelow n (ask f)
  unfolding ask
  ask-Safe f = record { runs = λ d v b l. keeps (Advance-refl v) }

  -- A branch.
  pub either-Safe :
      (b : Bool) {m k : Act A} → SafeBelow n m → SafeBelow n k → SafeBelow n (if b then m else k)
  either-Safe true p q = p
  either-Safe false p q = q

  pub attempt-Safe : {m : Act A} → SafeBelow n m → SafeBelow n (attempt m)
  unfolding attempt
  attempt-Safe p = record { runs = λ d v b l. attempted-Keeps (p.runs d v b l) }

  pub attempt_error-Safe : {m : Act A} → SafeBelow n m → SafeBelow n (attempt_error m)
  unfolding attempt_error
  attempt_error-Safe p = record { runs = λ d v b l. ended_with-Keeps (p.runs d v b l) }

  -- A method of the reader.
  pub reading-Safe : {m : TlvReader → Outcome A} → SafeSmall m → SafeBelow n (reading m)
  unfolding reading
  reading-Safe p = record { runs = λ d v b l. with_reader-Keeps d (p d.reader v b) }

module _ {A : Type 0} {n : ℕ} where
  pub by_context_tag-Safe :
      {k : ℕ → Act A} {m : Act A}
      → ((tag : ℕ) → SafeBelow n (k tag))
      → SafeBelow n m
      → SafeBelow n (by_context_tag k m)
  unfolding by_context_tag
  by_context_tag-Safe p q =
      chain (look-Safe _) λ tag. either-Safe (is_context_tag tag) (p (tag_num_from_tag tag)) q

  pub by_option-Safe :
      {B : Type 0} (o : Option B) {k : B → Act A} {m : Act A}
      → ((b : B) → SafeBelow n (k b))
      → SafeBelow n m
      → SafeBelow n (by_option o k m)
  unfolding by_option
  by_option-Safe (some b) p q = p b
  by_option-Safe none p q = q

pub verify-Safe : {n : ℕ} (b : Bool) (e : MatterError) → SafeBelow n (verify b e)
unfolding verify
verify-Safe b e = record {
  runs = λ d v c l. if_Keeps b (keeps (Advance-refl v)) (gives_up (Advance-refl v));
}

push_container-Safe :
    {n : ℕ} (realloc : ℕ → Bool) (t : TlvType) → SafeBelow n (push_container realloc t)
unfolding push_container
push_container-Safe realloc t = record {
  runs = λ d v b l.
      if_Keeps _ (if_Keeps _ (keeps (Advance-refl v)) (gives_up (Advance-refl v)))
        (keeps (Advance-refl v));
}

pub enter_container-SafeBelow : {n : ℕ} (realloc : ℕ → Bool) → SafeBelow n (enter_container realloc)
unfolding enter_container
enter_container-SafeBelow {n = n} realloc = record {
  runs = λ d v b l.
      Keeps-run_then (push_container realloc)
        (with_reader-Keeps d (enter_container-Safe d.reader v))
        λ t e a.
          (push_container-Safe {n = n} realloc t).runs e a.valid (omega (arith, a.max_len))
            (omega (arith, a.forward, a.max_len));
}

exit_popped-Keeps :
    (d : TlvDissector) (s : List ContainerContext)
    → IsValid d.reader
    → Keeps d.reader (exit_popped (pop_from s d))
unfolding exit_popped
exit_popped-Keeps d [] v = with_reader-Keeps d (exit_container-Safe _ d.reader v)
exit_popped-Keeps d (c ∷ cs) v =
    with_reader-Keeps
      (record d {
        container_stack = cs;
        last_item = c.container_item;
        elem_start = c.elem_start;
        elem_len = c.elem_len;
      })
      (exit_container-Safe _ d.reader v)

pub exit_container-SafeBelow : {n : ℕ} → SafeBelow n exit_container
unfolding exit_container pop_container
exit_container-SafeBelow = record { runs = λ d v b l. exit_popped-Keeps d d.container_stack v }

module _ {S : Type 0} {n : ℕ} {body : S → Act S} (safe : (s : S) → SafeBelow n (body s)) where
  -- What `Next` came to is handed to the loop's round.
  round_Keeps :
      (d : TlvDissector) (s : S) {o : Run (Unit {0})} {after : S → Act S}
      → d.reader.max_len < 2 ^ 32 - 1
      → remaining d < suc n
      → ((t : S) (e : TlvDissector)
          → IsValid e.reader
          → e.reader.max_len < 2 ^ 32 - 1
          → remaining e < remaining d
          → Keeps e.reader (after t e))
      → Runs (Marked d) (λ e. Advance d.reader e.reader) o
      → Keeps d.reader (elim o [
        | done _ e ↦ run_then (body s e) after
        | stopped x e ↦ if is_end_of_tlv x then done s e else stopped x e
        | faulted ↦ faulted
        | crashed ↦ crashed
        | unfinished ↦ unfinished
      ])
  round_Keeps d s b l rest (succeeds {d = d'} m) =
      Keeps-after
        (record {
          valid = m.valid;
          max_len = m.max_len;
          forward = omega (arith, m.starts, m.moves);
        })
        (Keeps-run_then _
          ((safe s).runs d' m.valid (omega (arith, m.max_len))
            (omega (arith, m.starts, m.moves, m.max_len)))
          λ t e a.
            rest t e a.valid (omega (arith, m.max_len, a.max_len))
              (omega (arith, m.starts, m.moves, m.max_len, a.forward, a.max_len, m.valid.fits)))
  round_Keeps d s b l rest (stops {e = x} a) = if_Keeps (is_end_of_tlv x) (keeps a) (gives_up a)

  element_loop-Keeps :
      (fuel : ℕ) (s : S) (d : TlvDissector)
      → IsValid d.reader
      → d.reader.max_len < 2 ^ 32 - 1
      → remaining d < suc n
      → remaining d < fuel
      → Keeps d.reader (element_loop fuel body s d)
  unfolding element_loop
  element_loop-Keeps zero s d v b l f = elim f [ ]
  element_loop-Keeps (suc fuel) s d v b l f =
      round_Keeps d s b l (λ t e w c m. element_loop-Keeps fuel t e w c (omega arith) (omega arith))
        (next-Marked d v)

  -- A loop over elements is safe if what it does with an element is safe with fewer bytes.
  pub each_element-Safe : (s : S) → SafeBelow (suc n) (each_element body s)
  unfolding each_element
  each_element-Safe s = record {
    runs = λ d v b l. element_loop-Keeps (suc (remaining d)) s d v b l (omega arith);
  }

  pub inside-Safe : (realloc : ℕ → Bool) (s : S) → SafeBelow (suc n) (inside realloc body s)
  unfolding inside
  inside-Safe realloc s =
      chain (enter_container-SafeBelow realloc)
        λ _. chain (each_element-Safe s) λ t. chain exit_container-SafeBelow λ _. pure-Safe t

module _ {S : Type 0} {n : ℕ} {body : S → Act S} where
  -- The same for what is safe with as many bytes.
  pub inside_walk-Safe :
      ((s : S) → SafeBelow n (body s))
      → (realloc : ℕ → Bool) (s : S) → SafeBelow n (inside realloc body s)
  inside_walk-Safe body_safe realloc s = record {
    runs = λ d v b l. (inside-Safe body_safe realloc s).runs d v b (omega arith);
  }

pub ruleset safe = (
  chain, pure-Safe, fail-Safe, look-Safe, ask-Safe, either-Safe, attempt-Safe, attempt_error-Safe,
  reading-Safe, by_context_tag-Safe, by_option-Safe, verify-Safe, enter_container-SafeBelow,
  exit_container-SafeBelow, inside_walk-Safe, Safe-SafeSmall,
)

-- A move that leaves fewer bytes, whose error the caller looks at.
module _ (m : Act (Unit {0})) (d : TlvDissector) where
  abbrev pub Moved : TlvDissector → Type 0
  Moved e = Advance d.reader e.reader × (remaining e < remaining d)

  Marked-Moved : (e : TlvDissector) → Marked d e → Moved e
  Marked-Moved e p = (
    record { valid = p.valid; max_len = p.max_len; forward = omega (arith, p.starts, p.moves) },
    omega (arith, p.starts, p.moves, p.max_len, p.valid.fits),
  )

  pub attempted_move-Keeps :
      {A : Type 0} (k : Option (Unit {0}) → Act A)
      → Runs (Marked d) (λ e. Advance d.reader e.reader) (m d)
      → ((e : TlvDissector) → Moved e → Keeps e.reader (k (some tt) e))
      → ((e : TlvDissector) → Advance d.reader e.reader → Keeps e.reader (k none e))
      → Keeps d.reader ((attempt m >>= k) d)
  unfolding ◌>>=◌ attempt
  attempted_move-Keeps k runs f g = by_run (m d) runs
    where
      by_run :
          (o : Run (Unit {0}))
          → Runs (Marked d) (λ e. Advance d.reader e.reader) o
          → Keeps d.reader (run_then (attempted o) k)
      by_run o (succeeds {d = e} p) = Keeps-after (Marked-Moved e p).0 (f e (Marked-Moved e p))
      by_run o (stops {d = e} a) = Keeps-after a (g e a)

  pub tried_move-Keeps :
      {A : Type 0} (k : Option MatterError → Act A)
      → Runs (Marked d) (λ e. Advance d.reader e.reader) (m d)
      → ((e : TlvDissector) → Moved e → Keeps e.reader (k none e))
      → ((x : MatterError) (e : TlvDissector)
          → Advance d.reader e.reader
          → Keeps e.reader (k (some x) e))
      → Keeps d.reader ((attempt_error m >>= k) d)
  unfolding ◌>>=◌ attempt_error
  tried_move-Keeps k runs f g = by_run (m d) runs
    where
      by_run :
          (o : Run (Unit {0}))
          → Runs (Marked d) (λ e. Advance d.reader e.reader) o
          → Keeps d.reader (run_then (ended_with o) k)
      by_run o (succeeds {d = e} p) = Keeps-after (Marked-Moved e p).0 (f e (Marked-Moved e p))
      by_run o (stops {e = x} {d = e} a) = Keeps-after a (g x e a)

Marked-Keeps :
    {d : TlvDissector} {o : Run (Unit {0})}
    → Runs (Marked d) (λ e. Advance d.reader e.reader) o
    → Keeps d.reader o
Marked-Keeps (succeeds p) =
    keeps
      (record { valid = p.valid; max_len = p.max_len; forward = omega (arith, p.starts, p.moves) })
Marked-Keeps (stops a) = gives_up a

pub next_expected-Safe :
    {n : ℕ} (expected_type : TlvType) (expected_tag : ℕ)
    → SafeBelow n (next_expected expected_type expected_tag)
next_expected-Safe expected_type expected_tag = record {
  runs = λ d v b l. Marked-Keeps (next_expected-Marked expected_type expected_tag d v);
}

pub next-Safe : {n : ℕ} → SafeBelow n next
next-Safe = record { runs = λ d v b l. Marked-Keeps (next-Marked d v) }
