-- ===== src/Tlv/Reader/Accepted.antt =====
-- What `Next` has checked of the element that it stands on.
use matter_dissector.Prelude.{
  ℕ, ◌%◌, ◌^◌, ◌≡◌, refl, Bool, true, false, not, ◌==◌, ==_iff, ltb, if◌then◌else◌, arith,
}
use matter_dissector.Tlv.Types.{
  TlvType, not_specified, unknown_container, code, has_code, is_type, to_uint8, structure, array,
  path, end_of_container, tlv_type_has_length,
}
use matter_dissector.Tlv.Tags.{anonymous_tag, unknown_implicit_tag, is_context_tag}
use matter_dissector.Tlv.Reader.State.{
  TlvReader, MatterError, Outcome, ok, err, fault, out_of_fuel, Method, and_then, verify,
  element_type, overall_len_remaining, IsValid, invalid_tlv_tag, invalid_tlv_element,
  unknown_implicit_tlv_tag, incorrect_state, fail, pure, tlv_underrun, end_of_tlv,
}
use matter_dissector.Tlv.Reader.Input.{ensure_data}
use matter_dissector.Tlv.Reader.Element.{
  tag_fits, verify_tag, verify_length, verify_element, read_element, after_control, read_control,
  get_element_head_length, read_head, parse_head,
}
use matter_dissector.Tlv.Reader.Container.{check_end, next, skip}
use matter_dissector.Tlv.Reader.Ends.{Ends, returns, fails}
use matter_dissector.Tlv.Reader.Advance.{Advance}
use matter_dissector.Tlv.Reader.Progress.{Progress}
use matter_dissector.Tlv.Reader.Moves.{next-Progress}

-- The tag suits the container: no context tag at the top, a tag in a structure and in a path, none in an
-- array.
abbrev pub TagSuits : TlvType → ℕ → Type 0
TagSuits not_specified tag = is_context_tag tag ≡ false
TagSuits unknown_container tag = Unit
TagSuits (code c) tag =
    if c == structure
    then (tag == anonymous_tag) ≡ false
    else if c == path
    then (tag == anonymous_tag) ≡ false
    else (c ≡ array) × (tag ≡ anonymous_tag)

-- The length of a string, as 32 bits, is no more than what is left of the encoding.
abbrev pub LengthSuits : Bool → TlvReader → Type 0
LengthSuits true r = ltb (overall_len_remaining r) (r.elem_len_or_val % 2 ^ 32) ≡ false
LengthSuits false r = Unit

abbrev pub Accepted : TlvReader → Type 0
Accepted r =
    (has_code (element_type r) end_of_container ≡ false)
    × (((r.elem_tag == unknown_implicit_tag) ≡ false) × TagSuits r.container_type r.elem_tag)
    × LengthSuits (tlv_type_has_length (to_uint8 (element_type r))) r

-- A check that succeeds only if `Q` holds.
data Judged (r : TlvReader) (Q : Type 0) : Outcome (Unit {0}) → Type 0 where
  accepts : Q → Judged r Q (ok tt r)
  refuses : {e : MatterError} → Judged r Q (err e r)

Judged-verify :
    (r : TlvReader) (Q : Type 0) (b : Bool) (e : MatterError)
    → (b ≡ true → Q)
    → Judged r Q (verify b e r)
Judged-verify r Q true e f = accepts (f refl)
Judged-verify r Q false e f = refuses

Judged-then :
    (r : TlvReader) (P Q : Type 0) (o : Outcome (Unit {0})) (k : Unit {0} → Method (Unit {0}))
    → Judged r P o
    → (P → Judged r Q (k tt r))
    → Judged r Q (and_then o k)
Judged-then r P Q o k (accepts p) f = f p
Judged-then r P Q o k refuses f = refuses

unnegated : (b : Bool) → not b ≡ true → b ≡ false
unnegated true e = ground arith
unnegated false e = refl

Judged-if :
    (r : TlvReader) (P Q : Type 0) (b : Bool) (m k : Method (Unit {0}))
    → Judged r P (m r)
    → Judged r Q (k r)
    → Judged r (if b then P else Q) (if◌then◌else◌ b m k r)
Judged-if r P Q true m k p q = p
Judged-if r P Q false m k p q = q

array_only :
    (r : TlvReader) (c : ℕ) (b : Bool)
    → (b ≡ true → c ≡ array)
    → Judged r ((c ≡ array) × (r.elem_tag ≡ anonymous_tag)) (
        if◌then◌else◌ b
          (verify (r.elem_tag == anonymous_tag) invalid_tlv_tag)
          (fail incorrect_state)
          r)
array_only r c true f = Judged-verify r _ _ _ (λ e. (f refl, (==_iff r.elem_tag anonymous_tag).0 e))
array_only r c false f = refuses

tag_fits-Judged :
    (t : TlvType) (r : TlvReader) → Judged r (TagSuits t r.elem_tag) (tag_fits t r.elem_tag r)
unfolding tag_fits
tag_fits-Judged not_specified r = Judged-verify r _ _ _ (unnegated _)
tag_fits-Judged unknown_container r = accepts tt
tag_fits-Judged (code c) r =
    Judged-if r _ _ (c == structure) _ _ (Judged-verify r _ _ _ (unnegated _)) (
      Judged-if r _ _ (c == path) _ _ (Judged-verify r _ _ _ (unnegated _))
        (array_only r c (c == array) (==_iff c array).0))

length-Judged :
    (r : TlvReader) (b : Bool)
    → Judged r (LengthSuits b r) (
        if◌then◌else◌ b
          (verify (not (ltb (overall_len_remaining r) (r.elem_len_or_val % 2 ^ 32))) tlv_underrun)
          (pure tt)
          r)
length-Judged r true = Judged-verify r _ _ _ (unnegated _)
length-Judged r false = accepts tt

-- What `VerifyElement` checks of an element that may be the end of a container.
abbrev Checked : TlvReader → Type 0
Checked r =
    (if has_code (element_type r) end_of_container
      then Unit
      else ((r.elem_tag == unknown_implicit_tag) ≡ false) × TagSuits r.container_type r.elem_tag)
    × LengthSuits (tlv_type_has_length (to_uint8 (element_type r))) r

verify_tag-Judged :
    (r : TlvReader)
    → Judged r
        (if has_code (element_type r) end_of_container
          then Unit
          else ((r.elem_tag == unknown_implicit_tag) ≡ false)
            × TagSuits r.container_type r.elem_tag)
        (verify_tag r)
unfolding verify_tag
verify_tag-Judged r =
    Judged-if r _ _ (has_code (element_type r) end_of_container) _ _
      (Judged-then r Unit _ _ (λ _. verify (r.elem_tag == anonymous_tag) invalid_tlv_tag)
        (Judged-verify r _ (not (is_type r.container_type not_specified)) invalid_tlv_element
          (λ _. tt))
        (λ _. Judged-verify r _ (r.elem_tag == anonymous_tag) invalid_tlv_tag (λ _. tt)))
      (Judged-then r _ _ _ (λ _. tag_fits r.container_type r.elem_tag)
        (Judged-verify r _ (not (r.elem_tag == unknown_implicit_tag)) unknown_implicit_tlv_tag
          (unnegated _))
        (λ known. keep known (tag_fits-Judged r.container_type r)))
  where
    keep :
        {o : Outcome (Unit {0})}
        → (r.elem_tag == unknown_implicit_tag) ≡ false
        → Judged r (TagSuits r.container_type r.elem_tag) o
        → Judged r
            (((r.elem_tag == unknown_implicit_tag) ≡ false) × TagSuits r.container_type r.elem_tag)
            o
    keep k (accepts p) = accepts (k, p)
    keep k refuses = refuses

verify_element-Judged : (r : TlvReader) → Judged r (Checked r) (verify_element r)
unfolding verify_element verify_length
verify_element-Judged r =
    Judged-then r _ _ _ _ (verify_tag-Judged r)
      (λ p. keep p (length-Judged r (tlv_type_has_length (to_uint8 (element_type r)))))
  where
    keep : {P Q : Type 0} {o : Outcome (Unit {0})} → P → Judged r Q o → Judged r (P × Q) o
    keep p (accepts q) = accepts (p, q)
    keep p refuses = refuses

-- Every success ends in a state with `Q`.
data Only (Q : TlvReader → Type 0) : Outcome (Unit {0}) → Type 0 where
  succeeds : {r : TlvReader} → Q r → Only Q (ok tt r)
  stops : {e : MatterError} {r : TlvReader} → Only Q (err e r)
  faults : Only Q fault
  runs_out : Only Q out_of_fuel

Only-then :
    {A : Type 0} (Q : TlvReader → Type 0) (o : Outcome A) (k : A → Method (Unit {0}))
    → ((a : A) (r : TlvReader) → Only Q (k a r))
    → Only Q (and_then o k)
Only-then Q (ok a r) k f = f a r
Only-then Q (err e r) k f = stops
Only-then Q fault k f = faults
Only-then Q out_of_fuel k f = runs_out

Only-bind :
    (P Q : TlvReader → Type 0) (o : Outcome (Unit {0})) (k : Unit {0} → Method (Unit {0}))
    → Only P o
    → ((r : TlvReader) → P r → Only Q (k tt r))
    → Only Q (and_then o k)
Only-bind P Q o k (succeeds p) f = f _ p
Only-bind P Q o k stops f = stops
Only-bind P Q o k faults f = faults
Only-bind P Q o k runs_out f = runs_out

Only-Judged :
    (Q : TlvReader → Type 0) (r : TlvReader) (o : Outcome (Unit {0})) → Judged r (Q r) o → Only Q o
Only-Judged Q r o (accepts q) = succeeds q
Only-Judged Q r o refuses = stops

read_element-Only : (r : TlvReader) → Only Checked (read_element r)
unfolding read_element after_control
read_element-Only r = Only-then Checked (ensure_data end_of_tlv r) _ λ _ s.
    Only-then Checked (read_control s) _ λ _ t.
      Only-then Checked (get_element_head_length t) _ λ n u.
        Only-then Checked (read_head n u) _ λ p v.
          Only-then Checked (parse_head p v) _
            λ _ w. Only-Judged Checked w (verify_element w) (verify_element-Judged w)

not_the_end :
    (r : TlvReader) (b : Bool) (P Q : Type 0)
    → (if b then Unit else P)
    → Q
    → Judged r ((b ≡ false) × P × Q) (if◌then◌else◌ b (fail end_of_tlv) (pure tt) r)
not_the_end r true P Q p q = refuses
not_the_end r false P Q p q = accepts (refl, p, q)

next-Only : (r : TlvReader) → Only Accepted (next r)
unfolding next check_end
next-Only r = Only-then Accepted (skip r) _ λ _ s.
    Only-bind Checked Accepted (read_element s) (λ _. check_end) (read_element-Only s)
      λ t p. Only-Judged Accepted t (check_end t) (
        not_the_end t (has_code (element_type t) end_of_container)
          (((t.elem_tag == unknown_implicit_tag) ≡ false) × TagSuits t.container_type t.elem_tag)
          (LengthSuits (tlv_type_has_length (to_uint8 (element_type t))) t) p.0 p.1)

both :
    {P E : TlvReader → Type 0} {o : Outcome (Unit {0})}
    → Ends (λ _. P) (λ _. E) o
    → Only Accepted o
    → Ends (λ _ s. P s × Accepted s) (λ _. E) o
both (returns p) (succeeds q) = returns (p, q)
both (fails e) stops = fails e

-- On every valid reader `Next` ends without a fault, and if it succeeds then the element it stands on has
-- been checked: it is not the end of a container, its tag is known and suits the container, and the
-- length of a string fits, as 32 bits, into what is left of the encoding.
pub next-Accepted :
    (r : TlvReader) → IsValid r → Ends (λ _ s. Progress r s × Accepted s) (λ _. Advance r) (next r)
next-Accepted r v = both (next-Progress r v) (next-Only r)
