-- ===== src/Tlv/Reader/Ends.antt =====
-- Total correctness of a method's run: no fault, enough fuel, and a postcondition for success and
-- for failure.
use matter_dissector.Prelude.{if◌then◌else◌, Bool, true, false, ◌≡◌, refl}
use matter_dissector.Tlv.Reader.State.{
  TlvReader, MatterError, Outcome, ok, err, Method, and_then, ◌>>◌, verify,
}

pub data Ends {A : Type 0} (P : A → TlvReader → Type 0) (E : MatterError → TlvReader → Type 0)
    : Outcome A → Type 0 where
  returns : {a : A} {r : TlvReader} → P a r → Ends P E (ok a r)
  fails : {e : MatterError} {r : TlvReader} → E e r → Ends P E (err e r)

module _ {A : Type 0} {P : A → TlvReader → Type 0} {E : MatterError → TlvReader → Type 0} where
  -- The rule of a chain: the failures of both parts meet the same condition.
  pub bind :
      {B : Type 0} {Q : B → TlvReader → Type 0} {F : MatterError → TlvReader → Type 0}
      {m : Outcome A} {k : A → Method B}
      → Ends P E m
      → ((e : MatterError) (r : TlvReader) → E e r → F e r)
      → ((a : A) (r : TlvReader) → P a r → Ends Q F (k a r))
      → Ends Q F (and_then m k)
  bind (returns p) weaken next = next _ _ p
  bind (fails e) weaken next = fails (weaken _ _ e)

  pub mono :
      {Q : A → TlvReader → Type 0} {F : MatterError → TlvReader → Type 0} {m : Outcome A}
      → Ends P E m
      → ((a : A) (r : TlvReader) → P a r → Q a r)
      → ((e : MatterError) (r : TlvReader) → E e r → F e r)
      → Ends Q F m
  mono (returns p) f g = returns (f _ _ p)
  mono (fails e) f g = fails (g _ _ e)

module _ {Q : Unit {0} → TlvReader → Type 0} {E : MatterError → TlvReader → Type 0} where
  -- A check at the end of a chain.
  pub verify-Ends :
      (b : Bool) (e : MatterError) (r : TlvReader)
      → (b ≡ true → Q tt r)
      → (b ≡ false → E e r)
      → Ends Q E (verify b e r)
  verify-Ends true e r p q = returns (p refl)
  verify-Ends false e r p q = fails (q refl)

module _ {A : Type 0} {P : A → TlvReader → Type 0} {E : MatterError → TlvReader → Type 0} where
  pub if_Ends :
      (b : Bool) {m k : Outcome A}
      → (b ≡ true → Ends P E m)
      → (b ≡ false → Ends P E k)
      → Ends P E (if b then m else k)
  if_Ends true p q = p refl
  if_Ends false p q = q refl

  pub if_method-Ends :
      (b : Bool) (m k : Method A) (r : TlvReader)
      → (b ≡ true → Ends P E (m r))
      → (b ≡ false → Ends P E (k r))
      → Ends P E (if◌then◌else◌ b m k r)
  if_method-Ends true m k r p q = p refl
  if_method-Ends false m k r p q = q refl

-- A run that only checks: it succeeds or fails with the reader as it is.
pub data Checks (r : TlvReader) : Outcome (Unit {0}) → Type 0 where
  passes : Checks r (ok tt r)
  refuses : {e : MatterError} → Checks r (err e r)

module _ {r : TlvReader} where
  pub Checks-verify : (b : Bool) (e : MatterError) → Checks r (verify b e r)
  Checks-verify true e = passes
  Checks-verify false e = refuses

  pub Checks-if :
      (b : Bool) (m k : Method (Unit {0}))
      → Checks r (m r)
      → Checks r (k r)
      → Checks r (if◌then◌else◌ b m k r)
  Checks-if true m k c d = c
  Checks-if false m k c d = d

  pub Checks-and_then :
      {m : Outcome (Unit {0})} (k : Unit {0} → Method (Unit {0}))
      → Checks r m
      → Checks r (k tt r)
      → Checks r (and_then m k)
  Checks-and_then k passes d = d
  Checks-and_then k refuses d = refuses

  pub Checks-then :
      (b : Bool) (e : MatterError) (k : Method (Unit {0}))
      → Checks r (k r)
      → Checks r ((verify b e >> k) r)
  Checks-then true e k c = c
  Checks-then false e k c = refuses

  pub Checks-Ends :
      {P : Unit {0} → TlvReader → Type 0} {E : MatterError → TlvReader → Type 0}
      {m : Outcome (Unit {0})}
      → Checks r m
      → P tt r
      → ((e : MatterError) → E e r)
      → Ends P E m
  Checks-Ends passes p q = returns p
  Checks-Ends refuses p q = fails (q _)
