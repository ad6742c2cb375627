-- ===== src/Ctl/Machine/Logic.antt =====
-- Programs over the machine of src/ctl: what holds whenever one succeeds, and which errors it can give.
use nix_capsule.Ctl.Machine.{Call, Program, return, throw, continue_with, ◌>>=◌, ignore, wrapped}
use nix_capsule.Prelude.{Result, ok, err, map_err, ◌≡◌, refl, ◌≢◌, List, ◌∷◌}

module _ {E : Type 0} (P : List Call → Type 0) where
  -- Whenever the program succeeds, `P` holds of the calls made.
  abbrev pub Ensures : {A : Type 0} → Program E A → Type 0
  Ensures {A} p = (h : List Call) (a : A) → (p h).0 ≡ ok a → P (p h).1

  -- The same of a continuation, which may use what the program before it gave.
  pub continue_then :
      {A B : Type 0} (f : A → Program E B) (r : Result E A) (h : List Call) (b : B)
      → ((a : A) → r ≡ ok a → (f a h).0 ≡ ok b → P (f a h).1)
      → (continue_with f (r, h)).0 ≡ ok b
      → P (continue_with f (r, h)).1
  continue_then f (ok a) h b each e = each a refl e
  continue_then f (err x) h b each e = cc

  pub bind-Ensures :
      {A B : Type 0} (p : Program E A) (f : A → Program E B)
      → ((a : A) → Ensures (f a))
      → Ensures (p >>= f)
  bind-Ensures p f each h b e = continue_then f (p h).0 (p h).1 b (λ a _. each a (p h).1 b) e

-- The program never gives the error.
pub record Avoids {E A : Type 0} (bad : E) (p : Program E A) : Type 0 where
  pub never : (h : List Call) → (p h).0 ≢ err bad

module _ {E A : Type 0} (bad : E) where
  pub return-Avoids : (a : A) → Avoids bad (return a)
  return-Avoids a = record { never = λ h e. cc }

  -- A program that makes a call and cannot fail.
  pub total-Avoids :
      (p : Program E A) → ((h : List Call) → (a : A) × ((p h).0 ≡ ok a)) → Avoids bad p
  total-Avoids p total = record { never = λ h e. cc (e, (total h).1) }

module _ {E A B : Type 0} (bad : E) where
  continue-Avoids :
      (f : A → Program E B) (r : Result E A) (h : List Call)
      → r ≢ err bad
      → ((a : A) → Avoids bad (f a))
      → (continue_with f (r, h)).0 ≢ err bad
  continue-Avoids f (ok a) h first each e = (each a).never h e
  continue-Avoids f (err x) h first each e = first cc

  pub bind-Avoids :
      (p : Program E A) (f : A → Program E B)
      → Avoids bad p
      → ((a : A) → Avoids bad (f a))
      → Avoids bad (p >>= f)
  bind-Avoids p f first each = record {
    never = λ h. continue-Avoids f (p h).0 (p h).1 (first.never h) each;
  }

module _ {D E A : Type 0} (bad : E) (wrap : D → E) where
  pub map_err-ne : ((d : D) → wrap d ≢ bad) → (r : Result D A) → map_err wrap r ≢ err bad
  map_err-ne apart (ok a) e = cc
  map_err-ne apart (err d) e = apart d cc

  -- An error that is wrapped is none of another kind.
  pub wrapped-Avoids : ((d : D) → wrap d ≢ bad) → (p : Program D A) → Avoids bad (wrapped wrap p)
  wrapped-Avoids apart p = record { never = λ h. map_err-ne apart (p h).0 }

-- Whatever comes of the program, `P` goes on to hold of the calls.
pub record Keeps {E A : Type 0} (P : List Call → Type 0) (p : Program E A) : Type 0 where
  pub keeps : (h : List Call) → P h → P (p h).1

module _ {E A B : Type 0} (P : List Call → Type 0) where
  continue-Keeps :
      (f : A → Program E B) (r : Result E A) (h : List Call)
      → P h
      → ((a : A) → r ≡ ok a → Keeps P (f a))
      → P (continue_with f (r, h)).1
  continue-Keeps f (ok a) h held each = (each a refl).keeps h held
  continue-Keeps f (err x) h held each = held

  -- The continuation may use that the program before it gave its value.
  pub bind_seen-Keeps :
      (p : Program E A) (f : A → Program E B)
      → Keeps P p
      → ((h : List Call) (a : A) → (p h).0 ≡ ok a → Keeps P (f a))
      → Keeps P (p >>= f)
  bind_seen-Keeps p f first each = record {
    keeps = λ h held. continue-Keeps f (p h).0 (p h).1 (first.keeps h held) (each h);
  }

  pub bind-Keeps :
      (p : Program E A) (f : A → Program E B)
      → Keeps P p
      → ((a : A) → Keeps P (f a))
      → Keeps P (p >>= f)
  bind-Keeps p f first each = bind_seen-Keeps p f first (λ h a seen. each a)

-- Behind the calls of `start` come only calls that are `Own`.
pub data Behind (Own : Call → Type 0) (start : List Call) : List Call → Type 0 where
  nothing : Behind Own start start
  more : {c : Call} {h : List Call} → Own c → Behind Own start h → Behind Own start (c ∷ h)

module _ {E A : Type 0} (Own : Call → Type 0) (start : List Call) where
  pub return-Keeps : (a : A) → Keeps (Behind Own start) (return {E = E} a)
  return-Keeps a = record { keeps = λ h held. held }

  pub throw-Keeps : (e : E) → Keeps {A = A} (Behind Own start) (throw e)
  throw-Keeps e = record { keeps = λ h held. held }

  -- A program that makes one call.
  pub call-Keeps :
      (c : Call) (answer : List Call → Result E A)
      → Own c
      → Keeps (Behind Own start) (λ h. (answer h, c ∷ h))
  call-Keeps c answer own = record { keeps = λ h. more own }

  pub ignore-Keeps :
      {D : Type 0} (p : Program E A)
      → Keeps (Behind Own start) p
      → Keeps (Behind Own start) (ignore {E = D} p)
  ignore-Keeps p kept = record { keeps = λ h. kept.keeps h }

  pub wrapped-Keeps :
      {D : Type 0} (f : E → D) (p : Program E A)
      → Keeps (Behind Own start) p
      → Keeps (Behind Own start) (wrapped f p)
  wrapped-Keeps f p kept = record { keeps = λ h. kept.keeps h }
