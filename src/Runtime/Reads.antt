-- ===== src/Runtime/Reads.antt =====
-- Rules about actions that only read, and about `try`.
use orbit_auth.Prelude.{String, ◌≡◌, refl, subst, ◌∙◌, Bool, true, false, arith, inl, inr}
use orbit_auth.Prelude.Results.{Result, ok, err, Result-cases}
use orbit_auth.Domain.{Time, Error}
use orbit_auth.Runtime.{
  Db, Env, World, Exec, pure, raise, refuse, try, then_run, ◌>>=◌, statement, parse_id,
}
use orbit_auth.Runtime.Effects.{Effect}

pub record IsReadOnly {A : Type 0} (m : Exec A) : Type 0 where
  pub at : (w : World) → (m w).1.db ≡ w.db

then_run-reads :
    {A B : Type 0} (r : Result Error A) (f : A → Exec B) (w : World)
    → ((a : A) → IsReadOnly (f a))
    → (then_run r f w).1.db ≡ w.db
then_run-reads (ok a) f w g = (g a).at w
then_run-reads (err e) f w g = refl

pub bind-IsReadOnly :
    {A B : Type 0} (m : Exec A) (f : A → Exec B)
    → IsReadOnly m
    → ((a : A) → IsReadOnly (f a))
    → IsReadOnly (m >>= f)
unfolding ◌>>=◌
bind-IsReadOnly m f h g = record { at = λ w. then_run-reads (m w).0 f (m w).1 g ∙ h.at w }

pub pure-IsReadOnly : {A : Type 0} (a : A) → IsReadOnly (pure a)
unfolding pure
pure-IsReadOnly a = record { at = λ w. refl }

pub raise-IsReadOnly : {A : Type 0} (e : Error) → IsReadOnly (raise {A = A} e)
unfolding raise
raise-IsReadOnly e = record { at = λ w. refl }

pub refuse-IsReadOnly : (b : Bool) (e : Error) → IsReadOnly (refuse b e)
refuse-IsReadOnly true e = raise-IsReadOnly e
refuse-IsReadOnly false e = pure-IsReadOnly tt

pub try-IsReadOnly : {A : Type 0} (m : Exec A) → IsReadOnly m → IsReadOnly (try m)
unfolding try
try-IsReadOnly m h = record { at = λ w. h.at w }

-- The outcome of a read, with what holds where it is a value.
pub Effect-try :
    {A : Type 0} (m : Exec A) (Q : Db → A → Db → Type 0)
    → IsReadOnly m
    → Effect m Q
    → Effect (try m) (λ d r d'. (d' ≡ d) × ((a : A) → r ≡ ok a → Q d a d))
unfolding try
Effect-try m Q h e = record {
  at = λ w r k. (h.at w, λ a g. subst (λ x. Q w.db a x) (h.at w) (e.at w a (ground (arith, k, g))));
}

module _ (env : Env) where
  pub statement-IsReadOnly :
      {A : Type 0} (run : Db → Time → Result Error (A × Db))
      → ((d : Db) (t : Time) (a : A) (d' : Db) → run d t ≡ ok (a, d') → d' ≡ d)
      → IsReadOnly (statement env run)
  unfolding statement
  statement-IsReadOnly run h = record {
    at = λ w. elim (Result-cases (run w.db (env.now w.calls))) [
      | inl ((a, d), e) ↦ ground (arith, h w.db (env.now w.calls) a d)
      | inr (x, e) ↦ ground arith
    ];
  }

  pub parse_id-IsReadOnly : (text : String) → IsReadOnly (parse_id env text)
  unfolding parse_id
  parse_id-IsReadOnly text = record { at = λ w. ground arith }
