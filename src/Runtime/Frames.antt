-- ===== src/Runtime/Frames.antt =====
-- Rules about the table of one-time codes across an action.
use orbit_auth.Prelude.{◌≡◌, refl, ◌∙◌, Bool, true, false, arith, inl, inr, if◌then◌else◌}
use orbit_auth.Prelude.Results.{Result, ok, err, Result-cases}
use orbit_auth.Domain.{Time, Error}
use orbit_auth.Runtime.{
  Db, Env, World, Exec, try, then_run, ◌>>=◌, statement, settle, transaction, tick, now, new_id,
  ask,
}
use orbit_auth.Runtime.Effects.{Effect}
use orbit_auth.Runtime.Reads.{IsReadOnly}

pub record SparesCodes {A : Type 0} (m : Exec A) : Type 0 where
  pub at : (w : World) → (m w).1.db.challenges ≡ w.db.challenges

pub Effect-SparesCodes :
    {A : Type 0} (m : Exec A) → SparesCodes m → Effect m (λ d a d'. d'.challenges ≡ d.challenges)
Effect-SparesCodes m h = record { at = λ w a e. h.at w }

pub read-SparesCodes : {A : Type 0} (m : Exec A) → IsReadOnly m → SparesCodes m
read-SparesCodes m h = record { at = λ w. ground (arith, h.at w) }

then_run-spares :
    {A B : Type 0} (r : Result Error A) (f : A → Exec B) (w : World)
    → ((a : A) → SparesCodes (f a))
    → (then_run r f w).1.db.challenges ≡ w.db.challenges
then_run-spares (ok a) f w g = (g a).at w
then_run-spares (err e) f w g = refl

pub bind-SparesCodes :
    {A B : Type 0} (m : Exec A) (f : A → Exec B)
    → SparesCodes m
    → ((a : A) → SparesCodes (f a))
    → SparesCodes (m >>= f)
unfolding ◌>>=◌
bind-SparesCodes m f h g = record { at = λ w. then_run-spares (m w).0 f (m w).1 g ∙ h.at w }

pub try-SparesCodes : {A : Type 0} (m : Exec A) → SparesCodes m → SparesCodes (try m)
unfolding try
try-SparesCodes m h = record { at = λ w. h.at w }

pub choice-SparesCodes :
    {A : Type 0} (b : Bool) (m n : Exec A)
    → SparesCodes m
    → SparesCodes n
    → SparesCodes (if b then m else n)
choice-SparesCodes true m n h k = h
choice-SparesCodes false m n h k = k

module _ (env : Env) where
  pub statement-SparesCodes :
      {A : Type 0} (run : Db → Time → Result Error (A × Db))
      → ((d : Db) (t : Time) (a : A) (d' : Db)
          → run d t ≡ ok (a, d')
          → d'.challenges ≡ d.challenges)
      → SparesCodes (statement env run)
  unfolding statement
  statement-SparesCodes run h = record {
    at = λ w. elim (Result-cases (run w.db (env.now w.calls))) [
      | inl ((a, d), e) ↦ ground (arith, h w.db (env.now w.calls) a d)
      | inr (x, e) ↦ ground arith
    ];
  }

  settle-spares :
      {A : Type 0} (before : Db) (r : Result Error A) (w : World)
      → w.db.challenges ≡ before.challenges
      → (settle env before r w).1.db.challenges ≡ before.challenges
  unfolding settle
  settle-spares before (err x) w h = refl
  settle-spares before (ok a) w h = ground (arith, h)

  pub transaction-SparesCodes :
      {A : Type 0} (body : Exec A) → SparesCodes body → SparesCodes (transaction env body)
  unfolding transaction
  transaction-SparesCodes body h = record {
    at =
        λ w. ground (arith, settle-spares w.db (body (tick w)).0 (body (tick w)).1 (h.at (tick w)));
  }

  pub now-SparesCodes : SparesCodes (now env)
  unfolding now
  now-SparesCodes = record { at = λ w. refl }

  pub new_id-SparesCodes : SparesCodes (new_id env)
  unfolding new_id
  new_id-SparesCodes = record { at = λ w. refl }

  pub ask-SparesCodes : {A : Type 0} (e : Error) (f : _) → SparesCodes (ask env {A = A} e f)
  unfolding ask
  ask-SparesCodes e f = record { at = λ w. ground arith }
