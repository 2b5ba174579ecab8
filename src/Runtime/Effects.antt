-- ===== src/Runtime/Effects.antt =====
-- What a successful run of an action says about the tables before and after it.
use orbit_auth.Prelude.{
  String, ◌≡◌, refl, Bool, true, false, some, arith, inl, inr, Bool-cases, ℕ, Option, Option-cases,
}
use orbit_auth.Prelude.Results.{Result, ok, err, Result-cases}
use orbit_auth.Domain.{Time, Error}
use orbit_auth.Runtime.{
  new_id, Db, Env, World, Exec, pure, raise, refuse, then_run, ◌>>=◌, statement, settle,
  transaction, tick, now, parse_id, ask,
}

-- Whenever `m` returns `a`, the tables before and after are related.
pub record Effect {A : Type 0} (m : Exec A) (Q : Db → A → Db → Type 0) : Type 0 where
  pub at : (w : World) (a : A) → (m w).0 ≡ ok a → Q w.db a (m w).1.db

-- One effect after another.
pub record Seq {A B : Type 0} (Q : Db → A → Db → Type 0) (R : A → Db → B → Db → Type 0)
    (before : Db) (b : B) (after : Db) : Type 0 where
  pub value : A
  pub between : Db
  pub first : Q before value between
  pub second : R value between b after

then_run-Effect :
    {A B : Type 0} (r : Result Error A) (f : A → Exec B) (Q : Db → A → Db → Type 0)
    (R : A → Db → B → Db → Type 0) (before : Db) (w : World) (b : B)
    → ((a : A) → r ≡ ok a → Q before a w.db)
    → ((a : A) → Effect (f a) (R a))
    → (then_run r f w).0 ≡ ok b
    → Seq Q R before b (then_run r f w).1.db
then_run-Effect (ok a) f Q R before w b q g e = record {
  value = a;
  between = w.db;
  first = q a refl;
  second = (g a).at w b e;
}
then_run-Effect (err x) f Q R before w b q g e = cc

module _ {A B : Type 0} (m : Exec A) (f : A → Exec B) (Q : Db → A → Db → Type 0)
    (R : A → Db → B → Db → Type 0) where
  pub Effect-bind : Effect m Q → ((a : A) → Effect (f a) (R a)) → Effect (m >>= f) (Seq Q R)
  unfolding ◌>>=◌
  Effect-bind e g = record {
    at = λ w b h. then_run-Effect (m w).0 f Q R w.db (m w).1 b (e.at w) g h;
  }

then_run-ok :
    {A B : Type 0} (r : Result Error A) (f : A → Exec B) (w : World) (b : B)
    → (then_run r f w).0 ≡ ok b
    → (a : A) × (r ≡ ok a) × (then_run r f w ≡ f a w)
then_run-ok (ok a) f w b h = (a, refl, refl)
then_run-ok (err x) f w b h = cc

-- The first of two actions that return together has returned, and the second ran where it ended.
pub bind-ok :
    {A B : Type 0} (m : Exec A) (f : A → Exec B) (w : World) (b : B)
    → ((m >>= f) w).0 ≡ ok b
    → (a : A) × ((m w).0 ≡ ok a) × ((m >>= f) w ≡ f a (m w).1)
unfolding ◌>>=◌
bind-ok m f w b h = then_run-ok (m w).0 f (m w).1 b h

pub refuse-ok :
    (bad : Bool) (x : Error) (w : World) (a : Unit {0})
    → (refuse bad x w).0 ≡ ok a
    → (refuse bad x w).1 ≡ w
unfolding pure raise
refuse-ok true x w a h = cc
refuse-ok false x w a h = refl

pub Effect-map :
    {A : Type 0} (m : Exec A) (Q R : Db → A → Db → Type 0)
    → Effect m Q
    → ((d : Db) (a : A) (d' : Db) → Q d a d' → R d a d')
    → Effect m R
Effect-map m Q R e f = record { at = λ w a h. f w.db a (m w).1.db (e.at w a h) }

abbrev pub Returned : {A : Type 0} → A → Db → A → Db → Type 0
Returned a d b d' = (b ≡ a) × (d' ≡ d)

pub Effect-pure : {A : Type 0} (a : A) → Effect (pure a) (Returned a)
unfolding pure
Effect-pure a = record { at = λ w b h. (ground arith, refl) }

pub Effect-refuse : (b : Bool) (x : Error) → Effect (refuse b x) (λ d a d'. (b ≡ false) × (d' ≡ d))
unfolding pure raise
Effect-refuse true x = record { at = λ w a h. cc }
Effect-refuse false x = record { at = λ w a h. (refl, refl) }

pub Effect-raise : {A : Type 0} (e : Error) (Q : Db → A → Db → Type 0) → Effect (raise e) Q
unfolding raise
Effect-raise e Q = record { at = λ w a h. absurd (ground arith) }

module _ (env : Env) where
  pub Effect-statement :
      {A : Type 0} (run : Db → Time → Result Error (A × Db))
      → Effect (statement env run) (λ d a d'. (t : Time) × (run d t ≡ ok (a, d')))
  unfolding statement
  Effect-statement run = record {
    at = λ w a h. elim (Result-cases (run w.db (env.now w.calls))) [
      | inl ((b, d), e) ↦ (env.now w.calls, ground arith)
      | inr (x, e) ↦ absurd (ground arith)
    ];
  }

  pub Effect-now : Effect (now env) (λ d a d'. d' ≡ d)
  unfolding now
  Effect-now = record { at = λ w a h. refl }

  pub Effect-new_id : Effect (new_id env) (λ d a d'. d' ≡ d)
  unfolding new_id
  Effect-new_id = record { at = λ w a h. refl }

  pub Effect-parse_id :
      (text : String)
      → Effect (parse_id env text) (λ d id d'. (env.parse_uuid text ≡ some id) × (d' ≡ d))
  unfolding parse_id
  Effect-parse_id text = record { at = λ w a h. (ground arith, ground arith) }

  pub Effect-ask :
      {A : Type 0} (e : Error) (f : ℕ → Option A)
      → Effect (ask env e f) (λ d a d'. (d' ≡ d) × ((k : ℕ) × (f k ≡ some a)))
  unfolding ask
  Effect-ask e f = record {
    at = λ w a h. elim (Option-cases (f w.calls)) [
      | inl g ↦ absurd (ground arith)
      | inr (b, g) ↦ (ground arith, (w.calls, ground arith))
    ];
  }

  settle-Effect :
      {A : Type 0} (Q : Db → A → Db → Type 0) (before : Db) (r : Result Error A) (w : World) (a : A)
      → ((b : A) → r ≡ ok b → Q before b w.db)
      → (settle env before r w).0 ≡ ok a
      → Q before a (settle env before r w).1.db
  unfolding settle
  settle-Effect Q before (err x) w a q h = cc
  settle-Effect Q before (ok b) w a q h = elim (Bool-cases (env.fails w.calls)) [
    | inl failed ↦ absurd (ground arith)
    | inr committed ↦ rw committed (q a (ground arith))
  ]

  -- A transaction that returns has had the effect of its body.
  pub Effect-transaction :
      {A : Type 0} (body : Exec A) (Q : Db → A → Db → Type 0)
      → Effect body Q
      → Effect (transaction env body) Q
  unfolding transaction
  Effect-transaction body Q e = record {
    at = λ w a h. elim (Bool-cases (env.fails w.calls)) [
      | inl failed ↦ absurd (ground arith)
      | inr begun ↦ rw begun (
          settle-Effect Q w.db (body (tick w)).0 (body (tick w)).1 a (e.at (tick w)) (ground arith))
    ];
  }
