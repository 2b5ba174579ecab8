-- ===== src/Runtime/Keeping.antt =====
-- Rules about a predicate of the tables that an action keeps, step by step.
use orbit_auth.Prelude.{String, ◌≡◌, ◌∙◌, inl, inr, Bool-cases, Option-cases, sym, subst}
use orbit_auth.Prelude.Results.{Result, ok, err, Result-cases}
use orbit_auth.Domain.{Time, Error}
use orbit_auth.Runtime.{
  Db, Env, World, Exec, try, then_run, ◌>>=◌, statement, settle, transaction, tick, parse_id,
}
use orbit_auth.Runtime.Reads.{IsReadOnly}
use orbit_auth.Runtime.Rules.{Keeps, IsAtomic}

module _ (P : Db → Type 0) where
  pub read-Keeps : {A : Type 0} (m : Exec A) → IsReadOnly m → Keeps P m
  read-Keeps m h = record { at = λ w p. subst P (sym (h.at w)) p }

  then_run-Keeps :
      {A B : Type 0} (r : Result Error A) (f : A → Exec B) (w : World)
      → ((a : A) → Keeps P (f a))
      → P w.db
      → P (then_run r f w).1.db
  then_run-Keeps (ok a) f w g p = (g a).at w p
  then_run-Keeps (err e) f w g p = p

  pub bind-Keeps :
      {A B : Type 0} (m : Exec A) (f : A → Exec B)
      → Keeps P m
      → ((a : A) → Keeps P (f a))
      → Keeps P (m >>= f)
  unfolding ◌>>=◌
  bind-Keeps m f h g = record { at = λ w p. then_run-Keeps (m w).0 f (m w).1 g (h.at w p) }

  pub try-Keeps : {A : Type 0} (m : Exec A) → Keeps P m → Keeps P (try m)
  unfolding try
  try-Keeps m h = record { at = h.at }

  module _ (env : Env) where
    pub statement-Keeps :
        {A : Type 0} (run : Db → Time → Result Error (A × Db))
        → ((d : Db) (t : Time) (a : A) (d' : Db) → run d t ≡ ok (a, d') → P d → P d')
        → Keeps P (statement env run)
    unfolding statement
    statement-Keeps run h = record {
      at = λ w p. elim (Bool-cases (env.fails w.calls)) [
        | inl failed ↦ rw (failed, statement) p
        | inr works ↦
            rw (works, statement)
              (elim (Result-cases (run w.db (env.now w.calls))) [
                | inl ((a, d), e) ↦ rw e (h w.db (env.now w.calls) a d e p)
                | inr (x, e) ↦ rw e p
              ])
      ];
    }

    settle-Keeps :
        {A : Type 0} (before : Db) (r : Result Error A) (w : World)
        → P before
        → P w.db
        → P (settle env before r w).1.db
    unfolding settle
    settle-Keeps before (err x) w b p = b
    settle-Keeps before (ok a) w b p = elim (Bool-cases (env.fails w.calls)) [
      | inl failed ↦ rw failed b
      | inr works ↦ rw works p
    ]

    pub transaction-Keeps :
        {A : Type 0} (body : Exec A) → Keeps P body → Keeps P (transaction env body)
    unfolding transaction
    transaction-Keeps body h = record {
      at = λ w p. elim (Bool-cases (env.fails w.calls)) [
        | inl failed ↦ rw failed p
        | inr works ↦
            rw works (settle-Keeps w.db (body (tick w)).0 (body (tick w)).1 p (h.at (tick w) p))
      ];
    }

    pub parse_id-Keeps : (text : String) → Keeps P (parse_id env text)
    unfolding parse_id
    parse_id-Keeps text = record {
      at = λ w p. elim (Option-cases (env.parse_uuid text)) [
        | inl bad ↦ rw (bad, parse_id) p
        | inr (id, good) ↦ rw (good, parse_id) p
      ];
    }

then_run-IsAtomic :
    {A B : Type 0} (r : Result Error A) (f : A → Exec B) (before : Db) (w : World) (e : Error)
    → w.db ≡ before
    → ((a : A) → IsAtomic (f a))
    → (then_run r f w).0 ≡ err e
    → (then_run r f w).1.db ≡ before
then_run-IsAtomic (ok a) f before w e same g h = (g a).at w e h ∙ same
then_run-IsAtomic (err x) f before w e same g h = same

-- Reading first changes nothing.
pub read_bind-IsAtomic :
    {A B : Type 0} (m : Exec A) (f : A → Exec B)
    → IsReadOnly m
    → ((a : A) → IsAtomic (f a))
    → IsAtomic (m >>= f)
unfolding ◌>>=◌
read_bind-IsAtomic m f h g = record {
  at = λ w e k. then_run-IsAtomic (m w).0 f w.db (m w).1 e (h.at w) g k;
}
