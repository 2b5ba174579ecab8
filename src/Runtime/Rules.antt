-- ===== src/Runtime/Rules.antt =====
-- Rules about actions: predicates of the tables that they keep, and failures.
use orbit_auth.Prelude.{String, ◌≡◌, refl, Option-cases, arith, inl, inr}
use orbit_auth.Prelude.Results.{Result, ok, err, Result-cases}
use orbit_auth.Domain.{Error}
use orbit_auth.Runtime.{Db, Env, World, Exec, settle, transaction, tick, ◌>>=◌, parse_id}
use orbit_auth.Runtime.Effects.{Effect}

-- `m` keeps `P` of the tables, whether it returns or fails.
pub record Keeps {A : Type 0} (P : Db → Type 0) (m : Exec A) : Type 0 where
  pub at : (w : World) → P w.db → P (m w).1.db

-- An action that fails has not changed the tables.
pub record IsAtomic {A : Type 0} (m : Exec A) : Type 0 where
  pub at : (w : World) (e : Error) → (m w).0 ≡ err e → (m w).1.db ≡ w.db

module _ (env : Env) {A : Type 0} where
  pub settle-cases :
      (before : Db) (r : Result Error A) (w : World) (e : Error)
      → (settle env before r w).0 ≡ err e
      → (settle env before r w).1.db ≡ before
  unfolding settle
  settle-cases before (err x) w e h = refl
  settle-cases before (ok a) w e h = ground arith

  -- A transaction that fails, at its beginning, in its body or at the commit, changes no table.
  pub transaction-IsAtomic : (body : Exec A) → IsAtomic (transaction env body)
  unfolding transaction
  transaction-IsAtomic body = record {
    at = λ w e h. ground (arith, settle-cases w.db (body (tick w)).0 (body (tick w)).1 e);
  }

module _ (env : Env) {A : Type 0} (f : String → Exec A) where
  -- Reading an identifier first changes nothing.
  pub parse_id-IsAtomic :
      (text : String) → ((id : String) → IsAtomic (f id)) → IsAtomic (parse_id env text >>= f)
  unfolding parse_id ◌>>=◌
  parse_id-IsAtomic text atomic = record {
    at = λ w e h. elim (Option-cases (env.parse_uuid text)) [
      | inl bad ↦ rw (bad, parse_id) refl
      | inr (id, good) ↦ rw (good, parse_id) ((atomic id).at w e (ground arith))
    ];
  }

-- What holds is kept when a failure changes nothing and a success keeps it.
pub Keeps-atomic :
    {A : Type 0} (P : Db → Type 0) (m : Exec A) (Q : Db → A → Db → Type 0)
    → IsAtomic m
    → Effect m Q
    → ((d : Db) (a : A) (d' : Db) → P d → Q d a d' → P d')
    → Keeps P m
Keeps-atomic P m Q atomic effect keep = record {
  at = λ w h. elim (Result-cases (m w).0) [
    | inl (a, e) ↦ keep w.db a (m w).1.db h (effect.at w a e)
    | inr (x, e) ↦ rw (atomic.at w x e) h
  ];
}
