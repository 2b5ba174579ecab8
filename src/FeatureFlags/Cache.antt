-- ===== src/FeatureFlags/Cache.antt =====
-- Which value a flag has, internal/infrastructure/featureflags/client.go.
use orbit_auth.Prelude.{
  ◌≡◌, refl, ap, ◌∙◌, String, Bool, true, false, not, ◌&&◌, Option, none, some, List, [], ◌∷◌, ◌==◌,
  lookup, insert, lookup-insert, eqb, arith, if◌then◌else◌, inl, inr, Option-cases,
}
use orbit_auth.FeatureFlags.{
  FlagRecord, Answer, no_answer, answered, PlatformProvider, add_flags, refresh, init, shutdown,
  refresh_loop, Event, initialising, ticking, shutting_down, perform, run, resolution,
  boolean_evaluation,
}

abbrev or_else : Option Bool → Option Bool → Option Bool
or_else none b = b
or_else (some v) b = some v

-- The last record of a name in a document.
unfoldable pub last_enabled : String → List FlagRecord → Option Bool
last_enabled flag [] = none
last_enabled flag (r ∷ doc) =
    or_else (last_enabled flag doc) (if r.name == flag then some r.enabled else none)

lookup-add_flags :
    (flag : String) (next : List (String × Bool)) (doc : List FlagRecord)
    → lookup flag (add_flags next doc) ≡ or_else (last_enabled flag doc) (lookup flag next)
unfolding add_flags last_enabled
lookup-add_flags flag next [] = refl
lookup-add_flags flag next (r ∷ doc) =
    lookup-add_flags flag (insert r.name r.enabled next) doc
    ∙ ap (or_else (last_enabled flag doc)) (lookup-insert r.name flag r.enabled next)
    ∙ (elim (Option-cases (last_enabled flag doc)) [
      | inl e ↦ ground (arith, e)
      | inr (v, e) ↦ ground (arith, e)
    ])

-- The answer brings a document.
abbrev is_document : Answer → Bool
is_document no_answer = false
is_document (answered status none) = false
is_document (answered status (some doc)) = eqb status 200

abbrev is_quiet : Event → Bool
is_quiet (initialising a) = not (is_document a)
is_quiet (ticking a) = not (is_document a)
is_quiet shutting_down = true

-- No event of the history brings a document.
unfoldable pub all_quiet : List Event → Bool
all_quiet [] = true
all_quiet (e ∷ l) = is_quiet e && all_quiet l

refresh-quiet :
    (a : Answer) (p : PlatformProvider) → is_document a ≡ false → (refresh a p).flags ≡ p.flags
unfolding refresh
refresh-quiet no_answer p h = refl
refresh-quiet (answered status none) p h = ground arith
refresh-quiet (answered status (some doc)) p h = ground arith

perform-quiet :
    (e : Event) (p : PlatformProvider) → is_quiet e ≡ true → (perform e p).flags ≡ p.flags
unfolding init shutdown refresh_loop
perform-quiet (initialising a) p h = refresh-quiet a (record p { cancel = true }) (ground arith)
perform-quiet (ticking a) p h = ground (arith, refresh-quiet a p (ground arith))
perform-quiet shutting_down p h = ground arith

run-quiet : (l : List Event) (p : PlatformProvider) → all_quiet l ≡ true → (run l p).flags ≡ p.flags
unfolding run all_quiet
run-quiet [] p h = refl
run-quiet (e ∷ l) p h = run-quiet l (perform e p) (ground arith) ∙ perform-quiet e p (ground arith)

or_else-none : (o : Option Bool) → or_else o none ≡ o
or_else-none none = refl
or_else-none (some v) = refl

-- After a refresh that gets a document, and any later start, stop and ticks of which none gets a
-- document, BooleanEvaluation gives a flag the value of the last record of its name in that
-- document as static, and the default for a name that the document lacks.
pub boolean_evaluation-run :
    (doc : List FlagRecord) (p : PlatformProvider) (l : List Event) (flag : String)
    (default_value : Bool)
    → all_quiet l ≡ true
    → boolean_evaluation (run l (refresh (answered 200 (some doc)) p)) flag default_value
      ≡ resolution default_value (last_enabled flag doc)
unfolding boolean_evaluation refresh lookup
boolean_evaluation-run doc p l flag default_value h =
    ap (λ m. resolution default_value (lookup flag m))
      (run-quiet l (refresh (answered 200 (some doc)) p) h)
    ∙ ap (resolution default_value)
        (lookup-add_flags flag [] doc ∙ or_else-none (last_enabled flag doc))
