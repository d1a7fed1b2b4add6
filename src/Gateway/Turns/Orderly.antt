-- ===== src/Gateway/Turns/Orderly.antt =====
-- packages/runtime/src/gateway/active-turn-registry.ts: one turn of a conversation at a time, and
-- none is lost or started twice.
use plus_one.Common.{
  Bool, List, [], ◌∷◌, ◌+◌, ◌≡◌, ◌≤◌, refl, String, count, is_some, not, arith, ◌&&◌, Bool-cases,
  inl, str_eq, inr,
}
use plus_one.Gateway.Turns.{
  Line, Event, finish_work, happen, happen_all, running, submit, Registry, new_registry, call_next,
  on_line, submits, finishes, calls_back, shuts_down,
}
use plus_one.Gateway.Turns.Phases.{
  runs, run_over, settles, overtaken, overtaken_over, drains, drain_over, goes_on, drain_settling,
  Phase, absent, IsOrderly, Keeps, Keeps-line, stand, submit-Keeps, finish_work-Keeps,
  call_next-Keeps, line_of, waiting, is_nil,
}

module _ {A : Type 0} where
  on_line-IsOrderly :
      (k : String) (change : Line A → Line A) (r : Registry A)
      → Keeps change
      → ((j : String) → IsOrderly (r.lines j))
      → (j : String) → IsOrderly ((on_line k change r).lines j)
  on_line-IsOrderly k change r keeps g j = elim (Bool-cases (str_eq k j)) [
    | inl here ↦ rw here (Keeps-line change keeps (r.lines j) (g j))
    | inr other ↦ rw other (g j)
  ]

  happen-IsOrderly :
      (e : Event A) (r : Registry A)
      → ((j : String) → IsOrderly (r.lines j))
      → (j : String) → IsOrderly ((happen e r).lines j)
  unfolding happen
  happen-IsOrderly (submits k w) r g j = elim (Bool-cases r.accepting) [
    | inl accepts ↦ rw accepts (on_line-IsOrderly k (submit w) r (submit-Keeps w) g j)
    | inr closed ↦ rw closed (g j)
  ]
  happen-IsOrderly (finishes k n) r g j =
      on_line-IsOrderly k (finish_work n) r (finish_work-Keeps n) g j
  happen-IsOrderly (calls_back k) r g j = on_line-IsOrderly k call_next r call_next-Keeps g j
  happen-IsOrderly shuts_down r g j = g j

  happen_all-IsOrderly :
      (es : List (Event A)) (r : Registry A)
      → ((j : String) → IsOrderly (r.lines j))
      → (j : String) → IsOrderly ((happen_all es r).lines j)
  unfolding happen_all
  happen_all-IsOrderly [] r g j = g j
  happen_all-IsOrderly (e ∷ es) r g j =
      happen_all-IsOrderly es (happen e r) (happen-IsOrderly e r g) j

  new-IsOrderly : (j : String) → IsOrderly {A = A} (new_registry.lines j)
  new-IsOrderly j = stand absent [] refl (λ p. refl)

  running-line_of : (ph : Phase) (q a b : List A) → running (line_of ph q a b) ≤ 1
  running-line_of absent q a b = omega arith
  running-line_of runs q a b = omega arith
  running-line_of run_over q a b = omega arith
  running-line_of settles q a b = omega arith
  running-line_of overtaken q a b = omega arith
  running-line_of overtaken_over q a b = omega arith
  running-line_of drains q a b = omega arith
  running-line_of drain_over q a b = omega arith
  running-line_of goes_on q a b = omega arith
  running-line_of drain_settling q a b = omega arith

  -- Whatever happens to a new registry, in any order, at most one work of a key runs at a time: its
  -- promise is pending, or `run` has not come back from it.
  pub happen_all-le_one :
      (es : List (Event A)) (k : String) → running ((happen_all es new_registry).lines k) ≤ 1
  happen_all-le_one es k =
      let o = happen_all-IsOrderly es new_registry new-IsOrderly k in
      rw o.stands (running-line_of o.phase o.queue _ _)

  -- A work of the line is pending, or a callback is still to be called.
  abbrev pub is_under_way : Line A → Bool
  is_under_way l = not (is_nil l.works && is_nil l.jobs)

  abbrev pub has_slot : Line A → Bool
  has_slot l = is_some l.slot

  under_way-line_of :
      (ph : Phase) (q a b : List A) → is_under_way (line_of ph q a b) ≡ has_slot (line_of ph q a b)
  under_way-line_of absent q a b = refl
  under_way-line_of runs q a b = refl
  under_way-line_of run_over q a b = refl
  under_way-line_of settles q a b = refl
  under_way-line_of overtaken q a b = refl
  under_way-line_of overtaken_over q a b = refl
  under_way-line_of drains q a b = refl
  under_way-line_of drain_over q a b = refl
  under_way-line_of goes_on q a b = refl
  under_way-line_of drain_settling q a b = refl

  -- Whatever happens to a new registry, in any order, the accepted works of a key are those that
  -- were started and those that wait, by any test and as often, and the key has a slot, in which
  -- alone works wait, exactly while a work of it is pending or a callback is still to be called.
  pub happen_all-IsKept :
      (p : A → Bool) (es : List (Event A)) (k : String)
      → (count p ((happen_all es new_registry).lines k).accepted
          ≡ count p ((happen_all es new_registry).lines k).started
            + count p (waiting ((happen_all es new_registry).lines k).slot))
        × (is_under_way ((happen_all es new_registry).lines k)
            ≡ has_slot ((happen_all es new_registry).lines k))
  happen_all-IsKept p es k =
      let o = happen_all-IsOrderly es new_registry new-IsOrderly k in
      (o.kept p, rw o.stands (under_way-line_of o.phase o.queue _ _))
