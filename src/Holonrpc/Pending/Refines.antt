-- ===== src/Holonrpc/Pending/Refines.antt =====
-- The pending table of pkg/holonrpc as its callers may think of it: for each key a small state
-- machine of its own.
use go_holons.Common.{◌≡◌, refl, ap, ◌∙◌, Option, none, some, List, [], ◌∷◌, All, if◌then◌else◌}
use go_holons.Common.Text.{Text, text_eq}
use go_holons.Common.Map.{lookup}
use go_holons.Holonrpc.Pending.{Pending, fill, fail_all}
use go_holons.Holonrpc.Pending.Laws.{IsValid, view, view-register, view-deliver, view-unregister}
use go_holons.Holonrpc.Pending.Steps.{
  Event, registers, unregisters, delivers, fails, receives, step, run, step-IsValid,
}

module _ {M : Type 0} where
  -- A call of the key: there is none, it waits, or it has its answer. A registration makes it wait,
  -- a delivery answers it once, its end or the end of the connection takes it away.
  abbrev pub spec_step : Text → Event M → Option (Option M) → Option (Option M)
  spec_step j (registers k) call = if text_eq k j then some none else call
  spec_step j (unregisters k) call = if text_eq k j then none else call
  spec_step j (delivers k m) call =
      if text_eq k j then elim call [ none ↦ none | some b ↦ some (fill m b) ] else call
  spec_step j (fails m) call = none
  spec_step j (receives c) call = call

  abbrev pub spec_run : Text → List (Event M) → Option (Option M) → Option (Option M)
  spec_run j [] call = call
  spec_run j (e ∷ es) call = spec_run j es (spec_step j e call)

  -- A call that reads its channel is about to leave; the table itself has no such operation.
  abbrev pub IsTableEvent : Event M → Type 0
  IsTableEvent (receives c) = ⊥
  IsTableEvent _ = Unit {0}

  step-refines :
      (j : Text) (e : Event M) (p : Pending M)
      → IsTableEvent e
      → IsValid p
      → view (step e p) j ≡ spec_step j e (view p j)
  unfolding step fail_all lookup
  step-refines j (registers k) p t v = view-register k j p v
  step-refines j (unregisters k) p t v = view-unregister k j p
  step-refines j (delivers k m) p t v = view-deliver k j m p v
  step-refines j (fails m) p t v = refl
  step-refines j (receives c) p t v = elim t [ ]

  -- Seen from any one key, every history of a valid table, without the reads of its channels, is
  -- the history of that key's own state machine: a call waits from its registration on, the first
  -- delivery with its key answers it, its deletion or the end of the connection takes it away, and
  -- what happens to other keys does not matter.
  pub run-refines :
      (j : Text) (es : List (Event M)) (p : Pending M)
      → All IsTableEvent es
      → IsValid p
      → view (run es p) j ≡ spec_run j es (view p j)
  unfolding run
  run-refines j [] p t v = refl
  run-refines j (e ∷ es) p t v =
      run-refines j es (step e p) t.1 (step-IsValid e p v)
      ∙ ap (spec_run j es) (step-refines j e p t.0 v)
