-- ===== src/ModuleGraph/Docs/Gathered.antt =====
-- The documentation of all modules, in the order in which they are done.
use nestforge.Base.{
  ℕ, ◌≡◌, refl, ◌∙◌, sym, true, Option, none, some, List, [], ◌∷◌, ◌++◌, append-nil, String, Result,
  ok, err, arith, contains,
}
use nestforge.Base.Exec.{pure}
use nestforge.Base.Exec.Invert.{bind-eq-ok, modify-eq-ok}
use nestforge.ModuleGraph.ModuleRef.{ModuleRef}
use nestforge.ModuleGraph.Walk.{Walk, VisitError, default}
use nestforge.ModuleGraph.Walk.Sorted.{IsSorted, adding}
use nestforge.ModuleGraph.Walk.Order.{run_all, visit-Done}
use nestforge.ModuleGraph.Runtime.Turns.{gather, longer}
use nestforge.ModuleGraph.Docs.{extend_docs, visit_module_docs, collect_module_route_docs}

module _ {V E Router Doc K : Type 0} (modules : K → ModuleRef V E Router Doc K) where
  abbrev name : K → String
  name k = (modules k).name

  abbrev imports : K → List K
  imports k = (modules k).imports

  run_all-docs :
      (ks : List K) (ds ds' : List Doc)
      → run_all name imports (extend_docs modules) ks ds ≡ some (ok tt, ds')
      → ds' ≡ ds ++ gather (λ k. (modules k).route_docs) ks
  unfolding pure extend_docs
  run_all-docs [] ds ds' h = let same : ds ≡ ds' = ground arith in sym same ∙ sym (append-nil ds)
  run_all-docs (k ∷ ks) ds ds' h =
      let (_, ds1, extended, rest) = bind-eq-ok (extend_docs modules k) _ ds h in
      longer (λ k. (modules k).route_docs) k ks ds ds1 ds' (modify-eq-ok _ ds extended)
        (run_all-docs ks ds1 ds' rest)

  visit-docs :
      (fuel : ℕ) (root : K) (docs : List Doc)
      → collect_module_route_docs modules fuel root ≡ some (ok docs)
      → (w : Walk (List Doc)) × (visit_module_docs modules fuel root (default []) ≡ some (ok tt, w))
        × (docs ≡ w.rest)
  unfolding collect_module_route_docs
  visit-docs fuel root docs h = after (visit_module_docs modules fuel root (default [])) refl
    where
      after :
          (o : Option (Result VisitError (Unit {0}) × Walk (List Doc)))
          → visit_module_docs modules fuel root (default []) ≡ o
          → (w : Walk (List Doc)) × (visit_module_docs modules fuel root (default [])
              ≡ some (ok tt, w))
            × (docs ≡ w.rest)
      after none e = cc (rw (e, collect_module_route_docs) at h)
      after (some (err x, w)) e = cc (rw (e, collect_module_route_docs) at h)
      after (some (ok _, w)) e =
          let h' = rw (e, collect_module_route_docs) at h in (w, e, ground arith)

  -- The collected documentation is that of the modules, each once and each behind what it imports,
  -- the root among them.
  pub collect_module_route_docs-IsSorted :
      (fuel : ℕ) (root : K) (docs : List Doc)
      → collect_module_route_docs modules fuel root ≡ some (ok docs)
      → (order : List K) × IsSorted name imports [] order
        × (contains (adding name order []) (name root) ≡ true)
        × (docs ≡ gather (λ k. (modules k).route_docs) order)
  unfolding visit_module_docs
  collect_module_route_docs-IsSorted fuel root docs h =
      let (w, walked, same) = visit-docs fuel root docs h in
      let d = visit-Done name imports (extend_docs modules) fuel root (default []) w walked in
      (d.order, d.sorted, rw (← d.visited) d.reached.0, same ∙ run_all-docs d.order [] w.rest d.ran)
