-- ===== src/ModuleGraph/Report/Sorted.antt =====
-- The report lists every module once, behind its imports, or there is a cycle of imports.
use mathlib.Core.List.{Memᴰ}
use mathlib.Core.List.Memᴰ
use nestforge.Base.{
  ℕ, ◌≡◌, ◌≢◌, ◌<◌, ap, ◌∙◌, sym, true, false, none, some, List, [], ◌∷◌, ◌++◌, map, append_assoc,
  append-nil, String, Result, ok, err, length, arith, contains, contains-insert, str_eq, eq_refl,
  inl, inr,
}
use nestforge.Base.Exec.{pure, modify}
use nestforge.Base.Exec.Invert.{bind-eq-ok, modify-eq-ok}
use nestforge.ModuleGraph.ModuleRef.{ModuleRef}
use nestforge.ModuleGraph.Walk.{Walk, VisitError, import_cycle, failed, default}
use nestforge.ModuleGraph.Walk.Sorted.{IsSorted, adding}
use nestforge.ModuleGraph.Walk.Order.{run_all, visit-Done}
use nestforge.ModuleGraph.Walk.Cycles.{IsCycle, visit-IsCycle}
use nestforge.ModuleGraph.Walk.Ends.{visit_ends}
use nestforge.ModuleGraph.Walk.Failures.{visit-Fails}
use nestforge.ModuleGraph.Report.{
  ModuleGraphReport, module_named, entry, push_entry, visit_module_graph, collect_module_graph,
}

module _ {V E Router Doc K : Type 0} (modules : K → ModuleRef V E Router Doc K) where
  abbrev name : K → String
  name k = (modules k).name

  abbrev imports : K → List K
  imports k = (modules k).imports

  sorted-absent :
      (ks : List K) (k : K) (v : List String)
      → IsSorted name imports v ks
      → Memᴰ k ks
      → contains v (name k) ≡ false
  sorted-absent [] k v h m = absurd (Memᴰ.not-nil m)
  sorted-absent (x ∷ xs) k v h m = elim (Memᴰ.cases_cons m) [
    | inl e ↦ rw e h.0
    | inr later ↦
        ground (arith, contains-insert (name x) (name k) v, sorted-absent xs k _ h.2 later)
  ]

  module_named-sorted :
      (ks : List K) (k : K) (v : List String)
      → IsSorted name imports v ks
      → Memᴰ k ks
      → module_named (map (entry modules) ks) (name k) ≡ some (entry modules k)
  unfolding module_named
  module_named-sorted [] k v h m = absurd (Memᴰ.not-nil m)
  module_named-sorted (x ∷ xs) k v h m = elim (Memᴰ.cases_cons m) [
    | inl e ↦ rw (e, eq_refl)
    | inr later ↦
        let new = sorted-absent xs k _ h.2 later in
        let differs : str_eq (name x) (name k) ≡ false =
          ground (arith, contains-insert (name x) (name k) v) in
        rw differs (module_named-sorted xs k _ h.2 later)
  ]

  run_all-entries :
      (ks : List K) (es es' : ModuleGraphReport)
      → run_all name imports (push_entry modules) ks es ≡ some (ok tt, es')
      → es' ≡ es ++ map (entry modules) ks
  unfolding pure push_entry
  run_all-entries [] es es' h = let same : es ≡ es' = ground arith in sym same ∙ sym (append-nil es)
  run_all-entries (k ∷ ks) es es' h =
      let (_, es1, pushed, rest) = bind-eq-ok (push_entry modules k) _ es h in
      run_all-entries ks es1 es' rest
      ∙ ap (λ (l : ModuleGraphReport). l ++ map (entry modules) ks) (modify-eq-ok _ es pushed)
      ∙ append_assoc es (entry modules k ∷ []) (map (entry modules) ks)

  -- A report is that of an order in which each module stands once, behind all that it imports, and
  -- in which a module of the root's name stands; looked up by its name, each module's entry is found.
  pub record IsReport (root : K) (report : ModuleGraphReport) : Type 0 where
    pub order : List K
    pub sorted : IsSorted name imports [] order
    pub reached : contains (adding name order []) (name root) ≡ true
    pub entries : report ≡ map (entry modules) order
    pub found : (k : K) → Memᴰ k order → module_named report (name k) ≡ some (entry modules k)

  visit-IsReport :
      (fuel : ℕ) (root : K) (w : Walk ModuleGraphReport)
      → visit_module_graph modules fuel root (default []) ≡ some (ok tt, w)
      → IsReport root w.rest
  unfolding visit_module_graph
  visit-IsReport fuel root w h =
      let d = visit-Done name imports (push_entry modules) fuel root (default []) w h in
      let listed = run_all-entries d.order [] w.rest d.ran in
      record {
        order = d.order;
        sorted = d.sorted;
        reached = rw (← d.visited) d.reached.0;
        entries = listed;
        found = λ k m. rw listed (module_named-sorted d.order k [] d.sorted m);
      }

  -- An outcome that is a report, or the cycle that the imports have.
  abbrev pub ReportOrCycle : K → Result VisitError ModuleGraphReport → Type 0
  ReportOrCycle root (ok report) = IsReport root report
  ReportOrCycle root (err (import_cycle names)) = IsCycle name imports names
  ReportOrCycle root (err (failed message)) = ⊥

  push_entry-ne-err :
      (k : K) (es es' : ModuleGraphReport) (message : String)
      → ¬ (push_entry modules k es ≡ some (err message, es'))
  unfolding push_entry modify
  push_entry-ne-err k es es' message h = cc

  push_entry-ne-none : (k : K) (es : ModuleGraphReport) → push_entry modules k es ≢ none
  unfolding push_entry modify
  push_entry-ne-none k es h = cc

  -- The outcome of a walk, as `collect_module_graph` passes it on.
  outcome :
      (fuel : ℕ) (root : K) (r : Result VisitError (Unit {0})) (w : Walk ModuleGraphReport)
      → visit_module_graph modules fuel root (default []) ≡ some (r, w)
      → (out : Result VisitError ModuleGraphReport) × (collect_module_graph modules fuel root
          ≡ some out)
        × ReportOrCycle root out
  unfolding collect_module_graph
  outcome fuel root (ok _) w h =
      (ok w.rest, rw (h, collect_module_graph), visit-IsReport fuel root w h)
  outcome fuel root (err (import_cycle names)) w h = (
    err (import_cycle names),
    rw (h, collect_module_graph),
    visit-IsCycle name imports (push_entry modules) fuel root [] w names h,
  )
  outcome fuel root (err (failed message)) w h =
      let f =
        (visit-Fails name imports (push_entry modules) fuel root (default []) w).0 message h in
      absurd (push_entry-ne-err f.at f.before w.rest message f.ran)

  -- If the modules of an application have their names in one list, collecting its graph ends, the
  -- graph cyclic or not, with fuel above the length of the list; and its outcome is a report in
  -- import order or an error that names a cycle of imports, never another error.
  pub collect_module_graph-ends :
      (names : List String) (fuel : ℕ) (root : K)
      → ((k : K) → contains names (name k) ≡ true)
      → length names < fuel
      → (r : Result VisitError ModuleGraphReport) × (collect_module_graph modules fuel root
          ≡ some r)
        × ReportOrCycle root r
  unfolding visit_module_graph
  collect_module_graph-ends names fuel root named lt =
      let (r, w, h) =
        visit_ends name imports (push_entry modules) names named push_entry-ne-none fuel root []
          lt in
      outcome fuel root r w h
