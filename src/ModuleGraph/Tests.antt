-- ===== src/ModuleGraph/Tests.antt =====
-- The theorems on the module graph at concrete inputs: an application whose root imports two
-- modules, both of which import a third, and one whose two modules import each other.
use nestforge.Base.{
  ℕ, ◌+◌, ◌≡◌, ◌≢◌, refl, true, none, some, List, [], ◌∷◌, String, Result, ok, err, arith, contains,
  insert, remove,
}
use nestforge.Base.Exec.{pure, throw, asks, modify, map_error, ◌>>=◌}
use nestforge.Container.State.{Shared, RustType, new, is_type_registered_name, to_string}
use nestforge.Container.Register.{register}
use nestforge.Provider.{attempt}
use nestforge.ModuleGraph.ModuleRef.{ModuleRef, LifecycleHook, dynamic}
use nestforge.ModuleGraph.Walk.{VisitError, import_cycle, visit, explore, visit_all}
use nestforge.ModuleGraph.Walk.Sorted.{IsSorted, adding}
use nestforge.ModuleGraph.Runtime.{
  Built, nothing_built, InitializedModule, check_exports, register_module, visit_module,
  initialize_module_runtime,
}
use nestforge.ModuleGraph.Runtime.Turns.{gather}
use nestforge.ModuleGraph.Runtime.Registered.{IsInitialized, initialize-IsInitialized}
use nestforge.ModuleGraph.Runtime.Failures.{Explained, initialize-Explained, initialize_ends}
use nestforge.ModuleGraph.Report.{collect_module_graph, ModuleGraphReport}
use nestforge.ModuleGraph.Report.Sorted.{ReportOrCycle, collect_module_graph-ends}
use nestforge.ModuleGraph.Docs.{collect_module_route_docs, visit_module_docs, extend_docs}
use nestforge.ModuleGraph.Builder.{
  DynamicModuleBuilder, new_builder, provider_value, register_step, export_type, build,
}
use nestforge.ModuleGraph.Docs.Gathered.{collect_module_route_docs-IsSorted}

data Key : Type 0 where
  app users posts common : Key

abbrev Module : Type 0
Module = ModuleRef ℕ ℕ ℕ ℕ Key

abbrev service : RustType
service = record { id = 9; type_name = "Service" }

abbrev empty : Shared ℕ ℕ
empty = (new {V = ℕ} {E = ℕ} 0).0

-- A hook that steps the outer world.
abbrev step_by : ℕ → LifecycleHook ℕ ℕ
step_by n = modify (λ s. record s { outer = s.outer + n })

abbrev module_of : String → List Key → List ℕ → Module
module_of name imports docs = record (dynamic name (pure tt)) {
  imports = imports;
  route_docs = docs;
}

abbrev common_module : Module
common_module = record (dynamic "Common" (attempt to_string (register service 5))) {
  exports = "Service" ∷ [];
  route_docs = 3 ∷ [];
  controllers = 30 ∷ [];
}

-- The root imports two modules, which import a third.
abbrev diamond : Key → Module
diamond app = module_of "App" (users ∷ posts ∷ []) (0 ∷ [])
diamond users = module_of "Users" (common ∷ []) (1 ∷ [])
diamond posts = module_of "Posts" (common ∷ []) (2 ∷ [])
diamond common = common_module

abbrev names : List String
names = "App" ∷ "Users" ∷ "Posts" ∷ "Common" ∷ []

abbrev circle : Key → Module
circle app = module_of "App" (users ∷ []) []
circle users = module_of "Users" (app ∷ []) []
circle posts = module_of "Posts" [] []
circle common = common_module

abbrev after_all : Shared ℕ ℕ
after_all = (register service 5 empty).1

abbrev served : InitializedModule ℕ ℕ ℕ
served = record {
  controllers = 30 ∷ [];
  module_init_hooks = [];
  module_destroy_hooks = [];
  application_bootstrap_hooks = [];
  application_shutdown_hooks = [];
}

diamond_initializes : initialize_module_runtime diamond 5 app empty ≡ some (ok served, after_all)
unfolding initialize_module_runtime visit_module visit explore visit_all register_module
    check_exports register new is_type_registered_name dynamic pure throw asks modify map_error
    ◌>>=◌ contains insert remove
diamond_initializes = refl

initialize-IsInitialized_example : IsInitialized diamond app empty after_all served
initialize-IsInitialized_example =
    initialize-IsInitialized diamond 5 app empty after_all served diamond_initializes

circle_fails :
    initialize_module_runtime circle 5 app empty
    ≡ some (err (import_cycle ("App" ∷ "Users" ∷ "App" ∷ [])), empty)
unfolding initialize_module_runtime visit_module visit explore visit_all new dynamic pure modify
    ◌>>=◌ contains insert
circle_fails = refl

initialize-Explained_example :
    Explained circle app empty empty (import_cycle ("App" ∷ "Users" ∷ "App" ∷ []))
initialize-Explained_example =
    initialize-Explained circle 5 app empty empty (import_cycle ("App" ∷ "Users" ∷ "App" ∷ []))
      circle_fails

diamond_named : (k : Key) → contains names (diamond k).name ≡ true
unfolding dynamic contains
diamond_named app = refl
diamond_named users = refl
diamond_named posts = refl
diamond_named common = refl

diamond_total : (k : Key) (b : Built ℕ ℕ ℕ) → register_module (diamond k) b ≢ none
unfolding register_module check_exports dynamic pure throw asks modify map_error ◌>>=◌
diamond_total app b h = cc
diamond_total users b h = cc
diamond_total posts b h = cc
diamond_total common b h = ground arith

initialize_ends_example :
    (r : Result VisitError (InitializedModule ℕ ℕ ℕ)) × (s' : Shared ℕ ℕ)
    × (initialize_module_runtime diamond 5 app empty ≡ some (r, s'))
initialize_ends_example =
    initialize_ends diamond names 5 app empty diamond_named diamond_total (omega arith)

collect_module_graph-ends_example :
    (r : Result VisitError ModuleGraphReport) × (collect_module_graph diamond 5 app ≡ some r)
    × ReportOrCycle diamond app r
collect_module_graph-ends_example =
    collect_module_graph-ends diamond names 5 app diamond_named (omega arith)

collect_module_route_docs-IsSorted_example :
    (order : List Key) × IsSorted (λ k. (diamond k).name) (λ k. (diamond k).imports) [] order
    × (contains (adding (λ k. (diamond k).name) order []) "App" ≡ true)
    × (3 ∷ 1 ∷ 2 ∷ 0 ∷ [] ≡ gather (λ k. (diamond k).route_docs) order)
unfolding collect_module_route_docs visit_module_docs extend_docs visit explore visit_all pure
    modify ◌>>=◌ dynamic contains insert remove
collect_module_route_docs-IsSorted_example =
    collect_module_route_docs-IsSorted diamond 5 app (3 ∷ 1 ∷ 2 ∷ 0 ∷ []) refl

abbrev hooks : List (LifecycleHook ℕ ℕ)
hooks = step_by 1 ∷ throw "stopped" ∷ step_by 10 ∷ []

-- A builder that steps the outer world before it provides and exports the service.
abbrev stepping : DynamicModuleBuilder ℕ ℕ ℕ ℕ Key
stepping = register_step (step_by 1) (new_builder "Dynamic")

abbrev unbuilt : Built ℕ ℕ ℕ
unbuilt = nothing_built diamond empty

abbrev dynamic_service : Module
dynamic_service = build (export_type service (provider_value service 5 stepping))
