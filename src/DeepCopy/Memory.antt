-- ===== src/DeepCopy/Memory.antt =====
-- Memory: cells by address, and the computations that load, allocate and store. A load through an
-- address with no cell, or with a cell of another type, is a fault, `none`.
use cluster_api_provider_nom.Base.{
  suc, ◌≡◌, String, Option, none, some, List, [], ◌∷◌, ◌==◌, if◌then◌else◌,
}
use cluster_api_provider_nom.Api.Meta.{MachineAddress}
use cluster_api_provider_nom.Api.NomadCluster.{ApiEndpoint}
use cluster_api_provider_nom.DeepCopy.Structs.{
  Address, Layout, Machine, Network, NomadCluster, NomadClusterList, NomadClusterSpec,
  NomadClusterStatus, NomadMachine, NomadMachineList, NomadMachineSpec, NomadMachineStatus,
  NomadMachineTemplate, NomadMachineTemplateList, NomadMachineTemplateResource,
  NomadMachineTemplateSpec, stored,
}

-- A variable, the array of a slice, the table of a map, or a cell that only the other projects' types
-- lead to.
pub data Cell (L : Layout) : Type 0 where
  text : String → Cell L
  texts : List String → Cell L
  machine_addresses : List MachineAddress → Cell L
  conditions : List L.Condition → Cell L
  failure_domains : List (String × L.FailureDomainSpec) → Cell L
  api_endpoint : ApiEndpoint → Cell L
  machine : Machine (stored L) → Cell L
  network : Network → Cell L
  cluster_spec : NomadClusterSpec (stored L) → Cell L
  cluster_status : NomadClusterStatus (stored L) → Cell L
  cluster : NomadCluster (stored L) → Cell L
  clusters : List (NomadCluster (stored L)) → Cell L
  cluster_list : NomadClusterList (stored L) → Cell L
  machine_spec : NomadMachineSpec (stored L) → Cell L
  machine_status : NomadMachineStatus (stored L) → Cell L
  nomad_machine : NomadMachine (stored L) → Cell L
  nomad_machines : List (NomadMachine (stored L)) → Cell L
  nomad_machine_list : NomadMachineList (stored L) → Cell L
  template_resource : NomadMachineTemplateResource (stored L) → Cell L
  template_spec : NomadMachineTemplateSpec (stored L) → Cell L
  template : NomadMachineTemplate (stored L) → Cell L
  templates : List (NomadMachineTemplate (stored L)) → Cell L
  template_list : NomadMachineTemplateList (stored L) → Cell L
  hidden : L.Hidden → Cell L

pub record Store (L : Layout) : Type 0 where
  pub next : Address
  pub cells : Address → Option (Cell L)

abbrev pub Mem : Layout → Type 0 → Type 0
Mem L A = Store L → Option (A × Store L)

-- A type that a cell can hold.
pub record Kind (L : Layout) (A : Type 0) : Type 0 where
  pub put : A → Cell L
  pub get : Cell L → Option A
  pub get-put : (x : A) → get (put x) ≡ some x

module _ {L : Layout} where
  abbrev pub pure : {A : Type 0} → A → Mem L A
  pure a σ = some (a, σ)

  infixl 5 ◌>>=◌ ◌>>◌
  abbrev pub ◌>>=◌ : {A B : Type 0} → Mem L A → (A → Mem L B) → Mem L B
  ◌>>=◌ m f σ = elim (m σ) [ none ↦ none | some (a, σ') ↦ f a σ' ]

  abbrev pub ◌>>◌ : {A B : Type 0} → Mem L A → Mem L B → Mem L B
  m >> k = m >>= λ _. k

  abbrev pub write : Address → Cell L → Store L → Store L
  write p c σ = record σ { cells = λ q. if p == q then some c else σ.cells q }

  unfoldable pub load : {A : Type 0} → Kind L A → Address → Mem L A
  load k p σ = elim (σ.cells p) [
    | none ↦ none
    | some c ↦ elim (k.get c) [ none ↦ none | some x ↦ some (x, σ) ]
  ]

  unfoldable pub alloc : {A : Type 0} → Kind L A → A → Mem L Address
  alloc k x σ = some (σ.next, record (write σ.next (k.put x) σ) { next = suc σ.next })

  unfoldable pub store : {A : Type 0} → Kind L A → Address → A → Mem L (Unit {0})
  store k p x σ = elim (σ.cells p) [ none ↦ none | some _ ↦ some (tt, write p (k.put x) σ) ]

  -- A new variable for what `p` leads to, and in it a deep copy of that; nil gives nil. `new` or
  -- `make` and the assignment `*out = *in` are one allocation, and the parts that `into` replaces
  -- are written together when all are known: nothing reads the new variable before.
  unfoldable pub new_copy :
      {A : Type 0} → Kind L A → (A → Mem L A) → Option Address → Mem L (Option Address)
  unfolding load alloc store
  new_copy k into none = pure none
  new_copy k into (some p) = do
    x ← load k p
    out ← alloc k x
    copied ← into x
    store k out copied
    pure (some out)

  -- `for i := range *in`: the elements in order.
  unfoldable pub each : {A : Type 0} → (A → Mem L A) → List A → Mem L (List A)
  each into [] = pure []
  each into (x ∷ xs) = do copied ← into x; rest ← each into xs; pure (copied ∷ rest)
