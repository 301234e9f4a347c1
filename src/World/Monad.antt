-- ===== src/World/Monad.antt =====
-- A run of the provider's code: the state of the world, the calls made so far (the last one first),
-- the two objects that a reconciler holds a pointer to, and the polling of the API servers.
use cluster_api_provider_nom.Base.{String, Bool, true, false, Option, none, some, List, ◌∷◌}
use cluster_api_provider_nom.World.Error.{Error, Result, ok, err}
use cluster_api_provider_nom.World.Wire.{Call}
use cluster_api_provider_nom.Poller.{Polls}
use cluster_api_provider_nom.Api.NomadMachine.{NomadMachine}
use cluster_api_provider_nom.Api.NomadCluster.{NomadCluster}

pub data Panic : Type 0 where
  nil_dereference : String → Panic
  missing_env : String → Panic
  unexpected_type : Panic

-- How a computation ends. `unfinished` means that the fuel of a loop ran out.
pub data Outcome (A : Type 0) : Type 0 where
  returned : A → Outcome A
  panicked : Panic → Outcome A
  unfinished : Outcome A

pub record Sys (S : Type 0) : Type 0 where
  pub world : S
  pub calls : List Call
  pub nomad_machine : NomadMachine
  pub nomad_cluster : NomadCluster
  pub polls : Polls

abbrev pub M : Type 0 → Type 0 → Type 0
M S A = Sys S → Outcome A × Sys S

module _ {S A : Type 0} where
  unfoldable pub pure : A → M S A
  pure a s = (returned a, s)

  unfoldable pub panic : Panic → M S A
  panic p s = (panicked p, s)

  -- The end of a loop whose fuel ran out.
  unfoldable pub unfinished_loop : M S A
  unfinished_loop s = (unfinished, s)

  -- A call of the world, recorded.
  unfoldable pub call : Call → (S → A × S) → M S A
  call c op s = let (a, w) = op s.world in (returned a, record s { world = w; calls = c ∷ s.calls })

  -- A call of a library that leaves no record.
  unfoldable pub silent : (S → A × S) → M S A
  silent op s = let (a, w) = op s.world in (returned a, record s { world = w })

  -- Reads of the state: of the objects behind the reconcilers' pointers.
  unfoldable pub gets : (Sys S → A) → M S A
  gets f s = (returned (f s), s)

  -- `if`, on two computations.
  unfoldable pub branch : Bool → M S A → M S A → M S A
  branch true m n s = m s
  branch false m n s = n s

-- `if err != nil { … return }`: goes on with the value, or leaves by the handler.
unfoldable pub on_ok : {S A B : Type 0} → Result A → (Error → M S B) → (A → M S B) → M S B
on_ok (ok a) handle go s = go a s
on_ok (err e) handle go s = handle e s

unfoldable pub on_no_error : {S B : Type 0} → Option Error → (Error → M S B) → M S B → M S B
on_no_error none handle go s = go s
on_no_error (some e) handle go s = handle e s

-- A test for nil.
unfoldable pub on_some : {S A B : Type 0} → Option A → M S B → (A → M S B) → M S B
on_some none absent go s = absent s
on_some (some a) absent go s = go a s

unfoldable pub modify : {S : Type 0} → (Sys S → Sys S) → M S (Unit {0})
modify f s = (returned tt, f s)

-- A panic or an unfinished loop ends the whole block.
abbrev pub continue : {S A B : Type 0} → Outcome A → (A → M S B) → M S B
continue (returned a) f s = f a s
continue (panicked p) f s = (panicked p, s)
continue unfinished f s = (unfinished, s)

infixl 5 ◌>>=◌ ◌>>◌
-- Whoever opens this opens the others too.
unfoldable pub ◌>>=◌ : {S A B : Type 0} → M S A → (A → M S B) → M S B
unfolding pure panic unfinished_loop call silent gets branch on_ok on_no_error on_some modify
◌>>=◌ m f s = let (r, s') = m s in continue r f s'

abbrev pub ◌>>◌ : {S B : Type 0} → M S (Unit {0}) → M S B → M S B
m >> k = m >>= λ _. k

abbrev pub get_machine : {S : Type 0} → M S NomadMachine
get_machine = gets (λ s. s.nomad_machine)

abbrev pub modify_machine : {S : Type 0} → (NomadMachine → NomadMachine) → M S (Unit {0})
modify_machine f = modify (λ s. record s { nomad_machine = f s.nomad_machine })

abbrev pub get_cluster_object : {S : Type 0} → M S NomadCluster
get_cluster_object = gets (λ s. s.nomad_cluster)

abbrev pub modify_cluster : {S : Type 0} → (NomadCluster → NomadCluster) → M S (Unit {0})
modify_cluster f = modify (λ s. record s { nomad_cluster = f s.nomad_cluster })

abbrev pub modify_polls : {S : Type 0} → (Polls → Polls) → M S (Unit {0})
modify_polls f = modify (λ s. record s { polls = f s.polls })

-- `defer`: the cleanup runs however the body ends, and has the last word on a value returned. It
-- also runs where the body's fuel ran out, though there the program would still be in the body; its
-- runs that end are not affected.
abbrev pub conclude : {S A : Type 0} → Outcome (Outcome A) → Sys S → Outcome A × Sys S
conclude (returned o) s = (o, s)
conclude (panicked p) s = (panicked p, s)
conclude unfinished s = (unfinished, s)

unfoldable pub finally : {S A : Type 0} → M S A → (Outcome A → M S (Outcome A)) → M S A
finally m cleanup s = let (r, s') = m s in let (r', s'') = cleanup r s' in conclude r' s''
