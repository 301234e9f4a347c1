-- ===== src/Tests/Pieces.antt =====
-- The pieces on concrete inputs: polling, waiting, MAC addresses, HTTP answers and the webhook.
use mathlib.Core.Bool.{false≢true}
use Prim.Native.String.{count}
use cluster_api_provider_nom.Base.{
  ◌^◌, ◌<◌, ◌≤◌, ◌%◌, String, ◌<>◌, false, ◌≡◌, ◌↔◌, ◌⊎◌, refl, none, some, List, [], ◌∷◌, arith,
}
use cluster_api_provider_nom.Base.Text.{eq_iff}
use cluster_api_provider_nom.World.Error.{fresh, ok}
use cluster_api_provider_nom.World.Wire.{NomadConfig, Response, read_evaluation}
use cluster_api_provider_nom.World.Monad.{returned, unfinished}
use cluster_api_provider_nom.Poller.{
  Polls, Poller, Move, call_start, goroutine, online, offline, failed, polling, delete, poller_at,
  drop_at, run, no_polls,
}
use cluster_api_provider_nom.Poller.Runs.{calls, events, events-le-calls, poller_finishes}
use cluster_api_provider_nom.Machine.Mac.{hash, get_mac_address}
use cluster_api_provider_nom.Machine.Mac.Laws.{get_mac_address-eq_iff, get_mac_address_shape}
use cluster_api_provider_nom.Machine.Service.{settle, get_deployment_id}
use cluster_api_provider_nom.Machine.Service.Polling.{
  Pending, stop, round, rounds, get_deployment_id_settles, get_deployment_id_waits,
}
use cluster_api_provider_nom.Consul.Client.{status_ok, status_no_content, read_response}
use cluster_api_provider_nom.Consul.Client.Laws.{read_response_iff}
use cluster_api_provider_nom.Api.Template.{NomadMachineTemplate, validate_update}
use cluster_api_provider_nom.Api.Template.Laws.{validate_update_iff}
use cluster_api_provider_nom.Tests.Fixtures.{
  kit, world, cluster, nomad_machine, meta, evaluation, running,
}

-- The example of the Go test.
get_mac_address_hello : get_mac_address "hello" ≡ "52:54:00:07:b9:ab"
unfolding get_mac_address
get_mac_address_hello = refl

get_mac_address-eq_iff_example :
    (get_mac_address "cp0" ≡ get_mac_address "cp1")
    ↔ (hash "cp0" % 13558016 ≡ hash "cp1" % 13558016)
get_mac_address-eq_iff_example = get_mac_address-eq_iff "cp0" "cp1"

get_mac_address_shape_example :
    (hash "hello" < 2 ^ 32)
    × (rest : String) × (get_mac_address "hello" ≡ "52:54:00:" <> rest)
    × (count rest ≡ 8)
get_mac_address_shape_example = get_mac_address_shape "hello"

-- Two reconcilers' calls for one cluster, then its goroutine, and a call after its end.
abbrev interleaving : List Move
interleaving =
    call_start cluster
    ∷ call_start cluster
    ∷ goroutine 0 offline
    ∷ goroutine 0 online
    ∷ goroutine 0 online
    ∷ goroutine 0 online
    ∷ call_start cluster
    ∷ []

interleaving-events : events "uid-prod" (run kit interleaving no_polls) ≡ 2
unfolding run
interleaving-events = refl

events-le-calls_example :
    events "uid-prod" (run kit interleaving no_polls) ≤ calls "uid-prod" interleaving
events-le-calls_example = events-le-calls "uid-prod" kit interleaving

abbrev one_poller : Poller
one_poller = record { uid = "uid-prod"; cluster = cluster; phase = polling }

abbrev one_poll : Polls
one_poll = record { triggers = "uid-prod" ∷ []; pollers = one_poller ∷ []; delivered = [] }

poller_finishes_example :
    run kit (goroutine 0 failed ∷ goroutine 0 online ∷ goroutine 0 online ∷ []) one_poll ≡ record {
      triggers = delete "uid-prod" one_poll.triggers;
      pollers = drop_at 0 one_poll.pollers;
      delivered = "uid-prod" ∷ [];
    }
unfolding poller_at
poller_finishes_example =
    poller_finishes kit 0 failed online online one_poll one_poller refl refl (λ e. cc)

abbrev config : NomadConfig
config = record { address = "http://server"; secret_id = ""; region = "global" }

-- The evaluation is pending at the times 0 and 1.
two_rounds : Pending world config "e1" 0 2 2
two_rounds = round (evaluation 0) refl refl (round (evaluation 1) refl refl stop)

get_deployment_id_settles_example : get_deployment_id world 3 config "e1" running ≡ (
  returned (ok "d1"),
  record running { world = 2; calls = read_evaluation config "e1" ∷ rounds world config "e1" 2 [] },
)
unfolding settle
get_deployment_id_settles_example =
    get_deployment_id_settles world config "e1" 2 3 running two_rounds
      (λ e. false≢true ((eq_iff _ _).1 e)) (omega arith)

two_pending_reads :
    get_deployment_id world 2 config "e1" running
    ≡ (unfinished, record running { world = 2; calls = rounds world config "e1" 2 [] })
two_pending_reads = get_deployment_id_waits world config "e1" 2 running two_rounds

abbrev refused : Response
refused = record { status_code = 200; body = ok ""; close_error = some (fresh "closed") }

read_response_iff_example : (read_response refused none ≡ none) ↔ (
    (refused.status_code ≡ status_no_content)
    ⊎ ((refused.status_code ≡ status_ok) × (refused.close_error ≡ none)))
read_response_iff_example = read_response_iff refused

abbrev template : String → NomadMachineTemplate
template name = record {
  meta = meta name [] none;
  spec = record { template = record { spec = (nomad_machine [] none false).spec } };
}

validate_update_same : validate_update (template "a") (template "a") ≡ none
validate_update_same = (validate_update_iff (template "a") (template "a")).1 refl
