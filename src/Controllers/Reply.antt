-- ===== src/Controllers/Reply.antt =====
-- What a reconciler answers: `ctrl.Result` and an error.
use cluster_api_provider_nom.Base.{ℕ, Option, none, some}
use cluster_api_provider_nom.World.Error.{Error}

-- `requeue_after` is in seconds; 0 asks for nothing.
pub record Reply : Type 0 where
  pub requeue_after : ℕ
  pub error : Option Error

abbrev pub finished : Reply
finished = record { requeue_after = 0; error = none }

abbrev pub failed : Error → Reply
failed e = record { requeue_after = 0; error = some e }

abbrev pub requeue : ℕ → Reply
requeue seconds = record { requeue_after = seconds; error = none }
