-- ===== src/World/Error.antt =====
-- Go's `error` values, and pairs of a value and an error.
use cluster_api_provider_nom.Base.{String, ◌<>◌, Bool, false}

-- An error that a call of the world returned, with what `apierrors.IsNotFound` says of it; one that
-- the provider makes by `errors.New` or `errors.Errorf`; one that it wraps by `errors.Wrapf`.
pub data Error : Type 0 where
  foreign : String → Bool → Error
  fresh : String → Error
  wrap : Error → String → Error

-- `err.Error()`.
unfoldable pub error_text : Error → String
error_text (foreign t _) = t
error_text (fresh t) = t
error_text (wrap e t) = t <> ": " <> error_text e

-- `apierrors.IsNotFound` looks at the error itself and under no wrapping.
unfoldable pub is_not_found : Error → Bool
is_not_found (foreign _ b) = b
is_not_found (fresh _) = false
is_not_found (wrap _ _) = false

pub data Result (A : Type 0) : Type 0 where
  ok : A → Result A
  err : Error → Result A
