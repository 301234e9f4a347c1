-- ===== src/Base/Text.antt =====
-- Tests and laws of native texts that the components share.
pub use text.Mathlib.Text.{◌==◌}
pub use text.Mathlib.TextEquality.{eq_iff}
pub use text.Mathlib.TextPositions.{eq_refl}
