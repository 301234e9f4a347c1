-- ===== src/Base/Lists.antt =====
-- Lists of texts as Go uses them: membership, maps with a text for a key.
use Prim.Native.Nat.{ℕ, suc}
use Prim.Native.String.{String}
use mathlib.Core.Bool.{Bool, false, ◌||◌}
use mathlib.Core.Option.{Option, none, some}
use mathlib.Core.List.{List, [], ◌∷◌}
use text.Mathlib.Text.{◌==◌}
use cluster_api_provider_nom.Base.Logic.{if◌then◌else◌}

abbrev pub length {ℓ} : {A : Type ℓ} → List A → ℕ
length [] = 0
length (x ∷ xs) = suc (length xs)

abbrev pub contains : List String → String → Bool
contains [] a = false
contains (x ∷ xs) a = x == a || contains xs a

-- A Go map with a text for a key, as an association list. A missing key is `none`.
module _ {ℓ} {V : Type ℓ} where
  abbrev pub lookup : String → List (String × V) → Option V
  lookup key [] = none
  lookup key (entry ∷ entries) = if entry.0 == key then some entry.1 else lookup key entries

  -- `m[k] = v`: the entry of the key is replaced in its place, or a new one is added at the end.
  abbrev pub insert : String → V → List (String × V) → List (String × V)
  insert key value [] = (key, value) ∷ []
  insert key value (entry ∷ entries) =
      let rest = insert key value entries in
      if entry.0 == key then (key, value) ∷ entries else entry ∷ rest

abbrev pub All {ℓ κ} : {A : Type ℓ} → (A → Type κ) → List A → Type κ
All P [] = Unit
All P (x ∷ xs) = P x × All P xs
