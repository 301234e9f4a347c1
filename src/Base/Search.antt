-- ===== src/Base/Search.antt =====
-- Searching native texts.
use Prim.Native.Char.{code}
use Prim.Native.String as Text
use text.Mathlib.TextLemmas.{nil-append, cons-append}
use cluster_api_provider_nom.Base.{
  String, ◌<>◌, Bool, true, false, ◌||◌, Option, none, some, ◌≡◌, refl, ◌==◌, arith, if◌then◌else◌,
}

-- The text after the prefix, if the prefix is there.
unfoldable pub strip_prefix : String → String → Option String
strip_prefix Text.[] s = some s
strip_prefix (Text.◌∷◌ c t) Text.[] = none
strip_prefix (Text.◌∷◌ c t) (Text.◌∷◌ d s) =
    let rest = strip_prefix t s in if code c == code d then rest else none

pub strip_prefix-append : (t s : String) → strip_prefix t (t <> s) ≡ some s
unfolding strip_prefix
strip_prefix-append Text.[] s = rw nil-append refl
strip_prefix-append (Text.◌∷◌ c t) s = rw cons-append (ground (arith, strip_prefix-append t s))

abbrev starts_with : String → String → Bool
starts_with t s = elim (strip_prefix t s) [ some rest ↦ true | none ↦ false ]

-- Whether the first text occurs in the second.
unfoldable pub occurs : String → String → Bool
unfolding strip_prefix
occurs t Text.[] = starts_with t Text.[]
occurs t (Text.◌∷◌ c s) = starts_with t (Text.◌∷◌ c s) || occurs t s
