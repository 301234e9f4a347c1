-- ===== src/DeepCopy/Rules/Elements.antt =====
-- Copies of values without references, of the elements of a slice, and of a map's entries.
use cluster_api_provider_nom.Base.{◌≡◌, List, [], ◌∷◌}
use cluster_api_provider_nom.DeepCopy.Structs.{Address, Layout}
use cluster_api_provider_nom.DeepCopy.Memory.{Store, Mem, pure, each}
use cluster_api_provider_nom.DeepCopy.Rules.{
  Region, Within, Grows-refl, Showing, Copies, Source, Copier,
}
use cluster_api_provider_nom.DeepCopy.Rules.Parts.{Copies-pure, Copies-field, Copies-bind}

module _ {L : Layout} where
  -- A value without references is copied by the assignment.
  abbrev pub Equal : {A : Type 0} → Showing L A A
  Equal H a v = a ≡ v

  pub Copier-plain : {A : Type 0} → Copier (Equal {A = A}) pure
  Copier-plain = record { moves = λ H H' a v w h. h; copies = λ n H a v σ h s. Copies-pure h }

  -- The elements in their order.
  abbrev pub Lists : {A V : Type 0} → Showing L A V → Showing L (List A) (List V)
  Lists Shown H [] [] = Unit {0}
  Lists Shown H (x ∷ xs) (v ∷ vs) = Shown H x v × Lists Shown H xs vs
  Lists Shown H [] (v ∷ vs) = ⊥
  Lists Shown H (x ∷ xs) [] = ⊥

  -- A map: the keys, each with what its value shows.
  abbrev pub Keyed : {K A V : Type 0} → Showing L A V → Showing L (K × A) (K × V)
  Keyed Shown H x v = (x.0 ≡ v.0) × Shown H x.1 v.1

  module _ {A V : Type 0} {Shown : Showing L A V} {into : A → Mem L A} (c : Copier Shown into) where
    Lists-Moves :
        (H H' : Region L) (xs : List A) (vs : List V)
        → Within H H'
        → Lists Shown H xs vs
        → Lists Shown H' xs vs
    Lists-Moves H H' [] [] w h = tt
    Lists-Moves H H' (x ∷ xs) (v ∷ vs) w h = (c.moves H H' x v w h.0, Lists-Moves H H' xs vs w h.1)
    Lists-Moves H H' [] (v ∷ vs) w h = absurd h
    Lists-Moves H H' (x ∷ xs) [] w h = absurd h

    each-Copies :
        (n : Address) (H : Region L) (xs : List A) (vs : List V) (σ : Store L)
        → Lists Shown H xs vs
        → Source n H σ
        → Copies n (Lists Shown) vs (each into xs) σ
    unfolding each
    each-Copies n H [] [] σ h s = Copies-pure tt
    each-Copies n H (x ∷ xs) (v ∷ vs) σ h s = Copies-field c h.0 s λ x' σ1 g1 s1 shown.
        Copies-bind (each into xs) σ1 _ Lists-Moves (each-Copies n H xs vs σ1 h.1 s1) s1
          λ xs' σ2 g2 s2 rest. Copies-pure (shown.later g2, rest.later (Grows-refl σ2))
    each-Copies n H [] (v ∷ vs) σ h s = absurd h
    each-Copies n H (x ∷ xs) [] σ h s = absurd h

    pub Copier-each : Copier (Lists Shown) (each into)
    Copier-each = record { moves = Lists-Moves; copies = each-Copies }
