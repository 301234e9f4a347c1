-- ===== src/DeepCopy/Dispatch/Separate.antt =====
-- The deep copy of an object against its original: the same value, and no cell in common.
use cluster_api_provider_nom.Base.{
  ◌≡◌, ◌≢◌, refl, ◌∙◌, ◌≤◌, ◌<◌, Option, some, List, [], ◌∷◌, All, arith,
}
use mathlib.Core.Path.{subst}
use cluster_api_provider_nom.DeepCopy.Structs.{Address, Layout, Values}
use cluster_api_provider_nom.DeepCopy.Memory.{Cell, Store, write}
use cluster_api_provider_nom.DeepCopy.Library.{Library, Shown, IsDocumented}
use cluster_api_provider_nom.DeepCopy.Object.{Object}
use cluster_api_provider_nom.DeepCopy.Rules.{Above, Whole, Within, Grows, Copies}
use cluster_api_provider_nom.DeepCopy.Dispatch.{
  ObjectValue, Shows, Returned, Shows-Moves, deep_copy_object, deep_copy_object-Copies_any,
}

-- Whatever is written to variables, arrays and maps, in order.
abbrev pub write_all : {L : Layout} → List (Address × Cell L) → Store L → Store L
write_all [] σ = σ
write_all (w ∷ ws) σ = write_all ws (write w.0 w.1 σ)

All-weaken {ℓ κ μ} :
    {A : Type ℓ} {P : A → Type κ} {Q : A → Type μ} (xs : List A)
    → ((x : A) → P x → Q x)
    → All P xs
    → All Q xs
All-weaken [] f h = tt
All-weaken (x ∷ xs) f h = (f x h.0, All-weaken xs f h.1)

module _ {L : Layout} where
  write_missed :
      (p q : Address) (c : Cell L) (σ : Store L) → p ≢ q → (write p c σ).cells q ≡ σ.cells q
  write_missed p q c σ h = ground arith

  write_all-cells :
      (ws : List (Address × Cell L)) (p : Address) (σ : Store L)
      → All (λ w. w.0 ≢ p) ws
      → (write_all ws σ).cells p ≡ σ.cells p
  write_all-cells [] p σ h = refl
  write_all-cells (w ∷ ws) p σ h =
      write_all-cells ws p (write w.0 w.1 σ) h.1 ∙ write_missed w.0 p w.1 σ h.0

  write_all-next : (ws : List (Address × Cell L)) (σ : Store L) → (write_all ws σ).next ≡ σ.next
  write_all-next [] σ = refl
  write_all-next (w ∷ ws) σ = write_all-next ws (write w.0 w.1 σ)

module _ {L : Layout} (n : Address) (ws : List (Address × Cell L)) (σ : Store L) where
  -- Writes below an address leave what is above, and the other way round.
  Within-below : All (λ w. w.0 < n) ws → Within (Above n σ) (Whole (write_all ws σ))
  Within-below h p c at = (
    write_all-cells ws p σ (All-weaken ws (λ w lt e. omega (arith, at.1)) h) ∙ at.0,
    omega (arith, write_all-next ws σ, at.2),
  )

  Within-above :
      {before : Store L}
      → before.next ≡ n
      → Grows before σ
      → All (λ w. n ≤ w.0) ws
      → Within (Whole before) (Whole (write_all ws σ))
  Within-above e g h p c at = (
    write_all-cells ws p σ (All-weaken ws (λ w le q. omega (arith, at.1)) h) ∙ g.kept p at.1 ∙ at.0,
    omega (arith, write_all-next ws σ, at.1, g.longer),
  )

module _ {L : Layout} {V : Values} {lib : Library L} {shown : Shown L V}
    (doc : IsDocumented lib shown) where
  -- On an object that shows a value, DeepCopyObject of each kind succeeds; every cell that was
  -- allocated is as it was, and what is returned is an object of the same kind that shows the same
  -- value, in newly allocated cells alone. The copies of metav1 and Cluster API are deep copies.
  pub deep_copy_object-Copies :
      (o : Object) (v : ObjectValue V) (σ : Store L)
      → Shows shown (Whole σ) o v
      → Copies σ.next (Returned shown) v (deep_copy_object lib o) σ
  deep_copy_object-Copies o v σ h =
      deep_copy_object-Copies_any doc σ.next (Whole σ) o v σ h
        (record { above = omega arith; cells = λ p c at. at.0; below = λ p c at. at.1 })

  -- After a DeepCopyObject of an object that shows a value, if it returned a copy: whatever is then
  -- written to the cells that were allocated before, the copy shows this value, and whatever is then
  -- written to all other cells, the original shows it still. The copies of metav1 and Cluster API are
  -- deep copies.
  pub deep_copy_object_separates :
      (o : Object) (v : ObjectValue V) (σ : Store L) {copy : Object} {σ' : Store L}
      (old new : List (Address × Cell L))
      → Shows shown (Whole σ) o v
      → deep_copy_object lib o σ ≡ some (some copy, σ')
      → All (λ w. w.0 < σ.next) old
      → All (λ w. σ.next ≤ w.0) new
      → Shows shown (Whole (write_all old σ')) copy v × Shows shown (Whole (write_all new σ')) o v
  deep_copy_object_separates o v σ {copy} {σ'} old new h e olds news =
      let copied = deep_copy_object-Copies o v σ h in
      let ended : ◌≡◌ {A = Option Object × Store L} (copied.result, copied.final) (some copy, σ') =
        cc (copied.runs, e) in
      let shows = subst (λ r. Returned shown (Above σ.next r.1) r.0 v) ended copied.shows in
      let grows = subst (λ r. Grows σ r.1) ended copied.grows in
      (
        Shows-Moves doc _ _ copy v (Within-below σ.next old σ' olds) shows,
        Shows-Moves doc _ _ o v (Within-above σ.next new σ' refl grows news) h,
      )
