-- ===== src/DeepCopy/Rules.antt =====
-- What a value in memory shows, what a copy promises, and the rules for the ways in which copies are
-- composed.
pub mod Parts
pub mod Elements
pub mod New
use cluster_api_provider_nom.Base.{
  ℕ, suc, ◌+◌, ◌≡◌, refl, ◌∙◌, ◌≤◌, ◌<◌, Option, some, List, arith, ◌==◌, if◌then◌else◌,
}
use cluster_api_provider_nom.DeepCopy.Structs.{Address, Layout}
use cluster_api_provider_nom.DeepCopy.Memory.{Cell, Store, Mem, ◌>>=◌, write}

-- A part of memory: which cell stands at which address.
abbrev pub Region : Layout → Type 1
Region L = Address → Cell L → Type 0

module _ {L : Layout} where
  -- The cells from an address on.
  abbrev pub Above : Address → Store L → Region L
  Above n σ p c = (σ.cells p ≡ some c) × (n ≤ p) × (p < σ.next)

  -- All cells that are allocated.
  abbrev pub Whole : Store L → Region L
  Whole σ p c = (σ.cells p ≡ some c) × (p < σ.next)

  -- Every cell of the one part stands in the other.
  abbrev pub Within : Region L → Region L → Type 0
  Within H H' = (p : Address) (c : Cell L) → H p c → H' p c

  -- A later store: more may be allocated, and what was allocated is as it was.
  pub record Grows (σ σ' : Store L) : Type 0 where
    pub longer : σ.next ≤ σ'.next
    pub kept : (p : Address) → p < σ.next → σ'.cells p ≡ σ.cells p

  pub Grows-refl : (σ : Store L) → Grows σ σ
  Grows-refl σ = record { longer = omega arith; kept = λ p h. refl }

  infixr 30 ◌then◌
  pub ◌then◌ : {σ σ' σ'' : Store L} → Grows σ σ' → Grows σ' σ'' → Grows σ σ''
  g then h = record {
    longer = omega (arith, g.longer, h.longer);
    kept = λ p lt. h.kept p (omega (arith, g.longer)) ∙ g.kept p lt;
  }

  -- What stands above an address stays there.
  pub Above-Grows : (n : Address) {σ σ' : Store L} → Grows σ σ' → Within (Above n σ) (Above n σ')
  Above-Grows n g p c h = (g.kept p h.2 ∙ h.0, h.1, omega (arith, h.2, g.longer))

  -- The original lies in the part `H`, all of it below `n`.
  pub record Source (n : Address) (H : Region L) (σ : Store L) : Type 0 where
    pub above : n ≤ σ.next
    pub cells : (p : Address) (c : Cell L) → H p c → σ.cells p ≡ some c
    pub below : (p : Address) (c : Cell L) → H p c → p < n

-- `Shown H a v`: read in the part `H` of memory, `a` shows the value `v`.
abbrev pub Showing : Layout → Type 0 → Type 0 → Type 1
Showing L A V = Region L → A → V → Type 0

module _ {L : Layout} {A V : Type 0} where
  -- `m` succeeds, leaves what was allocated, and its result shows `v` in the cells from `n` on.
  pub record Copies (n : Address) (Shown : Showing L A V) (v : V) (m : Mem L A) (σ : Store L)
      : Type 0 where
    pub result : A
    pub final : Store L
    pub runs : m σ ≡ some (result, final)
    pub grows : Grows σ final
    pub shows : Shown (Above n final) result v

  -- What is shown in a part is shown in every larger part.
  abbrev pub Moves : Showing L A V → Type 1
  Moves Shown = (H H' : Region L) (a : A) (v : V) → Within H H' → Shown H a v → Shown H' a v

  -- `into` is a deep copy: wherever the original shows `v`, so does the copy, in new cells alone.
  pub record Copier (Shown : Showing L A V) (into : A → Mem L A) : Type 1 where
    pub moves : Moves Shown
    pub copies :
        (n : Address) (H : Region L) (a : A) (v : V) (σ : Store L)
        → Shown H a v
        → Source n H σ
        → Copies n Shown v (into a) σ

  -- What shows `v` now, and in every later store.
  pub record Lasting (n : Address) (Shown : Showing L A V) (σ : Store L) (a : A) (v : V)
      : Type 0 where
    pub later : {σ' : Store L} → Grows σ σ' → Shown (Above n σ') a v
