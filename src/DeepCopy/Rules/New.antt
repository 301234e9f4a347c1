-- ===== src/DeepCopy/Rules/New.antt =====
-- A new variable, with a deep copy of what a reference leads to.
use cluster_api_provider_nom.Base.{
  suc, ◌≡◌, ◌≢◌, ◌∙◌, ◌≤◌, Option, none, some, arith, if◌then◌else◌,
}
use cluster_api_provider_nom.DeepCopy.Structs.{Address, Layout}
use cluster_api_provider_nom.DeepCopy.Memory.{
  Cell, Kind, Store, Mem, ◌>>=◌, write, load, alloc, store, new_copy,
}
use cluster_api_provider_nom.DeepCopy.Rules.{
  Region, Within, Grows, ◌then◌, Showing, Copies, Source, Copier,
}
use cluster_api_provider_nom.DeepCopy.Rules.Parts.{Copies-pure}

module _ {L : Layout} where
  -- A reference shows what its variable shows, and nil shows nil.
  abbrev pub Refers :
      {A V : Type 0} → Kind L A → Showing L A V → Showing L (Option Address) (Option V)
  Refers k Shown H none none = Unit {0}
  Refers k Shown H (some p) (some v) = (x : _) × H p (k.put x) × Shown H x v
  Refers k Shown H none (some v) = ⊥
  Refers k Shown H (some p) none = ⊥

  load-runs :
      {A : Type 0} (k : Kind L A) (p : Address) (x : A) (σ : Store L)
      → σ.cells p ≡ some (k.put x)
      → load k p σ ≡ some (x, σ)
  unfolding load
  load-runs k p x σ e = rw (load, e, k.get-put x)

  store-runs :
      {A : Type 0} (k : Kind L A) (p : Address) (x : A) {c : Cell L} (σ : Store L)
      → σ.cells p ≡ some c
      → store k p x σ ≡ some (tt, write p (k.put x) σ)
  unfolding store
  store-runs k p x σ e = rw (store, e)

  abbrev allocated : {A : Type 0} → Kind L A → A → Store L → Store L
  allocated k x σ = record (write σ.next (k.put x) σ) { next = suc σ.next }

  new_copy-runs :
      {A : Type 0} (k : Kind L A) (into : A → Mem L A) (p : Address) (x : A) {copied : A}
      {c : Cell L} (σ : Store L) {σ' : Store L}
      → σ.cells p ≡ some (k.put x)
      → into x (allocated k x σ) ≡ some (copied, σ')
      → σ'.cells σ.next ≡ some c
      → new_copy k into (some p) σ ≡ some (some σ.next, write σ.next (k.put copied) σ')
  unfolding new_copy alloc
  new_copy-runs k into p x {copied} σ {σ'} at ran stands =
      rw (◌>>=◌, load-runs k p x σ at, ◌>>=◌, ran, ◌>>=◌, store-runs k σ.next copied σ' stands)

  write_self : (p : Address) (c : Cell L) (σ : Store L) → (write p c σ).cells p ≡ some c
  write_self p c σ = ground arith

  write_other :
      (p q : Address) (c : Cell L) (σ : Store L) → q ≢ p → (write p c σ).cells q ≡ σ.cells q
  write_other p q c σ h = ground arith

  Grows-allocated : {A : Type 0} (k : Kind L A) (x : A) (σ : Store L) → Grows σ (allocated k x σ)
  Grows-allocated k x σ = record {
    longer = omega arith;
    kept = λ p lt. write_other σ.next p (k.put x) σ (λ e. omega arith);
  }

  Grows-write :
      {σ σ' : Store L} (p : Address) (c : Cell L) → Grows σ σ' → σ.next ≤ p → Grows σ (write p c σ')
  Grows-write {σ'} p c g le = record {
    longer = g.longer;
    kept = λ q lt. write_other p q c σ' (λ e. omega arith) ∙ g.kept q lt;
  }

  module _ {A V : Type 0} {Shown : Showing L A V} {into : A → Mem L A} (c : Copier Shown into) where
    Refers-Moves :
        (k : Kind L A) (H H' : Region L) (p : Option Address) (v : Option V)
        → Within H H'
        → Refers k Shown H p v
        → Refers k Shown H' p v
    Refers-Moves k H H' none none w h = tt
    Refers-Moves k H H' (some p) (some v) w h = (h.0, w _ _ h.1, c.moves H H' h.0 v w h.2)
    Refers-Moves k H H' none (some v) w h = absurd h
    Refers-Moves k H H' (some p) none w h = absurd h

    copy-Copies :
        (k : Kind L A) (n : Address) (H : Region L) (p : Address) (x : A) (v : V) (σ : Store L)
        → H p (k.put x)
        → Shown H x v
        → Source n H σ
        → Copies n (Refers k Shown) (some v) (new_copy k into (some p)) σ
    unfolding new_copy
    copy-Copies k n H p x v σ at shown s =
        let σ1 = allocated k x σ in
        let step = c.copies (suc σ.next) H x v σ1 shown (record {
          above = omega arith;
          cells = λ q d h.
              (Grows-allocated k x σ).kept q (omega (arith, s.below q d h, s.above))
              ∙ s.cells q d h;
          below = λ q d h. omega (arith, s.below q d h, s.above);
        }) in
        let stands = step.grows.kept σ.next (omega arith) ∙ write_self σ.next (k.put x) σ in
        let filled = write σ.next (k.put step.result) step.final in
        record {
          result = some σ.next;
          final = filled;
          runs = new_copy-runs k into p x σ (s.cells p _ at) step.runs stands;
          grows =
              Grows-write σ.next (k.put step.result) (Grows-allocated k x σ then step.grows)
                (omega arith);
          shows = (
            step.result,
            (
              write_self σ.next (k.put step.result) step.final,
              s.above,
              omega (arith, step.grows.longer),
            ),
            c.moves _ _ _ _
                (λ q d h. (
                  write_other σ.next q (k.put step.result) step.final (λ e. omega (arith, h.1))
                      ∙ h.0,
                  omega (arith, h.1, s.above),
                  h.2,
                ))
                step.shows,
          );
        }

    new_copy-Copies :
        (k : Kind L A) (n : Address) (H : Region L) (p : Option Address) (v : Option V)
        (σ : Store L)
        → Refers k Shown H p v
        → Source n H σ
        → Copies n (Refers k Shown) v (new_copy k into p) σ
    unfolding new_copy
    new_copy-Copies k n H none none σ h s = Copies-pure tt
    new_copy-Copies k n H (some p) (some v) σ h s = copy-Copies k n H p h.0 v σ h.1 h.2 s
    new_copy-Copies k n H none (some v) σ h s = absurd h
    new_copy-Copies k n H (some p) none σ h s = absurd h

    pub Copier-new : (k : Kind L A) → Copier (Refers k Shown) (new_copy k into)
    Copier-new k = record { moves = Refers-Moves k; copies = new_copy-Copies k }
