-- ===== src/DeepCopy/Rules/Parts.antt =====
-- The ways to compose copies: fields one after another, a new variable for what a reference leads to,
-- and the elements of a list.
use cluster_api_provider_nom.Base.{◌≡◌, refl, ◌∙◌, some, arith, if◌then◌else◌}
use cluster_api_provider_nom.DeepCopy.Structs.{Address, Layout}
use cluster_api_provider_nom.DeepCopy.Memory.{Store, Mem, pure, ◌>>=◌}
use cluster_api_provider_nom.DeepCopy.Rules.{
  Region, Above, Grows, Grows-refl, ◌then◌, Above-Grows, Showing, Copies, Source, Copier, Lasting,
  Moves,
}

module _ {L : Layout} where
  pub Source-Grows :
      {n : Address} {H : Region L} {σ σ' : Store L} → Source n H σ → Grows σ σ' → Source n H σ'
  Source-Grows s g = record {
    above = omega (arith, s.above, g.longer);
    cells = λ p c h. g.kept p (omega (arith, s.above, s.below p c h)) ∙ s.cells p c h;
    below = s.below;
  }

  pub >>=-runs :
      {A B : Type 0} (m : Mem L A) (f : A → Mem L B) {a : A} (σ : Store L) {σ' : Store L}
      → m σ ≡ some (a, σ')
      → (m >>= f) σ ≡ f a σ'
  >>=-runs m f σ e = rw (e, ◌>>=◌)

  -- `pure` ends a copy, with what was copied before it.
  pub Copies-pure :
      {A V : Type 0} {Shown : Showing L A V} {n : Address} {a : A} {v : V} {σ : Store L}
      → Shown (Above n σ) a v
      → Copies n Shown v (pure a) σ
  Copies-pure {σ} h = record { result = _; final = _; runs = refl; grows = Grows-refl σ; shows = h }

  -- One part is copied, and the rest of the copy may count on it.
  pub Copies-bind :
      {A B V W : Type 0} {Shown : Showing L A V} {Next : Showing L B W} {n : Address} {H : Region L}
      (m : Mem L A) {v : V} (σ : Store L) (f : A → Mem L B) {w : W}
      → Moves Shown
      → Copies n Shown v m σ
      → Source n H σ
      → ((a' : A) (σ' : Store L)
          → Grows σ σ'
          → Source n H σ'
          → Lasting n Shown σ' a' v
          → Copies n Next w (f a') σ')
      → Copies n Next w (m >>= f) σ
  Copies-bind {n} m σ f moves step s rest =
      let tail =
        rest step.result step.final step.grows (Source-Grows s step.grows)
          (record { later = λ g. moves _ _ _ _ (Above-Grows n g) step.shows }) in
      record {
        result = tail.result;
        final = tail.final;
        runs = >>=-runs m f σ step.runs ∙ tail.runs;
        grows = step.grows then tail.grows;
        shows = tail.shows;
      }

  pub Copies-field :
      {A B V W : Type 0} {Shown : Showing L A V} {Next : Showing L B W} {n : Address} {H : Region L}
      {into : A → Mem L A} {a : A} {v : V} {σ : Store L} {f : A → Mem L B} {w : W}
      → Copier Shown into
      → Shown H a v
      → Source n H σ
      → ((a' : A) (σ' : Store L)
          → Grows σ σ'
          → Source n H σ'
          → Lasting n Shown σ' a' v
          → Copies n Next w (f a') σ')
      → Copies n Next w (into a >>= f) σ
  Copies-field {n} {H} {into} {a} {v} {σ} {f} c h s rest =
      Copies-bind (into a) σ f c.moves (c.copies n H a v σ h s) s rest
