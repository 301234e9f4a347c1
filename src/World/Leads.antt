-- ===== src/World/Leads.antt =====
-- `m` leads from `P` to `Q`: where `P` holds before, `Q` holds after, however `m` ends. A
-- computation that keeps `P` may come first, and the step to `Q` is taken in its last part.
use cluster_api_provider_nom.Base.{Bool, true, false, Option, none, some, ◌∷◌}
use cluster_api_provider_nom.World.Error.{Error, Result, ok, err}
use cluster_api_provider_nom.World.Monad.{
  Panic, Outcome, returned, panicked, unfinished, Sys, M, pure, panic, call, modify, branch, on_ok,
  on_no_error, on_some, continue, ◌>>=◌,
}
use cluster_api_provider_nom.World.Keeps.{Keeps, Keeps-continue}
use cluster_api_provider_nom.World.Ensures.{Ensures, Ends-all, merge}
use cluster_api_provider_nom.World.Wire.{Call}

pub record Leads {S A : Type 0} (P Q : Sys S → Type 0) (m : M S A) : Type 0 where
  pub at : (s : Sys S) → P s → Q (m s).1

-- What comes before implies what comes after.
pub record Weaker {S : Type 0} (P Q : Sys S → Type 0) : Type 0 where
  pub at : (s : Sys S) → P s → Q s

module _ {S A : Type 0} {P Q : Sys S → Type 0} where
  pub Leads-pure : Weaker P Q → (a : A) → Leads P Q (pure a)
  unfolding pure
  Leads-pure weaker a = record { at = weaker.at }

  pub Leads-panic : Weaker P Q → (p : Panic) → Leads P Q (panic {A = A} p)
  unfolding panic
  Leads-panic weaker p = record { at = weaker.at }

  pub Leads-branch : (b : Bool) (m n : M S A) → Leads P Q m → Leads P Q n → Leads P Q (branch b m n)
  unfolding branch
  Leads-branch true m n km kn = record { at = km.at }
  Leads-branch false m n km kn = record { at = kn.at }

  pub Leads-call :
      (c : Call) (op : S → A × S)
      → ((s : Sys S) (w : S) → P s → Q (record s { world = w; calls = c ∷ s.calls }))
      → Leads P Q (call c op)
  unfolding call
  Leads-call c op k = record { at = λ s h. k s (op s.world).1 h }

  pub Leads-of_Ensures : (m : M S A) → Ensures P m (λ _. Q) Q → Leads P Q m
  Leads-of_Ensures m e = record { at = λ s h. merge Q (m s).0 (m s).1 (e.at s h) }

  pub Ensures-of_Leads : (m : M S A) → Leads P Q m → Ensures P m (λ _. Q) Q
  Ensures-of_Leads m k = record { at = λ s h. Ends-all Q (m s).0 (m s).1 (k.at s h) }

module _ {S A B : Type 0} {P Q : Sys S → Type 0} where
  pub Leads-on_ok :
      (r : Result A) (handle : Error → M S B) (go : A → M S B)
      → ((e : Error) → Leads P Q (handle e))
      → ((a : A) → Leads P Q (go a))
      → Leads P Q (on_ok r handle go)
  unfolding on_ok
  Leads-on_ok (ok a) handle go kh kg = record { at = (kg a).at }
  Leads-on_ok (err e) handle go kh kg = record { at = (kh e).at }

  pub Leads-on_some :
      (o : Option A) (absent : M S B) (go : A → M S B)
      → Leads P Q absent
      → ((a : A) → Leads P Q (go a))
      → Leads P Q (on_some o absent go)
  unfolding on_some
  Leads-on_some none absent go ka kg = record { at = ka.at }
  Leads-on_some (some a) absent go ka kg = record { at = (kg a).at }

  Leads-continue :
      Weaker P Q
      → (r : Outcome A) (f : A → M S B) (s : Sys S) → ((a : A) → Leads P Q (f a))
      → P s
      → Q (continue r f s).1
  Leads-continue weaker (returned a) f s k h = (k a).at s h
  Leads-continue weaker (panicked p) f s k h = weaker.at s h
  Leads-continue weaker unfinished f s k h = weaker.at s h

  pub Leads-bind :
      Weaker P Q
      → (m : M S A) (f : A → M S B) → Keeps P m
      → ((a : A) → Leads P Q (f a))
      → Leads P Q (m >>= f)
  unfolding ◌>>=◌
  Leads-bind weaker m f first rest = record {
    at = λ s h. Leads-continue weaker (m s).0 f (m s).1 rest (first.at s h);
  }

  -- The step to `Q` is taken at once, and kept.
  pub Leads-then :
      (m : M S A) (f : A → M S B) → Leads P Q m → ((a : A) → Keeps Q (f a)) → Leads P Q (m >>= f)
  unfolding ◌>>=◌
  Leads-then m f first rest = record {
    at = λ s h. Keeps-continue (m s).0 f (m s).1 rest (first.at s h);
  }

module _ {S : Type 0} {P Q : Sys S → Type 0} where
  pub Leads-modify : (f : Sys S → Sys S) → ((s : Sys S) → P s → Q (f s)) → Leads P Q (modify f)
  unfolding modify
  Leads-modify f k = record { at = k }

module _ {S B : Type 0} {P Q : Sys S → Type 0} where
  pub Leads-on_no_error :
      (o : Option Error) (handle : Error → M S B) (go : M S B)
      → ((e : Error) → Leads P Q (handle e))
      → Leads P Q go
      → Leads P Q (on_no_error o handle go)
  unfolding on_no_error
  Leads-on_no_error none handle go kh kg = record { at = kg.at }
  Leads-on_no_error (some e) handle go kh kg = record { at = (kh e).at }

pub ruleset leads_rules = (
  Leads-bind, Leads-branch, Leads-on_ok, Leads-on_some, Leads-on_no_error, Leads-pure, Leads-panic,
)
