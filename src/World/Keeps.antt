-- ===== src/World/Keeps.antt =====
-- Invariants of computations: one rule for each way to build one.
use cluster_api_provider_nom.Base.{Bool, true, false, Option, none, some, List, ◌∷◌, ◌≡◌, refl}
use cluster_api_provider_nom.World.Error.{Error, Result, ok, err}
use cluster_api_provider_nom.World.Wire.{Call}
use cluster_api_provider_nom.World.Monad.{
  Panic, Outcome, returned, panicked, unfinished, unfinished_loop, Sys, M, pure, panic, call,
  silent, gets, branch, on_ok, on_no_error, on_some, modify, continue, ◌>>=◌,
}

-- `m` keeps `P`, however it ends.
pub record Keeps {S A : Type 0} (P : Sys S → Type 0) (m : M S A) : Type 0 where
  pub at : (s : Sys S) → P s → P (m s).1

module _ {S A : Type 0} {P : Sys S → Type 0} where
  pub Keeps-pure : (a : A) → Keeps P (pure a)
  unfolding pure
  Keeps-pure a = record { at = λ s h. h }

  pub Keeps-panic : (p : Panic) → Keeps P (panic {A = A} p)
  unfolding panic
  Keeps-panic p = record { at = λ s h. h }

  pub Keeps-unfinished_loop : Keeps P (unfinished_loop {A = A})
  unfolding unfinished_loop
  Keeps-unfinished_loop = record { at = λ s h. h }

  pub Keeps-gets : (f : Sys S → A) → Keeps P (gets f)
  unfolding gets
  Keeps-gets f = record { at = λ s h. h }

  pub Keeps-call :
      (c : Call) (op : S → A × S)
      → ((s : Sys S) (w : S) → P s → P (record s { world = w; calls = c ∷ s.calls }))
      → Keeps P (call c op)
  unfolding call
  Keeps-call c op k = record { at = λ s h. k s (op s.world).1 h }

  pub Keeps-silent :
      (op : S → A × S)
      → ((s : Sys S) (w : S) → P s → P (record s { world = w }))
      → Keeps P (silent op)
  unfolding silent
  Keeps-silent op k = record { at = λ s h. k s (op s.world).1 h }

  pub Keeps-branch :
      (b : Bool) (m n : M S A)
      → (b ≡ true → Keeps P m)
      → (b ≡ false → Keeps P n)
      → Keeps P (branch b m n)
  unfolding branch
  Keeps-branch true m n km kn = record { at = (km refl).at }
  Keeps-branch false m n km kn = record { at = (kn refl).at }

module _ {S : Type 0} {P : Sys S → Type 0} where
  pub Keeps-modify : (f : Sys S → Sys S) → ((s : Sys S) → P s → P (f s)) → Keeps P (modify f)
  unfolding modify
  Keeps-modify f k = record { at = k }

module _ {S A B : Type 0} {P : Sys S → Type 0} where
  pub Keeps-on_ok :
      (r : Result A) (handle : Error → M S B) (go : A → M S B)
      → ((e : Error) → Keeps P (handle e))
      → ((a : A) → Keeps P (go a))
      → Keeps P (on_ok r handle go)
  unfolding on_ok
  Keeps-on_ok (ok a) handle go kh kg = record { at = (kg a).at }
  Keeps-on_ok (err e) handle go kh kg = record { at = (kh e).at }

  pub Keeps-on_some :
      (o : Option A) (absent : M S B) (go : A → M S B)
      → Keeps P absent
      → ((a : A) → Keeps P (go a))
      → Keeps P (on_some o absent go)
  unfolding on_some
  Keeps-on_some none absent go ka kg = record { at = ka.at }
  Keeps-on_some (some a) absent go ka kg = record { at = (kg a).at }

  pub Keeps-continue :
      (r : Outcome A) (f : A → M S B) (s : Sys S)
      → ((a : A) → Keeps P (f a))
      → P s
      → P (continue r f s).1
  Keeps-continue (returned a) f s k h = (k a).at s h
  Keeps-continue (panicked p) f s k h = h
  Keeps-continue unfinished f s k h = h

  pub Keeps-bind :
      (m : M S A) (f : A → M S B)
      → Keeps P m
      → ((value : A) → Keeps P (f value))
      → Keeps P (m >>= f)
  unfolding ◌>>=◌
  Keeps-bind m f first next = record {
    at = λ sys before. Keeps-continue (m sys).0 f (m sys).1 next (first.at sys before);
  }

module _ {S B : Type 0} {P : Sys S → Type 0} where
  pub Keeps-on_no_error :
      (o : Option Error) (handle : Error → M S B) (go : M S B)
      → ((e : Error) → Keeps P (handle e))
      → Keeps P go
      → Keeps P (on_no_error o handle go)
  unfolding on_no_error
  Keeps-on_no_error none handle go kh kg = record { at = kg.at }
  Keeps-on_no_error (some e) handle go kh kg = record { at = (kh e).at }

pub ruleset keeps_rules = (
  Keeps-pure, Keeps-panic, Keeps-unfinished_loop, Keeps-gets, Keeps-call, Keeps-silent,
  Keeps-branch, Keeps-modify, Keeps-on_ok, Keeps-on_some, Keeps-on_no_error, Keeps-bind,
)

-- A property of the objects and of the polling: the world and the record of calls do not matter.
pub record IsStable {S : Type 0} (P : Sys S → Type 0) : Type 0 where
  pub calls_only :
      (s : Sys S) (w : S) (calls : List Call) → P s → P (record s { world = w; calls = calls })

module _ {S A : Type 0} {P : Sys S → Type 0} where
  pub stable-call : IsStable P → (c : Call) (op : S → A × S) → Keeps P (call c op)
  stable-call st c op = Keeps-call c op (λ s w h. st.calls_only s w (c ∷ s.calls) h)

  pub stable-silent : IsStable P → (op : S → A × S) → Keeps P (silent op)
  stable-silent st op = Keeps-silent op (λ s w h. st.calls_only s w s.calls h)

pub ruleset stable_rules = (
  Keeps-pure, Keeps-panic, Keeps-unfinished_loop, Keeps-gets, stable-call, stable-silent,
  Keeps-branch, Keeps-modify, Keeps-on_ok, Keeps-on_some, Keeps-on_no_error, Keeps-bind,
)
