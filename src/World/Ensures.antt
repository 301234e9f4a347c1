-- ===== src/World/Ensures.antt =====
-- What a computation ensures: a rule for each way to build one. `Q` speaks of the value
-- returned and of the state then, and `E` of the state after a panic or an unfinished loop.
use cluster_api_provider_nom.Base.{Bool, true, false, Option, none, some, ◌∷◌, ◌≡◌, refl}
use cluster_api_provider_nom.World.Error.{Error, Result, ok, err}
use cluster_api_provider_nom.World.Wire.{Call}
use cluster_api_provider_nom.World.Monad.{
  Panic, Outcome, returned, panicked, unfinished, Sys, M, pure, panic, call, gets, branch, on_ok,
  on_no_error, on_some, modify, continue, ◌>>=◌,
}
use cluster_api_provider_nom.World.Keeps.{Keeps}

abbrev pub Ends :
    {S A : Type 0} → (A → Sys S → Type 0) → (Sys S → Type 0) → Outcome A → Sys S → Type 0
Ends Q E (returned a) s = Q a s
Ends Q E (panicked p) s = E s
Ends Q E unfinished s = E s

pub record Ensures {S A : Type 0} (P : Sys S → Type 0) (m : M S A) (Q : A → Sys S → Type 0)
    (E : Sys S → Type 0) : Type 0 where
  pub at : (s : Sys S) → P s → Ends Q E (m s).0 (m s).1

Ends-map :
    {S A : Type 0} (Q R : A → Sys S → Type 0) (E F : Sys S → Type 0) (r : Outcome A) (s : Sys S)
    → ((a : A) → Q a s → R a s)
    → (E s → F s)
    → Ends Q E r s
    → Ends R F r s
Ends-map Q R E F (returned a) s f g h = f a h
Ends-map Q R E F (panicked p) s f g h = g h
Ends-map Q R E F unfinished s f g h = g h

pub Ends-all :
    {S A : Type 0} (P : Sys S → Type 0) (r : Outcome A) (s : Sys S) → P s → Ends (λ _. P) P r s
Ends-all P (returned a) s h = h
Ends-all P (panicked p) s h = h
Ends-all P unfinished s h = h

pub merge :
    {S A : Type 0} (P : Sys S → Type 0) (r : Outcome A) (s : Sys S) → Ends (λ _. P) P r s → P s
merge P (returned a) s h = h
merge P (panicked p) s h = h
merge P unfinished s h = h

Ensures-continue :
    {S A B : Type 0} (R : A → Sys S → Type 0) (Q : B → Sys S → Type 0) (E : Sys S → Type 0)
    (r : Outcome A) (f : A → M S B) (s : Sys S)
    → ((a : A) → Ensures (R a) (f a) Q E)
    → Ends R E r s
    → Ends Q E (continue r f s).0 (continue r f s).1
Ensures-continue R Q E (returned a) f s k h = (k a).at s h
Ensures-continue R Q E (panicked p) f s k h = h
Ensures-continue R Q E unfinished f s k h = h

module _ {S A : Type 0} {P : Sys S → Type 0} {Q : A → Sys S → Type 0} {E : Sys S → Type 0} where
  pub Ensures-pure : (a : A) → ((s : Sys S) → P s → Q a s) → Ensures P (pure a) Q E
  unfolding pure
  Ensures-pure a k = record { at = k }

  pub Ensures-panic : (p : Panic) → ((s : Sys S) → P s → E s) → Ensures P (panic p) Q E
  unfolding panic
  Ensures-panic p k = record { at = k }

  pub Ensures-gets : (f : Sys S → A) → ((s : Sys S) → P s → Q (f s) s) → Ensures P (gets f) Q E
  unfolding gets
  Ensures-gets f k = record { at = k }

  pub Ensures-branch :
      (b : Bool) (m n : M S A)
      → (b ≡ true → Ensures P m Q E)
      → (b ≡ false → Ensures P n Q E)
      → Ensures P (branch b m n) Q E
  unfolding branch
  Ensures-branch true m n km kn = record { at = (km refl).at }
  Ensures-branch false m n km kn = record { at = (kn refl).at }

  -- A stronger assumption and a weaker conclusion.
  pub Ensures-weaken :
      {P' : Sys S → Type 0} {Q' : A → Sys S → Type 0} {E' : Sys S → Type 0} (m : M S A)
      → ((s : Sys S) → P' s → P s)
      → ((a : A) (s : Sys S) → Q a s → Q' a s)
      → ((s : Sys S) → E s → E' s)
      → Ensures P m Q E
      → Ensures P' m Q' E'
  Ensures-weaken {Q' = Q'} {E' = E'} m f g h k = record {
    at = λ s p. Ends-map Q Q' E E' (m s).0 (m s).1 (λ a. g a (m s).1) (h (m s).1) (k.at s (f s p));
  }

  pub Ensures-call :
      (c : Call) (op : S → A × S)
      → ((s : Sys S)
          → P s
          → Q (op s.world).0 (record s { world = (op s.world).1; calls = c ∷ s.calls }))
      → Ensures P (call c op) Q E
  unfolding call
  Ensures-call c op k = record { at = k }

module _ {S A : Type 0} {P : Sys S → Type 0} where
  pub Ensures-of_Keeps : (m : M S A) → Keeps P m → Ensures P m (λ _. P) P
  Ensures-of_Keeps m k = record { at = λ s h. Ends-all P (m s).0 (m s).1 (k.at s h) }

  pub Keeps-of_Ensures : (m : M S A) → Ensures P m (λ _. P) P → Keeps P m
  Keeps-of_Ensures m k = record { at = λ s h. merge P (m s).0 (m s).1 (k.at s h) }

module _ {S : Type 0} {P : Sys S → Type 0} {Q : Unit {0} → Sys S → Type 0}
    {E : Sys S → Type 0} where
  pub Ensures-modify :
      (f : Sys S → Sys S) → ((s : Sys S) → P s → Q tt (f s)) → Ensures P (modify f) Q E
  unfolding modify
  Ensures-modify f k = record { at = k }

module _ {S A B : Type 0} {P : Sys S → Type 0} {Q : B → Sys S → Type 0} {E : Sys S → Type 0} where
  pub Ensures-on_ok :
      (r : Result A) (handle : Error → M S B) (go : A → M S B)
      → ((e : Error) → r ≡ err e → Ensures P (handle e) Q E)
      → ((a : A) → r ≡ ok a → Ensures P (go a) Q E)
      → Ensures P (on_ok r handle go) Q E
  unfolding on_ok
  Ensures-on_ok (ok a) handle go kh kg = record { at = (kg a refl).at }
  Ensures-on_ok (err e) handle go kh kg = record { at = (kh e refl).at }

  pub Ensures-on_some :
      (o : Option A) (absent : M S B) (go : A → M S B)
      → (o ≡ none → Ensures P absent Q E)
      → ((a : A) → o ≡ some a → Ensures P (go a) Q E)
      → Ensures P (on_some o absent go) Q E
  unfolding on_some
  Ensures-on_some none absent go ka kg = record { at = (ka refl).at }
  Ensures-on_some (some a) absent go ka kg = record { at = (kg a refl).at }

  pub Ensures-bind :
      (R : A → Sys S → Type 0) (m : M S A) (f : A → M S B)
      → Ensures P m R E
      → ((a : A) → Ensures (R a) (f a) Q E)
      → Ensures P (m >>= f) Q E
  unfolding ◌>>=◌
  Ensures-bind R m f km kf = record {
    at = λ s h. Ensures-continue R Q E (m s).0 f (m s).1 kf (km.at s h);
  }

module _ {S B : Type 0} {P : Sys S → Type 0} {Q : B → Sys S → Type 0} {E : Sys S → Type 0} where
  pub Ensures-on_no_error :
      (o : Option Error) (handle : Error → M S B) (go : M S B)
      → ((e : Error) → o ≡ some e → Ensures P (handle e) Q E)
      → (o ≡ none → Ensures P go Q E)
      → Ensures P (on_no_error o handle go) Q E
  unfolding on_no_error
  Ensures-on_no_error none handle go kh kg = record { at = (kg refl).at }
  Ensures-on_no_error (some e) handle go kh kg = record { at = (kh e refl).at }
