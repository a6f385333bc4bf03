-- ===== src/Thread/Places.antt =====
-- Places in a list of workers or tasks of common/thread/ThreadPool.cpp.
use mathlib.Core.Bool.{false≢true}
use yolo_server.Prelude.{◌≢◌, sym, ap, Bool, true, false, List, [], ◌∷◌, ◌++◌, All}

-- One element of a list for another.
pub All-replace {ℓ κ} :
    {A : Type ℓ} (P : A → Type κ) (x y : A) (xs ys : List A)
    → P y
    → All P (xs ++ x ∷ ys)
    → All P (xs ++ y ∷ ys)
All-replace P x y [] ys py (px, h) = (py, h)
All-replace P x y (z ∷ xs) ys py (pz, h) = (pz, All-replace P x y xs ys py h)

pub All-middle {ℓ κ} :
    {A : Type ℓ} (P : A → Type κ) (x : A) (xs ys : List A) → All P (xs ++ x ∷ ys) → P x
All-middle P x [] ys (px, h) = px
All-middle P x (z ∷ xs) ys (pz, h) = All-middle P x xs ys h

abbrev pub is_nil {ℓ} : {A : Type ℓ} → List A → Bool
is_nil [] = true
is_nil (x ∷ xs) = false

pub cons_nowhere {ℓ} : {A : Type ℓ} (x : A) (xs ys : List A) → [] ≢ xs ++ x ∷ ys
cons_nowhere x [] ys e = false≢true (ap is_nil (sym e))
cons_nowhere x (z ∷ xs) ys e = false≢true (ap is_nil (sym e))
