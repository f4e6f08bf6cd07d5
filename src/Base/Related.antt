-- ===== src/Base/Related.antt =====
-- Lists whose elements are related to all that follow them, and predicates on the parts of a list.
use Prim.Native.Nat.{ℕ, zero, suc}
use mathlib.Core.List.{List, [], ◌∷◌, ◌++◌}
use revlink_sidecar.Base.Lists.{replicate, All, All-append}

module _ {ℓ κ} {A : Type ℓ} where
  pub All-append_left : (P : A → Type κ) (xs ys : List A) → All P (xs ++ ys) → All P xs
  All-append_left P [] ys p = tt
  All-append_left P (x ∷ xs) ys p = (p.0, All-append_left P xs ys p.1)

  pub All-append_right : (P : A → Type κ) (xs ys : List A) → All P (xs ++ ys) → All P ys
  All-append_right P [] ys p = p
  All-append_right P (x ∷ xs) ys p = All-append_right P xs ys p.1

  pub All-map {μ} :
      (P : A → Type κ) (Q : A → Type μ) (xs : List A) → ((x : A) → P x → Q x) → All P xs → All Q xs
  All-map P Q [] f p = tt
  All-map P Q (x ∷ xs) f p = (f x p.0, All-map P Q xs f p.1)

  pub All-replicate : (P : A → Type κ) (n : ℕ) (a : A) → P a → All P (replicate n a)
  All-replicate P zero a p = tt
  All-replicate P (suc n) a p = (p, All-replicate P n a p)

  abbrev pub Pairwise : (A → A → Type κ) → List A → Type κ
  Pairwise R [] = Unit
  Pairwise R (x ∷ xs) = All (R x) xs × Pairwise R xs

module _ {ℓ κ} {A : Type ℓ} (R : A → A → Type κ) where
  pub Pairwise-append :
      (xs ys : List A)
      → Pairwise R xs
      → Pairwise R ys
      → All (λ (x : A). All (R x) ys) xs
      → Pairwise R (xs ++ ys)
  Pairwise-append [] ys p q r = q
  Pairwise-append (x ∷ xs) ys p q r =
      (All-append (R x) xs ys p.0 r.0, Pairwise-append xs ys p.1 q r.1)

  pub Pairwise-append_left : (xs ys : List A) → Pairwise R (xs ++ ys) → Pairwise R xs
  Pairwise-append_left [] ys p = tt
  Pairwise-append_left (x ∷ xs) ys p =
      (All-append_left (R x) xs ys p.0, Pairwise-append_left xs ys p.1)

  pub Pairwise-append_right : (xs ys : List A) → Pairwise R (xs ++ ys) → Pairwise R ys
  Pairwise-append_right [] ys p = p
  Pairwise-append_right (x ∷ xs) ys p = Pairwise-append_right xs ys p.1

  pub Pairwise-append_across :
      (xs ys : List A) → Pairwise R (xs ++ ys) → All (λ (x : A). All (R x) ys) xs
  Pairwise-append_across [] ys p = tt
  Pairwise-append_across (x ∷ xs) ys p =
      (All-append_right (R x) xs ys p.0, Pairwise-append_across xs ys p.1)
