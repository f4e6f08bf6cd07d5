-- ===== src/Base/Blocks.antt =====
-- A machine that takes its input in blocks, as many bytes as it needs or as there are. Where a block
-- may be cut anywhere, so may the input.
use Prim.Native.Nat.{ℕ, zero, suc, ◌+◌, ◌-◌, ◌≤◌, ◌<◌}
use mathlib.Core.Path.{◌≡◌, refl, ap, subst, sym, ◌∙◌}
use mathlib.Core.Logic.{◌⊎◌, inl, inr}
use mathlib.Core.Bool.{true}
use mathlib.Core.Option.{Option, none, some}
use mathlib.Core.List.{List, [], ◌∷◌, ◌++◌}
use native.Mathlib.Omega.{arith}
use revlink_sidecar.Base.Lists.{length, take, drop, length-take, length-drop}
use revlink_sidecar.Base.Tests.{is_some}

-- Go on from a state, unless there is an error.
abbrev pub then_go : {E X : Type 0} → E ⊎ X → (X → Option (E ⊎ X)) → Option (E ⊎ X)
then_go (inl e) f = some (inl e)
then_go (inr x) f = f x

abbrev pub then_feed : {E X : Type 0} → Option (E ⊎ X) → (X → Option (E ⊎ X)) → Option (E ⊎ X)
then_feed none f = none
then_feed (some r) f = then_go r f

-- `count x n` bytes of the `n` that there are go into the next block.
pub record BlockMachine (E X : Type 0) : Type 0 where
  pub count : X → ℕ → ℕ
  pub absorb : X → List ℕ → E ⊎ X

abbrev pub feed_blocks : {E X : Type 0} → BlockMachine E X → ℕ → X → List ℕ → Option (E ⊎ X)
feed_blocks m zero x bs = none
feed_blocks m (suc n) x [] = some (inr x)
feed_blocks m (suc n) x (b ∷ bs) =
    let c = m.count x (length (b ∷ bs)) in
    then_go (m.absorb x (take c (b ∷ bs))) (λ x'. feed_blocks m n x' (drop c (b ∷ bs)))

-- A block takes something, and never more than there is.
pub record IsPaced (E X : Type 0) (m : BlockMachine E X) (Good : X → Type 0) : Type 0 where
  pub takes : (x : X) (n : ℕ) → Good x → 0 < n → 0 < m.count x n
  pub available : (x : X) (n : ℕ) → Good x → m.count x n ≤ n
  pub full : (x : X) (a b : ℕ) → Good x → m.count x (a + b) ≤ a → m.count x a ≡ m.count x (a + b)
  pub part : (x : X) (a b : ℕ) → Good x → a < m.count x (a + b) → m.count x a ≡ a
  pub keeps :
      (x x' : X) (bs : List ℕ)
      → Good x
      → m.count x (length bs) ≡ length bs
      → m.absorb x bs ≡ inr x'
      → Good x'

-- A block may be cut at any place.
pub record IsCuttable (E X : Type 0) (m : BlockMachine E X) (Good : X → Type 0) : Type 0 where
  pub paced : IsPaced E X m Good
  pub left :
      (x x' : X) (xs : List ℕ) (b : ℕ)
      → Good x
      → length xs < m.count x (length xs + b)
      → m.absorb x xs ≡ inr x'
      → m.count x (length xs + b) ≡ length xs + m.count x' b
  pub cut :
      (x : X) (xs ys : List ℕ)
      → Good x
      → m.count x (length xs + length ys) ≡ length xs + length ys
      → 0 < length xs
      → 0 < length ys
      → some (m.absorb x (xs ++ ys)) ≡ then_go (m.absorb x xs) (λ x'. some (m.absorb x' ys))

pub then_go-cong :
    {E X : Type 0} (r : E ⊎ X) (f g : X → Option (E ⊎ X))
    → ((x : X) → r ≡ inr x → f x ≡ g x)
    → then_go r f ≡ then_go r g
then_go-cong (inl e) f g h = refl
then_go-cong (inr x) f g h = h x refl

pub then_feed-cong :
    {E X : Type 0} (o : Option (E ⊎ X)) (f g : X → Option (E ⊎ X))
    → ((x : X) → o ≡ some (inr x) → f x ≡ g x)
    → then_feed o f ≡ then_feed o g
then_feed-cong none f g h = refl
then_feed-cong (some (inl e)) f g h = refl
then_feed-cong (some (inr x)) f g h = h x refl

module _ {E X : Type 0} (m : BlockMachine E X) (Good : X → Type 0) (laws : IsPaced E X m Good) where
  pub block_size :
      (x : X) (bs : List ℕ)
      → Good x
      → m.count x (length (take (m.count x (length bs)) bs))
        ≡ length (take (m.count x (length bs)) bs)
  block_size x bs g =
      let c : ℕ = m.count x (length bs) in
      let le : c ≤ length bs = laws.available x (length bs) g in
      let size : length (take c bs) ≡ c = omega (arith, length-take c bs) in
      let split : c + (length bs - c) ≡ length bs = omega arith in
      let whole : m.count x (c + (length bs - c)) ≡ c = ap (m.count x) split in
      ap (m.count x) size
      ∙ laws.full x c (length bs - c) g (omega (arith, whole))
      ∙ whole
      ∙ sym size

  -- More rounds than bytes are as good as any other number of rounds.
  pub feed_blocks-rounds :
      (n k : ℕ) (x : X) (bs : List ℕ)
      → Good x
      → length bs < n
      → length bs < k
      → feed_blocks m n x bs ≡ feed_blocks m k x bs
  feed_blocks-rounds zero k x bs g p q = absurd (omega arith)
  feed_blocks-rounds (suc n) zero x bs g p q = absurd (omega arith)
  feed_blocks-rounds (suc n) (suc k) x [] g p q = refl
  feed_blocks-rounds (suc n) (suc k) x (b ∷ bs) g p q =
      let c : ℕ = m.count x (length (b ∷ bs)) in
      let some_taken : 0 < c = laws.takes x (length (b ∷ bs)) g (omega arith) in
      let size = length-drop c (b ∷ bs) in
      then_go-cong (m.absorb x (take c (b ∷ bs))) _ _ (λ x' e.
        feed_blocks-rounds n k x' (drop c (b ∷ bs))
          (laws.keeps x x' (take c (b ∷ bs)) g (block_size x (b ∷ bs) g) e) (omega arith)
          (omega arith))

  -- The machine gets through its input.
  pub feed_blocks_total :
      (n : ℕ) (x : X) (bs : List ℕ) → Good x → length bs < n → is_some (feed_blocks m n x bs) ≡ true
  feed_blocks_total zero x bs g p = absurd (omega arith)
  feed_blocks_total (suc n) x [] g p = refl
  feed_blocks_total (suc n) x (b ∷ bs) g p =
      let c : ℕ = m.count x (length (b ∷ bs)) in
      let some_taken : 0 < c = laws.takes x (length (b ∷ bs)) g (omega arith) in
      let size = length-drop c (b ∷ bs) in
      go (m.absorb x (take c (b ∷ bs))) _ (λ x' e.
        feed_blocks_total n x' (drop c (b ∷ bs))
          (laws.keeps x x' (take c (b ∷ bs)) g (block_size x (b ∷ bs) g) e) (omega arith))
    where
      go :
          (r : E ⊎ X) (f : X → Option (E ⊎ X))
          → ((x' : X) → r ≡ inr x' → is_some (f x') ≡ true)
          → is_some (then_go r f) ≡ true
      go (inl e) f h = refl
      go (inr x') f h = h x' refl

  -- One round, for input that is not empty.
  pub one_round :
      (n : ℕ) (x : X) (bs : List ℕ)
      → 0 < length bs
      → feed_blocks m (suc n) x bs
        ≡ then_go
            (m.absorb x (take (m.count x (length bs)) bs))
            (λ x'. feed_blocks m n x' (drop (m.count x (length bs)) bs))
  one_round n x [] h = absurd (omega arith)
  one_round n x (b ∷ bs) h = refl

  -- What is good stays so.
  pub feed_blocks-keeps :
      (n : ℕ) (x x' : X) (bs : List ℕ) → Good x → feed_blocks m n x bs ≡ some (inr x') → Good x'
  feed_blocks-keeps zero x x' bs g e = absurd (cc e)
  feed_blocks-keeps (suc n) x x' [] g e = let same : x ≡ x' = grind arith in subst Good same g
  feed_blocks-keeps (suc n) x x' (b ∷ bs) g e =
      let c : ℕ = m.count x (length (b ∷ bs)) in
      go (m.absorb x (take c (b ∷ bs)))
        (λ x'' e'.
          feed_blocks-keeps n x'' x' (drop c (b ∷ bs))
            (laws.keeps x x'' (take c (b ∷ bs)) g (block_size x (b ∷ bs) g) e'))
        e
    where
      go :
          (r : E ⊎ X)
          → ((x'' : X)
              → r ≡ inr x''
              → feed_blocks m n x'' (drop (m.count x (length (b ∷ bs))) (b ∷ bs)) ≡ some (inr x')
              → Good x')
          → then_go r (λ x''. feed_blocks m n x'' (drop (m.count x (length (b ∷ bs))) (b ∷ bs)))
            ≡ some (inr x')
          → Good x'
      go (inl err) f e = absurd (cc e)
      go (inr x'') f e = f x'' refl e
