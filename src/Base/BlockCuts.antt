-- ===== src/Base/BlockCuts.antt =====
-- Input for a machine that takes blocks, cut in two: the cut makes no difference.
use Prim.Native.Nat.{ℕ, zero, suc, ◌+◌, ◌-◌, ◌≤◌, ◌<◌}
use mathlib.Core.Path.{◌≡◌, refl, ap, ap₂, sym, ◌∙◌}
use mathlib.Core.Logic.{◌⊎◌, inl, inr}
use mathlib.Core.Option.{Option, some}
use mathlib.Core.List.{List, [], ◌∷◌, ◌++◌}
use native.Mathlib.Omega.{arith}
use revlink_sidecar.Base.Lists.{
  length, take, drop, length-append, length-take, length-drop, take_all,
}
use revlink_sidecar.Base.Tests.{Bool-cases, leb, leb→le, leb→lt}
use revlink_sidecar.Base.Cuts.{
  take-append_le, drop-append_le, take-append_past, drop-append_past, drop_all,
}
use revlink_sidecar.Base.Blocks.{
  then_go, then_feed, BlockMachine, feed_blocks, IsCuttable, then_go-cong, block_size,
  feed_blocks-rounds, one_round,
}

module _ {E X : Type 0} (m : BlockMachine E X) (Good : X → Type 0)
    (laws : IsCuttable E X m Good) where
  then_feed-then_go :
      (r : E ⊎ X) (f g : X → Option (E ⊎ X))
      → then_feed (then_go r f) g ≡ then_go r (λ x. then_feed (f x) g)
  then_feed-then_go (inl e) f g = refl
  then_feed-then_go (inr x) f g = refl

  -- The next block ends inside the first part.
  block_within :
      (n k : ℕ) (x : X) (xs ys : List ℕ) (F : X → Option (E ⊎ X))
      → Good x
      → 0 < length xs
      → m.count x (length (xs ++ ys)) ≤ length xs
      → ((x' : X) (rest : List ℕ)
          → Good x'
          → length rest < length xs
          → feed_blocks m n x' (rest ++ ys) ≡ then_feed (feed_blocks m k x' rest) F)
      → feed_blocks m (suc n) x (xs ++ ys) ≡ then_feed (feed_blocks m (suc k) x xs) F
  block_within n k x xs ys F g p h next =
      one_round m Good laws.paced n x (xs ++ ys) (omega (arith, length-append xs ys))
      ∙ ap
          (λ d.
            then_go (m.absorb x (take d (xs ++ ys))) (λ x'. feed_blocks m n x' (drop d (xs ++ ys))))
          same
      ∙ ap (λ t. then_go (m.absorb x t) (λ x'. feed_blocks m n x' (drop c (xs ++ ys))))
          (take-append_le c xs ys (omega arith))
      ∙ then_go-cong (m.absorb x (take c xs)) _ _ (λ x' e.
        ap (feed_blocks m n x') (drop-append_le c xs ys (omega arith))
        ∙ next x' (drop c xs)
            (laws.paced.keeps x x' (take c xs) g (block_size m Good laws.paced x xs g) e)
            (omega (arith, length-drop c xs)))
      ∙ sym (
          ap (λ o. then_feed o F) (one_round m Good laws.paced k x xs p)
          ∙ then_feed-then_go (m.absorb x (take c xs)) (λ x'. feed_blocks m k x' (drop c xs)) F)
    where
      c : ℕ
      c = m.count x (length xs)

      taken : 0 < c
      taken = laws.paced.takes x (length xs) g p

      same : m.count x (length (xs ++ ys)) ≡ c
      same =
          ap (m.count x) (length-append xs ys)
          ∙ sym (
              laws.paced.full x (length xs) (length ys) g
                (omega (arith, ap (m.count x) (length-append xs ys))))

      within : c ≤ length xs
      within = omega (arith, same)

  -- The next block goes on into the second part, of which it takes `d` bytes.
  block_across :
      (n k l d : ℕ) (x : X) (xs ys : List ℕ)
      → Good x
      → 0 < length xs
      → m.count x (length xs + length ys) ≡ length xs + d
      → 0 < d
      → d ≤ length ys
      → length xs + length ys ≤ n
      → length ys ≤ l
      → feed_blocks m (suc n) x (xs ++ ys)
        ≡ then_feed (feed_blocks m (suc (suc k)) x xs) (λ x'. feed_blocks m (suc l) x' ys)
  block_across n k l d x xs ys g p count some_more fits rounds rounds' =
      one_round m Good laws.paced n x (xs ++ ys) (omega (arith, length-append xs ys))
      ∙ ap
          (λ b.
            then_go (m.absorb x (take b (xs ++ ys))) (λ x'. feed_blocks m n x' (drop b (xs ++ ys))))
          whole
      ∙ ap₂ (λ t u. then_go (m.absorb x t) (λ x'. feed_blocks m n x' u))
          (take-append_past (length xs + d) xs ys (omega arith) ∙ ap (λ b. xs ++ take b ys) more)
          (drop-append_past (length xs + d) xs ys (omega arith) ∙ ap (λ b. drop b ys) more)
      ∙ ap (λ o. then_feed o after) (laws.cut x xs (take d ys) g full p (omega (arith, size)))
      ∙ then_feed-then_go (m.absorb x xs) (λ x'. some (m.absorb x' (take d ys))) after
      ∙ then_go-cong (m.absorb x xs) _ _ second
      ∙ sym first
    where
      after : X → Option (E ⊎ X)
      after x' = feed_blocks m n x' (drop d ys)

      whole : m.count x (length (xs ++ ys)) ≡ length xs + d
      whole = ap (m.count x) (length-append xs ys) ∙ count

      more : length xs + d - length xs ≡ d
      more = omega arith

      size : length (take d ys) ≡ d
      size = omega (arith, length-take d ys)

      own : m.count x (length xs) ≡ length xs
      own = laws.paced.part x (length xs) (length ys) g (omega arith)

      full : m.count x (length xs + length (take d ys)) ≡ length xs + length (take d ys)
      full =
          let split : length xs + d + (length ys - d) ≡ length xs + length ys = omega arith in
          let total : m.count x (length xs + d + (length ys - d)) ≡ length xs + d =
            ap (m.count x) split ∙ count in
          ap (λ b. m.count x (length xs + b)) size
          ∙ laws.paced.full x (length xs + d) (length ys - d) g (omega (arith, total))
          ∙ total
          ∙ ap (λ b. length xs + b) (sym size)

      first :
          then_feed (feed_blocks m (suc (suc k)) x xs) (λ x'. feed_blocks m (suc l) x' ys)
          ≡ then_go (m.absorb x xs) (λ x'. feed_blocks m (suc l) x' ys)
      first =
          ap (λ o. then_feed o (λ x'. feed_blocks m (suc l) x' ys))
            (one_round m Good laws.paced (suc k) x xs p
              ∙ ap₂ (λ t u. then_go (m.absorb x t) (λ x'. feed_blocks m (suc k) x' u))
                  (take_all (m.count x (length xs)) xs (omega (arith, own)))
                  (drop_all (m.count x (length xs)) xs (omega (arith, own))))
          ∙ then_feed-then_go (m.absorb x xs) (λ x'. some (inr x'))
              (λ x'. feed_blocks m (suc l) x' ys)

      second :
          (x' : X)
          → m.absorb x xs ≡ inr x'
          → then_feed (some (m.absorb x' (take d ys))) after ≡ feed_blocks m (suc l) x' ys
      second x' e =
          let g' = laws.paced.keeps x x' xs g own e in
          let next : m.count x' (length ys) ≡ d =
            omega (arith, laws.left x x' xs (length ys) g (omega arith) e) in
          then_go-cong (m.absorb x' (take d ys)) after (λ x''. feed_blocks m l x'' (drop d ys))
            (λ x'' e'.
              feed_blocks-rounds m Good laws.paced n l x'' (drop d ys)
                (laws.paced.keeps x' x'' (take d ys) g'
                  (ap (λ b. m.count x' (length (take b ys))) (sym next)
                    ∙ block_size m Good laws.paced x' ys g'
                    ∙ ap (λ b. length (take b ys)) next)
                  e')
                (omega (arith, length-drop d ys)) (omega (arith, length-drop d ys)))
          ∙ sym (
              one_round m Good laws.paced l x' ys (omega arith)
              ∙ ap (λ b. then_go (m.absorb x' (take b ys)) (λ x''. feed_blocks m l x'' (drop b ys)))
                  next)

  -- Input that is cut in two.
  pub feed_blocks-append :
      (k n l : ℕ) (x : X) (xs ys : List ℕ)
      → Good x
      → length xs + length ys < n
      → length xs < k
      → length ys < l
      → feed_blocks m n x (xs ++ ys)
        ≡ then_feed (feed_blocks m k x xs) (λ x'. feed_blocks m l x' ys)
  feed_blocks-append zero n l x xs ys g p q r = absurd (omega arith)
  feed_blocks-append (suc k) n l x [] ys g p q r =
      feed_blocks-rounds m Good laws.paced n l x ys g (omega arith) r
  feed_blocks-append (suc zero) n l x (b ∷ xs) ys g p q r = absurd (omega arith)
  feed_blocks-append (suc (suc k)) zero l x (b ∷ xs) ys g p q r = absurd (omega arith)
  feed_blocks-append (suc (suc k)) (suc n) zero x (b ∷ xs) ys g p q r = absurd (omega arith)
  feed_blocks-append (suc (suc k)) (suc n) (suc l) x (b ∷ xs) ys g p q r =
      elim (Bool-cases (leb (m.count x (length (b ∷ xs ++ ys))) (length (b ∷ xs)))) [
        | inl short ↦
            block_within n (suc k) x (b ∷ xs) ys (λ x'. feed_blocks m (suc l) x' ys) g (omega arith)
              (leb→le _ _ short)
              (λ x' rest g' h.
                feed_blocks-append (suc k) n (suc l) x' rest ys g' (omega arith) (omega arith) r)
        | inr long ↦
            let size : length (b ∷ xs ++ ys) ≡ length (b ∷ xs) + length ys =
              length-append (b ∷ xs) ys in
            let same : m.count x (length (b ∷ xs ++ ys)) ≡ m.count x (length (b ∷ xs) + length ys) =
              ap (m.count x) size in
            let most = laws.paced.available x (length (b ∷ xs) + length ys) g in
            let past : length (b ∷ xs) < m.count x (length (b ∷ xs ++ ys)) = leb→lt _ _ long in
            block_across n k l (m.count x (length (b ∷ xs) + length ys) - length (b ∷ xs)) x
              (b ∷ xs) ys g (omega arith) (omega (arith, past, same)) (omega (arith, past, same))
              (omega (arith, past, same)) (omega arith) (omega arith)
      ]
