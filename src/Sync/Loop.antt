-- ===== src/Sync/Loop.antt =====
-- The loop over the lines of a text file, which revlink_sync_manifest.c, revlink_sync_history.c and
-- revlink_sync_annotations.c each spell out, over what they do with a line.
pub mod Lines
use mathlib.Core.Path.{fun_ext}
use revlink_sidecar.Base.{
  Bool, true, false, ℕ, zero, suc, ◌≡◌, ◌≤◌, ◌<◌, refl, ap, ◌==◌, if◌then◌else◌, Bool-cases, inl,
  inr, Option, none, some, ◌>>=◌, List, [], ◌∷◌, ◌++◌, length, arith,
}
use revlink_sidecar.Sync.Text.{take_line}
use revlink_sidecar.Sync.Text.Fields.{IsLine, take_line-append}
use revlink_sidecar.Sync.Manifest.{
  ManifestStatus, ok, invalid_argument, invalid_format, capacity_exceeded, buffer_too_small,
  allocation_failed,
}

abbrev pub then_load {ℓ} :
    {A : Type ℓ} → ManifestStatus × A → (A → ManifestStatus × A) → ManifestStatus × A
then_load (ok, a) next = next a
then_load (status, a) next = (status, a)

-- What the loop does with the line that `memchr` cuts off; `next` goes on with the rest.
abbrev pub load_cut {ℓ} :
    {A : Type ℓ}
    → (List ℕ → A → ManifestStatus × A)
    → A
    → (List ℕ → A → ManifestStatus × A)
    → Option (List ℕ × List ℕ)
    → ManifestStatus × A
load_cut load a next none = (invalid_format, a)
load_cut load a next (some cut) = then_load (load cut.0 a) (next cut.1)

-- The loop on fuel: a line is at least its newline, so the text's length is enough.
unfoldable pub read_lines {ℓ} :
    {A : Type ℓ} → (List ℕ → A → ManifestStatus × A) → ℕ → List ℕ → A → ManifestStatus × A
read_lines load fuel [] a = (ok, a)
read_lines load zero (b ∷ bs) a = (invalid_format, a)
read_lines load (suc fuel) (b ∷ bs) a = load_cut load a (read_lines load fuel) (take_line (b ∷ bs))

abbrev pub OnSome {ℓ κ} : {A : Type ℓ} → (A → Type κ) → Option A → Type κ
OnSome P none = Unit
OnSome P (some a) = P a

pub bind-OnSome {ℓ κ μ} :
    {A : Type ℓ} {B : Type κ} (P : B → Type μ) (o : Option A) (f : A → Option B)
    → ((a : A) → o ≡ some a → OnSome P (f a))
    → OnSome P (o >>= f)
bind-OnSome P none f h = tt
bind-OnSome P (some a) f h = h a refl

pub if-OnSome {ℓ κ} :
    {A : Type ℓ} (P : A → Type κ) (b : Bool) (o : Option A)
    → (b ≡ false → OnSome P o)
    → OnSome P (if b then none else o)
if-OnSome P true o h = tt
if-OnSome P false o h = h refl

module _ {ℓ} {A : Type ℓ} (load : List ℕ → A → ManifestStatus × A) where
  pub read_lines-line :
      (fuel : ℕ) (line rest : List ℕ) (a : A)
      → IsLine line
      → read_lines load (suc fuel) (line ++ b'\n' ∷ rest) a
        ≡ then_load (load line a) (read_lines load fuel rest)
  unfolding read_lines
  read_lines-line fuel [] rest a h =
      ap (load_cut load a (read_lines load fuel)) (take_line-append [] rest h)
  read_lines-line fuel (b ∷ line) rest a h =
      ap (load_cut load a (read_lines load fuel)) (take_line-append (b ∷ line) rest h)

module _ {ℓ κ} {A : Type ℓ} (P : A → Type κ) where
  then_load_keeps :
      (r : ManifestStatus × A) (next : A → ManifestStatus × A)
      → P r.1
      → ((a : A) → P a → P (next a).1)
      → P (then_load r next).1
  then_load_keeps (ok, a) next s h = h a s
  then_load_keeps (invalid_argument, a) next s h = s
  then_load_keeps (invalid_format, a) next s h = s
  then_load_keeps (capacity_exceeded, a) next s h = s
  then_load_keeps (buffer_too_small, a) next s h = s
  then_load_keeps (allocation_failed, a) next s h = s

  -- What every line keeps, the loop keeps.
  pub read_lines_keeps :
      (load : List ℕ → A → ManifestStatus × A)
      → ((line : List ℕ) (a : A) → P a → P (load line a).1)
      → (fuel : ℕ) (text : List ℕ) (a : A) → P a
      → P (read_lines load fuel text a).1
  unfolding read_lines
  read_lines_keeps load keeps fuel [] a s = s
  read_lines_keeps load keeps zero (b ∷ bs) a s = s
  read_lines_keeps load keeps (suc fuel) (b ∷ bs) a s =
      go (take_line (b ∷ bs)) (λ cut. read_lines_keeps load keeps fuel cut.1)
    where
      go :
          (o : Option (List ℕ × List ℕ))
          → ((cut : List ℕ × List ℕ) (next : A) → P next → P (read_lines load fuel cut.1 next).1)
          → P (load_cut load a (read_lines load fuel) o).1
      go none rest = s
      go (some cut) rest =
          then_load_keeps (load cut.0 a) (read_lines load fuel cut.1) (keeps cut.0 a s) (rest cut)
