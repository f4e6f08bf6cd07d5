-- ===== src/Sync/Loop/Lines.antt =====
-- The lines of a text file of firmware/components/revlink_sync, apart from the loop that cuts them off: the
-- loop does with any text what is done with its lines one after the other, and ends where they end.
use mathlib.Core.Path.{fun_ext}
use revlink_sidecar.Base.{
  ℕ, zero, suc, ◌≡◌, ◌≢◌, ◌≤◌, refl, ap, sym, ◌∙◌, subst, ◌==◌, Bool-cases, inl, inr, Option, none,
  some, ◌>>=◌, List, [], ◌∷◌, ◌++◌, length, length-append, All, arith,
}
use revlink_sidecar.Sync.Text.{take_line}
use revlink_sidecar.Sync.Text.Fields.{IsLine}
use revlink_sidecar.Sync.Loop.{then_load, load_cut, read_lines, read_lines-line}
use revlink_sidecar.Sync.Manifest.{
  ManifestStatus, ok, invalid_argument, invalid_format, capacity_exceeded, buffer_too_small,
  allocation_failed,
}

-- The text of lines, and what stands behind the last newline.
abbrev pub lines_text : List (List ℕ) → List ℕ → List ℕ
lines_text [] tail = tail
lines_text (line ∷ lines) tail = line ++ b'\n' ∷ lines_text lines tail

-- Each line is loaded once, in their order, up to the first that is refused; bytes behind the last newline are
-- refused.
unfoldable pub load_lines {ℓ} :
    {A : Type ℓ}
    → (List ℕ → A → ManifestStatus × A)
    → List (List ℕ)
    → List ℕ
    → A
    → ManifestStatus × A
load_lines load [] [] a = (ok, a)
load_lines load [] (b ∷ tail) a = (invalid_format, a)
load_lines load (line ∷ lines) tail a = then_load (load line a) (load_lines load lines tail)

-- The lines of a text.
pub record IsCut (text : List ℕ) : Type 0 where
  pub lines : List (List ℕ)
  pub tail : List ℕ
  pub parts : text ≡ lines_text lines tail
  pub are_lines : All IsLine lines
  pub no_newline : IsLine tail

pub IsCut_lem : (text : List ℕ) → IsCut text
IsCut_lem [] = record { lines = []; tail = []; parts = refl; are_lines = tt; no_newline = tt }
IsCut_lem (b ∷ bs) = elim (Bool-cases (b == b'\n')) [
  | inl end ↦ closed (IsCut_lem bs) (ground arith)
  | inr more ↦ let c = IsCut_lem bs in longer c c.lines c.parts c.are_lines (ground arith)
]
  where
    closed : IsCut bs → b ≡ b'\n' → IsCut (b ∷ bs)
    closed c e = record {
      lines = [] ∷ c.lines;
      tail = c.tail;
      parts = ap (λ x. x ∷ bs) e ∙ ap (λ r. b'\n' ∷ r) c.parts;
      are_lines = (tt, c.are_lines);
      no_newline = c.no_newline;
    }

    longer :
        (c : IsCut bs) (lines : List (List ℕ))
        → bs ≡ lines_text lines c.tail
        → All IsLine lines
        → b ≢ b'\n'
        → IsCut (b ∷ bs)
    longer c [] parts l n = record {
      lines = [];
      tail = b ∷ c.tail;
      parts = ap (λ r. b ∷ r) parts;
      are_lines = tt;
      no_newline = (n, c.no_newline);
    }
    longer c (line ∷ lines) parts l n = record {
      lines = (b ∷ line) ∷ lines;
      tail = c.tail;
      parts = ap (λ r. b ∷ r) parts;
      are_lines = ((n, l.0), l.1);
      no_newline = c.no_newline;
    }

pub take_line→parts :
    (text : List ℕ) (cut : List ℕ × List ℕ)
    → take_line text ≡ some cut
    → text ≡ cut.0 ++ b'\n' ∷ cut.1
unfolding take_line
take_line→parts [] cut h = absurd cc
take_line→parts (b ∷ bs) cut h = elim (Bool-cases (b == b'\n')) [
  | inl end ↦
      let same : some ([], bs) ≡ some cut = rw end at h in
      let e : ([], bs) ≡ cut = cc in
      let n : b ≡ b'\n' = ground arith in
      ap (λ x. x ∷ bs) n ∙ ap (λ (c : List ℕ × List ℕ). c.0 ++ b'\n' ∷ c.1) e
  | inr more ↦ go (take_line bs) (take_line→parts bs) (rw more at h)
]
  where
    go :
        (o : Option (List ℕ × List ℕ))
        → ((first : List ℕ × List ℕ) → o ≡ some first → bs ≡ first.0 ++ b'\n' ∷ first.1)
        → o >>= (λ (line, rest). some (b ∷ line, rest)) ≡ some cut
        → b ∷ bs ≡ cut.0 ++ b'\n' ∷ cut.1
    go none p q = absurd cc
    go (some first) p q =
        let e : (b ∷ first.0, first.1) ≡ cut = cc in
        ap (λ r. b ∷ r) (p first refl) ∙ ap (λ (c : List ℕ × List ℕ). c.0 ++ b'\n' ∷ c.1) e

take_line-none : (tail : List ℕ) → IsLine tail → take_line tail ≡ none
unfolding take_line
take_line-none [] h = refl
take_line-none (b ∷ tail) h = let ih = take_line-none tail h.1 in let first = h.0 in grind arith

module _ {ℓ} {A : Type ℓ} (load : List ℕ → A → ManifestStatus × A) where
  read_lines-lines_text :
      (fuel : ℕ) (lines : List (List ℕ)) (tail : List ℕ) (a : A)
      → All IsLine lines
      → IsLine tail
      → length (lines_text lines tail) ≤ fuel
      → read_lines load fuel (lines_text lines tail) a ≡ load_lines load lines tail a
  unfolding read_lines load_lines
  read_lines-lines_text fuel [] [] a l t h = refl
  read_lines-lines_text zero [] (b ∷ tail) a l t h = absurd (omega arith)
  read_lines-lines_text (suc fuel) [] (b ∷ tail) a l t h =
      ap (load_cut load a (read_lines load fuel)) (take_line-none (b ∷ tail) t)
  read_lines-lines_text zero (line ∷ lines) tail a l t h =
      let n = length-append line (b'\n' ∷ lines_text lines tail) in absurd (omega arith)
  read_lines-lines_text (suc fuel) (line ∷ lines) tail a l t h =
      let n = length-append line (b'\n' ∷ lines_text lines tail) in
      read_lines-line load fuel line (lines_text lines tail) a l.0
      ∙ ap (then_load (load line a))
          (fun_ext (λ next. read_lines-lines_text fuel lines tail next l.1 t (omega arith)))

  -- On fuel of at least the text's length the loop does what is done with the text's lines.
  pub read_lines-load_lines :
      (fuel : ℕ) (text : List ℕ) (a : A) (c : IsCut text)
      → length text ≤ fuel
      → read_lines load fuel text a ≡ load_lines load c.lines c.tail a
  read_lines-load_lines fuel text a c h =
      ap (λ t. read_lines load fuel t a) c.parts
      ∙ read_lines-lines_text fuel c.lines c.tail a c.are_lines c.no_newline
          (subst (λ t. length t ≤ fuel) c.parts h)

  then_load-ok :
      (r : ManifestStatus × A) (next : A → ManifestStatus × A) (b : A)
      → then_load r next ≡ (ok, b)
      → next r.1 ≡ (ok, b)
  then_load-ok (ok, a) next b h = h
  then_load-ok (invalid_argument, a) next b h = absurd (let s = ap (λ r. r.0) h in cc)
  then_load-ok (invalid_format, a) next b h = absurd (let s = ap (λ r. r.0) h in cc)
  then_load-ok (capacity_exceeded, a) next b h = absurd (let s = ap (λ r. r.0) h in cc)
  then_load-ok (buffer_too_small, a) next b h = absurd (let s = ap (λ r. r.0) h in cc)
  then_load-ok (allocation_failed, a) next b h = absurd (let s = ap (λ r. r.0) h in cc)

  load_lines-ok :
      (lines : List (List ℕ)) (tail : List ℕ) (a b : A)
      → load_lines load lines tail a ≡ (ok, b)
      → tail ≡ []
  unfolding load_lines
  load_lines-ok [] [] a b h = refl
  load_lines-ok [] (x ∷ tail) a b h = absurd (let s = ap (λ r. r.0) h in cc)
  load_lines-ok (line ∷ lines) tail a b h =
      load_lines-ok lines tail (load line a).1 b
        (then_load-ok (load line a) (load_lines load lines tail) b h)

  -- All of a text was read: it is lines, each with its newline, and each of them was loaded.
  pub record IsReadWhole (text : List ℕ) (a b : A) : Type ℓ where
    pub lines : List (List ℕ)
    pub parts : text ≡ lines_text lines []
    pub are_lines : All IsLine lines
    pub loaded : load_lines load lines [] a ≡ (ok, b)

  pub read_lines-IsReadWhole :
      (text : List ℕ) (a b : A)
      → read_lines load (length text) text a ≡ (ok, b)
      → IsReadWhole text a b
  read_lines-IsReadWhole text a b h =
      let c = IsCut_lem text in
      let loaded = sym (read_lines-load_lines (length text) text a c (omega arith)) ∙ h in
      let end = load_lines-ok c.lines c.tail a b loaded in
      record {
        lines = c.lines;
        parts = c.parts ∙ ap (lines_text c.lines) end;
        are_lines = c.are_lines;
        loaded = ap (λ t. load_lines load c.lines t a) (sym end) ∙ loaded;
      }
