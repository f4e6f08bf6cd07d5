-- ===== src/Sync/Manifest/Entries.antt =====
-- The manifest's list of entries around the one that has a path.
use revlink_sidecar.Base.{
  ℕ, ◌≡◌, ◌≢◌, ◌≤◌, ◌⊎◌, inl, inr, refl, ap, sym, ◌∙◌, subst, Bool-cases, true, false, Option, none,
  some, List, [], ◌∷◌, ◌++◌, length, mem_eq, mem_eq→take, take_all, All, arith,
}
use revlink_sidecar.Sync.Manifest.{
  Entry, same_path, find_entry, update_entry, remove_entry, move_last,
}

pub mem_eq_self : (xs : List ℕ) → mem_eq (length xs) xs xs ≡ true
unfolding mem_eq
mem_eq_self [] = refl
mem_eq_self (x ∷ xs) = grind (arith, mem_eq_self xs)

pub same_path→eq : (a b : List ℕ) → same_path a b ≡ true → a ≡ b
unfolding same_path
same_path→eq a b h =
    let n : length a ≤ length b = ground arith in
    sym (take_all (length b) a n)
    ∙ mem_eq→take (length b) a b (ground arith)
    ∙ take_all (length b) b (omega arith)

pub same_path_self : (a : List ℕ) → same_path a a ≡ true
unfolding same_path
same_path_self a = ground (arith, mem_eq_self a)

-- Whether two paths are the same, with what it means.
pub path_cases :
    (a b : List ℕ) → (same_path a b ≡ true) × (a ≡ b) ⊎ (same_path a b ≡ false) × (a ≢ b)
path_cases a b = elim (Bool-cases (same_path a b)) [
  | inl h ↦ inl (h, same_path→eq a b h)
  | inr h ↦
      inr (h, λ e. let self = subst (λ c. same_path a c ≡ true) e (same_path_self a) in grind arith)
]

pub same_path_ne : (a b : List ℕ) → a ≢ b → same_path a b ≡ false
same_path_ne a b h = elim (path_cases a b) [ inl p ↦ absurd (h p.1) | inr p ↦ p.0 ]

pub same_path_eq : (a b : List ℕ) → a ≡ b → same_path a b ≡ true
same_path_eq a b h = elim (path_cases a b) [ inl p ↦ p.0 | inr p ↦ absurd (p.1 h) ]

-- No entry has the path.
abbrev pub IsMissing : List ℕ → List Entry → Type 0
IsMissing path = All (λ (e : Entry). e.path ≢ path)

-- The first entry with the path, among the others.
pub record Found (path : List ℕ) (es : List Entry) : Type 0 where
  pub before : List Entry
  pub found : Entry
  pub after : List Entry
  pub missing_before : IsMissing path before
  pub has : found.path ≡ path
  pub around : es ≡ before ++ found ∷ after

pub find_cases : (path : List ℕ) (es : List Entry) → IsMissing path es ⊎ Found path es
find_cases path [] = inl tt
find_cases path (e ∷ es) = elim (path_cases e.path path) [
  | inl p ↦
      inr (record {
        before = [];
        found = e;
        after = es;
        missing_before = tt;
        has = p.1;
        around = refl;
      })
  | inr p ↦ elim (find_cases path es) [
    | inl none_has ↦ inl (p.1, none_has)
    | inr w ↦ inr (record {
      before = e ∷ w.before;
      found = w.found;
      after = w.after;
      missing_before = (p.1, w.missing_before);
      has = w.has;
      around = ap (λ r. e ∷ r) w.around;
    })
  ]
]

abbrev pub or_else {ℓ} : {A : Type ℓ} → Option A → Option A → Option A
or_else none b = b
or_else (some a) b = some a

pub find_entry-append :
    (path : List ℕ) (xs ys : List Entry)
    → find_entry path (xs ++ ys) ≡ or_else (find_entry path xs) (find_entry path ys)
unfolding find_entry
find_entry-append path [] ys = refl
find_entry-append path (x ∷ xs) ys = elim (path_cases x.path path) [
  | inl p ↦ rw p.0 refl
  | inr p ↦ rw p.0 (find_entry-append path xs ys)
]

pub find_entry_missing :
    (path : List ℕ) (es : List Entry) → IsMissing path es → find_entry path es ≡ none
unfolding find_entry
find_entry_missing path [] h = refl
find_entry_missing path (e ∷ es) h =
    rw (same_path_ne e.path path h.0) (find_entry_missing path es h.1)

pub update_entry_missing :
    (f : Entry → Entry) (path : List ℕ) (es : List Entry)
    → IsMissing path es
    → update_entry f path es ≡ none
unfolding update_entry
update_entry_missing f path [] h = refl
update_entry_missing f path (e ∷ es) h =
    rw (same_path_ne e.path path h.0, update_entry_missing f path es h.1) refl

pub remove_entry_missing :
    (path : List ℕ) (es : List Entry) → IsMissing path es → remove_entry path es ≡ none
unfolding remove_entry
remove_entry_missing path [] h = refl
remove_entry_missing path (e ∷ es) h =
    rw (same_path_ne e.path path h.0, remove_entry_missing path es h.1) refl

pub update_entry_found :
    (f : Entry → Entry) (path : List ℕ) (before : List Entry) (e : Entry) (after : List Entry)
    → IsMissing path before
    → e.path ≡ path
    → update_entry f path (before ++ e ∷ after) ≡ some (before ++ f e ∷ after)
unfolding update_entry
update_entry_found f path [] e after h p = rw (same_path_eq e.path path p) refl
update_entry_found f path (b ∷ before) e after h p =
    rw (same_path_ne b.path path h.0, update_entry_found f path before e after h.1 p) refl

pub remove_entry_found :
    (path : List ℕ) (before : List Entry) (e : Entry) (after : List Entry)
    → IsMissing path before
    → e.path ≡ path
    → remove_entry path (before ++ e ∷ after) ≡ some (before ++ move_last after)
unfolding remove_entry
remove_entry_found path [] e after h p = rw (same_path_eq e.path path p) refl
remove_entry_found path (b ∷ before) e after h p =
    rw (same_path_ne b.path path h.0, remove_entry_found path before e after h.1 p) refl

pub move_last_cases :
    (es : List Entry)
    → (es ≡ []) × (move_last es ≡ [])
      ⊎ ((rest : List Entry) × (last : Entry) × (es ≡ rest ++ last ∷ [])
          × (move_last es ≡ last ∷ rest))
unfolding move_last
move_last_cases [] = inl (refl, refl)
move_last_cases (e ∷ es) = elim (move_last_cases es) [
  | inl p ↦ inr ([], e, ap (λ r. e ∷ r) p.0, rw p.1 refl)
  | inr (rest, last, p, q) ↦ inr (e ∷ rest, last, ap (λ r. e ∷ r) p, rw q refl)
]
