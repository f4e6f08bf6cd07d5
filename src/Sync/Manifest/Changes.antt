-- ===== src/Sync/Manifest/Changes.antt =====
-- What a change of the manifest's entries does to what each path finds, and to predicates on the entries.
use revlink_sidecar.Base.{
  ℕ, ◌≡◌, ◌≢◌, inl, inr, refl, ap, sym, ◌∙◌, subst, if◌then◌else◌, Option, none, some, List, [],
  ◌∷◌, ◌++◌, length, length-append, All, All-append_left, All-append_right, All-map, Pairwise,
  Pairwise-append_left, Pairwise-append_right, Pairwise-append_across, arith,
}
use revlink_sidecar.Sync.Manifest.{Entry, same_path, find_entry, move_last}
use revlink_sidecar.Sync.Manifest.Entries.{
  path_cases, same_path_eq, same_path_ne, IsMissing, find_entry-append, find_entry_missing, or_else,
  move_last_cases,
}

abbrev pub Differ : Entry → Entry → Type 0
Differ a b = a.path ≢ b.path

-- No two entries have one path.
abbrev pub HasOwnPaths : List Entry → Type 0
HasOwnPaths = Pairwise Differ

or_else-none {ℓ} : {A : Type ℓ} (o : Option A) → or_else o none ≡ o
or_else-none none = refl
or_else-none (some a) = refl

pub find_entry_hit :
    (q : List ℕ) (before : List Entry) (e : Entry) (after : List Entry)
    → IsMissing q before
    → e.path ≡ q
    → find_entry q (before ++ e ∷ after) ≡ some e
unfolding find_entry
find_entry_hit q before e after h p =
    find_entry-append q before (e ∷ after)
    ∙ rw (find_entry_missing q before h, same_path_eq e.path q p) refl

pub find_entry_skip :
    (q : List ℕ) (before : List Entry) (e : Entry) (after : List Entry)
    → e.path ≢ q
    → find_entry q (before ++ e ∷ after) ≡ or_else (find_entry q before) (find_entry q after)
unfolding find_entry
find_entry_skip q before e after h =
    find_entry-append q before (e ∷ after) ∙ rw (same_path_ne e.path q h) refl

pub find_entry-replace :
    (path q : List ℕ) (before : List Entry) (e fresh : Entry) (after : List Entry)
    → IsMissing path before
    → e.path ≡ path
    → fresh.path ≡ path
    → find_entry q (before ++ fresh ∷ after)
      ≡ (if same_path path q then some fresh else find_entry q (before ++ e ∷ after))
find_entry-replace path q before e fresh after h p r = elim (path_cases path q) [
  | inl w ↦
      rw w.0 (find_entry_hit q before fresh after (subst (λ c. IsMissing c before) w.1 h) (r ∙ w.1))
  | inr w ↦ rw w.0 (
      find_entry_skip q before fresh after (λ eq. w.1 (sym r ∙ eq))
      ∙ sym (find_entry_skip q before e after (λ eq. w.1 (sym p ∙ eq))))
]

pub find_entry-last :
    (q : List ℕ) (es : List Entry) (fresh : Entry)
    → IsMissing fresh.path es
    → find_entry q (es ++ fresh ∷ [])
      ≡ (if same_path fresh.path q then some fresh else find_entry q es)
unfolding find_entry
find_entry-last q es fresh h = elim (path_cases fresh.path q) [
  | inl w ↦ rw w.0 (find_entry_hit q es fresh [] (subst (λ c. IsMissing c es) w.1 h) w.1)
  | inr w ↦ rw w.0 (find_entry_skip q es fresh [] w.1 ∙ or_else-none (find_entry q es))
]

pub find_entry-move_last :
    (q : List ℕ) (es : List Entry) → HasOwnPaths es → find_entry q (move_last es) ≡ find_entry q es
unfolding find_entry
find_entry-move_last q es h = elim (move_last_cases es) [
  | inl w ↦ ap (find_entry q) (w.1 ∙ sym w.0)
  | inr (rest, last, p, moved) ↦
      let across = Pairwise-append_across Differ rest (last ∷ []) (subst HasOwnPaths p h) in
      ap (find_entry q) moved
      ∙ elim (path_cases last.path q) [
        | inl w ↦ rw w.0 (
            sym (
              find_entry_hit q rest last []
                (All-map (λ (x : Entry). All (Differ x) (last ∷ [])) (λ (x : Entry). x.path ≢ q)
                  rest (λ x own eq. own.0 (eq ∙ sym w.1)) across)
                w.1))
        | inr w ↦
            rw w.0 (sym (find_entry_skip q rest last [] w.1 ∙ or_else-none (find_entry q rest)))
      ]
      ∙ sym (ap (find_entry q) p)
]

pub find_entry-drop :
    (path q : List ℕ) (before : List Entry) (e : Entry) (after : List Entry)
    → HasOwnPaths (before ++ e ∷ after)
    → e.path ≡ path
    → IsMissing path before
    → find_entry q (before ++ move_last after)
      ≡ (if same_path path q then none else find_entry q (before ++ e ∷ after))
find_entry-drop path q before e after h p missing =
    let own = Pairwise-append_right Differ before (e ∷ after) h in
    let moved =
      find_entry-append q before (move_last after)
      ∙ ap (or_else (find_entry q before)) (find_entry-move_last q after own.1) in
    elim (path_cases path q) [
      | inl w ↦ rw w.0 (
          moved
          ∙ rw
              (
                find_entry_missing q before (subst (λ c. IsMissing c before) w.1 missing),
                find_entry_missing q after (
                    All-map (Differ e) (λ (x : Entry). x.path ≢ q) after
                      (λ x differs eq. differs (p ∙ w.1 ∙ sym eq)) own.0),
              )
              refl)
      | inr w ↦ rw w.0 (moved ∙ sym (find_entry_skip q before e after (λ eq. w.1 (sym p ∙ eq))))
    ]

pub move_last-All {ℓ} : (P : Entry → Type ℓ) (es : List Entry) → All P es → All P (move_last es)
move_last-All P es h = elim (move_last_cases es) [
  | inl w ↦ subst (All P) (sym w.1) tt
  | inr (rest, last, p, q) ↦
      let whole = subst (All P) p h in
      subst (All P) (sym q)
        ((All-append_right P rest (last ∷ []) whole).0, All-append_left P rest (last ∷ []) whole)
]

pub move_last-HasOwnPaths : (es : List Entry) → HasOwnPaths es → HasOwnPaths (move_last es)
move_last-HasOwnPaths es h = elim (move_last_cases es) [
  | inl w ↦ subst HasOwnPaths (sym w.1) tt
  | inr (rest, last, p, q) ↦
      let whole = subst HasOwnPaths p h in
      subst HasOwnPaths (sym q) (
        All-map (λ (x : Entry). All (Differ x) (last ∷ [])) (Differ last) rest
            (λ x own eq. own.0 (sym eq)) (Pairwise-append_across Differ rest (last ∷ []) whole),
        Pairwise-append_left Differ rest (last ∷ []) whole,
      )
]

pub length-move_last : (es : List Entry) → length (move_last es) ≡ length es
length-move_last es = elim (move_last_cases es) [
  | inl w ↦ ap length (w.1 ∙ sym w.0)
  | inr (rest, last, p, q) ↦
      ap length q ∙ (let l = length-append rest (last ∷ []) in omega arith) ∙ sym (ap length p)
]
