-- ===== src/Protocol/TargetLaws.antt =====
-- The files that the target checks of firmware/components/accessport_protocol let through.
use revlink_sidecar.Base.{
  ℕ, ◌-◌, ◌≡◌, ◌≢◌, ◌≤◌, ◌<◌, ◌⊎◌, inl, inr, ◌↔◌, refl, ap, ap₂, sym, ◌∙◌, ltb, ◌==◌, true, false,
  Bool-cases, ◌&&◌, some, List, [], ◌∷◌, ◌++◌, length, length-drop, take, drop, take_all,
  take-append-drop, mem_eq, mem_eq→take, All, arith,
}
use revlink_sidecar.Protocol.{ok, max_chunk_payload}
use revlink_sidecar.Protocol.Target.{
  maps_prefix, datalog_prefix, unsafe_name, name_status, validate_delete_target,
  validate_upload_target, map_target, UploadKind, upload_map, upload_startup_screen, startup_path,
  startup_screen_bytes, is_map_extension,
}

-- No NUL, no separator, and nowhere two dots in a row.
abbrev pub IsFileName : List ℕ → Type 0
IsFileName name =
    All (λ (b : ℕ). (b ≢ 0x00) × ((b ≢ 0x2f) × (b ≢ 0x5c))) name
    × ((before after : List ℕ) → name ≢ before ++ 0x2e ∷ 0x2e ∷ after)

pub unsafe_name→IsFileName : (name : List ℕ) → unsafe_name name ≡ false → IsFileName name
unsafe_name→IsFileName name h = (chars name h, dots name h)
  where
    chars :
        (name : List ℕ)
        → unsafe_name name ≡ false
        → All (λ (b : ℕ). (b ≢ 0x00) × ((b ≢ 0x2f) × (b ≢ 0x5c))) name
    chars [] h = tt
    chars (b ∷ bs) h =
        ((λ e. ground arith, (λ e. ground arith, λ e. ground arith)), chars bs (ground arith))

    dots :
        (name : List ℕ)
        → unsafe_name name ≡ false
        → (before after : List ℕ) → name ≢ before ++ 0x2e ∷ 0x2e ∷ after
    dots [] h [] after e = cc
    dots [] h (c ∷ before) after e = cc
    dots (b ∷ []) h [] after e = cc
    dots (b ∷ c ∷ bs) h [] after e = ground arith
    dots (b ∷ bs) h (c ∷ before) after e = dots bs (ground arith) before after (grind arith)

twice : (b c : ℕ) (bs : List ℕ) → (b == 0x2e && c == 0x2e) ≡ true → b ∷ c ∷ bs ≡ 0x2e ∷ 0x2e ∷ bs
twice b c bs h =
    let first : b ≡ 0x2e = ground arith in
    let second : c ≡ 0x2e = ground arith in ap₂ (λ x y. x ∷ y ∷ bs) first second

pub IsFileName→unsafe_name : (name : List ℕ) → IsFileName name → unsafe_name name ≡ false
IsFileName→unsafe_name [] h = refl
IsFileName→unsafe_name (b ∷ []) (all, dots) = ground arith
IsFileName→unsafe_name (b ∷ c ∷ bs) (all, dots) =
    let rest =
      IsFileName→unsafe_name (c ∷ bs)
        (all.1, λ before after e. dots (b ∷ before) after (ap (λ r. b ∷ r) e)) in
    elim (Bool-cases (b == 0x2e && c == 0x2e)) [
      | inl both ↦ absurd (dots [] bs (twice b c bs both))
      | inr one ↦ ground arith
    ]

-- What may be deleted.
abbrev pub IsDeletable : List ℕ → Type 0
IsDeletable path =
    (name : List ℕ) × ((0 < length name)
      × (IsFileName name × ((path ≡ maps_prefix ++ name) ⊎ (path ≡ datalog_prefix ++ name))))

name_status-ok : (name : List ℕ) → name_status name ≡ ok → unsafe_name name ≡ false
name_status-ok name h = ground arith

-- A path behind one of the two directories.
behind :
    (n : ℕ) (prefix path : List ℕ)
    → take n prefix ≡ prefix
    → n < length path
    → mem_eq n path prefix ≡ true
    → name_status (drop n (take (length path) path)) ≡ ok
    → (0 < length (drop n path)) × (IsFileName (drop n path) × (path ≡ prefix ++ drop n path))
behind n prefix path whole p m h = (
  omega (arith, length-drop n path),
  (
    unsafe_name→IsFileName (drop n path) (
        name_status-ok (drop n path)
          (ap (λ t. name_status (drop n t)) (sym (take_all (length path) path (omega arith))) ∙ h)),
    sym (take-append-drop n path)
        ∙ ap (λ t. t ++ drop n path) (mem_eq→take n path prefix m ∙ whole),
  ),
)

deletable :
    (path : List ℕ) → validate_delete_target (some path) (length path) ≡ ok → IsDeletable path
unfolding validate_delete_target
deletable path h = elim (Bool-cases (ltb 5 (length path) && mem_eq 5 path maps_prefix)) [
  | inl maps ↦
      let (p, (name, e)) =
        behind 5 maps_prefix path refl (ground arith) (ground arith) (ground arith) in
      (drop 5 path, (p, (name, inl e)))
  | inr other ↦ elim (Bool-cases (ltb 8 (length path) && mem_eq 8 path datalog_prefix)) [
    | inl datalog ↦
        let (p, (name, e)) =
          behind 8 datalog_prefix path refl (ground arith) (ground arith) (ground arith) in
        (drop 8 path, (p, (name, inr e)))
    | inr none_fits ↦ ground arith
  ]
]

accepted_maps :
    (name : List ℕ)
    → 0 < length name
    → IsFileName name
    → validate_delete_target (some (maps_prefix ++ name)) (length (maps_prefix ++ name)) ≡ ok
unfolding validate_delete_target mem_eq
accepted_maps name p h =
    let safe = IsFileName→unsafe_name name h in
    let long : ltb 5 (length (maps_prefix ++ name)) ≡ true = ground arith in
    let whole = take_all (length name) name (omega arith) in ground arith

accepted_datalog :
    (name : List ℕ)
    → 0 < length name
    → IsFileName name
    → validate_delete_target (some (datalog_prefix ++ name)) (length (datalog_prefix ++ name)) ≡ ok
unfolding validate_delete_target mem_eq
accepted_datalog name p h =
    let safe = IsFileName→unsafe_name name h in
    let long : ltb 8 (length (datalog_prefix ++ name)) ≡ true = ground arith in
    let whole = take_all (length name) name (omega arith) in ground arith

-- A path may be deleted exactly when it is "maps/" or "datalog/" and a name behind it that is not
-- empty, has no NUL and no separator, and nowhere two dots in a row.
pub delete_target_iff :
    (path : List ℕ) → (validate_delete_target (some path) (length path) ≡ ok) ↔ IsDeletable path
delete_target_iff path = (
  deletable path,
  λ (name, (p, (h, e))). elim e [
    | inl maps ↦ ap (λ t. validate_delete_target (some t) (length t)) maps ∙ accepted_maps name p h
    | inr datalog ↦
        ap (λ t. validate_delete_target (some t) (length t)) datalog ∙ accepted_datalog name p h
  ],
)

map_target-ok :
    (path : List ℕ) (len file_size : ℕ) (kind : UploadKind)
    → map_target path len file_size ≡ (ok, some kind)
    → (9 < len)
      × ((mem_eq 5 path maps_prefix ≡ true)
          × ((0 < file_size)
              × ((file_size ≤ max_chunk_payload)
                  × ((unsafe_name (drop 5 (take len path)) ≡ false)
                      × ((is_map_extension (drop (len - 4) path) ≡ true) × (kind ≡ upload_map))))))
unfolding map_target
map_target-ok path len file_size kind h = elim (Bool-cases (unsafe_name (drop 5 (take len path)))) [
  | inl unsafe ↦ grind (arith, unsafe)
  | inr safe ↦ elim (Bool-cases (is_map_extension (drop (len - 4) path))) [
    | inl extension ↦ grind (arith, safe, extension)
    | inr other ↦ grind (arith, safe, other)
  ]
]

-- An upload is accepted only as the startup screen, of exactly its size, or as a map: "maps/" and a
-- name of more than four characters that has no NUL, no separator and nowhere two dots in a row and
-- ends in ".ptm" in any case of the letters, of a size that is not 0 and fits a chunk. The kind that
-- is stored tells which.
pub upload_target_accepted :
    (path : List ℕ) (file_size : ℕ) (kind : UploadKind)
    → validate_upload_target (some path) (length path) file_size true ≡ (ok, some kind)
    → (path ≡ startup_path) × ((file_size ≡ startup_screen_bytes) × (kind ≡ upload_startup_screen))
      ⊎ ((name : List ℕ) × ((path ≡ maps_prefix ++ name)
            × (IsFileName name
                × ((is_map_extension (drop (length path - 4) path) ≡ true)
                    × ((4 < length name)
                        × ((0 < file_size)
                            × ((file_size ≤ max_chunk_payload) × (kind ≡ upload_map))))))))
unfolding validate_upload_target map_target
upload_target_accepted path file_size kind h =
    elim (Bool-cases (length path == 24 && mem_eq 24 path startup_path)) [
      | inl startup ↦
          let whole : take 24 path ≡ startup_path =
            mem_eq→take 24 path startup_path (ground arith) in
          let size : file_size ≡ startup_screen_bytes = grind arith in
          let stored : kind ≡ upload_startup_screen = grind arith in
          inl (sym (take_all 24 path (ground arith)) ∙ whole, (size, stored))
      | inr other ↦
          let first : map_target path (length path) file_size ≡ (ok, some kind) = grind arith in
          let (long, (maps, (some_bytes, (small, (safe, (extension, stored)))))) =
            map_target-ok path (length path) file_size kind first in
          let whole = take_all (length path) path (omega arith) in
          let name =
            unsafe_name→IsFileName (drop 5 path)
              (ap (λ t. unsafe_name (drop 5 t)) (sym whole) ∙ safe) in
          inr (
            drop 5 path,
            (
              sym (take-append-drop 5 path)
                  ∙ ap (λ t. t ++ drop 5 path) (mem_eq→take 5 path maps_prefix maps),
              (
                name,
                (extension, (omega (arith, length-drop 5 path), (some_bytes, (small, stored)))),
              ),
            ),
          )
    ]
