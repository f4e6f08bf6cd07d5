-- ===== src/Sync/Text/Fields.antt =====
-- Tab-separated fields and lines of firmware/components/revlink_sync: what is joined is split again.
use revlink_sidecar.Base.{
  ℕ, zero, suc, ◌-◌, ◌≡◌, ◌<◌, refl, ap, sym, ◌∙◌, ◌≢◌, All-append, Option, some, ◌>>=◌, List, [],
  ◌∷◌, ◌++◌, length, All, append_assoc, append-nil, arith,
}
use revlink_sidecar.Sync.Text.{close_field, split_fields, take_line}
use revlink_sidecar.Sync.Text.Numbers.{IsPlain}

-- The fields with a tab between each two.
unfoldable pub join_fields : List (List ℕ) → List ℕ
join_fields [] = []
join_fields (f ∷ []) = f
join_fields (f ∷ g ∷ fs) = f ++ b'\t' ∷ join_fields (g ∷ fs)

-- Texts that a line can hold as its fields.
abbrev pub IsFieldList : List (List ℕ) → Type 0
IsFieldList = All (λ (f : List ℕ). (0 < length f) × IsPlain f)

-- A plain text is read to its end before a field ends.
split_fields-append :
    (room : ℕ) (field f rest : List ℕ)
    → IsPlain f
    → split_fields room field (f ++ rest) ≡ split_fields room (field ++ f) rest
unfolding split_fields
split_fields-append room field [] rest h =
    ap (λ w. split_fields room w rest) (sym (append-nil field))
split_fields-append room field (b ∷ f) rest h =
    let ih = split_fields-append room (field ++ b ∷ []) f rest h.1 in
    let e = append_assoc field (b ∷ []) f in grind arith

close_field_lem :
    (room : ℕ) (f : List ℕ) (rest : Option (List (List ℕ)))
    → 0 < room
    → 0 < length f
    → close_field room f rest ≡ rest >>= (λ fields. some (f ∷ fields))
close_field_lem zero f rest h p = absurd (omega arith)
close_field_lem (suc room) [] rest h p = absurd (omega arith)
close_field_lem (suc room) (b ∷ f) rest h p = refl

pub split_fields-join_fields :
    (room : ℕ) (f : List ℕ) (fs : List (List ℕ))
    → length fs < room
    → IsFieldList (f ∷ fs)
    → split_fields room [] (join_fields (f ∷ fs)) ≡ some (f ∷ fs)
unfolding split_fields join_fields
split_fields-join_fields room f [] h p =
    let read = split_fields-append room [] f [] p.0.1 in
    let whole = append-nil f in
    let closed = close_field_lem room f (some []) h p.0.0 in
    sym (ap (λ w. split_fields room [] w) whole) ∙ read ∙ closed
split_fields-join_fields room f (g ∷ fs) h p =
    let rest = join_fields (g ∷ fs) in
    split_fields-append room [] f (b'\t' ∷ rest) p.0.1
    ∙ close_field_lem room f (split_fields (room - 1) [] rest) (omega arith) p.0.0
    ∙ ap (λ o. o >>= (λ fields. some (f ∷ fields)))
        (split_fields-join_fields (room - 1) g fs (omega arith) p.1)

-- A line: no newline in it.
abbrev pub IsLine : List ℕ → Type 0
IsLine = All (λ (b : ℕ). b ≢ b'\n')

pub IsPlain→IsLine : (f : List ℕ) → IsPlain f → IsLine f
IsPlain→IsLine [] h = tt
IsPlain→IsLine (b ∷ f) h = (omega arith, IsPlain→IsLine f h.1)

pub join_fields-IsLine : (fs : List (List ℕ)) → IsFieldList fs → IsLine (join_fields fs)
unfolding join_fields
join_fields-IsLine [] h = tt
join_fields-IsLine (f ∷ []) h = IsPlain→IsLine f h.0.1
join_fields-IsLine (f ∷ g ∷ fs) h =
    All-append (λ (b : ℕ). b ≢ b'\n') f (b'\t' ∷ join_fields (g ∷ fs)) (IsPlain→IsLine f h.0.1)
      (omega arith, join_fields-IsLine (g ∷ fs) h.1)

pub take_line-append :
    (line rest : List ℕ) → IsLine line → take_line (line ++ b'\n' ∷ rest) ≡ some (line, rest)
unfolding take_line
take_line-append [] rest h = refl
take_line-append (b ∷ line) rest h =
    let ih = take_line-append line rest h.1 in let first = h.0 in grind arith
