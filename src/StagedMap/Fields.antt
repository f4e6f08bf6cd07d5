-- ===== src/StagedMap/Fields.antt =====
-- A bounded text in its fixed field: what `put_string` writes, and what `get_string` reads.
use revlink_sidecar.Base.{
  ℕ, suc, ◌-◌, ◌≡◌, ◌<◌, sym, ap, ◌∙◌, some, List, [], ◌∷◌, ◌++◌, read_at, write_at, strnlen,
  strnlen_le, strnlen-le-length, strnlen_terminated, take, replicate, length, length-replicate,
  length-append, text_of, length-text_of, arith, write_at-write_at, drop-replicate, read_at-take,
  write_at-append_self, write_at-replicate, take-append_self,
}
use revlink_sidecar.StagedMap.Codec.{put_string, get_string}

-- The text followed by zeros up to the capacity.
abbrev pub field : List ℕ → ℕ → List ℕ
field v capacity = text_of v capacity ++ replicate (capacity - strnlen v capacity) 0

-- A text that is not empty and leaves room for its NUL.
abbrev pub IsText : List ℕ → ℕ → Type 0
IsText v capacity = (0 < strnlen v capacity) × (strnlen v capacity < capacity)

pub length-field : (v : List ℕ) (capacity : ℕ) → length (field v capacity) ≡ capacity
length-field v capacity = omega (
  arith,
  length-append (text_of v capacity) (replicate (capacity - strnlen v capacity) 0),
  length-text_of v capacity (strnlen-le-length v capacity),
  length-replicate {A = ℕ} (capacity - strnlen v capacity) 0,
  strnlen_le v capacity,
)

-- A text's field ends in at least one zero.
pub field_terminated :
    (v : List ℕ) (capacity : ℕ)
    → strnlen v capacity < capacity
    → field v capacity ≡ text_of v capacity ++ 0 ∷ replicate (capacity - strnlen v capacity - 1) 0
field_terminated v capacity h =
    let e : capacity - strnlen v capacity ≡ suc (capacity - strnlen v capacity - 1) = omega arith in
    ap (λ k. text_of v capacity ++ replicate k 0) e

pub strnlen-field :
    (v : List ℕ) (capacity : ℕ)
    → strnlen v capacity < capacity
    → strnlen (field v capacity) capacity ≡ strnlen v capacity
strnlen-field v capacity h =
    ap (λ f. strnlen f capacity) (field_terminated v capacity h)
    ∙ strnlen_terminated v (replicate (capacity - strnlen v capacity - 1) 0) capacity h

-- A field holds its own text.
pub field-field :
    (v : List ℕ) (capacity : ℕ)
    → strnlen v capacity < capacity
    → field (field v capacity) capacity ≡ field v capacity
field-field v capacity h =
    ap (λ n. take n (field v capacity) ++ replicate (capacity - n) 0)
      (strnlen-field v capacity h ∙ sym (length-text_of v capacity (strnlen-le-length v capacity)))
    ∙ ap (λ t. t ++ replicate (capacity - length (text_of v capacity)) 0)
        (take-append_self (text_of v capacity) (replicate (capacity - strnlen v capacity) 0))
    ∙ ap (λ n. text_of v capacity ++ replicate (capacity - n) 0)
        (length-text_of v capacity (strnlen-le-length v capacity))

-- `put_string` of a text writes its field.
pub put_string-IsText :
    (buffer : List ℕ) (offset capacity : ℕ) (v : List ℕ)
    → IsText v capacity
    → put_string buffer offset capacity v ≡ some (write_at offset (field v capacity) buffer)
unfolding put_string
put_string-IsText buffer offset capacity v h = ground (arith, overwrite)
  where
    text : length (text_of v capacity) ≡ strnlen v capacity
    text = length-text_of v capacity (strnlen-le-length v capacity)

    overwrite :
        write_at offset (text_of v capacity) (write_at offset (replicate capacity 0) buffer)
        ≡ write_at offset (field v capacity) buffer
    overwrite =
        write_at-write_at offset (text_of v capacity) (replicate capacity 0) buffer
          (omega (arith, text, length-replicate {A = ℕ} capacity 0))
        ∙ ap (λ r. write_at offset (text_of v capacity ++ r) buffer)
            (drop-replicate (length (text_of v capacity)) capacity 0
              ∙ ap (λ n. replicate (capacity - n) 0) text)

-- `put_string` refuses everything else.
pub put_string-some :
    (buffer : List ℕ) (offset capacity : ℕ) (v : List ℕ) {b : List ℕ}
    → put_string buffer offset capacity v ≡ some b
    → IsText v capacity
unfolding put_string
put_string-some buffer offset capacity v h = ground arith

module _ (buffer : List ℕ) (offset capacity : ℕ) where
  -- The bytes of the field.
  abbrev pub region : List ℕ
  region = read_at offset capacity buffer

  -- `get_string` reads a text's field, whatever stood behind the NUL.
  pub get_string-IsText :
      IsText region capacity
      → get_string buffer offset capacity (replicate capacity 0) ≡ some (field region capacity)
  unfolding get_string
  get_string-IsText h = ground (arith, copied)
    where
      n : ℕ
      n = strnlen region capacity

      text : length (text_of region capacity) ≡ n
      text = length-text_of region capacity (strnlen-le-length region capacity)

      zeros : write_at 0 (text_of region capacity) (replicate capacity 0) ≡ field region capacity
      zeros =
          write_at-replicate (text_of region capacity) capacity (omega (arith, text))
          ∙ ap (λ k. text_of region capacity ++ replicate (capacity - k) 0) text

      copied :
          write_at n (0 ∷ []) (write_at 0 (read_at offset n buffer) (replicate capacity 0))
          ≡ field region capacity
      copied =
          ap (λ t. write_at n (0 ∷ []) (write_at 0 t (replicate capacity 0)))
            (read_at-take offset n capacity buffer (omega arith))
          ∙ ap (write_at n (0 ∷ [])) (zeros ∙ field_terminated region capacity h.1)
          ∙ ap
              (λ k.
                write_at k (0 ∷ []) (text_of region capacity ++ 0 ∷ replicate (capacity - n - 1) 0))
              (sym text)
          ∙ write_at-append_self (text_of region capacity) 0 (replicate (capacity - n - 1) 0)
          ∙ sym (field_terminated region capacity h.1)

  pub get_string-some :
      (out : List ℕ) {b : List ℕ}
      → get_string buffer offset capacity out ≡ some b
      → IsText region capacity
  unfolding get_string
  get_string-some out h = ground arith
