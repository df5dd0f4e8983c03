-- ===== src/Proc/Pipe/Steps.antt =====
-- The copy loop of `write` in kernel/src/proc/pipe.rs, by how it may end.
use roanix.Prelude.{
  ℕ, zero, suc, ◌+◌, ◌-◌, ◌≤◌, ◌<◌, ◌≡◌, refl, ap, sym, ◌∙◌, min, false, inl, inr, some, List, [],
  ◌∷◌, ◌++◌, length, take, drop, is_empty, ltb, arith, Bool-cases, Option-cases, length-append,
  take-add, ltb→lt, le→leb,
}
use roanix.Proc.Pipe.{Source, Copied, appended, faulted, copy_in}

-- The source maps the caller's `bytes`: a window is a piece of them, no longer than asked for.
pub record Maps (source : Source) (bytes : List ℕ) : Type 0 where
  pub len : source.len ≡ length bytes
  pub window :
      (offset n : ℕ) (w : List ℕ)
      → source.window offset n ≡ some w
      → (w ≡ take (length w) (drop offset bytes)) × (length w ≤ n)

-- Every window of the caller's bytes is there and holds something.
abbrev pub Present : Source → List ℕ → Type 0
Present source bytes =
    (offset n : ℕ)
    → offset < length bytes
    → 0 < n
    → (w : List ℕ) × (source.window offset n ≡ some w) × (is_empty w ≡ false)

-- A prefix of the caller's bytes grows by a window that follows it.
grown :
    (bytes out w : List ℕ)
    → out ≡ take (length out) bytes
    → w ≡ take (length w) (drop (length out) bytes)
    → out ++ w ≡ take (length (out ++ w)) bytes
grown bytes out w e f =
    ap (λ t. t ++ w) e
    ∙ ap (λ t. take (length out) bytes ++ t) f
    ∙ sym (take-add (length out) (length w) bytes)
    ∙ ap (λ n. take n bytes) (sym (length-append out w))

pub not_empty : (w : List ℕ) → is_empty w ≡ false → 0 < length w
not_empty [] e = cc
not_empty (x ∷ w) e = omega arith

-- How the copy loop may end: by the fault of its first window, or with a prefix of the bytes.
pub data Ends (count : ℕ) (bytes : List ℕ) (c : Copied) : Type 0 where
  by_fault : c ≡ faulted → Ends count bytes c
  with_bytes :
      (out : List ℕ)
      → c ≡ appended out
      → length out ≤ count
      → out ≡ take (length out) bytes
      → Ends count bytes c

module _ (source : Source) (bytes : List ℕ) (count : ℕ) (m : Maps source bytes) where
  pub copy_in-Ends :
      (fuel : ℕ) (out : List ℕ)
      → length out ≤ count
      → out ≡ take (length out) bytes
      → Ends count bytes (copy_in fuel source count out)
  unfolding copy_in
  copy_in-Ends zero out k e = with_bytes out refl k e
  copy_in-Ends (suc fuel) out k e = elim (Bool-cases (ltb (length out) count)) [
    | inr full ↦ with_bytes out (rw (full, copy_in)) k e
    | inl more ↦ elim (Option-cases (source.window (length out) (min (count - length out) 1024))) [
      | inl f ↦ elim (Bool-cases (is_empty out)) [
        | inl z ↦ by_fault (rw (copy_in, more, f, z))
        | inr z ↦ with_bytes out (rw (copy_in, more, f, z)) k e
      ]
      | inr (w, f) ↦
          let (piece, short) = m.window (length out) (min (count - length out) 1024) w f in
          elim (Bool-cases (is_empty w)) [
            | inl z ↦ with_bytes out (rw (copy_in, more, f, z)) k e
            | inr z ↦
                rw (copy_in, more, f, z, le→leb (length w) 1024 (omega arith))
                  (copy_in-Ends fuel (out ++ w)
                    (omega (arith, length-append out w, ltb→lt (length out) count more))
                    (grown bytes out w e piece))
          ]
    ]
  ]

  pub copy_in-full :
      (fuel : ℕ) (out : List ℕ)
      → Present source bytes
      → count ≤ length bytes
      → length out ≤ count
      → count ≤ fuel + length out
      → out ≡ take (length out) bytes
      → copy_in fuel source count out ≡ appended (take count bytes)
  unfolding copy_in
  copy_in-full zero out pr h k l e = ap appended (e ∙ ap (λ n. take n bytes) (omega arith))
  copy_in-full (suc fuel) out pr h k l e = elim (Bool-cases (ltb (length out) count)) [
    | inr full ↦ rw (copy_in, full) (ap appended (e ∙ ap (λ n. take n bytes) (ground arith)))
    | inl more ↦
        let lt : length out < count = ltb→lt (length out) count more in
        let (w, f, z) =
          pr (length out) (min (count - length out) 1024) (omega arith) (omega arith) in
        let (piece, short) = m.window (length out) (min (count - length out) 1024) w f in
        rw (copy_in, more, f, z, le→leb (length w) 1024 (omega arith))
          (copy_in-full fuel (out ++ w) pr h (omega (arith, length-append out w))
            (omega (arith, length-append out w, not_empty w z)) (grown bytes out w e piece))
  ]
