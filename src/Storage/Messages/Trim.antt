-- ===== src/Storage/Messages/Trim.antt =====
-- What `trim_slice_nils` removes.
use chiyocore.Base.{
  ℕ, zero, suc, ◌≤◌, ◌≡◌, ◌≢◌, refl, ap, sym, ◌∙◌, none, some, [], ◌∷◌, ◌++◌, arith, length,
  replicate, Option-cases, inl, inr, length-append,
}
use mathlib.Core.List.{append_assoc, append-nil}
use chiyocore.Base.Bytes.{Bytes}
use chiyocore.Storage.Messages.{split_last, trim_loop, trim_slice_nils}

split_last-none : (bytes : Bytes) → split_last bytes ≡ none → bytes ≡ []
unfolding split_last
split_last-none [] e = refl
split_last-none (x ∷ xs) e = absurd (ground arith)

split_last_lem :
    (bytes rest : Bytes) (last : ℕ)
    → split_last bytes ≡ some (rest, last)
    → bytes ≡ rest ++ last ∷ []
unfolding split_last
split_last_lem [] rest last e = absurd (ground arith)
split_last_lem (x ∷ xs) rest last e = elim (Option-cases (split_last xs)) [
  | inl end ↦ ground (arith, split_last-none xs end)
  | inr ((r, l), k) ↦ ground (arith, split_last_lem xs r l k)
]

-- The text does not end in a zero byte.
abbrev pub IsTrimmed : Bytes → Type 0
IsTrimmed bytes = (rest : Bytes) → split_last bytes ≢ some (rest, 0)

replicate-append_zero : (n : ℕ) → ◌≡◌ {A = Bytes} (replicate n 0 ++ 0 ∷ []) (replicate (suc n) 0)
replicate-append_zero zero = refl
replicate-append_zero (suc n) = ap (◌∷◌ 0) (replicate-append_zero n)

-- The slice is `trimmed` followed by zero bytes, and `trimmed` ends in none.
abbrev pub IsTrimOf : Bytes → Bytes → Type 0
IsTrimOf bytes trimmed = IsTrimmed trimmed × (n : ℕ) × (bytes ≡ trimmed ++ replicate n 0)

trim_loop_more :
    (fuel : ℕ) (bytes rest : Bytes)
    → split_last bytes ≡ some (rest, 0)
    → trim_loop (suc fuel) bytes ≡ trim_loop fuel rest
unfolding trim_loop
trim_loop_more fuel bytes rest k = ground arith

trim_loop_done :
    (fuel : ℕ) (bytes rest : Bytes) (last : ℕ)
    → split_last bytes ≡ some (rest, last)
    → last ≢ 0
    → trim_loop (suc fuel) bytes ≡ bytes
unfolding trim_loop
trim_loop_done fuel bytes rest last k h = ground arith

trim_loop_lem :
    (fuel : ℕ) (bytes : Bytes) → length bytes ≤ fuel → IsTrimOf bytes (trim_loop fuel bytes)
trim_loop_lem zero [] h = unfold trim_loop split_last in (λ r e. ground arith, 0, refl)
trim_loop_lem zero (x ∷ xs) h = absurd (omega arith)
trim_loop_lem (suc fuel) [] h = unfold trim_loop split_last in (λ r e. ground arith, 0, refl)
trim_loop_lem (suc fuel) (x ∷ xs) h = elim (Option-cases (split_last (x ∷ xs))) [
  | inl end ↦ absurd (ground (arith, split_last-none (x ∷ xs) end))
  | inr ((rest, zero), k) ↦
      let whole = split_last_lem (x ∷ xs) rest 0 k in
      let (clean, n, e) =
        trim_loop_lem fuel rest (omega (arith, ap length whole, length-append rest (0 ∷ []))) in
      rw (trim_loop_more fuel (x ∷ xs) rest k) (
        clean,
        suc n,
        whole
            ∙ ap (λ r. r ++ 0 ∷ []) e
            ∙ append_assoc (trim_loop fuel rest) (replicate n 0) (0 ∷ [])
            ∙ ap (λ z. trim_loop fuel rest ++ z) (replicate-append_zero n),
      )
  | inr ((rest, suc last), k) ↦
      rw (trim_loop_done fuel (x ∷ xs) rest (suc last) k (omega arith))
        (λ r e. ground arith, 0, sym (append-nil (x ∷ xs)))
]

-- `trim_slice_nils` takes off exactly the zero bytes at the end: what it returns does not end in one,
-- and the slice is what it returns followed by zero bytes.
pub trim_slice_nils_lem : (bytes : Bytes) → IsTrimOf bytes (trim_slice_nils bytes)
unfolding trim_slice_nils
trim_slice_nils_lem bytes = trim_loop_lem (length bytes) bytes (omega arith)
