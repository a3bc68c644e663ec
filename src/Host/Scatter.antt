-- ===== src/Host/Scatter.antt =====
-- FileDescriptor::read into several buffers (util/file_descriptor.cc).
use cs144_minnow.Base.{
  ℕ, ◌-◌, ◌≤◌, ◌<◌, ◌≡◌, refl, ap, ap₂, ◌∙◌, false, List, [], ◌∷◌, ◌++◌, arith, ltb, length, take,
  drop, length-append, length-take, length-drop, take-append-drop, take_all, drop_all, append-nil,
}
use native.Mathlib.Decide.{dec_lt}
use cs144_minnow.Base.Outcome.{ok}
use cs144_minnow.Wire.Parser.{concat}
use cs144_minnow.Host.Descriptor.{
  System, FdWrapper, got, register_read, scatter, cut, sizes, ready_last, readv_result, readv,
}

-- One round of the loop.
pub cut_short :
    (n : ℕ) (b : List ℕ) (bs : List (List ℕ)) → n < length b → cut n (b ∷ bs) ≡ take n b ∷ cut 0 bs
unfolding cut
cut_short n b bs h = ground arith

pub cut_whole :
    (n : ℕ) (b : List ℕ) (bs : List (List ℕ))
    → ¬ (n < length b)
    → cut n (b ∷ bs) ≡ b ∷ cut (n - length b) bs
unfolding cut
cut_whole n b bs h = ground arith

cut_zero : (bs : List (List ℕ)) → concat (cut 0 bs) ≡ []
unfolding cut
cut_zero [] = refl
cut_zero ([] ∷ bs) = cut_zero bs
cut_zero ((x ∷ b) ∷ bs) = ap concat (cut_short 0 (x ∷ b) bs (omega arith)) ∙ cut_zero bs

pub take-append : (xs ys : List ℕ) → take (length xs) (xs ++ ys) ≡ xs
take-append [] ys = refl
take-append (x ∷ xs) ys = ap (◌∷◌ x) (take-append xs ys)

-- What readv writes over the first buffer.
abbrev written : List ℕ → List ℕ → List ℕ
written bytes b = take (length b) bytes ++ drop (length bytes) b

pub length-written : (bytes b : List ℕ) → length (written bytes b) ≡ length b
length-written bytes b = omega (
  arith,
  length-append (take (length b) bytes) (drop (length bytes) b),
  length-take (length b) bytes,
  length-drop (length bytes) b,
)

concat-cut :
    (bytes : List ℕ) (bs : List (List ℕ))
    → length bytes ≤ sizes bs
    → concat (cut (length bytes) (scatter bytes bs)) ≡ bytes
unfolding scatter
concat-cut [] [] h = cut_zero []
concat-cut (x ∷ bytes) [] h = absurd (omega arith)
concat-cut bytes (b ∷ bs) h =
    let n = length b in
    let size = length-written bytes b in
    let rest = scatter (drop n bytes) bs in
    elim (dec_lt (length bytes) n) [
      | yes k ↦
          ap concat (cut_short (length bytes) (written bytes b) rest (omega (arith, size)))
          ∙ ap (λ l. take (length bytes) (l ++ drop (length bytes) b) ++ concat (cut 0 rest))
              (take_all n bytes (omega arith))
          ∙ ap₂ (λ l r. l ++ r) (take-append bytes (drop (length bytes) b)) (cut_zero rest)
          ∙ append-nil bytes
      | no k ↦
          let left : length bytes - length (written bytes b) ≡ length (drop n bytes) =
            omega (arith, size, length-drop n bytes) in
          ap concat (cut_whole (length bytes) (written bytes b) rest (omega (arith, size)))
          ∙ ap (λ m. written bytes b ++ concat (cut m rest)) left
          ∙ ap (λ l. written bytes b ++ l)
              (concat-cut (drop n bytes) bs (omega (arith, length-drop n bytes)))
          ∙ ap (λ l. (take n bytes ++ l) ++ drop n bytes) (drop_all (length bytes) b (omega arith))
          ∙ ap (λ l. l ++ drop n bytes) (append-nil (take n bytes))
          ∙ take-append-drop n bytes
    ]

-- What readv brings lies in the buffers in order, and nothing else does: they are cut behind it. The
-- buffers given, the last of them made one of 16384 bytes, are not too small for it.
pub readv-concat :
    {E : Type 0} (sys : System E) (b : List ℕ) (bs : List (List ℕ)) (d : FdWrapper) (bytes : List ℕ)
    (e e' : E)
    → sys.read d.fd (sizes (ready_last (b ∷ bs))) e ≡ (got bytes, e')
    → length bytes ≤ sizes (ready_last (b ∷ bs))
    → (buffers : List (List ℕ)) × (readv sys (b ∷ bs) d e ≡ ok (buffers, register_read d, e'))
      × (concat buffers ≡ bytes)
unfolding readv readv_result
readv-concat sys b bs d bytes e e' call fits =
    let ready = ready_last (b ∷ bs) in
    let enough : ltb (sizes ready) (length bytes) ≡ false = ground arith in
    (cut (length bytes) (scatter bytes ready), rw (call, enough) refl, concat-cut bytes ready fits)
