-- ===== src/Wire/Payloads.antt =====
-- Payloads behind a header: Serializer::buffer and Parser::all_remaining of util/parser.hh.
use cs144_minnow.Base.{
  ℕ, ◌+◌, ◌≡◌, refl, ap, ◌∙◌, List, [], ◌∷◌, ◌++◌, arith, ◌==◌, if◌then◌else◌, length,
  length-append, append_assoc, Bool-cases, inl, inr,
}
use cs144_minnow.Wire.Parser.{
  parser_of, total_size, concat, all_remaining, Serializer, put_buffers, put_buffer, output_of,
}

-- flush in front of each buffer leaves an empty one behind the former.
pub spaced : List (List ℕ) → List (List ℕ)
spaced [] = []
spaced (d ∷ ds) = d ∷ [] ∷ spaced ds

pub put_buffers_lem :
    (ds : List (List ℕ)) (s : Serializer)
    → output_of (put_buffers ds s) ≡ s.output ++ (s.buffer ∷ spaced ds)
unfolding spaced
put_buffers_lem [] s = refl
put_buffers_lem (d ∷ ds) s =
    put_buffers_lem ds (put_buffer d s)
    ∙ append_assoc (s.output ++ (s.buffer ∷ [])) (d ∷ []) ([] ∷ spaced ds)
    ∙ append_assoc s.output (s.buffer ∷ []) (d ∷ [] ∷ spaced ds)

pub concat-spaced : (ds : List (List ℕ)) → concat (spaced ds) ≡ concat ds
unfolding spaced
concat-spaced [] = refl
concat-spaced (d ∷ ds) = ap (λ l. d ++ l) (concat-spaced ds)

pub total_size-spaced : (ds : List (List ℕ)) → total_size (spaced ds) ≡ total_size ds
unfolding spaced
total_size-spaced [] = refl
total_size-spaced (d ∷ ds) = omega (arith, total_size-spaced ds)

pub length-concat : (ds : List (List ℕ)) → length (concat ds) ≡ total_size ds
length-concat [] = refl
length-concat (d ∷ ds) = omega (arith, length-append d (concat ds), length-concat ds)

empty_list : (xs : List ℕ) → length xs ≡ 0 → [] ≡ xs
empty_list [] h = refl
empty_list (x ∷ xs) h = absurd (omega arith)

-- The bytes behind a header come through, whatever buffers they are in.
pub concat-all_remaining : (ds : List (List ℕ)) → concat (all_remaining (parser_of ds)) ≡ concat ds
concat-all_remaining [] = refl
concat-all_remaining (d ∷ ds) = elim (Bool-cases (length d + total_size ds == 0)) [
  | inl e ↦
      ap (λ c. concat (if c then [] else d ∷ ds)) e
      ∙ empty_list (concat (d ∷ ds)) (ground (arith, length-concat (d ∷ ds)))
  | inr e ↦ ap (λ c. concat (if c then [] else d ∷ ds)) e
]
