-- ===== src/Wire/Remains.antt =====
-- What is left behind the fields that were read: Parser::all_remaining of util/parser.hh.
use cs144_minnow.Base.{
  ℕ, ◌+◌, ◌-◌, ◌^◌, ◌≤◌, ◌<◌, ◌≡◌, refl, sym, ap, subst, ◌∙◌, false, List, [], ◌∷◌, ◌++◌, arith,
  ◌==◌, if◌then◌else◌, length, drop, drop_all, Bool-cases, inl, inr, sub64,
}
use cs144_minnow.Wire.Parser.{
  BufferList, Parser, parser_of, total_size, left_size, remove_prefix, all_remaining, concat,
}
use cs144_minnow.Wire.Reads.{reading, position, remove_loop-zero}
use cs144_minnow.Wire.Fields.{At}
use cs144_minnow.Wire.Payloads.{concat-all_remaining}

pub remove_prefix-zero : (l : BufferList) → l.size < 2 ^ 64 → remove_prefix 0 l ≡ l
unfolding remove_prefix
remove_prefix-zero l h =
    ap
      (λ r. record {
        size = sub64 l.size (left_size (l.skip, l.buffer) - left_size r);
        buffer = r.1;
        skip = r.0;
      })
      (remove_loop-zero l.skip l.buffer)
    ∙ ap (λ z. record l { size = z }) (omega arith)

-- Facts about a parser where it stands, at the end of a buffer or within one.
at_position {ℓ} :
    (P : Parser → Type ℓ) (k : ℕ) (b : List ℕ) (more : List (List ℕ))
    → k ≤ length b
    → (k ≡ length b → P (parser_of more))
    → (k < length b → P (reading k b more))
    → P (position k b more)
at_position P k b more h ended within = elim (Bool-cases (k == length b)) [
  | inl e ↦
      subst (λ c. P (if c then parser_of more else reading k b more)) (sym e) (ended (ground arith))
  | inr e ↦
      subst (λ c. P (if c then parser_of more else reading k b more)) (sym e)
        (within (ground arith))
]

pub At-error : (p : Parser) (xs : List ℕ) (more : List (List ℕ)) → At p xs more → p.error ≡ false
At-error p xs more a =
    ap (λ q. q.error) a.here
    ∙ at_position (λ q. q.error ≡ false) a.skip a.buffer more a.inside (λ e. refl) (λ l. refl)

pub At-size :
    (p : Parser) (xs : List ℕ) (more : List (List ℕ)) → At p xs more → p.input.size < 2 ^ 64
At-size p xs more a =
    subst (λ q. q.input.size < 2 ^ 64) (sym a.here)
      (at_position (λ q. q.input.size < 2 ^ 64) a.skip a.buffer more a.inside
        (λ e. omega (arith, a.small)) (λ l. omega (arith, a.small)))

some_left :
    (k : ℕ) (b : List ℕ) (more : List (List ℕ))
    → k < length b
    → concat (all_remaining (reading k b more)) ≡ drop k b ++ concat more
some_left k b more l =
    let nonempty : (length b + total_size more - k == 0) ≡ false = ground arith in
    ap (λ c. concat (if c then [] else drop k b ∷ more)) nonempty

pub At-concat :
    (p : Parser) (xs : List ℕ) (more : List (List ℕ))
    → At p xs more
    → concat (all_remaining p) ≡ xs ++ concat more
At-concat p xs more a =
    ap (λ q. concat (all_remaining q)) a.here
    ∙ at_position (λ q. concat (all_remaining q) ≡ drop a.skip a.buffer ++ concat more) a.skip
        a.buffer more a.inside
        (λ e.
          concat-all_remaining more
          ∙ ap (λ l. l ++ concat more) (sym (drop_all a.skip a.buffer (omega (arith, e)))))
        (some_left a.skip a.buffer more)
    ∙ ap (λ l. l ++ concat more) a.rest
