-- ===== src/Wire/Reads.antt =====
-- Parser.integer of util/parser.hh on the bytes that Serializer.integer wrote.
use cs144_minnow.Base.{
  ℕ, zero, suc, ◌+◌, ◌-◌, ◌*◌, ◌^◌, ◌≤◌, ◌<◌, ◌≡◌, refl, sym, ap, ap₂, subst, length-append, ◌∙◌,
  ◌⊎◌, inl, inr, Bool, true, false, List, [], ◌∷◌, ◌++◌, arith, ltb, ◌==◌, if◌then◌else◌, length,
  drop, min, sub64, length-drop,
}
use cs144_minnow.Base.Outcome.{Outcome, ok, ◌>>=◌}
use cs144_minnow.Wire.Parser.{
  Parser, parser_of, total_size, left_size, remove_loop, remove_prefix, front, integer, read_bytes,
  bytes_of, shift_in, set_error,
}

-- The parser stands before byte number k of its first buffer b, with the buffers more behind it.
abbrev pub reading : ℕ → List ℕ → List (List ℕ) → Parser
reading k b more = record {
  input = record { size = total_size (b ∷ more) - k; buffer = b ∷ more; skip = k };
  error = false;
}

-- A buffer that was read is dropped.
abbrev pub position : ℕ → List ℕ → List (List ℕ) → Parser
position k b more = if k == length b then parser_of more else reading k b more

pub remove_loop-zero : (skip : ℕ) (bs : List (List ℕ)) → remove_loop 0 skip bs ≡ (skip, bs)
unfolding remove_loop
remove_loop-zero skip [] = refl
remove_loop-zero skip (b ∷ bs) = refl

remove_loop-one :
    (k : ℕ) (b : List ℕ) (more : List (List ℕ))
    → k < length b
    → remove_loop 1 k (b ∷ more) ≡ (if k + 1 == length b then (0, more) else (k + 1, b ∷ more))
unfolding remove_loop
remove_loop-one k b more h =
    let e : min 1 (length b - k) ≡ 1 = omega arith in
    ap (λ n. if k + n == length b then remove_loop (1 - n) 0 more else (k + n, b ∷ more)) e
    ∙ ap (λ r. if k + 1 == length b then r else (k + 1, b ∷ more)) (remove_loop-zero 0 more)

-- The parser after a round of remove_prefix that left r.
abbrev left_at : ℕ → List ℕ → List (List ℕ) → ℕ × List (List ℕ) → Parser
left_at k b more r = record {
  input = record {
    size = sub64 (total_size (b ∷ more) - k) (left_size (k, b ∷ more) - left_size r);
    buffer = r.1;
    skip = r.0;
  };
  error = false;
}

left_at-position :
    (k : ℕ) (b : List ℕ) (more : List (List ℕ)) (c : Bool)
    → k < length b
    → total_size (b ∷ more) < 2 ^ 64
    → (k + 1 == length b) ≡ c
    → left_at k b more (if c then (0, more) else (k + 1, b ∷ more))
      ≡ (if c then parser_of more else reading (k + 1) b more)
left_at-position k b more true h w e =
    ap (λ z. record { input = record { size = z; buffer = more; skip = 0 }; error = false })
      (ground arith)
left_at-position k b more false h w e =
    ap (λ z. record { input = record { size = z; buffer = b ∷ more; skip = k + 1 }; error = false })
      (ground arith)

remove_prefix-one :
    (k : ℕ) (b : List ℕ) (more : List (List ℕ))
    → k < length b
    → total_size (b ∷ more) < 2 ^ 64
    → record (reading k b more) { input = remove_prefix 1 (reading k b more).input }
      ≡ position (k + 1) b more
unfolding remove_prefix
remove_prefix-one k b more h w =
    ap (left_at k b more) (remove_loop-one k b more h)
    ∙ left_at-position k b more (k + 1 == length b) h w refl

-- What the loop of integer makes of bytes.
abbrev of_bytes : ℕ → ℕ → List ℕ → ℕ
of_bytes width out [] = out
of_bytes width out (x ∷ xs) = of_bytes width (shift_in width out x) xs

-- The bytes of an integer make it again.
Recovers : ℕ → ℕ → Type 0
Recovers v width =
    v < 2 ^ (8 * width)
    → (of_bytes width 0 (bytes_of width v) ≡ v) × (length (bytes_of width v) ≡ width)

one_byte : (v : ℕ) → Recovers v 1
unfolding Recovers bytes_of
one_byte v h = (omega arith, refl)

two_bytes : (v : ℕ) → Recovers v 2
unfolding Recovers bytes_of
two_bytes v h = (omega arith, refl)

four_bytes : (v : ℕ) → Recovers v 4
unfolding Recovers bytes_of
four_bytes v h = (omega arith, refl)

of_bytes-bytes_of : (width v : ℕ) → (width ≡ 1) ⊎ (width ≡ 2) ⊎ (width ≡ 4) → Recovers v width
of_bytes-bytes_of width v (inl e) = subst (Recovers v) (sym e) (one_byte v)
of_bytes-bytes_of width v (inr (inl e)) = subst (Recovers v) (sym e) (two_bytes v)
of_bytes-bytes_of width v (inr (inr e)) = subst (Recovers v) (sym e) (four_bytes v)

drop-next : (k x : ℕ) (xs l : List ℕ) → drop k l ≡ x ∷ xs → drop (suc k) l ≡ xs
drop-next zero x xs [] h = cc
drop-next zero x xs (y ∷ l) h = cc
drop-next (suc k) x xs [] h = cc
drop-next (suc k) x xs (y ∷ l) h = drop-next k x xs l h

module _ (b : List ℕ) (more : List (List ℕ)) (w : total_size (b ∷ more) < 2 ^ 64) where
  -- One byte is read.
  read_bytes-byte :
      (n width out k x : ℕ) (xs : List ℕ)
      → drop k b ≡ x ∷ xs
      → k < length b
      → read_bytes (suc n) width out (position k b more)
        ≡ read_bytes n width (shift_in width out x) (position (k + 1) b more)
  unfolding read_bytes
  read_bytes-byte n width out k x xs h l =
      let at : (k == length b) ≡ false = ground arith in
      let next : ℕ → Outcome (ℕ × Parser) = λ y.
        read_bytes n width (shift_in width out y)
          (record (reading k b more) { input = remove_prefix 1 (reading k b more).input }) in
      ap (λ c. read_bytes (suc n) width out (if c then parser_of more else reading k b more)) at
      ∙ ap (λ l. front l >>= next) h
      ∙ ap (read_bytes n width (shift_in width out x)) (remove_prefix-one k b more l w)

  read_bytes_lem :
      (xs ys : List ℕ) (width out k : ℕ)
      → drop k b ≡ xs ++ ys
      → k ≤ length b
      → read_bytes (length xs) width out (position k b more)
        ≡ ok (of_bytes width out xs, position (k + length xs) b more)
  unfolding read_bytes
  read_bytes_lem [] ys width out k h l = ap (λ j. ok (out, position j b more)) (omega arith)
  read_bytes_lem (x ∷ xs) ys width out k h l =
      let rest : drop (k + 1) b ≡ xs ++ ys =
        subst (λ j. drop j b ≡ xs ++ ys) {x = suc k} (omega arith) (drop-next k x (xs ++ ys) b h) in
      let inside : k < length b = omega (arith, ap length h, length-drop k b) in
      read_bytes-byte (length xs) width out k x (xs ++ ys) h inside
      ∙ read_bytes_lem xs ys width (shift_in width out x) (k + 1) rest (omega arith)
      ∙ ap (λ j. ok (of_bytes width (shift_in width out x) xs, position j b more)) (omega arith)

  -- Wherever a buffer has the bytes that the serializer makes of an integer of one, two or four
  -- bytes, the parser reads that integer and stands behind those bytes, if all the buffers hold less
  -- than 2^64 bytes.
  pub integer_lem :
      (width v out k : ℕ) (ys : List ℕ)
      → (width ≡ 1) ⊎ (width ≡ 2) ⊎ (width ≡ 4)
      → v < 2 ^ (8 * width)
      → drop k b ≡ bytes_of width v ++ ys
      → k < length b
      → integer width out (position k b more) ≡ ok (v, position (k + width) b more)
  unfolding integer Recovers
  integer_lem width v out k ys widths small h l =
      let (same, len) = of_bytes-bytes_of width v widths small in
      let at : (k == length b) ≡ false = ground arith in
      let room : width ≤ length b - k =
        omega (arith, ap length h, length-drop k b, length-append (bytes_of width v) ys, len) in
      let enough : ltb (total_size (b ∷ more) - k) width ≡ false = ground arith in
      let p = reading k b more in
      ap (λ c. integer width out (if c then parser_of more else p)) at
      ∙ ap
          (λ c.
            if (if c then set_error p else p).error
            then ok (out, if c then set_error p else p)
            else read_bytes width width 0 (if c then set_error p else p))
          enough
      ∙ ap (λ c. read_bytes width width 0 (if c then parser_of more else p)) (sym at)
      ∙ ap (λ n. read_bytes n width 0 (position k b more)) (sym len)
      ∙ read_bytes_lem (bytes_of width v) ys width 0 k h (omega arith)
      ∙ ap₂ (λ a n. ok (a, position (k + n) b more)) same len
