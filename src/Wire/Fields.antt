-- ===== src/Wire/Fields.antt =====
-- One field after another: Parser.integer of util/parser.hh, and the loops over addresses.
use cs144_minnow.Base.{
  ℕ, zero, suc, ◌+◌, ◌*◌, ◌^◌, ◌≤◌, ◌<◌, ◌≡◌, refl, sym, ap, subst, ◌∙◌, ◌⊎◌, inl, inr, true, false,
  List, [], ◌∷◌, ◌++◌, arith, ◌==◌, if◌then◌else◌, length, drop, length-drop, drop-plus,
  drop-append, length-append, append_assoc, append-nil, All,
}
use cs144_minnow.Base.Outcome.{Outcome, ok, ◌>>=◌}
use cs144_minnow.Wire.Parser.{
  Parser, parser_of, total_size, integer, integers, bytes_of, Serializer, put_integers,
}
use cs144_minnow.Wire.Reads.{position, reading, integer_lem}

-- The parser stands before the bytes xs, which end a buffer, and has the buffers more behind them.
pub record At (p : Parser) (xs : List ℕ) (more : List (List ℕ)) : Type 0 where
  pub buffer : List ℕ
  pub skip : ℕ
  pub small : total_size (buffer ∷ more) < 2 ^ 64
  pub inside : skip ≤ length buffer
  pub rest : drop skip buffer ≡ xs
  pub here : p ≡ position skip buffer more

pub parser_of-At :
    (b : List ℕ) (more : List (List ℕ))
    → 0 < length b
    → total_size (b ∷ more) < 2 ^ 64
    → At (parser_of (b ∷ more)) b more
parser_of-At b more h w =
    let start : (0 == length b) ≡ false = ground arith in
    record {
      buffer = b;
      skip = 0;
      small = w;
      inside = omega arith;
      rest = refl;
      here =
          ap
            (λ z. record {
              input = record { size = z; buffer = b ∷ more; skip = 0 };
              error = false;
            })
            (omega arith)
          ∙ ap (λ c. if c then parser_of more else reading 0 b more) (sym start);
    }

-- Behind the last byte the parser stands before the other buffers.
pub At-nil : (p : Parser) (more : List (List ℕ)) → At p [] more → p ≡ parser_of more
At-nil p more a =
    let ended : (a.skip == length a.buffer) ≡ true =
      ground (arith, length-drop a.skip a.buffer, ap length a.rest, a.inside) in
    a.here ∙ ap (λ c. if c then parser_of more else reading a.skip a.buffer more) ended

pub length-bytes_of : (width v : ℕ) → length (bytes_of width v) ≡ width
unfolding bytes_of
length-bytes_of zero v = refl
length-bytes_of (suc n) v = omega (arith, length-bytes_of n v)

-- The parser after what was read.
abbrev pub Moves {ℓ} : {A : Type ℓ} → Outcome (A × Parser) → A → List ℕ → List (List ℕ) → Type ℓ
Moves o v xs more = (p : Parser) × (o ≡ ok (v, p)) × At p xs more

pub IsWidth : ℕ → Type 0
IsWidth n = (n ≡ 1) ⊎ (n ≡ 2) ⊎ (n ≡ 4)

pub one : IsWidth 1
unfolding IsWidth
one = inl refl

pub two : IsWidth 2
unfolding IsWidth
two = inr (inl refl)

pub four : IsWidth 4
unfolding IsWidth
four = inr (inr refl)

pub integer-At :
    (width out v : ℕ) (p : Parser) (xs : List ℕ) (more : List (List ℕ))
    → IsWidth width
    → v < 2 ^ (8 * width)
    → At p (bytes_of width v ++ xs) more
    → Moves (integer width out p) v xs more
unfolding IsWidth
integer-At width out v p xs more w fits a =
    let bytes = bytes_of width v in
    let len = length-bytes_of width v in
    let room : a.skip + width ≤ length a.buffer = omega (
      arith,
      length-drop a.skip a.buffer,
      ap length a.rest,
      length-append bytes xs,
      a.inside,
      len,
    ) in
    (
      position (a.skip + width) a.buffer more,
      ap (integer width out) a.here
          ∙ integer_lem a.buffer more a.small width v out a.skip xs w fits a.rest (ground arith),
      record {
        buffer = a.buffer;
        skip = a.skip + width;
        small = a.small;
        inside = room;
        rest =
            drop-plus a.skip width a.buffer
            ∙ ap (drop width) a.rest
            ∙ ap (λ n. drop n (bytes ++ xs)) (sym len)
            ∙ drop-append bytes xs;
        here = refl;
      },
    )

-- The same in front of the code that follows, which may read on where the parser then stands.
pub integer-then {ℓ κ} :
    {B : Type ℓ} (P : Outcome B → Type κ) (width out v : ℕ) (p : Parser) (xs : List ℕ)
    (more : List (List ℕ)) (f : ℕ × Parser → Outcome B)
    → IsWidth width
    → v < 2 ^ (8 * width)
    → At p (bytes_of width v ++ xs) more
    → ((q : Parser) → At q xs more → P (f (v, q)))
    → P (integer width out p >>= f)
integer-then P width out v p xs more f w fits a next =
    let (q, e, b) = integer-At width out v p xs more w fits a in
    subst P (sym (ap (λ o. o >>= f) e)) (next q b)

abbrev pub IsByte : ℕ → Type 0
IsByte b = b < 256

-- A byte is its own encoding.
bytes_of-byte : (b : ℕ) → IsByte b → bytes_of 1 b ≡ b ∷ []
unfolding bytes_of
bytes_of-byte b h = ap (λ x. x ∷ []) (omega arith)

-- The bytes of an address.
pub integers-At :
    (old bs : List ℕ) (p : Parser) (xs : List ℕ) (more : List (List ℕ))
    → length old ≡ length bs
    → All IsByte bs
    → At p (bs ++ xs) more
    → Moves (integers old p) bs xs more
unfolding integers
integers-At [] [] p xs more l h a = (p, refl, a)
integers-At [] (b ∷ bs) p xs more l h a = absurd (omega arith)
integers-At (o ∷ old) [] p xs more l h a = absurd (omega arith)
integers-At (o ∷ old) (b ∷ bs) p xs more l (h, hs) a =
    let (p1, e1, a1) =
      integer-At 1 o b p (bs ++ xs) more one (omega arith)
        (subst (λ l. At p (l ++ (bs ++ xs)) more) (sym (bytes_of-byte b h)) a) in
    let (p2, e2, a2) = integers-At old bs p1 xs more (omega arith) hs a1 in
    (p2, rw (e1, e2) refl, a2)

-- The serializer's buffer after the bytes of an address.
pub put_integers_lem :
    (bs : List ℕ) (s : Serializer)
    → All IsByte bs
    → put_integers bs s ≡ record s { buffer = s.buffer ++ bs }
put_integers_lem [] s h = ap (λ b. record s { buffer = b }) (sym (append-nil s.buffer))
put_integers_lem (b ∷ bs) s (h, hs) =
    put_integers_lem bs _ hs
    ∙ ap (λ l. record s { buffer = l })
        (append_assoc s.buffer (bytes_of 1 b) bs
          ∙ ap (λ l. s.buffer ++ (l ++ bs)) (bytes_of-byte b h))
