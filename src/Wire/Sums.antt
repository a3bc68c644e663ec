-- ===== src/Wire/Sums.antt =====
-- util/checksum.hh on bytes that carry their own checksum.
use cs144_minnow.Base.{
  ℕ, suc, ◌+◌, ◌*◌, ◌^◌, ◌≤◌, ◌<◌, ◌≡◌, refl, sym, ap, subst, ◌∙◌, Bool, true, false, List, [], ◌∷◌,
  ◌++◌, arith, length, All, u16, u32,
}
use cs144_minnow.Wire.Parser.{concat}
use cs144_minnow.Wire.Fields.{IsByte}
use cs144_minnow.Wire.Checksum.{InternetChecksum, add, add_all, value}

pub add-append : (xs ys : List ℕ) (c : InternetChecksum) → add (xs ++ ys) c ≡ add ys (add xs c)
unfolding add
add-append [] ys c = refl
add-append (x ∷ xs) ys c = add-append xs ys _

pub add_all-concat : (bs : List (List ℕ)) (c : InternetChecksum) → add_all bs c ≡ add (concat bs) c
unfolding add_all
add_all-concat [] c = unfold add in refl
add_all-concat (b ∷ bs) c = add_all-concat bs (add b c) ∙ sym (add-append b (concat bs) c)

abbrev pub sum_at : ℕ → Bool → InternetChecksum
sum_at sum parity = record { sum = sum; parity = parity }

-- Short of an overflow, a larger sum to begin with is as much larger in the end.
abbrev pub Shifts : List ℕ → ℕ → ℕ → Bool → Type 0
Shifts xs s d parity =
    ((add xs (sum_at (s + d) parity)).sum ≡ (add xs (sum_at s parity)).sum + d)
    × ((add xs (sum_at s parity)).sum ≤ s + 65280 * length xs)

-- The value that is added for one byte, in front of the others.
Shifts-value :
    (xs : List ℕ) (s d v : ℕ) (parity : Bool)
    → v ≤ 65280
    → s + d + 65280 * suc (length xs) < 2 ^ 32
    → Shifts xs (s + v) d parity
    → ((add xs (sum_at (u32 (s + d + v)) parity)).sum
        ≡ (add xs (sum_at (u32 (s + v)) parity)).sum + d)
      × ((add xs (sum_at (u32 (s + v)) parity)).sum ≤ s + 65280 * suc (length xs))
Shifts-value xs s d v parity small w (e, b) =
    let sum = λ (z : ℕ). (add xs (sum_at z parity)).sum in
    let low : u32 (s + v) ≡ s + v = omega arith in
    let high : u32 (s + d + v) ≡ s + v + d = omega arith in
    (
      ap sum high ∙ e ∙ ap (λ z. sum z + d) (sym low),
      subst (λ z. sum z ≤ s + 65280 * suc (length xs)) (sym low) (omega (arith, b)),
    )

pub add-Shifts :
    (xs : List ℕ) (s d : ℕ) (parity : Bool)
    → All IsByte xs
    → s + d + 65280 * length xs < 2 ^ 32
    → Shifts xs s d parity
unfolding add
add-Shifts [] s d parity h w = (refl, omega arith)
add-Shifts (x ∷ xs) s d true (h, hs) w =
    Shifts-value xs s d x false (omega arith) w (add-Shifts xs (s + x) d false hs (omega arith))
add-Shifts (x ∷ xs) s d false (h, hs) w =
    Shifts-value xs s d (u16 (x * 256)) true (omega arith) w
      (add-Shifts xs (s + u16 (x * 256)) d true hs (omega arith))

-- A sum with its own checksum added is complete.
pub value_complete :
    (s : ℕ) (p q : Bool) → s + 0xffff < 2 ^ 32 → value (sum_at (s + value (sum_at s p)) q) ≡ 0
unfolding value
value_complete s p q h = ground arith

pub value_small : (c : InternetChecksum) → value c < 2 ^ 16
unfolding value
value_small c = omega arith
