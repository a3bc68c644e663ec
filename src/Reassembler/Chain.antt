-- ===== src/Reassembler/Chain.antt =====
-- The shape of m_buf in src/reassembler.cc, and what it holds.
use cs144_minnow.Base.{
  ℕ, zero, suc, ◌+◌, ◌≤◌, ◌<◌, ◌≡◌, ◌⊎◌, inl, inr, ◌^◌, List, [], ◌∷◌, ◌++◌, arith, length, take,
  drop,
}
use cs144_minnow.Reassembler.{Entry}

-- The entries start at lo or later, are not empty, do not overlap, and end below 2^64.
abbrev pub Chain : ℕ → List Entry → Type 0
Chain lo [] = Unit {0}
Chain lo (e ∷ m) =
    (lo ≤ e.first)
    × (0 < length e.second)
    × (e.first + length e.second < 2 ^ 64)
    × Chain (e.first + length e.second) m

-- No entry lies across the cut x.
abbrev pub Cut : ℕ → List Entry → Type 0
Cut x [] = Unit {0}
Cut x (e ∷ m) = ((x ≤ e.first) ⊎ (e.first + length e.second ≤ x)) × Cut x m

-- As Cut, and no entry starts at x.
abbrev pub StrictCut : ℕ → List Entry → Type 0
StrictCut x [] = Unit {0}
StrictCut x (e ∷ m) = ((x < e.first) ⊎ (e.first + length e.second ≤ x)) × StrictCut x m

abbrev pub total : List Entry → ℕ
total [] = 0
total (e ∷ m) = length e.second + total m

-- Byte number i of the stream is stored.
abbrev pub Holds : ℕ → List Entry → Type 0
Holds i [] = ⊥
Holds i (e ∷ m) = ((e.first ≤ i) × (i < e.first + length e.second)) ⊎ Holds i m

-- The bytes are those of src from index k on.
abbrev pub Agree : (ℕ → ℕ) → ℕ → List ℕ → Type 0
Agree src k [] = Unit {0}
Agree src k (b ∷ bs) = (b ≡ src k) × Agree src (suc k) bs

abbrev pub AllAgree : (ℕ → ℕ) → List Entry → Type 0
AllAgree src [] = Unit {0}
AllAgree src (e ∷ m) = Agree src e.first e.second × AllAgree src m

pub Chain-mono : {lo lo' : ℕ} (m : List Entry) → lo' ≤ lo → Chain lo m → Chain lo' m
Chain-mono [] h c = tt
Chain-mono (e ∷ m) h c = (omega arith, c.1, c.2, c.3)

pub Chain-Cut : (x lo : ℕ) (m : List Entry) → x ≤ lo → Chain lo m → Cut x m
Chain-Cut x lo [] h c = tt
Chain-Cut x lo (e ∷ m) h c =
    (inl (omega arith), Chain-Cut x (e.first + length e.second) m (omega arith) c.3)

pub Chain-StrictCut : (x lo : ℕ) (m : List Entry) → x < lo → Chain lo m → StrictCut x m
Chain-StrictCut x lo [] h c = tt
Chain-StrictCut x lo (e ∷ m) h c =
    (inl (omega arith), Chain-StrictCut x (e.first + length e.second) m (omega arith) c.3)

pub Agree-take : (src : ℕ → ℕ) (n k : ℕ) (bs : List ℕ) → Agree src k bs → Agree src k (take n bs)
Agree-take src zero k bs a = tt
Agree-take src (suc n) k [] a = tt
Agree-take src (suc n) k (b ∷ bs) a = (a.0, Agree-take src n (suc k) bs a.1)

pub Agree-drop :
    (src : ℕ → ℕ) (n k j : ℕ) (bs : List ℕ) → k + n ≡ j → Agree src k bs → Agree src j (drop n bs)
Agree-drop src zero k j bs e a = let e' : k ≡ j = omega arith in rw (← e') a
Agree-drop src (suc n) k j [] e a = tt
Agree-drop src (suc n) k j (b ∷ bs) e a = Agree-drop src n (suc k) j bs (omega arith) a.1

pub Agree-append :
    (src : ℕ → ℕ) (k j : ℕ) (xs ys : List ℕ)
    → k + length xs ≡ j
    → Agree src k xs
    → Agree src j ys
    → Agree src k (xs ++ ys)
Agree-append src k j [] ys e a b = let e' : k ≡ j = omega arith in rw e' b
Agree-append src k j (x ∷ xs) ys e a b = (a.0, Agree-append src (suc k) j xs ys (omega arith) a.1 b)

pub Holds-ge : (lo i : ℕ) (m : List Entry) → Chain lo m → Holds i m → lo ≤ i
Holds-ge lo i [] c h = elim h [ ]
Holds-ge lo i (e ∷ m) c (inl h) = omega arith
Holds-ge lo i (e ∷ m) c (inr h) = omega (arith, Holds-ge (e.first + length e.second) i m c.3 h)
