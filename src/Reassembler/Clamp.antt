-- ===== src/Reassembler/Clamp.antt =====
-- The bounds that _insert_to_buffer of src/reassembler.cc computes from its iterators.
use cs144_minnow.Base.{
  ℕ, suc, ◌+◌, ◌≤◌, ◌<◌, ◌≡◌, refl, sym, subst, ◌⊎◌, inl, inr, ◌^◌, Bool-cases, ltb→lt, leb, ltb,
  if◌then◌else◌, Option, none, some, List, [], ◌∷◌, arith, length,
}
use cs144_minnow.Reassembler.{
  Entry, before_lower_bound, from_upper_bound, starts_by, iterator_end, walk, clamp_end,
  clamp_begin, entry_end,
}
use cs144_minnow.Reassembler.Chain.{
  Chain, Cut, StrictCut, Holds, Chain-Cut, Chain-StrictCut, Chain-mono,
}

-- What the entry before lower_bound(key) says of the entries.
abbrev Before : ℕ → ℕ → List Entry → Option Entry → Type 0
Before lo key m none = (x : ℕ) → x ≤ key → Cut x m
Before lo key m (some f) =
    (lo ≤ f.first)
    × (f.first < key)
    × (f.first + length f.second < 2 ^ 64)
    × Cut f.first m
    × (f.first + length f.second ≤ key → Cut key m)
    × ((i : ℕ) → f.first ≤ i → i < f.first + length f.second → Holds i m)

Before-head :
    (lo key : ℕ) (e : Entry) (m : List Entry) (r : Option Entry)
    → Chain lo (e ∷ m)
    → e.first < key
    → Before (e.first + length e.second) key m r
    → Before lo key (e ∷ m) (some (elim r [ none ↦ e | some f ↦ f ]))
Before-head lo key e m none c h b = (
  c.0,
  h,
  c.2,
  (inl (omega arith), Chain-Cut e.first (e.first + length e.second) m (omega arith) c.3),
  λ k. (inr k, b key (omega arith)),
  λ i p q. inl (p, q),
)
Before-head lo key e m (some f) c h b = (
  omega arith,
  b.1,
  b.2,
  (inr b.0, b.3),
  λ k. (inr (omega arith), b.4 k),
  λ i p q. inr (b.5 i p q),
)

before_lower_bound-Before :
    (lo key : ℕ) (m : List Entry) → Chain lo m → Before lo key m (before_lower_bound key m)
unfolding before_lower_bound
before_lower_bound-Before lo key [] c = λ x h. tt
before_lower_bound-Before lo key (e ∷ m) c = elim (Bool-cases (ltb e.first key)) [
  | inl t ↦ rw t (
      Before-head lo key e m (before_lower_bound key m) c (ground arith)
        (before_lower_bound-Before (e.first + length e.second) key m c.3))
  | inr f ↦ rw f (λ x h. Chain-Cut x e.first (e ∷ m) (ground arith) (omega arith, c.1, c.2, c.3))
]

-- The end of the clamped data lies across no entry and not behind the data.
pub record EndFits (accept_end end_index : ℕ) (m : List Entry) (x : ℕ) : Type 0 where
  pub cut : Cut x m
  pub below : x ≤ end_index
  pub held : (i : ℕ) → x ≤ i → i < end_index → (accept_end ≤ i) ⊎ Holds i m

end_fits :
    (lo ae ei : ℕ) (m : List Entry) (r : Option Entry)
    → Before lo ei m r
    → EndFits ae ei m (elim r [
      | none ↦ if ltb ae ei then ae else ei
      | some e ↦ if leb ei (entry_end e) then e.first else ei
    ])
end_fits lo ae ei m none b = elim (Bool-cases (ltb ae ei)) [
  | inl t ↦ rw t (record { cut = b ae (ground arith); below = ground arith; held = λ i p q. inl p })
  | inr f ↦ rw f (record {
    cut = b ei (omega arith);
    below = omega arith;
    held = λ i p q. absurd (omega arith);
  })
]
end_fits lo ae ei m (some e) b = elim (Bool-cases (leb ei (entry_end e))) [
  | inl t ↦
      rw t (record { cut = b.3; below = omega arith; held = λ i p q. inr (b.5 i p (ground arith)) })
  | inr f ↦ rw f (record {
    cut = b.4 (ground arith);
    below = omega arith;
    held = λ i p q. absurd (omega arith);
  })
]

pub clamp_end-EndFits :
    (lo ae ei : ℕ) (m : List Entry) → Chain lo m → EndFits ae ei m (clamp_end ae ei m)
unfolding clamp_end
clamp_end-EndFits lo ae ei m c =
    end_fits lo ae ei m (before_lower_bound ei m) (before_lower_bound-Before lo ei m c)

walk-ge : (lo b : ℕ) (m : List Entry) → Chain lo m → b ≤ lo → b ≤ walk m b
unfolding walk
walk-ge lo b [] c h = omega arith
walk-ge lo b (e ∷ m) c h = ground (arith, walk-ge (e.first + length e.second) (entry_end e) m c.3)

walk-StrictCut : (lo b : ℕ) (m : List Entry) → Chain lo m → StrictCut (walk m b) m
unfolding walk
walk-StrictCut lo b [] c = tt
walk-StrictCut lo b (e ∷ m) c = elim (Bool-cases (leb e.first b)) [
  | inl t ↦
      let s : walk (e ∷ m) b ≡ walk m (entry_end e) = rw t in
      subst (λ x. StrictCut x (e ∷ m)) (sym s)
        (
          inr (
              omega (arith, walk-ge (e.first + length e.second) (entry_end e) m c.3 (omega arith))),
          walk-StrictCut (e.first + length e.second) (entry_end e) m c.3,
        )
  | inr f ↦
      let s : walk (e ∷ m) b ≡ b = rw f in
      subst (λ x. StrictCut x (e ∷ m)) (sym s)
        (Chain-StrictCut b e.first (e ∷ m) (ground arith) (omega arith, c.1, c.2, c.3))
]

walk-Holds : (lo b i : ℕ) (m : List Entry) → Chain lo m → b ≤ i → i < walk m b → Holds i m
unfolding walk
walk-Holds lo b i [] c h k = absurd (omega arith)
walk-Holds lo b i (e ∷ m) c h k = elim (Bool-cases (leb e.first b)) [
  | inl t ↦ elim (Bool-cases (ltb i (e.first + length e.second))) [
    | inl u ↦ inl (ground arith, ground arith)
    | inr u ↦
        inr
          (walk-Holds (e.first + length e.second) (entry_end e) i m c.3 (ground arith) (rw t at k))
  ]
  | inr f ↦ absurd (let k' : i < b = rw f at k in omega arith)
]

from_upper_bound-StrictCut :
    (lo key x : ℕ) (m : List Entry)
    → Chain lo m
    → key ≤ x
    → StrictCut x (from_upper_bound key m)
    → StrictCut x m
unfolding from_upper_bound
from_upper_bound-StrictCut lo key x [] c h s = tt
from_upper_bound-StrictCut lo key x (e ∷ []) c h s = s
from_upper_bound-StrictCut lo key x (e ∷ f ∷ m) c h s = elim (Bool-cases (leb f.first key)) [
  | inl t ↦ (
    inr (ground arith),
    from_upper_bound-StrictCut (e.first + length e.second) key x (f ∷ m) c.3 h (rw t at s),
  )
  | inr u ↦ rw u at s
]

from_upper_bound-Chain :
    (lo key : ℕ) (m : List Entry) → Chain lo m → Chain lo (from_upper_bound key m)
unfolding from_upper_bound
from_upper_bound-Chain lo key [] c = tt
from_upper_bound-Chain lo key (e ∷ []) c = c
from_upper_bound-Chain lo key (e ∷ f ∷ m) c = elim (Bool-cases (leb f.first key)) [
  | inl t ↦ rw t (
      Chain-mono (from_upper_bound key (f ∷ m)) (omega arith)
        (from_upper_bound-Chain (e.first + length e.second) key (f ∷ m) c.3))
  | inr u ↦ rw u c
]

from_upper_bound-Holds : (key i : ℕ) (m : List Entry) → Holds i (from_upper_bound key m) → Holds i m
unfolding from_upper_bound
from_upper_bound-Holds key i [] h = h
from_upper_bound-Holds key i (e ∷ m) h = elim (Bool-cases (starts_by key m)) [
  | inl t ↦ inr (from_upper_bound-Holds key i m (rw t at h))
  | inr u ↦ rw u at h
]

-- Where the loop is not entered, the entries before the iterator's successor end by x.
idle-StrictCut :
    (ab past_end key x : ℕ) (m : List Entry)
    → Chain (suc ab) m
    → key ≤ x
    → (x ≡ ab) ⊎ (x ≡ key)
    → iterator_end past_end (from_upper_bound key m) ≤ x
    → StrictCut x m
unfolding from_upper_bound
idle-StrictCut ab past_end key x [] c k d h = tt
idle-StrictCut ab past_end key x (e ∷ []) c k d h = (inr (ground arith), tt)
idle-StrictCut ab past_end key x (e ∷ f ∷ m) c k d h = elim (Bool-cases (leb f.first key)) [
  | inl t ↦ (
    inr (ground arith),
    idle-StrictCut ab past_end key x (f ∷ m) (omega arith, c.3.1, c.3.2, c.3.3) k d (rw t at h),
  )
  | inr u ↦
      let h' : entry_end e ≤ x = rw u at h in
      (
        inr (omega arith),
        Chain-StrictCut x f.first (f ∷ m) (ground arith) (omega arith, c.3.1, c.3.2, c.3.3),
      )
]

-- The begin of the clamped data: past what is known, before or behind every entry, and what is
-- skipped is stored.
pub record BeginFits (accept_begin first_index : ℕ) (m : List Entry) (x : ℕ) : Type 0 where
  pub cut : StrictCut x m
  pub accepted : accept_begin ≤ x
  pub above : first_index ≤ x
  pub held : (i : ℕ) → accept_begin ≤ i → first_index ≤ i → i < x → Holds i m

walk_ge :
    (lo past_end b : ℕ) (m : List Entry) → Chain lo m → b < iterator_end past_end m → b ≤ walk m b
unfolding walk
walk_ge lo past_end b [] c h = omega arith
walk_ge lo past_end b (e ∷ m) c h =
    ground (arith, walk-ge (e.first + length e.second) (entry_end e) m c.3)

clamp_fits :
    (ab past_end fi b : ℕ) (m : List Entry)
    → Chain (suc ab) m
    → ab ≤ b
    → fi ≤ b
    → (b ≡ ab) ⊎ (b ≡ fi)
    → let iter = from_upper_bound fi m in
      BeginFits ab fi m (if ltb b (iterator_end past_end iter) then walk iter b else b)
clamp_fits ab past_end fi b m c ha hf d =
    let iter = from_upper_bound fi m in
    let ic : Chain (suc ab) iter = from_upper_bound-Chain (suc ab) fi m c in
    elim (Bool-cases (ltb b (iterator_end past_end iter))) [
      | inl t ↦
          let up : b ≤ walk iter b = walk_ge (suc ab) past_end b iter ic (ltb→lt _ _ t) in
          rw t (record {
            cut =
                from_upper_bound-StrictCut (suc ab) fi (walk iter b) m c (omega arith)
                  (walk-StrictCut (suc ab) b iter ic);
            accepted = omega arith;
            above = omega arith;
            held = λ i p q r.
                from_upper_bound-Holds fi i m
                  (walk-Holds (suc ab) b i iter ic (from_either ab fi b i d p q) r);
          })
      | inr f ↦ rw f (record {
        cut = idle-StrictCut ab past_end fi b m c hf d (ground arith);
        accepted = ha;
        above = hf;
        held = λ i p q r. absurd (omega arith);
      })
    ]
  where
    from_either : (ab fi b i : ℕ) → (b ≡ ab) ⊎ (b ≡ fi) → ab ≤ i → fi ≤ i → b ≤ i
    from_either ab fi b i d p q = omega arith

pub clamp_begin-BeginFits :
    (past_end ab fi : ℕ) (m : List Entry)
    → Chain (suc ab) m
    → BeginFits ab fi m (clamp_begin past_end ab fi m)
unfolding clamp_begin
clamp_begin-BeginFits past_end ab fi m c = elim (Bool-cases (ltb fi ab)) [
  | inl t ↦ rw t (clamp_fits ab past_end fi ab m c (omega arith) (ground arith) (inl refl))
  | inr f ↦ rw f (clamp_fits ab past_end fi fi m c (ground arith) (omega arith) (inr refl))
]

-- The number read at end() has no influence: the loop that it would enter stops at once.
pub clamp_begin_past_end :
    (p q ab fi : ℕ) (m : List Entry) → clamp_begin p ab fi m ≡ clamp_begin q ab fi m
unfolding clamp_begin
clamp_begin_past_end p q ab fi m = go (from_upper_bound fi m)
  where
    go :
        (iter : List Entry)
        → let b = if ltb fi ab then ab else fi in
          (if ltb b (iterator_end p iter) then walk iter b else b)
          ≡ (if ltb b (iterator_end q iter) then walk iter b else b)
    go [] = ground arith
    go (e ∷ m) = refl
