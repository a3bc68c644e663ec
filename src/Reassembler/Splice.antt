-- ===== src/Reassembler/Splice.antt =====
-- Storing a substring in m_buf and deleting what it covers (src/reassembler.cc): _delete_overlapping
-- after the assignment m_buf[clamped_begin] = data.
use cs144_minnow.Base.{
  ℕ, ◌+◌, ◌≤◌, ◌<◌, ◌≡◌, subst, ◌⊎◌, inl, inr, ◌^◌, Bool-cases, leb, ltb, ltb→lt, List, [], ◌∷◌,
  arith, length, u64, sub64,
}
use cs144_minnow.Reassembler.{Entry, put, erase_within, delete_overlapping, entry_end}
use cs144_minnow.Reassembler.Chain.{Chain, Cut, StrictCut, Holds, total, Agree, AllAgree, Holds-ge}

-- The deleting loop, on a chain that it enters with the bound x.
module _ (x : ℕ) where
  erase_within-Chain :
      (lo p : ℕ) (m : List Entry) → Chain lo m → Cut x m → Chain x (erase_within x m p).0
  unfolding erase_within
  erase_within-Chain lo p [] c d = tt
  erase_within-Chain lo p (e ∷ m) c d = elim (Bool-cases (leb (entry_end e) x)) [
    | inl t ↦
        rw t (erase_within-Chain (e.first + length e.second) (sub64 p (length e.second)) m c.3 d.1)
    | inr f ↦ rw f (ground arith, c.1, c.2, c.3)
  ]

  erase_within-AllAgree :
      (src : ℕ → ℕ) (p : ℕ) (m : List Entry) → AllAgree src m → AllAgree src (erase_within x m p).0
  unfolding erase_within
  erase_within-AllAgree src p [] a = tt
  erase_within-AllAgree src p (e ∷ m) a = elim (Bool-cases (leb (entry_end e) x)) [
    | inl t ↦ rw t (erase_within-AllAgree src (sub64 p (length e.second)) m a.1)
    | inr f ↦ rw f a
  ]

  erase_within-total :
      (k lo p : ℕ) (m : List Entry)
      → Chain lo m
      → p ≡ u64 (k + total m)
      → (erase_within x m p).1 ≡ u64 (k + total (erase_within x m p).0)
  unfolding erase_within
  erase_within-total k lo p [] c h = h
  erase_within-total k lo p (e ∷ m) c h = elim (Bool-cases (leb (entry_end e) x)) [
    | inl t ↦ rw t (
        erase_within-total k (e.first + length e.second) (sub64 p (length e.second)) m c.3
          (omega arith))
    | inr f ↦ rw f h
  ]

  erase_within-Holds :
      (lo p i : ℕ) (m : List Entry)
      → Chain lo m
      → x ≤ i
      → Holds i m
      → Holds i (erase_within x m p).0
  unfolding erase_within
  erase_within-Holds lo p i [] c h q = q
  erase_within-Holds lo p i (e ∷ m) c h q = elim (Bool-cases (leb (entry_end e) x)) [
    | inl t ↦ rw t (
        erase_within-Holds (e.first + length e.second) (sub64 p (length e.second)) i m c.3 h
          (later (ground arith) q))
    | inr f ↦ rw f q
  ]
    where
      later : e.first + length e.second ≤ x → Holds i (e ∷ m) → Holds i m
      later g (inl r) = absurd (omega arith)
      later g (inr r) = r

-- _delete_overlapping after the assignment, for a new entry that no other lies across.
module _ (new : Entry) where
  splice_before :
      (p : ℕ) (e : Entry) (m : List Entry)
      → new.first < e.first
      → let r = erase_within (entry_end new) (e ∷ m) p in
        delete_overlapping new.first (put new (e ∷ m)) p ≡ (new ∷ r.0, r.1)
  unfolding put delete_overlapping
  splice_before p e m h = ground arith

  pub splice_after :
      (p : ℕ) (e : Entry) (m : List Entry)
      → e.first < new.first
      → let r = delete_overlapping new.first (put new m) p in
        delete_overlapping new.first (put new (e ∷ m)) p ≡ (e ∷ r.0, r.1)
  unfolding put delete_overlapping
  splice_after p e m h = ground arith

  pub splice_nil : (p : ℕ) → delete_overlapping new.first (put new []) p ≡ (new ∷ [], p)
  unfolding put delete_overlapping
  splice_nil p = ground arith

abbrev pub splice : Entry → List Entry → ℕ → List Entry × ℕ
splice new m p = delete_overlapping new.first (put new m) p

after_head :
    (x : ℕ) (e : Entry)
    → 0 < length e.second
    → (x < e.first) ⊎ (e.first + length e.second ≤ x)
    → (x < e.first) ⊎ (e.first < x)
after_head x e h d = omega arith

module _ (new : Entry) (some_bytes : 0 < length new.second)
    (word : new.first + length new.second < 2 ^ 64) where
  splice_low :
      (p : ℕ) (e : Entry) (m : List Entry)
      → new.first < e.first
      → let r = erase_within (new.first + length new.second) (e ∷ m) p in
        splice new (e ∷ m) p ≡ (new ∷ r.0, r.1)
  splice_low p e m h =
      let q : entry_end new ≡ new.first + length new.second = omega arith in
      subst
        (λ x.
          splice new (e ∷ m) p ≡ (new ∷ (erase_within x (e ∷ m) p).0, (erase_within x (e ∷ m) p).1))
        q (splice_before new p e m h)

  pub splice-Chain :
      (lo p : ℕ) (m : List Entry)
      → Chain lo m
      → lo ≤ new.first
      → StrictCut new.first m
      → Cut (new.first + length new.second) m
      → Chain lo (splice new m p).0
  splice-Chain lo p [] c h s d = rw (splice_nil new p) (h, some_bytes, word, tt)
  splice-Chain lo p (e ∷ m) c h s d = elim (after_head new.first e c.1 s.0) [
    | inl b ↦
        rw (splice_low p e m b)
          (h, some_bytes, word, erase_within-Chain (new.first + length new.second) lo p (e ∷ m) c d)
    | inr a ↦
        rw (splice_after new p e m a)
          (c.0, c.1, c.2, splice-Chain (e.first + length e.second) p m c.3 (omega arith) s.1 d.1)
  ]

  pub splice-AllAgree :
      (src : ℕ → ℕ) (lo p : ℕ) (m : List Entry)
      → Chain lo m
      → StrictCut new.first m
      → Agree src new.first new.second
      → AllAgree src m
      → AllAgree src (splice new m p).0
  splice-AllAgree src lo p [] c s a b = rw (splice_nil new p) (a, tt)
  splice-AllAgree src lo p (e ∷ m) c s a b = elim (after_head new.first e c.1 s.0) [
    | inl l ↦
        rw (splice_low p e m l)
          (a, erase_within-AllAgree (new.first + length new.second) src p (e ∷ m) b)
    | inr g ↦
        rw (splice_after new p e m g)
          (b.0, splice-AllAgree src (e.first + length e.second) p m c.3 s.1 a b.1)
  ]

  -- The counter of pending bytes has been raised by the new bytes before.
  pub splice-total :
      (k lo p : ℕ) (m : List Entry)
      → Chain lo m
      → StrictCut new.first m
      → p ≡ u64 (k + (length new.second + total m))
      → (splice new m p).1 ≡ u64 (k + total (splice new m p).0)
  splice-total k lo p [] c s h = rw (splice_nil new p) (omega arith)
  splice-total k lo p (e ∷ m) c s h = elim (after_head new.first e c.1 s.0) [
    | inl l ↦ rw (splice_low p e m l) (
        omega (
          arith,
          erase_within-total (new.first + length new.second) (k + length new.second) lo p (e ∷ m) c
              (omega arith),
        ))
    | inr g ↦ rw (splice_after new p e m g) (
        omega (
          arith,
          splice-total (k + length e.second) (e.first + length e.second) p m c.3 s.1 (omega arith),
        ))
  ]

  pub splice-Holds :
      (i lo p : ℕ) (m : List Entry)
      → Chain lo m
      → StrictCut new.first m
      → ((new.first ≤ i) × (i < new.first + length new.second)) ⊎ Holds i m
      → Holds i (splice new m p).0
  splice-Holds i lo p [] c s h = rw (splice_nil new p) h
  splice-Holds i lo p (e ∷ m) c s h = elim (after_head new.first e c.1 s.0) [
    | inl l ↦ rw (splice_low p e m l) (in_low l h)
    | inr g ↦
        rw (splice_after new p e m g)
          (in_high (splice-Holds i (e.first + length e.second) p m c.3 s.1) h)
  ]
    where
      in_low :
          new.first < e.first
          → ((new.first ≤ i) × (i < new.first + length new.second)) ⊎ Holds i (e ∷ m)
          → ((new.first ≤ i) × (i < new.first + length new.second))
            ⊎ Holds i (erase_within (new.first + length new.second) (e ∷ m) p).0
      in_low l (inl b) = inl b
      in_low l (inr b) = elim (Bool-cases (ltb i (new.first + length new.second))) [
        | inl u ↦
            inl (
              omega (arith, Holds-ge e.first i (e ∷ m) (omega arith, c.1, c.2, c.3) b),
              ltb→lt _ _ u,
            )
        | inr u ↦
            inr
              (erase_within-Holds (new.first + length new.second) lo p i (e ∷ m) c (ground arith) b)
      ]

      in_high :
          (((new.first ≤ i) × (i < new.first + length new.second)) ⊎ Holds i m
            → Holds i (splice new m p).0)
          → ((new.first ≤ i) × (i < new.first + length new.second)) ⊎ Holds i (e ∷ m)
          → Holds i (e ∷ (splice new m p).0)
      in_high ih (inl b) = inr (ih (inl b))
      in_high ih (inr (inl b)) = inl b
      in_high ih (inr (inr b)) = inr (ih (inr b))
