-- ===== src/Net/Routing.antt =====
-- The routes of src/router.cc: what look_up finds.
use cs144_minnow.Base.{
  ℕ, ◌+◌, ◌-◌, ◌*◌, ◌/◌, ◌%◌, ◌^◌, ◌≤◌, ◌<◌, ◌≡◌, refl, sym, ap, ap₂, subst, leb→le, ◌&&◌, ◌∙◌, ◌⊎◌,
  inl, inr, Bool, true, false, Option, none, some, List, [], ◌∷◌, u8, arith, leb, ltb, ◌==◌,
  if◌then◌else◌, All, Bool-cases,
}
use cs144_minnow.Base.Maps.{lookup, assign-All}
use cs144_minnow.Net.Router.{
  RouteTable, Router, add_route, insert, Best, no_match, matches, best, look_up, masked,
}
use mathlib.Core.List.{Mem, mem-cons_self, mem-cons_of_mem}
use native.Mathlib.Nat.{mul-div_cancel, one-le-pow}

-- The prefix length of a route's key is at most 32.
pub IsRoute : ℕ × ℕ → Type 0
IsRoute (key, num) = key % 2 ^ 32 ≤ 32

-- A route covers an address if the first bits of the two are the same numbers.
abbrev pub covers : ℕ → ℕ → Bool
covers ip key = let low = 2 ^ (32 - key % 2 ^ 32) in key / 2 ^ 32 / low == ip / low

-- The routes that cover an address.
pub covering : ℕ → List (ℕ × ℕ) → List (ℕ × ℕ)
covering ip [] = []
covering ip ((key, num) ∷ es) =
    if covers ip key then (key, num) ∷ covering ip es else covering ip es

-- The longest prefix length among routes.
abbrev pub longest : List (ℕ × ℕ) → ℕ
longest [] = 0
longest ((key, num) ∷ es) = if ltb (longest es) (key % 2 ^ 32) then key % 2 ^ 32 else longest es

mul_cancel : (a b p : ℕ) → 0 < p → a * p ≡ b * p → a ≡ b
mul_cancel a b p h e = sym (mul-div_cancel a h) ∙ ap (λ x. x / p) e ∙ mul-div_cancel b h

-- A test for equality of two multiples tests the factors.
equal_multiples : (a b p : ℕ) → 0 < p → (a * p == b * p) ≡ (a == b)
equal_multiples a b p h =
    let back : a * p ≡ b * p → a ≡ b = mul_cancel a b p h in
    let on : a ≡ b → a * p ≡ b * p = ap (λ x. x * p) in ground arith

matches-covers : (ip key : ℕ) → key % 2 ^ 32 ≤ 32 → matches ip key ≡ covers ip key
unfolding matches
matches-covers ip key h =
    let e : key % 64 ≡ key % 2 ^ 32 = omega arith in
    ap (λ l. masked l (key / 2 ^ 32) == masked l ip) e
    ∙ equal_multiples (key / 2 ^ 32 / 2 ^ (32 - key % 2 ^ 32)) (ip / 2 ^ (32 - key % 2 ^ 32))
        (2 ^ (32 - key % 2 ^ 32)) (one-le-pow (32 - key % 2 ^ 32) 2 (omega arith))

at_route : ℕ → ℕ → Best
at_route key num = record {
  key = key;
  longest_prefix_length = key % 2 ^ 32;
  num = num;
  matched = true;
}

u8_small : (n : ℕ) → n ≤ 32 → u8 n ≡ n
u8_small n h = omega arith

-- look_up's loop on routes that all cover the address.
pub best_of : List (ℕ × ℕ) → Best → Best
unfolding at_route
best_of [] b = b
best_of ((key, num) ∷ es) b =
    best_of es (if leb b.longest_prefix_length (key % 2 ^ 32) then at_route key num else b)

best_of-if :
    (c l : Bool) (key num : ℕ) (es : List (ℕ × ℕ)) (b : Best)
    → leb b.longest_prefix_length (key % 2 ^ 32) ≡ l
    → best_of es (if c && l then at_route key num else b)
      ≡ best_of (if c then (key, num) ∷ es else es) b
unfolding best_of at_route
best_of-if true l key num es b h = ap (λ x. best_of es (if x then at_route key num else b)) (sym h)
best_of-if false l key num es b h = refl

best-covering :
    (ip : ℕ) (es : List (ℕ × ℕ)) (b : Best)
    → All IsRoute es
    → best ip es b ≡ best_of (covering ip es) b
unfolding best IsRoute covering best_of at_route
best-covering ip [] b h = refl
best-covering ip ((key, num) ∷ es) b (h, hs) =
    let l = leb b.longest_prefix_length (key % 2 ^ 32) in
    ap₂
      (λ c w.
        best ip es (if c && l then record (at_route key num) { longest_prefix_length = w } else b))
      (matches-covers ip key h) (u8_small (key % 2 ^ 32) h)
    ∙ best-covering ip es (if covers ip key && l then at_route key num else b) hs
    ∙ best_of-if (covers ip key) l key num (covering ip es) b refl

-- What the loop found among routes when it started with b: nothing, as there are none or b's
-- prefix is longer than all, or one of the routes with the longest prefix.
pub Finds : Best → Best → List (ℕ × ℕ) → Type 0
Finds b found es =
    ((found ≡ b) × ((es ≡ []) ⊎ (longest es < b.longest_prefix_length)))
    ⊎ ((key num : ℕ) × Mem (key, num) es
        × (key % 2 ^ 32 ≡ longest es)
        × (b.longest_prefix_length ≤ longest es)
        × (found
            ≡ record { key = key; longest_prefix_length = longest es; num = num; matched = true }))

with_length : ℕ → ℕ → ℕ → Best
with_length key num l = record { key = key; longest_prefix_length = l; num = num; matched = true }

nothing_found : (b : Best) → Finds b b []
unfolding Finds
nothing_found b = inl (refl, inl refl)

Finds-taken :
    (b found : Best) (key num : ℕ) (es : List (ℕ × ℕ))
    → b.longest_prefix_length ≤ key % 2 ^ 32
    → Finds (at_route key num) found es
    → Finds b found ((key, num) ∷ es)
unfolding Finds at_route with_length
Finds-taken b found key num es h (inl (e, inl nothing)) =
    let l : key % 2 ^ 32 ≡ longest ((key, num) ∷ es) =
      subst (λ r. key % 2 ^ 32 ≡ longest ((key, num) ∷ r)) (sym nothing) (ground arith) in
    inr (key, num, mem-cons_self, l, omega arith, e ∙ ap (with_length key num) l)
Finds-taken b found key num es h (inl (e, inr shorter)) =
    let l : key % 2 ^ 32 ≡ longest ((key, num) ∷ es) = ground arith in
    inr (key, num, mem-cons_self, l, omega arith, e ∙ ap (with_length key num) l)
Finds-taken b found key num es h (inr (k, n, m, e, le, same)) =
    let l : longest es ≡ longest ((key, num) ∷ es) = ground arith in
    inr (k, n, mem-cons_of_mem (key, num) m, e ∙ l, omega arith, same ∙ ap (with_length k n) l)

Finds-skipped :
    (b found : Best) (key num : ℕ) (es : List (ℕ × ℕ))
    → key % 2 ^ 32 < b.longest_prefix_length
    → Finds b found es
    → Finds b found ((key, num) ∷ es)
unfolding Finds with_length
Finds-skipped b found key num es h (inl (e, none_longer)) =
    let shorter : longest es < b.longest_prefix_length = elim none_longer [
      | inl nothing ↦ subst (λ l. longest l < b.longest_prefix_length) (sym nothing) (omega arith)
      | inr l ↦ l
    ] in
    inl (e, inr (ground arith))
Finds-skipped b found key num es h (inr (k, n, m, e, le, same)) =
    let l : longest es ≡ longest ((key, num) ∷ es) = ground arith in
    inr (k, n, mem-cons_of_mem (key, num) m, e ∙ l, omega arith, same ∙ ap (with_length k n) l)

best_of-Finds : (es : List (ℕ × ℕ)) (b : Best) → Finds b (best_of es b) es
unfolding best_of
best_of-Finds [] b = nothing_found b
best_of-Finds ((key, num) ∷ es) b = elim (Bool-cases (leb b.longest_prefix_length (key % 2 ^ 32))) [
  | inl h ↦
      subst (λ c. Finds b (best_of es (if c then at_route key num else b)) ((key, num) ∷ es))
        (sym h)
        (Finds-taken b (best_of es (at_route key num)) key num es
          (leb→le b.longest_prefix_length (key % 2 ^ 32) h) (best_of-Finds es (at_route key num)))
  | inr h ↦
      subst (λ c. Finds b (best_of es (if c then at_route key num else b)) ((key, num) ∷ es))
        (sym h) (Finds-skipped b (best_of es b) key num es (ground arith) (best_of-Finds es b))
]

-- look_up finds nothing exactly if no route covers the address, and otherwise the interface and
-- the next hop of a covering route with the longest prefix, in whatever order the routes come;
-- every route's prefix length is at most 32.
pub look_up-longest :
    (ip : ℕ) (t : RouteTable)
    → All IsRoute t.entries
    → ((look_up ip t ≡ none) × (covering ip t.entries ≡ []))
      ⊎ ((key num : ℕ) × Mem (key, num) (covering ip t.entries)
          × (key % 2 ^ 32 ≡ longest (covering ip t.entries))
          × (look_up ip t ≡ some (num, lookup key t.next_hops)))
unfolding look_up Finds
look_up-longest ip t h =
    let result : Best → Option (ℕ × Option ℕ) =
      λ b. if b.matched then some (b.num, lookup b.key t.next_hops) else none in
    let same = best-covering ip t.entries no_match h in
    elim (best_of-Finds (covering ip t.entries) no_match) [
      | inl (e, inl nothing) ↦ inl (ap result (same ∙ e), nothing)
      | inl (e, inr shorter) ↦ absurd (omega arith)
      | inr (key, num, m, e, le, found) ↦ inr (key, num, m, e, ap result (same ∙ found))
    ]

pub add_route-IsRoute :
    (route_prefix prefix_length : ℕ) (next_hop : Option ℕ) (num : ℕ) (r : Router)
    → prefix_length ≤ 32
    → All IsRoute r.route_table.entries
    → All IsRoute (add_route route_prefix prefix_length next_hop num r).route_table.entries
unfolding IsRoute add_route insert
add_route-IsRoute route_prefix prefix_length next_hop num r h hs =
    assign-All IsRoute (route_prefix * 2 ^ 32 + prefix_length) num r.route_table.entries
      (omega arith) hs
