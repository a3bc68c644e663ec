-- ===== src/Reassembler/Progress.antt =====
-- insert of src/reassembler.cc loses nothing that fits, and passes bytes on at once.
use cs144_minnow.Base.{
  ℕ, suc, ◌+◌, ◌-◌, ◌≤◌, ◌<◌, ◌≡◌, sym, subst, ◌⊎◌, inl, inr, ◌^◌, Bool, not, ◌&&◌, Bool-cases, leb,
  ltb, ltb→lt, leb→le, true, ◌==◌, List, [], ◌∷◌, arith, min, length, u64, sub64,
}
use cs144_minnow.Stream.{ByteStream, available_capacity, push, close}
use cs144_minnow.Stream.Laws.{available-IsValid, capacity-push, length_buffer-push}
use cs144_minnow.Reassembler.{
  Reassembler, Entry, write_to_stream, clamp_end, clamp_begin, store, insert_to_buffer, close_at,
  insert,
}
use cs144_minnow.Reassembler.Chain.{Chain, StrictCut, Holds, Agree, AllAgree, Chain-mono, Holds-ge}
use cs144_minnow.Reassembler.Clamp.{BeginFits, EndFits, clamp_end-EndFits, clamp_begin-BeginFits}
use cs144_minnow.Reassembler.Splice.{splice-Holds}
use cs144_minnow.Reassembler.Safety.{
  Carries, Stored, pushed-push, push-Carries, new_entry, length-cut_bytes, insert_early,
  insert_known, insert_stores, insert-Stored, insert_to_buffer-Buffered,
}

-- Byte number i was pushed or is stored.
abbrev pub Known : ℕ → List Entry → ByteStream → Type 0
Known i m out = (i < out.bytes_pushed) ⊎ Holds i m

-- The first byte number beyond the stream's available capacity.
abbrev pub limit : ByteStream → ℕ
limit out = out.bytes_pushed + (out.capacity - length out.buffer)

-- Byte number i is one of those that a substring brings.
abbrev pub Brings : ℕ → ℕ → List ℕ → Type 0
Brings i fi bytes = (fi ≤ i) × (i < fi + length bytes)

-- A byte that is brought and can be accepted is stored already, or lies in what is cut out.
placed :
    (ab ae fi cb ce i : ℕ) (bytes : List ℕ) (m : List Entry)
    → BeginFits ab fi m cb
    → EndFits ae (u64 (fi + length bytes)) m ce
    → fi + length bytes < 2 ^ 64
    → ab ≤ i
    → i < ae
    → Brings i fi bytes ⊎ Holds i m
    → ((cb ≤ i) × (i < ce)) ⊎ Holds i m
placed ab ae fi cb ce i bytes m bf ef w lo hi (inr q) = inr q
placed ab ae fi cb ce i bytes m bf ef w lo hi (inl b) = elim (Bool-cases (ltb i cb)) [
  | inl t ↦ inr (bf.held i lo b.0 (ltb→lt _ _ t))
  | inr f ↦ elim (Bool-cases (ltb i ce)) [
    | inl u ↦ inl (ground arith, ltb→lt _ _ u)
    | inr v ↦ elim (ef.held i (ground arith) (omega arith)) [
      | inl x ↦ absurd (omega arith)
      | inr q ↦ inr q
    ]
  ]
]

store-Holds :
    (ab cb ce fi i : ℕ) (bytes : List ℕ) (m : List Entry) (p : ℕ)
    → fi + length bytes < 2 ^ 64
    → Chain (suc ab) m
    → StrictCut cb m
    → fi ≤ cb
    → cb < ce
    → ce ≤ fi + length bytes
    → ((cb ≤ i) × (i < ce)) ⊎ Holds i m
    → Holds i (store cb ce fi bytes m p).0
unfolding store
store-Holds ab cb ce fi i bytes m p w c s above some_bytes below h =
    let e = length-cut_bytes (λ k. 0) cb ce fi bytes above some_bytes below w in
    splice-Holds (new_entry (λ k. 0) cb ce fi bytes above some_bytes below w) (omega (arith, e))
      (omega (arith, e)) i (suc ab) _ m c s
      (subst (λ x. ((cb ≤ i) × (i < x)) ⊎ Holds i m) (sym e) h)

insert_to_buffer-Holds :
    (past_end ab len fi i : ℕ) (bytes : List ℕ) (m : List Entry) (p : ℕ)
    → fi + length bytes < 2 ^ 64
    → Chain (suc ab) m
    → ab ≤ i
    → i < u64 (ab + len)
    → Brings i fi bytes ⊎ Holds i m
    → Holds i (insert_to_buffer past_end ab len fi bytes m p).0
insert_to_buffer-Holds past_end ab len fi i bytes m p w c lo hi h =
    let cb = clamp_begin past_end ab fi m in
    let ae = u64 (ab + len) in
    let ce = clamp_end ae (u64 (fi + length bytes)) m in
    let bf = clamp_begin-BeginFits past_end ab fi m c in
    let ef = clamp_end-EndFits (suc ab) ae (u64 (fi + length bytes)) m c in
    let pl = placed ab ae fi cb ce i bytes m bf ef w lo hi h in
    elim (Bool-cases (leb ae fi)) [
      | inl q ↦ rw (insert_early past_end ab len fi bytes m p q) (not_early q h)
      | inr f ↦ elim (Bool-cases (leb ce cb)) [
        | inl q ↦ rw (insert_known past_end ab len fi bytes m p q) (not_between (leb→le _ _ q) pl)
        | inr g ↦ rw (insert_stores past_end ab len fi bytes m p f g) (
            store-Holds ab cb ce fi i bytes m p w c bf.cut bf.above (ground arith)
              (omega (arith, ef.below)) pl)
      ]
    ]
  where
    not_early : leb (u64 (ab + len)) fi ≡ true → Brings i fi bytes ⊎ Holds i m → Holds i m
    not_early q (inl b) = absurd (omega (arith, leb→le (u64 (ab + len)) fi q))
    not_early q (inr b) = b

    not_between : {lo' hi' : ℕ} → hi' ≤ lo' → ((lo' ≤ i) × (i < hi')) ⊎ Holds i m → Holds i m
    not_between q (inl b) = absurd (omega arith)
    not_between q (inr b) = b

-- What is pushed is taken off the available capacity.
limit-push :
    (src : ℕ → ℕ) (bytes : List ℕ) (out : ByteStream)
    → Carries src out
    → limit (push bytes out) ≡ limit out
limit-push src bytes out o = omega (
  arith,
  pushed-push src bytes out o,
  capacity-push bytes out,
  length_buffer-push bytes out o.valid,
  o.valid.within,
)

write_to_stream-Known :
    (src : ℕ → ℕ) (i : ℕ) (m : List Entry) (pending : ℕ) (out : ByteStream)
    → Chain out.bytes_pushed m
    → AllAgree src m
    → Carries src out
    → i < limit out
    → Known i m out
    → let r = write_to_stream m pending out in Known i r.0 r.2
unfolding write_to_stream
write_to_stream-Known src i [] pending out c a o hi k = k
write_to_stream-Known src i (e ∷ m) pending out c a o hi k =
    elim (Bool-cases (e.first == out.bytes_pushed)) [
      | inl q ↦
          let eq : e.first ≡ out.bytes_pushed = ground arith in
          let out' = push e.second out in
          let n = pushed-push src e.second out o in
          let o' = push-Carries src e.second out o (subst (λ k. Agree src k e.second) eq a.0) in
          rw q (
            write_to_stream-Known src i m (sub64 pending (length e.second)) out'
              (Chain-mono m (omega (arith, n)) c.3) a.1 o'
              (omega (arith, limit-push src e.second out o)) (pushes_or_keeps eq n k))
      | inr f ↦ rw f k
    ]
  where
    pushes_or_keeps :
        e.first ≡ out.bytes_pushed
        → (push e.second out).bytes_pushed
          ≡ out.bytes_pushed + min (length e.second) (out.capacity - length out.buffer)
        → Known i (e ∷ m) out
        → Known i m (push e.second out)
    pushes_or_keeps eq n (inl b) = inl (omega arith)
    pushes_or_keeps eq n (inr (inl b)) = inl (omega arith)
    pushes_or_keeps eq n (inr (inr b)) = inr b

close_at-Known :
    (i stream_end : ℕ) (m : List Entry) (out : ByteStream)
    → Known i m out
    → Known i m (close_at stream_end out)
unfolding close_at close
close_at-Known i stream_end m out k =
    elim (Bool-cases (out.bytes_pushed == stream_end && not out.is_close)) [
      | inl t ↦ rw t k
      | inr f ↦ rw f k
    ]

-- Under the conditions of insert-Stored, each byte number below the stream's limit (what was pushed
-- and the available capacity) that was pushed or stored before, or that the substring brings, is
-- pushed or stored afterwards.
pub insert-Known :
    (src : ℕ → ℕ) (past_end fi i : ℕ) (bytes : List ℕ) (last : Bool) (r : Reassembler)
    (out : ByteStream)
    → fi + length bytes < 2 ^ 64
    → Agree src fi bytes
    → Stored src r.m_buf r.m_bytes_pending out
    → i < limit out
    → Known i r.m_buf out ⊎ Brings i fi bytes
    → let q = insert past_end fi bytes last r out in Known i q.0.m_buf q.1
unfolding insert
insert-Known src past_end fi i bytes last r out w a s hi k =
    let b =
      insert_to_buffer-Buffered src past_end out.bytes_pushed (available_capacity out) fi bytes
        r.m_buf r.m_bytes_pending w s.chain a s.agrees s.counted in
    close_at-Known i _ _ _ (
      write_to_stream-Known src i _ _ out b.chain b.agrees s.output hi
        (elim (Bool-cases (ltb i out.bytes_pushed)) [
          | inl t ↦ inl (ltb→lt _ _ t)
          | inr f ↦ inr (
              insert_to_buffer-Holds past_end out.bytes_pushed (available_capacity out) fi i bytes
                r.m_buf r.m_bytes_pending w s.chain (ground arith)
                (omega (arith, available-IsValid out s.output.valid, s.output.fits))
                (not_pushed (ground arith) k))
        ]))
  where
    not_pushed :
        out.bytes_pushed ≤ i
        → Known i r.m_buf out ⊎ Brings i fi bytes
        → Brings i fi bytes ⊎ Holds i r.m_buf
    not_pushed h (inl (inl p)) = absurd (omega arith)
    not_pushed h (inl (inr p)) = inr p
    not_pushed h (inr p) = inl p

-- Under the same conditions, the byte that the stream waits for after an insertion is neither
-- brought by the substring nor was it stored, unless the stream's available capacity is used up.
pub insert_prompt :
    (src : ℕ → ℕ) (past_end fi : ℕ) (bytes : List ℕ) (last : Bool) (r : Reassembler)
    (out : ByteStream)
    → fi + length bytes < 2 ^ 64
    → Agree src fi bytes
    → Stored src r.m_buf r.m_bytes_pending out
    → let q = insert past_end fi bytes last r out in
      q.1.bytes_pushed < limit out
      → ¬ (Brings q.1.bytes_pushed fi bytes ⊎ Holds q.1.bytes_pushed r.m_buf)
insert_prompt src past_end fi bytes last r out w a s hi k =
    let q = insert past_end fi bytes last r out in
    let i = q.1.bytes_pushed in
    let after = insert-Stored src past_end fi bytes last r out w a s in
    elim (insert-Known src past_end fi i bytes last r out w a s hi
      (elim k [ inl b ↦ inr b | inr h ↦ inl (inr h) ])) [
        | inl p ↦ omega arith
        | inr h ↦ omega (arith, Holds-ge (suc i) i q.0.m_buf after.chain h)
      ]
