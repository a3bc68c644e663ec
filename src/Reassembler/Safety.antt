-- ===== src/Reassembler/Safety.antt =====
-- insert of src/reassembler.cc writes the stream's own bytes, in order.
use cs144_minnow.Base.{
  ℕ, suc, ◌+◌, ◌-◌, ◌≤◌, ◌<◌, ◌≡◌, sym, subst, inl, inr, ◌^◌, Bool, true, false, not, ◌&&◌,
  Bool-cases, leb, ◌==◌, List, [], ◌∷◌, arith, min, length, take, drop, u64, sub64, length-take,
  length-drop, length-append,
}
use cs144_minnow.Stream.{ByteStream, IsValid, available_capacity, push, close}
use cs144_minnow.Stream.Laws.{push-IsValid, available-IsValid}
use cs144_minnow.Reassembler.{
  Reassembler, Entry, write_to_stream, clamp_end, clamp_begin, store, insert_to_buffer, close_at,
  insert,
}
use cs144_minnow.Reassembler.Chain.{
  Chain, Cut, StrictCut, total, Agree, AllAgree, Chain-mono, Agree-take, Agree-drop, Agree-append,
}
use cs144_minnow.Reassembler.Clamp.{clamp_end-EndFits, clamp_begin-BeginFits}
use cs144_minnow.Reassembler.Splice.{splice-Chain, splice-AllAgree, splice-total}

-- The stream carries the bytes of src: byte number i of all that was pushed is src i.
pub record Carries (src : ℕ → ℕ) (out : ByteStream) : Type 0 where
  pub valid : IsValid out
  pub sum : out.bytes_pushed ≡ out.bytes_popped + length out.buffer
  pub agrees : Agree src out.bytes_popped out.buffer
  pub fits : out.bytes_pushed + (out.capacity - length out.buffer) < 2 ^ 64

pub push-Carries :
    (src : ℕ → ℕ) (bytes : List ℕ) (out : ByteStream)
    → Carries src out
    → Agree src out.bytes_pushed bytes
    → Carries src (push bytes out)
push-Carries src bytes out c a =
    let n = min (length bytes) (available_capacity out) in
    let v = push-IsValid bytes out c.valid in
    unfold push in
    record {
      valid = v;
      sum = omega (
        arith,
        c.sum,
        length-append out.buffer (take n bytes),
        length-take n bytes,
        available-IsValid out c.valid,
        c.fits,
      );
      agrees =
          Agree-append src out.bytes_popped out.bytes_pushed out.buffer (take n bytes)
            (omega (arith, c.sum)) c.agrees (Agree-take src n out.bytes_pushed bytes a);
      fits = omega (
        arith,
        c.sum,
        length-append out.buffer (take n bytes),
        length-take n bytes,
        available-IsValid out c.valid,
        c.fits,
        c.valid.within,
      );
    }

pub pushed-push :
    (src : ℕ → ℕ) (bytes : List ℕ) (out : ByteStream)
    → Carries src out
    → (push bytes out).bytes_pushed
      ≡ out.bytes_pushed + min (length bytes) (out.capacity - length out.buffer)
unfolding push
pushed-push src bytes out c = omega (arith, available-IsValid out c.valid, c.fits)

-- The stored substrings lie behind what was pushed, are those of src, and are counted.
pub record Stored (src : ℕ → ℕ) (m : List Entry) (pending : ℕ) (out : ByteStream) : Type 0 where
  pub chain : Chain (suc out.bytes_pushed) m
  pub agrees : AllAgree src m
  pub counted : pending ≡ u64 (total m)
  pub output : Carries src out

write_to_stream-Stored :
    (src : ℕ → ℕ) (m : List Entry) (pending : ℕ) (out : ByteStream)
    → Chain out.bytes_pushed m
    → AllAgree src m
    → pending ≡ u64 (total m)
    → Carries src out
    → let r = write_to_stream m pending out in Stored src r.0 r.1 r.2
unfolding write_to_stream
write_to_stream-Stored src [] pending out c a t o = record {
  chain = tt;
  agrees = tt;
  counted = t;
  output = o;
}
write_to_stream-Stored src (e ∷ m) pending out c a t o =
    elim (Bool-cases (e.first == out.bytes_pushed)) [
      | inl q ↦
          let eq : e.first ≡ out.bytes_pushed = ground arith in
          rw q (
            write_to_stream-Stored src m (sub64 pending (length e.second)) (push e.second out)
              (Chain-mono m (omega (arith, pushed-push src e.second out o, eq)) c.3) a.1
              (omega arith)
              (push-Carries src e.second out o (subst (λ k. Agree src k e.second) eq a.0)))
      | inr f ↦
          rw f
            (record { chain = (ground arith, c.1, c.2, c.3); agrees = a; counted = t; output = o })
    ]

-- The three ways through insert_to_buffer.
module _ (past_end ab len fi : ℕ) (bytes : List ℕ) (m : List Entry) (p : ℕ) where
  pub insert_early :
      leb (u64 (ab + len)) fi ≡ true → insert_to_buffer past_end ab len fi bytes m p ≡ (m, p)
  unfolding insert_to_buffer
  insert_early q = rw q

  pub insert_known :
      leb (clamp_end (u64 (ab + len)) (u64 (fi + length bytes)) m) (clamp_begin past_end ab fi m)
        ≡ true
      → insert_to_buffer past_end ab len fi bytes m p ≡ (m, p)
  unfolding insert_to_buffer
  insert_known q = elim (Bool-cases (leb (u64 (ab + len)) fi)) [ inl t ↦ rw t | inr f ↦ rw (f, q) ]

  pub insert_stores :
      leb (u64 (ab + len)) fi ≡ false
      → leb (clamp_end (u64 (ab + len)) (u64 (fi + length bytes)) m) (clamp_begin past_end ab fi m)
        ≡ false
      → insert_to_buffer past_end ab len fi bytes m p
        ≡ store
            (clamp_begin past_end ab fi m)
            (clamp_end (u64 (ab + len)) (u64 (fi + length bytes)) m)
            fi
            bytes
            m
            p
  unfolding insert_to_buffer
  insert_stores f q = rw (f, q)

-- The cut data: what is left of bytes between the clamped bounds.
abbrev pub cut_bytes : ℕ → ℕ → ℕ → List ℕ → List ℕ
cut_bytes cb ce fi bytes = drop (cb - fi) (take (ce - fi) bytes)

module _ (src : ℕ → ℕ) (cb ce fi : ℕ) (bytes : List ℕ) (above : fi ≤ cb) (some_bytes : cb < ce)
    (below : ce ≤ fi + length bytes) (word : fi + length bytes < 2 ^ 64) where
  pub length-cut_bytes : cb + length (cut_bytes cb ce fi bytes) ≡ ce
  length-cut_bytes =
      omega (arith, length-drop (cb - fi) (take (ce - fi) bytes), length-take (ce - fi) bytes)

  abbrev pub new_entry : Entry
  new_entry = record { first = cb; second = cut_bytes cb ce fi bytes }

  cut_bytes-Agree : Agree src fi bytes → Agree src cb (cut_bytes cb ce fi bytes)
  cut_bytes-Agree a =
      Agree-drop src (cb - fi) fi cb (take (ce - fi) bytes) (omega arith)
        (Agree-take src (ce - fi) fi bytes a)

  -- The map after store, as far as the next step needs it.
  store-Chain :
      (lo p : ℕ) (m : List Entry)
      → Chain lo m
      → lo ≤ cb
      → StrictCut cb m
      → Cut ce m
      → Chain lo (store cb ce fi bytes m p).0
  unfolding store
  store-Chain lo p m c h s d =
      splice-Chain new_entry (omega (arith, length-cut_bytes)) (omega (arith, length-cut_bytes)) lo
        _ m c h s (subst (λ x. Cut x m) (sym length-cut_bytes) d)

  store-AllAgree :
      (lo p : ℕ) (m : List Entry)
      → Chain lo m
      → StrictCut cb m
      → Agree src fi bytes
      → AllAgree src m
      → AllAgree src (store cb ce fi bytes m p).0
  unfolding store
  store-AllAgree lo p m c s a b =
      splice-AllAgree new_entry (omega (arith, length-cut_bytes)) (omega (arith, length-cut_bytes))
        src lo _ m c s (cut_bytes-Agree a) b

  store-total :
      (lo p : ℕ) (m : List Entry)
      → Chain lo m
      → StrictCut cb m
      → p ≡ u64 (total m)
      → (store cb ce fi bytes m p).1 ≡ u64 (total (store cb ce fi bytes m p).0)
  unfolding store
  store-total lo p m c s h = omega (
    arith,
    splice-total new_entry (omega (arith, length-cut_bytes)) (omega (arith, length-cut_bytes)) 0 lo
        (u64 (p + length (cut_bytes cb ce fi bytes))) m c s (omega arith),
  )

pub record Buffered (src : ℕ → ℕ) (lo : ℕ) (r : List Entry × ℕ) : Type 0 where
  pub chain : Chain lo r.0
  pub agrees : AllAgree src r.0
  pub counted : r.1 ≡ u64 (total r.0)

-- The parts of insert_to_buffer as its result is split on below.
abbrev pub begin_of : ℕ → ℕ → ℕ → List Entry → ℕ
begin_of past_end ab fi m = clamp_begin past_end ab fi m

abbrev pub end_of : ℕ → ℕ → ℕ → List ℕ → List Entry → ℕ
end_of ab len fi bytes m = clamp_end (u64 (ab + len)) (u64 (fi + length bytes)) m

pub insert_to_buffer-Buffered :
    (src : ℕ → ℕ) (past_end ab len fi : ℕ) (bytes : List ℕ) (m : List Entry) (p : ℕ)
    → fi + length bytes < 2 ^ 64
    → Chain (suc ab) m
    → Agree src fi bytes
    → AllAgree src m
    → p ≡ u64 (total m)
    → Buffered src ab (insert_to_buffer past_end ab len fi bytes m p)
insert_to_buffer-Buffered src past_end ab len fi bytes m p w c a b t =
    let cb = clamp_begin past_end ab fi m in
    let ae = u64 (ab + len) in
    let ei = u64 (fi + length bytes) in
    let ce = clamp_end ae ei m in
    let kept : Buffered src ab (m, p) = record {
      chain = Chain-mono m (omega arith) c;
      agrees = b;
      counted = t;
    } in
    let bf = clamp_begin-BeginFits past_end ab fi m c in
    let ef = clamp_end-EndFits (suc ab) ae ei m c in
    let c' : Chain ab m = Chain-mono m (omega arith) c in
    elim (Bool-cases (leb ae fi)) [
      | inl q ↦ rw (insert_early past_end ab len fi bytes m p q) kept
      | inr f ↦ elim (Bool-cases (leb ce cb)) [
        | inl q ↦ rw (insert_known past_end ab len fi bytes m p q) kept
        | inr g ↦
            let h : cb < ce = ground arith in
            let below : ce ≤ fi + length bytes = omega (arith, ef.below) in
            rw (insert_stores past_end ab len fi bytes m p f g) (record {
              chain =
                  store-Chain src cb ce fi bytes bf.above h below w ab p m c' bf.accepted bf.cut
                    ef.cut;
              agrees = store-AllAgree src cb ce fi bytes bf.above h below w ab p m c' bf.cut a b;
              counted = store-total src cb ce fi bytes bf.above h below w ab p m c' bf.cut t;
            })
      ]
    ]

close_at-Stored :
    (src : ℕ → ℕ) (m : List Entry) (p stream_end : ℕ) (out : ByteStream)
    → Stored src m p out
    → Stored src m p (close_at stream_end out)
unfolding close_at close
close_at-Stored src m p stream_end out s =
    elim (Bool-cases (out.bytes_pushed == stream_end && not out.is_close)) [
      | inr f ↦ rw f s
      | inl t ↦ rw t (record {
        chain = s.chain;
        agrees = s.agrees;
        counted = s.counted;
        output = record {
          valid = record {
            word = s.output.valid.word;
            within = s.output.valid.within;
            popped = s.output.valid.popped;
            counted = s.output.valid.counted;
          };
          sum = s.output.sum;
          agrees = s.output.agrees;
          fits = s.output.fits;
        };
      })
    ]

-- Where m_buf and the stream hold bytes of src and a substring of src that ends below 2^64 is
-- inserted, the same holds afterwards: the substrings stored are disjoint, ordered, not empty, all
-- behind what was pushed, and of src; m_bytes_pending is their length modulo 2^64; and the stream
-- is valid and carries the bytes of src, in order from the first.
pub insert-Stored :
    (src : ℕ → ℕ) (past_end fi : ℕ) (bytes : List ℕ) (last : Bool) (r : Reassembler)
    (out : ByteStream)
    → fi + length bytes < 2 ^ 64
    → Agree src fi bytes
    → Stored src r.m_buf r.m_bytes_pending out
    → let q = insert past_end fi bytes last r out in Stored src q.0.m_buf q.0.m_bytes_pending q.1
unfolding insert
insert-Stored src past_end fi bytes last r out w a s =
    let b =
      insert_to_buffer-Buffered src past_end out.bytes_pushed (available_capacity out) fi bytes
        r.m_buf r.m_bytes_pending w s.chain a s.agrees s.counted in
    close_at-Stored src _ _ _ _
      (write_to_stream-Stored src _ _ out b.chain b.agrees b.counted s.output)
