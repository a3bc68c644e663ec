-- ===== src/Host/Logs.antt =====
-- What reads and writes of a descriptor do to the system's record of bytes (util/file_descriptor.cc).
use cs144_minnow.Base.{
  ℕ, zero, suc, ◌≤◌, ◌<◌, ◌≡◌, ◌≢◌, refl, ap, subst, ◌∙◌, Bool, true, false, not, ◌&&◌, Bool-cases,
  inl, inr, List, [], ◌++◌, arith, test_self, ltb, ◌==◌, if◌then◌else◌, length, take,
}
use cs144_minnow.Base.Outcome.{ok, throws}
use cs144_minnow.Host.After.{After, After-if, After-bind, After-any}
use cs144_minnow.Host.Descriptor.{
  shut_rd, shut_wr, shut_rdwr, register_shutdown, Errno, Call, returned, failed, Read, got, refused,
  System, How, FdWrapper, would_block, check_system_call, zeros, read_result, write_result, read,
  write, close, shutdown,
}

abbrev pub bytes_read : Read → List ℕ
bytes_read (got bytes) = bytes
bytes_read (refused e) = []

abbrev pub bytes_written : Call → List ℕ → List ℕ
bytes_written (returned n) bytes = take n bytes
bytes_written (failed e) bytes = []

-- The bytes that each descriptor has given to read and taken from write, as read(2) and write(2) say.
pub record Log {E : Type 0} (sys : System E) : Type 1 where
  pub taken : ℕ → E → List ℕ
  pub given : ℕ → E → List ℕ
  pub taken-read :
      (fd fd' n : ℕ) (e : E)
      → taken fd' (sys.read fd n e).1
        ≡ (if fd == fd' then taken fd' e ++ bytes_read (sys.read fd n e).0 else taken fd' e)
  pub given-read : (fd fd' n : ℕ) (e : E) → given fd' (sys.read fd n e).1 ≡ given fd' e
  pub taken-write :
      (fd fd' : ℕ) (bytes : List ℕ) (e : E) → taken fd' (sys.write fd bytes e).1 ≡ taken fd' e
  pub given-write :
      (fd fd' : ℕ) (bytes : List ℕ) (e : E)
      → given fd' (sys.write fd bytes e).1 ≡ (
          if fd == fd'
          then given fd' e ++ bytes_written (sys.write fd bytes e).0 bytes
          else given fd' e)
  pub taken-close : (fd fd' : ℕ) (e : E) → taken fd' (sys.close fd e).1 ≡ taken fd' e
  pub given-close : (fd fd' : ℕ) (e : E) → given fd' (sys.close fd e).1 ≡ given fd' e
  pub taken-shutdown :
      (fd fd' : ℕ) (how : How) (e : E) → taken fd' (sys.shutdown fd how e).1 ≡ taken fd' e
  pub given-shutdown :
      (fd fd' : ℕ) (how : How) (e : E) → given fd' (sys.shutdown fd how e).1 ≡ given fd' e

-- A read of the descriptor does not find that it would block.
abbrev pub HasInput : {E : Type 0} → System E → ℕ → E → Type 0
HasInput {E} sys fd e =
    (n : ℕ) (errno : Errno) (e' : E)
    → sys.read fd n e ≡ (refused errno, e')
    → would_block errno ≡ false

other : (m n : ℕ) → m ≢ n → (m == n) ≡ false
other m n h = ground arith

pub length-zeros : (n : ℕ) → length (zeros n) ≡ n
unfolding zeros
length-zeros zero = refl
length-zeros (suc n) = ap suc (length-zeros n)

read_result-After :
    (buffer : List ℕ) (result : Read) (d : FdWrapper)
    → ((errno : Errno) → result ≡ refused errno → would_block errno ≡ false)
    → After
        (λ (r : List ℕ × FdWrapper).
          (r.1.fd ≡ d.fd) × (result ≡ got r.0) × (length r.0 ≤ length buffer))
        (read_result buffer result d)
unfolding read_result
read_result-After buffer (refused errno) d never = rw (never errno refl) (stays d.non_blocking)
  where
    stays :
        (b : Bool)
        → After
            (λ (r : List ℕ × FdWrapper).
              (r.1.fd ≡ d.fd) × (refused errno ≡ got r.0) × (length r.0 ≤ length buffer))
            (if b && false then ok (buffer, d) else throws)
    stays true = tt
    stays false = tt
read_result-After buffer (got bytes) d never =
    After-if _ (ltb (length buffer) (length bytes)) throws _ (λ _. tt)
      (λ e. (ground arith, refl, ltb→le buffer bytes e))
  where
    ltb→le : (xs ys : List ℕ) → ltb (length xs) (length ys) ≡ false → length ys ≤ length xs
    ltb→le xs ys e = ground arith

write_result-After :
    (bytes : List ℕ) (result : Call) (d : FdWrapper)
    → After
        (λ (r : ℕ × FdWrapper).
          (r.1.fd ≡ d.fd) × (bytes_written result bytes ≡ take r.0 bytes) × (r.0 ≤ length bytes))
        (write_result bytes result d)
unfolding write_result check_system_call
write_result-After bytes (returned n) d =
    After-if _ (n == 0 && not (length bytes == 0)) throws _ (λ _. tt)
      (λ _. After-if _ (ltb (length bytes) n) throws _ (λ _. tt) (λ e. (refl, refl, ground arith)))
write_result-After bytes (failed errno) d =
    elim (Bool-cases (d.non_blocking && would_block errno)) [
      | inl b ↦ rw b (
          After-if _ (0 == 0 && not (length bytes == 0)) throws _ (λ _. tt)
            (λ _.
              After-if _ (ltb (length bytes) 0) throws _ (λ _. tt)
                (λ _. (refl, refl, omega arith))))
      | inr b ↦ rw b tt
    ]

module _ {E : Type 0} (sys : System E) where
  -- A read into a buffer of n bytes.
  pub read-After :
      (n : ℕ) (d : FdWrapper) (e : E)
      → 0 < n
      → HasInput sys d.fd e
      → After
          (λ (r : List ℕ × FdWrapper × E).
            (r.1.fd ≡ d.fd)
            × (sys.read d.fd (length (zeros n)) e ≡ (got r.0, r.2))
            × (length r.0 ≤ n))
          (read sys (zeros n) d e)
  unfolding read zeros
  read-After zero d e h never = absurd (omega arith)
  read-After (suc n) d e h never =
      let (result, e') = sys.read d.fd (length (zeros (suc n))) e in
      After-bind _ _ (read_result (zeros (suc n)) result d) _
        (read_result-After (zeros (suc n)) result d
          (λ errno q. never (length (zeros (suc n))) errno e' (ap (λ x. (x, e')) q)))
        (λ r (fd, q, le). (fd, ap (λ x. (x, e')) q, omega (arith, length-zeros (suc n))))

  pub write-After :
      (bytes : List ℕ) (d : FdWrapper) (e : E)
      → After
          (λ (r : ℕ × FdWrapper × E).
            (r.1.fd ≡ d.fd)
            × (bytes_written (sys.write d.fd bytes e).0 bytes ≡ take r.0 bytes)
            × (r.0 ≤ length bytes)
            × (r.2 ≡ (sys.write d.fd bytes e).1))
          (write sys bytes d e)
  unfolding write
  write-After bytes d e =
      let (result, e') = sys.write d.fd bytes e in
      After-bind _ _ (write_result bytes result d) _ (write_result-After bytes result d)
        (λ r (fd, q, le). (fd, q, le, refl))

  pub shutdown-After :
      (how : How) (d : FdWrapper) (e : E)
      → After
          (λ (r : FdWrapper × E). (r.0.fd ≡ d.fd) × (r.1 ≡ (sys.shutdown d.fd how e).1))
          (shutdown sys how d e)
  unfolding shutdown
  shutdown-After how d e =
      let (result, e') = sys.shutdown d.fd how e in
      let checked = check_system_call result d in
      After-bind _ (λ _. Unit {0}) checked _ (After-any (Unit {0}) checked tt)
        (λ n _. (registered how, refl))
    where
      registered : (how : How) → (register_shutdown how d).fd ≡ d.fd
      registered shut_rd = refl
      registered shut_wr = refl
      registered shut_rdwr = refl

  pub close-After :
      (d : FdWrapper) (e : E)
      → After
          (λ (r : FdWrapper × E). (r.0.fd ≡ d.fd) × (r.1 ≡ (sys.close d.fd e).1))
          (close sys d e)
  unfolding close
  close-After d e =
      let (result, e') = sys.close d.fd e in
      let checked = check_system_call result d in
      After-bind _ (λ _. Unit {0}) checked _ (After-any (Unit {0}) checked tt) (λ n _. (refl, refl))

  module _ (log : Log sys) where
    pub reads :
        (fd n : ℕ) (e : E) {bytes : List ℕ} {e' : E}
        → sys.read fd n e ≡ (got bytes, e')
        → (log.taken fd e' ≡ log.taken fd e ++ bytes)
          × ((fd' : ℕ) → fd ≢ fd' → log.taken fd' e' ≡ log.taken fd' e)
          × ((fd' : ℕ) → log.given fd' e' ≡ log.given fd' e)
    reads fd n e {bytes} {e'} call =
        let moved = λ (fd' : ℕ).
          subst
            (λ (c : Read × E).
              log.taken fd' c.1
              ≡ (if fd == fd' then log.taken fd' e ++ bytes_read c.0 else log.taken fd' e))
            call (log.taken-read fd fd' n e) in
        (
          moved fd ∙ ap (λ b. if b then log.taken fd e ++ bytes else log.taken fd e) (test_self fd),
          λ fd' ne.
              moved fd'
              ∙ ap (λ b. if b then log.taken fd' e ++ bytes else log.taken fd' e) (other fd fd' ne),
          λ fd'.
              subst (λ (c : Read × E). log.given fd' c.1 ≡ log.given fd' e) call
                (log.given-read fd fd' n e),
        )

    pub writes :
        (fd n : ℕ) (bytes : List ℕ) (e : E)
        → bytes_written (sys.write fd bytes e).0 bytes ≡ take n bytes
        → let e' = (sys.write fd bytes e).1 in
          (log.given fd e' ≡ log.given fd e ++ take n bytes)
          × ((fd' : ℕ) → fd ≢ fd' → log.given fd' e' ≡ log.given fd' e)
    writes fd n bytes e q =
        let result = (sys.write fd bytes e).0 in
        let moved = λ (fd' : ℕ). log.given-write fd fd' bytes e in
        (
          moved fd
              ∙ ap (λ b. if b then log.given fd e ++ bytes_written result bytes else log.given fd e)
                  (test_self fd)
              ∙ ap (λ l. log.given fd e ++ l) q,
          λ fd' ne.
              moved fd'
              ∙ ap
                  (λ b.
                    if b then log.given fd' e ++ bytes_written result bytes else log.given fd' e)
                  (other fd fd' ne),
        )
