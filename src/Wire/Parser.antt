-- ===== src/Wire/Parser.antt =====
-- util/parser.hh: Parser with its BufferList, and Serializer. A Buffer is the list of its bytes.
use cs144_minnow.Base.{
  ℕ, zero, suc, ◌+◌, ◌-◌, ◌*◌, ◌/◌, ◌%◌, ◌^◌, Bool, true, false, List, [], ◌∷◌, ◌++◌, min, ltb,
  ◌==◌, if◌then◌else◌, length, drop, u8, sub64,
}
use cs144_minnow.Base.Outcome.{Outcome, ok, throws, undefined, ◌>>=◌}

pub record BufferList : Type 0 where
  pub size : ℕ
  pub buffer : List (List ℕ)
  pub skip : ℕ

abbrev pub total_size : List (List ℕ) → ℕ
total_size [] = 0
total_size (b ∷ bs) = length b + total_size bs

-- The constructor appends the buffers one by one.
abbrev pub buffer_list : List (List ℕ) → BufferList
buffer_list bs = record { size = total_size bs; buffer = bs; skip = 0 }

-- The loop of remove_prefix, which ends with len or with the buffers: skip_ and buffer_ after it.
unfoldable pub remove_loop : ℕ → ℕ → List (List ℕ) → ℕ × List (List ℕ)
remove_loop len skip [] = (skip, [])
remove_loop len skip (b ∷ bs) =
    let n = min len (length b - skip) in
    let rest = remove_loop (len - n) 0 bs in
    if len == 0 then (skip, b ∷ bs) else (if skip + n == length b then rest else (skip + n, b ∷ bs))

-- What is left of the buffers from skip on.
abbrev pub left_size : ℕ × List (List ℕ) → ℕ
left_size (skip, bs) = total_size bs - skip

unfoldable pub remove_prefix : ℕ → BufferList → BufferList
unfolding remove_loop
remove_prefix len l =
    let r = remove_loop len l.skip l.buffer in
    record {
      size = sub64 l.size (left_size (l.skip, l.buffer) - left_size r);
      buffer = r.1;
      skip = r.0;
    }

-- peek().front(): an exception without a buffer, undefined at the end of one.
abbrev pub front : List ℕ → Outcome ℕ
front [] = undefined
front (b ∷ bs) = ok b

abbrev pub peek_front : List (List ℕ) → ℕ → Outcome ℕ
peek_front [] skip = throws
peek_front (b ∷ bs) skip = front (drop skip b)

pub record Parser : Type 0 where
  pub input : BufferList
  pub error : Bool

abbrev pub parser_of : List (List ℕ) → Parser
parser_of bs = record { input = buffer_list bs; error = false }

abbrev pub set_error : Parser → Parser
set_error p = record p { error = true }

abbrev pub check_size : ℕ → Parser → Parser
check_size size p = if ltb p.input.size size then set_error p else p

-- One byte: out = (out << 8) | byte, in an integer of the given width.
abbrev pub shift_in : ℕ → ℕ → ℕ → ℕ
shift_in width out byte = out * 256 % 2 ^ (8 * width) + byte

unfoldable pub read_bytes : ℕ → ℕ → ℕ → Parser → Outcome (ℕ × Parser)
read_bytes zero width out p = ok (out, p)
read_bytes (suc n) width out p = peek_front p.input.buffer p.input.skip >>= λ byte.
    read_bytes n width (shift_in width out byte) (record p { input = remove_prefix 1 p.input })

-- integer for sizeof( T ) = width: out keeps its former value on an error.
unfoldable pub integer : ℕ → ℕ → Parser → Outcome (ℕ × Parser)
unfolding read_bytes
integer width out p =
    let p' = check_size width p in if p'.error then ok (out, p') else read_bytes width width 0 p'

-- for ( auto& b : address ) parser.integer( b );
unfoldable pub integers : List ℕ → Parser → Outcome (List ℕ × Parser)
unfolding integer
integers [] p = ok ([], p)
integers (b ∷ bs) p = integer 1 b p >>= λ r. (integers bs r.1 >>= λ q. ok (r.0 ∷ q.0, q.1))

-- dump_all into a vector: the first buffer from skip_ on, and the others.
abbrev pub dump_buffers : ℕ → List (List ℕ) → List (List ℕ)
dump_buffers skip [] = []
dump_buffers skip (b ∷ bs) = drop skip b ∷ bs

abbrev pub all_remaining : Parser → List (List ℕ)
all_remaining p = if p.input.size == 0 then [] else dump_buffers p.input.skip p.input.buffer

-- dump_all into one Buffer.
abbrev pub concat : List (List ℕ) → List ℕ
concat [] = []
concat (b ∷ bs) = b ++ concat bs

pub record Serializer : Type 0 where
  pub output : List (List ℕ)
  pub buffer : List ℕ

abbrev pub serializer : Serializer
serializer = record { output = []; buffer = [] }

-- The bytes of an integer, the highest first.
unfoldable pub bytes_of : ℕ → ℕ → List ℕ
bytes_of zero val = []
bytes_of (suc n) val = u8 (val / 2 ^ (8 * n)) ∷ bytes_of n val

abbrev pub put_integer : ℕ → ℕ → Serializer → Serializer
put_integer width val s = record s { buffer = s.buffer ++ bytes_of width val }

abbrev pub put_integers : List ℕ → Serializer → Serializer
put_integers [] s = s
put_integers (b ∷ bs) s = put_integers bs (put_integer 1 b s)

abbrev pub flush : Serializer → Serializer
flush s = record { output = s.output ++ (s.buffer ∷ []); buffer = [] }

abbrev pub put_buffer : List ℕ → Serializer → Serializer
put_buffer b s = let f = flush s in record f { output = f.output ++ (b ∷ []) }

abbrev pub put_buffers : List (List ℕ) → Serializer → Serializer
put_buffers [] s = s
put_buffers (b ∷ bs) s = put_buffers bs (put_buffer b s)

-- serialize( obj ): what output() returns.
abbrev pub output_of : Serializer → List (List ℕ)
output_of s = (flush s).output
