-- ===== src/Cluster/Hello.antt =====
-- src/cluster/ds4_hello.rs: the frame with which a worker greets the coordinator, and the checks that
-- admit it. Bytes are numbers below 256.
pub mod Bytes
pub mod Build
pub mod Checks
pub mod Parse
pub mod Reader
pub mod Rendezvous
use siderostat.Prelude.{
  ℕ, ◌+◌, Bool, true, false, not, ◌&&◌, ◌||◌, Option, none, some, List, [], ◌∷◌, ◌++◌,
  if◌then◌else◌, ◌==◌, ltb, leb, length, take, drop,
}
use Bytes.{be32, word, is_utf8}

pub record Ds4Hello : Type 0 where
  pub model_id : ℕ  -- u32
  pub quant_bits : ℕ  -- u32
  pub layer_start : ℕ  -- u32
  pub layer_end : ℕ  -- u32
  pub has_output : Bool
  pub has_hidden : Bool
  pub context_size : ℕ  -- u32
  pub layer_count : ℕ  -- u32
  pub listen_port : ℕ  -- u16
  pub model_name : List ℕ  -- the bytes of the string

-- Without `Io`, for an error of the socket.
pub data Ds4HelloError : Type 0 where
  timeout truncated invalid_magic invalid_kind invalid_size model_name_too_long : Ds4HelloError
  invalid_model_name invalid_field trailing_data wrong_state wrong_bind_address : Ds4HelloError
  wrong_source invalid_lease generation_changed deployment_mismatch : Ds4HelloError
  layer_mismatch context_mismatch model_mismatch : Ds4HelloError

-- What the source writes `Result<T, Ds4HelloError>`; `?` is the bind.
pub data Result (T : Type 0) : Type 0 where
  err : Ds4HelloError → Result T
  ok : T → Result T

infixl 5 ◌>>=◌ ◌>>◌
abbrev pub ◌>>=◌ : {T S : Type 0} → Result T → (T → Result S) → Result S
err failure >>= next = err failure
ok value >>= next = next value

abbrev pub ◌>>◌ : {T S : Type 0} → Result T → Result S → Result S
err failure >> next = err failure
ok _ >> next = next

-- An early return with an error.
abbrev pub fail_if : Bool → Ds4HelloError → Result (Unit {0})
fail_if true e = err e
fail_if false e = ok tt

abbrev pub magic : ℕ
magic = 0x44533444

abbrev pub hello_kind : ℕ
hello_kind = 1

abbrev pub header_bytes : ℕ
header_bytes = 12

abbrev pub hello_fixed_bytes : ℕ
hello_fixed_bytes = 40

abbrev pub hello_max_model_name_bytes : ℕ
hello_max_model_name_bytes = 127

-- `read_u32`; its callers have checked the length.
abbrev pub read_u32 : List ℕ → ℕ → ℕ
read_u32 bytes offset = word (drop offset bytes)

abbrev pub bool_field : ℕ → Result Bool
bool_field n = if n == 0 then ok false else if n == 1 then ok true else err invalid_field

-- Is the size of a payload out of the range of hello frames?
abbrev pub is_bad_size : ℕ → Bool
is_bad_size n = ltb n hello_fixed_bytes || ltb (hello_fixed_bytes + hello_max_model_name_bytes) n

abbrev pub is_bad_field : List ℕ → Bool
is_bad_field fixed =
    ltb (read_u32 fixed 12) (read_u32 fixed 8)
    || read_u32 fixed 24 == 0
    || read_u32 fixed 28 == 0
    || read_u32 fixed 32 == 0
    || ltb 65535 (read_u32 fixed 32)
    || read_u32 fixed 36 == 0

-- The hello that `parse_hello_frame` returns.
abbrev pub hello_of : List ℕ → List ℕ → Result Ds4Hello
hello_of fixed name = do
  has_output ← bool_field (read_u32 fixed 16)
  has_hidden ← bool_field (read_u32 fixed 20)
  ok (record {
    model_id = read_u32 fixed 0;
    quant_bits = read_u32 fixed 4;
    layer_start = read_u32 fixed 8;
    layer_end = read_u32 fixed 12;
    has_output = has_output;
    has_hidden = has_hidden;
    context_size = read_u32 fixed 24;
    layer_count = read_u32 fixed 28;
    listen_port = read_u32 fixed 32;
    model_name = name;
  })

-- The part of `parse_hello_frame` after the sizes are checked.
unfoldable pub parse_fields : List ℕ → List ℕ → Result Ds4Hello
parse_fields fixed name = do
  fail_if (is_bad_field fixed) invalid_field
  fail_if (not (is_utf8 name)) invalid_model_name
  hello_of fixed name

-- The checks on the sizes: of the frame's length, the three words of its header and the length of
-- the name, which the parser reads when the checks before it have passed.
unfoldable pub check_sizes : ℕ → ℕ → ℕ → ℕ → ℕ → Result (Unit {0})
check_sizes len found_magic kind payload_bytes model_name_len = do
  fail_if (ltb len header_bytes) truncated
  fail_if (not (found_magic == magic)) invalid_magic
  fail_if (not (kind == hello_kind)) invalid_kind
  fail_if (is_bad_size payload_bytes) invalid_size
  fail_if (ltb len (header_bytes + payload_bytes)) truncated
  fail_if (ltb (header_bytes + payload_bytes) len) trailing_data
  fail_if (ltb hello_max_model_name_bytes model_name_len) model_name_too_long
  fail_if (not (payload_bytes == hello_fixed_bytes + model_name_len)) invalid_size

unfoldable pub parse_hello_frame : List ℕ → Result Ds4Hello
parse_hello_frame frame = do
  let fixed = take hello_fixed_bytes (drop header_bytes frame)
  check_sizes (length frame) (read_u32 frame 0) (read_u32 frame 4) (read_u32 frame 8)
      (read_u32 fixed 36)
  parse_fields fixed (drop (header_bytes + hello_fixed_bytes) frame)

-- What a peer sends: the bytes that arrive before the deadline (of those behind the frame, the ones
-- that are there within the millisecond that the reader waits), and whether the stream then ends.
pub record Stream : Type 0 where
  pub bytes : List ℕ
  pub ended : Bool

-- `read_exact_or_truncated`, under the deadline.
abbrev pub read_exact : Stream → ℕ → Result (Unit {0})
read_exact stream needed =
    fail_if (ltb (length stream.bytes) needed) (if stream.ended then truncated else timeout)

-- `read_hello_frame`; the deadline is in milliseconds. The code's deadline also covers the millisecond
-- in which the reader waits for a byte behind the frame: a frame that is complete in the last
-- millisecond before the deadline may run into it there, which is left out.
unfoldable pub read_hello_frame : Stream → ℕ → Result Ds4Hello
read_hello_frame stream deadline = do
  fail_if (deadline == 0) timeout
  read_exact stream header_bytes
  let payload_bytes = read_u32 stream.bytes 8
  fail_if (is_bad_size payload_bytes) invalid_size
  read_exact stream (header_bytes + payload_bytes)
  fail_if (ltb (header_bytes + payload_bytes) (length stream.bytes)) trailing_data
  parse_hello_frame (take (header_bytes + payload_bytes) stream.bytes)

abbrev pub bool_word : Bool → ℕ
bool_word false = 0
bool_word true = 1

-- The forty bytes, in the order of their offsets.
unfoldable pub fixed_part : Ds4Hello → List ℕ → List ℕ
fixed_part h rest = be32 h.model_id (
    be32 h.quant_bits (
      be32 h.layer_start (
        be32 h.layer_end (
          be32 (bool_word h.has_output) (
            be32 (bool_word h.has_hidden) (
              be32 h.context_size
                (be32 h.layer_count (be32 h.listen_port (be32 (length h.model_name) rest)))))))))

unfoldable pub build_hello_frame : Ds4Hello → List ℕ
unfolding fixed_part
build_hello_frame h =
    be32 magic
      (be32 hello_kind (be32 (hello_fixed_bytes + length h.model_name) (fixed_part h h.model_name)))
