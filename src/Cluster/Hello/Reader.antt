-- ===== src/Cluster/Hello/Reader.antt =====
-- The reader of a stream and the parser of a frame agree.
use siderostat.Prelude.{
  ℕ, ◌+◌, false, ◌≡◌, ◌≢◌, ◌↔◌, sym, ap, ◌∙◌, List, length, take, arith, if◌then◌else◌, ltb, ◌==◌,
}
use siderostat.Cluster.Hello.{
  Ds4Hello, Ds4HelloError, Result, ok, ◌>>◌, fail_if, parse_hello_frame, Stream, read_hello_frame,
  read_u32, is_bad_size, timeout, truncated, invalid_size, trailing_data,
}
use siderostat.Cluster.Hello.Bytes.{take-all}
use siderostat.Cluster.Hello.Parse.{parse_hello_frame-Parsed, Parsed}

reader_pass :
    (short : Ds4HelloError) (len size deadline : ℕ) (k : Result Ds4Hello)
    → deadline ≢ 0
    → len ≡ 12 + size
    → is_bad_size size ≡ false
    → (do
      fail_if (deadline == 0) timeout
      fail_if (ltb len 12) short
      fail_if (is_bad_size size) invalid_size
      fail_if (ltb len (12 + size)) short
      fail_if (ltb (12 + size) len) trailing_data
      k)
      ≡ k
reader_pass short len size deadline k hd hl hs = ground arith

read_hello_frame-sized :
    (s : Stream) (deadline : ℕ)
    → deadline ≢ 0
    → length s.bytes ≡ 12 + read_u32 s.bytes 8
    → is_bad_size (read_u32 s.bytes 8) ≡ false
    → read_hello_frame s deadline ≡ parse_hello_frame s.bytes
unfolding read_hello_frame
read_hello_frame-sized s deadline hd hl hs =
    reader_pass (if s.ended then truncated else timeout) (length s.bytes) (read_u32 s.bytes 8)
      deadline (parse_hello_frame (take (12 + read_u32 s.bytes 8) s.bytes)) hd hl hs
    ∙ ap parse_hello_frame (take-all (12 + read_u32 s.bytes 8) s.bytes (omega arith))

read_hello_frame-exact :
    (s : Stream) (deadline : ℕ) (h : Ds4Hello)
    → read_hello_frame s deadline ≡ ok h
    → (deadline ≢ 0)
      × (length s.bytes ≡ 12 + read_u32 s.bytes 8)
      × (is_bad_size (read_u32 s.bytes 8) ≡ false)
unfolding read_hello_frame
read_hello_frame-exact s deadline h p = (ground arith, ground arith, ground arith)

Parsed-sized :
    (f : List ℕ) (h : Ds4Hello)
    → Parsed f h
    → (length f ≡ 12 + read_u32 f 8) × (is_bad_size (read_u32 f 8) ≡ false)
Parsed-sized f h p = (
  omega (arith, p.sizes.has_length, p.sizes.has_size),
  ground (arith, p.sizes.has_size, p.sizes.name_short),
)

-- The reader returns a hello exactly when its deadline is not zero and the bytes that arrive, all of
-- them, are a frame from which the parser reads that hello.
pub read_hello_frame_iff :
    (s : Stream) (deadline : ℕ) (h : Ds4Hello)
    → read_hello_frame s deadline ≡ ok h ↔ (deadline ≢ 0) × (parse_hello_frame s.bytes ≡ ok h)
read_hello_frame_iff s deadline h = (
  (λ p.
      let e = read_hello_frame-exact s deadline h p in
      (e.0, sym (read_hello_frame-sized s deadline e.0 e.1 e.2) ∙ p)),
  (λ q.
      let e = Parsed-sized s.bytes h (parse_hello_frame-Parsed s.bytes h q.1) in
      read_hello_frame-sized s deadline q.0 e.0 e.1 ∙ q.1),
)
