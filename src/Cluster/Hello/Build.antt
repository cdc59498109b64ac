-- ===== src/Cluster/Hello/Build.antt =====
-- Of a frame that was built from a hello, the parser gives the hello back.
use siderostat.Prelude.{
  ℕ, ◌+◌, ◌≤◌, ◌<◌, Bool, true, false, ◌≡◌, refl, ap, ◌∙◌, List, [], length, take, drop, arith, not,
}
use siderostat.Cluster.Hello.{
  Ds4Hello, Ds4HelloError, Result, ok, ◌>>=◌, ◌>>◌, fail_if, parse_hello_frame, parse_fields,
  is_bad_field, bool_field, bool_word, read_u32, build_hello_frame, fixed_part, hello_fixed_bytes,
  magic, hello_kind, check_sizes,
}
use siderostat.Cluster.Hello.Bytes.{word-be32, u32_mod, is_utf8}

-- A hello whose numbers fit their types, with the fields that a worker must fill.
pub record IsSendable (h : Ds4Hello) : Type 0 where
  pub model_id_fits : h.model_id < u32_mod
  pub quant_bits_fits : h.quant_bits < u32_mod
  pub layers_ordered : h.layer_start ≤ h.layer_end
  pub layer_end_fits : h.layer_end < u32_mod
  pub context_size_positive : 1 ≤ h.context_size
  pub context_size_fits : h.context_size < u32_mod
  pub layer_count_positive : 1 ≤ h.layer_count
  pub layer_count_fits : h.layer_count < u32_mod
  pub listen_port_positive : 1 ≤ h.listen_port
  pub listen_port_fits : h.listen_port ≤ 65535
  pub name_filled : 1 ≤ length h.model_name
  pub name_fits : length h.model_name ≤ 127
  pub name_utf8 : is_utf8 h.model_name ≡ true

bool_word-lt : (b : Bool) → bool_word b < u32_mod
bool_word-lt true = omega arith
bool_word-lt false = omega arith

bool_field-bool_word : (b : Bool) → bool_field (bool_word b) ≡ ok b
bool_field-bool_word true = refl
bool_field-bool_word false = refl

pass : {A : Type 0} {b : Bool} (e : Ds4HelloError) (r : Result A) → b ≡ false → fail_if b e >> r ≡ r
pass e r h = ap (λ b. fail_if b e >> r) h

-- What the parser reads off the fixed part.
record ReadsBack (h : Ds4Hello) (fixed : List ℕ) : Type 0 where
  r0 : read_u32 fixed 0 ≡ h.model_id
  r4 : read_u32 fixed 4 ≡ h.quant_bits
  r8 : read_u32 fixed 8 ≡ h.layer_start
  r12 : read_u32 fixed 12 ≡ h.layer_end
  r16 : read_u32 fixed 16 ≡ bool_word h.has_output
  r20 : read_u32 fixed 20 ≡ bool_word h.has_hidden
  r24 : read_u32 fixed 24 ≡ h.context_size
  r28 : read_u32 fixed 28 ≡ h.layer_count
  r32 : read_u32 fixed 32 ≡ h.listen_port
  r36 : read_u32 fixed 36 ≡ length h.model_name

fixed_part-ReadsBack : (h : Ds4Hello) → IsSendable h → ReadsBack h (fixed_part h [])
unfolding fixed_part
fixed_part-ReadsBack h s = record {
  r0 = word-be32 h.model_id [] s.model_id_fits;
  r4 = word-be32 h.quant_bits [] s.quant_bits_fits;
  r8 = word-be32 h.layer_start [] (omega (arith, s.layers_ordered, s.layer_end_fits));
  r12 = word-be32 h.layer_end [] s.layer_end_fits;
  r16 = word-be32 (bool_word h.has_output) [] (bool_word-lt h.has_output);
  r20 = word-be32 (bool_word h.has_hidden) [] (bool_word-lt h.has_hidden);
  r24 = word-be32 h.context_size [] s.context_size_fits;
  r28 = word-be32 h.layer_count [] s.layer_count_fits;
  r32 = word-be32 h.listen_port [] (omega (arith, s.listen_port_fits));
  r36 = word-be32 (length h.model_name) [] (omega (arith, s.name_fits));
}

is_bad_field-fixed :
    (h : Ds4Hello) (fixed : List ℕ) → IsSendable h → ReadsBack h fixed → is_bad_field fixed ≡ false
is_bad_field-fixed h fixed s r = ground (
  arith, s.layers_ordered, s.context_size_positive, s.layer_count_positive, s.listen_port_positive,
  s.listen_port_fits, s.name_filled, r.r8, r.r12, r.r24, r.r28, r.r32, r.r36,
)

parse_fields-fixed :
    (h : Ds4Hello) (fixed : List ℕ)
    → IsSendable h
    → ReadsBack h fixed
    → parse_fields fixed h.model_name ≡ ok h
unfolding parse_fields
parse_fields-fixed h fixed s r =
    pass _ _ (is_bad_field-fixed h fixed s r) ∙ pass _ _ (ap not s.name_utf8) ∙ (λ i. do
      has_output ← flag16 i
      has_hidden ← flag20 i
      ok (record {
        model_id = r.r0 i;
        quant_bits = r.r4 i;
        layer_start = r.r8 i;
        layer_end = r.r12 i;
        has_output = has_output;
        has_hidden = has_hidden;
        context_size = r.r24 i;
        layer_count = r.r28 i;
        listen_port = r.r32 i;
        model_name = h.model_name;
      }))
  where
    flag16 : bool_field (read_u32 fixed 16) ≡ ok h.has_output
    flag16 = ap bool_field r.r16 ∙ bool_field-bool_word h.has_output

    flag20 : bool_field (read_u32 fixed 20) ≡ ok h.has_hidden
    flag20 = ap bool_field r.r20 ∙ bool_field-bool_word h.has_hidden

check_sizes_pass :
    (len m k size n : ℕ)
    → m ≡ magic
    → k ≡ hello_kind
    → size ≡ hello_fixed_bytes + n
    → len ≡ 52 + n
    → n ≤ 127
    → check_sizes len m k size n ≡ ok tt
unfolding check_sizes
check_sizes_pass len m k size n hm hk hs hl hn = ground arith

-- The frame passes the checks of the header.
parse_hello_frame-header :
    (f : List ℕ) (n : ℕ)
    → read_u32 f 0 ≡ magic
    → read_u32 f 4 ≡ hello_kind
    → read_u32 f 8 ≡ hello_fixed_bytes + n
    → length f ≡ 52 + n
    → n ≤ 127
    → read_u32 (take 40 (drop 12 f)) 36 ≡ n
    → parse_hello_frame f ≡ parse_fields (take 40 (drop 12 f)) (drop 52 f)
unfolding parse_hello_frame
parse_hello_frame-header f n h0 h4 h8 hl hn h36 =
    ap (λ (r : Result (Unit {0})). r >> parse_fields (take 40 (drop 12 f)) (drop 52 f))
      (ap (check_sizes (length f) (read_u32 f 0) (read_u32 f 4) (read_u32 f 8)) h36
        ∙ check_sizes_pass (length f) (read_u32 f 0) (read_u32 f 4) (read_u32 f 8) n h0 h4 h8 hl hn)

-- The parser gives back the hello from which a frame was built, if the numbers of the hello fit
-- their types, its layers are in order, its context size, layer count and port are positive and its
-- name is UTF-8 of 1 to 127 bytes.
pub parse_hello_frame-build_hello_frame :
    (h : Ds4Hello) → IsSendable h → parse_hello_frame (build_hello_frame h) ≡ ok h
unfolding build_hello_frame fixed_part
parse_hello_frame-build_hello_frame h s =
    parse_hello_frame-header (build_hello_frame h) (length h.model_name) refl refl
      (word-be32 (40 + length h.model_name) [] (omega (arith, s.name_fits))) (omega arith)
      s.name_fits (word-be32 (length h.model_name) [] (omega (arith, s.name_fits)))
    ∙ parse_fields-fixed h (fixed_part h []) s (fixed_part-ReadsBack h s)
