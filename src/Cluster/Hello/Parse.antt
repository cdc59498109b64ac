-- ===== src/Cluster/Hello/Parse.antt =====
-- What the parser accepts: the frames that `build_hello_frame` makes, and no others.
use siderostat.Prelude.{
  AllBytes, ℕ, ◌+◌, ◌≤◌, ◌<◌, false, ◌≡◌, sym, ap, ◌∙◌, List, length, take, drop, arith, ltb, ◌==◌,
  ◌||◌, subst, ◌↔◌,
}
use siderostat.Cluster.Hello.{
  Ds4Hello, ok, parse_hello_frame, parse_fields, bool_word, read_u32, build_hello_frame, fixed_part,
  hello_fixed_bytes, magic, hello_kind, check_sizes,
}
use siderostat.Cluster.Hello.Bytes.{
  be32, word, be32-word, u32_mod, is_utf8, AllBytes-drop, drop-drop, word-drop-take, length-drop,
  word-lt,
}
use siderostat.Cluster.Hello.Checks.{>>-ok, SizesPass, check_sizes-ok, FieldsRead, parse_fields-ok}
use siderostat.Cluster.Hello.Build.{IsSendable, parse_hello_frame-build_hello_frame}

be32-step :
    (k : ℕ) (bs : List ℕ) (v : ℕ) (rest : List ℕ)
    → AllBytes bs
    → k + 4 ≤ length bs
    → v ≡ word (drop k bs)
    → rest ≡ drop (k + 4) bs
    → be32 v rest ≡ drop k bs
be32-step k bs v rest all hl hv hr =
    ap (be32 v) (hr ∙ sym (drop-drop k 4 bs))
    ∙ ap (λ (w : ℕ). be32 w (drop 4 (drop k bs))) hv
    ∙ be32-word (drop k bs) (AllBytes-drop k bs all) (omega (arith, length-drop k bs (omega arith)))

-- The fixed part of a frame is what the fields write.
fixed_part-FieldsRead :
    (h : Ds4Hello) (g name : List ℕ)
    → AllBytes g
    → 40 ≤ length g
    → length h.model_name ≡ read_u32 (take 40 g) 36
    → name ≡ drop 40 g
    → FieldsRead h (take 40 g) name
    → fixed_part h h.model_name ≡ g
unfolding fixed_part
fixed_part-FieldsRead h g name all hl hn hr r = put 0 h.model_id r.r0 (omega arith) (
    put 4 h.quant_bits r.r4 (omega arith) (
      put 8 h.layer_start r.r8 (omega arith) (
        put 12 h.layer_end r.r12 (omega arith) (
          put 16 (bool_word h.has_output) r.r16 (omega arith) (
            put 20 (bool_word h.has_hidden) r.r20 (omega arith) (
              put 24 h.context_size r.r24 (omega arith) (
                put 28 h.layer_count r.r28 (omega arith) (
                  put 32 h.listen_port r.r32 (omega arith)
                    (put 36 (length h.model_name) hn (omega arith) (r.named ∙ hr))))))))))
  where
    put :
        (k v : ℕ) {rest : List ℕ}
        → v ≡ read_u32 (take 40 g) k
        → k + 4 ≤ 40
        → rest ≡ drop (k + 4) g
        → be32 v rest ≡ drop k g
    put k v {rest} hv hk hr =
        be32-step k g v rest all (omega (arith, hl, hk)) (hv ∙ word-drop-take k 40 g hk) hr

-- What a parsed frame is known to hold.
pub record Parsed (f : List ℕ) (h : Ds4Hello) : Type 0 where
  pub sizes :
      SizesPass (length f) (read_u32 f 0) (read_u32 f 4) (read_u32 f 8) (length h.model_name)
  fields : FieldsRead h (take 40 (drop 12 f)) (drop 52 f)
  name_length : length h.model_name ≡ read_u32 (take 40 (drop 12 f)) 36

pub parse_hello_frame-Parsed : (f : List ℕ) (h : Ds4Hello) → parse_hello_frame f ≡ ok h → Parsed f h
unfolding parse_hello_frame
parse_hello_frame-Parsed f h p = record {
  sizes =
      subst (SizesPass (length f) (read_u32 f 0) (read_u32 f 4) (read_u32 f 8)) (sym name_length)
        sizes;
  fields = fields;
  name_length = name_length;
}
  where
    passed :
        (check_sizes
            (length f)
            (read_u32 f 0)
            (read_u32 f 4)
            (read_u32 f 8)
            (read_u32 (take 40 (drop 12 f)) 36)
          ≡ ok tt)
        × (parse_fields (take 40 (drop 12 f)) (drop 52 f) ≡ ok h)
    passed =
        >>-ok
          (check_sizes (length f) (read_u32 f 0) (read_u32 f 4) (read_u32 f 8)
            (read_u32 (take 40 (drop 12 f)) 36))
          (parse_fields (take 40 (drop 12 f)) (drop 52 f)) h p

    sizes :
        SizesPass
          (length f)
          (read_u32 f 0)
          (read_u32 f 4)
          (read_u32 f 8)
          (read_u32 (take 40 (drop 12 f)) 36)
    sizes =
        check_sizes-ok (length f) (read_u32 f 0) (read_u32 f 4) (read_u32 f 8)
          (read_u32 (take 40 (drop 12 f)) 36) passed.0

    fields : FieldsRead h (take 40 (drop 12 f)) (drop 52 f)
    fields = parse_fields-ok h (take 40 (drop 12 f)) (drop 52 f) passed.1

    name_length : length h.model_name ≡ read_u32 (take 40 (drop 12 f)) 36
    name_length =
        ap length fields.named
        ∙ omega (arith, sizes.has_length, length-drop 52 f (omega (arith, sizes.has_length)))

build_hello_frame-Parsed :
    (f : List ℕ) (h : Ds4Hello) → AllBytes f → Parsed f h → build_hello_frame h ≡ f
unfolding build_hello_frame
build_hello_frame-Parsed f h all p = put 0 magic (sym p.sizes.is_magic) (omega arith) (
    put 4 hello_kind (sym p.sizes.is_hello) (omega arith) (
      put 8 (hello_fixed_bytes + length h.model_name) (sym p.sizes.has_size) (omega arith) (
        fixed_part-FieldsRead h (drop 12 f) (drop 52 f) (AllBytes-drop 12 f all)
          (omega (arith, p.sizes.has_length, length-drop 12 f (omega (arith, p.sizes.has_length))))
          p.name_length (sym (drop-drop 12 40 f)) p.fields)))
  where
    put :
        (k v : ℕ) {rest : List ℕ}
        → v ≡ read_u32 f k
        → k + 4 ≤ 12
        → rest ≡ drop (k + 4) f
        → be32 v rest ≡ drop k f
    put k v {rest} hv hk hr = be32-step k f v rest all (omega (arith, p.sizes.has_length, hk)) hv hr

fixed_word-lt :
    (f : List ℕ) (k : ℕ) → AllBytes f → k + 4 ≤ 40 → read_u32 (take 40 (drop 12 f)) k < u32_mod
fixed_word-lt f k all hk =
    subst (λ (w : ℕ). w < u32_mod) (sym (word-drop-take k 40 (drop 12 f) hk))
      (word-lt (drop k (drop 12 f)) (AllBytes-drop k (drop 12 f) (AllBytes-drop 12 f all)))

good_fields :
    (lo hi context layers port name : ℕ)
    → (ltb hi lo || context == 0 || layers == 0 || port == 0 || ltb 65535 port || name == 0) ≡ false
    → (lo ≤ hi) × (1 ≤ context) × (1 ≤ layers) × (1 ≤ port) × (port ≤ 65535) × (1 ≤ name)
good_fields lo hi context layers port name h =
    (ground arith, ground arith, ground arith, ground arith, ground arith, ground arith)

Parsed-IsSendable : (f : List ℕ) (h : Ds4Hello) → AllBytes f → Parsed f h → IsSendable h
Parsed-IsSendable f h all p = record {
  model_id_fits = omega (arith, p.fields.r0, fixed_word-lt f 0 all (omega arith));
  quant_bits_fits = omega (arith, p.fields.r4, fixed_word-lt f 4 all (omega arith));
  layers_ordered = omega (arith, p.fields.r8, p.fields.r12, good.0);
  layer_end_fits = omega (arith, p.fields.r12, fixed_word-lt f 12 all (omega arith));
  context_size_positive = omega (arith, p.fields.r24, good.1);
  context_size_fits = omega (arith, p.fields.r24, fixed_word-lt f 24 all (omega arith));
  layer_count_positive = omega (arith, p.fields.r28, good.2);
  layer_count_fits = omega (arith, p.fields.r28, fixed_word-lt f 28 all (omega arith));
  listen_port_positive = omega (arith, p.fields.r32, good.3);
  listen_port_fits = omega (arith, p.fields.r32, good.4);
  name_filled = omega (arith, p.name_length, good.5);
  name_fits = p.sizes.name_short;
  name_utf8 = ap is_utf8 p.fields.named ∙ p.fields.utf8;
}
  where
    good :
        (read_u32 (take 40 (drop 12 f)) 8 ≤ read_u32 (take 40 (drop 12 f)) 12)
        × (1 ≤ read_u32 (take 40 (drop 12 f)) 24)
        × (1 ≤ read_u32 (take 40 (drop 12 f)) 28)
        × (1 ≤ read_u32 (take 40 (drop 12 f)) 32)
        × (read_u32 (take 40 (drop 12 f)) 32 ≤ 65535)
        × (1 ≤ read_u32 (take 40 (drop 12 f)) 36)
    good =
        good_fields (read_u32 (take 40 (drop 12 f)) 8) (read_u32 (take 40 (drop 12 f)) 12)
          (read_u32 (take 40 (drop 12 f)) 24) (read_u32 (take 40 (drop 12 f)) 28)
          (read_u32 (take 40 (drop 12 f)) 32) (read_u32 (take 40 (drop 12 f)) 36) p.fields.not_bad

-- The parser returns a hello for a frame of bytes exactly when the hello may be sent (its numbers
-- fit their types, its layers are in order, its context size, layer count and port are positive, its
-- name is UTF-8 of 1 to 127 bytes) and the frame is the one that is built from it.
pub parse_hello_frame_iff :
    (f : List ℕ) (h : Ds4Hello)
    → AllBytes f
    → parse_hello_frame f ≡ ok h ↔ IsSendable h × (build_hello_frame h ≡ f)
parse_hello_frame_iff f h all = (
  (λ p. (
    Parsed-IsSendable f h all (parse_hello_frame-Parsed f h p),
    build_hello_frame-Parsed f h all (parse_hello_frame-Parsed f h p),
  )),
  (λ q. ap parse_hello_frame (sym q.1) ∙ parse_hello_frame-build_hello_frame h q.0),
)
