-- ===== src/Cluster/Hello/Checks.antt =====
-- What a frame is known to hold once the checks of the parser have passed.
use siderostat.Prelude.{ℕ, ◌+◌, ◌≤◌, Bool, true, false, ◌≡◌, refl, List, arith, not}
use siderostat.Cluster.Hello.{
  Ds4Hello, Ds4HelloError, Result, ok, err, invalid_field, invalid_model_name, ◌>>=◌, ◌>>◌, fail_if,
  parse_fields, hello_of, is_bad_field, bool_field, bool_word, read_u32, hello_fixed_bytes, magic,
  hello_kind, check_sizes,
}
use siderostat.Cluster.Hello.Bytes.{is_utf8}

pub >>-ok :
    {B : Type 0} (r : Result (Unit {0})) (k : Result B) (b : B)
    → r >> k ≡ ok b
    → (r ≡ ok tt) × (k ≡ ok b)
>>-ok (ok u) k b h = (refl, h)
>>-ok (err e) k b h = ground arith

fail_if-ok : (b : Bool) (e : Ds4HelloError) → fail_if b e ≡ ok tt → b ≡ false
fail_if-ok false e h = refl
fail_if-ok true e h = ground arith

bool_field-ok : (n : ℕ) (b : Bool) → bool_field n ≡ ok b → bool_word b ≡ n
bool_field-ok n true h = ground arith
bool_field-ok n false h = ground arith

pub record SizesPass (len m k size n : ℕ) : Type 0 where
  pub is_magic : m ≡ magic
  pub is_hello : k ≡ hello_kind
  pub has_size : size ≡ hello_fixed_bytes + n
  pub has_length : len ≡ 52 + n
  pub name_short : n ≤ 127

pub check_sizes-ok :
    (len m k size n : ℕ) → check_sizes len m k size n ≡ ok tt → SizesPass len m k size n
unfolding check_sizes
check_sizes-ok len m k size n h = record {
  is_magic = ground arith;
  is_hello = ground arith;
  has_size = ground arith;
  has_length = ground arith;
  name_short = ground arith;
}

pub record FieldsRead (h : Ds4Hello) (fixed name : List ℕ) : Type 0 where
  pub not_bad : is_bad_field fixed ≡ false
  pub utf8 : is_utf8 name ≡ true
  pub r0 : h.model_id ≡ read_u32 fixed 0
  pub r4 : h.quant_bits ≡ read_u32 fixed 4
  pub r8 : h.layer_start ≡ read_u32 fixed 8
  pub r12 : h.layer_end ≡ read_u32 fixed 12
  pub r16 : bool_word h.has_output ≡ read_u32 fixed 16
  pub r20 : bool_word h.has_hidden ≡ read_u32 fixed 20
  pub r24 : h.context_size ≡ read_u32 fixed 24
  pub r28 : h.layer_count ≡ read_u32 fixed 28
  pub r32 : h.listen_port ≡ read_u32 fixed 32
  pub named : h.model_name ≡ name

flags-ok :
    (a b : Result Bool) (mk : Bool → Bool → Ds4Hello) (h : Ds4Hello)
    → ((o d : Bool) → (mk o d).has_output ≡ o)
    → ((o d : Bool) → (mk o d).has_hidden ≡ d)
    → (a >>= λ o. b >>= λ d. ok (mk o d)) ≡ ok h
    → (a ≡ ok h.has_output) × (b ≡ ok h.has_hidden)
flags-ok (ok o) (ok d) mk h out hid p = (ground (arith, out o d), ground (arith, hid o d))
flags-ok (ok o) (err e) mk h out hid p = ground arith
flags-ok (err e) b mk h out hid p = ground arith

pub parse_fields-ok :
    (h : Ds4Hello) (fixed name : List ℕ) → parse_fields fixed name ≡ ok h → FieldsRead h fixed name
unfolding parse_fields
parse_fields-ok h fixed name p = record {
  not_bad = ground arith;
  utf8 = ground arith;
  r0 = ground arith;
  r4 = ground arith;
  r8 = ground arith;
  r12 = ground arith;
  r16 = bool_field-ok (read_u32 fixed 16) h.has_output flags.0;
  r20 = bool_field-ok (read_u32 fixed 20) h.has_hidden flags.1;
  r24 = ground arith;
  r28 = ground arith;
  r32 = ground arith;
  named = ground arith;
}
  where
    tail : hello_of fixed name ≡ ok h
    tail =
        (>>-ok (fail_if (not (is_utf8 name)) invalid_model_name) (hello_of fixed name) h
          (>>-ok (fail_if (is_bad_field fixed) invalid_field)
            (fail_if (not (is_utf8 name)) invalid_model_name >> hello_of fixed name) h p).1).1

    flags :
        (bool_field (read_u32 fixed 16) ≡ ok h.has_output)
        × (bool_field (read_u32 fixed 20) ≡ ok h.has_hidden)
    flags =
        flags-ok (bool_field (read_u32 fixed 16)) (bool_field (read_u32 fixed 20)) _ h (λ o d. refl)
          (λ o d. refl) tail
