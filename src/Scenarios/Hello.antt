-- ===== src/Scenarios/Hello.antt =====
-- Tests of src/cluster/ds4_hello.rs, on the frame of tests/fixtures/ds4/hello40-schema-v1.hex.
use siderostat.Prelude.{
  AllBytes, ℕ, ◌≡◌, ◌≢◌, ◌↔◌, refl, true, inr, some, List, [], ◌∷◌, arith, u32_max,
}
use siderostat.Target.{awaiting_worker_hello}
use siderostat.Cluster.Hello.{
  Ds4Hello, Stream, ok, parse_hello_frame, parse_fields, check_sizes, build_hello_frame,
  read_hello_frame,
}
use siderostat.Cluster.Hello.Bytes.{is_utf8}
use siderostat.Cluster.Hello.Build.{IsSendable, parse_hello_frame-build_hello_frame}
use siderostat.Cluster.Hello.Parse.{parse_hello_frame_iff}
use siderostat.Cluster.Hello.Reader.{read_hello_frame_iff}
use siderostat.Cluster.Hello.Rendezvous.{
  RendezvousControlSnapshot, WorkerHelloExpectation, accept_one,
}
use siderostat.Cluster.Hello.Rendezvous.Accept.{accept_one_iff, StillCurrent, Matches}

abbrev fixture : List ℕ
fixture =
    0x44 ∷ 0x53 ∷ 0x34 ∷ 0x44 ∷ 0 ∷ 0 ∷ 0 ∷ 1 ∷ 0 ∷ 0 ∷ 0 ∷ 0x39 ∷ 0 ∷ 0 ∷ 0 ∷ 1 ∷ 0 ∷ 0 ∷ 0 ∷ 2 ∷ 0
    ∷ 0 ∷ 0 ∷ 0x14 ∷ 0 ∷ 0 ∷ 0 ∷ 0x2a ∷ 0 ∷ 0 ∷ 0 ∷ 1 ∷ 0 ∷ 0 ∷ 0 ∷ 1 ∷ 0 ∷ 4 ∷ 0 ∷ 0 ∷ 0 ∷ 0 ∷ 0
    ∷ 0x2b ∷ 0 ∷ 0 ∷ 0x1f ∷ 0x40 ∷ 0 ∷ 0 ∷ 0 ∷ 0x11 ∷ 0x64 ∷ 0x65 ∷ 0x65 ∷ 0x70 ∷ 0x73 ∷ 0x65 ∷ 0x65
    ∷ 0x6b ∷ 0x2d ∷ 0x76 ∷ 0x34 ∷ 0x2d ∷ 0x66 ∷ 0x6c ∷ 0x61 ∷ 0x73 ∷ 0x68 ∷ []

abbrev greeting : Ds4Hello
greeting = record {
  model_id = 1;
  quant_bits = 2;
  layer_start = 20;
  layer_end = 42;
  has_output = true;
  has_hidden = true;
  context_size = 262144;
  layer_count = 43;
  listen_port = 8000;
  model_name =
      0x64 ∷ 0x65 ∷ 0x65 ∷ 0x70 ∷ 0x73 ∷ 0x65 ∷ 0x65 ∷ 0x6b ∷ 0x2d ∷ 0x76 ∷ 0x34 ∷ 0x2d ∷ 0x66
      ∷ 0x6c ∷ 0x61 ∷ 0x73 ∷ 0x68 ∷ [];
}

greeting_parsed : parse_hello_frame fixture ≡ ok greeting
unfolding parse_hello_frame parse_fields check_sizes is_utf8
greeting_parsed = refl

greeting_utf8 : is_utf8 greeting.model_name ≡ true
unfolding is_utf8
greeting_utf8 = refl

greeting-IsSendable : IsSendable greeting
greeting-IsSendable = record {
  model_id_fits = omega arith;
  quant_bits_fits = omega arith;
  layers_ordered = omega arith;
  layer_end_fits = omega arith;
  context_size_positive = omega arith;
  context_size_fits = omega arith;
  layer_count_positive = omega arith;
  layer_count_fits = omega arith;
  listen_port_positive = omega arith;
  listen_port_fits = omega arith;
  name_filled = omega arith;
  name_fits = omega arith;
  name_utf8 = greeting_utf8;
}

greeting_returns : parse_hello_frame (build_hello_frame greeting) ≡ ok greeting
greeting_returns = parse_hello_frame-build_hello_frame greeting greeting-IsSendable

fixture-AllBytes : AllBytes fixture
fixture-AllBytes = ground arith

parse_hello_frame_iff_example :
    parse_hello_frame fixture ≡ ok greeting
    ↔ IsSendable greeting × (build_hello_frame greeting ≡ fixture)
parse_hello_frame_iff_example = parse_hello_frame_iff fixture greeting fixture-AllBytes

abbrev arriving : Stream
arriving = record { bytes = fixture; ended = true }

read_hello_frame_iff_example :
    read_hello_frame arriving 1000 ≡ ok greeting
    ↔ (◌≢◌ {A = ℕ} 1000 0) × (parse_hello_frame fixture ≡ ok greeting)
read_hello_frame_iff_example = read_hello_frame_iff arriving 1000 greeting

abbrev control : RendezvousControlSnapshot
control = record {
  state = awaiting_worker_hello;
  generation = 12;
  deployment_id = some 7;
  lease_valid = true;
}

-- The slice is planned to the end of the model.
abbrev expectation : WorkerHelloExpectation
expectation = record {
  coordinator_address = 1;
  worker_address = 2;
  control = control;
  layer_start = 20;
  layer_end = u32_max;
  has_output = true;
  context_size = 262144;
  model_name = greeting.model_name;
}

accept_one_iff_example :
    accept_one expectation 5000 (some (2, arriving)) control ≡ ok greeting
    ↔ (◌≡◌ {A = ℕ} 2 2)
      × (◌≢◌ {A = ℕ} 5000 0)
      × (parse_hello_frame fixture ≡ ok greeting)
      × StillCurrent control control
      × Matches greeting expectation
accept_one_iff_example = accept_one_iff expectation 5000 2 arriving control greeting

-- The worker is admitted.
greeting_admitted : accept_one expectation 5000 (some (2, arriving)) control ≡ ok greeting
greeting_admitted =
    (accept_one_iff expectation 5000 2 arriving control greeting).1
      (refl, (λ e. cc), greeting_parsed, still, fits)
  where
    still : StillCurrent control control
    still = record {
      awaits = refl;
      leased = refl;
      deployed = λ e. cc;
      same_generation = refl;
      same_deployment = refl;
    }

    fits : Matches greeting expectation
    fits = record {
      same_start = refl;
      same_output = refl;
      same_end = inr (refl, refl, omega arith, refl);
      same_context = refl;
      same_model = refl;
    }
