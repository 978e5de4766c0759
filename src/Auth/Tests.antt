-- ===== src/Auth/Tests.antt =====
-- src/auth.rs: transcripts and a proof as examples.
use tunlet.Prelude.{ℕ, ◌≡◌, refl, arith, List, [], ◌∷◌, ◌++◌, replicate}
use tunlet.Protocol.Enums.{Mac, resume}
use tunlet.Protocol.ControlHello
use tunlet.Protocol.ControlHello.{ControlHello}
use tunlet.Protocol.DataHello
use tunlet.Protocol.DataHello.{DataHello}
use tunlet.Auth.Injective.{control_transcript_inj, data_transcript_inj}

abbrev nonce : List ℕ
nonce = replicate 32 3

abbrev session : List ℕ
session = replicate 16 4

abbrev payload : List ℕ
payload = 1 ∷ []

abbrev port : ℕ
port = 30000

abbrev hello : ControlHello
hello = record {
  instance_id = replicate 16 1;
  client_nonce = replicate 32 2;
  mode = resume;
  requested_port = 30000;
}

hello-IsValid : ControlHello.IsValid hello
hello-IsValid = record {
  instance_size = refl;
  nonce_size = refl;
  port_range = omega arith;
  port_allowed = omega arith;
}

abbrev data_opening : DataHello
data_opening = record {
  session_id = replicate 16 4;
  request_id = replicate 16 7;
  client_nonce = replicate 32 8;
}

data_opening-IsValid : DataHello.IsValid data_opening
data_opening-IsValid = record {
  session_id_size = refl;
  request_id_size = refl;
  client_nonce_size = refl;
}

control_transcript_inj_example : (hello ≡ hello) × (nonce ≡ nonce) × (session ≡ session)
control_transcript_inj_example =
    control_transcript_inj hello hello nonce nonce session session hello-IsValid hello-IsValid refl
      refl refl

data_transcript_inj_example : (data_opening ≡ data_opening) × (nonce ≡ nonce)
data_transcript_inj_example =
    data_transcript_inj data_opening data_opening nonce nonce data_opening-IsValid
      data_opening-IsValid refl

abbrev proof : List ℕ
proof = 1 ∷ (2 ∷ (3 ∷ []))

abbrev joined : List ℕ → List ℕ → Mac
joined key message = key ++ message
