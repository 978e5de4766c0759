-- ===== src/Data/Tests.antt =====
-- src/server/data.rs: a data connection for the public connection that waits as an example.
use tunlet.Prelude.{none}
use tunlet.Protocol.Frame.{no_faults}
use tunlet.Prelude.{ℕ, ◌≡◌, refl, ap, ◌∙◌, true, some, List, [], ◌∷◌, ◌++◌, replicate}
use tunlet.Prelude.Bytes.{IsBytes, IsBytes-of_small, bytes_discrete, to_be}
use tunlet.Prelude.Maps.{lookup}
use tunlet.Protocol.Enums.{Kind, Mac, Nonce, type_as_u8}
use tunlet.Protocol.Preamble.{encode_preamble}
use tunlet.Protocol.DataHello
use tunlet.Protocol.DataHello.{DataHello}
use tunlet.Protocol.Frame
use tunlet.Auth.{mac}
use tunlet.Registry.State.{delivered, key_discrete}
use tunlet.Registry.Public.{claim}
use tunlet.Registry.Actor.{handle_command}
use tunlet.Registry.Handle as RegistryHandle
use tunlet.Registry.Handle.{Actor}
use tunlet.Registry.Tests.{env, id1, request_id, two}
use tunlet.Client.Open.{data_handshake}
use tunlet.Data.{Outcome, handed_over, handshake}
use tunlet.Data.Laws.{Delivers, handshake-Delivers}
use tunlet.Data.Public.{serve_public}
use tunlet.Data.Complete.{honest, result}
use tunlet.Data.Agreement.{data_connection_agrees}

-- A function in the place of the HMAC.
abbrev constant : List ℕ → List ℕ → Mac
constant key message = replicate 32 9

abbrev key : List ℕ
key = 7 ∷ []

abbrev nonce : Nonce
nonce = replicate 32 3

abbrev hello : DataHello
hello = record { session_id = id1; request_id = request_id; client_nonce = replicate 32 2 }

hello-IsValid : DataHello.IsValid hello
hello-IsValid = record { session_id_size = refl; request_id_size = refl; client_nonce_size = refl }

abbrev idle : Actor → Actor
idle actor = actor

pending : (RegistryHandle.peek env (some two) id1 request_id).1 ≡ true
unfolding RegistryHandle.peek RegistryHandle.ask handle_command lookup bytes_discrete key_discrete
pending = refl

taken :
    (RegistryHandle.claim env
      (idle (RegistryHandle.peek env (some two) id1 request_id).0)
      id1
      request_id
      8).1
    ≡ delivered
unfolding RegistryHandle.peek RegistryHandle.claim RegistryHandle.ask handle_command claim lookup
    bytes_discrete key_discrete
taken = refl

abbrev said : List ℕ
said = honest constant key hello nonce []

data_connection_agrees_example :
    (outcome : Outcome) × (handshake constant key no_faults env idle env
        (some two)
        (some nonce)
        said
        8
      ≡ outcome)
    × (outcome.end ≡ handed_over)
    × ((serve_public none (some outcome.written) true id1 request_id).forwards ≡ true)
    × (data_handshake constant key no_faults
          (some (replicate 32 2))
          id1
          request_id
          ((serve_public none (some outcome.written) true id1 request_id).written ++ (1 ∷ []))
        ≡ result (1 ∷ []) (encode_preamble Kind.data_kind ++ said))
data_connection_agrees_example =
    data_connection_agrees constant key (λ k m. refl) env env idle (some two) hello nonce (1 ∷ []) 8
      hello-IsValid refl pending taken

said-IsBytes : IsBytes said
unfolding Frame.encode DataHello.encode to_be mac type_as_u8
said-IsBytes = IsBytes-of_small said refl

handed :
    (handshake constant key no_faults env idle env (some two) (some nonce) said 8).end ≡ handed_over
handed =
    let (outcome, same, over, forwards, rest) =
      data_connection_agrees constant key (λ k m. refl) env env idle (some two) hello nonce [] 8
        hello-IsValid refl pending taken in
    ap (λ (o : Outcome). o.end) same ∙ over

handshake-Delivers_example :
    Delivers constant key no_faults env env idle
      (some two)
      (some nonce)
      said
      8
      (handshake constant key no_faults env idle env (some two) (some nonce) said 8)
handshake-Delivers_example =
    handshake-Delivers constant key no_faults env env idle (some two) (some nonce) said 8
      said-IsBytes handed
