-- ===== src/Auth/Injective.antt =====
-- src/auth.rs: what the bytes under the MAC say of the handshake.
use tunlet.Prelude.{
  ℕ, ◌≡◌, refl, sym, ap, ◌∙◌, arith, List, [], ◌∷◌, ◌++◌, ◌<◌, ◌^◌, All, length, append_assoc,
  if◌then◌else◌, ◌==◌, if_pos, if_neg, ◌↔◌, true, take, drop, take-append_self, drop-append_self,
}
use tunlet.Prelude.Bytes.{
  byte_at, bytes_discrete, ascii, to_be, from_be, from_be-to_be, length-to_be,
}
use tunlet.Error.{Result, ok}
use tunlet.Protocol.Enums.{Kind, Mac, Nonce, SessionId}
use tunlet.Protocol.Preamble.{encode_preamble}
use tunlet.Protocol.ControlHello
use tunlet.Protocol.ControlHello.{ControlHello}
use tunlet.Protocol.ControlHello.Laws as HelloLaws
use tunlet.Protocol.DataHello
use tunlet.Protocol.DataHello.{DataHello}
use tunlet.Auth.{
  label_control_server, label_control_client, label_control_ready, label_data_server,
  label_data_client, control_transcript, ready_transcript, data_transcript, mac, verify,
}

-- Equal concatenations whose first parts have one length have equal parts.
pub append_inj :
    (xs xs' ys ys' : List ℕ)
    → length xs ≡ length xs'
    → xs ++ ys ≡ xs' ++ ys'
    → (xs ≡ xs') × (ys ≡ ys')
append_inj xs xs' ys ys' h e = (
  sym (take-append_self (length xs) xs ys refl)
      ∙ ap (take (length xs)) e
      ∙ take-append_self (length xs) xs' ys' (sym h),
  sym (drop-append_self (length xs) xs ys refl)
      ∙ ap (drop (length xs)) e
      ∙ drop-append_self (length xs) xs' ys' (sym h),
)

-- The five roles in which the key is used.
pub data Role : Type 0 where
  control_server control_client control_ready data_server data_client : Role

abbrev pub name : Role → List ℕ
name control_server = ascii "tunlet/v1/control/server"
name control_client = ascii "tunlet/v1/control/client"
name control_ready = ascii "tunlet/v1/control/ready"
name data_server = ascii "tunlet/v1/data/server"
name data_client = ascii "tunlet/v1/data/client"

abbrev pub label : Role → List ℕ
label control_server = label_control_server
label control_client = label_control_client
label control_ready = label_control_ready
label data_server = label_data_server
label data_client = label_data_client

label-eq : (r : Role) → label r ≡ name r ++ (0 ∷ [])
label-eq control_server = refl
label-eq _ = refl

split_at_null :
    (p q x y : List ℕ)
    → All (λ b. 0 < b) p
    → All (λ b. 0 < b) q
    → p ++ (0 ∷ x) ≡ q ++ (0 ∷ y)
    → (p ≡ q) × (x ≡ y)
split_at_null [] [] x y hp hq e = (refl, cc)
split_at_null [] (b ∷ q) x y hp hq e = ground arith
split_at_null (a ∷ p) [] x y hp hq e = ground arith
split_at_null (a ∷ p) (b ∷ q) x y hp hq e = ground (arith, split_at_null p q x y hp.1 hq.1)

name_positive : (r : Role) → All (λ b. 0 < b) (name r)
name_positive control_server = omega arith
name_positive _ = omega arith

-- The role that a name begins.
role_named : List ℕ → Role
role_named bytes =
    if byte_at bytes 10 == b'c'
    then (if byte_at bytes 18 == b's'
        then control_server
        else if byte_at bytes 18 == b'c'
        then control_client
        else control_ready)
    else if byte_at bytes 15 == b's'
    then data_server
    else data_client

role_named-name : (r : Role) → role_named (name r) ≡ r
unfolding role_named
role_named-name control_server = refl
role_named-name _ = refl

-- If the label of one role before some bytes equals the label of a role before other bytes, then
-- the roles and the bytes are the same: a proof of one role is over a message that no other role
-- authenticates.
pub message_inj : (r s : Role) (x y : List ℕ) → label r ++ x ≡ label s ++ y → (r ≡ s) × (x ≡ y)
message_inj r s x y e =
    let (names, rest) = split_at_null (name r) (name s) x y (name_positive r) (name_positive s) (
      sym (append_assoc (name r) (0 ∷ []) x)
      ∙ ap (λ l. l ++ x) (sym (label-eq r))
      ∙ e
      ∙ ap (λ l. l ++ y) (label-eq s)
      ∙ append_assoc (name s) (0 ∷ []) y) in
    (sym (role_named-name r) ∙ ap role_named names ∙ role_named-name s, rest)

ok_inj : {E A : Type 0} {a b : A} → ◌≡◌ {A = Result E A} (ok a) (ok b) → a ≡ b
ok_inj e = cc

hello_inj :
    (h h' : ControlHello)
    → ControlHello.IsValid h
    → ControlHello.IsValid h'
    → ControlHello.encode h ≡ ControlHello.encode h'
    → h ≡ h'
hello_inj h h' v v' e = ok_inj (
    sym (HelloLaws.decode-encode_control_hello h v)
    ∙ ap ControlHello.decode e
    ∙ HelloLaws.decode-encode_control_hello h' v')

data_hello_inj :
    (h h' : DataHello)
    → DataHello.IsValid h
    → DataHello.IsValid h'
    → DataHello.encode h ≡ DataHello.encode h'
    → h ≡ h'
data_hello_inj h h' v v' e = ok_inj (
    sym (DataHello.decode-encode_data_hello h v)
    ∙ ap DataHello.decode e
    ∙ DataHello.decode-encode_data_hello h' v')

-- Equal control transcripts, of valid CONTROL_HELLO messages and server nonces of 32 bytes, come
-- from the same message, the same nonce and the same session identifier.
pub control_transcript_inj :
    (h h' : ControlHello) (n n' : Nonce) (s s' : SessionId)
    → ControlHello.IsValid h
    → ControlHello.IsValid h'
    → length n ≡ 32
    → length n' ≡ 32
    → control_transcript h n s ≡ control_transcript h' n' s'
    → (h ≡ h') × (n ≡ n') × (s ≡ s')
unfolding control_transcript
control_transcript_inj h h' n n' s s' v v' sn sn' e =
    let (_, e1) = append_inj (encode_preamble Kind.control) _ _ _ refl e in
    let (hello, e2) =
      append_inj (ControlHello.encode h) (ControlHello.encode h') _ _
        (HelloLaws.length-encode h v ∙ sym (HelloLaws.length-encode h' v')) e1 in
    let (nonce, session) = append_inj n n' s s' (sn ∙ sym sn') e2 in
    (hello_inj h h' v v' hello, nonce, session)

-- Equal data transcripts of valid DATA_HELLO messages come from the same message and the same
-- server nonce.
pub data_transcript_inj :
    (h h' : DataHello) (n n' : Nonce)
    → DataHello.IsValid h
    → DataHello.IsValid h'
    → data_transcript h n ≡ data_transcript h' n'
    → (h ≡ h') × (n ≡ n')
unfolding data_transcript
data_transcript_inj h h' n n' v v' e =
    let (_, e1) = append_inj (encode_preamble Kind.data_kind) _ _ _ refl e in
    let (hello, nonce) =
      append_inj (DataHello.encode h) (DataHello.encode h') n n'
        (DataHello.length-encode h v ∙ sym (DataHello.length-encode h' v')) e1 in
    (data_hello_inj h h' v v' hello, nonce)

to_be_inj : (n v w : ℕ) → v < 256 ^ n → w < 256 ^ n → to_be n v ≡ to_be n w → v ≡ w
to_be_inj n v w hv hw e = sym (from_be-to_be n v hv) ∙ ap from_be e ∙ from_be-to_be n w hw

-- Equal ready transcripts, over transcripts of one length, with ports below 2^16 and maxima below
-- 2^32, come from the same transcript, port and maximum.
pub ready_transcript_inj :
    (t t' : List ℕ) (p p' m m' : ℕ)
    → length t ≡ length t'
    → p < 65536
    → p' < 65536
    → m < 2 ^ 32
    → m' < 2 ^ 32
    → ready_transcript t p m ≡ ready_transcript t' p' m'
    → (t ≡ t') × (p ≡ p') × (m ≡ m')
unfolding ready_transcript
ready_transcript_inj t t' p p' m m' ht hp hp' hm hm' e =
    let (same, e1) = append_inj t t' _ _ ht e in
    let (port, max) =
      append_inj (to_be 2 p) (to_be 2 p') (to_be 4 m) (to_be 4 m')
        (length-to_be 2 p ∙ sym (length-to_be 2 p')) e1 in
    (same, to_be_inj 2 p p' hp hp' port, to_be_inj 4 m m' hm hm' max)

-- For every function in the place of the HMAC, a proof is accepted exactly if it is the MAC of the
-- same key, label and transcript.
pub verify_iff_mac :
    (hmac : List ℕ → List ℕ → Mac) (key label transcript proof : List ℕ)
    → (verify hmac key label transcript proof ≡ true) ↔ (proof ≡ mac hmac key label transcript)
unfolding verify mac
verify_iff_mac hmac key label transcript proof =
    elim (bytes_discrete (hmac key (label ++ transcript)) proof) [
      | yes same ↦ rw (if_pos _ same) (λ _. sym same, λ _. refl)
      | no other ↦ rw (if_neg _ other) (λ e. cc, λ e. absurd (other (sym e)))
    ]
