-- ===== src/Examples/Connections.antt =====
-- A handshake with an agent that does not know the token.
use wsldrive.Prelude.{ℕ, ◌+◌, ◌⊎◌, [], ◌∷◌, Bytes}
use wsldrive.Types.{Result, ok}
use wsldrive.Protocol.Header.{MsgType}
use wsldrive.Protocol.MsgTypes
use wsldrive.Protocol.Messages.{write_hello}
use wsldrive.Client.Requests.{Reply}
use wsldrive.Client.Connect.{connect, IsAgent, IsSilent, connect_cases}

abbrev token : Bytes
token = b't' ∷ []

abbrev nonce : Bytes
nonce = b'n' ∷ []

-- A hash of one byte.
abbrev blake3 : Bytes → Bytes
blake3 s = 7 ∷ []

-- The reply to everything is an acknowledgement without a proof; the exchanges are counted.
abbrev exchange : MsgType → Bytes → ℕ → Result Reply × ℕ
exchange type payload n = (
  ok (record {
    type = MsgTypes.hello_ack;
    payload = write_hello (record {
      protocol_version = 4;
      capabilities = 0;
      agent = [];
      nonce = b'm' ∷ [];
      proof = [];
    });
  }),
  n + 1,
)

connect_cases_example :
    IsAgent blake3 [] token exchange nonce 0
    ⊎ IsSilent blake3 [] token exchange nonce 0 (connect blake3 [] token exchange nonce 0)
connect_cases_example = connect_cases blake3 [] token exchange nonce 0
