-- ===== src/Sep10/Client/Flow/Safety.antt =====
-- What the client of sep10/src/client/client.ts sends: no challenge that it has not verified.
use colibri.Common.{ℕ, ◌≡◌, some, List, [], ◌∷◌, ◌++◌, Text, All, Result, ok}
use colibri.Sep10.Transaction.{Sdk, Transaction}
use colibri.Sep10.Challenge.{Challenge, from_xdr}
use colibri.Sep10.Challenge.Reads.{Reads}
use colibri.Sep10.Verify.Spec.{Accepts}
use colibri.Sep10.Sign.{AnySigner, sign_all, to_xdr}
use colibri.Sep10.Jwt.{Jwt}
use colibri.Sep10.Client.{
  Client, GetChallengeOptions, ClientError, Request, Platform, State, challenge_url, get, post,
}
use colibri.Sep10.Client.Flow.{verify_options}

module _ (sdk : Sdk) (client : Client) (o : GetChallengeOptions) (Shown : ℕ → Type 0) where
  -- A challenge that the server sent, read of its transaction, and that `verify` accepted at a time that
  -- the clock showed, with the key, the home domain and the options of the client.
  pub record Verified (c : Challenge) : Type 0 where
    pub clock : ℕ
    pub shown : Shown clock
    pub xdr : Text
    pub transaction : Transaction
    pub decodes : sdk.from_xdr xdr client.network_passphrase ≡ some transaction
    pub reads : Reads sdk transaction c
    pub accepts : Accepts sdk clock c client.server_public_key (verify_options client o)

  -- A request that the client may send: a GET, or a POST of a verified challenge with the signatures of
  -- the signers, to the client's endpoint.
  abbrev pub MaySend : List (AnySigner sdk) → Request → Type 0
  MaySend signers (get url) = Unit
  MaySend signers (post url xdr) =
      (url ≡ client.auth_endpoint)
      × ((c : Challenge) × (d : Challenge) × Verified c
          × (sign_all sdk c signers ≡ ok d)
          × (xdr ≡ to_xdr sdk d))

module _ {W : Type 0} (sdk : Sdk) (p : Platform W) (client : Client) (o : GetChallengeOptions) where
  -- The clock of the platform showed this once the answer to the request for the challenge had come.
  abbrev pub ShownOnArrival : State W → ℕ → Type 0
  ShownOnArrival st clock =
      (url : p.Url) × (p.parse_url client.auth_endpoint ≡ some url)
      × (clock ≡ p.clock (p.fetch (get (challenge_url p o url)) st.world).0)

  -- The requests that a call adds, and that a token comes only from a POST.
  abbrev pub SendsFrom :
      (ℕ → Type 0)
      → List (AnySigner sdk)
      → State W
      → State W × Result ClientError Jwt
      → List Request
      → Type 0
  SendsFrom Shown signers st (st', r) requests =
      (st'.sent ≡ st.sent ++ requests)
      × All (MaySend sdk client o Shown signers) requests
      × ((jwt : Jwt)
          → r ≡ ok jwt
          → (before : List Request) × (xdr : Text) × (requests
              ≡ before ++ post client.auth_endpoint xdr ∷ []))
