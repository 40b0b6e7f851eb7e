-- ===== src/Credentials/Agreement.antt =====
-- Both sides of src/edhoc/credentials agree: what one fetches for itself is what the other expects.
use tfg_edhoc.Base.{
  ℕ, ◌≡◌, refl, ◌⊎◌, inl, inr, true, false, Option, none, some, List, arith, Option-cases, length,
}
use tfg_edhoc.Suites.Int.{ℤ, pos, negsuc, eq_ℤ}
use tfg_edhoc.Suites.{CipherSuiteDetails}
use tfg_edhoc.Credentials.{
  PublicCredentialsData, AuthCreds, ImportKey, VerifyResult, auth_fetch, auth_verify,
  get_client_public_data, get_server_public_data, suite_value, client_credential_fetch,
  client_credential_verify, server_credential_fetch, server_credential_verify, kid, integer,
  fetch_with, private_key_for,
}
use tfg_edhoc.Credentials.Keys.{
  srv_suite_0_private_key, srv_suite_2_private_key, cli_suite_0_private_key,
  cli_suite_2_private_key,
}

-- The peer's credentials carry the identification that was sent: it is what the message holds.
pub record SameId (sent received : AuthCreds) : Type 0 where
  pub label : received.label ≡ sent.label
  pub encoding : received.encode_type ≡ sent.encode_type
  pub key_id : received.key_id_int ≡ sent.key_id_int

-- What a successful fetch has filled in.
pub record Fetched (own : PublicCredentialsData) (sent : AuthCreds) : Type 0 where
  pub is_kid : sent.label ≡ kid
  pub is_integer : sent.encode_type ≡ integer
  pub own_id : sent.key_id_int ≡ own.key_id
  pub own_key : sent.cred ≡ own.key
  pub own_length : sent.cred_len ≡ own.length_of_key

auth_fetch-Fetched :
    (c : Option AuthCreds) (import_key : ImportKey) (own : PublicCredentialsData) (k : List ℕ)
    (n : ℕ) (sent : AuthCreds)
    → auth_fetch c import_key own k n ≡ (true, some sent)
    → Fetched own sent
unfolding auth_fetch
auth_fetch-Fetched none import_key own k n sent h = cc
auth_fetch-Fetched (some c) import_key own k n sent h = record {
  is_kid = ground arith;
  is_integer = ground arith;
  own_id = ground arith;
  own_key = ground arith;
  own_length = ground arith;
}

eq_ℤ_refl : (a : ℤ) → eq_ℤ a a ≡ true
eq_ℤ_refl (pos a) = ground arith
eq_ℤ_refl (negsuc a) = ground arith

-- With the identification of `own`, the verification against `own` succeeds and gives its key.
auth_verify-Fetched :
    (own : PublicCredentialsData) (sent received : AuthCreds)
    → Fetched own sent
    → SameId sent received
    → ((auth_verify (some received) own).success ≡ true)
      × ((auth_verify (some received) own).public_key ≡ some (sent.cred, sent.cred_len))
unfolding auth_verify
auth_verify-Fetched own sent received f s =
    rw
      (
        s.label,
        s.encoding,
        s.key_id,
        f.is_kid,
        f.is_integer,
        f.own_id,
        eq_ℤ_refl own.key_id,
        f.own_key,
        f.own_length,
      )
      (refl, refl)

fetch_with-Fetched :
    (o : Option PublicCredentialsData) (key : Option (List ℕ)) (c : Option AuthCreds)
    (import_key : ImportKey) (sent : AuthCreds)
    → fetch_with o key c import_key ≡ (true, some sent)
    → (own : PublicCredentialsData) × (o ≡ some own) × Fetched own sent
fetch_with-Fetched none key c import_key sent h = cc
fetch_with-Fetched (some own) none c import_key sent h = cc
fetch_with-Fetched (some own) (some k) c import_key sent h =
    (own, refl, auth_fetch-Fetched c import_key own k (length k) sent h)

-- What the server fetched: its public data for the suite.
server-Fetched :
    (import_key : ImportKey) (d : CipherSuiteDetails) (c : Option AuthCreds) (sent : AuthCreds)
    → server_credential_fetch import_key d c ≡ some (true, some sent)
    → (v : ℤ) × (own : PublicCredentialsData) × (suite_value d ≡ some v)
      × (get_server_public_data v ≡ some own)
      × Fetched own sent
unfolding server_credential_fetch
server-Fetched import_key d c sent h = elim (Option-cases d.metadata) [
  | inl n ↦ absurd (ground arith)
  | inr (m, n) ↦
      let (own, has, f) =
        fetch_with-Fetched (get_server_public_data m.value)
          (private_key_for srv_suite_0_private_key srv_suite_2_private_key m.value) c import_key
          sent (ground arith) in
      (m.value, own, rw n, has, f)
]

client-Fetched :
    (import_key : ImportKey) (d : CipherSuiteDetails) (c : Option AuthCreds) (sent : AuthCreds)
    → client_credential_fetch import_key d c ≡ some (true, some sent)
    → (v : ℤ) × (own : PublicCredentialsData) × (suite_value d ≡ some v)
      × (get_client_public_data v ≡ some own)
      × Fetched own sent
unfolding client_credential_fetch
client-Fetched import_key d c sent h = elim (Option-cases d.metadata) [
  | inl n ↦ absurd (ground arith)
  | inr (m, n) ↦
      let (own, has, f) =
        fetch_with-Fetched (get_client_public_data m.value)
          (private_key_for cli_suite_0_private_key cli_suite_2_private_key m.value) c import_key
          sent (ground arith) in
      (m.value, own, rw n, has, f)
]

-- The verification succeeds and hands out the key that the peer sent as its own.
abbrev pub Accepts : AuthCreds → Option VerifyResult → Type 0
Accepts sent none = ⊥
Accepts sent (some r) = (r.success ≡ true) × (r.public_key ≡ some (sent.cred, sent.cred_len))

abbrev pub Refuses : Option VerifyResult → Type 0
Refuses none = ⊥
Refuses (some r) = (r.success ≡ false) × (r.public_key ≡ none)

-- What a server fetched for a suite, a client of the same suite verifies, given the identification
-- that was sent, and it takes the server's own public key for it.
pub client_verify-server_fetch :
    (import_key : ImportKey) (d d' : CipherSuiteDetails) (c : Option AuthCreds)
    (sent received : AuthCreds)
    → suite_value d' ≡ suite_value d
    → SameId sent received
    → server_credential_fetch import_key d c ≡ some (true, some sent)
    → Accepts sent (client_credential_verify d' (some received))
unfolding client_credential_verify
client_verify-server_fetch import_key d d' c sent received same s h =
    let (v, own, value, has, f) = server-Fetched import_key d c sent h in
    rw (same, value, has) (auth_verify-Fetched own sent received f s)

-- What a client fetched for a suite, a server of the same suite verifies, given the identification
-- that was sent, and it takes the client's own public key for it.
pub server_verify-client_fetch :
    (import_key : ImportKey) (d d' : CipherSuiteDetails) (c : Option AuthCreds)
    (sent received : AuthCreds)
    → suite_value d' ≡ suite_value d
    → SameId sent received
    → client_credential_fetch import_key d c ≡ some (true, some sent)
    → Accepts sent (server_credential_verify d' (some received))
unfolding server_credential_verify
server_verify-client_fetch import_key d d' c sent received same s h =
    let (v, own, value, has, f) = client-Fetched import_key d c sent h in
    rw (same, value, has) (auth_verify-Fetched own sent received f s)

client_key_id :
    (v : ℤ) (own : PublicCredentialsData)
    → get_client_public_data v ≡ some own
    → (own.key_id ≡ pos 18) ⊎ (own.key_id ≡ pos 19)
unfolding get_client_public_data
client_key_id (pos n) own h = ground arith
client_key_id (negsuc n) own h = cc

server_key_id :
    (v : ℤ) (own : PublicCredentialsData)
    → get_server_public_data v ≡ some own
    → (own.key_id ≡ pos 20) ⊎ (own.key_id ≡ pos 21)
unfolding get_server_public_data
server_key_id (pos n) own h = ground arith
server_key_id (negsuc n) own h = cc

auth_verify-Refuses :
    (expected : PublicCredentialsData) (c : AuthCreds)
    → eq_ℤ expected.key_id c.key_id_int ≡ false
    → Refuses (some (auth_verify (some c) expected))
unfolding auth_verify
auth_verify-Refuses expected c h = ground arith

-- A client never takes its own credentials for the server's, whatever the two suites, as long as the
-- second has its metadata: what it fetched itself, sent back to it, fails and gives no key.
pub reflected-Refuses :
    (import_key : ImportKey) (d d' : CipherSuiteDetails) (c : Option AuthCreds)
    (sent received : AuthCreds) (v' : ℤ)
    → client_credential_fetch import_key d c ≡ some (true, some sent)
    → SameId sent received
    → suite_value d' ≡ some v'
    → Refuses (client_credential_verify d' (some received))
unfolding client_credential_verify
reflected-Refuses import_key d d' c sent received v' h s value' =
    let (v, own, value, has, f) = client-Fetched import_key d c sent h in
    elim (Option-cases (get_server_public_data v')) [
      | inl n ↦ rw (value', n) (refl, refl)
      | inr (expected, e) ↦
          let other : eq_ℤ expected.key_id received.key_id_int ≡ false =
            rw (s.key_id, f.own_id)
              (ids_differ (client_key_id v own has) (server_key_id v' expected e)) in
          rw (value', e) (auth_verify-Refuses expected received other)
    ]
  where
    ids_differ :
        {a b : ℤ} → (a ≡ pos 18) ⊎ (a ≡ pos 19) → (b ≡ pos 20) ⊎ (b ≡ pos 21) → eq_ℤ b a ≡ false
    ids_differ (inl x) (inl y) = rw (x, y) refl
    ids_differ (inl x) (inr y) = rw (x, y) refl
    ids_differ (inr x) (inl y) = rw (x, y) refl
    ids_differ (inr x) (inr y) = rw (x, y) refl
