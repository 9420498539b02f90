-- ===== src/Client/Connect/Reaches.antt =====
-- Where connect_once ends.
use sis_op.Base.{
  ℕ, zero, suc, ◌<◌, ◌^◌, ◌≡◌, refl, ap, ◌∙◌, Bool, true, false, Option, none, some, List, [], ◌∷◌,
  length, All, ◌==◌, ◌⊎◌, inl, inr, if-both, Bool-cases, Option-cases,
}
use sis_op.Base.Keys.{Bytes}
use sis_op.Protocol.Msg.{Msg}
use sis_op.Protocol.Address.{
  ServerAddress, FitsAddress, write_servers, read_servers, read_servers-write_servers,
}
use sis_op.Protocol.Carries.{
  Carries, Carries-bind, Carries-map, Carries-str, Carries-u16, Carries-whole,
}
use sis_op.Protocol.Writer
use sis_op.Protocol.Reader
use sis_op.Protocol.Reader.{◌>>=◌, return}
use sis_op.Files.Transfer.{message}
use sis_op.Client.Connect.{
  ConnectResult, Candidate, Attempt, write_redirect, read_redirect, write_login_ok, read_login_ok,
  candidates, Step, go_on, login_refused, login_accepted, follow_redirect, handle_reply, try_server,
  with_redirect, Connected, conclude, after, try_all, max_attempts, connect_once,
}

-- What holds of the loop's end, whatever it ends with, holds after an attempt.
conclude-keeps :
    (P : Connected → Type 0) (next : ConnectResult → Option Candidate → Connected)
    (result : ConnectResult) (candidate : Candidate) (step : Step)
    → ((i : Option Candidate) → P (after candidate (next result i)))
    → P (after candidate (next ConnectResult.refused none))
    → ((token : Bytes) (servers : List ServerAddress)
        → step ≡ login_accepted token servers
        → P (conclude next result candidate (login_accepted token servers)))
    → P (conclude next result candidate step)
unfolding conclude
conclude-keeps P next result candidate (go_on inserted) again refused done = again inserted
conclude-keeps P next result candidate login_refused again refused done = refused
conclude-keeps P next result candidate (login_accepted token servers) again refused done =
    done token servers refl

abbrev pub is_connected : ConnectResult → Bool
is_connected ConnectResult.connected = true
is_connected _ = false

abbrev token_of : Step → Bytes
token_of (login_accepted token servers) = token
token_of _ = []

abbrev servers_of : Step → List ServerAddress
servers_of (login_accepted token servers) = servers
servers_of _ = []

accepted_injective :
    {t u : Bytes} {s r : List ServerAddress}
    → login_accepted t s ≡ login_accepted u r
    → (t ≡ u) × (s ≡ r)
accepted_injective h = (ap token_of h, ap servers_of h)

module _ (world : ℕ → Candidate → Attempt) where
  -- The rest of the loop after an attempt.
  abbrev again : ℕ → ℕ → List Candidate → ConnectResult → Option Candidate → Connected
  again left number rest result inserted =
      try_all world (suc number) left result (with_redirect inserted rest)

  -- A server at this address answered the login with a LoginOk of this token and these servers, and then
  -- accepted the sync connection.
  abbrev Accepted : Candidate → Bytes → List ServerAddress → Type 0
  Accepted candidate token servers =
      (number : ℕ) × (payload : Bytes) × (rest : Bytes) × ((world number candidate).reply
        ≡ some (message Msg.login_ok payload))
      × (read_login_ok payload ≡ some ((token, servers), rest))
      × ((world number candidate).attached ≡ true)

  handle_reply-accepted :
      (attached : Bool) (type : Msg) (payload token : Bytes) (servers : List ServerAddress)
      → handle_reply attached type payload ≡ login_accepted token servers
      → (type ≡ Msg.login_ok)
        × (rest : Bytes) × (read_login_ok payload ≡ some ((token, servers), rest))
        × (attached ≡ true)
  unfolding handle_reply
  handle_reply-accepted attached Msg.login_ok payload token servers h =
      elim (Option-cases (read_login_ok payload)) [
        | inl e ↦ cc (rw (e, handle_reply) at h)
        | inr (((t, s), rest), e) ↦ elim (Bool-cases attached) [
          | inr off ↦ cc (rw off at (rw (e, handle_reply) at h))
          | inl on ↦
              let (same_token, same_servers) =
                accepted_injective (rw on at (rw (e, handle_reply) at h)) in
              (refl, rest, rw (← same_token, ← same_servers) e, on)
        ]
      ]
  handle_reply-accepted attached Msg.redirect payload token servers h =
      elim (Option-cases (read_redirect payload)) [
        | inl e ↦ cc (rw (e, handle_reply) at h)
        | inr ((candidate, rest), e) ↦ cc (rw (e, handle_reply) at h)
      ]
  handle_reply-accepted attached _ payload token servers h = cc h

  try_server-Accepted :
      (number : ℕ) (candidate : Candidate) (token : Bytes) (servers : List ServerAddress)
      → try_server (world number candidate) ≡ login_accepted token servers
      → Accepted candidate token servers
  unfolding try_server
  try_server-Accepted number candidate token servers h =
      elim (Option-cases (world number candidate).reply) [
        | inl e ↦ cc (rw (e, try_server) at h)
        | inr (m, e) ↦
            let (login, rest, read, attached) =
              handle_reply-accepted (world number candidate).attached m.type m.payload token servers
                (rw (e, try_server) at h) in
            (
              number,
              m.payload,
              rest,
              e ∙ ap (λ t. some (message t m.payload)) login,
              read,
              attached,
            )
      ]

  -- There is a session exactly if the result says so, and it is with a server that accepted.
  abbrev pub Honest : Connected → Type 0
  Honest c =
      ((is_connected c.result ≡ false) × (c.session ≡ none))
      ⊎ ((candidate : Candidate) × (token : Bytes) × (servers : List ServerAddress) × (c.result
            ≡ ConnectResult.connected)
          × (c.session ≡ some (candidate, token, servers))
          × Accepted candidate token servers)

  try_all-Honest :
      (left number : ℕ) (result : ConnectResult) (list : List Candidate)
      → is_connected result ≡ false
      → Honest (try_all world number left result list)
  unfolding try_all conclude
  try_all-Honest left number result [] h = inl (h, refl)
  try_all-Honest zero number result (candidate ∷ rest) h = inl (h, refl)
  try_all-Honest (suc left) number result (candidate ∷ rest) h =
      if-both Honest (world number candidate).stopping (inl (h, refl)) (
        conclude-keeps Honest (again left number rest) result candidate
          (try_server (world number candidate))
          (λ i. try_all-Honest left (suc number) result (with_redirect i rest) h)
          (try_all-Honest left (suc number) ConnectResult.refused rest refl)
          (λ token servers e. inr (
            candidate,
            token,
            servers,
            refl,
            refl,
            try_server-Accepted number candidate token servers e,
          )))

  -- The client says that it is connected exactly if it has a session, and then a server at the
  -- session's address answered the login with a LoginOk of the session's token and servers, and accepted the sync
  -- connection.
  pub connect_once-Honest :
      (known : List ServerAddress) (given : Candidate) → Honest (connect_once world known given)
  unfolding connect_once
  connect_once-Honest known given =
      try_all-Honest max_attempts 0 ConnectResult.unreachable (candidates known given) refl

-- An attempt whose reply is this message.
abbrev pub replies : Msg → Bytes → Attempt
replies type payload = record {
  reply = some (message type payload);
  attached = true;
  stopping = false;
}

-- An attempt at the first address of the list.
attempted :
    (world : ℕ → Candidate → Attempt) (left number : ℕ) (result : ConnectResult)
    (candidate : Candidate) (rest : List Candidate) (type : Msg) (payload : Bytes) (step : Step)
    → world number candidate ≡ replies type payload
    → try_server (replies type payload) ≡ step
    → try_all world number (suc left) result (candidate ∷ rest)
      ≡ conclude (again world left number rest) result candidate step
unfolding try_all
attempted world left number result candidate rest type payload step e s = rw (e, s) refl

-- What a Redirect carries.
redirect-Carries :
    (leader : ServerAddress)
    → FitsAddress leader
    → Carries {A = Candidate}
        (write_redirect (some leader))
        read_redirect
        (leader.host, leader.port)
unfolding write_redirect read_redirect
redirect-Carries leader fits =
    Carries-bind {w = Writer.str leader.host} {v = λ buf. some (Writer.u16 leader.port buf)}
      (λ host. do port ← Reader.u16; return (host, port)) (Carries-str leader.host fits.host_fits)
      (Carries-map (λ port. (leader.host, port)) (Carries-u16 leader.port fits.port_fits))

-- What a LoginOk carries.
login_ok-Carries :
    (token : Bytes) (servers : List ServerAddress)
    → length token < 2 ^ 16
    → length servers < 2 ^ 16
    → All FitsAddress servers
    → Carries {A = Bytes × List ServerAddress}
        (write_login_ok token servers)
        read_login_ok
        (token, servers)
unfolding write_login_ok read_login_ok
login_ok-Carries token servers short few fits =
    Carries-bind {w = Writer.str token} {v = write_servers servers}
      (λ token. do servers ← read_servers; return (token, servers)) (Carries-str token short)
      (Carries-map (λ servers. (token, servers)) (read_servers-write_servers servers few fits))

redirected :
    (leader : ServerAddress) (payload : Bytes)
    → FitsAddress leader
    → (length leader.host == 0) ≡ false
    → write_redirect (some leader) [] ≡ some payload
    → try_server (replies Msg.redirect payload) ≡ go_on (some (leader.host, leader.port))
unfolding try_server handle_reply follow_redirect
redirected leader payload fits named wrote =
    rw (Carries-whole payload (redirect-Carries leader fits) wrote, handle_reply, try_server)
      (rw (named, follow_redirect) refl)

accepted :
    (token : Bytes) (servers : List ServerAddress) (payload : Bytes)
    → length token < 2 ^ 16
    → length servers < 2 ^ 16
    → All FitsAddress servers
    → write_login_ok token servers [] ≡ some payload
    → try_server (replies Msg.login_ok payload) ≡ login_accepted token servers
unfolding try_server handle_reply
accepted token servers payload short few fits wrote =
    rw
      (
        Carries-whole payload (login_ok-Carries token servers short few fits) wrote,
        handle_reply,
        try_server,
      )
      refl

-- A client whose first attempt meets a backup, which redirects it to the primary that it knows, and whose second meets that primary, which
-- accepts it: it is connected to the primary, with the token and the servers that the primary sent, whatever other addresses it knows.
pub connect_once-redirected :
    (world : ℕ → Candidate → Attempt) (known : List ServerAddress) (given backup : Candidate)
    (rest : List Candidate) (leader : ServerAddress) (redirect_payload : Bytes) (token : Bytes)
    (servers : List ServerAddress) (login_payload : Bytes)
    → candidates known given ≡ backup ∷ rest
    → FitsAddress leader
    → (length leader.host == 0) ≡ false
    → length token < 2 ^ 16
    → length servers < 2 ^ 16
    → All FitsAddress servers
    → write_redirect (some leader) [] ≡ some redirect_payload
    → write_login_ok token servers [] ≡ some login_payload
    → world 0 backup ≡ replies Msg.redirect redirect_payload
    → world 1 (leader.host, leader.port) ≡ replies Msg.login_ok login_payload
    → connect_once world known given ≡ record {
      result = ConnectResult.connected;
      session = some ((leader.host, leader.port), token, servers);
      tried = backup ∷ (leader.host, leader.port) ∷ [];
    }
unfolding connect_once conclude
connect_once-redirected world known given backup rest leader redirect_payload token servers
      login_payload first fits named short few fit_servers redirects logs at_backup at_primary =
    let step0 = redirected leader redirect_payload fits named redirects in
    let step1 = accepted token servers login_payload short few fit_servers logs in
    let unreached = ConnectResult.unreachable in
    rw (first, connect_once)
      (attempted world 19 0 unreached backup rest Msg.redirect redirect_payload _ at_backup step0
        ∙ ap (after backup) (
            attempted world 18 1 unreached (leader.host, leader.port) rest Msg.login_ok
              login_payload _ at_primary step1))
