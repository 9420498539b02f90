-- ===== src/Server/Health/Status.antt =====
-- handle_status of server/cluster.cpp against probe of server/health.cpp: what one server's monitor makes of
-- another's state.
use sis_op.Base.{
  ℕ, ◌≡◌, refl, subst, Bool, true, false, not, ◌&&◌, Option, none, some, [], ◌==◌, if◌then◌else◌,
  arith,
}
use sis_op.Base.Keys.{Bytes}
use sis_op.Protocol.Address.{ServerAddress, FitsAddress, Carries-server, write_server, read_server}
use sis_op.Protocol.Carries.{
  Carries, Carries-bind, Carries-map, Carries-u8, Carries-whole, and_write,
}
use sis_op.Protocol.Writer
use sis_op.Protocol.Reader
use sis_op.Protocol.Reader.{◌>>=◌, return}
use sis_op.Server.Cluster.{Cluster, Role, is_primary, primary_address}
use sis_op.Server.Health.{
  Endpoint, Health, shown, up, separate, split, role_code, write_status, read_status, same_server,
  judge, probe, nowhere,
}

abbrev known_byte : Bool → ℕ
known_byte known = if known then 1 else 0

known_byte-read : (known : Bool) → not (known_byte known == 0) ≡ known
known_byte-read true = refl
known_byte-read false = refl

status-Carries :
    (p : Cluster)
    → FitsAddress (shown p)
    → Carries {A = ℕ × Bool × ServerAddress}
        (write_status p)
        read_status
        (role_code p.role, p.primary_known, shown p)
unfolding write_status read_status
status-Carries p fits =
    Carries-bind {w = λ buf. some (Writer.u8 (role_code p.role) buf)}
      {v = and_write (λ buf. some (Writer.u8 (known_byte p.primary_known) buf))
        (write_server (shown p))}
      (λ role. do known ← Reader.u8; leader ← read_server; return (role, not (known == 0), leader))
      (Carries-u8 (role_code p.role))
      (Carries-bind {w = λ buf. some (Writer.u8 (known_byte p.primary_known) buf)}
        {v = write_server (shown p)}
        (λ known. do leader ← read_server; return (role_code p.role, not (known == 0), leader))
        (Carries-u8 (known_byte p.primary_known))
        (subst
          (λ known.
            Carries {A = ℕ × Bool × ServerAddress} (write_server (shown p))
              (do
                leader ← read_server
                return (role_code p.role, not (known_byte p.primary_known == 0), leader))
              (role_code p.role, known, shown p))
          (known_byte-read p.primary_known)
          (Carries-map (λ leader. (role_code p.role, not (known_byte p.primary_known == 0), leader))
            (Carries-server (shown p) fits))))

-- The primary that this server follows is at the address of that one.
abbrev pub agrees : (Bytes → Bytes) → Option ServerAddress → ServerAddress → Bool
agrees resolve none theirs = false
agrees resolve (some ours) theirs = same_server resolve theirs.host theirs.port ours.host ours.port

-- What the monitor should make of a server in this state, that is no member of this server's cluster.
abbrev pub verdict : (Bytes → Bytes) → Option ServerAddress → Cluster → Health
verdict resolve ours p =
    if is_primary p.role
    then separate
    else if p.primary_known && not (agrees resolve ours p.primary)
    then split
    else up

agrees-judged :
    (resolve : Bytes → Bytes) (server : Endpoint) (ours : Option ServerAddress)
    (theirs : ServerAddress) (role : ℕ)
    → (role == 2) ≡ false
    → (judge resolve server ours (role, true, theirs)).0
      ≡ (if not (agrees resolve ours theirs) then split else up)
unfolding judge
agrees-judged resolve server none theirs role other = ground arith
agrees-judged resolve server (some leader) theirs role other = ground arith

judge-verdict :
    (resolve : Bytes → Bytes) (server : Endpoint) (ours : Option ServerAddress) (role : Role)
    (known : Bool) (leader : ServerAddress)
    → (judge resolve server ours (role_code role, known, (if known then leader else nowhere))).0 ≡ (
        if is_primary role
        then separate
        else if known && not (agrees resolve ours leader)
        then split
        else up)
unfolding judge role_code is_primary
judge-verdict resolve server ours Role.primary known leader = refl
judge-verdict resolve server ours Role.backup true leader =
    agrees-judged resolve server ours leader 1 refl
judge-verdict resolve server ours Role.joining true leader =
    agrees-judged resolve server ours leader 0 refl
judge-verdict resolve server ours Role.backup false leader = refl
judge-verdict resolve server ours Role.joining false leader = refl

-- A server that answers with its state, whose primary's address fits in the reply: the monitor of another server, which does not list it as a member, takes a
-- primary for a separate one, a server that knows a primary other than the monitor's for split off, and any other server for up.
pub probe-verdict :
    (resolve : Bytes → Bytes) (server : Endpoint) (c p : Cluster) (payload : Bytes)
    → FitsAddress (shown p)
    → write_status p [] ≡ some payload
    → (probe resolve server (primary_address c) (some payload)).0
      ≡ verdict resolve (primary_address c) p
unfolding probe
probe-verdict resolve server c p payload fits wrote =
    rw (Carries-whole payload (status-Carries p fits) wrote, probe)
      (judge-verdict resolve server (primary_address c) p.role p.primary_known p.primary)
