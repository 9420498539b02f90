-- ===== src/Protocol/Address.antt =====
-- ServerAddress and the server lists of common/protocol.cpp.
use sis_op.Base.{ℕ, ◌%◌, ◌^◌, ◌<◌, ◌≡◌, some, List, length, and_then, All, arith, subst, sym}
use sis_op.Base.Keys.{Bytes}
use sis_op.Protocol.Writer
use sis_op.Protocol.Reader
use sis_op.Protocol.Reader.{Reader, ◌>>=◌, return}
use sis_op.Protocol.Carries.{
  Carries, WriterStep, Carries-bind, Carries-map, Carries-u16, Carries-u32, Carries-str,
  Carries-each, write_each, and_write,
}

pub record ServerAddress : Type 0 where
  pub id : ℕ
  pub host : Bytes
  pub port : ℕ

unfoldable pub write_server : ServerAddress → WriterStep
write_server server buf =
    and_then (Writer.str server.host (Writer.u32 server.id buf))
      (λ b. some (Writer.u16 server.port b))

unfoldable pub read_server : Reader ServerAddress
read_server = do
  id ← Reader.u32
  host ← Reader.str
  port ← Reader.u16
  return (record { id = id; host = host; port = port })

unfoldable pub write_servers : List ServerAddress → WriterStep
write_servers servers buf =
    write_each write_server servers (Writer.u16 (Writer.cast 16 (length servers)) buf)

unfoldable pub read_servers : Reader (List ServerAddress)
read_servers = do count ← Reader.u16; Reader.repeat count read_server

-- The types of the struct's fields, and a host that the protocol can carry.
pub record FitsAddress (server : ServerAddress) : Type 0 where
  pub id_fits : server.id < 2 ^ 32
  pub host_fits : length server.host < 2 ^ 16
  pub port_fits : server.port < 2 ^ 16

pub Carries-server : (s : ServerAddress) → FitsAddress s → Carries (write_server s) read_server s
unfolding write_server read_server
Carries-server s f =
    Carries-bind {w = λ buf. some (Writer.u32 s.id buf)}
      {v = and_write (Writer.str s.host) (λ b. some (Writer.u16 s.port b))}
      (λ id. do
        host ← Reader.str
        port ← Reader.u16
        return (record { id = id; host = host; port = port }))
      (Carries-u32 s.id f.id_fits)
      (Carries-bind {w = Writer.str s.host} {v = λ b. some (Writer.u16 s.port b)}
        (λ host. do port ← Reader.u16; return (record { id = s.id; host = host; port = port }))
        (Carries-str s.host f.host_fits)
        (Carries-map (λ port. record { id = s.id; host = s.host; port = port })
          (Carries-u16 s.port f.port_fits)))

-- A list of at most 65535 addresses whose fields fit their types is written without error and read back as it was, whatever
-- the payload holds before and after it.
pub read_servers-write_servers :
    (l : List ServerAddress)
    → length l < 2 ^ 16
    → All FitsAddress l
    → Carries (write_servers l) read_servers l
unfolding write_servers read_servers
read_servers-write_servers l short fits =
    Carries-bind {w = λ buf. some (Writer.u16 (Writer.cast 16 (length l)) buf)}
      {v = write_each write_server l} (λ count. Reader.repeat count read_server)
      (Carries-u16 (length l % 2 ^ 16) (omega arith))
      (subst (λ n. Carries (write_each write_server l) (Reader.repeat n read_server) l) (sym whole)
        (Carries-each FitsAddress write_server read_server Carries-server l fits))
  where
    whole : length l % 2 ^ 16 ≡ length l
    whole = omega arith
