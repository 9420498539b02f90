-- ===== src/Tests/Serving.antt =====
-- A server with an in-memory file system.
use sis_op.Base.{
  ℕ, zero, suc, ◌<◌, ◌≡◌, ◌⊎◌, ◌↔◌, refl, true, false, none, some, List, [], ◌∷◌, length, arith,
  All,
}
use sis_op.Base.Int.{pos}
use sis_op.Base.Keys.{Bytes, same, bytes_key, bytes_cmp}
use sis_op.Base.Dict.{lookup, insert}
use sis_op.Protocol.Names.{text}
use sis_op.Protocol.Msg
use sis_op.Protocol.Msg.{Message}
use sis_op.Protocol.Address.{ServerAddress}
use sis_op.Files.Names.{join_path, is_valid_username, all_chars}
use sis_op.Files.System.{File}
use sis_op.Files.System.Memory.{memory, memory-IsPosix}
use sis_op.Files.Transfer.{message}
use sis_op.Server.Storage.{user_dir, file_path}
use sis_op.Server.Accounts.{Derive, create, write, make_record, verify, is_valid_record, iterations}
use sis_op.Server.Accounts.Records.{IsDerived, verify-make_record}
use sis_op.Server.Cluster.{Role, is_primary}
use sis_op.Server.Sessions.{to_hex, is_none, open_session, count, open_with, random_token}
use sis_op.Server.Accounts
use sis_op.Protocol.Writer
use sis_op.Protocol.Reader
use sis_op.Files.System.Memory
use sis_op.Server.Login.{
  Desk, Chance, login_ok, login, authenticate, is_valid_password, enter, after_creation,
  create_account, welcome,
}
use sis_op.Server.Login.Granted.{LetIn, login-LetIn}
use sis_op.Server.Replication.{Backup}
use sis_op.Server.Incoming.{Store}
use sis_op.Server.Requests.{Request, read_delete, handle_delete}
use sis_op.Server.Requests.Loop.{Turn, serve_requests}
use sis_op.Server.Requests.Told.{IsAccounted, LeavesAlone, serve_requests-IsAccounted}
use sis_op.Server.Requests.Served.{Refused, Deleted, handle_delete_lem}

abbrev file : File
file = record { content = 1 ∷ 2 ∷ []; mtime_ns = pos 5 }

abbrev temp : Bytes
temp = text "t"

-- A file that has arrived.
abbrev disk : memory.Disk
disk = (temp, file) ∷ []

there : memory.read disk temp ≡ some file
unfolding lookup bytes_cmp
there = refl

abbrev request : Request memory
request = record {
  root = text "d";
  temp = temp;
  user = text "ana";
  token = text "01";
  sessions = [];
  room = 8;
  walk = [];
}

-- The user's folder holds one file.
abbrev stored_path : Bytes
stored_path = file_path (text "d") (text "ana") (text "a")

abbrev one_file : memory.Disk
one_file = (stored_path, file) ∷ []

abbrev store : Store memory
store = record { disk = one_file; cache = [] }

-- An upload of one byte as "b", from a command.
abbrev upload_payload : Bytes
upload_payload = 0 ∷ 0 ∷ 1 ∷ 98 ∷ 0 ∷ 0 ∷ 0 ∷ 0 ∷ 0 ∷ 0 ∷ 0 ∷ 1 ∷ 0 ∷ 0 ∷ 0 ∷ 0 ∷ 0 ∷ 0 ∷ 0 ∷ 7 ∷ []

abbrev body : List Message
body = message Msg.file_data (5 ∷ []) ∷ message Msg.file_end [] ∷ []

abbrev delete_payload : Bytes
delete_payload = 1 ∷ 0 ∷ 1 ∷ 97 ∷ []

handle_delete_lem_example :
    Refused memory memory-IsPosix store (handle_delete memory request store delete_payload)
    ⊎ ((origin : ℕ) × (path : Bytes) × (rest : Bytes) × (read_delete delete_payload
          ≡ some ((origin, path), rest))
        × Deleted memory memory-IsPosix request store path
            (handle_delete memory request store delete_payload))
handle_delete_lem_example = handle_delete_lem memory memory-IsPosix request store delete_payload

-- A session that uploads "b" and then deletes "a".
abbrev uploading : Turn memory
uploading = record {
  others = λ s. s;
  primary = true;
  request = request;
  message = message Msg.upload upload_payload;
  messages = body;
}

abbrev deleting : Turn memory
deleting = record uploading { message = message Msg.delete delete_payload; messages = [] }

apart : same temp stored_path ≡ false
unfolding bytes_cmp file_path join_path user_dir
apart = refl

turns-LeavesAlone :
    All (LeavesAlone memory memory-IsPosix (text "d") stored_path) (uploading ∷ deleting ∷ [])
turns-LeavesAlone = ((refl, apart, λ s. refl), ((refl, apart, λ s. refl), tt))

serve_requests-IsAccounted_example :
    let run = serve_requests memory (uploading ∷ deleting ∷ []) store in
    IsAccounted memory memory-IsPosix (text "d") stored_path store run.0 run.1
serve_requests-IsAccounted_example =
    serve_requests-IsAccounted memory memory-IsPosix (text "d") stored_path
      (uploading ∷ deleting ∷ []) store turns-LeavesAlone

abbrev repeated : ℕ → ℕ → Bytes
repeated zero b = []
repeated (suc n) b = b ∷ repeated n b

repeated-bytes : (n b : ℕ) → b < 256 → All (λ c. c < 256) (repeated n b)
repeated-bytes zero b h = tt
repeated-bytes (suc n) b h = (h, repeated-bytes n b h)

-- A key derivation that gives 32 times the length of the password.
abbrev derive : Derive
derive password salt n = some (repeated 32 (length password))

abbrev salt : Bytes
salt = 1 ∷ 2 ∷ []

derived : IsDerived derive salt (text "secret") (repeated 32 6)
derived = record {
  salt_bytes = (omega arith, (omega arith, tt));
  salt_some = omega arith;
  derived = refl;
  hash_bytes = repeated-bytes 32 6 (omega arith);
  hash_length = refl;
}

verify-make_record_example :
    let account = make_record derive (some salt) (text "secret") in
    (is_valid_record account ≡ true)
    × (verify derive account (text "secret") ≡ true)
    × ((verify derive account (text "other") ≡ true)
        ↔ (derive (text "other") salt iterations ≡ some (repeated 32 6)))
verify-make_record_example =
    verify-make_record derive salt (text "secret") (text "other") (repeated 32 6) derived

abbrev chance : Chance
chance = record {
  salt = some salt;
  token = some (5 ∷ []);
  written = true;
  folder = true;
  others = λ files. files;
}

abbrev server : ServerAddress
server = record { id = 1000; host = text "10.0.0.9"; port = 4000 }

abbrev desk : Desk
desk = record {
  cluster = record {
    self = server;
    role = Role.primary;
    primary = server;
    primary_known = true;
    members = server ∷ [];
    lowest_id = 1000;
    links = [];
    primary_link = none;
    building_manifest = false;
    coordinator_seen = false;
  };
  accounts = [];
  sessions = [];
}

logged_in :
    (login derive chance 4 (text "ana") (text "secret") desk).1 ≡ login_ok (text "05") (server ∷ [])
unfolding login authenticate is_primary is_valid_username all_chars is_valid_password enter
    Accounts.get lookup after_creation create_account make_record to_hex create is_none write
    welcome open_session count insert open_with random_token bytes_cmp
logged_in = refl

login-LetIn_example :
    LetIn derive 4
      (text "ana")
      (text "secret")
      (text "05")
      desk
      (login derive chance 4 (text "ana") (text "secret") desk).0
login-LetIn_example =
    login-LetIn derive salt (text "secret") (repeated 32 6) derived chance refl 4 (text "ana") desk
      (text "05") (server ∷ []) logged_in

-- A backup without files.
abbrev backup : Backup memory
backup = record { root = text "r"; temp = temp; store = record { disk = []; cache = [] } }

abbrev backup_after : Store memory
backup_after = record { disk = (text "r/users/ana/a", file) ∷ []; cache = [] }
