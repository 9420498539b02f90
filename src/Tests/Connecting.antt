-- ===== src/Tests/Connecting.antt =====
-- A client: the servers that it tries, its commands, its queue and the pushes that it receives.
use sis_op.Base.{
  ◌⊎◌, Option, none, List, ◌==◌, ℕ, zero, suc, ◌≡◌, ◌++◌, refl, true, false, some, [], ◌∷◌, length,
  arith,
}
use sis_op.Base.Int.{pos}
use sis_op.Base.Keys.{Bytes, bytes_key}
use sis_op.Protocol.Names.{text}
use sis_op.Protocol.Msg.{Msg}
use sis_op.Protocol.Writer
use sis_op.Protocol.Reader
use sis_op.Protocol.Carries.{write_each}
use sis_op.Server.Incoming.{receive_to}
use sis_op.Protocol.Address.{ServerAddress, write_servers}
use sis_op.Files.Info.{FileInfo, FitsInfo, write_file_header, read_file_header, write_file_info}
use sis_op.Files.System.Memory.{memory, memory-IsPosix}
use sis_op.Files.Transfer.{message, recv_file_body, recv_loop}
use sis_op.Client.Connect.{
  ConnectResult, Candidate, Attempt, candidates, connect_once, write_redirect, write_login_ok,
  by_id,
}
use sis_op.Client.Connect.Reaches.{Honest, replies, connect_once-Honest, connect_once-redirected}
use sis_op.Client.Push.{Synced, Place, handle_push, handle_push_file, finish_push}
use sis_op.Client.Push.Failed.{Untouched, handle_push-failed}
use sis_op.Client.Queue.{Reached, start, enqueued, InStep, enqueue, Reached-InStep}
use sis_op.Connection.{CallResult}
use sis_op.Server.Requests.{file_list}
use sis_op.Client.Transact.{
  Line, Exchanged, failed, done, settle, transact, wait_for_connection, list_remote,
}
use sis_op.Client.Transact.Failed.{Lost, transact-failed}
use sis_op.Client.Transact.Listed.{list_remote-file_list}

abbrev leader : ServerAddress
leader = record { id = 1000; host = text "p"; port = 4000 }

-- The bytes of a Redirect to the leader, and of a LoginOk with the token "k" and no servers.
abbrev redirect_bytes : Bytes
redirect_bytes = 0 ∷ 1 ∷ 112 ∷ 15 ∷ 160 ∷ []

abbrev login_bytes : Bytes
login_bytes = 0 ∷ 1 ∷ 107 ∷ 0 ∷ 0 ∷ []

-- The first attempt meets a backup, the others the leader.
abbrev world : ℕ → Candidate → Attempt
world zero candidate = replies Msg.redirect redirect_bytes
world (suc n) candidate = replies Msg.login_ok login_bytes

abbrev given : Candidate
given = (text "b", 4001)

connect_once-Honest_example : Honest world (connect_once world [] given)
connect_once-Honest_example = connect_once-Honest world [] given

one_candidate : candidates [] given ≡ given ∷ []
unfolding candidates by_id
one_candidate = refl

redirect_written : write_redirect (some leader) [] ≡ some redirect_bytes
unfolding write_redirect Writer.str Writer.u16 Writer.u8
redirect_written = refl

login_written : write_login_ok (text "k") [] [] ≡ some login_bytes
unfolding write_login_ok Writer.str write_servers write_each Writer.u16 Writer.u8
login_written = refl

connect_once-redirected_example : connect_once world [] given ≡ record {
  result = ConnectResult.connected;
  session = some ((text "p", 4000), text "k", []);
  tried = given ∷ (text "p", 4000) ∷ [];
}
connect_once-redirected_example =
    connect_once-redirected world [] given given [] leader redirect_bytes (text "k") [] login_bytes
      one_candidate
      (record { id_fits = omega arith; host_fits = omega arith; port_fits = omega arith }) refl
      (omega arith) (omega arith) tt redirect_written login_written refl refl

one_waiting : Reached [] (enqueue (text "a") (record { queue = []; queued = [] }))
one_waiting = enqueued (text "a") [] _ start

Reached-InStep_example : InStep (enqueue (text "a") (record { queue = []; queued = [] }))
Reached-InStep_example =
    Reached-InStep [] (enqueue (text "a") (record { queue = []; queued = [] })) one_waiting

abbrev synced : Synced memory
synced = record { disk = []; state = []; servers = [] }

abbrev spot : Place memory
spot = record { root = text "s"; fuel = 3; stamp = text "now"; temp = text "t" }

abbrev info : FileInfo
info = record { name = text "a"; size = 2; mtime_ns = pos 5; hash = 0 }

abbrev header : Bytes
header = 0 ∷ 1 ∷ 97 ∷ 0 ∷ 0 ∷ 0 ∷ 0 ∷ 0 ∷ 0 ∷ 0 ∷ 2 ∷ 0 ∷ 0 ∷ 0 ∷ 0 ∷ 0 ∷ 0 ∷ 0 ∷ 5 ∷ []

push_lost : (handle_push memory spot Msg.push_file header [] synced).1 ≡ false
unfolding handle_push read_file_header Reader.str Reader.u16 Reader.take_bytes Reader.u64 Reader.u32
    Reader.i64 handle_push_file finish_push receive_to recv_file_body recv_loop
push_lost = refl

handle_push-failed_example :
    Untouched memory memory-IsPosix spot synced
      (handle_push memory spot Msg.push_file header [] synced).0
handle_push-failed_example =
    handle_push-failed memory memory-IsPosix spot Msg.push_file header [] synced push_lost

-- A list of one file.
abbrev list_bytes : Bytes
list_bytes = 0 ∷ 0 ∷ 0 ∷ 1 ∷ (header ++ (0 ∷ 0 ∷ 0 ∷ 0 ∷ 0 ∷ 0 ∷ 0 ∷ 0 ∷ []))

info-FitsInfo : FitsInfo info
info-FitsInfo = record {
  name_fits = omega arith;
  size_fits = omega arith;
  mtime_fits = omega arith;
  hash_fits = omega arith;
}

list_written : file_list (info ∷ []) ≡ some list_bytes
unfolding file_list write_each write_file_info write_file_header Writer.str Writer.u64 Writer.u32
    Writer.u16 Writer.u8 Writer.i64
list_written = refl

list_remote-file_list_example :
    list_remote (some (message Msg.file_list list_bytes)) ≡ some (done (info ∷ []))
list_remote-file_list_example =
    list_remote-file_list (info ∷ []) list_bytes (omega arith) (info-FitsInfo, tt) list_written

abbrev line : Line
line = record { connected = true; cmd = 3 }

abbrev lost : Option (Exchanged (List FileInfo))
lost = some failed

transact-lost : (transact false line line lost).1.result ≡ CallResult.failed
unfolding transact wait_for_connection settle
transact-lost = refl

transact-failed_example :
    ((length (transact false line line lost).1.error == 0) ≡ false)
    × (((wait_for_connection false line ≡ none) × ((transact false line line lost).0 ≡ line))
        ⊎ ((cmd : ℕ) × (wait_for_connection false line ≡ some cmd)
            × Lost cmd line (transact false line line lost).0))
transact-failed_example = transact-failed false line line lost transact-lost
