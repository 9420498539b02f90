-- ===== src/Client/Push/Failed.antt =====
-- What a push that fails leaves.
use sis_op.Base.{ℕ, ◌≡◌, refl, false, List, Option-cases, inl, inr}
use sis_op.Base.Keys.{Bytes}
use sis_op.Protocol.Msg.{Msg, Message}
use sis_op.Protocol.Reader
use sis_op.Protocol.Address.{read_servers}
use sis_op.Files.Info.{FileInfo, read_file_header}
use sis_op.Files.System.{FileSystem, IsPosix}
use sis_op.Files.Transfer.{TransferResult}
use sis_op.Server.Incoming.{receive_to}
use sis_op.Server.Incoming.Stored.{SameBut, receive_to-SameBut}
use sis_op.Client.Push.{Synced, Place, finish_push, handle_push_file, handle_push}

module _ (F : FileSystem) (posix : IsPosix F) where
  -- Nothing of the client's changed but the temporary file.
  abbrev pub Untouched : Place F → Synced F → Synced F → Type 0
  Untouched c w w' =
      (w'.state ≡ w.state) × (w'.servers ≡ w.servers) × SameBut F posix c.temp w.disk w'.disk

  same_world : (c : Place F) (w : Synced F) → Untouched c w w
  same_world c w = (refl, refl, λ p ne. refl)

  finish_push-failed :
      (c : Place F) (info : FileInfo) (w w' : Synced F) (result : TransferResult)
      → Untouched c w w'
      → (finish_push F c info w' result).1 ≡ false
      → Untouched c w (finish_push F c info w' result).0
  unfolding finish_push
  finish_push-failed c info w w' TransferResult.connection_lost same failed = same
  finish_push-failed c info w w' TransferResult.ok same failed = cc failed
  finish_push-failed c info w w' _ same failed = cc failed

  received-Untouched :
      (c : Place F) (size : ℕ) (body : List Message) (w : Synced F)
      → Untouched c w (record w { disk = (receive_to F w.disk c.temp size body).0 })
  received-Untouched c size body w =
      (refl, refl, receive_to-SameBut F posix w.disk c.temp size body)

  -- A push after which the client gives its sync connection up, since the payload is malformed or the connection
  -- was lost, changes neither the sync state nor the list of servers nor any file but the temporary one.
  pub handle_push-failed :
      (c : Place F) (type : Msg) (payload : Bytes) (body : List Message) (w : Synced F)
      → (handle_push F c type payload body w).1 ≡ false
      → Untouched c w (handle_push F c type payload body w).0
  unfolding handle_push handle_push_file
  handle_push-failed c Msg.push_file payload body w failed =
      elim (Option-cases (read_file_header payload)) [
        | inl e ↦ rw (e, handle_push) (same_world c w)
        | inr ((info, rest), e) ↦
            rw (e, handle_push)
              (finish_push-failed c _ w _ _ (received-Untouched c info.size body w)
                (rw (e, handle_push) at failed))
      ]
  handle_push-failed c Msg.push_delete payload body w failed =
      elim (Option-cases (Reader.str payload)) [
        | inl e ↦ rw (e, handle_push) (same_world c w)
        | inr (x, e) ↦ cc (rw (e, handle_push) at failed)
      ]
  handle_push-failed c Msg.server_list payload body w failed =
      elim (Option-cases (read_servers payload)) [
        | inl e ↦ rw (e, handle_push) (same_world c w)
        | inr (x, e) ↦ cc (rw (e, handle_push) at failed)
      ]
  handle_push-failed c Msg.notice payload body w failed = elim (Option-cases (Reader.str payload)) [
    | inl e ↦ rw (e, handle_push) (same_world c w)
    | inr (x, e) ↦ cc (rw (e, handle_push) at failed)
  ]
  handle_push-failed c _ payload body w failed = cc failed
