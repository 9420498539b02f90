-- ===== src/Server/Requests/Told.antt =====
-- No change that a session makes to a file escapes the backups.
use sis_op.Base.{
  ◌≡◌, ◌⊎◌, refl, ◌∙◌, ap, subst, true, false, Option, length, ltb, none, some, List, [], ◌∷◌, ◌++◌,
  All, Bool-cases, Option-cases, inl, inr,
}
use sis_op.Base.Keys.{Bytes, same, bytes_key}
use sis_op.Protocol.Msg.{Msg, Message}
use sis_op.Protocol.Reader
use sis_op.Files.System.{FileSystem, IsPosix}
use sis_op.Connection.{max_payload}
use sis_op.Files.Names.{is_valid_path}
use sis_op.Files.Transfer.{TransferResult, Sent}
use sis_op.Server.Storage.{file_path}
use sis_op.Server.Incoming.{Store}
use sis_op.Server.Requests.{
  Effect, replicate_put, replicate_delete, Request, handle_request, handle_upload, handle_delete,
  handle_list, handle_download, refused, dropped, sent, reply_list, file_messages,
}
use sis_op.Server.Requests.Served.{handle_upload_lem, handle_delete_lem}
use sis_op.Server.Requests.Loop.{Turn, serve_turn, serve_requests}

-- The effect is the replication of a change at the path.
abbrev pub Replicates : Bytes → Bytes → Effect → Type 0
Replicates root p e =
    (user : Bytes) × (name : Bytes) × (same (file_path root user name) p ≡ true)
    × ((e ≡ replicate_put user name) ⊎ (e ≡ replicate_delete user name))

-- Some effect of the list replicates a change at the path.
pub data Told (root p : Bytes) : List Effect → Type 0 where
  here : {e : Effect} {effects : List Effect} → Replicates root p e → Told root p (e ∷ effects)
  there : {e : Effect} {effects : List Effect} → Told root p effects → Told root p (e ∷ effects)

Told-left :
    {root p : Bytes} {a : List Effect} (b : List Effect) → Told root p a → Told root p (a ++ b)
Told-left b (here r) = here r
Told-left b (there told) = there (Told-left b told)

Told-right :
    {root p : Bytes} (a : List Effect) {b : List Effect} → Told root p b → Told root p (a ++ b)
Told-right [] told = told
Told-right (e ∷ a) told = there (Told-right a told)

module _ (F : FileSystem) (posix : IsPosix F) where
  -- The file at the path is as it was, or its change was replicated.
  abbrev pub IsAccounted : Bytes → Bytes → Store F → Store F → List Effect → Type 0
  IsAccounted root p s s' effects = (F.read s'.disk p ≡ F.read s.disk p) ⊎ Told root p effects

  upload-IsAccounted :
      (q : Request F) (s : Store F) (payload : Bytes) (messages : List Message) (p : Bytes)
      → same q.temp p ≡ false
      → let out = handle_upload F q s payload messages in
        IsAccounted q.root p s out.store out.effects
  upload-IsAccounted q s payload messages p apart =
      elim (handle_upload_lem F posix q s payload messages) [
        | inl (kept, refusal) ↦ inl (kept p apart)
        | inr
              (
                origin,
                info,
                rest,
                parsed,
                (content, good, stored, len, (put, others), (more, effects)),
              ) ↦
            elim (Bool-cases (same (file_path q.root q.user info.name) p)) [
              | inl at_path ↦ inr (rw effects (here (q.user, info.name, at_path, inl refl)))
              | inr elsewhere ↦ inl (others p apart elsewhere)
            ]
      ]

  delete-IsAccounted :
      (q : Request F) (s : Store F) (payload : Bytes) (p : Bytes)
      → let out = handle_delete F q s payload in IsAccounted q.root p s out.store out.effects
  delete-IsAccounted q s payload p = elim (handle_delete_lem F posix q s payload) [
    | inl (kept, refusal) ↦ inl (kept p)
    | inr (origin, path, rest, parsed, (good, gone, (more, effects))) ↦
        elim (Bool-cases (same (file_path q.root q.user path) p)) [
          | inl at_path ↦ inr (rw effects (here (q.user, path, at_path, inr refl)))
          | inr elsewhere ↦ inl (gone p ∙ rw elsewhere refl)
        ]
  ]

  reply_list-disk :
      (q : Request F) (s : Store F) (payload : Option Bytes)
      → (reply_list F q s payload).store.disk ≡ s.disk
  unfolding reply_list dropped refused
  reply_list-disk q s none = refl
  reply_list-disk q s (some payload) = elim (Bool-cases (ltb max_payload (length payload))) [
    | inl large ↦ rw large refl
    | inr fits ↦ rw fits refl
  ]

  sent-disk : (q : Request F) (s : Store F) (out : Sent) → (sent F q s out).store.disk ≡ s.disk
  unfolding sent refused
  sent-disk q s out =
      elim out.result as (λ r. (sent F q s (record out { result = r })).store.disk ≡ s.disk) [
        | TransferResult.not_sent ↦ refl
        | TransferResult.connection_lost ↦ refl
        | TransferResult.ok ↦ refl
        | TransferResult.file_error ↦ refl
      ]

  handle_download-disk :
      (q : Request F) (s : Store F) (payload : Bytes)
      → (handle_download F q s payload).store.disk ≡ s.disk
  unfolding handle_download dropped refused
  handle_download-disk q s payload = elim (Option-cases (Reader.str payload)) [
    | inl e ↦ rw (e, handle_download) refl
    | inr ((path, rest), e) ↦ elim (Bool-cases (is_valid_path path)) [
      | inr bad ↦ rw (e, handle_download) (rw bad refl)
      | inl good ↦ elim (Option-cases (file_messages F q s path)) [
        | inl none_sent ↦ rw (e, handle_download) (rw (good, none_sent) refl)
        | inr (out, some_sent) ↦ rw (e, handle_download) (rw (good, some_sent) (sent-disk q s out))
      ]
    ]
  ]

  handle_request-IsAccounted :
      (q : Request F) (s : Store F) (type : Msg) (payload : Bytes) (messages : List Message)
      (p : Bytes)
      → same q.temp p ≡ false
      → let out = handle_request F q s (record { type = type; payload = payload }) messages in
        IsAccounted q.root p s out.store out.effects
  unfolding handle_request handle_list
  handle_request-IsAccounted q s Msg.upload payload messages p apart =
      upload-IsAccounted q s payload messages p apart
  handle_request-IsAccounted q s Msg.delete payload messages p apart =
      delete-IsAccounted q s payload p
  handle_request-IsAccounted q s Msg.download payload messages p apart =
      inl (ap (λ d. F.read d p) (handle_download-disk q s payload))
  handle_request-IsAccounted q s Msg.list_files payload messages p apart =
      inl (ap (λ d. F.read d p) (reply_list-disk q _ _))
  handle_request-IsAccounted q s _ payload messages p apart = inl refl

  -- The temporary file is another, and other threads leave the file alone.
  abbrev pub LeavesAlone : Bytes → Bytes → Turn F → Type 0
  LeavesAlone root p t =
      (t.request.root ≡ root)
      × (same t.request.temp p ≡ false)
      × ((s : Store F) → F.read (t.others s).disk p ≡ F.read s.disk p)

  serve_turn-IsAccounted :
      (root p : Bytes) (t : Turn F) (s : Store F)
      → LeavesAlone root p t
      → IsAccounted root p s (serve_turn F t s).store (serve_turn F t s).effects
  unfolding serve_turn
  serve_turn-IsAccounted root p t s (rooted, apart, left) = elim (Bool-cases t.primary) [
    | inr demoted ↦ rw demoted (inl (left s))
    | inl primary ↦
        elim (handle_request-IsAccounted t.request (t.others s) t.message.type t.message.payload
          t.messages p apart) [
            | inl kept ↦ rw primary (inl (kept ∙ left s))
            | inr told ↦ rw primary (
                inr (
                  subst
                    (λ r.
                      Told r p
                        (handle_request F t.request (t.others s) t.message t.messages).effects)
                    rooted told))
          ]
  ]

  -- A file that others leave alone and that is no temporary file, with one root for the storage:
  -- whatever requests a session sends, the file is at the end as at the beginning, or the session had a change of it replicated to the backups.
  pub serve_requests-IsAccounted :
      (root p : Bytes) (turns : List (Turn F)) (s : Store F)
      → All (LeavesAlone root p) turns
      → IsAccounted root p s (serve_requests F turns s).0 (serve_requests F turns s).1
  unfolding serve_requests
  serve_requests-IsAccounted root p [] s all = inl refl
  serve_requests-IsAccounted root p (t ∷ turns) s (alone, all) =
      let out = serve_turn F t s in
      elim (serve_turn-IsAccounted root p t s alone) [
        | inr told ↦ elim (Bool-cases out.keep_going) [
          | inl going ↦ rw going (inr (Told-left _ told))
          | inr stopped ↦ rw stopped (inr told)
        ]
        | inl kept ↦ elim (Bool-cases out.keep_going) [
          | inr stopped ↦ rw stopped (inl kept)
          | inl going ↦ elim (serve_requests-IsAccounted root p turns out.store all) [
            | inl same_after ↦ rw going (inl (same_after ∙ kept))
            | inr told ↦ rw going (inr (Told-right out.effects told))
          ]
        ]
      ]
