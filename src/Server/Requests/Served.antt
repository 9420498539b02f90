-- ===== src/Server/Requests/Served.antt =====
-- What uploads and deletions do to the files of the primary, and that no change escapes the backups.
use sis_op.Base.{
  ℕ, ◌≡◌, ◌⊎◌, refl, ◌∙◌, sym, subst, true, none, some, List, [], ◌∷◌, length, if◌then◌else◌,
  Bool-cases, Option-cases, inl, inr,
}
use sis_op.Base.Keys.{Bytes, same, bytes_key}
use sis_op.Protocol.Msg.{Msg, Message}
use sis_op.Files.Info.{FileInfo}
use sis_op.Files.Names.{is_valid_path}
use sis_op.Files.System.{File, FileSystem, IsPosix}
use sis_op.Files.Transfer.{TransferResult, recv_file_body}
use sis_op.Files.Transfer.Delivery.{always}
use sis_op.Server.Storage.{file_path, remove}
use sis_op.Server.Storage.Changes.{remove-read}
use sis_op.Server.Incoming.{Store, receive_to, store_file}
use sis_op.Server.Incoming.Stored.{
  SameBut, Put, receive_to-SameBut, receive_to-ok, store_file-SameBut, store_file-Put,
  unlink-SameBut,
}
use sis_op.Server.Requests.{
  Effect, reply, refuse, replicate_put, replicate_delete, Request, Outcome, read_upload,
  read_delete, accept_upload, upload_body, handle_upload, delete_path, handle_delete, refused,
  dropped, done,
}

-- Nothing is replicated, answered Ok or pushed.
abbrev pub IsRefusal : List Effect → Type 0
IsRefusal effects = (effects ≡ []) ⊎ ((reason : Bytes) × (effects ≡ refuse reason ∷ []))

-- The first two effects of a change that was made.
abbrev pub Announced : Effect → List Effect → Type 0
Announced replicate effects = (rest : List Effect) × (effects ≡ replicate ∷ reply Msg.ok [] ∷ rest)

module _ (F : FileSystem) (posix : IsPosix F) where
  -- The upload put the received bytes at the path of the name.
  abbrev pub Uploaded : Request F → Store F → FileInfo → List Message → Outcome F → Type 0
  Uploaded q s info messages out =
      (content : Bytes) × (is_valid_path info.name ≡ true)
      × ((recv_file_body true always info.size messages).stored ≡ some content)
      × (length content ≡ info.size)
      × Put F posix s.disk out.store.disk q.temp (file_path q.root q.user info.name) content
          info.mtime_ns
      × Announced (replicate_put q.user info.name) out.effects

  abbrev pub Rejected : Request F → Store F → Outcome F → Type 0
  Rejected q s out = SameBut F posix q.temp s.disk out.store.disk × IsRefusal out.effects

  accept_upload-cases :
      (q : Request F) (s : Store F) (origin : ℕ) (info : FileInfo) (f : File)
      → F.read s.disk q.temp ≡ some f
      → Rejected q s (accept_upload F q s origin info)
        ⊎ (Put F posix s.disk
              (accept_upload F q s origin info).store.disk
              q.temp
              (file_path q.root q.user info.name)
              f.content
              info.mtime_ns
            × Announced (replicate_put q.user info.name) (accept_upload F q s origin info).effects)
  unfolding accept_upload refused done
  accept_upload-cases q s origin info f there =
      elim (Bool-cases (store_file F q.root q.temp q.user info s).1) [
        | inl e ↦
            rw e (inr (store_file-Put F posix q.root q.temp q.user info s f there e, (_, refl)))
        | inr e ↦
            rw e (inl (store_file-SameBut F posix q.root q.temp q.user info s e, inr (_, refl)))
      ]

  -- The storage with the received body in the temporary file.
  abbrev received : Request F → Store F → FileInfo → List Message → Store F
  received q s info messages = record s { disk = (receive_to F s.disk q.temp info.size messages).0 }

  accept-cases :
      (q : Request F) (s : Store F) (origin : ℕ) (info : FileInfo) (messages : List Message)
      → (receive_to F s.disk q.temp info.size messages).1 ≡ TransferResult.ok
      → is_valid_path info.name ≡ true
      → let out = accept_upload F q (received q s info messages) origin info in
        Rejected q s out ⊎ Uploaded q s info messages out
  accept-cases q s origin info messages ok good =
      let (content, t, stored, len, there) =
        receive_to-ok F posix s.disk q.temp info.size messages ok in
      let same_before = receive_to-SameBut F posix s.disk q.temp info.size messages in
      elim (accept_upload-cases q (received q s info messages) origin info
        (record { content = content; mtime_ns = t }) there) [
          | inl (kept, refusal) ↦ inl (λ p ne. kept p ne ∙ same_before p ne, refusal)
          | inr ((put, others), announced) ↦ inr (
            content,
            good,
            stored,
            len,
            (put, λ p not_temp not_path. others p not_temp not_path ∙ same_before p not_temp),
            announced,
          )
        ]

  accepted :
      (q : Request F) (s : Store F) (origin : ℕ) (info : FileInfo) (messages : List Message)
      → (receive_to F s.disk q.temp info.size messages).1 ≡ TransferResult.ok
      → is_valid_path info.name ≡ true
      → upload_body F q s origin info messages
        ≡ accept_upload F q (received q s info messages) origin info
  unfolding upload_body
  accepted q s origin info messages ok good = rw (ok, upload_body) (rw good refl)

  accept_good :
      (q : Request F) (s : Store F) (origin : ℕ) (info : FileInfo) (messages : List Message)
      → (receive_to F s.disk q.temp info.size messages).1 ≡ TransferResult.ok
      → is_valid_path info.name ≡ true
      → let out = upload_body F q s origin info messages in
        Rejected q s out ⊎ Uploaded q s info messages out
  accept_good q s origin info messages ok good =
      subst (λ out. Rejected q s out ⊎ Uploaded q s info messages out)
        (sym (accepted q s origin info messages ok good))
        (accept-cases q s origin info messages ok good)

  by_result :
      (q : Request F) (s : Store F) (origin : ℕ) (info : FileInfo) (messages : List Message)
      (r : TransferResult)
      → (receive_to F s.disk q.temp info.size messages).1 ≡ r
      → Rejected q s (upload_body F q s origin info messages)
        ⊎ Uploaded q s info messages (upload_body F q s origin info messages)
  unfolding upload_body refused dropped
  by_result q s origin info messages TransferResult.connection_lost e =
      rw (e, upload_body)
        (inl (receive_to-SameBut F posix s.disk q.temp info.size messages, inl refl))
  by_result q s origin info messages TransferResult.not_sent e =
      rw (e, upload_body)
        (inl (receive_to-SameBut F posix s.disk q.temp info.size messages, inr (_, refl)))
  by_result q s origin info messages TransferResult.file_error e =
      rw (e, upload_body)
        (inl (receive_to-SameBut F posix s.disk q.temp info.size messages, inr (_, refl)))
  by_result q s origin info messages TransferResult.ok e =
      elim (Bool-cases (is_valid_path info.name)) [
        | inl good ↦ accept_good q s origin info messages e good
        | inr bad ↦
            rw (e, upload_body)
              (rw bad (
                inl (
                  (λ p ne.
                      unlink-SameBut F posix _ q.temp p ne
                      ∙ receive_to-SameBut F posix s.disk q.temp info.size messages p ne),
                  inr (_, refl),
                )))
      ]

  pub handle_upload_lem :
      (q : Request F) (s : Store F) (payload : Bytes) (messages : List Message)
      → Rejected q s (handle_upload F q s payload messages)
        ⊎ ((origin : ℕ) × (info : FileInfo) × (rest : Bytes) × (read_upload payload
              ≡ some ((origin, info), rest))
            × Uploaded q s info messages (handle_upload F q s payload messages))
  unfolding handle_upload dropped
  handle_upload_lem q s payload messages = elim (Option-cases (read_upload payload)) [
    | inl e ↦ rw (e, handle_upload) (inl (λ p ne. refl, inl refl))
    | inr (((origin, info), rest), e) ↦ elim (by_result q s origin info messages _ refl) [
      | inl rejected ↦ rw (e, handle_upload) (inl rejected)
      | inr uploaded ↦ rw (e, handle_upload) (inr (origin, info, rest, refl, uploaded))
    ]
  ]

  -- No file is changed.
  abbrev pub Refused : Store F → Outcome F → Type 0
  Refused s out = ((p : Bytes) → F.read out.store.disk p ≡ F.read s.disk p) × IsRefusal out.effects

  -- The file of the path is gone, and no other.
  abbrev pub Deleted : Request F → Store F → Bytes → Outcome F → Type 0
  Deleted q s path out =
      (is_valid_path path ≡ true)
      × ((p : Bytes)
          → F.read out.store.disk p
            ≡ (if same (file_path q.root q.user path) p then none else F.read s.disk p))
      × Announced (replicate_delete q.user path) out.effects

  -- A deletion either removes the file of a valid path, touches no other, and is passed on to the
  -- backups before the client has its Ok, or changes no file and is refused.
  pub handle_delete_lem :
      (q : Request F) (s : Store F) (payload : Bytes)
      → Refused s (handle_delete F q s payload)
        ⊎ ((origin : ℕ) × (path : Bytes) × (rest : Bytes) × (read_delete payload
              ≡ some ((origin, path), rest))
            × Deleted q s path (handle_delete F q s payload))
  unfolding handle_delete dropped delete_path refused done
  handle_delete_lem q s payload = elim (Option-cases (read_delete payload)) [
    | inl e ↦ rw (e, handle_delete) (inl (λ p. refl, inl refl))
    | inr (((origin, path), rest), e) ↦ elim (Bool-cases (is_valid_path path)) [
      | inr bad ↦ rw (e, handle_delete) (rw bad (inl (λ p. refl, inr (_, refl))))
      | inl good ↦ elim (Bool-cases (remove F s.disk q.root q.user path s.cache).2) [
        | inr failed ↦
            rw (e, handle_delete)
              (rw (good, failed)
                (inl (
                  λ p. remove-read F posix s.disk q.root q.user path s.cache p ∙ rw failed refl,
                  inr (_, refl),
                )))
        | inl existed ↦
            rw (e, handle_delete)
              (rw (good, existed)
                (inr (
                  origin,
                  path,
                  rest,
                  refl,
                  (
                    good,
                    (λ p.
                        remove-read F posix s.disk q.root q.user path s.cache p ∙ rw existed refl),
                    (_, refl),
                  ),
                )))
      ]
    ]
  ]
