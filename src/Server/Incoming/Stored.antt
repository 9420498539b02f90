-- ===== src/Server/Incoming/Stored.antt =====
-- What an arriving file leaves in the storage.
use sis_op.Base.{
  ℕ, ◌≡◌, refl, ◌∙◌, true, false, ◌&&◌, some, List, length, arith, Bool-cases, Option-cases, inl,
  inr, eq_of_some,
}
use sis_op.Base.Int.{ℤ}
use sis_op.Base.Keys.{Bytes, same, same_self, bytes_key}
use sis_op.Protocol.Msg.{Message}
use sis_op.Files.Info.{FileInfo}
use sis_op.Files.Names.{is_valid_path, is_valid_username}
use sis_op.Files.System.{File, FileSystem, IsPosix, make_parent_dirs, read-make_parent_dirs}
use sis_op.Files.Transfer.{TransferResult, recv_file_body}
use sis_op.Files.Transfer.Delivery.{always, recv_file_body-ok}
use sis_op.Server.Storage.{HashCache, user_dir, file_path, replace, commit}
use sis_op.Server.Storage.Changes.{commit-Stored}
use sis_op.Server.Incoming.{Store, receive_to, store_file, apply_put}

module _ (F : FileSystem) (posix : IsPosix F) where
  open F use {Disk, read, write, rename, unlink, utime, mkdirs}

  -- Only the temporary file may differ.
  abbrev pub SameBut : Bytes → Disk → Disk → Type 0
  SameBut temp d d' = (p : Bytes) → same temp p ≡ false → read d' p ≡ read d p

  pub unlink-SameBut : (d : Disk) (temp : Bytes) → SameBut temp d (unlink d temp).0
  unlink-SameBut d temp p ne = posix.read-unlink d temp p ∙ ground (arith, ne)

  pub receive_to-SameBut :
      (d : Disk) (temp : Bytes) (size : ℕ) (messages : List Message)
      → SameBut temp d (receive_to F d temp size messages).0
  unfolding receive_to
  receive_to-SameBut d temp size messages p ne =
      elim (Option-cases (recv_file_body true always size messages).stored) [
        | inl e ↦ rw (e, receive_to) (unlink-SameBut d temp p ne)
        | inr (content, e) ↦ elim (Bool-cases (write d temp content).1) [
          | inl ok ↦ rw (e, receive_to) (rw ok (posix.read-write_other d temp content p ne))
          | inr failed ↦
              rw (e, receive_to)
                (rw failed
                  (unlink-SameBut _ temp p ne ∙ posix.read-write_other d temp content p ne))
        ]
      ]

  replace-SameBut :
      (d : Disk) (path temp : Bytes) (mtime_ns : ℤ) (cache : HashCache)
      → (replace F d path temp mtime_ns cache).2 ≡ false
      → SameBut temp d (replace F d path temp mtime_ns cache).0
  unfolding replace
  replace-SameBut d path temp mtime_ns cache failed p ne =
      posix.read-rename_failed (utime d temp mtime_ns) temp path failed p
      ∙ posix.utime-read d temp mtime_ns p
      ∙ rw ne refl

  -- A commit that fails changes no file but the temporary one.
  pub commit-SameBut :
      (d : Disk) (root user path temp : Bytes) (mtime_ns : ℤ) (cache : HashCache)
      → (commit F d root user path temp mtime_ns cache).2 ≡ false
      → SameBut temp d (commit F d root user path temp mtime_ns cache).0
  unfolding commit
  commit-SameBut d root user path temp mtime_ns cache failed p ne =
      elim (Bool-cases (mkdirs d (user_dir root user)).1) [
        | inr no_dir ↦ rw no_dir (posix.read-mkdirs d (user_dir root user) p)
        | inl dir ↦ elim (Bool-cases (make_parent_dirs F d' (user_dir root user) path).1) [
          | inr no_parents ↦ rw (dir, no_parents) same_files
          | inl parents ↦
              rw (dir, parents)
                (replace-SameBut d'' (file_path root user path) temp mtime_ns cache
                    (rw (dir, parents) at failed) p ne
                  ∙ same_files)
        ]
      ]
    where
      d' : Disk
      d' = (mkdirs d (user_dir root user)).0

      d'' : Disk
      d'' = (make_parent_dirs F d' (user_dir root user) path).0

      same_files : read d'' p ≡ read d p
      same_files =
          read-make_parent_dirs F posix d' (user_dir root user) path p
          ∙ posix.read-mkdirs d (user_dir root user) p

  pub store_file-SameBut :
      (root temp user : Bytes) (info : FileInfo) (s : Store F)
      → (store_file F root temp user info s).1 ≡ false
      → SameBut temp s.disk (store_file F root temp user info s).0.disk
  unfolding store_file
  store_file-SameBut root temp user info s failed p ne =
      elim (Bool-cases (commit F s.disk root user info.name temp info.mtime_ns s.cache).2) [
        | inl e ↦ cc (rw e at failed)
        | inr e ↦ rw e (
            unlink-SameBut _ temp p ne
            ∙ commit-SameBut s.disk root user info.name temp info.mtime_ns s.cache e p ne)
      ]

  -- The disk after a file of this content and time was put at the path, out of the temporary file.
  abbrev pub Put : Disk → Disk → Bytes → Bytes → Bytes → ℤ → Type 0
  Put d d' temp path content mtime_ns =
      (read d' path ≡ some (record { content = content; mtime_ns = mtime_ns }))
      × ((p : Bytes) → same temp p ≡ false → same path p ≡ false → read d' p ≡ read d p)

  receive_to-result :
      (d : Disk) (temp : Bytes) (size : ℕ) (messages : List Message)
      → (receive_to F d temp size messages).1 ≡ TransferResult.ok
      → (recv_file_body true always size messages).result ≡ TransferResult.ok
  unfolding receive_to
  receive_to-result d temp size messages ok =
      elim (Option-cases (recv_file_body true always size messages).stored) [
        | inl e ↦ rw (e, receive_to) at ok
        | inr (content, e) ↦ elim (Bool-cases (write d temp content).1) [
          | inl done ↦ rw done at (rw (e, receive_to) at ok)
          | inr failed ↦ cc (rw failed at (rw (e, receive_to) at ok))
        ]
      ]

  -- What is reported as received whole is in the temporary file.
  abbrev pub Whole : Disk → Bytes → ℕ → List Message → Type 0
  Whole d temp size messages =
      (content : Bytes) × (t : ℤ) × ((recv_file_body true always size messages).stored
        ≡ some content)
      × (length content ≡ size)
      × (read (receive_to F d temp size messages).0 temp
          ≡ some (record { content = content; mtime_ns = t }))

  written :
      (d : Disk) (temp : Bytes) (size : ℕ) (messages : List Message) (content : Bytes)
      → (recv_file_body true always size messages).stored ≡ some content
      → (receive_to F d temp size messages).1 ≡ TransferResult.ok
      → (t : ℤ) × (read (receive_to F d temp size messages).0 temp
          ≡ some (record { content = content; mtime_ns = t }))
  unfolding receive_to
  written d temp size messages content e ok = elim (Bool-cases (write d temp content).1) [
    | inl done ↦ rw (e, receive_to) (rw done (posix.read-write d temp content done))
    | inr failed ↦ cc (rw failed at (rw (e, receive_to) at ok))
  ]

  pub receive_to-ok :
      (d : Disk) (temp : Bytes) (size : ℕ) (messages : List Message)
      → (receive_to F d temp size messages).1 ≡ TransferResult.ok
      → Whole d temp size messages
  receive_to-ok d temp size messages ok =
      let (content, e, hash, len) =
        recv_file_body-ok true always size messages (receive_to-result d temp size messages ok) in
      let (t, there) = written d temp size messages content e ok in (content, t, e, len, there)

  pub store_file-Put :
      (root temp user : Bytes) (info : FileInfo) (s : Store F) (f : File)
      → read s.disk temp ≡ some f
      → (store_file F root temp user info s).1 ≡ true
      → Put s.disk
          (store_file F root temp user info s).0.disk
          temp
          (file_path root user info.name)
          f.content
          info.mtime_ns
  unfolding store_file
  store_file-Put root temp user info s f there ok =
      elim (Bool-cases (commit F s.disk root user info.name temp info.mtime_ns s.cache).2) [
        | inl e ↦ rw e (
            let stored =
              commit-Stored F posix s.disk root user info.name temp info.mtime_ns s.cache f there
                e in
            (
              stored (file_path root user info.name)
                  ∙ rw (same_self (file_path root user info.name)) refl,
              λ p not_temp not_path. stored p ∙ rw (not_path, not_temp) refl,
            ))
        | inr e ↦ cc (rw e at ok)
      ]

  -- An answer Ok to a replicated file means that the whole body is at the path.
  abbrev pub Replicated :
      Bytes → Bytes → Bytes → FileInfo → List Message → Store F → Store F → Type 0
  Replicated root temp user info messages s s' =
      (content : Bytes) × ((recv_file_body true always info.size messages).stored ≡ some content)
      × Put s.disk s'.disk temp (file_path root user info.name) content info.mtime_ns

  put_stored :
      (root temp user : Bytes) (info : FileInfo) (messages : List Message) (s : Store F)
      → (receive_to F s.disk temp info.size messages).1 ≡ TransferResult.ok
      → let received : Store F = record s {
        disk = (receive_to F s.disk temp info.size messages).0;
      } in
        (store_file F root temp user info received).1 ≡ true
        → Replicated root temp user info messages s (store_file F root temp user info received).0
  put_stored root temp user info messages s ok done =
      let (content, t, stored, len, there) = receive_to-ok s.disk temp info.size messages ok in
      let (put, others) =
        store_file-Put root temp user info _ (record { content = content; mtime_ns = t }) there
          done in
      (
        content,
        stored,
        (
          put,
          λ p not_temp not_path.
              others p not_temp not_path
              ∙ receive_to-SameBut s.disk temp info.size messages p not_temp,
        ),
      )

  by_result :
      (root temp user : Bytes) (info : FileInfo) (messages : List Message) (s : Store F)
      (r : TransferResult)
      → (receive_to F s.disk temp info.size messages).1 ≡ r
      → (apply_put F root temp user info messages s).1 ≡ some true
      → Replicated root temp user info messages s (apply_put F root temp user info messages s).0
  unfolding apply_put
  by_result root temp user info messages s TransferResult.connection_lost e h =
      cc (rw (e, apply_put) at h)
  by_result root temp user info messages s TransferResult.not_sent e h = cc (rw (e, apply_put) at h)
  by_result root temp user info messages s TransferResult.file_error e h =
      cc (rw (e, apply_put) at h)
  by_result root temp user info messages s TransferResult.ok e h =
      elim (Bool-cases (is_valid_username user && is_valid_path info.name)) [
        | inr bad ↦ cc (rw bad at (rw (e, apply_put) at h))
        | inl good ↦
            rw (e, apply_put)
              (rw good (
                put_stored root temp user info messages s e
                  (eq_of_some _ true (rw good at (rw (e, apply_put) at h)))))
      ]

  pub apply_put-Replicated :
      (root temp user : Bytes) (info : FileInfo) (messages : List Message) (s : Store F)
      → (apply_put F root temp user info messages s).1 ≡ some true
      → Replicated root temp user info messages s (apply_put F root temp user info messages s).0
  apply_put-Replicated root temp user info messages s h =
      by_result root temp user info messages s _ refl h
