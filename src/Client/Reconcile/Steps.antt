-- ===== src/Client/Reconcile/Steps.antt =====
-- A round of the reconciliation leaves both sides with the merged version.
use sis_op.Base.{
  ◌≡◌, ◌⊎◌, subst, refl, ap, sym, ◌∙◌, false, Option, none, some, length, arith, Option-cases, inl,
  inr,
}
use sis_op.Base.Keys.{Bytes, same, bytes_key, same_self}
use sis_op.Connection.{CallResult}
use sis_op.Files.Info.{FileInfo, Version, version}
use sis_op.Files.Hash.{fnv}
use sis_op.Files.Names.{join_path}
use sis_op.Files.System.{File, FileSystem, IsPosix, IsWilling, read-remove_empty_parents}
use sis_op.Client.SyncState.{get}
use sis_op.Client.Decide.{Action, decide, merge, outcome, decide-merge}
use sis_op.Client.Install.InPlace.{install-placed}
use sis_op.Client.Remote.{Remote}
use sis_op.Client.Reconcile.{
  World, Settings, receive, pull, push_file, push_delete, delete_local, perform,
}

-- The version that a file's content is.
abbrev pub file_version : Option File → Option Version
file_version none = none
file_version (some f) = some (record { hash = fnv f.content; size = length f.content })

module _ (F : FileSystem) (posix : IsPosix F) (willing : IsWilling F) (R : Remote) where
  receive-read :
      (c : Settings F R) (w : World F R) (name : Bytes) (f : File)
      → same (join_path c.root name) (c.temp name) ≡ false
      → F.read (receive F R c w name f).0.disk (join_path c.root name) ≡ some f
  unfolding receive
  receive-read c w name f apart =
      let done = willing.writes w.disk (c.temp name) f.content in
      let (t, written) = posix.read-write w.disk (c.temp name) f.content done in
      rw done (
        (install-placed F posix willing c.fuel c.stamp _ c.root w.state (c.temp name) name _
          (record { content = f.content; mtime_ns = t }) written apart).0)

  receive-remote :
      (c : Settings F R) (w : World F R) (name : Bytes) (f : File)
      → (receive F R c w name f).0.remote ≡ w.remote
  unfolding receive
  receive-remote c w name f = ground arith

  unlink-read : (d : F.Disk) (path : Bytes) → F.read (F.unlink d path).0 path ≡ none
  unlink-read d path = elim (Option-cases (F.read d path)) [
    | inl gone ↦ ground (arith, posix.read-unlink d path path, gone)
    | inr (f, there) ↦
        posix.read-unlink d path path ∙ rw (willing.removes d path f there, same_self path)
  ]

  -- What the exchanges of a round are: none that changes the server, where it has the kept version; a
  -- removal, where none is kept; and else an upload of the local file.
  abbrev pub Asked :
      Bytes → Option File → Option Version → Option Version → R.State → R.State → Type 0
  Asked name file there kept before after =
      ((kept ≡ there) × ((after ≡ before) ⊎ (after ≡ (R.download before name).0)))
      ⊎ ((kept ≡ none) × (after ≡ (R.remove before name).0))
      ⊎ ((kept ≡ file_version file) × (after ≡ (R.upload before name file).0))

  -- The local version is the one that is kept, and the server was asked for it.
  abbrev pub Merged :
      Settings F R → World F R → Bytes → Option Version → Option Version → World F R → Type 0
  Merged c w name there kept w' =
      (file_version (F.read w'.disk (join_path c.root name)) ≡ kept)
      × Asked name (F.read w.disk (join_path c.root name)) there kept w.remote w'.remote

  -- What a download brings is the version that the server listed.
  abbrev pub Brings : R.State → Bytes → Option Version → Type 0
  Brings r name there = (f : File) → (R.download r name).2 ≡ some f → file_version (some f) ≡ there

  pull-Merged :
      (c : Settings F R) (w : World F R) (name : Bytes) (there : Option Version)
      → same (join_path c.root name) (c.temp name) ≡ false
      → Brings w.remote name there
      → (pull F R c w name).1 ≡ CallResult.ok
      → Merged c w name there there (pull F R c w name).0
  unfolding pull
  pull-Merged c w name there apart brings ok = go (R.download w.remote name).1 refl ok
    where
      w' : World F R
      w' = record w { remote = (R.download w.remote name).0 }

      go :
          (result : CallResult)
          → (R.download w.remote name).1 ≡ result
          → (pull F R c w name).1 ≡ CallResult.ok
          → Merged c w name there there (pull F R c w name).0
      go CallResult.ok e ok = elim (Option-cases (R.download w.remote name).2) [
        | inl nothing ↦ cc (rw (e, nothing, pull) at ok)
        | inr (g, got) ↦
            rw (e, got, pull)
              (
                ap file_version (receive-read c w' name g apart) ∙ brings g got,
                inl (refl, inr (receive-remote c w' name g)),
              )
      ]
      go CallResult.rejected e ok = cc (rw (e, pull) at ok)
      go CallResult.failed e ok = cc (rw (e, pull) at ok)

  delete_local-read :
      (c : Settings F R) (w : World F R) (name : Bytes)
      → F.read (delete_local F R c w name).disk (join_path c.root name) ≡ none
  unfolding delete_local
  delete_local-read c w name =
      read-remove_empty_parents F posix _ c.root name (join_path c.root name)
      ∙ unlink-read w.disk (join_path c.root name)

  delete_local-remote :
      (c : Settings F R) (w : World F R) (name : Bytes)
      → (delete_local F R c w name).remote ≡ w.remote
  unfolding delete_local
  delete_local-remote c w name = refl

  -- An action that succeeds, where both versions that it leaves are `kept`.
  perform-Merged :
      (c : Settings F R) (a : Action) (w : World F R) (name : Bytes)
      (here there kept : Option Version)
      → same (join_path c.root name) (c.temp name) ≡ false
      → file_version (F.read w.disk (join_path c.root name)) ≡ here
      → Brings w.remote name there
      → outcome a here there ≡ (kept, kept)
      → (perform F R c a w name).1 ≡ CallResult.ok
      → Merged c w name there kept (perform F R c a w name).0
  unfolding perform push_file push_delete
  perform-Merged c (Action.record_here file) w name here there kept apart at_path brings e ok =
      (at_path ∙ ap (λ p. p.0) e, inl (sym (ap (λ p. p.1) e), inl refl))
  perform-Merged c Action.forget w name here there kept apart at_path brings e ok =
      (at_path ∙ ap (λ p. p.0) e, inl (sym (ap (λ p. p.1) e), inl refl))
  perform-Merged c (Action.upload file) w name here there kept apart at_path brings e ok =
      (at_path ∙ ap (λ p. p.0) e, inr (inr (sym (at_path ∙ ap (λ p. p.0) e), refl)))
  perform-Merged c Action.delete_there w name here there kept apart at_path brings e ok =
      (at_path ∙ ap (λ p. p.0) e, inr (inl (sym (ap (λ p. p.1) e), refl)))
  perform-Merged c Action.download w name here there kept apart at_path brings e ok =
      subst (λ k. Merged c w name there k (pull F R c w name).0) (ap (λ p. p.0) e)
        (pull-Merged c w name there apart brings ok)
  perform-Merged c Action.delete_here w name here there kept apart at_path brings e ok = (
    ap file_version (delete_local-read c w name) ∙ ap (λ p. p.0) e,
    inl (sym (ap (λ p. p.1) e), inl (delete_local-remote c w name)),
  )

  -- A round of the reconciliation whose exchange succeeds, for a file that the local listing describes as it
  -- is, on a disk that refuses nothing, with a temporary path that is not the file's, where what a download brings is the version that the server listed:
  -- the local folder has the version that the three-way merge with the last synced version keeps; and the server
  -- is asked to remove the file where none is kept, is sent the local file where that is the one kept, and is not
  -- asked to change anything only where its own version is the one kept.
  pub perform-merge :
      (c : Settings F R) (w : World F R) (name : Bytes) (here there : Option FileInfo)
      → same (join_path c.root name) (c.temp name) ≡ false
      → file_version (F.read w.disk (join_path c.root name)) ≡ version here
      → Brings w.remote name (version there)
      → (perform F R c (decide here there (get name w.state)) w name).1 ≡ CallResult.ok
      → Merged c w name
          (version there)
          (merge (version here) (version there) (version (get name w.state)))
          (perform F R c (decide here there (get name w.state)) w name).0
  perform-merge c w name here there apart listed brings ok =
      perform-Merged c (decide here there (get name w.state)) w name (version here) (version there)
        _ apart listed brings (decide-merge here there (get name w.state)) ok
