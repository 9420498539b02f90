-- ===== src/Client/Reconcile.antt =====
-- reconcile, sync_local_change and rescan_local of client/client.cpp, for one name after another.
-- The names of temporary files are an argument, as are the time stamps of conflicted copies.
pub mod Steps
use sis_op.Base.{
  ℕ, zero, suc, ◌+◌, Bool, true, false, not, ◌&&◌, ◌||◌, Option, none, some, List, [], ◌∷◌, length,
  if◌then◌else◌,
}
use sis_op.Base.Keys.{Bytes}
use sis_op.Connection.{CallResult}
use sis_op.Files.Info.{FileInfo}
use sis_op.Files.Hash.{fnv}
use sis_op.Files.Names.{join_path}
use sis_op.Files.System.{File, FileSystem, remove_empty_parents}
use sis_op.Client.SyncState.{SyncState, get, set, forget}
use sis_op.Client.Decide.{Action, decide, has}
use sis_op.Client.Install.{install, local_file, is_synced}
use sis_op.Client.Remote.{Remote}

-- CallResult::Failed
abbrev pub is_failed : CallResult → Bool
is_failed CallResult.failed = true
is_failed _ = false

abbrev pub is_ok : CallResult → Bool
is_ok CallResult.ok = true
is_ok _ = false

module _ (F : FileSystem) (R : Remote) where
  -- sync_dir, the sync state and the server.
  pub record World : Type 0 where
    pub disk : F.Disk
    pub state : SyncState
    pub remote : R.State

  -- What stays fixed: sync_dir, the fuel for conflict names, their time stamp, and a fresh temporary
  -- path for each download.
  pub record Settings : Type 0 where
    pub root : Bytes
    pub fuel : ℕ
    pub stamp : Bytes
    pub temp : Bytes → Bytes

  abbrev header : Bytes → File → FileInfo
  header name f = record {
    name = name;
    size = length f.content;
    mtime_ns = f.mtime_ns;
    hash = fnv f.content;
  }

  -- Client::download into a temporary file, then install. The write may fail: then the download was
  -- not completed, and the temporary file is removed.
  unfoldable pub receive : Settings → World → Bytes → File → World × CallResult
  receive c w name f =
      let (d, written) = F.write w.disk (c.temp name) f.content in
      let (d', state) =
        install F c.fuel c.stamp d c.root w.state (c.temp name) name (header name f) in
      if written
      then (record w { disk = d'; state = state }, CallResult.ok)
      else (record w { disk = (F.unlink d (c.temp name)).0 }, CallResult.rejected)

  unfoldable pub pull : Settings → World → Bytes → World × CallResult
  pull c w name =
      let (r, result, got) = R.download w.remote name in
      elim result [
        | CallResult.ok ↦ elim got [
          | some f ↦ receive c (record w { remote = r }) name f
          | none ↦ (record w { remote = r }, CallResult.failed)
        ]
        | CallResult.rejected ↦ (record w { remote = r }, CallResult.rejected)
        | CallResult.failed ↦ (record w { remote = r }, CallResult.failed)
      ]

  unfoldable pub push_file : Settings → World → Bytes → FileInfo → World × CallResult
  push_file c w name here =
      let (r, result) = R.upload w.remote name (F.read w.disk (join_path c.root name)) in
      (record w { remote = r; state = if is_ok result then set here w.state else w.state }, result)

  unfoldable pub push_delete : World → Bytes → World × CallResult
  push_delete w name =
      let (r, result) = R.remove w.remote name in
      (
        record w { remote = r; state = if is_failed result then w.state else forget name w.state },
        result,
      )

  unfoldable pub delete_local : Settings → World → Bytes → World
  delete_local c w name = record w {
    disk = remove_empty_parents F (F.unlink w.disk (join_path c.root name)).0 c.root name;
    state = forget name w.state;
  }

  -- What one round of the loop does once the action is chosen.
  unfoldable pub perform : Settings → Action → World → Bytes → World × CallResult
  perform c (Action.record_here here) w name =
      (record w { state = set here w.state }, CallResult.ok)
  perform c Action.forget w name = (record w { state = forget name w.state }, CallResult.ok)
  perform c (Action.upload here) w name = push_file c w name here
  perform c Action.delete_there w name = push_delete w name
  perform c Action.download w name = pull c w name
  perform c Action.delete_here w name = (delete_local c w name, CallResult.ok)

  -- The loop of reconcile over the names. `local` and `remote` are the listings made before it; false
  -- means that the connection failed.
  unfoldable pub reconcile_names :
      Settings
      → (Bytes → Option FileInfo)
      → (Bytes → Option FileInfo)
      → List Bytes
      → World
      → World × Bool
  reconcile_names c here there [] w = (w, true)
  reconcile_names c here there (name ∷ names) w =
      let (w', result) = perform c (decide (here name) (there name) (get name w.state)) w name in
      let rest = reconcile_names c here there names w' in
      if is_failed result then (w', false) else rest

  -- The test at the head of sync_local_change.
  unfoldable pub in_sync : SyncState → Bytes → Option FileInfo → Bool
  in_sync state name none = not (has (get name state))
  in_sync state name (some here) = is_synced state name here

  unfoldable pub push_change : Settings → World → Bytes → Option FileInfo → World
  push_change c w name none = (push_delete w name).0
  push_change c w name (some here) = (push_file c w name here).0

  unfoldable pub sync_local_change : Settings → World → Bytes → World
  sync_local_change c w name =
      let here = local_file F w.disk c.root w.state name in
      if in_sync w.state name here then w else push_change c w name here

  -- rescan_local, over the names of the walk and of the state.
  unfoldable pub rescan_local : Settings → List Bytes → World → World
  rescan_local c [] w = w
  rescan_local c (name ∷ names) w = rescan_local c names (sync_local_change c w name)
