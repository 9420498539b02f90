-- ===== src/Client/Decide.antt =====
-- The decision of Client::reconcile for one file, and the three-way merge that it implements.
use sis_op.Base.{◌≡◌, Bool, true, false, not, ◌&&◌, Option, none, some, arith, ◌==◌, if◌then◌else◌}
use sis_op.Files.Info.{FileInfo, Version, version}

unfoldable pub same_content : FileInfo → FileInfo → Bool
same_content a b = a.hash == b.hash && a.size == b.size

-- What `reconcile` does about a name: record the local file, forget the name, upload, delete on the
-- server, download, delete here.
pub data Action : Type 0 where
  record_here upload : FileInfo → Action
  forget delete_there download delete_here : Action

abbrev unchanged : Option FileInfo → FileInfo → Bool
unchanged none file = false
unchanged (some base) file = same_content base file

abbrev pub has : Option FileInfo → Bool
has none = false
has (some file) = true

-- changed_here and changed_there: the side differs from the base.
unfoldable pub changed : Option FileInfo → Option FileInfo → Bool
changed none base = has base
changed (some file) base = not (unchanged base file)

-- != on truth values.
abbrev differ : Bool → Bool → Bool
differ true b = not b
differ false b = b

-- `push`, for a name that the two sides do not agree on.
unfoldable pub push : Option FileInfo → Option FileInfo → Option FileInfo → Bool
push here there base =
    if differ (changed here base) (changed there base)
    then changed here base
    else if has here && has there
    then false
    else has here

-- The four branches below `push`.
unfoldable pub act : Bool → Option FileInfo → Option FileInfo → Action
act true (some file) there = upload file
act true none there = delete_there
act false here (some file) = download
act false here none = delete_here

unfoldable pub decide_both : FileInfo → FileInfo → Option FileInfo → Action
decide_both here there base =
    if same_content here there
    then record_here here
    else act (push (some here) (some there) base) (some here) (some there)

unfoldable pub decide : Option FileInfo → Option FileInfo → Option FileInfo → Action
decide (some here) (some there) base = decide_both here there base
decide none none base = forget
decide here there base = act (push here there base) here there

abbrev version_eq : Option Version → Option Version → Bool
version_eq none none = true
version_eq (some a) (some b) = a.hash == b.hash && a.size == b.size
version_eq _ _ = false

-- Both sides changed.
abbrev keep_both : Option Version → Option Version → Option Version
keep_both here none = here
keep_both here (some v) = some v

-- The version that a three-way merge keeps: the one of the side that changed since the base; if
-- both did, the server's, or the one that is still there.
unfoldable pub merge : Option Version → Option Version → Option Version → Option Version
merge here there base =
    if version_eq base here
    then there
    else if version_eq base there
    then here
    else keep_both here there

-- The local and the server's version after an action that succeeds.
abbrev pub outcome : Action → Option Version → Option Version → Option Version × Option Version
outcome (record_here file) here there = (here, there)
outcome forget here there = (here, there)
outcome (upload file) here there = (here, here)
outcome delete_there here there = (here, none)
outcome download here there = (there, there)
outcome delete_here here there = (none, there)

-- After the action that `reconcile` chooses, both sides have the version that the three-way merge
-- of the local, the server's and the last synced version keeps.
pub decide-merge :
    (here there base : Option FileInfo)
    → outcome (decide here there base) (version here) (version there) ≡ (
      merge (version here) (version there) (version base),
      merge (version here) (version there) (version base),
    )
unfolding decide decide_both act push changed same_content merge
decide-merge none none none = ground arith
decide-merge none none (some b) = ground arith
decide-merge none (some t) none = ground arith
decide-merge none (some t) (some b) = ground arith
decide-merge (some h) none none = ground arith
decide-merge (some h) none (some b) = ground arith
decide-merge (some h) (some t) none = ground arith
decide-merge (some h) (some t) (some b) = ground arith
