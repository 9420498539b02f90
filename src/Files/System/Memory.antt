-- ===== src/Files/System/Memory.antt =====
-- A file system that meets the assumptions: a dictionary of files, without directories.
use sis_op.Base.{◌≡◌, refl, Bool, true, false, none, some, arith, if◌then◌else◌, ◌&&◌}
use sis_op.Base.Int.{ℤ, pos}
use sis_op.Base.Keys.{Bytes, same, same_self, bytes_key}
use sis_op.Base.Dict.{
  Dict, lookup, insert, erase, modify, lookup-insert, lookup-erase, lookup-modify,
}
use sis_op.Files.System.{File, FileSystem, IsPosix, IsWilling, touched}

abbrev pub Files : Type 0
Files = Dict Bytes File

unfoldable pub move : Bytes → Bytes → Files → Files × Bool
move from to d = elim (lookup from d) [
  | none ↦ (d, false)
  | some f ↦ (insert to f (erase from d), true)
]

unfoldable pub delete : Bytes → Files → Files × Bool
delete path d = elim (lookup path d) [ none ↦ (d, false) | some f ↦ (erase path d, true) ]

unfoldable pub touch : ℤ → File → File
touch t f = record f { mtime_ns = t }

unfoldable pub store : Bytes → Bytes → Files → Files × Bool
store path content d = (insert path (record { content = content; mtime_ns = pos 0 }) d, true)

abbrev pub memory : FileSystem
memory = record {
  Disk = Files;
  read = λ d p. lookup p d;
  write = λ d p content. store p content d;
  rename = λ d from to. move from to d;
  unlink = λ d p. delete p d;
  utime = λ d p t. modify p (touch t) d;
  mkdirs = λ d p. (d, true);
  rmdir = λ d p. (d, false);
}

read-move :
    (d : Files) (from to : Bytes) (f : File)
    → lookup from d ≡ some f
    → (move from to d).1 ≡ true
    → (p : Bytes)
    → lookup p (move from to d).0
      ≡ (if same to p then some f else if same from p then none else lookup p d)
unfolding move
read-move d from to f h done p = rw (h, move) (rw (lookup-insert, lookup-erase))

read-move_failed :
    (d : Files) (from to : Bytes)
    → (move from to d).1 ≡ false
    → (p : Bytes) → lookup p (move from to d).0 ≡ lookup p d
unfolding move
read-move_failed d from to h p = ground arith

read-delete :
    (d : Files) (path p : Bytes)
    → lookup p (delete path d).0 ≡ (if (delete path d).1 && same path p then none else lookup p d)
unfolding delete
read-delete d path p = ground (arith, lookup-erase path p d)

read-touch :
    (d : Files) (path : Bytes) (t : ℤ) (p : Bytes)
    → lookup p (modify path (touch t) d)
      ≡ (if same path p then touched t (lookup p d) else lookup p d)
unfolding touch
read-touch d path t p = rw lookup-modify (ground arith)

read-store :
    (d : Files) (path content : Bytes)
    → (store path content d).1 ≡ true
    → (t : ℤ) × (lookup path (store path content d).0
        ≡ some (record { content = content; mtime_ns = t }))
unfolding store
read-store d path content h = (pos 0, rw lookup-insert (rw (same_self path)))

read-store_other :
    (d : Files) (path content p : Bytes)
    → same path p ≡ false
    → lookup p (store path content d).0 ≡ lookup p d
unfolding store
read-store_other d path content p h = rw lookup-insert (rw h)

pub memory-IsPosix : IsPosix memory
memory-IsPosix = record {
  read-write = read-store;
  read-write_other = read-store_other;
  read-rename = read-move;
  read-rename_failed = read-move_failed;
  read-unlink = read-delete;
  utime-read = read-touch;
  read-mkdirs = λ d path p. refl;
  read-rmdir = λ d path p. refl;
}

moves-move :
    (d : Files) (from to : Bytes) (f : File) → lookup from d ≡ some f → (move from to d).1 ≡ true
unfolding move
moves-move d from to f h = rw (h, move)

removes-delete :
    (d : Files) (path : Bytes) (f : File) → lookup path d ≡ some f → (delete path d).1 ≡ true
unfolding delete
removes-delete d path f h = rw (h, delete)

writes-store : (d : Files) (path content : Bytes) → (store path content d).1 ≡ true
unfolding store
writes-store d path content = refl

pub memory-IsWilling : IsWilling memory
memory-IsWilling = record {
  writes = writes-store;
  makes = λ d path. refl;
  moves = moves-move;
  removes = removes-delete;
}
