-- ===== src/Files/Info.antt =====
-- FileInfo, and the file headers and file infos that payloads carry.
use sis_op.Base.{ℕ, ◌^◌, ◌<◌, some, none, Option, length, and_then}
use sis_op.Base.Int.{ℤ, FitsI64}
use sis_op.Base.Keys.{Bytes}
use sis_op.Protocol.Writer
use sis_op.Protocol.Reader
use sis_op.Protocol.Reader.{Reader, ◌>>=◌, return}
use sis_op.Protocol.Carries.{
  Carries, WriterStep, Carries-bind, Carries-map, Carries-u64, Carries-i64, Carries-str,
}

pub record FileInfo : Type 0 where
  pub name : Bytes
  pub size : ℕ
  pub mtime_ns : ℤ
  pub hash : ℕ

-- A version of a file is its content, known by hash and size; `none` is no file.
pub record Version : Type 0 where
  pub hash : ℕ
  pub size : ℕ

abbrev pub version : Option FileInfo → Option Version
version none = none
version (some file) = some (record { hash = file.hash; size = file.size })

unfoldable pub write_file_header : FileInfo → WriterStep
write_file_header info buf =
    and_then (Writer.str info.name buf)
      (λ b. some (Writer.i64 info.mtime_ns (Writer.u64 info.size b)))

-- The hash of a header is the default 0.
unfoldable pub read_file_header : Reader FileInfo
read_file_header = do
  name ← Reader.str
  size ← Reader.u64
  mtime_ns ← Reader.i64
  return (record { name = name; size = size; mtime_ns = mtime_ns; hash = 0 })

unfoldable pub write_file_info : FileInfo → WriterStep
write_file_info info buf =
    and_then (write_file_header info buf) (λ b. some (Writer.u64 info.hash b))

unfoldable pub read_file_info : Reader FileInfo
read_file_info = do info ← read_file_header; hash ← Reader.u64; return (record info { hash = hash })

pub record FitsInfo (info : FileInfo) : Type 0 where
  pub name_fits : length info.name < 2 ^ 16
  pub size_fits : info.size < 2 ^ 64
  pub mtime_fits : FitsI64 info.mtime_ns
  pub hash_fits : info.hash < 2 ^ 64

-- A header announces the name, the size and the modification time, and no hash.
pub read_file_header-write_file_header :
    (info : FileInfo)
    → FitsInfo info
    → Carries (write_file_header info) read_file_header (record info { hash = 0 })
unfolding write_file_header read_file_header
read_file_header-write_file_header info f =
    Carries-bind {w = Writer.str info.name}
      {v = λ b. some (Writer.i64 info.mtime_ns (Writer.u64 info.size b))}
      (λ name. do
        size ← Reader.u64
        mtime_ns ← Reader.i64
        return (record { name = name; size = size; mtime_ns = mtime_ns; hash = 0 }))
      (Carries-str info.name f.name_fits)
      (Carries-bind {w = λ b. some (Writer.u64 info.size b)}
        {v = λ b. some (Writer.i64 info.mtime_ns b)}
        (λ size. do
          mtime_ns ← Reader.i64
          return (record { name = info.name; size = size; mtime_ns = mtime_ns; hash = 0 }))
        (Carries-u64 info.size f.size_fits)
        (Carries-map
          (λ mtime_ns. record { name = info.name; size = info.size; mtime_ns = mtime_ns; hash = 0 })
          (Carries-i64 info.mtime_ns f.mtime_fits)))

-- A file info whose fields fit their types is read back whole.
pub read_file_info-write_file_info :
    (info : FileInfo) → FitsInfo info → Carries (write_file_info info) read_file_info info
unfolding write_file_info read_file_info
read_file_info-write_file_info info f =
    Carries-bind {w = write_file_header info} {v = λ b. some (Writer.u64 info.hash b)}
      (λ header. do hash ← Reader.u64; return (record header { hash = hash }))
      (read_file_header-write_file_header info f)
      (Carries-map (λ hash. record info { hash = hash }) (Carries-u64 info.hash f.hash_fits))
