-- ===== src/Protocol/Carries.antt =====
-- What a writer appends, the matching reader reads back.
use sis_op.Base.{
  ℕ, ◌+◌, ◌*◌, ◌/◌, ◌%◌, ◌^◌, ◌<◌, ◌≡◌, refl, sym, eq_of_some, ap, subst, ◌∙◌, Option, some, List,
  [], ◌∷◌, ◌++◌, append_assoc, arith, ge→ltb, length, and_then, All, take-append, drop-append,
  length-append, append-nil,
}
use sis_op.Base.Int.{ℤ, to_u64, to_u64-lt, to_i64-to_u64, to_i64, FitsI64}
use sis_op.Base.Keys.{Bytes}
use sis_op.Protocol.Writer
use sis_op.Protocol.Reader
use sis_op.Protocol.Reader.{Reader, byte_at, ◌>>=◌, return}

abbrev pub WriterStep : Type 0
WriterStep = Bytes → Option Bytes

-- The writer appends some bytes, whatever stands before, from which the reader takes `a` and no
-- more, whatever follows.
pub record Carries {ℓ} {A : Type ℓ} (write : WriterStep) (read : Reader A) (a : A) : Type ℓ where
  pub out : Bytes
  pub wrote : (buf : Bytes) → write buf ≡ some (buf ++ out)
  pub got : (rest : Bytes) → read (out ++ rest) ≡ some (a, rest)

bind_some {ℓ κ} :
    {A : Type ℓ} {B : Type κ} (read : Reader A) (next : A → Reader B) {a : A} {x : B × Bytes}
    (r : Bytes) {rest : Bytes}
    → read r ≡ some (a, rest)
    → next a rest ≡ some x
    → (read >>= next) r ≡ some x
bind_some read next r e e' = rw (e, ◌>>=◌) e'

-- One write after another.
abbrev pub and_write : WriterStep → WriterStep → WriterStep
and_write w v buf = and_then (w buf) v

pub Carries-bind {ℓ κ} :
    {A : Type ℓ} {B : Type κ} {w v : WriterStep} {read : Reader A} (next : A → Reader B) {a : A}
    {b : B}
    → Carries w read a
    → Carries v (next a) b
    → Carries (and_write w v) (read >>= next) b
Carries-bind {w} {v} {read} next {a} {b} first second = record {
  out = first.out ++ second.out;
  wrote = λ buf.
      rw (first.wrote buf)
        (second.wrote (buf ++ first.out) ∙ ap some (append_assoc buf first.out second.out));
  got = λ rest.
      rw (append_assoc first.out second.out rest)
        (bind_some read next _ (first.got (second.out ++ rest)) (second.got rest));
}

-- All that the writer writes is read back, and nothing is left.
pub Carries-whole {ℓ} :
    {A : Type ℓ} {write : WriterStep} {read : Reader A} {a : A} (out : Bytes)
    → Carries write read a
    → write [] ≡ some out
    → read out ≡ some (a, [])
Carries-whole {read} {a} out c wrote =
    let same_bytes : c.out ≡ out = eq_of_some c.out out (sym (c.wrote []) ∙ wrote) in
    subst (λ b. read b ≡ some (a, [])) (append-nil _ ∙ same_bytes) (c.got [])

-- A writer that does the same carries the same.
pub Carries-ext {ℓ} :
    {A : Type ℓ} (w : WriterStep) {w' : WriterStep} {read : Reader A} {a : A}
    → ((buf : Bytes) → w' buf ≡ w buf)
    → Carries w read a
    → Carries w' read a
Carries-ext w e c = record { out = c.out; wrote = λ buf. e buf ∙ c.wrote buf; got = c.got }

pub Carries-return {ℓ} : {A : Type ℓ} (a : A) → Carries some (return a) a
Carries-return a = record { out = []; wrote = λ buf. rw append-nil; got = λ rest. refl }

pub Carries-map {ℓ κ} :
    {A : Type ℓ} {B : Type κ} (f : A → B) {w : WriterStep} {read : Reader A} {a : A}
    → Carries w read a
    → Carries w (read >>= λ a. return (f a)) (f a)
Carries-map f {read} {a} c = record {
  out = c.out;
  wrote = c.wrote;
  got = λ rest. bind_some read (λ a. return (f a)) _ (c.got rest) refl;
}

pub take_bytes-append : (p rest : Bytes) → Reader.take_bytes (length p) (p ++ rest) ≡ some (p, rest)
unfolding Reader.take_bytes
take_bytes-append p rest =
    rw (ge→ltb (length (p ++ rest)) (length p) (omega (arith, length-append p rest)))
      (rw (take-append p rest, drop-append p rest))

pub Carries-u8 : (v : ℕ) → Carries (λ buf. some (Writer.u8 v buf)) Reader.u8 v
unfolding Writer.u8 Reader.u8
Carries-u8 v = record {
  out = v ∷ [];
  wrote = λ buf. refl;
  got = λ rest.
      bind_some (Reader.take_bytes 1) (λ p. return (byte_at 0 p)) _
        (take_bytes-append (v ∷ []) rest) refl;
}

pub Carries-u16 : (v : ℕ) → v < 2 ^ 16 → Carries (λ buf. some (Writer.u16 v buf)) Reader.u16 v
unfolding Writer.u16 Writer.u8 Reader.u16
Carries-u16 v h = record {
  out = v / 2 ^ 8 % 2 ^ 8 ∷ v % 2 ^ 8 ∷ [];
  wrote = λ buf. ap some (append_assoc buf (v / 2 ^ 8 % 2 ^ 8 ∷ []) (v % 2 ^ 8 ∷ []));
  got = λ rest.
      bind_some (Reader.take_bytes 2) (λ p. return ((byte_at 0 p * 2 ^ 8 + byte_at 1 p) % 2 ^ 16)) _
        (take_bytes-append (v / 2 ^ 8 % 2 ^ 8 ∷ v % 2 ^ 8 ∷ []) rest)
        (ap {B = Option (ℕ × Bytes)} (λ (n : ℕ). some (n, rest)) (omega arith));
}

-- Two numbers read as the halves of one.
Carries-halves :
    (bits v high low : ℕ) (write : ℕ → Bytes → Bytes) (read : Reader ℕ)
    → Carries (λ buf. some (write high buf)) read high
    → Carries (λ buf. some (write low buf)) read low
    → high * 2 ^ bits + low ≡ v
    → Carries
        (λ buf. some (write low (write high buf)))
        (do high ← read; low ← read; return (high * 2 ^ bits + low))
        v
Carries-halves bits v high low write read first second e = rw (← e) (
    Carries-bind {w = λ buf. some (write high buf)} {v = λ buf. some (write low buf)}
      (λ high. do low ← read; return (high * 2 ^ bits + low)) first
      (Carries-bind {w = λ buf. some (write low buf)} {v = some}
        (λ low. return (high * 2 ^ bits + low)) second (Carries-return (high * 2 ^ bits + low))))

pub Carries-u32 : (v : ℕ) → v < 2 ^ 32 → Carries (λ buf. some (Writer.u32 v buf)) Reader.u32 v
unfolding Writer.u32 Reader.u32
Carries-u32 v h =
    Carries-halves 16 v (v / 2 ^ 16 % 2 ^ 16) (v % 2 ^ 16) Writer.u16 Reader.u16
      (Carries-u16 (v / 2 ^ 16 % 2 ^ 16) (omega arith)) (Carries-u16 (v % 2 ^ 16) (omega arith))
      (omega arith)

pub Carries-u64 : (v : ℕ) → v < 2 ^ 64 → Carries (λ buf. some (Writer.u64 v buf)) Reader.u64 v
unfolding Writer.u64 Reader.u64
Carries-u64 v h =
    Carries-halves 32 v (v / 2 ^ 32 % 2 ^ 32) (v % 2 ^ 32) Writer.u32 Reader.u32
      (Carries-u32 (v / 2 ^ 32 % 2 ^ 32) (omega arith)) (Carries-u32 (v % 2 ^ 32) (omega arith))
      (omega arith)

pub Carries-i64 : (v : ℤ) → FitsI64 v → Carries (λ buf. some (Writer.i64 v buf)) Reader.i64 v
unfolding Writer.i64 Reader.i64
Carries-i64 v h =
    subst (λ z. Carries (λ buf. some (Writer.i64 v buf)) Reader.i64 z) (to_i64-to_u64 v h)
      (Carries-bind {w = λ buf. some (Writer.u64 (to_u64 v) buf)} {v = some}
        (λ value. return (to_i64 value)) (Carries-u64 (to_u64 v) (to_u64-lt v))
        (Carries-return (to_i64 (to_u64 v))))

-- The bytes themselves, after their number.
Carries-raw : (v : Bytes) → Carries (λ buf. some (buf ++ v)) (Reader.take_bytes (length v)) v
Carries-raw v = record { out = v; wrote = λ buf. refl; got = take_bytes-append v }

pub Carries-str : (v : Bytes) → length v < 2 ^ 16 → Carries (Writer.str v) Reader.str v
unfolding Writer.str Reader.str
Carries-str v h =
    Carries-ext (λ buf. some (Writer.u16 (length v % 2 ^ 16) buf ++ v))
      (λ buf. rw (ge→ltb 0xFFFF (length v) (omega arith)))
      (Carries-bind {w = λ buf. some (Writer.u16 (length v % 2 ^ 16) buf)}
        {v = λ buf. some (buf ++ v)} Reader.take_bytes
        (Carries-u16 (length v % 2 ^ 16) (omega arith)) (rw fits (Carries-raw v)))
  where
    fits : length v % 2 ^ 16 ≡ length v
    fits = omega arith

-- A loop that writes the entries of a list one after another.
unfoldable pub write_each {ℓ} : {A : Type ℓ} → (A → WriterStep) → List A → WriterStep
write_each write [] buf = some buf
write_each write (a ∷ l) buf = and_then (write a buf) (write_each write l)

pub Carries-each {ℓ κ} :
    {A : Type ℓ} (Fits : A → Type κ) (write : A → WriterStep) (read : Reader A)
    → ((a : A) → Fits a → Carries (write a) read a)
    → (l : List A) → All Fits l
    → Carries (write_each write l) (Reader.repeat (length l) read) l
unfolding write_each Reader.repeat
Carries-each Fits write read one [] h = Carries-return []
Carries-each Fits write read one (a ∷ l) h =
    Carries-bind {w = write a} {v = write_each write l}
      (λ a. do rest ← Reader.repeat (length l) read; return (a ∷ rest)) (one a h.0)
      (Carries-map (◌∷◌ a) (Carries-each Fits write read one l h.1))
