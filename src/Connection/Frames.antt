-- ===== src/Connection/Frames.antt =====
-- What one end frames, the other receives; what is not a frame closes the connection.
use sis_op.Base.{
  length-take-le, ℕ, ◌≡◌, ◌<◌, ◌≤◌, ◌%◌, ap, ◌∙◌, Bool, Option, some, [], ◌∷◌, ◌++◌, length, arith,
  ◌^◌, append-nil, append_assoc, ge→ltb, inl, inr, subst, Option-cases,
}
use sis_op.Base.Keys.{Bytes}
use sis_op.Protocol.Msg.{Msg, Message, code, from_code}
use sis_op.Protocol.Writer
use sis_op.Protocol.Reader
use sis_op.Protocol.Reader.{◌>>=◌, return}
use sis_op.Protocol.Carries.{
  Carries, Carries-bind, Carries-map, Carries-u16, Carries-u32, Carries-str, take_bytes-append,
}
use sis_op.Connection.{
  RecvStatus, frame, recv, recv_payload, read_header, max_payload, error_reason, error_payload,
}

-- A message type that fits in the 16 bits of the header and that the cast to the enum gives back.
pub record IsSendable (type : Msg) : Type 0 where
  pub canonical : from_code (code type) ≡ type
  pub small : code type < 2 ^ 16

abbrev Header : Msg → ℕ → Type 0
Header type size =
    Carries (λ buf. some (Writer.u32 size (Writer.u16 0 (Writer.u16 (code type) buf)))) read_header
      (type, size)

read_header_lem : (type : Msg) (size : ℕ) → IsSendable type → size < 2 ^ 32 → Header type size
unfolding read_header
read_header_lem type size s h =
    Carries-bind {w = λ buf. some (Writer.u16 (code type) buf)}
      {v = λ buf. some (Writer.u32 size (Writer.u16 0 buf))}
      (λ c. do reserved ← Reader.u16; size ← Reader.u32; return (from_code c, size))
      (Carries-u16 (code type) s.small)
      (Carries-bind {w = λ buf. some (Writer.u16 0 buf)} {v = λ buf. some (Writer.u32 size buf)}
        (λ reserved. do size ← Reader.u32; return (from_code (code type), size))
        (Carries-u16 0 (omega arith))
        (subst
          (λ t.
            Carries {A = Msg × ℕ} (λ buf. some (Writer.u32 size buf))
              (do size ← Reader.u32; return (from_code (code type), size)) (t, size))
          s.canonical (Carries-map (λ size. (from_code (code type), size)) (Carries-u32 size h))))

-- With a whole header there, only the payload matters.
recv-header :
    (bytes : Bytes) (ends : Bool) {type : Msg} {size : ℕ} {rest : Bytes}
    → read_header bytes ≡ some ((type, size), rest)
    → recv ends bytes ≡ recv_payload type size rest
unfolding recv read_header Reader.u16 Reader.take_bytes
recv-header [] ends h = cc
recv-header (b ∷ more) ends h = rw (h, recv)

recv_payload-append :
    (type : Msg) (payload rest : Bytes)
    → length payload ≤ max_payload
    → recv_payload type (length payload) (payload ++ rest) ≡ record {
      status = RecvStatus.ok;
      message = some (record { type = type; payload = payload });
      left = rest;
    }
unfolding recv_payload
recv_payload-append type payload rest short =
    rw (ge→ltb max_payload (length payload) short)
      (rw (take_bytes-append payload rest, recv_payload))

-- Every payload of at most 1 MB is framed, under a message type that has a code of 16 bits, and the
-- receiver gets the type and the payload and leaves alone what follows the frame.
pub recv-frame :
    (type : Msg) (payload rest : Bytes) (ends : Bool)
    → IsSendable type
    → length payload ≤ max_payload
    → (f : Bytes) × (frame type payload ≡ some f)
      × (recv ends (f ++ rest) ≡ record {
        status = RecvStatus.ok;
        message = some (record { type = type; payload = payload });
        left = rest;
      })
unfolding frame
recv-frame type payload rest ends s short = (
  h.out ++ payload,
  rw (ge→ltb max_payload (length payload) short, whole)
      (ap {B = Option Bytes} (λ (b : Bytes). some (b ++ payload)) (written (h.wrote []))),
  rw (append_assoc h.out payload rest) (
      recv-header (h.out ++ (payload ++ rest)) ends (h.got (payload ++ rest))
      ∙ recv_payload-append type payload rest short),
)
  where
    h : Header type (length payload)
    h = read_header_lem type (length payload) s (omega arith)

    whole : length payload % 2 ^ 32 ≡ length payload
    whole = omega arith

    written : {a b : Bytes} → some a ≡ some b → a ≡ b
    written e = cc

recv_payload-le :
    (type : Msg) (size : ℕ) (rest : Bytes) (m : Message)
    → (recv_payload type size rest).message ≡ some m
    → length m.payload ≤ max_payload
unfolding recv_payload Reader.take_bytes
recv_payload-le type size rest m h = ground (arith, length-take-le size rest)

-- Whatever bytes arrive, a message is handed over only with a payload of at most 1 MB.
pub recv-le :
    (ends : Bool) (bytes : Bytes) (m : Message)
    → (recv ends bytes).message ≡ some m
    → length m.payload ≤ max_payload
unfolding recv
recv-le ends [] m h = cc
recv-le ends (b ∷ more) m h = elim (Option-cases (read_header (b ∷ more))) [
  | inl bad ↦ cc (rw (bad, recv) at h)
  | inr (((type, size), rest), good) ↦ recv_payload-le type size rest m (rw (good, recv) at h)
]

-- A reason of fewer than 65536 bytes that send_error puts into its payload is the one that
-- error_reason gives.
pub error_reason-error_payload :
    (reason : Bytes)
    → length reason < 2 ^ 16
    → (p : Bytes) × (error_payload reason ≡ some p)
      × (error_reason (record { type = Msg.error; payload = p }) ≡ reason)
unfolding error_payload error_reason code
error_reason-error_payload reason h = (c.out, c.wrote [], got)
  where
    c : Carries (Writer.str reason) Reader.str reason
    c = Carries-str reason h

    got : error_reason (record { type = Msg.error; payload = c.out }) ≡ reason
    got =
        rw (
          subst (λ b. Reader.str b ≡ some (reason, [])) (append-nil c.out) (c.got []),
          error_reason,
        )
