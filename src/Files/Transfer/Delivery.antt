-- ===== src/Files/Transfer/Delivery.antt =====
-- A transfer delivers the file whole or not at all, and keeps the stream in step.
use sis_op.Base.{
  ℕ, zero, suc, ◌+◌, ◌-◌, ◌≤◌, ◌<◌, ◌≡◌, ◌≢◌, inl, inr, refl, ap, ◌∙◌, subst, min, Bool, true,
  false, some, List, [], ◌∷◌, ◌++◌, length, take, drop, length-append, ge→ltb, length-take,
  length-drop, take-append-drop, append_assoc, ltb, ◌==◌, arith, Bool-cases, append-nil,
}
use sis_op.Base.Keys.{Bytes}
use sis_op.Protocol.Msg.{Msg, Message, file_data}
use sis_op.Files.Hash.{fnv, fnv_start, fnv_update, fnv_update-append}
use sis_op.Files.Transfer.{
  TransferResult, BodyPart, Sent, message, send_end, send_body, send_file, file_chunk_size,
  Receiving, BodyReceived, finish_body, body_part, receive_data, recv_loop, recv_file_body,
  sent_first, part_data, part_end, part_abort, part_other,
}

-- A disk that takes everything.
abbrev pub always : ℕ → Bool
always n = true

abbrev received : Bytes → Receiving
received content = record {
  content = content;
  written = content;
  hash = fnv content;
  write_ok = true;
}

receive_data-received :
    (done payload : Bytes)
    → receive_data always (received done) payload ≡ received (done ++ payload)
unfolding receive_data fnv
receive_data-received done payload = rw (fnv_update-append fnv_start done payload)

recv_loop-data :
    (size : ℕ) (done payload : Bytes) (rest : List Message)
    → length done + length payload ≤ size
    → recv_loop always size (received done) (message file_data payload ∷ rest)
      ≡ recv_loop always size (received (done ++ payload)) rest
unfolding recv_loop body_part
recv_loop-data size done payload rest h =
    rw (
      ge→ltb (size - length done) (length payload) (omega arith),
      receive_data-received done payload,
    )

send_body-data :
    (fuel chunk_size room remaining : ℕ) (content : Bytes)
    → let chunk = min (suc remaining) chunk_size in
      chunk ≤ length content
      → send_body (suc fuel) chunk_size (suc room) (suc remaining) content
        ≡ sent_first
            (message file_data (take chunk content))
            (send_body fuel chunk_size room (suc remaining - chunk) (drop chunk content))
unfolding send_body
send_body-data fuel chunk_size room remaining content h =
    rw (ge→ltb (length content) (min (suc remaining) chunk_size) h)

-- The file has been received in full and in order.
abbrev Delivered : ℕ → Bytes → Bytes → List Message → Sent → Type 0
Delivered size done content rest sent =
    (sent.result ≡ TransferResult.ok)
    × (recv_loop always size (received done) (sent.messages ++ rest) ≡ record {
      result = TransferResult.ok;
      stored = some (done ++ content);
      hash = fnv (done ++ content);
      left = rest;
    })

Delivered-data :
    (size : ℕ) (done payload content : Bytes) (rest : List Message) (sent : Sent)
    → length done + length payload ≤ size
    → Delivered size (done ++ payload) content rest sent
    → Delivered size done (payload ++ content) rest (sent_first (message file_data payload) sent)
Delivered-data size done payload content rest sent h d = (
  d.0,
  recv_loop-data size done payload (sent.messages ++ rest) h
      ∙ rw (← append_assoc done payload content) d.1,
)

-- The rest of a file that is there in full.
recv_loop-send_body :
    (fuel chunk_size room remaining : ℕ) (done content : Bytes) (rest : List Message) (size : ℕ)
    → 0 < chunk_size
    → remaining ≤ fuel
    → remaining < room
    → length content ≡ remaining
    → length done + remaining ≡ size
    → Delivered size done content rest (send_body fuel chunk_size room remaining content)
recv_loop-send_body fuel chunk_size zero remaining done content rest size c f r l w =
    absurd (omega arith)
recv_loop-send_body fuel chunk_size (suc room) zero done [] rest size c f r l w =
    unfold send_body send_end recv_loop body_part finish_body in
    (refl, rw append-nil (ground arith))
recv_loop-send_body fuel chunk_size (suc room) zero done (x ∷ content) rest size c f r l w =
    absurd (omega arith)
recv_loop-send_body zero chunk_size (suc room) (suc remaining) done content rest size c f r l w =
    absurd (omega arith)
recv_loop-send_body (suc fuel) chunk_size (suc room) (suc remaining) done content rest size c f r l
      w =
    let chunk = min (suc remaining) chunk_size in
    let taken = length-take chunk content (omega arith) in
    rw (send_body-data fuel chunk_size room remaining content (omega arith)) (
      subst
        (λ b. Delivered size done b rest (
          sent_first (message file_data (take chunk content))
            (send_body fuel chunk_size room (suc remaining - chunk) (drop chunk content))))
        (take-append-drop chunk content)
        (Delivered-data size done (take chunk content) (drop chunk content) rest _ (omega arith) (
          recv_loop-send_body fuel chunk_size room (suc remaining - chunk)
            (done ++ take chunk content) (drop chunk content) rest size c (omega arith)
            (omega arith) (omega (arith, length-drop chunk content))
            (omega (arith, length-append done (take chunk content))))))

-- A file that keeps its size while it is sent, over a connection that takes all its messages (one
-- for each byte suffices), arrives whole: the receiver reports success, has the content and its
-- hash, and leaves what follows the body unread.
pub recv_file_body-send_file :
    (room : ℕ) (type : Msg) (header content : Bytes) (rest : List Message)
    → length content + 1 < room
    → (body : List Message) × (send_file room type header (some (length content)) content
        ≡ record { messages = message type header ∷ body; result = TransferResult.ok })
      × (recv_file_body true always (length content) (body ++ rest) ≡ record {
        result = TransferResult.ok;
        stored = some content;
        hash = fnv content;
        left = rest;
      })
unfolding send_file recv_file_body fnv fnv_update
recv_file_body-send_file zero type header content rest h = absurd (omega arith)
recv_file_body-send_file (suc room) type header content rest h = (
  sent.messages,
  ap (λ r. record { messages = message type header ∷ sent.messages; result = r }) whole.0,
  whole.1,
)
  where
    sent : Sent
    sent = send_body (length content) file_chunk_size room (length content) content

    whole : Delivered (length content) [] content rest sent
    whole =
        recv_loop-send_body (length content) file_chunk_size room (length content) [] content rest
          (length content) (omega arith) (omega arith) (omega arith) refl (omega arith)

-- While no write has failed, what came is what was written.
abbrev InStep : Receiving → Type 0
InStep s = s.write_ok ≡ true → s.written ≡ s.content

receive_data-InStep :
    (can_write : ℕ → Bool) (s : Receiving) (payload : Bytes)
    → InStep s
    → InStep (receive_data can_write s payload)
unfolding receive_data
receive_data-InStep can_write s payload step ok =
    let before : s.write_ok ≡ true = ground arith in rw ok (rw (step before) refl)

-- What is reported with success: everything that came, of exactly the announced size, its hash, and
-- a file that holds it.
abbrev Complete : ℕ → Receiving → BodyReceived → Type 0
Complete size s r =
    (added : Bytes) × (r.stored ≡ some (s.content ++ added))
    × (r.hash ≡ fnv_update s.hash added)
    × (length (s.content ++ added) ≡ size)

Complete-data :
    (can_write : ℕ → Bool) (size : ℕ) (s : Receiving) (payload : Bytes) (r : BodyReceived)
    → Complete size (receive_data can_write s payload) r
    → Complete size s r
unfolding receive_data
Complete-data can_write size s payload r (added, stored, hashed, whole) = (
  payload ++ added,
  rw (← append_assoc s.content payload added) stored,
  rw fnv_update-append hashed,
  rw (← append_assoc s.content payload added) whole,
)

Complete-end :
    (size : ℕ) (s : Receiving) (left : List Message)
    → InStep s
    → length s.content ≡ size
    → (finish_body s false left).result ≡ TransferResult.ok
    → Complete size s (finish_body s false left)
unfolding finish_body fnv_update
Complete-end size s left step e h = elim (Bool-cases s.write_ok) [
  | inl ok ↦ ([], rw (append-nil, ← step ok) (rw ok refl), ground arith, rw append-nil e)
  | inr failed ↦ cc (rw failed at h)
]

finish_body-abort :
    (s : Receiving) (left : List Message) → (finish_body s true left).result ≢ TransferResult.ok
unfolding finish_body
finish_body-abort s left h = ground arith

recv_loop-ok :
    (can_write : ℕ → Bool) (size : ℕ) (s : Receiving) (messages : List Message)
    → InStep s
    → (recv_loop can_write size s messages).result ≡ TransferResult.ok
    → Complete size s (recv_loop can_write size s messages)
unfolding recv_loop
recv_loop-ok can_write size s [] step h = cc
recv_loop-ok can_write size s (m ∷ rest) step h = by_part (body_part m.type) refl (
    recv_loop-ok can_write size (receive_data can_write s m.payload) rest
      (receive_data-InStep can_write s m.payload step))
  where
    next : BodyReceived
    next = recv_loop can_write size (receive_data can_write s m.payload) rest

    by_part :
        (p : BodyPart)
        → body_part m.type ≡ p
        → (next.result ≡ TransferResult.ok
            → Complete size (receive_data can_write s m.payload) next)
        → Complete size s (recv_loop can_write size s (m ∷ rest))
    by_part part_data e ih = elim (Bool-cases (ltb (size - length s.content) (length m.payload))) [
      | inl more ↦ cc (rw (e, recv_loop, more) at h)
      | inr fits ↦
          rw (e, recv_loop)
            (rw fits (
              Complete-data can_write size s m.payload next
                (ih (rw fits at (rw (e, recv_loop) at h)))))
    ]
    by_part part_end e ih = elim (Bool-cases (length s.content == size)) [
      | inl whole ↦
          rw (e, recv_loop)
            (rw whole
              (Complete-end size s rest step (ground arith) (rw whole at (rw (e, recv_loop) at h))))
      | inr short ↦ cc (rw short at (rw (e, recv_loop) at h))
    ]
    by_part part_abort e ih = absurd (finish_body-abort s rest (rw (e, recv_loop) at h))
    by_part part_other e ih = cc (rw (e, recv_loop) at h)

-- Success is reported only for a body of exactly the announced size that the disk took, together
-- with its hash; whatever the messages are.
pub recv_file_body-ok :
    (opened : Bool) (can_write : ℕ → Bool) (size : ℕ) (messages : List Message)
    → (recv_file_body opened can_write size messages).result ≡ TransferResult.ok
    → (content : Bytes) × ((recv_file_body opened can_write size messages).stored ≡ some content)
      × ((recv_file_body opened can_write size messages).hash ≡ fnv content)
      × (length content ≡ size)
unfolding recv_file_body fnv
recv_file_body-ok opened can_write size messages h =
    recv_loop-ok can_write size _ messages (λ ok. refl) h
