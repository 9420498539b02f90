-- ===== src/Server/Pushing/Notices.antt =====
-- What a client that attaches hears of the problems of the cluster.
use sis_op.Base.{
  if◌then◌else◌, true, List, Option, none, some, ◌<◌, ◌^◌, ℕ, ◌≡◌, refl, sym, ap, ◌∙◌, false, [],
  ◌∷◌, ◌++◌, All, map, length, ◌==◌, append_assoc, append-nil, arith,
}
use sis_op.Base.Keys.{Bytes}
use sis_op.Base.Dict.{Dict}
use sis_op.Server.Health.{Monitor, lines, problems}
use sis_op.Protocol.Msg.{Msg, Message, code}
use sis_op.Protocol.Reader
use sis_op.Protocol.Carries.{Carries-str, Carries-whole}
use sis_op.Files.Transfer.{message}
use sis_op.Server.Sessions.{SessionManager, attach_sync}
use sis_op.Server.Pushing.{notices, serve_sync, push_char, cut_lines}

-- A line has no line feed.
abbrev pub Line : Bytes → Type 0
Line = All (λ c. (c == 10) ≡ false)

-- A message is a line with some text.
abbrev pub IsMessage : Bytes → Type 0
IsMessage m = ((length m == 0) ≡ false) × Line m

cut_lines-feed :
    (line rest : Bytes) → Line line → cut_lines (line ++ (10 ∷ rest)) ≡ line ∷ cut_lines rest
unfolding cut_lines
cut_lines-feed [] rest l = refl
cut_lines-feed (c ∷ line) rest l = rw (l.0) (ap (push_char c) (cut_lines-feed line rest l.1))

cut_lines-last : (c : ℕ) (line : Bytes) → Line (c ∷ line) → cut_lines (c ∷ line) ≡ (c ∷ line) ∷ []
unfolding cut_lines
cut_lines-last c [] l = rw (l.0) refl
cut_lines-last c (d ∷ line) l = rw (l.0) (ap (push_char c) (cut_lines-last d line l.1))

-- The text that the messages add behind a first one.
abbrev more_lines : Dict Bytes Bytes → Bytes
more_lines [] = []
more_lines ((k, m) ∷ messages) = 10 ∷ (m ++ more_lines messages)

filled : (acc : Bytes) (c : ℕ) (m : Bytes) → (length (acc ++ (c ∷ m)) == 0) ≡ false
filled [] c m = ground arith
filled (a ∷ acc) c m = ground arith

lines-more :
    (acc : Bytes) (messages : Dict Bytes Bytes)
    → (length acc == 0) ≡ false
    → All (λ e. IsMessage e.1) messages
    → lines acc messages ≡ acc ++ more_lines messages
unfolding lines
lines-more acc [] full all = sym (append-nil acc)
lines-more acc ((k, m) ∷ messages) full all = rw full (
    lines-more (acc ++ (10 ∷ m)) messages (filled acc 10 m) all.1
    ∙ append_assoc acc (10 ∷ m) (more_lines messages))

cut_lines-more :
    (c : ℕ) (line : Bytes) (messages : Dict Bytes Bytes)
    → Line (c ∷ line)
    → All (λ e. IsMessage e.1) messages
    → cut_lines ((c ∷ line) ++ more_lines messages) ≡ (c ∷ line) ∷ map (λ e. e.1) messages
cut_lines-more c line [] l all = ap cut_lines (append-nil (c ∷ line)) ∙ cut_lines-last c line l
cut_lines-more c line ((k, []) ∷ messages) l all = cc (all.0.0)
cut_lines-more c line ((k, d ∷ m) ∷ messages) l all =
    cut_lines-feed (c ∷ line) ((d ∷ m) ++ more_lines messages) l
    ∙ ap (◌∷◌ (c ∷ line)) (cut_lines-more d m messages all.0.1 all.1)

cut_messages :
    (messages : Dict Bytes Bytes)
    → All (λ e. IsMessage e.1) messages
    → cut_lines (lines [] messages) ≡ map (λ e. e.1) messages
unfolding lines cut_lines
cut_messages [] all = refl
cut_messages ((k, []) ∷ messages) all = cc (all.0.0)
cut_messages ((k, c ∷ m) ∷ messages) all =
    ap cut_lines (lines-more (c ∷ m) messages (filled [] c m) all.1)
    ∙ cut_lines-more c m messages all.0.1 all.1

-- Problems whose messages have some text and no line feed are cut into their messages.
cut_lines-problems :
    (m : Monitor)
    → All (λ e. IsMessage e.1) m.messages
    → cut_lines (problems m) ≡ map (λ e. e.1) m.messages
unfolding problems
cut_lines-problems m all = cut_messages m.messages all

abbrev text_of : Option (Bytes × Bytes) → Option Bytes
text_of none = none
text_of (some (m, rest)) = some m

-- What a client reads of a message: the text of a Notice.
abbrev pub heard : Message → Option Bytes
heard m = if code m.type == code Msg.notice then text_of (Reader.str m.payload) else none

heard-notice :
    (payload m rest : Bytes)
    → Reader.str payload ≡ some (m, rest)
    → heard (message Msg.notice payload) ≡ some m
unfolding code
heard-notice payload m rest e = ap text_of e

notices-heard :
    (messages : List Bytes)
    → All (λ m. length m < 2 ^ 16) messages
    → (sent : List Message) × (notices messages ≡ some sent)
      × (map heard sent ≡ map (λ m. some m) messages)
unfolding notices code
notices-heard [] short = ([], refl, refl)
notices-heard (m ∷ messages) short =
    let c = Carries-str m short.0 in
    let (sent, e, h) = notices-heard messages short.1 in
    (
      message Msg.notice c.out ∷ sent,
      rw (c.wrote [], e) refl,
      rw (heard-notice c.out m [] (Carries-whole c.out c (c.wrote []))) (ap (◌∷◌ (some m)) h),
    )

all_short :
    (messages : Dict Bytes Bytes)
    → All (λ e. length e.1 < 2 ^ 16) messages
    → All (λ m. length m < 2 ^ 16) (map (λ e. e.1) messages)
all_short [] short = tt
all_short (e ∷ messages) short = (short.0, all_short messages short.1)

map-some :
    (messages : Dict Bytes Bytes)
    → map (λ m. some m) (map (λ e. e.1) messages) ≡ map {B = Option Bytes} (λ e. some e.1) messages
map-some [] = refl
map-some (e ∷ messages) = ap (◌∷◌ (some e.1)) (map-some messages)

-- A client that attaches the sync connection of a session to the primary, where the problems' messages
-- have some text, no line feed and fit in a string: it is attached, has its Ok first, and then reads one
-- notice for each problem, in their order, with the message whole.
pub serve_sync-problems :
    (token : Bytes) (conn : ℕ) (m : Monitor) (sessions : SessionManager)
    → (attach_sync token conn sessions).1 ≡ true
    → All (λ e. IsMessage e.1) m.messages
    → All (λ e. length e.1 < 2 ^ 16) m.messages
    → (sent : List Message) × (serve_sync true token conn (problems m) sessions
        ≡ ((attach_sync token conn sessions).0, some (message Msg.ok [] ∷ sent)))
      × (map heard sent ≡ map (λ e. some e.1) m.messages)
unfolding serve_sync
serve_sync-problems token conn m sessions known all short =
    let (sent, e, h) = notices-heard (map (λ e. e.1) m.messages) (all_short m.messages short) in
    (sent, rw (known, cut_lines-problems m all, e) refl, h ∙ map-some m.messages)
