-- ===== src/Client/Commands.antt =====
-- trim and run_command of client/client.cpp: the line that the user typed, taken apart.
pub mod Parsed
use sis_op.Base.{ℕ, Bool, true, false, not, ◌&&◌, ◌||◌, List, [], ◌∷◌, ◌++◌, ◌==◌, if◌then◌else◌}
use sis_op.Base.Keys.{Bytes}
use sis_op.Protocol.Names.{text}
use sis_op.Files.Names.{◌is◌}

-- One of " \t\r\n".
unfoldable pub is_blank : ℕ → Bool
is_blank c = c == 32 || c == 9 || c == 13 || c == 10

-- From find_first_not_of on.
unfoldable pub trim_left : Bytes → Bytes
trim_left [] = []
trim_left (c ∷ cs) = if is_blank c then trim_left cs else c ∷ cs

abbrev pub unless_blank : ℕ → Bytes → Bytes
unless_blank c [] = if is_blank c then [] else c ∷ []
unless_blank c (d ∷ ds) = c ∷ d ∷ ds

-- Up to find_last_not_of.
unfoldable pub trim_right : Bytes → Bytes
trim_right [] = []
trim_right (c ∷ cs) = unless_blank c (trim_right cs)

unfoldable pub trim : Bytes → Bytes
trim line = trim_right (trim_left line)

-- The text before the first blank or tab, and the text from there on.
unfoldable pub cut_word : Bytes → Bytes × Bytes
cut_word [] = ([], [])
cut_word (c ∷ cs) =
    let (word, rest) = cut_word cs in if c == 32 || c == 9 then ([], c ∷ cs) else (c ∷ word, rest)

pub data Command : Type 0 where
  nothing exit help list_server list_client sync : Command
  upload download delete : Bytes → Command
  unknown : Bytes → Command

-- The chain of comparisons.
unfoldable pub select : Bytes → Bytes → Command
select command argument =
    if command is text "exit" || command is text "quit"
    then exit
    else if command is text "help"
    then help
    else if command is text "upload"
    then upload argument
    else if command is text "download"
    then download argument
    else if command is text "delete"
    then delete argument
    else if command is text "list_server"
    then list_server
    else if command is text "list_client"
    then list_client
    else if command is text "sync" || command is text "get_sync_dir"
    then sync
    else unknown command

abbrev pub take_command : Bytes → Command
take_command [] = nothing
take_command (c ∷ cs) = select (cut_word (c ∷ cs)).0 (trim (cut_word (c ∷ cs)).1)

-- What run_command does with a line; it returns false for `exit` alone.
unfoldable pub run_command : Bytes → Command
run_command line = take_command (trim line)
