-- ===== src/Server/Requests/Loop.antt =====
-- The loop of serve_client, server/server.cpp, over the requests of a session.
use sis_op.Base.{Bool, false, List, [], ◌∷◌, ◌++◌, if◌then◌else◌}
use sis_op.Protocol.Msg.{Message}
use sis_op.Protocol.Names.{text}
use sis_op.Files.System.{FileSystem}
use sis_op.Server.Incoming.{Store}
use sis_op.Server.Requests.{Effect, refuse, Request, Outcome, handle_request}

module _ (F : FileSystem) where
  -- A message that arrives: what other threads did to the storage before it, whether this server is
  -- still the primary, what is fixed for the request, the message, and those that follow it.
  pub record Turn : Type 0 where
    pub others : Store F → Store F
    pub primary : Bool
    pub request : Request F
    pub message : Message
    pub messages : List Message

  -- One round of the loop: the storage, the effects, and whether there is a next one.
  unfoldable pub serve_turn : Turn → Store F → Outcome F
  serve_turn t s =
      let before = t.others s in
      if t.primary then handle_request F t.request before t.message t.messages else record {
        store = before;
        effects = refuse (text "this server is no longer the primary") ∷ [];
        keep_going = false;
      }

  -- The list ends where `recv` gives no message.
  unfoldable pub serve_requests : List Turn → Store F → Store F × List Effect
  serve_requests [] s = (s, [])
  serve_requests (t ∷ turns) s =
      let out = serve_turn t s in
      let (s', effects) = serve_requests turns out.store in
      if out.keep_going then (s', out.effects ++ effects) else (out.store, out.effects)
