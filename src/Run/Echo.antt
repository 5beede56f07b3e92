-- ===== src/Run/Echo.antt =====
-- The echo server of src/run/engine.rs: `echo_loop`. A reading of the flag takes place at the state's
-- `at`.
pub mod Replies
mod Tests
use scg_seshat.Prelude.{
  ℕ, ◌+◌, Bool, true, false, Option, none, some, List, replicate, get_range, if◌then◌else◌,
}
use scg_seshat.Prelude.Loop.{Round, again, leave, panic, Exit, returned, panicked, unfinished, loop}
use scg_seshat.Transport.{
  SendOutcome, sent, would_block, failed, Received, message, nothing, shut, lost, DuplexEnd,
}
use scg_seshat.Run.{World, is_done}

pub record Echo (S : Type 0) : Type 0 where
  pub server : S
  pub buf : List ℕ
  pub at : ℕ

module _ {S : Type 0} (ops : DuplexEnd S) (w : World) where
  -- `if server.send_msg(..).is_err() { break }`
  unfoldable pub after_reply : Echo S → SendOutcome → Round (Echo S) S
  after_reply s sent = again s
  after_reply s _ = leave s.server

  unfoldable pub reply : Echo S → Option (List ℕ) → Round (Echo S) S
  reply s none = panic
  reply s (some msg) =
      let (o, server) = ops.send_msg s.server msg in after_reply (record s { server = server }) o

  unfoldable pub after_request : Echo S → Received → Round (Echo S) S
  after_request s (message n) = reply s (get_range 0 n s.buf)
  after_request s nothing =
      if is_done (w.phase s.at) then leave s.server else again (record s { at = s.at + 1 })
  after_request s _ = leave s.server

  unfoldable pub echo_round : Echo S → Round (Echo S) S
  echo_round s =
      let (o, buf, server) = ops.recv_msg s.server s.buf in
      after_request (record s { server = server; buf = buf }) o

  unfoldable pub close_server : Exit S → Exit S
  close_server (returned server) = returned (ops.close server)
  close_server panicked = panicked
  close_server unfinished = unfinished

  unfoldable pub echo_loop : ℕ → ℕ → S → Exit S
  echo_loop fuel message_bytes server =
      close_server
        (loop echo_round fuel (record { server = server; buf = replicate message_bytes 0; at = 0 }))
