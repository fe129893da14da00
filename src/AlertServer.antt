-- ===== src/AlertServer.antt =====
-- src/response/AlertServer.h and AlertServer.cpp: the alerts that arrive at a port.
use idsproject.Base.{
  Text, ℕ, ℤ, Bool, false, List, [], ◌∷◌, ◌++◌, ◌≡◌, if◌then◌else◌, Run, ok, pure, call, ◌>>=◌,
}
use idsproject.Host.{QtNetwork}

module _ {S Socket J : Type 0} (qt : QtNetwork S Socket J) where
  -- `startServer`: whether the server listens; the code writes one line of the log either way.
  unfoldable pub start_server : ℕ → Run S Bool
  start_server port = call (qt.listen port)

  -- `incomingConnection`, which connects `on_ready_read` to the socket.
  unfoldable pub incoming_connection : ℤ → Run S Socket
  incoming_connection descriptor = call (qt.new_socket descriptor)

  -- What a chunk of bytes emits: the document, where it is an object.
  unfoldable pub emitted : Text → List J
  emitted bytes = let doc = qt.from_json bytes in if qt.is_object doc then doc ∷ [] else []

  -- The function of `readyRead`.
  unfoldable pub on_ready_read : Socket → Run S (List J)
  unfolding emitted
  on_ready_read socket = do bytes ← call (qt.read_all socket); pure (emitted bytes)

  -- So many signals of one socket in a row.
  unfoldable pub on_signals : List Socket → Run S (List J)
  on_signals [] = pure []
  on_signals (socket ∷ rest) = do
    first ← on_ready_read socket
    later ← on_signals rest
    pure (first ++ later)

  -- An alert whose bytes come in two chunks, of which neither is an object by itself, is lost.
  split_chunks_lost :
      (socket : Socket) (s : S) {head tail : Text} {s1 s2 : S}
      → qt.read_all socket s ≡ (head, s1)
      → qt.read_all socket s1 ≡ (tail, s2)
      → qt.is_object (qt.from_json head) ≡ false
      → qt.is_object (qt.from_json tail) ≡ false
      → on_signals (socket ∷ socket ∷ []) s ≡ (ok [], s2)
  unfolding on_signals on_ready_read
  split_chunks_lost socket s a b c d = rw (a, b, emitted, c, d)
