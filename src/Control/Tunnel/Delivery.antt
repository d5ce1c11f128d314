-- ===== src/Control/Tunnel/Delivery.antt =====
-- The frames of a stream reach the session that was opened for it.
use inferia_worker.Common.{ℕ, ◌≡◌, ◌≢◌, String, List, [], ◌∷◌, some, lookup, string_key}
use inferia_worker.Control.Tunnel.{shell, Tunnel}
use inferia_worker.Control.Tunnel.Frames.{Inbound, shell_close, handle}

-- The shell stream's entry in its table.
abbrev Bound : Tunnel → String → ℕ → Type 0
Bound t s h = lookup s (t.tables shell) ≡ some h

-- The frame does not close the shell stream.
unfoldable pub Spares : String → Inbound → Type 0
Spares s (shell_close (some r)) = r ≢ s
Spares s f = Unit

unfoldable pub handle_all : Tunnel → List Inbound → Tunnel
unfolding handle
handle_all t [] = t
handle_all t (f ∷ fs) = handle_all (handle t f).0 fs
