-- ===== src/Examples/Sessions.antt =====
-- Runs of the session table of internal/control/shell_tunnel.go.
use inferia_worker.Common.{ℕ, ◌≡◌, refl, List, [], ◌∷◌, true, false, none, some, lookup, string_key}
use inferia_worker.Control.Tunnel.{
  OpenBody, shell, Tunnel, new_tunnel, handle_open, close_all, holds,
}
use inferia_worker.Control.Tunnel.Owned.{In, Owner}
use inferia_worker.Control.Tunnel.Steps.{Quiet}
use inferia_worker.Control.Tunnel.Leak.{Reaches, here, opens, disposes, Reaches-closed}
use inferia_worker.Control.Tunnel.Frames.{Inbound, shell_open, shell_close}
use inferia_worker.Control.Tunnel.Reopened.{opened_twice, opened_twice_leaks}

abbrev body : OpenBody
body = record {
  stream_id = "s1";
  shell = "/bin/sh";
  user = "";
  deployment_id = "d1";
  container_id = "";
  cols = 80;
  rows = 24;
}

abbrev after : Tunnel
after = close_all (handle_open new_tunnel shell body none)

quiet : Quiet new_tunnel shell "s1"
unfolding new_tunnel In
quiet o i = elim i [ ]

abbrev opened_then_disposed : Reaches new_tunnel after
opened_then_disposed = disposes _ (opens new_tunnel shell body none here quiet)

Reaches-closed_example :
    ((h : ℕ) → after.live h ≡ true → Owner after.tables after.openings h)
    × (after.disposed ≡ true → after.openings ≡ [] → (h : ℕ) → after.live h ≡ false)
Reaches-closed_example = Reaches-closed after opened_then_disposed

opened_twice_leaks_example :
    (lookup "s1" ((opened_twice new_tunnel shell body).tables shell) ≡ some 1)
    × ((close_all (opened_twice new_tunnel shell body)).live 1 ≡ false)
    × ((close_all (opened_twice new_tunnel shell body)).live 0 ≡ true)
unfolding new_tunnel holds
opened_twice_leaks_example =
    opened_twice_leaks new_tunnel shell body (λ e. cc e) refl refl (λ j. refl)

-- Another stream is opened and closed in between.
abbrev in_between : List Inbound
in_between =
    shell_open (some (record body { stream_id = "s10" })) none ∷ shell_close (some "s10") ∷ []
