-- ===== src/Examples/Running.antt =====
-- A machine at work.
use ovm_next.Base.{codes, true, List, [], ◌∷◌, refl}
use ovm_next.Lifecycle.Readiness.{new_readiness, signal_ssh_ready}
use ovm_next.Lifecycle.Monitor.{Reaches, new_monitor, on_ssh}
use ovm_next.Lifecycle.Monitor.Laws.{IsFaithful, Reaches-IsFaithful}
use ovm_next.Lifecycle.Ignition.{Request, serve}
use ovm_next.Lifecycle.Ignition.Laws.{IsAnnounced, serve-IsAnnounced}

ssh_seen : Reaches true (signal_ssh_ready new_readiness).0 (on_ssh (new_monitor true))
unfolding signal_ssh_ready
ssh_seen = Reaches.ssh_round (Reaches.ssh_closed Reaches.start) refl refl

Reaches-IsFaithful_example :
    IsFaithful true (signal_ssh_ready new_readiness).0 (on_ssh (new_monitor true))
Reaches-IsFaithful_example = Reaches-IsFaithful ssh_seen

abbrev ssh_announced : List Request
ssh_announced =
    record { method = codes "GET"; service = codes "podman" }
    ∷ record { method = codes "POST"; service = codes "ssh" }
    ∷ []

serve-IsAnnounced_example :
    IsAnnounced ssh_announced new_readiness (serve ssh_announced new_readiness)
serve-IsAnnounced_example = serve-IsAnnounced ssh_announced new_readiness
