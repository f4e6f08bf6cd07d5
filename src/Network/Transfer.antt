-- ===== src/Network/Transfer.antt =====
-- A transfer in a ready state is not disturbed, and what time does to a joining network.
use revlink_sidecar.Base.{◌≡◌, Bool, true, false, arith}
use revlink_sidecar.Network.{
  NetworkEventKind, client_lost, stop, NetworkEvent, NetworkConfig, NetworkSnapshot, no_action,
  is_ready_state, handle_tick,
}
use revlink_sidecar.Network.Handle.{
  on_start, on_scan_selected, on_scan_empty, on_client_connected, on_client_failed,
  on_client_healthy, on_client_unhealthy, on_hotspot, on_retry_saved, on_force_hotspot,
  on_transfer_started, on_transfer_finished, dispatch, handle,
}

-- The link breaks, or the radio is told to stop.
abbrev pub is_interruption : NetworkEventKind → Bool
is_interruption client_lost = true
is_interruption stop = true
is_interruption _ = false

-- While a transfer runs over a ready link, only the loss of the link or a stop can leave the ready state
-- or make the radio act: time, failed health checks and the owner's other choices cannot.
pub transfer_undisturbed :
    (c : NetworkConfig) (s : NetworkSnapshot) (e : NetworkEvent)
    → is_ready_state s.state ≡ true
    → s.transfer_active ≡ true
    → is_interruption e.kind ≡ false
    → ((handle c s e).1.state ≡ s.state)
      × ((handle c s e).1.selected_network_id ≡ s.selected_network_id)
      × ((handle c s e).2 ≡ no_action)
unfolding handle dispatch on_start on_scan_selected on_scan_empty on_client_connected
    on_client_failed on_client_healthy on_client_unhealthy on_hotspot on_retry_saved
    on_force_hotspot on_transfer_started on_transfer_finished handle_tick
transfer_undisturbed c s e r t k = ground arith
