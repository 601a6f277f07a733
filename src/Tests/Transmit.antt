-- ===== src/Tests/Transmit.antt =====
-- A run of the loop of simple_tx.c: the port takes the packet, and takes it again.
use dpdk_for_beginners.Base.{◌≡◌, refl, true, false, [], ◌∷◌}
use dpdk_for_beginners.Transmit.Send.{program, driver, tx_burst, free, send_once, send_loop}

sent_twice :
    send_loop program (true ∷ false ∷ []) ≡ (tx_burst program ∷ tx_burst driver ∷ free driver ∷ [])
unfolding send_loop send_once
sent_twice = refl
