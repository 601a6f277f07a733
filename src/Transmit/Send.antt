-- ===== src/Transmit/Send.antt =====
-- The endless loop of tranmit_packet/packet_creation/simple_tx.c: one packet is handed to the port over and
-- over again. A packet that `rte_eth_tx_burst` took belongs to the driver, and one that was freed to its pool.
use dpdk_for_beginners.Base.{◌≡◌, ◌≢◌, refl, Bool, true, false, List, [], ◌∷◌, ◌++◌, All}

pub data Owner : Type 0 where
  program driver pool : Owner

-- The calls that use the packet, with the one whom it belongs to when the call is made.
pub data Use : Type 0 where
  tx_burst : Owner → Use
  free : Owner → Use

abbrev pub owner_of : Use → Owner
owner_of (tx_burst o) = o
owner_of (free o) = o

-- the body of `while (1)`, with whether the port takes the packet
unfoldable pub send_once : Owner → Bool → List Use × Owner
send_once o true = (tx_burst o ∷ [], driver)
send_once o false = (tx_burst o ∷ free o ∷ [], pool)

unfoldable pub send_loop : Owner → List Bool → List Use
unfolding send_once
send_loop o [] = []
send_loop o (taken ∷ rest) = let (uses, p) = send_once o taken in uses ++ send_loop p rest

no_longer_owned :
    (o : Owner) (rest : List Bool)
    → o ≢ program
    → All (λ u. owner_of u ≢ program) (send_loop o rest)
unfolding send_loop send_once
no_longer_owned o [] n = tt
no_longer_owned o (true ∷ rest) n = (n, no_longer_owned driver rest (λ e. cc))
no_longer_owned o (false ∷ rest) n = (n, (n, no_longer_owned pool rest (λ e. cc)))

-- Only the first round uses a packet that belongs to the program: in every later round, whatever the port takes,
-- it belongs to the driver or to its pool.
pub send_loop_misused :
    (taken : Bool) (rest : List Bool)
    → let (uses, o) = send_once program taken in
      (send_loop program (taken ∷ rest) ≡ uses ++ send_loop o rest)
      × All (λ u. owner_of u ≡ program) uses
      × All (λ u. owner_of u ≢ program) (send_loop o rest)
unfolding send_loop send_once
send_loop_misused true rest = (refl, (refl, tt), no_longer_owned driver rest (λ e. cc))
send_loop_misused false rest = (refl, (refl, (refl, tt)), no_longer_owned pool rest (λ e. cc))
