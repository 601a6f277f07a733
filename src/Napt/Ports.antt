-- ===== src/Napt/Ports.antt =====
-- The ports that `allocate_port` of nat_project/version6/static_nat.c hands out.
use dpdk_for_beginners.Base.{ℕ, zero, suc, ◌+◌, ◌-◌, ◌%◌, ◌≤◌, ◌<◌, ◌≡◌, ◌↔◌, ◌∙◌, arith}
use dpdk_for_beginners.Napt.State.{next_port, min_port, max_port}

-- the port after `n` more allocations
unfoldable pub port_after : ℕ → ℕ → ℕ
port_after zero c = c
port_after (suc n) c = port_after n (next_port c)

-- Every allocation gives a port from 1024 to 65534, if the last one lay there.
pub next_port_range :
    (c : ℕ) → min_port ≤ c → c < max_port → (min_port ≤ next_port c) × (next_port c < max_port)
unfolding next_port
next_port_range c lo h = ground arith

next_port-offset :
    (c k : ℕ)
    → min_port ≤ c
    → c < max_port
    → min_port + (next_port c - min_port + k) % 64511 ≡ min_port + (c - min_port + suc k) % 64511
unfolding next_port
next_port-offset c k lo hi = ground arith

-- From a port in the range on, the ports go round the 64,511 values from 1024 to 65534, one by
-- one.
pub port_after_lem :
    (n c : ℕ) → min_port ≤ c → c < max_port → port_after n c ≡ min_port + (c - min_port + n) % 64511
unfolding port_after
port_after_lem zero c lo hi = omega arith
port_after_lem (suc n) c lo hi =
    let r = next_port_range c lo hi in
    port_after_lem n (next_port c) r.0 r.1 ∙ next_port-offset c n lo hi

-- Two allocations in the range give the same port exactly if their distance is a multiple of
-- 64,511: no port is looked up before it is given out again.
pub port_after-eq : (n c : ℕ) → min_port ≤ c → c < max_port → (port_after n c ≡ c) ↔ (n % 64511 ≡ 0)
port_after-eq n c lo hi =
    ((λ e. omega (arith, port_after_lem n c lo hi)), (λ e. omega (arith, port_after_lem n c lo hi)))
