-- ===== src/Tests.antt =====
-- Runs of the modelled programs at concrete inputs: the theorems applied to pools, tables, packets and
-- rings as the programs have them.
mod Data
mod NatPool
mod Napt
mod Balancer
mod GraphFw
mod Vxlan
mod Segregate
mod Lease
mod Config
mod Session
mod Monitor
mod Transmit
mod Acl
mod Threads
mod Pipeline
mod Router
mod RxDrop
mod Ports
mod FeatureArc
mod PacketChange
mod Reorder
mod Telemetry
mod GraphNodes
mod Ipc
mod Switch
mod Rcu
