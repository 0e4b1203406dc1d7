-- ===== src/Tests.antt =====
-- Concrete runs: each theorem that has hypotheses is applied at an input of the program.
mod Watch
mod Recover
mod Ocf
mod World
mod Cape
mod Ssh
mod Report
mod Openstack
mod Connect
mod Node
mod Config
mod Admin
mod Daemon
mod Graph
mod Forget
mod Deltacloud
mod Action
mod Cim
mod Cpe
mod Qmf
