-- ===== src/Tests/Connect.antt =====
-- Connections to a node that is not up yet, and to one that was just reached.
use pacemaker_cloud.Common.{
  ℕ, ◌-◌, ◌≡◌, refl, true, [], pos, negsuc, ok, fault, use_after_free, arith,
}
use pacemaker_cloud.Recover.Total.{Ends}
use pacemaker_cloud.Ssh.{userauth_publickey_fromfile, Transport}
use pacemaker_cloud.Ssh.Invariant.{Inv}
use pacemaker_cloud.Ssh.Connect.{
  transport_at, Connection, Dial, new_transport, connect_execute, ssh_assembly_connect,
  transport_disconnect,
}
use pacemaker_cloud.Ssh.Link.{Goes, ssh_assembly_connect-Goes}
use pacemaker_cloud.Ssh.Release.{taken_down, transport_disconnect-taken_down, connecting_after_free}

abbrev calling : Connection ℕ
calling = record {
  slot = transport_at new_transport;
  connect_jobs = 1;
  ssh_jobs = 0;
  exec_jobs = [];
  sessions = 0;
}

calling-Inv : Inv {D = ℕ} new_transport
calling-Inv = record { scheduled = refl; jobs = tt; connected = tt; queued = tt; distinct = tt }

-- The key is not accepted yet.
abbrev knocking : Transport ℕ
knocking = record new_transport { ssh_state = userauth_publickey_fromfile }

abbrev at_the_door : Connection ℕ
at_the_door = record {
  slot = transport_at knocking;
  connect_jobs = 0;
  ssh_jobs = 1;
  exec_jobs = [];
  sessions = 1;
}

-- The socket connects, and the key is refused.
abbrev refused : Dial
refused = record { connected = true; session = true; startup = pos 0; userauth = negsuc 17 }

ssh_assembly_connect-Goes_example :
    Goes (ssh_assembly_connect (negsuc 36) refused (record at_the_door { ssh_jobs = 1 - 1 }))
ssh_assembly_connect-Goes_example =
    ssh_assembly_connect-Goes (negsuc 36) refused knocking at_the_door (refl, (refl, refl, refl))
      (omega arith)

knocking-Inv : Inv knocking
knocking-Inv = record { scheduled = refl; jobs = tt; connected = tt; queued = tt; distinct = tt }

transport_disconnect-taken_down_example :
    transport_disconnect true at_the_door ≡ ok (taken_down userauth_publickey_fromfile)
transport_disconnect-taken_down_example =
    transport_disconnect-taken_down knocking at_the_door (refl, (refl, refl, refl)) knocking-Inv

connecting_after_free_example :
    Ends
      (λ k'. (k'.connect_jobs ≡ 1) × (connect_execute refused k' ≡ fault use_after_free))
      (transport_disconnect true calling)
connecting_after_free_example =
    connecting_after_free refused new_transport calling (refl, (refl, refl, refl)) calling-Inv refl
