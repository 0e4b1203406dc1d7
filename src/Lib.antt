-- ===== src/Lib.antt =====
-- Verification of Pacemaker Cloud: the node daemon `caped`, which watches the resources of virtual
-- machines, restarts what fails and escalates what fails too often.
--
-- The parts and their files (paths from the repository's root):
--   Common   the numbers, texts, maps and results that the parts share. A `Result` is a value or the
--            fault that ends the process: a failed assert, a null pointer, memory used after its
--            release.
--   Ocf      src/pcmk_pe.c, the tables of exit codes and reasons.
--   Recover  src/recover.c. `recover_init` and `recover_state_set` over a structure that its
--            callbacks may change; `Platform` is libqb's stopwatch and the arithmetic of `float`.
--   Cape     src/cape.c, with the operations of src/pcmk_pe.c: `Cape` is the daemon's state, with a
--            memory of operations and of digests in which freed places are empty. `Cape.Memory` has
--            the reference counts, `Cape.History` the operation history, `Cape.Monitor` the life of
--            an operation from `resource_execute_cb` to `resource_action_completed`.
--            `Cape.Status` writes the status section that the policy engine reads, and
--            `Cape.Process` starts a transition. `Cape.Node` is the change of state of a node.
--            `Cape.Config` loads the configuration, from `parse_and_load` down to the parameters of
--            a resource, and `Cape.Instance` is src/inst_ctrl.c as far as loading uses it: `Cloud`
--            is what the cloud answers to the requests that a handler makes.
--   Graph    src/pcmk_pe.c, the functions that the library calls to execute the actions of a
--            transition, and the job that runs it. What the library has executed in one run, and
--            what it returns, is an argument of `process_next_job`. `Graph.Loop` has the jobs,
--            results and timers of the main loop in any order.
--   Admin    src/capeadmin.c, the document of an event, and the loop that sends it.
--   Daemon   the parts together: src/cape.c on the transport of src/trans_ssh.c and the cloud of
--            src/inst_ctrl.c. A `Daemon` is the state of `Cape` and the connection of each node;
--            `client` is the transport of a node with what its commands carry. `Daemon.Action` hands
--            an action to a transport, with the text of `Ssh.Command`, and `Daemon.Exit` is
--            `cape_exit`.
--   Caped    src/caped.c, with `cape_init` and `cape_load` of src/cape.c: the start of the daemon, from
--            the options that getopt returns to the main loop. `Files` is what the file system and
--            libxml answer.
--   Cim      src/cim_service.c, the driver for a CIM server, and in `Cim.Jobs` src/trans_cim.c, the
--            transport that is built in place of that of src/trans_ssh.c. `Cimc` is what libcimc
--            answers.
--   Cpe      src/libinit.c, which starts the jobs of deployables over D-Bus, and the daemon that asks for
--            them: `Cpe.Agent` is src/cpe_impl.cpp and the methods of src/cpe_agent.cpp, and `Cpe.Http`
--            is src/cpe_httpd.cpp. libdbus and the push parser of libxml are parameters.
--   Qmf      src/qmf_object.cpp and src/qmf_agent.cpp, the calls of methods of a remote agent: `Qmf` is
--            one object with its agent, its requests and their timers.
--   Matahari  src/matahari.cpp, the transport by such an agent, as far as it watches the heartbeats of
--            a node.
--   Deltacloud  src/deltacloud.c, the other driver of a cloud.
--   Openstack  src/openstackv1.c, the requests to the cloud and the callbacks that read its answers.
--   Ssh      src/trans_ssh.c: the queue of commands of a transport (`Ssh`), the run of one command
--            (`Ssh.Exec`), and the handlers of the main loop (`Ssh.Handlers`) over any state in
--            which a transport stands. `Ssh2` is what libssh2 answers. `Ssh.Connect` brings a
--            connection up and takes it down; `Dial` is what the calls answer on the way up.
--   Tests    runs on a node with a web server, and on a queue of two commands.
--
-- A failure of an operation's result reaches `resource_state_set`, which moves the recovery state of
-- the resource; its callbacks send an event, stop the monitor or ask the cloud to destroy the
-- instance. Operations that are handed to the transport are recorded in `actions_sent`; their result
-- comes back by `resource_action_completion`. A health check that fails, or an action that times out,
-- moves the recovery state of the node, whose callbacks take the connection down, clear the history
-- and ask the cloud for a new instance.
--
-- Bounds. 32-bit counters wrap at 2 ^ 32. `Common.Print.decimal` and the other loops on fuel get one
-- unit for each digit and one more than the number has, which is enough. `event_spammer` has a loop
-- that may not end; its fuel counts the rounds.
--
-- A document of libxml is the list of the children of its root (`Common.Xml`).
--
-- Not modelled: the main loop of libqb, which appears as lists of the jobs and timers that were
-- added; the names that do not fit the buffers of `snprintf` and `strcpy`, and commands longer than
-- COMMAND_MAX; a failing start of libssh2, at which src/trans_ssh.c ends by an `assert`; the release of a graph,
-- with its actions, at the end of a transition; parameters of the configuration without a name of an
-- assembly or a parameter, at which the model ends as it loads them;
-- logging and the measuring of times for it; libxml, libcurl, libssh2, libcimc, libdeltacloud, libdbus,
-- libmicrohttpd, qpid and the policy engine, which are parameters where they are used; the glue to qpid and
-- GLib in src/common_agent.cpp, src/mainloop.cpp, src/config_loader.cpp, src/qmf_multiplexer.cpp and
-- src/cpe_agent_register.cpp; the operations of resources in src/matahari.cpp, which use a function and a
-- field that src/pcmk_pe.h does not have; the Python tools and the tests. An address
-- that was freed is not given to another object.
pub mod Common
pub mod Ocf
pub mod Recover
pub mod Cape
pub mod Ssh
pub mod Openstack
pub mod Admin
mod Tests
pub mod Daemon
pub mod Graph
pub mod Deltacloud
pub mod Cim
pub mod Cpe
pub mod Qmf
pub mod Matahari
pub mod Caped
