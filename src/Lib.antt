-- ===== src/Lib.antt =====
-- A runtime of a humanoid robot, written for ROS 2. Requests to move come from a teleoperation bridge,
-- from a task bridge, which spoken intents reach too, and from a motion controller. The execution
-- manager arbitrates between them and hands what it admits to the servo drivers, which guard their
-- serial ports with a safety latch of their own. Emergency stops go the same way, with time stamps
-- that order them against the commands.
--
-- The parts and their code:
--
--   Arbitrator, src/execution/execution_manager/execution_manager/arbitrator.py: `CommandArbitrator`.
--     Its state is the record `Arbitrator`, whose fields stand in groups (leases, logs, tombstones).
--     A method returns its answer with the new state. `receive_command` with one of the three sources
--     is `receive`; with another text it raises, which is `none` of `receive_command`. `Events` makes
--     one call of any kind a step, and any list of calls a run.
--   Manager, .../execution_manager/execution_manager_node.py with command_adapter.py (`Commands`),
--     feedback_adapter.py (`Feedback`) and actuator_service_adapter.py (`Service`): the node around the
--     arbitrator. `State` holds its fields and the stamps of driver safety, `Handlers` the callbacks
--     that do not wait, `Operations` and `Stopping` those that do, `Published` the two state messages,
--     and `System` all of them together, with what was published.
--   Teleop, src/bridges/teleoperation_bridge/websocket_bridge/: messages of web clients. `Json`, `Parse`
--     and `Formats` read servo commands (message_handler.py), `Messages` finds who handles a message
--     (with websocket_handler.py), `Position` and `Bridge` are bridge_node.py: the check against the
--     state that the execution manager publishes, and the motion command. `Server` holds the leases of
--     the connections (ws_server.py and websocket_handler.py).
--   SafetyLatch, src/execution/servo_hardware/servo_hardware/safety_latch.py: `DriverSafetyLatch`
--     (`Latch`) and the names of commands (`Names`).
--   Lx, .../servo_hardware/protocols/lx_protocol.py: the binary protocol: `Encode` and `EncodeRead`
--     make frames, `Packet` scans bytes for frames, `Decode` reads answers.
--   Zl, .../servo_hardware/protocols/zl_protocol.py: the text protocol. `Encode` makes frames, `Decode`
--     reads answers with the patterns of the class, over the Python texts of `Unicode`.
--   Driver, .../servo_hardware/bus_port_driver.py: the conversions of positions (`Convert`), the command
--     tables (`Specs`, `Encoders`), the handlers of moves and of driver safety (`Move`) and the command
--     service (`Execute`). A handler's result is the frame that is given to the port.
--   Router, .../servo_hardware/bus_protocol_router.py and bus_protocol_registry.py: which port and which
--     protocol a command is published to (`Route`), the protocols that are known (`Registry`), and the
--     queue of probes for those that are not (`Probing`), which timer callbacks work off in steps.
--     `Relay` takes stops and releases, by the service, which hands them on to the drivers of all ports,
--     and by the topic; `Service` reads positions and executes commands with the protocols that may be the servo's.
--   Motion, src/control/parallel_3dof_controller/parallel_3dof_controller/motion_execution.py: `Goal`,
--     `Feedback` and `TaskState`.
--   Scene, .../parallel_3dof_controller/scene_admission.py: `Policy` and `Gate`.
--   Task, src/bridges/task_service_bridge/task_service_bridge/task_contract.py: `Contract`.
--   Speech, src/speech/speech_interface/speech_interface/intent_contract.py: `Intent`, which shares the
--     JSON values of Teleop.
--   Prelude: texts with Python's `strip` and `lower`, integers, lists, and `Window`, the bounded memory
--     that the tombstones of the arbitrator and the observations of the scene gate share.
--
-- Each part has its theorems in modules of their own, and concrete cases in `Tests`.
--
-- Numbers: Python's integers are ℤ, bytes and counters ℕ, and masks and shifts are written with `%`
-- and `/`. Monotonic times are whole ticks; the time stamps of the latch are nanoseconds. A finite
-- double is a whole multiple of 2^-1074 (`Motion.Float`), and the one sum of floats that is compared
-- is rounded (`Scene.Rounding`). The conversions of the driver divide exactly and round as Python
-- does.
--
-- Fuel: the scanner of the LX protocol runs on the length of the data, and drops a byte at least in
-- each round. `Scene.Rounding.bits` halves 4096 times at most, more often than a sum of doubles has
-- digits. Everything else is by recursion on a list or a text.
--
-- Concurrency: the arbitrator is called from one executor, the latch, the gate and the admission hold
-- a lock for each method, and the driver holds one around admission and move; so calls are steps in a
-- sequence, and a theorem on all lists of calls covers every order. The node of the execution manager
-- runs on four threads, and its stop operations are coroutines: a `Point` is a place between two
-- sections that hold the lock, and a step of `System` runs one section of any coroutine that stands
-- somewhere. A stamp is taken under the lock and published later, so these are two steps. While the
-- coroutine of an emergency stop or its release waits, the default callback group starts no other
-- callback, which the steps of the topics and of the timer have as a premise. What the wait before a
-- section brings, a timeout and an exception included, is an argument of the step. The bridge hands a
-- published state to its node and to its server in one callback, so one `View` stands for both; its
-- server's messages, broadcasts and disconnections are steps in any order.
--
-- Parameters: what `json.loads` makes of a text, the two factories of lease identifiers (`Config`),
-- the exchange over the serial port with the decoder that the command's specification names
-- (`Driver.Execute`), what the drivers answer to the router (`Router.Relay`, `Router.Service`) and to
-- the node (`Manager.Operations.Env`), the identifiers that `uuid4` makes, and what happens to a
-- number that is assigned to a 16-bit field of a message (`Teleop.Bridge.Assigned`). Messages are
-- records with the fields that the code reads.
--
-- Not modelled: ROS nodes, timers and topics around these parts; the calls by which the router reaches
-- a driver; the kinematics; the sockets of the web server and the texts that it sends; the extensions
-- of the bridge beyond the types of messages that they register; the speech node; sensors, motion
-- capture; launch files.
pub mod Prelude
pub mod Arbitrator
pub mod SafetyLatch
pub mod Lx
pub mod Zl
pub mod Motion
pub mod Driver
pub mod Scene
pub mod Task
pub mod Router
pub mod Manager
pub mod Teleop
pub mod Speech
