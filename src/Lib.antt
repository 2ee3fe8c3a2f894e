-- ===== src/Lib.antt =====
-- Lewis: a library for device simulators. A device is processed in cycles of a given time step; a
-- cycle-based state machine chooses what it does, and adapters expose it over a network protocol.
--
-- The parts of the program and the modules that model them (paths from the repository's root):
--
-- - lewis/adapters/stream.py: Stream. Replies and terminators are in Stream.Values, matchers and the class
--   Func in Stream.Func, Cmd, Var and the binding of commands in Stream.Commands, one connection
--   (StreamHandler) in Stream.Handler, StreamServer and StreamAdapter in Stream.Server. Compiled regular
--   expressions, scanf, the sockets and the members of devices are parameters; what asyncore and
--   asynchat do with a connection is a sequence of events (Stream.Handler.Session). Not modelled: the
--   documentation of commands, and connections that close while a loop runs over them.
-- - lewis/adapters/modbus.py: Modbus. The data banks and the data store are in Modbus.Bank (a bank is
--   an object in a memory, so that two fields of a store may share it), frames in Modbus.Frame, the
--   loops over bits in Modbus.Bits, the handlers of all function codes in Modbus.Handlers, and the
--   buffering loop of ModbusProtocol in Modbus.Protocol. The callable that sends a response is the list
--   of what it was given. Sockets, the adapter and the interface class are not modelled.
-- - lewis/adapters/epics.py: Epics. PVs and their binding are in Epics.Pv, writes and updates of the
--   driver in Epics.Driver, and the adapter in Epics.Adapter, over the methods of pcaspy as a parameter.
--   Its documentation property, which formats text, is not modelled.
-- - lewis/core/adapters.py: Adapters. What a collection asks of an adapter is the interface
--   Adapters.Class, which Stream.Server.Contract and Epics.Adapter fill; the collection with its threads
--   is in Adapters.Collection. A thread runs within the calls that start and join it, and else
--   turn by turn; a start is taken not to time out. Reports are not modelled.
-- - lewis/core/control_server.py and control_client.py: Control. Names are taken apart, so they are lists
--   of code points (Control.Names). Exposed objects and their collection are in Control.Server, proxies
--   and requests in Control.Client. The request manager and the transport are a parameter.
-- - lewis/core/devices.py and lewis/devices/__init__.py: Devices. What inspection finds in a device
--   module is a record (Devices.Builder); Devices.Machine has the constructor of StateMachineDevice, and
--   Devices.Setups the switch of a setup, which joins a simulation, its device and its adapters.
-- - lewis/core/statemachine.py: StateMachine. The stored tables are in StateMachine.Defs, the
--   constructor in StateMachine.Config, a cycle in StateMachine.Cycle, the class State in
--   StateMachine.States. Not modelled: bind_handlers_by_name, the class Transition, logging, and
--   handlers that call the machine they belong to.
-- - lewis/core/processor.py, approaches.py, utils.py (check_limits and dict_strict_update) and
--   simulation.py: Core. The device and the adapters are a parameter of Core.Simulation, whose loop
--   runs over a list of turns: the requests of other threads that are served while a cycle sleeps, and
--   the time that the cycle takes. Requests between other instructions of a cycle, the control server's
--   thread and set_device_parameters are not modelled.
-- - lewis/devices/linkam_t95: Linkam. lewis/devices/julabo: Julabo. lewis/devices/chopper: Chopper.
--   Each has the device's data, its states and transitions as a configuration of the state machine,
--   and its commands. Variables that are only read are not modelled, and commands are not joined
--   to the adapters of Stream and Epics.
--
-- Not modelled at all: lewis/core/logging.py, whose work is output, and the scripts and examples.
--
-- Python's int is the integer type of Common.Int, bytes are numbers, and a float is an element of the
-- interface Core.Number, whose laws (an order without NaN, exact multiplication by 1 and -1, signs of
-- quotients) are hypotheses where they are used; Core.Integers fills it. What float reads in a text is
-- an argument of the definitions that use it. Code that may raise returns
-- a result beside the state it leaves (Common.Raising), since a raise does not undo assignments.
-- Dictionaries are association lists in the order of insertion (Common.Dict).
--
-- Only the loop of ModbusProtocol.process uses fuel: the length of the buffer, which is enough since
-- every round takes at least six bytes from it. A cycle of a machine and all else is structural.
pub mod Adapters
pub mod Chopper
pub mod Common
pub mod Control
pub mod Core
pub mod Devices
pub mod Epics
pub mod Julabo
pub mod Linkam
pub mod Modbus
pub mod StateMachine
pub mod Stream
