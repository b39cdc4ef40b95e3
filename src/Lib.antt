-- ===== src/Lib.antt =====
-- omniEvents, a CORBA Event Service: a verification of the parts of the server that carry events and
-- that keep connections across restarts.
--
-- An EventChannel passes events from suppliers to consumers. Suppliers push to a ProxyPushConsumer or
-- are asked by a ProxyPullConsumer; in each cycle the channel's SupplierAdmin collects what they gave
-- into a list. The channel appends that list to an EventQueue, through a Filter where it has one, and
-- each ProxyPushSupplier and ProxyPullSupplier reads the queue by a Reader of its own. Proxies write
-- their connections to a transaction log in the text form of a PersistNode tree, and are reincarnated
-- from it when the server starts. Long lists of channels and proxies are handed out by Iterators,
-- which a servant locator keeps alive.
--
-- Files, and the sources that they model (paths from the repository's root):
--   Prelude: numbers, Booleans, lists and strings that all share.
--   Queue: EventQueue and EventQueue::Reader, src/EventQueue.h and src/EventQueue.cc. Queue.Filter: the
--     filters, src/Filter.h and src/Filter.cc. Queue.Refinement: the specification of a reader.
--   PersistNode: the tree, src/PersistNode.h and src/PersistNode.cc. PersistNode.Text: its text form,
--     output(), readtoken(), readnode() and the constructor from a stream. PersistNode.Longs: numeric
--     attributes. PersistNode.Parse: what reading does, for every text and for a text that was written.
--   Proxy: class Proxy and the helpers of Servant, src/ProxyManager.cc and src/Servant.cc.
--   Proxy.PullConsumer: class ProxyPullConsumer_i, src/ProxyPullConsumer.cc.
--   Proxy.PushSupplier and Proxy.PushSupplierManager: src/ProxyPushSupplier.cc.
--   Proxy.PullSupplier and Proxy.PullSupplierManager: src/ProxyPullSupplier.cc.
--   Proxy.PushConsumer: class ProxyPushConsumer_i, src/ProxyPushConsumer.cc. Proxy.PushConsumer.Table: its
--     map of connections. Proxy.PushConsumer.Recovery: a restart of the server between its calls.
--   Journal: the lines that are appended to the log, the records of one line that proxies write and
--     those of several that channels write with PersistNode::output(), and what reading them does.
--   Log: the log's files and checkpoints, src/omniEventsLog.cc. Log.Checkpoint: what a checkpoint leaves on
--     the disk. Log.Checkpoint.Durability: a server's writes and checkpoints until its process ends.
--     Log.Startup: the first state and the names of the files. Log.Options: the port and
--     end point that main() in src/main.cc chooses by its options and the database.
--   SupplierAdmin: src/SupplierAdmin.cc, its cycle over an interface of the proxy managers.
--     SupplierAdmin.Proxies: its other operations, with the managers of this library.
--     SupplierAdmin.Restart: a database of its proxies.
--   ConsumerAdmin: src/ConsumerAdmin.cc. ConsumerAdmin.Arrival: the order in which events arrive, through
--     src/ProxyPushConsumer.cc, src/SupplierAdmin.cc and the main loop of src/EventChannel.cc.
--   EventChannel: src/EventChannel.cc, as the steps of its thread and of what others call.
--     EventChannel.Store: the channels of a factory.
--   Orb: the deferred requests of src/Orb.cc.
--   Factory: supports(), parseCriteria() and extract() of src/EventChannelFactory.cc. Factory.Period: the
--     pull retry period that criteria give. Factory.Channels: the other operations that make and find
--     channels, with setInsName() of src/EventChannel.cc and newUniqueId() of src/Servant.cc; the ORB's
--     POAs are its interface Adapters, whose laws are Factory.Channels.Names.IsAdapters.
--     Factory.Listing: what the factory tells of its channels and writes of them.
--   Daemon: the background process, src/daemon_unix.cc, and the courses of main(), src/main.cc.
--     Daemon.Parent: the status that the process learns which started the server. Daemon.Pidfile: the
--     pidfile of another server.
--   Naming: operator<< and str2name() of src/naming.cc. Naming.Binding: bindName2Object(), on an interface of
--     the naming service and its laws.
--   Iterators: src/Iterator.h, src/IteratorSupport.h and src/IteratorSupport.cc.
--
-- A function of the code is a definition of the same name in the spelling of this library. An object's
-- members are a record that its methods take and return. Methods that throw are in the monad Proxy.M,
-- in which what was done before an exception stays done. The ORB is an argument: the answers that
-- poll_response() finds, string_to_object(), the type of an event, and the clock are parameters. The
-- system's files are a directory of three names and the texts of files; a script says which calls of a
-- process work, and where it ends. Calls that the code sends, and the text that it writes to the log,
-- are lists in the state. A string is the list of its character codes.
--
-- Fuel: str2name() takes a round for each character and one more, and the reading of a text two more,
-- since each round of a loop consumes a character or ends it. The loop that moves _nextPull takes as
-- many rounds as there are nanoseconds up to now, since a round moves it by a millisecond or more. An
-- unsigned long has 64 bits and a CORBA::ULong 32; where the code adds unsigned longs, the wrap-around
-- is written out. Other counters are numbers without bound.
--
-- Not modelled: the deletion of a channel that a POA still holds, the calls between the POAs and the
-- managers, the start of the ORB and its reports of failed objects, the program's command line, the
-- list of locators of the sweeping thread and its pauses, the timed waits of the other threads, the
-- Windows and VMS builds, and the tools. The servants' reference counts are modelled for the locator,
-- for the callbacks of deferred requests, and for the channel as far as its main loop asks for them.
pub mod Prelude
pub mod Queue
pub mod PersistNode
pub mod Journal
pub mod Log
pub mod Proxy
pub mod SupplierAdmin
pub mod ConsumerAdmin
pub mod EventChannel
pub mod Orb
pub mod Factory
pub mod Naming
pub mod Iterators
pub mod Daemon
