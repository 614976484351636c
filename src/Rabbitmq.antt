-- ===== src/Rabbitmq.antt =====
-- pkg/rabbitmq: names of queues, the topology that is declared, the publishers and the worker.
pub mod Names
pub mod Topology
pub mod Headers
pub mod Worker
pub mod Subscriber
pub mod Connection
pub mod Reconnecting
pub mod Lifecycle
pub mod Subscribing
pub mod Closing
pub mod Publisher
pub mod Declared
pub mod Routing
pub mod Settled
pub mod Published
mod Tests
mod Examples
