-- ===== src/App.antt =====
-- State machines of apps/true-tick/src: the shutdown gate, the quit decision, the queue between
-- the pipe server and the UI thread, the handler of a connection, and the power reconciliation.
pub mod Shutdown
pub mod Quit
pub mod CommandQueue
pub mod PipeServer
pub mod Power
