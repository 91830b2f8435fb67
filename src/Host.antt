-- ===== src/Host.antt =====
-- What the program does not implement, and the monad in which its methods run. The wallet service,
-- the message queue, Redis, the database and the base classes of the wallet SDK are a `Host`: one
-- answer for each kind of call, which may depend on all calls made before. A method is an `Action`:
-- it may throw, it changes the object it works on, and it leaves a record of the calls it has made.
mod Errors
mod Calls
mod Actions
pub mod Keeps
pub mod Returns
pub mod Answers
pub mod Yields
pub mod Reads
pub use Errors.*
pub use Calls.*
pub use Actions.*
